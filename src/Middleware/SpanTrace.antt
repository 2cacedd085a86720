-- ===== src/Middleware/SpanTrace.antt =====
-- middleware/http/spantrace.go: the callbacks of `net/http/httptrace`, as the calls that each makes on
-- the span. A duration and an address stand for the text that their method `String` gives.
pub mod Laws
use zipkin_go.Base.{
  ◌≡◌, refl, arith, Bool, true, false, Option, none, some, List, [], ◌∷◌, ◌++◌, Str, codes, join,
  if◌then◌else◌, Error,
}
use zipkin_go.Model.Spans.{Time}
use zipkin_go.Tracer.SpanCalls.{SpanCall, annotate_call, tag_call}

pub data TraceEvent : Type 0 where
  get_conn : Str → TraceEvent
  got_conn : Bool → Bool → Str → TraceEvent
  put_idle_conn : Option Error → TraceEvent
  got_first_response_byte got_100_continue : TraceEvent
  dns_start : Str → TraceEvent
  dns_done : List Str → Option Error → TraceEvent
  connect_start : Str → Str → TraceEvent
  connect_done : Str → Str → Option Error → TraceEvent
  tls_handshake_start : TraceEvent
  tls_handshake_done : Option Error → TraceEvent
  wrote_headers wait_100_continue : TraceEvent
  wrote_request : Option Error → TraceEvent

-- `strconv.FormatBool`.
abbrev pub format_bool : Bool → Str
format_bool true = codes "true"
format_bool false = codes "false"

module _ (error_text : Error → Str) where
  -- The tag of an error that is not nil.
  abbrev pub error_tag : Str → Option Error → List SpanCall
  error_tag key none = []
  error_tag key (some e) = tag_call key (error_text e) ∷ []

  unfoldable pub trace_calls : Time → TraceEvent → List SpanCall
  trace_calls now (get_conn host_port) =
      annotate_call now (codes "Connecting")
      ∷ tag_call (codes "httptrace.get_connection.host_port") host_port
      ∷ []
  trace_calls now (got_conn reused was_idle idle_time) =
      annotate_call now (codes "Connected")
      ∷ tag_call (codes "httptrace.got_connection.reused") (format_bool reused)
      ∷ tag_call (codes "httptrace.got_connection.was_idle") (format_bool was_idle)
      ∷ (if was_idle
          then tag_call (codes "httptrace.got_connection.idle_time") idle_time ∷ []
          else [])
  trace_calls now (put_idle_conn e) =
      annotate_call now (codes "Put Idle Connection")
      ∷ error_tag (codes "httptrace.put_idle_connection.error") e
  trace_calls now got_first_response_byte = annotate_call now (codes "First Response Byte") ∷ []
  trace_calls now got_100_continue = annotate_call now (codes "Got 100 Continue") ∷ []
  trace_calls now (dns_start host) =
      annotate_call now (codes "DNS Start") ∷ tag_call (codes "httptrace.dns_start.host") host ∷ []
  trace_calls now (dns_done addrs e) =
      annotate_call now (codes "DNS Done")
      ∷ tag_call (codes "httptrace.dns_done.addrs") (join addrs (codes " , "))
      ∷ error_tag (codes "httptrace.dns_done.error") e
  trace_calls now (connect_start network addr) =
      annotate_call now (codes "Connect Start")
      ∷ tag_call (codes "httptrace.connect_start.network") network
      ∷ tag_call (codes "httptrace.connect_start.addr") addr
      ∷ []
  trace_calls now (connect_done network addr e) =
      annotate_call now (codes "Connect Done")
      ∷ tag_call (codes "httptrace.connect_done.network") network
      ∷ tag_call (codes "httptrace.connect_done.addr") addr
      ∷ error_tag (codes "httptrace.connect_done.error") e
  trace_calls now tls_handshake_start = annotate_call now (codes "TLS Handshake Start") ∷ []
  trace_calls now (tls_handshake_done e) =
      annotate_call now (codes "TLS Handshake Done")
      ∷ error_tag (codes "httptrace.tls_handshake_done.error") e
  trace_calls now wrote_headers = annotate_call now (codes "Wrote Headers") ∷ []
  trace_calls now wait_100_continue = annotate_call now (codes "Wait 100 Continue") ∷ []
  trace_calls now (wrote_request e) =
      annotate_call now (codes "Wrote Request")
      ∷ error_tag (codes "httptrace.wrote_request.error") e

  -- The callbacks of a request, each with the clock when it runs.
  unfoldable pub trace_all : List (Time × TraceEvent) → List SpanCall
  unfolding trace_calls
  trace_all [] = []
  trace_all ((now, ev) ∷ evs) = trace_calls now ev ++ trace_all evs
