-- ===== src/Middleware/Client.antt =====
-- middleware/http/client.go and spancloser.go. The method `Do` of the embedded `http.Client` stands for
-- what it does with the request: its calls on the span that it finds in the Go context, and its result.
pub mod Laws
use zipkin_go.Base.{
  Bool, true, false, ◌||◌, Option, none, some, List, [], ◌∷◌, ◌++◌, Str, Dict, codes, if◌then◌else◌,
  ℤ, pos, ltb_ℤ, Error, Panic, Outcome, ok, err, panic, valid_tracer_required, ◌>>=◌,
}
use zipkin_go.Strconv.{format_int}
use zipkin_go.Model.Spans.{SpanContext, SpanModel, Endpoint, Time, empty_context}
use zipkin_go.Tracer.State.{Tracer, Span, span_context, Context}
use zipkin_go.Tracer.SpanCalls.{
  SpanCall, annotate_call, tag_call, finish_call, run_calls, tag_error,
}
use zipkin_go.Tracer.SpanOptions.{parent, remote_endpoint_option}
use zipkin_go.Tracer.Start.{start_span, span_from_context, new_context}
use zipkin_go.Middleware.Transport.{
  ClientRequest, Response, RoundTripper, Transport, TransportOption, round_tripper, transport_trace,
  transport_remote_endpoint, new_transport,
}
use zipkin_go.Middleware.Transport.Trip.{response_size_calls}

-- `http_transport` is the transport of the embedded client before `NewClient` puts `installed` in its
-- place.
pub record Client (W : Type 0) : Type 0 where
  pub tracer : Tracer W
  pub http_transport : Option RoundTripper
  pub installed : Option (Transport W)
  pub http_trace : Bool
  pub default_tags : Dict Str
  pub transport_options : List (TransportOption W)
  pub remote_endpoint : Option Endpoint

abbrev pub ClientOption : Type 0 → Type 0
ClientOption W = Client W → Client W

module _ {W : Type 0} where
  -- The transport of the client that is given; a nil client counts as one without.
  unfoldable pub with_client : Option (Option RoundTripper) → ClientOption W
  with_client none c = record c { http_transport = none }
  with_client (some transport) c = record c { http_transport = transport }

  unfoldable pub client_trace : Bool → ClientOption W
  client_trace enabled c = record c { http_trace = enabled }

  unfoldable pub client_tags : Dict Str → ClientOption W
  client_tags tags c = record c { default_tags = tags }

  unfoldable pub transport_options_option : List (TransportOption W) → ClientOption W
  transport_options_option options c = record c { transport_options = options }

  unfoldable pub with_remote_endpoint : Option Endpoint → ClientOption W
  with_remote_endpoint e c = record c { remote_endpoint = e }

  abbrev pub run_client_options : List (ClientOption W) → ClientOption W
  run_client_options [] c = c
  run_client_options (o ∷ os) c = run_client_options os (o c)

  -- The settings of the client come last, and so override those of the options.
  unfoldable pub install : (Error → Str) → RoundTripper → Client W → Outcome (Client W)
  unfolding new_transport round_tripper transport_trace transport_remote_endpoint
  install error_text default_transport c = do
    let options =
        c.transport_options
        ++ (round_tripper c.http_transport
            ∷ transport_trace c.http_trace
            ∷ transport_remote_endpoint c.remote_endpoint
            ∷ [])
    tr ← new_transport error_text default_transport (some c.tracer) options
    ok (record c { transport_options = options; installed = some tr })

  unfoldable pub new_client :
      (Error → Str) → RoundTripper → Option (Tracer W) → List (ClientOption W) → Outcome (Client W)
  unfolding install
  new_client error_text default_transport none options = err valid_tracer_required
  new_client error_text default_transport (some tracer) options =
      install error_text default_transport (
        run_client_options options (record {
          tracer = tracer;
          http_transport = none;
          installed = none;
          http_trace = false;
          default_tags = [];
          transport_options = [];
          remote_endpoint = none;
        }))

-- What `Do` returns: a response, or an error, which may stand beside a response.
pub data DoResult : Type 0 where
  responded : Response → DoResult
  failed : Option Response → Error → DoResult
  panicked : Panic → DoResult

pub record Doing : Type 0 where
  pub calls : List SpanCall
  pub result : DoResult

-- What is set on the application span for a response.
unfoldable pub app_response_calls : Bool → Response → Time → List SpanCall
unfolding response_size_calls
app_response_calls http_trace res now =
    (if http_trace then annotate_call now (codes "wr") ∷ [] else [])
    ++ (response_size_calls res.content_length
        ++ (if ltb_ℤ res.status_code (pos 200) || ltb_ℤ (pos 299) res.status_code
            then tag_call (codes "http.status_code") (format_int res.status_code)
              ∷ (if ltb_ℤ (pos 399) res.status_code
                  then tag_call tag_error (format_int res.status_code) ∷ []
                  else [])
            else []))

-- What follows `Do`, at the time `now`. A panic of it leaves the function.
unfoldable pub app_result_calls : (Error → Str) → Bool → DoResult → Time → List SpanCall
unfolding app_response_calls
app_result_calls error_text http_trace (responded res) now = app_response_calls http_trace res now
app_result_calls error_text http_trace (failed res e) now =
    tag_call tag_error (error_text e) ∷ finish_call now ∷ []
app_result_calls error_text http_trace (panicked p) now = []

unfoldable pub parent_context : Context → SpanContext
unfolding span_from_context
parent_context ctx = elim (span_from_context ctx) [
  | none ↦ empty_context
  | some sp ↦ span_context sp
]

-- What `DoWithAppSpan` leaves: the span, what was sent to the reporter, and what it returns. The body
-- of a response is a span closer.
pub record AppDone : Type 0 where
  pub span : Span
  pub sent : List SpanModel
  pub result : DoResult

unfoldable pub do_with_span :
    (Error → Str)
    → Bool
    → (Context → ClientRequest → Doing)
    → Context
    → ClientRequest
    → Time
    → Span
    → AppDone
unfolding app_result_calls new_context
do_with_span error_text http_trace do_request ctx req now sp =
    let doing = do_request (new_context ctx sp) req in
    let calls =
      tag_call (codes "http.method") req.method
      ∷ tag_call (codes "http.path") req.path
      ∷ (doing.calls ++ app_result_calls error_text http_trace doing.result now) in
    let (sp', sent) = run_calls calls sp in
    record { span = sp'; sent = sent; result = doing.result }

-- `DoWithAppSpan`, with the clock at its start and behind `Do`.
unfoldable pub do_with_app_span :
    {W : Type 0}
    → (Error → Str)
    → Client W
    → (Context → ClientRequest → Doing)
    → Context
    → ClientRequest
    → Str
    → Time
    → Time
    → W
    → Outcome (AppDone × W)
unfolding parent_context do_with_span
do_with_app_span error_text c do_request ctx req name start now w = do
  (sp, w') ←
      start_span c.tracer start name
        (parent error_text (parent_context ctx) ∷ remote_endpoint_option c.remote_endpoint ∷ []) w
  ok (do_with_span error_text c.http_trace do_request ctx req now sp, w')

-- spancloser.go: one call of `Close`, as the times of the annotation and of the end, and what the
-- wrapped `Close` does. Its error is returned, and its panic leaves the function.
pub record Closing : Type 0 where
  pub now : Time
  pub stop : Time
  pub inner : Outcome (Unit {0})

abbrev pub finish_unless_panic : Outcome (Unit {0}) → Time → List SpanCall
finish_unless_panic (panic p) stop = []
finish_unless_panic _ stop = finish_call stop ∷ []

unfoldable pub close_calls : Bool → Closing → List SpanCall
close_calls trace_enabled c =
    (if trace_enabled then annotate_call c.now (codes "Body Close") ∷ [] else [])
    ++ finish_unless_panic c.inner c.stop

unfoldable pub close : Bool → Closing → Span → Span × List SpanModel × Outcome (Unit {0})
unfolding close_calls
close trace_enabled c sp =
    let (sp', sent) = run_calls (close_calls trace_enabled c) sp in (sp', sent, c.inner)

-- The body closed any number of times.
unfoldable pub close_all : Bool → List Closing → Span → Span × List SpanModel
unfolding close
close_all trace_enabled [] sp = (sp, [])
close_all trace_enabled (c ∷ cs) sp =
    let (sp', sent, inner) = close trace_enabled c sp in
    let (sp'', rest) = close_all trace_enabled cs sp' in (sp'', sent ++ rest)
