-- ===== src/Middleware/SpanTrace/Laws.antt =====
-- The callbacks only annotate the span and set tags of their own.
use zipkin_go.Base.{
  ◌≡◌, refl, arith, Bool, true, false, Option, none, some, List, [], ◌∷◌, ◌++◌, Str, codes, str_eq,
  str_eq_iff, take, Error,
}
use zipkin_go.Model.Spans.{Time}
use zipkin_go.Tracer.SpanCalls.{
  SpanCall, set_name_call, set_remote_endpoint_call, annotate_call, tag_call, finish_call,
  finished_with_duration_call, flush_call,
}
use zipkin_go.Tracer.Reports.{is_finish, is_flush, any_call, count_calls}
use zipkin_go.Tracer.TagValues.{first_tag, last_tag}
use zipkin_go.Middleware.SpanTrace.{
  TraceEvent, get_conn, got_conn, put_idle_conn, got_first_response_byte, got_100_continue,
  dns_start, dns_done, connect_start, connect_done, tls_handshake_start, tls_handshake_done,
  wrote_headers, wait_100_continue, wrote_request, error_tag, trace_calls, trace_all,
}

abbrev pub is_trace_key : Str → Bool
is_trace_key key = str_eq (take 10 key) (codes "httptrace.")

-- An annotation, or a tag under a key of the trace.
abbrev is_trace_call : SpanCall → Bool
is_trace_call (annotate_call now v) = true
is_trace_call (tag_call key v) = is_trace_key key
is_trace_call _ = false

abbrev pub IsTrace : List SpanCall → Type 0
IsTrace [] = Unit
IsTrace (c ∷ cs) = (is_trace_call c ≡ true) × IsTrace cs

IsTrace-append : (xs ys : List SpanCall) → IsTrace xs → IsTrace ys → IsTrace (xs ++ ys)
IsTrace-append [] ys h k = k
IsTrace-append (x ∷ xs) ys (h, hs) k = (h, IsTrace-append xs ys hs k)

IsTrace-error_tag :
    (error_text : Error → Str) (key : Str) (e : Option Error)
    → is_trace_key key ≡ true
    → IsTrace (error_tag error_text key e)
IsTrace-error_tag error_text key none h = tt
IsTrace-error_tag error_text key (some e) h = (h, tt)

trace_calls-IsTrace :
    (error_text : Error → Str) (now : Time) (ev : TraceEvent)
    → IsTrace (trace_calls error_text now ev)
unfolding trace_calls
trace_calls-IsTrace f now (get_conn host_port) = (refl, (refl, tt))
trace_calls-IsTrace f now (got_conn reused true idle_time) = (refl, (refl, (refl, (refl, tt))))
trace_calls-IsTrace f now (got_conn reused false idle_time) = (refl, (refl, (refl, tt)))
trace_calls-IsTrace f now (put_idle_conn e) = (refl, IsTrace-error_tag f _ e refl)
trace_calls-IsTrace f now got_first_response_byte = (refl, tt)
trace_calls-IsTrace f now got_100_continue = (refl, tt)
trace_calls-IsTrace f now (dns_start host) = (refl, (refl, tt))
trace_calls-IsTrace f now (dns_done addrs e) = (refl, (refl, IsTrace-error_tag f _ e refl))
trace_calls-IsTrace f now (connect_start network addr) = (refl, (refl, (refl, tt)))
trace_calls-IsTrace f now (connect_done network addr e) =
    (refl, (refl, (refl, IsTrace-error_tag f _ e refl)))
trace_calls-IsTrace f now tls_handshake_start = (refl, tt)
trace_calls-IsTrace f now (tls_handshake_done e) = (refl, IsTrace-error_tag f _ e refl)
trace_calls-IsTrace f now wrote_headers = (refl, tt)
trace_calls-IsTrace f now wait_100_continue = (refl, tt)
trace_calls-IsTrace f now (wrote_request e) = (refl, IsTrace-error_tag f _ e refl)

-- Whatever callbacks run, they only annotate the span and tag it under keys of the trace.
pub trace_all-IsTrace :
    (error_text : Error → Str) (evs : List (Time × TraceEvent)) → IsTrace (trace_all error_text evs)
unfolding trace_all
trace_all-IsTrace f [] = tt
trace_all-IsTrace f ((now, ev) ∷ evs) =
    IsTrace-append (trace_calls f now ev) (trace_all f evs) (trace_calls-IsTrace f now ev)
      (trace_all-IsTrace f evs)

-- So they neither finish nor flush it, and leave every other tag alone.
pub IsTrace-harmless :
    (cs : List SpanCall) (key : Str)
    → is_trace_key key ≡ false
    → IsTrace cs
    → (any_call is_finish cs ≡ false)
      × (count_calls is_flush cs ≡ 0)
      × (first_tag key cs ≡ none)
      × (last_tag key cs ≡ none)
IsTrace-harmless [] key other h = (refl, refl, refl, refl)
IsTrace-harmless (annotate_call now v ∷ cs) key other (h, hs) =
    ground (arith, IsTrace-harmless cs key other hs)
IsTrace-harmless (tag_call k v ∷ cs) key other (h, hs) =
    ground (arith, IsTrace-harmless cs key other hs, str_eq_iff k key)
IsTrace-harmless (set_name_call n ∷ cs) key other (h, hs) = cc
IsTrace-harmless (set_remote_endpoint_call n ∷ cs) key other (h, hs) = cc
IsTrace-harmless (finish_call n ∷ cs) key other (h, hs) = cc
IsTrace-harmless (finished_with_duration_call n ∷ cs) key other (h, hs) = cc
IsTrace-harmless (flush_call ∷ cs) key other (h, hs) = cc
