-- ===== src/Tracer/TagValues.antt =====
-- What the calls on a span leave in its tags.
use zipkin_go.Base.{
  ◌≡◌, refl, arith, Option, none, some, List, [], ◌∷◌, ◌++◌, Str, Dict, if◌then◌else◌, str_eq,
  lookup, lookup-insert, str_eq_iff,
}
use zipkin_go.Tracer.State.{SpanImpl, Span, noop_span, recording}
use zipkin_go.Tracer.SpanCalls.{
  SpanCall, set_name_call, set_remote_endpoint_call, annotate_call, tag_call, finish_call,
  finished_with_duration_call, flush_call, call_impl, call_span, run_calls, tag_error,
}

abbrev pub span_tags : Span → Dict Str
span_tags (noop_span sc) = []
span_tags (recording s) = s.tags

abbrev pub or_else : Option Str → Option Str → Option Str
or_else (some v) o = some v
or_else none o = o

-- The value of a call, if it tags that key.
abbrev pub tagged : Str → SpanCall → Option Str
tagged k (tag_call j v) = if str_eq j k then some v else none
tagged k _ = none

abbrev pub first_tag : Str → List SpanCall → Option Str
first_tag k [] = none
first_tag k (c ∷ cs) = or_else (tagged k c) (first_tag k cs)

abbrev pub last_tag : Str → List SpanCall → Option Str
last_tag k [] = none
last_tag k (c ∷ cs) = or_else (last_tag k cs) (tagged k c)

pub last_tag-append :
    (k : Str) (xs ys : List SpanCall)
    → last_tag k (xs ++ ys) ≡ or_else (last_tag k ys) (last_tag k xs)
last_tag-append k [] ys = ground arith
last_tag-append k (x ∷ xs) ys = ground (arith, last_tag-append k xs ys)

pub first_tag-append :
    (k : Str) (xs ys : List SpanCall)
    → first_tag k (xs ++ ys) ≡ or_else (first_tag k xs) (first_tag k ys)
first_tag-append k [] ys = refl
first_tag-append k (x ∷ xs) ys = ground (arith, first_tag-append k xs ys)

call_impl-tags :
    (c : SpanCall) (s : SpanImpl) (k : Str)
    → lookup k (call_impl c s).0.tags ≡ (
        if str_eq k tag_error
        then or_else (lookup k s.tags) (tagged k c)
        else or_else (tagged k c) (lookup k s.tags))
unfolding call_impl
call_impl-tags (set_name_call name) s k = ground arith
call_impl-tags (set_remote_endpoint_call e) s k = ground arith
call_impl-tags (annotate_call t v) s k = ground arith
call_impl-tags (tag_call j v) s k = ground (
  arith,
  lookup-insert j k v s.tags,
  str_eq_iff j k,
  str_eq_iff k tag_error,
  str_eq_iff j tag_error,
)
call_impl-tags (finish_call now) s k = ground arith
call_impl-tags (finished_with_duration_call d) s k = ground arith
call_impl-tags flush_call s k = ground arith

-- After any calls a tag has the last value that it was given, and the error tag the first.
pub run_calls-tags :
    (cs : List SpanCall) (s : SpanImpl) (k : Str)
    → lookup k (span_tags (run_calls cs (recording s)).0) ≡ (
        if str_eq k tag_error
        then or_else (lookup k s.tags) (first_tag k cs)
        else or_else (last_tag k cs) (lookup k s.tags))
unfolding run_calls call_span
run_calls-tags [] s k = ground arith
run_calls-tags (c ∷ cs) s k =
    ground (arith, call_impl-tags c s k, run_calls-tags cs (call_impl c s).0 k)
