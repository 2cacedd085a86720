-- ===== src/Tracer/SpanCalls.antt =====
-- The methods of span_implementation.go and noop.go, as a sequence of calls: each returns the span and
-- what it sent to the reporter. `Finish` writes the duration without the lock that the setters hold,
-- so that a setter running at the same time is not described here.
use zipkin_go.Base.{
  Bool, false, ◌&&◌, ◌||◌, Option, none, some, List, [], ◌∷◌, ◌++◌, Str, codes, str_eq, lookup,
  insert, is_some, if◌then◌else◌, ◌-ℤ◌,
}
use zipkin_go.Model.Spans.{SpanContext, SpanModel, Endpoint, Time, Duration}
use zipkin_go.Tracer.State.{SpanImpl, Span, noop_span, recording, compare_and_swap}

abbrev pub tag_error : Str
tag_error = codes "error"

abbrev pub with_model : SpanImpl → SpanModel → SpanImpl
with_model s m = record s { model = m }

unfoldable pub set_name : Str → SpanImpl → SpanImpl
set_name name s = with_model s (record s.model { name = name })

-- The endpoint is copied.
unfoldable pub set_remote_endpoint : Option Endpoint → SpanImpl → SpanImpl
set_remote_endpoint e s = with_model s (record s.model { remote_endpoint = e })

unfoldable pub annotate : Time → Str → SpanImpl → SpanImpl
annotate t value s =
    with_model s (record s.model {
      annotations = s.annotations ++ record { timestamp = t; value = value } ∷ [];
    })

-- The first error tag stays.
unfoldable pub tag : Str → Str → SpanImpl → SpanImpl
tag key value s =
    if str_eq key tag_error && is_some (lookup key s.tags)
    then s
    else with_model s (record s.model { tags = insert key value s.tags })

-- The body that `Finish` and `FinishedWithDuration` share behind the duration.
unfoldable pub finish_with : Duration → SpanImpl → SpanImpl × List SpanModel
finish_with d s =
    let (flag, swapped) = compare_and_swap s.must_collect 1 0 in
    if swapped
    then (let s' = record s { model = record s.model { duration = d }; must_collect = flag } in
        (s', (if s'.flush_on_finish then s'.model ∷ [] else [])))
    else (s, [])

unfoldable pub finished_with_duration : Duration → SpanImpl → SpanImpl × List SpanModel
unfolding finish_with
finished_with_duration d s = finish_with d s

-- `now` is the time of the call.
unfoldable pub finish : Time → SpanImpl → SpanImpl × List SpanModel
unfolding finish_with
finish now s = finish_with (now -ℤ s.timestamp) s

-- A span that is sampled, by itself or by the debug flag.
abbrev pub is_sampled : SpanContext → Bool
is_sampled sc = sc.debug || elim sc.sampled [ none ↦ false | some b ↦ b ]

unfoldable pub flush : SpanImpl → SpanImpl × List SpanModel
flush s = (s, (if is_sampled s.context then s.model ∷ [] else []))

pub data SpanCall : Type 0 where
  set_name_call : Str → SpanCall
  set_remote_endpoint_call : Option Endpoint → SpanCall
  annotate_call : Time → Str → SpanCall
  tag_call : Str → Str → SpanCall
  finish_call : Time → SpanCall
  finished_with_duration_call : Duration → SpanCall
  flush_call : SpanCall

unfoldable pub call_impl : SpanCall → SpanImpl → SpanImpl × List SpanModel
unfolding set_name set_remote_endpoint annotate tag finish finished_with_duration flush
call_impl (set_name_call name) s = (set_name name s, [])
call_impl (set_remote_endpoint_call e) s = (set_remote_endpoint e s, [])
call_impl (annotate_call t v) s = (annotate t v s, [])
call_impl (tag_call k v) s = (tag k v s, [])
call_impl (finish_call now) s = finish now s
call_impl (finished_with_duration_call d) s = finished_with_duration d s
call_impl flush_call s = flush s

-- A noop span drops every call.
unfoldable pub call_span : SpanCall → Span → Span × List SpanModel
unfolding call_impl
call_span c (noop_span sc) = (noop_span sc, [])
call_span c (recording s) = let (s', sent) = call_impl c s in (recording s', sent)

unfoldable pub run_calls : List SpanCall → Span → Span × List SpanModel
run_calls [] s = (s, [])
run_calls (c ∷ cs) s =
    let (s', sent) = call_span c s in let (s'', rest) = run_calls cs s' in (s'', sent ++ rest)
