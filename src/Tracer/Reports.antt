-- ===== src/Tracer/Reports.antt =====
-- What the calls on a span send to the reporter.
use zipkin_go.Base.{
  ℕ, ◌+◌, Bool, true, false, ◌&&◌, ◌||◌, not, ◌≡◌, refl, ap, append_assoc, ◌∙◌, arith, List, [],
  ◌∷◌, ◌++◌, ◌==◌, if◌then◌else◌, length, length-append,
}
use zipkin_go.Model.Spans.{SpanModel}
use zipkin_go.Tracer.State.{Span, SpanImpl, recording, noop_span, span_context}
use zipkin_go.Tracer.SpanCalls.{
  SpanCall, set_name_call, set_remote_endpoint_call, annotate_call, tag_call, finish_call,
  finished_with_duration_call, flush_call, is_sampled, call_impl, call_span, run_calls,
}
use zipkin_go.Tracer.Sampling.{IsCollected}

abbrev pub is_finish : SpanCall → Bool
is_finish (finish_call now) = true
is_finish (finished_with_duration_call d) = true
is_finish _ = false

abbrev pub is_flush : SpanCall → Bool
is_flush flush_call = true
is_flush _ = false

abbrev pub any_call : (SpanCall → Bool) → List SpanCall → Bool
any_call p [] = false
any_call p (c ∷ cs) = p c || any_call p cs

abbrev pub count_calls : (SpanCall → Bool) → List SpanCall → ℕ
count_calls p [] = 0
count_calls p (c ∷ cs) = (if p c then 1 else 0) + count_calls p cs

pub any_call-append :
    (p : SpanCall → Bool) (xs ys : List SpanCall)
    → any_call p (xs ++ ys) ≡ (any_call p xs || any_call p ys)
any_call-append p [] ys = refl
any_call-append p (x ∷ xs) ys = ground (arith, any_call-append p xs ys)

pub count_calls-append :
    (p : SpanCall → Bool) (xs ys : List SpanCall)
    → count_calls p (xs ++ ys) ≡ count_calls p xs + count_calls p ys
count_calls-append p [] ys = omega arith
count_calls-append p (x ∷ xs) ys = omega (arith, count_calls-append p xs ys)

-- What a span may still send by finishing.
abbrev pub pending : SpanImpl → Bool
pending s = s.must_collect == 1 && s.flush_on_finish

call_impl-length :
    (c : SpanCall) (s : SpanImpl)
    → length (call_impl c s).1
      ≡ (if pending s && is_finish c then 1 else 0)
        + (if is_flush c && is_sampled s.context then 1 else 0)
unfolding call_impl
call_impl-length (set_name_call name) s = ground arith
call_impl-length (set_remote_endpoint_call e) s = ground arith
call_impl-length (annotate_call t v) s = ground arith
call_impl-length (tag_call k v) s = ground arith
call_impl-length (finish_call now) s = ground arith
call_impl-length (finished_with_duration_call d) s = ground arith
call_impl-length flush_call s = ground arith

pub call_impl-pending :
    (c : SpanCall) (s : SpanImpl)
    → (pending (call_impl c s).0 ≡ (pending s && not (is_finish c)))
      × ((call_impl c s).0.context ≡ s.context)
unfolding call_impl
call_impl-pending (set_name_call name) s = ground arith
call_impl-pending (set_remote_endpoint_call e) s = ground arith
call_impl-pending (annotate_call t v) s = ground arith
call_impl-pending (tag_call k v) s = ground arith
call_impl-pending (finish_call now) s = ground arith
call_impl-pending (finished_with_duration_call d) s = ground arith
call_impl-pending flush_call s = ground arith

-- The calls on a span leave its context alone.
pub span_context-run_calls :
    (cs : List SpanCall) (sp : Span) → span_context (run_calls cs sp).0 ≡ span_context sp
unfolding run_calls call_span span_context
span_context-run_calls [] sp = refl
span_context-run_calls (c ∷ cs) (noop_span sc) = span_context-run_calls cs (noop_span sc)
span_context-run_calls (c ∷ cs) (recording s) =
    span_context-run_calls cs (recording (call_impl c s).0) ∙ (call_impl-pending c s).1

run_calls-length :
    (cs : List SpanCall) (s : SpanImpl)
    → length (run_calls cs (recording s)).1
      ≡ (if pending s && any_call is_finish cs then 1 else 0)
        + (if is_sampled s.context then count_calls is_flush cs else 0)
unfolding run_calls call_span
run_calls-length [] s = ground arith
run_calls-length (c ∷ cs) s =
    let (s', sent) = call_impl c s in
    let (p, x) = call_impl-pending c s in
    ground (
      arith,
      length-append sent (run_calls cs (recording s')).1,
      call_impl-length c s,
      p,
      x,
      run_calls-length cs s',
    )

-- However often a span that is marked for collection where it is sampled is finished, in whatever
-- way and with whatever calls between, it is sent by finishing once if it is sampled, if it flushes
-- on finish and if there is a call that finishes it, and not at all otherwise; on top of that it is
-- sent once for each flush, if it is sampled.
pub run_calls-reports :
    (cs : List SpanCall) (s : SpanImpl)
    → IsCollected (recording s)
    → length (run_calls cs (recording s)).1
      ≡ (if is_sampled s.context && s.flush_on_finish && any_call is_finish cs then 1 else 0)
        + (if is_sampled s.context then count_calls is_flush cs else 0)
run_calls-reports cs s h = ground (arith, run_calls-length cs s)

-- The same for calls that do not flush, on a span that flushes on finish.
pub run_calls-reports_once :
    (cs : List SpanCall) (s : SpanImpl) (finished : Bool)
    → IsCollected (recording s)
    → s.flush_on_finish ≡ true
    → any_call is_finish cs ≡ finished
    → count_calls is_flush cs ≡ 0
    → length (run_calls cs (recording s)).1 ≡ (if is_sampled s.context && finished then 1 else 0)
run_calls-reports_once cs s finished c flushes done quiet = run_calls-reports cs s c ∙ ground arith

pub run_calls-append :
    (xs ys : List SpanCall) (sp : Span)
    → run_calls (xs ++ ys) sp ≡ (
        let (sp', sent) = run_calls xs sp in
        let (sp'', rest) = run_calls ys sp' in (sp'', sent ++ rest))
unfolding run_calls
run_calls-append [] ys sp = refl
run_calls-append (x ∷ xs) ys sp =
    let (sp', sent) = call_span x sp in
    ap (λ (p : Span × List SpanModel). (p.0, sent ++ p.1)) (run_calls-append xs ys sp')
    ∙ rw append_assoc refl
