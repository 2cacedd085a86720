-- ===== src/Tracer/Sampling.antt =====
-- Which spans are recorded, and that a noop tracer records nothing.
use zipkin_go.Base.{◌&&◌, not, ◌≡◌, ◌≢◌, refl, arith, List, [], ◌∷◌, Str, if◌then◌else◌, ok, ==_iff}
use zipkin_go.Model.Spans.{SpanContext, Time}
use zipkin_go.Tracer.State.{
  Tracer, SpanImpl, Span, noop_span, recording, blank_span, span_context, is_noop,
}
use zipkin_go.Tracer.SpanCalls.{SpanCall, is_sampled, call_span, run_calls}
use zipkin_go.Tracer.SpanOptions.{SpanOption, run_options}
use zipkin_go.Tracer.Start.{new_span, assign_ids, decide, start_recording, start_span}
use zipkin_go.Tracer.Lineage.{start_span-options}

-- The flag of a span that is recorded, where it is sampled.
abbrev pub IsCollected : Span → Type 0
IsCollected (noop_span sc) = Unit
IsCollected (recording s) = s.must_collect ≡ (if is_sampled s.context then 1 else 0)

noop_sends_nothing :
    (calls : List SpanCall) (sc : SpanContext) → run_calls calls (noop_span sc) ≡ (noop_span sc, [])
unfolding run_calls call_span
noop_sends_nothing [] sc = refl
noop_sends_nothing (c ∷ calls) sc = rw (noop_sends_nothing calls sc)

module _ {W : Type 0} (t : Tracer W) (now : Time) where
  -- A noop tracer, after options that succeed, generates no identifier and asks no sampler, its
  -- span keeps the context that the options set, and no sequence of calls on it sends anything.
  pub start_span-noop :
      (name : Str) (options : List (SpanOption W)) (w : W) (s : SpanImpl) (calls : List SpanCall)
      → t.noop ≡ 1
      → run_options options t blank_span ≡ ok s
      → (sp : Span) × (start_span t now name options w ≡ ok (sp, w))
        × (span_context sp ≡ s.context)
        × (run_calls calls sp ≡ (sp, []))
  unfolding start_span span_context
  start_span-noop name options w s calls on run = (
    noop_span s.context,
    rw ((==_iff t.noop 1).1 on, run) refl,
    refl,
    noop_sends_nothing calls s.context,
  )

  assign_ids-must_collect :
      (s : SpanImpl) (w : W) → (assign_ids t s w).0.must_collect ≡ s.must_collect
  unfolding assign_ids
  assign_ids-must_collect s w = ground arith

  decide-IsCollected :
      (s : SpanImpl) (w : W) → s.must_collect ≡ 0 → IsCollected (recording (decide t s w).0)
  unfolding decide
  decide-IsCollected s w e = ground arith

  start_recording_lem :
      (s : SpanImpl)
      → IsCollected (recording s)
      → IsCollected (start_recording t now s)
        × (is_noop (start_recording t now s) ≡ (t.unsampled_noop && not (is_sampled s.context)))
        × (span_context (start_recording t now s) ≡ s.context)
  unfolding start_recording is_noop span_context
  start_recording_lem s c = ground arith

  -- On a tracer that is no noop, after options that succeed, and where they leave the mark for
  -- collection at 0, a span is marked for collection exactly if its context is sampled, by the debug flag
  -- or by a decision; it is a noop span exactly if it is not and the tracer has that option.
  pub start_span-IsCollected :
      (name : Str) (options : List (SpanOption W)) (w : W) (s : SpanImpl)
      → t.noop ≢ 1
      → run_options options t (new_span t name) ≡ ok s
      → s.must_collect ≡ 0
      → (sp : Span) × (w' : W) × (start_span t now name options w ≡ ok (sp, w'))
        × IsCollected sp
        × (is_noop sp ≡ (t.unsampled_noop && not (is_sampled (span_context sp))))
  start_span-IsCollected name options w s on run fresh =
      let (s1, w1) = assign_ids t s w in
      let (s2, w2) = decide t s1 w1 in
      let c = decide-IsCollected s1 w1 (rw assign_ids-must_collect fresh) in
      let (a, b, k) = start_recording_lem s2 c in
      (start_recording t now s2, w2, start_span-options t now name options w s on run, a, rw k b)
