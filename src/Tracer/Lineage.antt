-- ===== src/Tracer/Lineage.antt =====
-- How the context of a new span comes from its parent's.
pub mod Roots
pub mod Generated
use zipkin_go.Base.{
  ℕ, Bool, true, false, ◌&&◌, not, ◌≡◌, ◌≢◌, refl, arith, Option, none, some, List, [], ◌∷◌, ◌++◌,
  ◌>>=◌, bind-eq-ok, Str, Dict, str_eq, eqb_ℤ, ◌==◌, if◌then◌else◌, Error, Outcome, ok, err, panic,
  raised, Panic, Bool-cases, ==_iff, ne→==_false, inl, inr,
}
use zipkin_go.IdGenerator.{IdGenerator}
use zipkin_go.Model.TraceIds.{TraceId, trace_id_empty, no_trace_id}
use zipkin_go.Model.SpanIds.{SpanId}
use zipkin_go.Model.Spans.{SpanContext, Time, Kind, empty_context, server}
use zipkin_go.Tracer.State.{
  Tracer, SpanImpl, Span, noop_span, recording, blank_span, span_context, policy_restart,
  policy_error,
}
use zipkin_go.Tracer.SpanCalls.{tag, with_model, is_sampled}
use zipkin_go.Tracer.SpanOptions.{SpanOption, run_options, parent, kind_option}
use zipkin_go.Tracer.Start.{
  with_context, start_span_from_context, span_from_context, new_context, parent_options, tag_all,
  new_span, assign_ids, decide, start_recording, start_span,
}

pub tag_all_context : (tags : Dict Str) (s : SpanImpl) → (tag_all tags s).context ≡ s.context
unfolding tag_all tag
tag_all_context [] s = refl
tag_all_context ((k, v) ∷ tags) s = ground (arith, tag_all_context tags (tag k v s))

module _ {W : Type 0} (t : Tracer W) (now : Time) where
  -- What `StartSpan` makes of the context that the options set, apart from the identifiers.
  abbrev pub Decided : SpanContext → SpanContext → W → Type 0
  Decided from to w =
      (to.debug ≡ from.debug)
      × (to.sampled ≡ (
          if not from.debug && not (elim from.sampled [ none ↦ false | some b ↦ true ])
          then some (t.sampler to.trace_id.low w).0
          else from.sampled))
      × (to.baggage ≡ from.baggage)
      × (to.err ≡ from.err)

  pub decide_context :
      (s : SpanImpl) (w : W)
      → ((decide t s w).0.trace_id ≡ s.trace_id)
        × ((decide t s w).0.id ≡ s.id)
        × ((decide t s w).0.parent_id ≡ s.parent_id)
        × Decided s.context (decide t s w).0.context w
  unfolding decide
  decide_context s w = ground arith

  pub span_context-start_recording :
      (s : SpanImpl) → span_context (start_recording t now s) ≡ s.context
  unfolding start_recording span_context
  span_context-start_recording s = ground arith

  -- What `StartSpan` does once its options have made `s` of the fresh span.
  pub start_span-options :
      (name : Str) (options : List (SpanOption W)) (w : W) (s : SpanImpl)
      → t.noop ≢ 1
      → run_options options t (new_span t name) ≡ ok s
      → (let (s1, w1) = assign_ids t s w in
          let (s2, w2) = decide t s1 w1 in
          start_span t now name options w ≡ ok (start_recording t now s2, w2))
  unfolding start_span
  start_span-options name options w s on e = rw (ne→==_false t.noop 1 on, e) refl

  -- A child span: it has its parent's trace, debug flag, baggage and decision, its parent's
  -- identifier as its parent, and a new identifier.
  abbrev pub IsChild : SpanContext → SpanContext → W → Type 0
  IsChild from to w =
      (to.trace_id ≡ from.trace_id)
      × (to.parent_id ≡ some from.id)
      × (to.id ≡ (t.generate.span_id no_trace_id w).0)
      × Decided from to (t.generate.span_id no_trace_id w).1

  IsChild-context :
      (s : SpanImpl) (w : W)
      → trace_id_empty s.trace_id ≡ false
      → (t.shared_spans && str_eq s.kind server) ≡ false
      → IsChild s.context (decide t (assign_ids t s w).0 (assign_ids t s w).1).0.context w
  unfolding assign_ids
  IsChild-context s w full other =
      rw (full, other)
        (let s1 = with_context s (record s.context {
          parent_id = some s.id;
          id = (t.generate.span_id no_trace_id w).0;
        }) in
          let (a, b, c, d) = decide_context s1 (t.generate.span_id no_trace_id w).1 in (a, c, b, d))

  -- The options run first, so the parent option, which stands last, decides the context.
  run_options-parent :
      (error_text : Error → Str) (options : List (SpanOption W)) (sc : SpanContext)
      (s0 s : SpanImpl)
      → sc.err ≡ none
      → run_options options t s0 ≡ ok s
      → run_options (options ++ parent error_text sc ∷ []) t s0 ≡ ok (with_context s sc)
  unfolding run_options parent
  run_options-parent error_text [] sc s0 s e h = ground arith
  run_options-parent error_text (o ∷ os) sc s0 s e h =
      let (s1, first, rest) = bind-eq-ok (o t s0) (λ s'. run_options os t s') h in
      rw first (run_options-parent error_text os sc s1 s e rest)

  -- A span that is started from a context with a span, on a tracer that is no noop, is a child of that
  -- span, where the other options succeed, the parent was extracted and has a trace identifier, and
  -- the new span does not join its parent; and the new Go context holds the new span.
  pub start_span_from_context-IsChild :
      (error_text : Error → Str) (p : Span) (name : Str) (options : List (SpanOption W)) (w : W)
      (s : SpanImpl)
      → t.noop ≢ 1
      → run_options options t (new_span t name) ≡ ok s
      → (span_context p).err ≡ none
      → trace_id_empty (span_context p).trace_id ≡ false
      → (t.shared_spans && str_eq s.kind server) ≡ false
      → (sp : Span) × (w' : W) × (start_span_from_context error_text t now (some p) name options w
          ≡ ok (sp, some sp, w'))
        × IsChild (span_context p) (span_context sp) w
  unfolding start_span_from_context span_from_context new_context
  start_span_from_context-IsChild error_text p name options w s on run no_err full other =
      let sc = span_context p in
      let s' = with_context s sc in
      let run' = run_options-parent error_text options sc (new_span t name) s no_err run in
      let (s1, w1) = assign_ids t s' w in
      let (s2, w2) = decide t s1 w1 in
      (
        start_recording t now s2,
        w2,
        rw (start_span-options name (options ++ parent error_text sc ∷ []) w s' on run') refl,
        rw (span_context-start_recording s2) (IsChild-context s' w full other),
      )
