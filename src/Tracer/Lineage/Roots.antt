-- ===== src/Tracer/Lineage/Roots.antt =====
-- Root spans, shared spans, and parents that could not be extracted.
use zipkin_go.Base.{
  true, false, ◌&&◌, ◌≡◌, ◌≢◌, refl, arith, ap, none, some, List, [], ◌∷◌, ◌++◌, Str, str_eq, Error,
  ok, panic, raised, ◌>>=◌, fun_ext,
}
use zipkin_go.Model.TraceIds.{trace_id_empty}
use zipkin_go.Model.Spans.{SpanContext, Time, Kind, server}
use zipkin_go.Tracer.State.{
  Tracer, SpanImpl, Span, blank_span, span_context, policy_restart, policy_error,
}
use zipkin_go.Tracer.SpanCalls.{with_model}
use zipkin_go.Tracer.SpanOptions.{SpanOption, run_options, parent, kind_option}
use zipkin_go.Tracer.Start.{with_context, new_span, assign_ids, decide, start_recording, start_span}
use zipkin_go.Tracer.Lineage.{
  Decided, decide_context, span_context-start_recording, start_span-options, tag_all_context,
}

module _ {W : Type 0} (t : Tracer W) (now : Time) where
  -- A shared span keeps all identifiers of the context that the caller sent.
  abbrev pub IsJoined : SpanContext → SpanContext → W → Type 0
  IsJoined from to w =
      (to.trace_id ≡ from.trace_id)
      × (to.id ≡ from.id)
      × (to.parent_id ≡ from.parent_id)
      × Decided t now from to w

  join_context :
      (s : SpanImpl) (w : W)
      → trace_id_empty s.trace_id ≡ false
      → (t.shared_spans && str_eq s.kind server) ≡ true
      → IsJoined s.context (decide t (assign_ids t s w).0 (assign_ids t s w).1).0.context w
  unfolding assign_ids
  join_context s w full joins =
      rw (full, joins) (decide_context t now (with_model s (record s.model { shared = true })) w)

  -- Of a tracer that is no noop and shares spans, a server span whose options succeed and give it a trace
  -- identifier joins the span of the context that they give it.
  pub start_span-IsJoined :
      (name : Str) (options : List (SpanOption W)) (w : W) (s : SpanImpl)
      → t.noop ≢ 1
      → t.shared_spans ≡ true
      → run_options options t (new_span t name) ≡ ok s
      → trace_id_empty s.trace_id ≡ false
      → str_eq s.kind server ≡ true
      → (sp : Span) × (w' : W) × (start_span t now name options w ≡ ok (sp, w'))
        × IsJoined s.context (span_context sp) w
  start_span-IsJoined name options w s on shared run full serves =
      let (s1, w1) = assign_ids t s w in
      let (s2, w2) = decide t s1 w1 in
      (
        start_recording t now s2,
        w2,
        start_span-options t now name options w s on run,
        rw (span_context-start_recording t now s2)
            (join_context s w full (rw (shared, serves) refl)),
      )

  -- A server span of a tracer that is no noop and shares spans joins the span of a context that was
  -- extracted without an error and has a trace identifier: it has its identifiers, its parent, its
  -- debug flag, and its decision, where it made one.
  pub start_span-join :
      (error_text : Error → Str) (sc : SpanContext) (name : Str) (w : W)
      → t.noop ≢ 1
      → t.shared_spans ≡ true
      → sc.err ≡ none
      → trace_id_empty sc.trace_id ≡ false
      → (sp : Span) × (w' : W) × (start_span t now name
            (kind_option server ∷ parent error_text sc ∷ [])
            w
          ≡ ok (sp, w'))
        × IsJoined sc (span_context sp) w
  unfolding run_options parent kind_option
  start_span-join error_text sc name w on shared no_err full =
      let s0 = new_span t name in
      let s = with_context (with_model s0 (record s0.model { kind = server })) sc in
      start_span-IsJoined name _ w s on shared (rw no_err refl) full refl

  -- A root span has a generated trace identifier, and a span identifier made from it.
  abbrev pub IsRoot : SpanContext → SpanContext → W → Type 0
  IsRoot from to w =
      let (trace, w1) = t.generate.trace_id w in
      let (span, w2) = t.generate.span_id trace w1 in
      (to.trace_id ≡ trace)
      × (to.id ≡ span)
      × (to.parent_id ≡ from.parent_id)
      × Decided t now from to w2

  IsRoot-context :
      (s : SpanImpl) (w : W)
      → trace_id_empty s.trace_id ≡ true
      → IsRoot s.context (decide t (assign_ids t s w).0 (assign_ids t s w).1).0.context w
  unfolding assign_ids
  IsRoot-context s w empty = rw empty (
      let (trace, w1) = t.generate.trace_id w in
      let (span, w2) = t.generate.span_id trace w1 in
      decide_context t now (with_context s (record s.context { trace_id = trace; id = span })) w2)

  -- On a tracer that is no noop, options that succeed and leave the trace identifier empty start a
  -- new trace: its identifier is generated, and the span's is generated from it.
  pub start_span-IsRoot :
      (name : Str) (options : List (SpanOption W)) (w : W) (s : SpanImpl)
      → t.noop ≢ 1
      → run_options options t (new_span t name) ≡ ok s
      → trace_id_empty s.trace_id ≡ true
      → (sp : Span) × (w' : W) × (start_span t now name options w ≡ ok (sp, w'))
        × IsRoot s.context (span_context sp) w
  start_span-IsRoot name options w s on run empty =
      let (s1, w1) = assign_ids t s w in
      let (s2, w2) = decide t s1 w1 in
      (
        start_recording t now s2,
        w2,
        start_span-options t now name options w s on run,
        rw (span_context-start_recording t now s2) (IsRoot-context s w empty),
      )

  run_options-skip :
      (error_text : Error → Str) (os rest : List (SpanOption W)) (sc : SpanContext) (e : Error)
      (s : SpanImpl)
      → t.extract_failure_policy ≡ policy_restart
      → sc.err ≡ some e
      → run_options (os ++ parent error_text sc ∷ rest) t s ≡ run_options (os ++ rest) t s
  unfolding run_options parent
  run_options-skip error_text [] rest sc e s policy failed = rw (failed, policy) refl
  run_options-skip error_text (o ∷ os) rest sc e s policy failed =
      ap (λ k. o t s >>= k)
        (fun_ext (λ s'. run_options-skip error_text os rest sc e s' policy failed))

  -- Under the policy to restart, a context that could not be extracted is as good as none: the span is
  -- the one that `StartSpan` starts without that parent.
  pub start_span-restart :
      (error_text : Error → Str) (os rest : List (SpanOption W)) (sc : SpanContext) (e : Error)
      (name : Str) (w : W)
      → t.extract_failure_policy ≡ policy_restart
      → sc.err ≡ some e
      → start_span t now name (os ++ parent error_text sc ∷ rest) w
        ≡ start_span t now name (os ++ rest) w
  unfolding start_span
  start_span-restart error_text os rest sc e name w policy failed =
      rw
        (
          run_options-skip error_text os rest sc e blank_span policy failed,
          run_options-skip error_text os rest sc e (new_span t name) policy failed,
        )
        refl

  new_span_err : (name : Str) → (new_span t name).err ≡ none
  unfolding new_span
  new_span_err name = rw tag_all_context refl

  -- Under the policy to fail, `StartSpan` with a kind and a parent that could not be extracted
  -- panics with a nil error, not with the extraction error.
  pub start_span-error_policy :
      (error_text : Error → Str) (k : Kind) (sc : SpanContext) (e : Error) (name : Str) (w : W)
      → t.extract_failure_policy ≡ policy_error
      → sc.err ≡ some e
      → start_span t now name (kind_option k ∷ parent error_text sc ∷ []) w ≡ panic (raised none)
  unfolding start_span run_options parent kind_option
  start_span-error_policy error_text k sc e name w policy failed =
      rw (failed, new_span_err name, policy) (ground arith)
