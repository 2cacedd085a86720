-- ===== src/Tracer/Lineage/Generated.antt =====
-- Root spans whose identifiers come from the generators of idgenerator/idgenerator.go.
use zipkin_go.Base.{
  ◌^◌, ◌<◌, ◌≡◌, ◌≢◌, ◌⊎◌, refl, arith, Bool-cases, true, not, inl, inr, List, Str, ok,
  if◌then◌else◌,
}
use zipkin_go.IdGenerator.{
  IdGenerator, Source, random_span_id_64, random_span_id_128, timestamped_span_id,
  random_trace_id_64, random_trace_id_128, timestamped_trace_id, new_random_64, new_random_128,
  new_random_timestamped, random_trace_ids-IsTraceId,
}
use zipkin_go.Model.TraceIds.{TraceId, trace_id_empty, IsTraceId}
use zipkin_go.Model.SpanIds.{SpanId}
use zipkin_go.Model.Spans.{Time}
use zipkin_go.Tracer.State.{Tracer, SpanImpl, Span, span_context}
use zipkin_go.Tracer.SpanOptions.{SpanOption, run_options}
use zipkin_go.Tracer.Start.{new_span, start_span}
use zipkin_go.Tracer.Lineage.Roots.{start_span-IsRoot}

module _ {W : Type 0} (source : Source W) where
  -- One of the three generators of the package.
  abbrev pub IsRandom : IdGenerator W → Type 0
  IsRandom g =
      (g ≡ new_random_64 source)
      ⊎ ((g ≡ new_random_128 source) ⊎ (g ≡ new_random_timestamped source))

  -- The identifiers of a root span: they fit their widths, and the span's is the low half of the trace's
  -- unless that is zero as a whole.
  abbrev pub AreRootIds : TraceId → SpanId → Type 0
  AreRootIds trace span =
      IsTraceId trace × (span < 2 ^ 64) × ((trace_id_empty trace ≡ true) ⊎ (span ≡ trace.low))

  int63_small : (w : W) → (source.int63 w).0 < 2 ^ 64
  int63_small w = let b = source.int63_bound w in omega arith

  drawn_span_id :
      (t : TraceId) (w : W)
      → IsTraceId t
      → AreRootIds t (if not (trace_id_empty t) then (t.low, w) else source.int63 w).0
  drawn_span_id t w v = elim (Bool-cases (trace_id_empty t)) [
    | inl h ↦ rw h (v, int63_small w, inl refl)
    | inr h ↦ rw h (v, v.low_bound, inr refl)
  ]

  IsRandom-AreRootIds :
      (g : IdGenerator W) (w : W)
      → IsRandom g
      → AreRootIds (g.trace_id w).0 (g.span_id (g.trace_id w).0 (g.trace_id w).1).0
  unfolding random_span_id_64 random_span_id_128 timestamped_span_id
  IsRandom-AreRootIds g w (inl e) = rw e (
      drawn_span_id (random_trace_id_64 source w).0 (random_trace_id_64 source w).1
        (random_trace_ids-IsTraceId source w).0)
  IsRandom-AreRootIds g w (inr (inl e)) = rw e (
      drawn_span_id (random_trace_id_128 source w).0 (random_trace_id_128 source w).1
        (random_trace_ids-IsTraceId source w).2)
  IsRandom-AreRootIds g w (inr (inr e)) = rw e (
      drawn_span_id (timestamped_trace_id source w).0 (timestamped_trace_id source w).1
        (random_trace_ids-IsTraceId source w).3)

  -- A tracer that is no noop, with one of the three generators over a source of random numbers within
  -- their documented bounds, gives a span whose options succeed and leave its trace identifier empty a
  -- trace identifier of two 64-bit halves, and a span identifier of 64 bits, which is the low half of the
  -- trace's unless the whole trace identifier that was drawn is zero. The parent is that of the options.
  pub start_span-AreRootIds :
      (t : Tracer W) (now : Time) (name : Str) (options : List (SpanOption W)) (w : W)
      (s : SpanImpl)
      → t.noop ≢ 1
      → IsRandom t.generate
      → run_options options t (new_span t name) ≡ ok s
      → trace_id_empty s.trace_id ≡ true
      → (sp : Span) × (w' : W) × (start_span t now name options w ≡ ok (sp, w'))
        × AreRootIds (span_context sp).trace_id (span_context sp).id
        × ((span_context sp).parent_id ≡ s.parent_id)
  start_span-AreRootIds t now name options w s on random run empty =
      let (sp, w', started, (trace, id, kept, _)) =
        start_span-IsRoot t now name options w s on run empty in
      (sp, w', started, rw (trace, id) (IsRandom-AreRootIds t.generate w random), kept)
