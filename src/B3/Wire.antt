-- ===== src/B3/Wire.antt =====
-- The contexts that B3 headers can carry.
use zipkin_go.Base.{◌^◌, ◌<◌, ◌≡◌, ◌⊎◌, true, false, none, some, is_some, if◌then◌else◌}
use zipkin_go.Model.TraceIds.{IsTraceId, trace_id_empty}
use zipkin_go.Model.SpanIds.{SpanId}
use zipkin_go.Model.Spans.{SpanContext}

-- The identifiers of the context are 64-bit numbers, and both it and its span are there.
pub record IsWire (sc : SpanContext) : Type 0 where
  pub trace_bound : IsTraceId sc.trace_id
  pub has_trace : trace_id_empty sc.trace_id ≡ false
  pub has_span : 0 < sc.id
  pub span_bound : sc.id < 2 ^ 64
  pub parent_bound : (p : SpanId) → sc.parent_id ≡ some p → p < 2 ^ 64

-- What a header can carry of a context: a debug flag stands for the sampling decision.
abbrev pub wire_context : SpanContext → SpanContext
wire_context sc = record sc {
  sampled = if sc.debug then none else sc.sampled;
  err = none;
  baggage = none;
}

abbrev pub IsDecided : SpanContext → Type 0
IsDecided sc = (sc.debug ≡ true) ⊎ (is_some sc.sampled ≡ true)
