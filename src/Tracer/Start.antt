-- ===== src/Tracer/Start.antt =====
-- tracer.go, `StartSpan` and `StartSpanFromContext`, and context.go.
use zipkin_go.Base.{
  true, false, ◌&&◌, not, Option, none, some, List, [], ◌∷◌, ◌++◌, Str, Dict, str_eq, eqb_ℤ, ◌==◌,
  if◌then◌else◌, Error, Outcome, ok, ◌>>=◌, pos,
}
use zipkin_go.Model.TraceIds.{trace_id_empty, no_trace_id}
use zipkin_go.Model.Baggage.{Baggage}
use zipkin_go.Model.Spans.{SpanContext, Time, empty_context, zero_time, undetermined, server}
use zipkin_go.Tracer.State.{
  Tracer, SpanImpl, Span, noop_span, recording, blank_span, span_context, Context,
}
use zipkin_go.Tracer.SpanCalls.{tag, with_model}
use zipkin_go.Tracer.SpanOptions.{SpanOption, run_options, parent}

abbrev pub with_context : SpanImpl → SpanContext → SpanImpl
with_context s sc = with_model s (record s.model { context = sc })

-- `s.Tag` for each default tag.
unfoldable pub tag_all : Dict Str → SpanImpl → SpanImpl
tag_all [] s = s
tag_all ((k, v) ∷ tags) s = tag_all tags (tag k v s)

-- context.go: what a Go context holds under `spanKey`.
unfoldable pub span_from_context : Context → Option Span
span_from_context ctx = ctx

unfoldable pub new_context : Context → Span → Context
new_context ctx s = some s

unfoldable pub span_or_noop_from_context : Context → Span
span_or_noop_from_context none = noop_span empty_context
span_or_noop_from_context (some s) = s

unfoldable pub baggage_from_context : Context → Option Baggage
baggage_from_context none = none
baggage_from_context (some s) = (span_context s).baggage

module _ {W : Type 0} where
  unfoldable pub new_span : Tracer W → Str → SpanImpl
  unfolding tag_all
  new_span t name = tag_all t.default_tags (record {
    model = record {
      context = empty_context;
      name = name;
      kind = undetermined;
      timestamp = zero_time;
      duration = pos 0;
      shared = false;
      local_endpoint = t.local_endpoint;
      remote_endpoint = none;
      annotations = [];
      tags = [];
    };
    must_collect = 0;
    flush_on_finish = true;
  })

  -- A root span, a shared span, or a child span.
  unfoldable pub assign_ids : Tracer W → SpanImpl → W → SpanImpl × W
  assign_ids t s w =
      if trace_id_empty s.trace_id
      then (let (trace, w1) = t.generate.trace_id w in
          let (span, w2) = t.generate.span_id trace w1 in
          (with_context s (record s.context { trace_id = trace; id = span }), w2))
      else if t.shared_spans && str_eq s.kind server
      then (with_model s (record s.model { shared = true }), w)
      else (let (span, w1) = t.generate.span_id no_trace_id w in
          (with_context s (record s.context { parent_id = some s.id; id = span }), w1))

  -- The sampler is asked where neither the debug flag nor a decision is there.
  unfoldable pub decide : Tracer W → SpanImpl → W → SpanImpl × W
  decide t s w = elim s.sampled [
    | none ↦
        (if not s.debug
          then (let (sampled, w1) = t.sampler s.trace_id.low w in
              let s1 = with_context s (record s.context { sampled = some sampled }) in
              ((if sampled then record s1 { must_collect = 1 } else s1), w1))
          else (record s { must_collect = 1 }, w))
    | some b ↦ (
      (if s.debug
          then record s { must_collect = 1 }
          else if b
          then record s { must_collect = 1 }
          else s),
      w,
    )
  ]

  -- `now` is the clock, read where no option set the start.
  unfoldable pub start_recording : Tracer W → Time → SpanImpl → Span
  start_recording t now s =
      if t.unsampled_noop && s.must_collect == 0
      then noop_span s.context
      else if eqb_ℤ s.timestamp zero_time
      then recording (with_model s (record s.model { timestamp = now }))
      else recording s

  unfoldable pub start_span : Tracer W → Time → Str → List (SpanOption W) → W → Outcome (Span × W)
  start_span t now name options w =
      if t.noop == 1
      then (do s ← run_options options t blank_span; ok (noop_span s.context, w))
      else do
        s ← run_options options t (new_span t name)
        let (s1, w1) = assign_ids t s w
        let (s2, w2) = decide t s1 w1
        ok (start_recording t now s2, w2)

  -- The parent option goes behind the others.
  abbrev pub parent_options : (Error → Str) → Context → List (SpanOption W)
  parent_options error_text none = []
  parent_options error_text (some s) = parent error_text (span_context s) ∷ []

  unfoldable pub start_span_from_context :
      (Error → Str)
      → Tracer W
      → Time
      → Context
      → Str
      → List (SpanOption W)
      → W
      → Outcome (Span × Context × W)
  start_span_from_context error_text t now ctx name options w = do
    (s, w1) ← start_span t now name (options ++ parent_options error_text (span_from_context ctx)) w
    ok (s, new_context ctx s, w1)
