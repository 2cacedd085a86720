-- ===== src/Model/Json/RoundTrip/Fields.antt =====
-- Each field that `MarshalJSON` writes, or leaves out, is read back.
use zipkin_go.Base.{
  ℕ, ◌^◌, ◌<◌, ◌≡◌, refl, arith, Bool, true, false, Option, none, some, List, [], ◌∷◌, ◌++◌, Str,
  Dict, IsMap, insert_all-nil, pos, Error, ok,
}
use zipkin_go.Model.TraceIds.{IsTraceId, marshal_trace_id, unmarshal_trace_id-marshal_trace_id}
use zipkin_go.Model.SpanIds.{SpanId, marshal_span_id, unmarshal_span_id-marshal_span_id}
use zipkin_go.Model.Spans.{Annotation, SpanModel}
use zipkin_go.Model.Json.{
  JsonField, timestamp_field, duration_field, trace_id_field, id_field, debug_field, shared_field,
  name_field, kind_field,
}
use zipkin_go.Model.Json.Encode.{
  marshal_annotations, number_field, text_field, bool_field, parent_field, annotation_field,
  tag_field,
}
use zipkin_go.Model.Json.Decode.{
  Reading, unmarshal_annotations, with_span, with_context, unmarshal_id, read_field, read_fields,
  or_old,
}

module _ (e : Error) (rest : List JsonField) (r : Reading) where
  pub read_timestamp :
      (n : ℕ)
      → n < 2 ^ 64
      → r.t ≡ 0
      → read_fields e (number_field timestamp_field (pos n) ++ rest) r
        ≡ read_fields e rest (record r { t = n })
  unfolding read_fields read_field
  read_timestamp n h z = ground arith

  pub read_duration :
      (n : ℕ)
      → n < 2 ^ 64
      → r.d ≡ 0
      → read_fields e (number_field duration_field (pos n) ++ rest) r
        ≡ read_fields e rest (record r { d = n })
  unfolding read_fields read_field
  read_duration n h z = ground arith

  unmarshal_id-marshal_span_id :
      (i old : SpanId) → i < 2 ^ 64 → unmarshal_id old (marshal_span_id i) ≡ ok i
  unmarshal_id-marshal_span_id i old h =
      rw (unmarshal_id, unmarshal_span_id-marshal_span_id i old h)

  pub read_ids :
      (s : SpanModel)
      → IsTraceId s.trace_id
      → s.id < 2 ^ 64
      → read_fields e
          (trace_id_field (marshal_trace_id s.trace_id) ∷ id_field (marshal_span_id s.id) ∷ rest)
          r
        ≡ read_fields e rest
            (with_context r (record r.span.context { trace_id = s.trace_id; id = s.id }))
  unfolding read_fields read_field
  read_ids s t i =
      rw
        (
          unmarshal_trace_id-marshal_trace_id s.trace_id t,
          unmarshal_span_id-marshal_span_id s.id r.span.id i,
        )
        refl

  pub read_parent :
      (p : Option SpanId)
      → elim p [ none ↦ 0 | some i ↦ i ] < 2 ^ 64
      → r.span.parent_id ≡ none
      → read_fields e (parent_field p ++ rest) r
        ≡ read_fields e rest (with_context r (record r.span.context { parent_id = p }))
  unfolding read_fields read_field
  read_parent none h z = rw (← z) refl
  read_parent (some i) h z =
      rw (unmarshal_span_id-marshal_span_id i (or_old r.span.parent_id 0) h) refl

  pub read_debug :
      (b : Bool)
      → r.span.debug ≡ false
      → read_fields e (bool_field debug_field b ++ rest) r
        ≡ read_fields e rest (with_context r (record r.span.context { debug = b }))
  unfolding read_fields read_field
  read_debug true z = refl
  read_debug false z = rw (← z) refl

  pub read_name :
      (s : Str)
      → r.span.name ≡ []
      → read_fields e (text_field name_field s ++ rest) r
        ≡ read_fields e rest (with_span r (record r.span { name = s }))
  unfolding read_fields read_field
  read_name [] z = rw (← z) refl
  read_name (c ∷ s) z = refl

  pub read_kind :
      (s : Str)
      → r.span.kind ≡ []
      → read_fields e (text_field kind_field s ++ rest) r
        ≡ read_fields e rest (with_span r (record r.span { kind = s }))
  unfolding read_fields read_field
  read_kind [] z = rw (← z) refl
  read_kind (c ∷ s) z = refl

  pub read_shared :
      (b : Bool)
      → r.span.shared ≡ false
      → read_fields e (bool_field shared_field b ++ rest) r
        ≡ read_fields e rest (with_span r (record r.span { shared = b }))
  unfolding read_fields read_field
  read_shared true z = refl
  read_shared false z = rw (← z) refl

  pub read_annotations :
      (xs ys : List Annotation)
      → unmarshal_annotations e (marshal_annotations xs) ≡ ok ys
      → r.span.annotations ≡ []
      → read_fields e (annotation_field xs ++ rest) r
        ≡ read_fields e rest (with_span r (record r.span { annotations = ys }))
  unfolding read_fields read_field annotation_field unmarshal_annotations marshal_annotations
  read_annotations [] ys h z = ground arith
  read_annotations (x ∷ xs) ys h z = rw h refl

pub read_tags :
    (e : Error) (r : Reading) (m : Dict Str)
    → IsMap m
    → r.span.tags ≡ []
    → read_fields e (tag_field m) r ≡ ok (with_span r (record r.span { tags = m }))
unfolding read_fields read_field
read_tags e r [] once z = rw (← z) refl
read_tags e r ((k, v) ∷ m) once z = rw (z, insert_all-nil ((k, v) ∷ m) once) refl
