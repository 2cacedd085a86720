-- ===== src/Model/Json/Decode.antt =====
-- `UnmarshalJSON` of spans and annotations. `type_error` is the error that `encoding/json` makes of a number
-- that its field cannot hold: it is returned behind all fields, where no other error ended the reading
-- before. What an error leaves in the span is not described.
use zipkin_go.Base.{
  ℕ, ◌*◌, ◌^◌, Option, none, some, List, [], ◌∷◌, Str, insert_all, ltb, ◌==◌, if◌then◌else◌, ℤ, pos,
  negsuc, to_int64, Error, Outcome, ok, err, ◌>>=◌, valid_timestamp_required, valid_id_required,
}
use zipkin_go.Model.TraceIds.{unmarshal_trace_id}
use zipkin_go.Model.SpanIds.{SpanId, unmarshal_span_id}
use zipkin_go.Model.Spans.{Endpoint, endpoint_empty, Annotation, SpanContext, SpanModel}
use zipkin_go.Model.Json.{
  JsonEndpoint, JsonAnnotation, JsonField, timestamp_field, duration_field, trace_id_field,
  id_field, parent_id_field, debug_field, shared_field, name_field, kind_field,
  local_endpoint_field, remote_endpoint_field, annotations_field, tags_field, other_field,
}

-- What is known while the fields are read: the span, the two numbers beside it, and the first type error.
pub record Reading : Type 0 where
  pub span : SpanModel
  pub t : ℕ
  pub d : ℕ
  pub saved : Option Error

-- A number that an unsigned field of so many bits can hold.
abbrev pub unsigned : ℕ → ℤ → Option ℕ
unsigned bits (pos n) = if ltb n (2 ^ bits) then some n else none
unsigned bits (negsuc n) = none

-- `time.Unix(0, int64(n)*1e3)`, and the same for a duration.
abbrev pub of_micros : ℕ → ℤ
of_micros n = to_int64 (n * 1000)

abbrev pub save : Option Error → Error → Option Error
save none e = some e
save (some e') e = some e'

abbrev pub or_old {ℓ} : {A : Type ℓ} → Option A → A → A
or_old none old = old
or_old (some a) old = a

abbrev pub no_endpoint : Endpoint
no_endpoint = record { service_name = []; ipv4 = []; ipv6 = []; port = 0 }

-- The endpoint that the pointer holds, or a new one.
abbrev pub unmarshal_port : Option ℤ → ℕ → Option ℕ
unmarshal_port none old = some old
unmarshal_port (some n) old = unsigned 16 n

abbrev pub read_endpoint : JsonEndpoint → Endpoint → Endpoint
read_endpoint j e = record {
  service_name = or_old j.service_name e.service_name;
  ipv4 = or_old j.ipv4 e.ipv4;
  ipv6 = or_old j.ipv6 e.ipv6;
  port = or_old (unmarshal_port j.port e.port) e.port;
}

abbrev pub endpoint_saved : Error → JsonEndpoint → Option Error → Option Error
endpoint_saved type_error j saved = elim (unmarshal_port j.port 0) [
  | none ↦ save saved type_error
  | some n ↦ saved
]

abbrev annotation_micros : Error → Option ℤ → Outcome ℕ
annotation_micros type_error none = ok 0
annotation_micros type_error (some n) = elim (unsigned 64 n) [
  | none ↦ err type_error
  | some k ↦ ok k
]

-- A number of the wrong type is returned before the number is checked.
unfoldable pub unmarshal_annotation : Error → JsonAnnotation → Outcome Annotation
unmarshal_annotation type_error a = do
  n ← annotation_micros type_error a.timestamp
  if n == 0
      then err valid_timestamp_required
      else ok (record { timestamp = of_micros n; value = or_old a.value [] })

unfoldable pub unmarshal_annotations : Error → List JsonAnnotation → Outcome (List Annotation)
unfolding unmarshal_annotation
unmarshal_annotations type_error [] = ok []
unmarshal_annotations type_error (a ∷ rest) = do
  x ← unmarshal_annotation type_error a
  xs ← unmarshal_annotations type_error rest
  ok (x ∷ xs)

abbrev pub with_span : Reading → SpanModel → Reading
with_span r s = record r { span = s }

abbrev pub with_context : Reading → SpanContext → Reading
with_context r sc = with_span r (record r.span { context = sc })

-- An identifier: the text, or the error of its method.
abbrev pub unmarshal_id : SpanId → Str → Outcome SpanId
unmarshal_id old b = do (i, e) ← unmarshal_span_id old b; elim e [ none ↦ ok i | some x ↦ err x ]

unfoldable pub read_field : Error → JsonField → Reading → Outcome Reading
unfolding unmarshal_annotations
read_field type_error (timestamp_field n) r = ok (elim (unsigned 64 n) [
  | none ↦ record r { saved = save r.saved type_error }
  | some k ↦ record r { t = k }
])
read_field type_error (duration_field n) r = ok (elim (unsigned 64 n) [
  | none ↦ record r { saved = save r.saved type_error }
  | some k ↦ record r { d = k }
])
read_field type_error (trace_id_field b) r = do
  t ← unmarshal_trace_id b
  ok (with_context r (record r.span.context { trace_id = t }))
read_field type_error (id_field b) r = do
  i ← unmarshal_id r.span.id b
  ok (with_context r (record r.span.context { id = i }))
read_field type_error (parent_id_field b) r = do
  p ← unmarshal_id (or_old r.span.parent_id 0) b
  ok (with_context r (record r.span.context { parent_id = some p }))
read_field type_error (debug_field b) r = ok (with_context r (record r.span.context { debug = b }))
read_field type_error (shared_field b) r = ok (with_span r (record r.span { shared = b }))
read_field type_error (name_field s) r = ok (with_span r (record r.span { name = s }))
read_field type_error (kind_field s) r = ok (with_span r (record r.span { kind = s }))
read_field type_error (local_endpoint_field j) r = ok (record r {
  span = record r.span {
    local_endpoint = some (read_endpoint j (or_old r.span.local_endpoint no_endpoint));
  };
  saved = endpoint_saved type_error j r.saved;
})
read_field type_error (remote_endpoint_field j) r = ok (record r {
  span = record r.span {
    remote_endpoint = some (read_endpoint j (or_old r.span.remote_endpoint no_endpoint));
  };
  saved = endpoint_saved type_error j r.saved;
})
read_field type_error (annotations_field as') r = do
  xs ← unmarshal_annotations type_error as'
  ok (with_span r (record r.span { annotations = xs }))
read_field type_error (tags_field m) r =
    ok (with_span r (record r.span { tags = insert_all m r.span.tags }))
read_field type_error other_field r = ok r

unfoldable pub read_fields : Error → List JsonField → Reading → Outcome Reading
unfolding read_field
read_fields type_error [] r = ok r
read_fields type_error (f ∷ fs) r = do r' ← read_field type_error f r; read_fields type_error fs r'

abbrev pub drop_empty : Option Endpoint → Option Endpoint
drop_empty e = if endpoint_empty e then none else e

-- What follows the reading of the fields.
unfoldable pub finish_reading : Reading → Outcome SpanModel
finish_reading r = elim r.saved [
  | some e ↦ err e
  | none ↦
      (if r.span.id == 0
        then err valid_id_required
        else ok (record r.span {
          timestamp = if r.t == 0 then r.span.timestamp else of_micros r.t;
          duration = of_micros r.d;
          local_endpoint = drop_empty r.span.local_endpoint;
          remote_endpoint = drop_empty r.span.remote_endpoint;
        }))
]

-- `s` is what the receiver points to.
unfoldable pub unmarshal_span : Error → SpanModel → List JsonField → Outcome SpanModel
unfolding read_fields finish_reading
unmarshal_span type_error s fields = do
  r ← read_fields type_error fields (record { span = s; t = 0; d = 0; saved = none })
  finish_reading r
