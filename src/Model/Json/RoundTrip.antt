-- ===== src/Model/Json/RoundTrip.antt =====
-- What of a span its JSON form carries.
pub mod Values
pub mod Endpoints
pub mod Fields
use mathlib.Core.List.{map}
use zipkin_go.Base.{
  ℕ, ◌+◌, ◌^◌, ◌<◌, ◌≡◌, refl, ap, ◌∙◌, arith, false, Option, none, some, List, [], ◌∷◌, ◌++◌, Str,
  IsMap, length, ◌==◌, ne→==_false, if◌then◌else◌, All, ℤ, pos, negsuc, Error, Outcome, ok, ◌>>=◌,
}
use zipkin_go.Model.TraceIds.{IsTraceId}
use zipkin_go.Model.LowerCase.{LowerCase, lower_case}
use zipkin_go.Model.Spans.{Duration, zero_time, SpanModel, empty_context, undetermined}
use zipkin_go.Model.TraceIds.{marshal_trace_id}
use zipkin_go.Model.SpanIds.{marshal_span_id}
use zipkin_go.Model.Json.{
  JsonField, duration_field, trace_id_field, id_field, debug_field, shared_field, name_field,
  kind_field,
}
use zipkin_go.Model.Json.Encode.{
  number_field, text_field, bool_field, parent_field, annotation_field, tag_field, span_fields,
  marshal_span,
}
use zipkin_go.Model.Json.Decode.{Reading, finish_reading, read_fields, unmarshal_span, drop_empty}
use zipkin_go.Model.Json.RoundTrip.Values.{
  IsMicros, IsStart, IsJsonEndpoint, json_time, json_duration, json_endpoint, json_annotation,
  annotations_back, duration_back, timestamp_back,
}
use zipkin_go.Model.Json.RoundTrip.Endpoints.{
  drop_empty-json_endpoint, with_local, with_remote, local_endpoint_back, remote_endpoint_back,
}
use zipkin_go.Model.Json.RoundTrip.Fields.{
  read_timestamp, read_duration, read_ids, read_parent, read_debug, read_name, read_kind,
  read_shared, read_tags, read_annotations,
}

-- The spans whose values the JSON form can hold.
pub record IsJson (s : SpanModel) : Type 0 where
  pub trace_bound : IsTraceId s.trace_id
  pub has_span : 0 < s.id
  pub span_bound : s.id < 2 ^ 64
  pub parent_bound : elim s.parent_id [ none ↦ 0 | some p ↦ p ] < 2 ^ 64
  pub start : IsStart s.timestamp
  pub duration_bound : (n : ℕ) × (s.duration ≡ pos n) × (n + 500 < 2 ^ 63)
  pub local_bound : IsJsonEndpoint s.local_endpoint
  pub remote_bound : IsJsonEndpoint s.remote_endpoint
  pub annotation_bounds : All (λ a. IsMicros a.timestamp) s.annotations
  pub tags_once : IsMap s.tags

-- What `UnmarshalJSON` is given to write to.
abbrev pub new_span : SpanModel
new_span = record {
  context = empty_context;
  name = [];
  kind = undetermined;
  timestamp = zero_time;
  duration = pos 0;
  shared = false;
  local_endpoint = none;
  remote_endpoint = none;
  annotations = [];
  tags = [];
}

-- What is left of a span: the name and the service names are what `strings.ToLower` makes of them, times are whole
-- microseconds, an endpoint that is empty is gone, addresses have sixteen bytes, and the sampling
-- decision, the error and the baggage are gone.
abbrev pub json_span : LowerCase → SpanModel → SpanModel
json_span l s = record s {
  context = record empty_context {
    trace_id = s.trace_id;
    id = s.id;
    parent_id = s.parent_id;
    debug = s.debug;
  };
  name = lower_case l s.name;
  timestamp = json_time s.timestamp;
  duration = json_duration s.duration;
  local_endpoint = json_endpoint l s.local_endpoint;
  remote_endpoint = json_endpoint l s.remote_endpoint;
  annotations = map json_annotation s.annotations;
}

not_zero : (n : ℕ) → 0 < n → (n == 0) ≡ false
not_zero n h = ne→==_false n 0 (omega arith)

-- The fields are read one behind the other.
module _ (l : LowerCase) (type_error : Error) (s : SpanModel) (v : IsJson s) (t d : ℕ)
    (small_t : t < 2 ^ 64) (small_d : d < 2 ^ 64) (local remote : List JsonField) where
  read_fields-span_fields :
      ((rest : List JsonField) (r : Reading)
        → r.span.local_endpoint ≡ none
        → read_fields type_error (local ++ rest) r
          ≡ read_fields type_error rest (with_local r (json_endpoint l s.local_endpoint)))
      → ((rest : List JsonField) (r : Reading)
          → r.span.remote_endpoint ≡ none
          → read_fields type_error (remote ++ rest) r
            ≡ read_fields type_error rest (with_remote r (json_endpoint l s.remote_endpoint)))
      → read_fields type_error
          (span_fields l s (pos t) (pos d) local remote)
          (record { span = new_span; t = 0; d = 0; saved = none })
        ≡ ok (record {
          span = record (json_span l s) { timestamp = zero_time; duration = pos 0 };
          t = t;
          d = d;
          saved = none;
        })
  unfolding span_fields
  read_fields-span_fields reads_local reads_remote =
      let at_tags = tag_field s.tags in
      let at_annotations = annotation_field s.annotations ++ at_tags in
      let at_remote = remote ++ at_annotations in
      let at_local = local ++ at_remote in
      let at_shared = bool_field shared_field s.shared ++ at_local in
      let at_kind = text_field kind_field s.kind ++ at_shared in
      let at_name = text_field name_field (lower_case l s.name) ++ at_kind in
      let at_debug = bool_field debug_field s.debug ++ at_name in
      let at_parent = parent_field s.parent_id ++ at_debug in
      let at_ids =
        trace_id_field (marshal_trace_id s.trace_id)
        ∷ id_field (marshal_span_id s.id)
        ∷ at_parent in
      read_timestamp type_error (number_field duration_field (pos d) ++ at_ids) _ t small_t refl
      ∙ read_duration type_error at_ids _ d small_d refl
      ∙ read_ids type_error at_parent _ s v.trace_bound v.span_bound
      ∙ read_parent type_error at_debug _ s.parent_id v.parent_bound refl
      ∙ read_debug type_error at_name _ s.debug refl
      ∙ read_name type_error at_kind _ (lower_case l s.name) refl
      ∙ read_kind type_error at_shared _ s.kind refl
      ∙ read_shared type_error at_local _ s.shared refl
      ∙ reads_local at_remote _ refl
      ∙ reads_remote at_annotations _ refl
      ∙ read_annotations type_error at_tags _ s.annotations (map json_annotation s.annotations)
          (annotations_back type_error s.annotations v.annotation_bounds) refl
      ∙ read_tags type_error _ s.tags v.tags_once refl

-- A span whose values the JSON form can hold is written by `MarshalJSON` to fields from which
-- `UnmarshalJSON` reads it back into a new span, but for what `json_span` drops and rounds, and with the
-- names that `strings.ToLower` makes, where it makes no empty text of one that is not.
-- That is of the fields: bytes that are no UTF-8 are lost between them and the text of a document.
pub unmarshal_span-marshal_span :
    (l : LowerCase) (address_error type_error : Error) (s : SpanModel)
    → IsJson s
    → (fields : List JsonField) × (marshal_span l address_error s ≡ ok fields)
      × (unmarshal_span type_error new_span fields ≡ ok (json_span l s))
unfolding marshal_span unmarshal_span finish_reading
unmarshal_span-marshal_span l address_error type_error s v =
    let (t, writes_t, small_t, start) = timestamp_back s.timestamp v.start in
    let (n, at, small) = v.duration_bound in
    let (n', writes_d, small_d, lasts) = duration_back n small in
    let (local, writes_local, reads_local) =
      local_endpoint_back l address_error type_error s.local_endpoint v.local_bound in
    let (remote, writes_remote, reads_remote) =
      remote_endpoint_back l address_error type_error s.remote_endpoint v.remote_bound in
    (
      span_fields l s (pos t) (pos n') local remote,
      rw (writes_t, at, writes_d, writes_local, writes_remote) refl,
      ap (λ (x : Outcome Reading). x >>= finish_reading)
            (read_fields-span_fields l type_error s v t n' small_t small_d local remote reads_local
              reads_remote)
          ∙ rw
              (
                not_zero s.id v.has_span,
                start,
                lasts,
                drop_empty-json_endpoint l s.local_endpoint,
                drop_empty-json_endpoint l s.remote_endpoint,
                at,
              )
              refl,
    )
