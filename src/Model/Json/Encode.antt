-- ===== src/Model/Json/Encode.antt =====
-- `MarshalJSON` of spans, endpoints and annotations.
use zipkin_go.Base.{
  ℕ, Bool, true, false, Option, none, some, List, [], ◌∷◌, ◌++◌, Str, Dict, length, ◌==◌,
  if◌then◌else◌, ℤ, pos, ltb_ℤ, eqb_ℤ, ◌+ℤ◌, quot_ℤ, to_int64, to_uint64, Error, Outcome, ok, err,
  ◌>>=◌, valid_timestamp_required, valid_duration_required,
}
use zipkin_go.Model.TraceIds.{marshal_trace_id}
use zipkin_go.Model.SpanIds.{SpanId, marshal_span_id}
use zipkin_go.Model.LowerCase.{LowerCase, lower_case}
use zipkin_go.Model.Spans.{
  Time, Duration, zero_time, Endpoint, endpoint_empty, Annotation, SpanModel,
}
use zipkin_go.Model.Times.{unix_nano, round_micros}
use zipkin_go.Model.Json.{
  JsonEndpoint, JsonAnnotation, JsonField, timestamp_field, duration_field, trace_id_field,
  id_field, parent_id_field, debug_field, shared_field, name_field, kind_field,
  local_endpoint_field, remote_endpoint_field, annotations_field, tags_field,
}

-- `Round(time.Microsecond).UnixNano() / 1e3`.
unfoldable pub json_micros : Time → ℤ
unfolding round_micros
json_micros t = quot_ℤ (unix_nano (round_micros t)) 1000

-- A time that is not zero must not lie before the first second, as `Unix` counts seconds down.
unfoldable pub marshal_timestamp : Time → Outcome ℤ
unfolding json_micros
marshal_timestamp t =
    if eqb_ℤ t zero_time
    then ok (pos 0)
    else if ltb_ℤ t (pos 1000000000)
    then err valid_timestamp_required
    else ok (json_micros t)

unfoldable pub marshal_duration : Duration → Outcome ℤ
marshal_duration d =
    if ltb_ℤ d (pos 1000)
    then (if ltb_ℤ d (pos 0)
        then err valid_duration_required
        else if ltb_ℤ (pos 0) d
        then ok (pos 1)
        else ok (quot_ℤ d 1000))
    else ok (quot_ℤ (to_int64 (to_uint64 (d +ℤ pos 500))) 1000)

-- A text that is not empty, as `omitempty` keeps it.
abbrev pub non_empty : Str → Option Str
non_empty [] = none
non_empty (c ∷ s) = some (c ∷ s)

abbrev pub non_zero : ℕ → Option ℤ
non_zero n = if n == 0 then none else some (pos n)

-- The first twelve bytes of an IPv4 address in 16 bytes.
abbrev pub ipv4_prefix : List ℕ
ipv4_prefix = 0 ∷ 0 ∷ 0 ∷ 0 ∷ 0 ∷ 0 ∷ 0 ∷ 0 ∷ 0 ∷ 0 ∷ 255 ∷ 255 ∷ []

-- `MarshalText` of an address: an empty one is omitted, and one of another length than 4 and 16 is
-- refused.
unfoldable pub marshal_ip : Error → List ℕ → Outcome (Option (List ℕ))
marshal_ip address_error ip =
    if length ip == 0
    then ok none
    else if length ip == 4
    then ok (some (ipv4_prefix ++ ip))
    else if length ip == 16
    then ok (some ip)
    else err address_error

unfoldable pub marshal_endpoint : LowerCase → Error → Endpoint → Outcome JsonEndpoint
unfolding marshal_ip lower_case
marshal_endpoint l address_error e = do
  ipv4 ← marshal_ip address_error e.ipv4
  ipv6 ← marshal_ip address_error e.ipv6
  ok (record {
    service_name = non_empty (lower_case l e.service_name);
    ipv4 = ipv4;
    ipv6 = ipv6;
    port = non_zero e.port;
  })

-- An empty endpoint becomes a nil pointer, which is omitted.
unfoldable pub marshal_endpoint_field :
    LowerCase → Error → (JsonEndpoint → JsonField) → Option Endpoint → Outcome (List JsonField)
unfolding marshal_endpoint
marshal_endpoint_field l address_error field none = ok []
marshal_endpoint_field l address_error field (some e) =
    if endpoint_empty (some e)
    then ok []
    else do j ← marshal_endpoint l address_error e; ok (field j ∷ [])

unfoldable pub marshal_annotation : Annotation → JsonAnnotation
unfolding json_micros
marshal_annotation a = record { timestamp = some (json_micros a.timestamp); value = some a.value }

unfoldable pub marshal_annotations : List Annotation → List JsonAnnotation
unfolding marshal_annotation
marshal_annotations [] = []
marshal_annotations (a ∷ rest) = marshal_annotation a ∷ marshal_annotations rest

-- The fields that `omitempty` keeps.
abbrev pub number_field : (ℤ → JsonField) → ℤ → List JsonField
number_field field n = if eqb_ℤ n (pos 0) then [] else field n ∷ []

abbrev pub text_field : (Str → JsonField) → Str → List JsonField
text_field field [] = []
text_field field (c ∷ s) = field (c ∷ s) ∷ []

abbrev pub bool_field : (Bool → JsonField) → Bool → List JsonField
bool_field field true = field true ∷ []
bool_field field false = []

abbrev pub parent_field : Option SpanId → List JsonField
parent_field none = []
parent_field (some p) = parent_id_field (marshal_span_id p) ∷ []

unfoldable pub annotation_field : List Annotation → List JsonField
unfolding marshal_annotations
annotation_field [] = []
annotation_field (a ∷ rest) = annotations_field (marshal_annotations (a ∷ rest)) ∷ []

abbrev pub tag_field : Dict Str → List JsonField
tag_field [] = []
tag_field ((k, v) ∷ m) = tags_field ((k, v) ∷ m) ∷ []

-- The fields in the order of the struct that is marshalled.
unfoldable pub span_fields :
    LowerCase → SpanModel → ℤ → ℤ → List JsonField → List JsonField → List JsonField
unfolding annotation_field lower_case
span_fields l s t d local remote =
    number_field timestamp_field t
    ++ (number_field duration_field d
        ++ (trace_id_field (marshal_trace_id s.trace_id)
            ∷ id_field (marshal_span_id s.id)
            ∷ (parent_field s.parent_id
                ++ (bool_field debug_field s.debug
                    ++ (text_field name_field (lower_case l s.name)
                        ++ (text_field kind_field s.kind
                            ++ (bool_field shared_field s.shared
                                ++ (local
                                    ++ (remote
                                        ++ (annotation_field s.annotations
                                            ++ tag_field s.tags))))))))))

-- `address_error` is the error that `encoding/json` makes of an address that is refused.
unfoldable pub marshal_span : LowerCase → Error → SpanModel → Outcome (List JsonField)
unfolding marshal_timestamp marshal_duration marshal_endpoint_field span_fields
marshal_span l address_error s = do
  t ← marshal_timestamp s.timestamp
  d ← marshal_duration s.duration
  local ← marshal_endpoint_field l address_error local_endpoint_field s.local_endpoint
  remote ← marshal_endpoint_field l address_error remote_endpoint_field s.remote_endpoint
  ok (span_fields l s t d local remote)
