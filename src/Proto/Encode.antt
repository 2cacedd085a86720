-- ===== src/Proto/Encode.antt =====
-- proto/zipkin_proto3/encode_proto.go.
use zipkin_go.Base.{
  ℕ, ◌/◌, Option, none, some, List, [], ◌∷◌, ◌++◌, Str, if◌then◌else◌, pos, ltb_ℤ, eqb_ℤ, ◌+ℤ◌,
  to_uint64, to_int64, quot_ℤ, Outcome, ok, err, ◌>>=◌, nil_proto_span, valid_duration_required,
}
use zipkin_go.Model.SpanIds.{SpanId}
use zipkin_go.Model.Times.{unix_nano, round_micros}
use zipkin_go.Model.Spans.{Time, Duration, zero_time, Endpoint, Annotation, SpanModel}
use zipkin_go.Proto.Bytes.{be_bytes}
use zipkin_go.Proto.Messages.{ProtoEndpoint, ProtoAnnotation, ProtoSpan, kind_value}

unfoldable pub encode_timestamp : Time → ℕ
unfolding round_micros
encode_timestamp t =
    if eqb_ℤ t zero_time then 0 else to_uint64 (quot_ℤ (unix_nano (round_micros t)) 1000)

-- `timeToMicros`, which annotations go through: no rounding, and the division is unsigned.
unfoldable pub time_to_micros : Time → ℕ
time_to_micros t = if eqb_ℤ t zero_time then 0 else to_uint64 (unix_nano t) / 1000

-- `durationToMicros`, which nothing calls.
unfoldable pub duration_to_micros : Duration → Outcome ℕ
duration_to_micros d =
    if ltb_ℤ d (pos 1000)
    then (if ltb_ℤ d (pos 0)
        then err valid_duration_required
        else if ltb_ℤ (pos 0) d
        then ok 1
        else ok (to_uint64 (quot_ℤ d 1000)))
    else ok (to_uint64 (quot_ℤ (to_int64 (to_uint64 (d +ℤ pos 500))) 1000))

unfoldable pub encode_parent : Option SpanId → List ℕ
encode_parent none = be_bytes 8 0
encode_parent (some p) = be_bytes 8 p

unfoldable pub encode_endpoint : Option Endpoint → Option ProtoEndpoint
encode_endpoint none = none
encode_endpoint (some e) =
    some (record { service_name = e.service_name; ipv4 = e.ipv4; ipv6 = e.ipv6; port = pos e.port })

unfoldable pub encode_annotations : List Annotation → List (Option ProtoAnnotation)
unfolding time_to_micros
encode_annotations [] = []
encode_annotations (a ∷ rest) =
    some (record { timestamp = time_to_micros a.timestamp; value = a.value })
    ∷ encode_annotations rest

-- `modelSpanToProtoSpan` on a span that is not nil.
unfoldable pub encode_span : SpanModel → ProtoSpan
unfolding encode_timestamp encode_parent encode_endpoint encode_annotations
encode_span s = record {
  trace_id = be_bytes 8 s.trace_id.high ++ be_bytes 8 s.trace_id.low;
  parent_id = encode_parent s.parent_id;
  id = be_bytes 8 s.id;
  kind = kind_value s.kind;
  name = s.name;
  timestamp = encode_timestamp s.timestamp;
  duration = to_uint64 (quot_ℤ s.duration 1000);
  local_endpoint = encode_endpoint s.local_endpoint;
  remote_endpoint = encode_endpoint s.remote_endpoint;
  annotations = encode_annotations s.annotations;
  tags = s.tags;
  debug = s.debug;
  shared = s.shared;
}

-- A nil span is an error.
unfoldable pub model_span_to_proto_span : Option SpanModel → Outcome ProtoSpan
unfolding encode_span
model_span_to_proto_span none = err nil_proto_span
model_span_to_proto_span (some s) = ok (encode_span s)

unfoldable pub encode_spans : List (Option SpanModel) → Outcome (List ProtoSpan)
unfolding model_span_to_proto_span
encode_spans [] = ok []
encode_spans (s ∷ spans) = do m ← model_span_to_proto_span s; ms ← encode_spans spans; ok (m ∷ ms)

-- `proto.Marshal` is the protobuf runtime's.
unfoldable pub serialize_spans :
    (List ProtoSpan → Outcome Str) → List (Option SpanModel) → Outcome Str
unfolding encode_spans
serialize_spans marshal spans = do ms ← encode_spans spans; marshal ms
