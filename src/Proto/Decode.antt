-- ===== src/Proto/Decode.antt =====
-- proto/zipkin_proto3/decode_proto.go. The text of an error of an identifier is left out.
use zipkin_go.Base.{
  ℕ, ◌-◌, ◌*◌, ◌%◌, ◌^◌, Bool, Option, none, some, List, [], ◌∷◌, Str, ◌==◌, if◌then◌else◌, ℤ, pos,
  negsuc, to_int64, length, not, Outcome, ok, err, panic, ◌>>=◌, or_error, Error, nil_zipkin_span,
  invalid_trace_id, invalid_parent_id, invalid_span_id, span_id_expected,
}
use zipkin_go.Model.TraceIds.{trace_id_from_hex}
use zipkin_go.Model.SpanIds.{SpanId}
use zipkin_go.Model.Spans.{Time, Duration, Endpoint, Annotation, SpanModel, empty_context}
use zipkin_go.Proto.Bytes.{be_value, hex_bytes}
use zipkin_go.Proto.Messages.{ProtoEndpoint, ProtoAnnotation, ProtoSpan, kind_name}

unfoldable pub micros_to_time : ℕ → Time
micros_to_time us = to_int64 (us * 1000 % 2 ^ 64)

unfoldable pub micros_to_duration : ℕ → Duration
micros_to_duration us = to_int64 (us * 1000 % 2 ^ 64)

abbrev pub to_uint16 : ℤ → ℕ
to_uint16 (pos n) = n % 2 ^ 16
to_uint16 (negsuc n) = 2 ^ 16 - 1 - n % 2 ^ 16

unfoldable pub decode_endpoint : Option ProtoEndpoint → Option Endpoint
decode_endpoint none = none
decode_endpoint (some e) = some (record {
  service_name = e.service_name;
  ipv4 = e.ipv4;
  ipv6 = e.ipv6;
  port = to_uint16 e.port;
})

-- `protoSpanIDToModelSpanID`: `none` is the blank identifier.
unfoldable pub decode_span_id : List ℕ → Error → Outcome (Option SpanId)
decode_span_id [] e = ok none
decode_span_id (b ∷ bs) e = if length (b ∷ bs) == 8 then ok (some (be_value 0 (b ∷ bs))) else err e

-- Nil annotations are skipped.
unfoldable pub decode_annotations : List (Option ProtoAnnotation) → List Annotation
unfolding micros_to_time
decode_annotations [] = []
decode_annotations (none ∷ rest) = decode_annotations rest
decode_annotations (some a ∷ rest) =
    record { timestamp = micros_to_time a.timestamp; value = a.value } ∷ decode_annotations rest

abbrev pub some_id : Option SpanId → Outcome SpanId
some_id none = err span_id_expected
some_id (some i) = ok i

-- `protoSpanToModelSpan` on a message that is not nil. It does not look at the message's own debug flag.
unfoldable pub decode_span : (ℤ → Str) → ProtoSpan → Bool → Outcome SpanModel
unfolding micros_to_time micros_to_duration decode_endpoint decode_span_id decode_annotations
decode_span number_text s debug_was_set =
    if not (length s.trace_id == 16) then err invalid_trace_id else do
      t ← or_error invalid_trace_id (trace_id_from_hex (hex_bytes s.trace_id))
      p ← decode_span_id s.parent_id invalid_parent_id
      i ← decode_span_id s.id invalid_span_id
      id ← some_id i
      ok (record {
        context = record empty_context {
          trace_id = t;
          id = id;
          parent_id = p;
          debug = debug_was_set;
        };
        name = s.name;
        kind = kind_name number_text s.kind;
        timestamp = micros_to_time s.timestamp;
        duration = micros_to_duration s.duration;
        shared = s.shared;
        local_endpoint = decode_endpoint s.local_endpoint;
        remote_endpoint = decode_endpoint s.remote_endpoint;
        annotations = decode_annotations s.annotations;
        tags = s.tags;
      })

unfoldable pub proto_span_to_model_span : (ℤ → Str) → Option ProtoSpan → Bool → Outcome SpanModel
unfolding decode_span
proto_span_to_model_span number_text none debug_was_set = err nil_zipkin_span
proto_span_to_model_span number_text (some s) debug_was_set =
    decode_span number_text s debug_was_set

abbrev pub with_span :
    SpanModel → Outcome (List SpanModel × Option Error) → Outcome (List SpanModel × Option Error)
with_span s (ok (rest, e)) = ok (s ∷ rest, e)
with_span s (err e) = err e
with_span s (panic p) = panic p

abbrev pub decode_next :
    Outcome SpanModel
    → Outcome (List SpanModel × Option Error)
    → Outcome (List SpanModel × Option Error)
decode_next (ok s) rest = with_span s rest
decode_next (err e) rest = ok ([], some e)
decode_next (panic p) rest = panic p

-- The spans up to the first message that is refused, beside the error.
unfoldable pub decode_spans :
    (ℤ → Str) → List (Option ProtoSpan) → Bool → Outcome (List SpanModel × Option Error)
unfolding proto_span_to_model_span
decode_spans number_text [] debug_was_set = ok ([], none)
decode_spans number_text (m ∷ ms) debug_was_set =
    decode_next (proto_span_to_model_span number_text m debug_was_set)
      (decode_spans number_text ms debug_was_set)

-- `proto.Unmarshal` is the runtime's; where it fails, there are no spans beside its error.
unfoldable pub parse_spans :
    (Str → Outcome (List (Option ProtoSpan)))
    → (ℤ → Str)
    → Str
    → Bool
    → Outcome (List SpanModel × Option Error)
unfolding decode_spans
parse_spans unmarshal number_text blob debug_was_set = do
  ms ← unmarshal blob
  decode_spans number_text ms debug_was_set
