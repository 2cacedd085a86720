-- ===== src/Proto/RoundTrip.antt =====
-- What of a span a protobuf blob carries.
use mathlib.Core.List.{map}
use zipkin_go.Base.{
  ℕ, ◌+◌, ◌*◌, ◌/◌, ◌^◌, ◌<◌, ◌≡◌, refl, ap, ◌∙◌, arith, Bool, ◌||◌, Option, none, some, List, [],
  ◌∷◌, ◌++◌, Str, codes, str_eq, str_eq_iff, if◌then◌else◌, ℤ, pos, negsuc, ◌+ℤ◌, to_uint64, quot_ℤ,
  length, length-append, All, Outcome, ok, Error, ==_iff,
}
use zipkin_go.Strconv.{hex_pad}
use zipkin_go.Model.Times.{IsNanos, round_micros_lem}
use zipkin_go.Model.TraceIds.{TraceId, IsTraceId, trace_id_from_hex, from_hex_long}
use zipkin_go.Model.SpanIds.{SpanId}
use zipkin_go.Model.Spans.{Time, Duration, Kind, Endpoint, Annotation, SpanModel, empty_context}
use zipkin_go.Proto.Bytes.{
  be_bytes, be_value, hex_bytes, length-be_bytes, be_value-be_bytes, hex_bytes-append,
  hex_bytes-be_bytes,
}
use zipkin_go.Proto.Messages.{ProtoSpan, kind_value, kind_name}
use zipkin_go.Proto.Encode.{
  encode_timestamp, time_to_micros, encode_parent, encode_endpoint, encode_annotations, encode_span,
  encode_spans, model_span_to_proto_span, serialize_spans,
}
use zipkin_go.Proto.Decode.{
  micros_to_time, micros_to_duration, decode_endpoint, decode_span_id, decode_annotations,
  decode_next, with_span, decode_span, decode_spans, proto_span_to_model_span, parse_spans,
}

abbrev pub IsPort : Option Endpoint → Type 0
IsPort none = Unit
IsPort (some e) = e.port < 2 ^ 16

-- The spans whose numbers fit the message.
pub record IsEncodable (s : SpanModel) : Type 0 where
  pub trace_bound : IsTraceId s.trace_id
  pub span_bound : s.id < 2 ^ 64
  pub parent_bound : elim s.parent_id [ none ↦ 0 | some p ↦ p ] < 2 ^ 64
  pub timestamp_bound : IsNanos s.timestamp
  pub duration_bound : IsNanos s.duration
  pub local_port : IsPort s.local_endpoint
  pub remote_port : IsPort s.remote_endpoint
  pub annotation_bounds : All (λ a. IsNanos a.timestamp) s.annotations

abbrev pub to_micros : ℤ → ℤ
to_micros (pos n) = pos (n / 1000 * 1000)
to_micros (negsuc n) = pos 0

abbrev pub wire_kind : Kind → Kind
wire_kind k =
    if str_eq k (codes "CLIENT")
      || (str_eq k (codes "SERVER") || (str_eq k (codes "PRODUCER") || str_eq k (codes "CONSUMER")))
    then k
    else codes "SPAN_KIND_UNSPECIFIED"

abbrev pub wire_annotation : Annotation → Annotation
wire_annotation a = record a { timestamp = to_micros a.timestamp }

-- What is left of a span: a missing parent is the parent 0, the debug flag is the reader's, the sampling
-- decision, the error and the baggage are gone, an unknown kind has the name of the unspecified one, and
-- times are whole microseconds, the start rounded and the others cut.
abbrev pub wire_span : Bool → SpanModel → SpanModel
wire_span debug s = record s {
  context = record empty_context {
    trace_id = s.trace_id;
    id = s.id;
    parent_id = some (elim s.parent_id [ none ↦ 0 | some p ↦ p ]);
    debug = debug;
  };
  kind = wire_kind s.kind;
  timestamp = to_micros (s.timestamp +ℤ pos 500);
  duration = to_micros s.duration;
  annotations = map wire_annotation s.annotations;
}

kind_back : (number_text : ℤ → Str) (k : Kind) → kind_name number_text (kind_value k) ≡ wire_kind k
unfolding kind_name kind_value
kind_back number_text k = ground (
  arith,
  str_eq_iff k (codes "CLIENT"),
  str_eq_iff k (codes "SERVER"),
  str_eq_iff k (codes "PRODUCER"),
  str_eq_iff k (codes "CONSUMER"),
)

micros_back : (k : ℕ) → k * 1000 < 2 ^ 63 → micros_to_time k ≡ pos (k * 1000)
unfolding micros_to_time
micros_back k h = ground arith

encode_timestamp_lem : (n : ℕ) → n + 500 < 2 ^ 63 → encode_timestamp (pos n) ≡ (n + 500) / 1000
unfolding encode_timestamp
encode_timestamp_lem n h = rw (round_micros_lem n) (ground arith)

timestamp_back :
    (t : Time) → IsNanos t → micros_to_time (encode_timestamp t) ≡ to_micros (t +ℤ pos 500)
unfolding ◌+ℤ◌
timestamp_back t (n, e, b) =
    rw (e, encode_timestamp_lem n b, micros_back ((n + 500) / 1000) (omega arith)) (ground arith)

annotation_time_back : (t : Time) → IsNanos t → micros_to_time (time_to_micros t) ≡ to_micros t
unfolding micros_to_time time_to_micros
annotation_time_back t (n, e, b) = rw e (ground arith)

duration_back :
    (d : Duration) → IsNanos d → micros_to_duration (to_uint64 (quot_ℤ d 1000)) ≡ to_micros d
unfolding micros_to_duration
duration_back d (n, e, b) = rw e (ground arith)

endpoint_back : (e : Option Endpoint) → IsPort e → decode_endpoint (encode_endpoint e) ≡ e
unfolding decode_endpoint encode_endpoint
endpoint_back none h = refl
endpoint_back (some e) h = ground arith

decode_span_id_lem :
    (bs : List ℕ) (e : Error) → length bs ≡ 8 → decode_span_id bs e ≡ ok (some (be_value 0 bs))
unfolding decode_span_id
decode_span_id_lem [] e h = absurd (omega arith)
decode_span_id_lem (b ∷ bs) e h = rw ((==_iff (length (b ∷ bs)) 8).1 h) refl

span_id_back : (i : SpanId) (e : Error) → i < 2 ^ 64 → decode_span_id (be_bytes 8 i) e ≡ ok (some i)
span_id_back i e h =
    decode_span_id_lem (be_bytes 8 i) e (length-be_bytes 8 i)
    ∙ ap (λ n. ok (some n)) (be_value-be_bytes 8 i h)

annotations_back :
    (xs : List Annotation)
    → All (λ a. IsNanos a.timestamp) xs
    → decode_annotations (encode_annotations xs) ≡ map wire_annotation xs
unfolding decode_annotations encode_annotations
annotations_back [] h = refl
annotations_back (a ∷ xs) h =
    rw (annotation_time_back a.timestamp h.0, annotations_back xs h.1) refl

trace_id_back :
    (t : TraceId)
    → IsTraceId t
    → (length (be_bytes 8 t.high ++ be_bytes 8 t.low) ≡ 16)
      × (trace_id_from_hex (hex_bytes (be_bytes 8 t.high ++ be_bytes 8 t.low)) ≡ ok t)
trace_id_back t v = (
  omega (
    arith,
    length-append (be_bytes 8 t.high) (be_bytes 8 t.low),
    length-be_bytes 8 t.high,
    length-be_bytes 8 t.low,
  ),
  ap trace_id_from_hex (
        hex_bytes-append (be_bytes 8 t.high) (be_bytes 8 t.low)
        ∙ ap (λ s. s ++ hex_bytes (be_bytes 8 t.low)) (hex_bytes-be_bytes 8 t.high)
        ∙ ap (λ s. hex_pad 16 t.high ++ s) (hex_bytes-be_bytes 8 t.low))
      ∙ from_hex_long t.high t.low v.high_bound v.low_bound,
)

parent_back :
    (p : Option SpanId) (e : Error)
    → elim p [ none ↦ 0 | some i ↦ i ] < 2 ^ 64
    → decode_span_id (encode_parent p) e ≡ ok (some (elim p [ none ↦ 0 | some i ↦ i ]))
unfolding encode_parent
parent_back none e h = span_id_back 0 e h
parent_back (some i) e h = span_id_back i e h

decode_span-encode_span :
    (number_text : ℤ → Str) (debug : Bool) (s : SpanModel)
    → IsEncodable s
    → decode_span number_text (encode_span s) debug ≡ ok (wire_span debug s)
unfolding encode_span decode_span
decode_span-encode_span number_text debug s v =
    let (size, trace) = trace_id_back s.trace_id v.trace_bound in
    rw
      (
        size,
        trace,
        parent_back s.parent_id _ v.parent_bound,
        span_id_back s.id _ v.span_bound,
        kind_back number_text s.kind,
        timestamp_back s.timestamp v.timestamp_bound,
        duration_back s.duration v.duration_bound,
        endpoint_back s.local_endpoint v.local_port,
        endpoint_back s.remote_endpoint v.remote_port,
        annotations_back s.annotations v.annotation_bounds,
      )
      refl

encode_spans_lem :
    (spans : List SpanModel) → encode_spans (map some spans) ≡ ok (map encode_span spans)
unfolding encode_spans model_span_to_proto_span
encode_spans_lem [] = refl
encode_spans_lem (s ∷ spans) = rw (encode_spans_lem spans) refl

decode_spans-encode_span :
    (number_text : ℤ → Str) (debug : Bool) (spans : List SpanModel)
    → All IsEncodable spans
    → decode_spans number_text (map some (map encode_span spans)) debug
      ≡ ok (map (wire_span debug) spans, none)
unfolding decode_spans proto_span_to_model_span
decode_spans-encode_span number_text debug [] v = refl
decode_spans-encode_span number_text debug (s ∷ spans) v =
    ap (λ x. decode_next x (decode_spans number_text (map some (map encode_span spans)) debug))
      (decode_span-encode_span number_text debug s v.0)
    ∙ ap (λ y. with_span (wire_span debug s) y)
        (decode_spans-encode_span number_text debug spans v.1)

-- If the protobuf runtime reads the messages that it wrote, and writes those of some spans whose
-- numbers fit and of which none is nil, then `Serialize` returns the blob, and `ParseSpans` reads
-- each span from it, in order, as far as a message carries it: with whole microseconds, a parent 0
-- in place of none, the name of the unspecified kind in place of an unknown one, and the debug flag
-- that its caller passes.
pub parse_spans-serialize_spans :
    (marshal : List ProtoSpan → Outcome Str) (unmarshal : Str → Outcome (List (Option ProtoSpan)))
    (reads_back : (ms : List ProtoSpan) (blob : Str)
      → marshal ms ≡ ok blob
      → unmarshal blob ≡ ok (map some ms))
    (number_text : ℤ → Str) (debug : Bool) (spans : List SpanModel) (blob : Str)
    → All IsEncodable spans
    → marshal (map encode_span spans) ≡ ok blob
    → (serialize_spans marshal (map some spans) ≡ ok blob)
      × (parse_spans unmarshal number_text blob debug ≡ ok (map (wire_span debug) spans, none))
unfolding serialize_spans parse_spans
parse_spans-serialize_spans marshal unmarshal reads_back number_text debug spans blob v e = (
  rw (encode_spans_lem spans) e,
  rw (reads_back (map encode_span spans) blob e)
      (decode_spans-encode_span number_text debug spans v),
)
