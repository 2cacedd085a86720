-- ===== src/Proto/Tests.antt =====
-- A span at which the theorems on the protobuf messages are applied, and a runtime that writes only its
-- message.
use mathlib.Core.List.{map}
use native.Mathlib.Decide.{ℕ_discrete}
use zipkin_go.Base.{
  ℕ, ◌<◌, ◌^◌, ◌≡◌, ◌≢◌, ◌↔◌, ◌⊎◌, refl, sym, ap, ◌∙◌, arith, Bool, true, false, Option, none, some,
  List, [], ◌∷◌, Str, codes, ℤ, pos, length, Outcome, ok, err, is_ok, num_syntax,
}
use zipkin_go.Model.Spans.{SpanModel, empty_context, client}
use zipkin_go.Proto.Messages.{ProtoSpan}
use zipkin_go.Proto.Encode.{encode_span, serialize_spans}
use zipkin_go.Proto.Decode.{decode_span, parse_spans}
use zipkin_go.Proto.RoundTrip.{IsEncodable, wire_span, parse_spans-serialize_spans}
use zipkin_go.Proto.Accepts.{decode_span-ok_iff}

abbrev span : SpanModel
span = record {
  context = record empty_context {
    trace_id = record { high = 1; low = 2 };
    id = 3;
    sampled = some true;
  };
  name = codes "get";
  kind = client;
  timestamp = pos 1234567;
  duration = pos 7999;
  shared = false;
  local_endpoint =
      some
        (record { service_name = codes "web"; ipv4 = 127 ∷ 0 ∷ 0 ∷ 1 ∷ []; ipv6 = []; port = 80 });
  remote_endpoint = none;
  annotations = record { timestamp = pos 1234999; value = codes "ws" } ∷ [];
  tags = [];
}

span-IsEncodable : IsEncodable span
span-IsEncodable = record {
  trace_bound = record { high_bound = omega arith; low_bound = omega arith };
  span_bound = omega arith;
  parent_bound = omega arith;
  timestamp_bound = (1234567, refl, omega arith);
  duration_bound = (7999, refl, omega arith);
  local_port = omega arith;
  remote_port = tt;
  annotation_bounds = ((1234999, refl, omega arith), tt);
}

abbrev decoded : SpanModel
decoded = record span {
  context = record empty_context {
    trace_id = record { high = 1; low = 2 };
    id = 3;
    parent_id = some 0;
    debug = true;
  };
  timestamp = pos 1235000;
  duration = pos 7000;
  annotations = record { timestamp = pos 1234000; value = codes "ws" } ∷ [];
}

decodes : wire_span true span ≡ decoded
unfolding zipkin_go.Base.◌+ℤ◌
decodes = refl

abbrev message : List ProtoSpan
message = encode_span span ∷ []

ProtoSpan-discrete : Discrete (List ProtoSpan)
ProtoSpan-discrete = hlevel ℕ_discrete

abbrev write_if : (ms : List ProtoSpan) → Dec (ms ≡ message) → Outcome Str
write_if ms (yes e) = ok (codes "x")
write_if ms (no n) = err num_syntax

abbrev marshal : List ProtoSpan → Outcome Str
marshal ms = write_if ms (ProtoSpan-discrete ms message)

abbrev unmarshal : Str → Outcome (List (Option ProtoSpan))
unmarshal blob = ok (map some message)

write_if-reads_back :
    (ms : List ProtoSpan) (blob : Str) (d : Dec (ms ≡ message))
    → write_if ms d ≡ ok blob
    → unmarshal blob ≡ ok (map some ms)
write_if-reads_back ms blob (yes e) h = ap (λ x. ok (map some x)) (sym e)
write_if-reads_back ms blob (no n) h = cc

reads_back :
    (ms : List ProtoSpan) (blob : Str) → marshal ms ≡ ok blob → unmarshal blob ≡ ok (map some ms)
reads_back ms blob = write_if-reads_back ms blob (ProtoSpan-discrete ms message)

write_if-message : (d : Dec (message ≡ message)) → write_if message d ≡ ok (codes "x")
write_if-message (yes e) = refl
write_if-message (no n) = absurd (n refl)

marshals : marshal message ≡ ok (codes "x")
marshals = write_if-message (ProtoSpan-discrete message message)

no_text : ℤ → Str
no_text k = []

parse_spans-serialize_spans_example :
    (serialize_spans marshal (some span ∷ []) ≡ ok (codes "x"))
    × (parse_spans unmarshal no_text (codes "x") true ≡ ok (wire_span true span ∷ [], none))
parse_spans-serialize_spans_example =
    parse_spans-serialize_spans marshal unmarshal reads_back no_text true (span ∷ []) (codes "x")
      (span-IsEncodable, tt) marshals

decode_span-ok_iff_example : (is_ok (decode_span no_text (encode_span span) true) ≡ true) ↔ (
    (length (encode_span span).trace_id ≡ 16)
    × ((length (encode_span span).parent_id ≡ 0) ⊎ (length (encode_span span).parent_id ≡ 8))
    × (length (encode_span span).id ≡ 8))
decode_span-ok_iff_example = decode_span-ok_iff no_text (encode_span span) true
