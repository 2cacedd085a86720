-- ===== src/Model/Json/Schema.antt =====
-- The form of the fields that `MarshalJSON` of a span writes.
pub mod Fields
use zipkin_go.Base.{
  ℕ, zero, suc, ◌/◌, ◌%◌, ◌≤◌, ◌<◌, ◌≡◌, ◌≢◌, refl, arith, inl, inr, ◌⊎◌, Bool, true, false,
  Bool-cases, Option, none, some, List, [], ◌∷◌, ◌++◌, Str, Dict, to_lower, length, length-append,
  ◌==◌, if◌then◌else◌, ℤ, pos, eqb_ℤ, All, All-append, Error, ok, ◌>>=◌, bind-eq-ok,
}
use zipkin_go.Strconv.{hex_pad, digit_char}
use zipkin_go.Strconv.RoundTrip.{length-hex_pad}
use zipkin_go.Model.TraceIds.{TraceId, trace_id_string, marshal_trace_id}
use zipkin_go.Model.SpanIds.{SpanId, span_id_string, marshal_span_id}
use zipkin_go.Model.LowerCase.{IsNoUpper}
use zipkin_go.Model.Spans.{Annotation, Endpoint, endpoint_empty, SpanModel}
use zipkin_go.Model.Json.{
  JsonEndpoint, JsonField, timestamp_field, duration_field, trace_id_field, id_field,
  parent_id_field, debug_field, shared_field, name_field, kind_field, local_endpoint_field,
  remote_endpoint_field, annotations_field, tags_field, other_field,
}
use zipkin_go.Model.Json.Encode.{
  marshal_timestamp, marshal_duration, marshal_ip, marshal_endpoint, marshal_endpoint_field,
  number_field, text_field, bool_field, marshal_annotations, parent_field, annotation_field,
  tag_field, span_fields, marshal_span, non_empty, non_zero,
}

-- A lower case digit of base 16.
abbrev IsLowerHex : ℕ → Type 0
IsLowerHex c = ((48 ≤ c) × (c ≤ 57)) ⊎ ((97 ≤ c) × (c ≤ 102))

-- A JSON string of a number of digits.
abbrev pub IsQuotedHex : ℕ → Str → Type 0
IsQuotedHex n s = (d : Str) × (s ≡ b'"' ∷ (d ++ b'"' ∷ [])) × (length d ≡ n) × All IsLowerHex d

-- A text that is not empty and has no upper case letter.
abbrev pub IsLowerText : Str → Type 0
IsLowerText s = (s ≢ []) × All IsNoUpper s

abbrev pub IfSome : {A : Type 0} → (A → Type 0) → Option A → Type 0
IfSome P none = Unit
IfSome P (some a) = P a

-- An endpoint has addresses of 16 bytes, a lower case name, and a port that is not zero, where it has
-- any.
pub record IsSchemaEndpoint (e : JsonEndpoint) : Type 0 where
  pub lower_name : IfSome IsLowerText e.service_name
  pub size_4 : IfSome (λ ip. length ip ≡ 16) e.ipv4
  pub size_6 : IfSome (λ ip. length ip ≡ 16) e.ipv6
  pub has_port : IfSome (λ p. p ≢ pos 0) e.port

-- The form of a field: none has the zero value of its type, and none another key than those of a span.
abbrev pub FitsSchema : JsonField → Type 0
FitsSchema (timestamp_field t) = t ≢ pos 0
FitsSchema (duration_field d) = d ≢ pos 0
FitsSchema (trace_id_field s) = IsQuotedHex 16 s ⊎ IsQuotedHex 32 s
FitsSchema (id_field s) = IsQuotedHex 16 s
FitsSchema (parent_id_field s) = IsQuotedHex 16 s
FitsSchema (debug_field b) = b ≡ true
FitsSchema (shared_field b) = b ≡ true
FitsSchema (name_field s) = IsLowerText s
FitsSchema (kind_field s) = s ≢ []
FitsSchema (local_endpoint_field e) = IsSchemaEndpoint e
FitsSchema (remote_endpoint_field e) = IsSchemaEndpoint e
FitsSchema (annotations_field xs) = xs ≢ []
FitsSchema (tags_field m) = m ≢ []
FitsSchema other_field = ⊥

digit_char-IsLowerHex : (d : ℕ) → d < 16 → IsLowerHex (digit_char d)
unfolding digit_char
digit_char-IsLowerHex d h = ground arith

hex_pad-IsLowerHex : (w n : ℕ) → All IsLowerHex (hex_pad w n)
unfolding hex_pad
hex_pad-IsLowerHex zero n = tt
hex_pad-IsLowerHex (suc w) n =
    All-append IsLowerHex (hex_pad w (n / 16)) (digit_char (n % 16) ∷ [])
      (hex_pad-IsLowerHex w (n / 16)) (digit_char-IsLowerHex (n % 16) (omega arith), tt)

pub marshal_span_id-IsQuotedHex : (i : SpanId) → IsQuotedHex 16 (marshal_span_id i)
unfolding marshal_span_id span_id_string
marshal_span_id-IsQuotedHex i = (hex_pad 16 i, refl, length-hex_pad 16 i, hex_pad-IsLowerHex 16 i)

pub marshal_trace_id-IsQuotedHex :
    (t : TraceId) → IsQuotedHex 16 (marshal_trace_id t) ⊎ IsQuotedHex 32 (marshal_trace_id t)
unfolding marshal_trace_id trace_id_string
marshal_trace_id-IsQuotedHex t = elim (Bool-cases (t.high == 0)) [
  | inl h ↦ inl (hex_pad 16 t.low, rw h refl, length-hex_pad 16 t.low, hex_pad-IsLowerHex 16 t.low)
  | inr h ↦ inr (
    hex_pad 16 t.high ++ hex_pad 16 t.low,
    rw h refl,
    omega (
      arith,
      length-append (hex_pad 16 t.high) (hex_pad 16 t.low),
      length-hex_pad 16 t.high,
      length-hex_pad 16 t.low,
    ),
    All-append IsLowerHex (hex_pad 16 t.high) (hex_pad 16 t.low) (hex_pad-IsLowerHex 16 t.high)
        (hex_pad-IsLowerHex 16 t.low),
  )
]

pub non_empty-IsLowerText : (s : Str) → All IsNoUpper s → IfSome IsLowerText (non_empty s)
non_empty-IsLowerText [] h = tt
non_empty-IsLowerText (c ∷ s) h = ((λ e. cc), h)
