-- ===== src/Model/SpanIds.antt =====
-- model/span_id.go: the 64-bit span identifier.
use zipkin_go.Base.{
  ℕ, ◌-◌, ◌^◌, ◌<◌, ◌≡◌, refl, Option, none, some, [], ◌∷◌, ◌++◌, arith, Str, ltb, if◌then◌else◌,
  Outcome, ok, err, ◌>>=◌, slice, slice-append, length, length-append, Error,
}
use zipkin_go.Strconv.{parse_uint, parse_uint_value, hex_pad}
use zipkin_go.Strconv.RoundTrip.{length-hex_pad, parse_uint-hex_pad_16}

abbrev pub SpanId : Type 0
SpanId = ℕ

unfoldable pub span_id_string : SpanId → Str
span_id_string i = hex_pad 16 i

unfoldable pub marshal_span_id : SpanId → Str
marshal_span_id i = b'"' ∷ (span_id_string i ++ b'"' ∷ [])

-- The error that a call returned, if it did.
abbrev pub outcome_error : Outcome ℕ → Option Error
outcome_error (err e) = some e
outcome_error _ = none

-- `*i = ID(id)` runs whether or not the text was read: the new value stands beside the error.
unfoldable pub unmarshal_span_id : SpanId → Str → Outcome (SpanId × Option Error)
unmarshal_span_id i b = if ltb (length b) 3 then ok (i, none) else do
  s ← slice b 1 (length b - 1)
  ok (parse_uint_value (parse_uint s), outcome_error (parse_uint s))

-- Every identifier is read back from its JSON text, whatever the pointer held.
pub unmarshal_span_id-marshal_span_id :
    (i old : SpanId) → i < 2 ^ 64 → unmarshal_span_id old (marshal_span_id i) ≡ ok (i, none)
unfolding unmarshal_span_id marshal_span_id span_id_string parse_uint_value
unmarshal_span_id-marshal_span_id i old h =
    let s = hex_pad 16 i in
    let n : length (b'"' ∷ (s ++ b'"' ∷ [])) ≡ 18 =
      omega (arith, length-append s (b'"' ∷ []), length-hex_pad 16 i) in
    rw (
      n,
      slice-append (b'"' ∷ []) s (b'"' ∷ []) 1 17 refl (omega (arith, length-hex_pad 16 i)),
      parse_uint-hex_pad_16 i h,
    )
