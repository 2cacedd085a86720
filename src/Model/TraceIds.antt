-- ===== src/Model/TraceIds.antt =====
-- model/traceid.go. The number that Go returns beside an error is dropped: no caller reads it.
use zipkin_go.Base.{
  ℕ, ◌+◌, ◌-◌, ◌^◌, ◌<◌, ◌≡◌, refl, Bool, ◌&&◌, [], ◌∷◌, ◌++◌, arith, Str, ltb, ◌==◌, if◌then◌else◌,
  Outcome, ok, err, ◌>>=◌, slice, slice-append, slice_last, length, length-append,
  valid_trace_id_required, Bool-cases, le→ltb_false, inl, inr,
}
use zipkin_go.Strconv.{parse_uint, hex_pad}
use zipkin_go.Strconv.RoundTrip.{length-hex_pad, parse_uint-hex_pad_16}

pub record TraceId : Type 0 where
  pub high : ℕ
  pub low : ℕ

abbrev pub no_trace_id : TraceId
no_trace_id = record { high = 0; low = 0 }

unfoldable pub trace_id_empty : TraceId → Bool
trace_id_empty t = t.low == 0 && t.high == 0

unfoldable pub trace_id_string : TraceId → Str
trace_id_string t = if t.high == 0 then hex_pad 16 t.low else hex_pad 16 t.high ++ hex_pad 16 t.low

unfoldable pub trace_id_from_hex : Str → Outcome TraceId
trace_id_from_hex h =
    if ltb 16 (length h)
    then (do
      s ← slice h 0 (length h - 16)
      high ← parse_uint s
      s ← slice h (length h - 16) (length h)
      low ← parse_uint s
      ok (record { high = high; low = low }))
    else (do low ← parse_uint h; ok (record { high = 0; low = low }))

-- `%q` of a text of hex digits adds the quotes and nothing else.
unfoldable pub marshal_trace_id : TraceId → Str
marshal_trace_id t = b'"' ∷ (trace_id_string t ++ b'"' ∷ [])

-- The result is what the pointer holds afterwards.
unfoldable pub unmarshal_trace_id : Str → Outcome TraceId
unmarshal_trace_id b =
    if ltb (length b) 3
    then err valid_trace_id_required
    else do s ← slice b 1 (length b - 1); trace_id_from_hex s

-- Both halves are 64-bit numbers.
pub record IsTraceId (t : TraceId) : Type 0 where
  pub high_bound : t.high < 2 ^ 64
  pub low_bound : t.low < 2 ^ 64

-- The text has 16 digits for a 64-bit identifier, 32 for any other.
pub length-trace_id_string :
    (t : TraceId) → length (trace_id_string t) ≡ (if t.high == 0 then 16 else 32)
unfolding trace_id_string
length-trace_id_string t = ground (
  arith,
  length-hex_pad 16 t.low,
  length-hex_pad 16 t.high,
  length-append (hex_pad 16 t.high) (hex_pad 16 t.low),
)

from_hex_short :
    (n : ℕ) → n < 2 ^ 64 → trace_id_from_hex (hex_pad 16 n) ≡ ok (record { high = 0; low = n })
unfolding trace_id_from_hex
from_hex_short n h = rw (length-hex_pad, parse_uint-hex_pad_16 n h) refl

pub from_hex_long :
    (a b : ℕ)
    → a < 2 ^ 64
    → b < 2 ^ 64
    → trace_id_from_hex (hex_pad 16 a ++ hex_pad 16 b) ≡ ok (record { high = a; low = b })
unfolding trace_id_from_hex
from_hex_long a b ha hb =
    let e : length (hex_pad 16 a ++ hex_pad 16 b) ≡ 32 = omega (
      arith,
      length-append (hex_pad 16 a) (hex_pad 16 b),
      length-hex_pad 16 a,
      length-hex_pad 16 b,
    ) in
    rw (
      e,
      slice-append [] (hex_pad 16 a) (hex_pad 16 b) 0 16 refl (omega (arith, length-hex_pad 16 a)),
      parse_uint-hex_pad_16 a ha,
      slice_last (hex_pad 16 a) (hex_pad 16 b) 16 32 (length-hex_pad 16 a)
          (omega (arith, length-hex_pad 16 b)),
      parse_uint-hex_pad_16 b hb,
    )

-- Every 128-bit trace identifier is read back from its text.
pub trace_id_from_hex-trace_id_string :
    (t : TraceId) → IsTraceId t → trace_id_from_hex (trace_id_string t) ≡ ok t
unfolding trace_id_string
trace_id_from_hex-trace_id_string t v = elim (Bool-cases (t.high == 0)) [
  | inl e ↦ rw e (rw (from_hex_short t.low v.low_bound) (ground arith))
  | inr e ↦ rw e (from_hex_long t.high t.low v.high_bound v.low_bound)
]

-- Every 128-bit trace identifier is read back from its JSON text.
pub unmarshal_trace_id-marshal_trace_id :
    (t : TraceId) → IsTraceId t → unmarshal_trace_id (marshal_trace_id t) ≡ ok t
unfolding unmarshal_trace_id marshal_trace_id
unmarshal_trace_id-marshal_trace_id t v =
    let s = trace_id_string t in
    let n : length (b'"' ∷ (s ++ b'"' ∷ [])) ≡ length s + 2 =
      omega (arith, length-append s (b'"' ∷ [])) in
    rw
      (
        n,
        le→ltb_false (length s + 2) 3 (ground (arith, length-trace_id_string t)),
        slice-append (b'"' ∷ []) s (b'"' ∷ []) 1 (length s + 2 - 1) refl (omega arith),
      )
      (trace_id_from_hex-trace_id_string t v)
