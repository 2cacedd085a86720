-- ===== src/Proto/Accepts.antt =====
-- Which messages `ParseSpans` accepts.
use native.Mathlib.Nat.{mul-le-mul_right, mul_assoc, pow-succ'}
use zipkin_go.Base.{
  ℕ, suc, ◌+◌, ◌*◌, ◌/◌, ◌%◌, ◌^◌, ◌≤◌, ◌<◌, ◌≡◌, ◌↔◌, ◌⊎◌, refl, sym, ap, ◌∙◌, arith, Bool, true,
  List, [], ◌∷◌, ◌++◌, append_assoc, append-nil, Str, ℤ, length, length-take, length-drop, take,
  drop, take-append-drop, ok, is_ok, Error, invalid_parent_id, invalid_span_id,
}
use zipkin_go.Strconv.{hex_pad}
use zipkin_go.Model.TraceIds.{TraceId, trace_id_from_hex, from_hex_long}
use zipkin_go.Proto.Bytes.{hex_bytes, hex_bytes-append, hex_pad-byte}
use zipkin_go.Proto.Messages.{ProtoSpan}
use zipkin_go.Proto.Decode.{decode_span_id, decode_span}

hex_pad_byte-mod : (b : ℕ) → hex_pad 2 b ≡ hex_pad 2 (b % 256)
unfolding hex_pad
hex_pad_byte-mod b =
    let p : b / 16 % 16 ≡ b % 256 / 16 % 16 = omega arith in
    let q : b % 16 ≡ b % 256 % 16 = omega arith in rw (p, q) refl

-- The print of some bytes behind that of a number is the print of a number.
hex_bytes_number :
    (bs : List ℕ) (k n : ℕ)
    → (m : ℕ) × (hex_pad k n ++ hex_bytes bs ≡ hex_pad (length bs + length bs + k) m)
      × (m < suc n * 256 ^ length bs)
unfolding hex_bytes
hex_bytes_number [] k n =
    let e : 0 + 0 + k ≡ k = omega arith in
    (n, append-nil (hex_pad k n) ∙ ap (λ x. hex_pad x n) (sym e), omega arith)
hex_bytes_number (b ∷ bs) k n =
    let next = n * 256 + b % 256 in
    let (m, e, h) = hex_bytes_number bs (suc (suc k)) next in
    let high : next / 256 ≡ n = omega arith in
    let low : next % 256 ≡ b % 256 = omega arith in
    let fits : suc next ≤ suc n * 256 = omega arith in
    let joined : hex_pad k n ++ hex_pad 2 b ≡ hex_pad (suc (suc k)) next =
      ap (λ s. hex_pad k n ++ s) (hex_pad_byte-mod b)
      ∙ ap (λ x. hex_pad k x ++ hex_pad 2 (b % 256)) (sym high)
      ∙ ap (λ x. hex_pad k (next / 256) ++ hex_pad 2 x) (sym low)
      ∙ hex_pad-byte k next in
    (
      m,
      sym (append_assoc (hex_pad k n) (hex_pad 2 b) (hex_bytes bs))
          ∙ ap (λ s. s ++ hex_bytes bs) joined
          ∙ e
          ∙ ap (λ x. hex_pad x m) (omega arith),
      omega (
        arith,
        h,
        mul-le-mul_right (256 ^ length bs) fits,
        mul_assoc (suc n) 256 (256 ^ length bs),
        ap (λ x. suc n * x) (pow-succ' 256 (length bs)),
      ),
    )

hex_bytes_8 : (bs : List ℕ) → length bs ≡ 8 → (n : ℕ) × (hex_bytes bs ≡ hex_pad 16 n) × (n < 2 ^ 64)
hex_bytes_8 bs h =
    let (n, e, b) = hex_bytes_number bs 0 0 in
    let width : length bs + length bs + 0 ≡ 16 = omega (arith, h) in
    let bound : n < 1 * 256 ^ 8 = rw h at b in
    (n, unfold hex_pad in e ∙ ap (λ k. hex_pad k n) width, omega (arith, bound))

trace_id_from_hex-hex_bytes :
    (bs : List ℕ) → length bs ≡ 16 → (t : TraceId) × (trace_id_from_hex (hex_bytes bs) ≡ ok t)
trace_id_from_hex-hex_bytes bs h =
    let (a, ea, ba) = hex_bytes_8 (take 8 bs) (omega (arith, length-take 8 bs)) in
    let (b, eb, bb) = hex_bytes_8 (drop 8 bs) (omega (arith, length-drop 8 bs)) in
    (
      record { high = a; low = b },
      ap trace_id_from_hex (
            ap hex_bytes (sym (take-append-drop 8 bs))
            ∙ hex_bytes-append (take 8 bs) (drop 8 bs)
            ∙ ap (λ s. s ++ hex_bytes (drop 8 bs)) ea
            ∙ ap (λ s. hex_pad 16 a ++ s) eb)
          ∙ from_hex_long a b ba bb,
    )

decode_span_id-is_ok :
    (bs : List ℕ) (e : Error)
    → (is_ok (decode_span_id bs e) ≡ true) ↔ ((length bs ≡ 0) ⊎ (length bs ≡ 8))
unfolding decode_span_id
decode_span_id-is_ok [] e = ground arith
decode_span_id-is_ok (b ∷ bs) e = ground arith

-- `ParseSpans` accepts a message exactly if its trace identifier has 16 bytes, its span identifier 8, and
-- its parent identifier 8 or none, whatever the bytes are: a trace identifier of 8 bytes is refused.
pub decode_span-ok_iff :
    (number_text : ℤ → Str) (s : ProtoSpan) (debug : Bool)
    → (is_ok (decode_span number_text s debug) ≡ true) ↔ (
        (length s.trace_id ≡ 16)
        × ((length s.parent_id ≡ 0) ⊎ (length s.parent_id ≡ 8))
        × (length s.id ≡ 8))
unfolding decode_span
decode_span-ok_iff number_text s debug = ground (
  arith,
  trace_id_from_hex-hex_bytes s.trace_id,
  decode_span_id-is_ok s.parent_id invalid_parent_id,
  decode_span_id-is_ok s.id invalid_span_id,
)
