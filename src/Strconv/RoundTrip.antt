-- ===== src/Strconv/RoundTrip.antt =====
-- Printed identifiers are read back.

use native.Mathlib.Nat.{pow-suc}
use zipkin_go.Base.{
  ℕ, zero, suc, ◌+◌, ◌*◌, ◌/◌, ◌%◌, ◌^◌, ◌<◌, ◌≡◌, ◌≢◌, refl, sym, ap, ◌∙◌, [], ◌∷◌, ◌++◌, some,
  append_assoc, append-nil, arith, Str, ok, length, length-append, All, All-append, lt→ltb,
}
use zipkin_go.Strconv.{hex_digit, scan_hex, parse_uint, digit_char, hex_pad}

pub length-hex_pad : (w n : ℕ) → length (hex_pad w n) ≡ w
unfolding hex_pad
length-hex_pad zero n = refl
length-hex_pad (suc w) n = omega (
  arith,
  length-append (hex_pad w (n / 16)) (digit_char (n % 16) ∷ []),
  length-hex_pad w (n / 16),
)

hex_digit-digit_char : (d : ℕ) → d < 16 → hex_digit (digit_char d) ≡ some d
unfolding hex_digit digit_char
hex_digit-digit_char d h = ground arith

scan_hex_step :
    (n : ℕ) (s : Str) → n < 2 ^ 64 → scan_hex (digit_char (n % 16) ∷ s) (n / 16) ≡ scan_hex s n
unfolding scan_hex
scan_hex_step n s h =
    let e : n / 16 * 16 + n % 16 ≡ n = omega arith in
    rw
      (
        hex_digit-digit_char (n % 16) (omega arith),
        lt→ltb (n / 16) (2 ^ 60) (omega arith),
        e,
        scan_hex,
      )
      refl

pub scan_hex-hex_pad :
    (w n : ℕ) (s : Str) → n < 16 ^ w → n < 2 ^ 64 → scan_hex (hex_pad w n ++ s) 0 ≡ scan_hex s n
unfolding hex_pad
scan_hex-hex_pad zero n s h k = let e : n ≡ 0 = omega arith in rw e
scan_hex-hex_pad (suc w) n s h k =
    rw
      (
        append_assoc,
        scan_hex-hex_pad w (n / 16) (digit_char (n % 16) ∷ s) (omega (arith, pow-suc 16 w))
            (omega arith),
      )
      (scan_hex_step n s k)

pub hex_pad-cons : (w n : ℕ) → (c : ℕ) × (s : Str) × (hex_pad (suc w) n ≡ c ∷ s)
unfolding hex_pad
hex_pad-cons zero n = (digit_char (n % 16), [], refl)
hex_pad-cons (suc w) n =
    let (c, s, e) = hex_pad-cons w (n / 16) in
    (c, s ++ digit_char (n % 16) ∷ [], ap (λ t. t ++ digit_char (n % 16) ∷ []) e)

parse_uint-scan_hex : (w n : ℕ) → parse_uint (hex_pad (suc w) n) ≡ scan_hex (hex_pad (suc w) n) 0
unfolding parse_uint
parse_uint-scan_hex w n = let (c, s, e) = hex_pad-cons w n in rw e refl

-- A number is read back from any print of it that is wide enough.
pub parse_uint-hex_pad :
    (w n : ℕ) → n < 16 ^ suc w → n < 2 ^ 64 → parse_uint (hex_pad (suc w) n) ≡ ok n
parse_uint-hex_pad w n h k =
    parse_uint-scan_hex w n
    ∙ ap (λ s. scan_hex s 0) (sym (append-nil (hex_pad (suc w) n)))
    ∙ scan_hex-hex_pad (suc w) n [] h k
    ∙ unfold scan_hex in refl

pub parse_uint-hex_pad_16 : (n : ℕ) → n < 2 ^ 64 → parse_uint (hex_pad 16 n) ≡ ok n
parse_uint-hex_pad_16 n h = parse_uint-hex_pad 15 n h h

digit_char-ne-dash : (d : ℕ) → d < 16 → digit_char d ≢ b'-'
unfolding digit_char
digit_char-ne-dash d h = ground arith

pub hex_pad-lacks_dash : (w n : ℕ) → All (λ c. c ≢ b'-') (hex_pad w n)
unfolding hex_pad
hex_pad-lacks_dash zero n = tt
hex_pad-lacks_dash (suc w) n =
    All-append (λ c. c ≢ b'-') (hex_pad w (n / 16)) (digit_char (n % 16) ∷ [])
      (hex_pad-lacks_dash w (n / 16)) (digit_char-ne-dash (n % 16) (omega arith), tt)
