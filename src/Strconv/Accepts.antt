-- ===== src/Strconv/Accepts.antt =====
-- What `ParseUint` accepts, against an independent reading of the digits.
use zipkin_go.Base.{
  ℕ, ◌+◌, ◌*◌, ◌^◌, ◌≤◌, ◌<◌, ◌≡◌, ◌≢◌, refl, true, [], ◌∷◌, none, some, arith, Str, ok, err, panic,
  Outcome-cases, ◌⊎◌, Panic, All, is_some, Error,
}
use zipkin_go.Strconv.{hex_digit, scan_hex, parse_uint}

abbrev pub IsHex : Str → Type 0
IsHex = All (λ c. is_some (hex_digit c) ≡ true)

abbrev pub digit_value : ℕ → ℕ
digit_value c = elim (hex_digit c) [ none ↦ 0 | some d ↦ d ]

-- The number that hex digits spell behind `n`, with no bound.
abbrev pub hex_value : ℕ → Str → ℕ
hex_value n [] = n
hex_value n (c ∷ s) = hex_value (n * 16 + digit_value c) s

pub hex_digit-lt : (c d : ℕ) → hex_digit c ≡ some d → d < 16
unfolding hex_digit
hex_digit-lt c d h = ground arith

le-hex_value : (s : Str) (n : ℕ) → n ≤ hex_value n s
le-hex_value [] n = omega arith
le-hex_value (c ∷ s) n = omega (arith, le-hex_value s (n * 16 + digit_value c))

scan_hex_sound :
    (s : Str) (n r : ℕ)
    → n < 2 ^ 64
    → scan_hex s n ≡ ok r
    → IsHex s × (r ≡ hex_value n s) × (r < 2 ^ 64)
unfolding scan_hex
scan_hex_sound [] n r b h = ground arith
scan_hex_sound (c ∷ s) n r b h =
    ground (arith, hex_digit-lt c (digit_value c), scan_hex_sound s (n * 16 + digit_value c) r)

-- An accepted text is one or more hex digits, and the result is its true value: nothing wrapped.
pub parse_uint_sound :
    (s : Str) (r : ℕ)
    → parse_uint s ≡ ok r
    → (s ≢ []) × IsHex s × (r ≡ hex_value 0 s) × (r < 2 ^ 64)
unfolding parse_uint
parse_uint_sound [] r h = cc
parse_uint_sound (c ∷ s) r h =
    let (hex, exact, fits) = scan_hex_sound (c ∷ s) 0 r (omega arith) h in
    ((λ (e : c ∷ s ≡ []). cc), hex, exact, fits)

scan_hex_complete :
    (s : Str) (n : ℕ) → IsHex s → hex_value n s < 2 ^ 64 → scan_hex s n ≡ ok (hex_value n s)
unfolding scan_hex
scan_hex_complete [] n h b = refl
scan_hex_complete (c ∷ s) n h b =
    let m = n * 16 + digit_value c in ground (arith, scan_hex_complete s m h.1 b, le-hex_value s m)

pub parse_uint_complete :
    (s : Str) → s ≢ [] → IsHex s → hex_value 0 s < 2 ^ 64 → parse_uint s ≡ ok (hex_value 0 s)
unfolding parse_uint
parse_uint_complete [] h = absurd (h refl)
parse_uint_complete (c ∷ s) _ = scan_hex_complete (c ∷ s) 0

scan_hex_no_panic : (s : Str) (n : ℕ) (p : Panic) → scan_hex s n ≢ panic p
unfolding scan_hex
scan_hex_no_panic [] n p = ground arith
scan_hex_no_panic (c ∷ s) n p = ground (arith, scan_hex_no_panic s (n * 16 + digit_value c) p)

-- `ParseUint` returns on every text.
pub parse_uint_no_panic : (s : Str) (p : Panic) → parse_uint s ≢ panic p
unfolding parse_uint
parse_uint_no_panic [] p = ground arith
parse_uint_no_panic (c ∷ s) p = scan_hex_no_panic (c ∷ s) 0 p

pub parse_uint-cases :
    (s : Str) → ((n : ℕ) × (parse_uint s ≡ ok n)) ⊎ ((e : Error) × (parse_uint s ≡ err e))
parse_uint-cases s = Outcome-cases (parse_uint s) (parse_uint_no_panic s)
