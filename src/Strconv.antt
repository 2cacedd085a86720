-- ===== src/Strconv.antt =====
-- The two conversions of Go's standard library that carry every identifier: `strconv.ParseUint(s, 16,
-- 64)` and `fmt.Sprintf("%016x", n)`. The proofs are in the modules below.
pub mod RoundTrip
pub mod Accepts
use zipkin_go.Base.{
  ℕ, zero, suc, ◌+◌, ◌-◌, ◌*◌, ◌/◌, ◌%◌, ◌^◌, Bool, true, false, ◌&&◌, Option, none, some, List, [],
  ◌∷◌, ◌++◌, Str, leb, ltb, if◌then◌else◌, Outcome, ok, err, panic, Error, num_syntax, num_range, ℤ,
  pos, negsuc,
}

-- The digits that base 16 admits. `ParseUint` lowers letters first, and refuses those past `f`.
unfoldable pub hex_digit : ℕ → Option ℕ
hex_digit c =
    if leb b'0' c && leb c b'9'
    then some (c - 48)
    else if leb b'a' c && leb c b'f'
    then some (c - 87)
    else if leb b'A' c && leb c b'F'
    then some (c - 55)
    else none

-- The loop over the bytes; a number past 64 bits is refused where the next digit would not fit.
unfoldable pub scan_hex : Str → ℕ → Outcome ℕ
scan_hex [] n = ok n
scan_hex (c ∷ s) n = elim (hex_digit c) [
  | none ↦ err num_syntax
  | some d ↦ if ltb n (2 ^ 60) then scan_hex s (n * 16 + d) else err num_range
]

unfoldable pub parse_uint : Str → Outcome ℕ
unfolding scan_hex hex_digit
parse_uint [] = err num_syntax
parse_uint (c ∷ s) = scan_hex (c ∷ s) 0

-- `ParseUint` returns a number beside an error too: 0 for a malformed text, the largest value for a
-- number that does not fit.
unfoldable pub parse_uint_value : Outcome ℕ → ℕ
parse_uint_value (ok n) = n
parse_uint_value (err num_range) = 2 ^ 64 - 1
parse_uint_value _ = 0

-- The lower case digit for a value below 16.
unfoldable pub digit_char : ℕ → ℕ
digit_char d = if ltb d 10 then d + 48 else d + 87

-- `w` digits of `n`, padded with zeros; `%016x` of a 64-bit number is `hex_pad 16`.
unfoldable pub hex_pad : ℕ → ℕ → Str
unfolding digit_char
hex_pad zero n = []
hex_pad (suc w) n = hex_pad w (n / 16) ++ digit_char (n % 16) ∷ []

-- `strconv.FormatUint(n, 10)` of a number below 10 ^ (f + 1); 20 digits are enough for 64 bits.
unfoldable pub decimal : ℕ → ℕ → Str
decimal zero n = (48 + n) ∷ []
decimal (suc f) n =
    let rest = decimal f (n / 10) in if ltb n 10 then (48 + n) ∷ [] else rest ++ (48 + n % 10) ∷ []

unfoldable pub format_uint : ℕ → Str
unfolding decimal
format_uint n = decimal 19 n

unfoldable pub format_int : ℤ → Str
unfolding format_uint
format_int (pos n) = format_uint n
format_int (negsuc n) = b'-' ∷ format_uint (suc n)
