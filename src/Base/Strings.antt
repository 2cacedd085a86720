-- ===== src/Base/Strings.antt =====
-- Go strings as the lists of their bytes, with the parts of package `strings` that the code calls.
use Prim.Native.Nat.{ℕ, ◌+◌, ◌-◌, ◌/◌, ◌%◌}
use Prim.Native.Char.{code}
use Prim.Native.String.{String}
use mathlib.Core.Path.{◌≡◌, refl, sym, ap, ap₂}
use mathlib.Core.Logic.{◌↔◌}
use mathlib.Core.Bool.{Bool, true, false, ◌&&◌}
use mathlib.Core.List.{List, [], ◌∷◌, ◌++◌, append-nil}
use native.Mathlib.Omega.{arith}
use zipkin_go.Base.Tests.{◌==◌, ltb, leb, if◌then◌else◌}

abbrev pub Str : Type 0
Str = List ℕ

-- The bytes of a literal, which is ASCII wherever this is used.
abbrev pub codes : String → Str
codes String.[] = []
codes (String.◌∷◌ c s) = code c ∷ codes s

abbrev pub str_eq : Str → Str → Bool
str_eq [] [] = true
str_eq (x ∷ xs) (y ∷ ys) = (x == y) && str_eq xs ys
str_eq _ _ = false

pub str_eq_refl : (s : Str) → str_eq s s ≡ true
str_eq_refl [] = refl
str_eq_refl (x ∷ xs) = ground (arith, str_eq_refl xs)

pub str_eq→eq : (s t : Str) → str_eq s t ≡ true → s ≡ t
str_eq→eq [] [] h = refl
str_eq→eq [] (y ∷ ys) h = ground arith
str_eq→eq (x ∷ xs) [] h = ground arith
str_eq→eq (x ∷ xs) (y ∷ ys) h = ground (arith, str_eq→eq xs ys)

pub eq→str_eq : (s t : Str) → s ≡ t → str_eq s t ≡ true
eq→str_eq s t e = rw e (str_eq_refl t)

pub str_eq_iff : (s t : Str) → (str_eq s t ≡ true) ↔ (s ≡ t)
str_eq_iff s t = (str_eq→eq s t, eq→str_eq s t)

-- `strings.ToLower` and `strings.ToUpper` on ASCII; other bytes are kept.
abbrev pub lower_byte : ℕ → ℕ
lower_byte c = if leb b'A' c && leb c b'Z' then c + 32 else c

unfoldable pub to_lower : Str → Str
to_lower [] = []
to_lower (c ∷ s) = lower_byte c ∷ to_lower s

abbrev pub upper_byte : ℕ → ℕ
upper_byte c = if leb b'a' c && leb c b'z' then c - 32 else c

unfoldable pub to_upper : Str → Str
to_upper [] = []
to_upper (c ∷ s) = upper_byte c ∷ to_upper s

lower_byte_idem : (c : ℕ) → lower_byte (lower_byte c) ≡ lower_byte c
lower_byte_idem c = ground arith

pub to_lower_idem : (s : Str) → to_lower (to_lower s) ≡ to_lower s
unfolding to_lower
to_lower_idem [] = refl
to_lower_idem (c ∷ s) = ap₂ (λ x y. x ∷ y) (lower_byte_idem c) (to_lower_idem s)

-- `strings.Join`.
unfoldable pub join : List Str → Str → Str
join [] sep = []
join (p ∷ []) sep = p
join (p ∷ q ∷ ps) sep = p ++ (sep ++ join (q ∷ ps) sep)

-- The conversion of a byte to a string: the byte is read as a code point and encoded in UTF-8.
unfoldable pub rune_str : ℕ → Str
rune_str c = if ltb c 128 then c ∷ [] else (192 + c / 64) ∷ (128 + c % 64) ∷ []

-- The parts, each behind a separator.
abbrev pub separated : Str → List Str → Str
separated sep [] = []
separated sep (p ∷ ps) = sep ++ (p ++ separated sep ps)

pub join-separated :
    (p : Str) (ps : List Str) (sep : Str) → join (p ∷ ps) sep ≡ p ++ separated sep ps
unfolding join
join-separated p [] sep = sym (append-nil p)
join-separated p (q ∷ ps) sep = ap (λ t. p ++ (sep ++ t)) (join-separated q ps sep)
