-- ===== src/Model/LowerCase.antt =====
-- `strings.ToLower`, which model/span.go and model/endpoint.go apply to names. A text of ASCII bytes has
-- its letters lowered; for any other text it is `unicode.ToLower` of each code point, a table that is a
-- parameter.
use zipkin_go.Base.{
  ℕ, ◌<◌, ◌≡◌, ◌≢◌, refl, arith, inl, inr, ◌⊎◌, Bool, true, false, Bool-cases, ◌&&◌, [], ◌∷◌, Str,
  str_eq, to_lower, ltb, All, if◌then◌else◌,
}

-- No upper case letter of ASCII.
abbrev pub IsNoUpper : ℕ → Type 0
IsNoUpper c = (c < 65) ⊎ (90 < c)

-- What is made of a text that has other bytes than those of ASCII. No code point is dropped, and none is
-- mapped to an upper case letter.
pub record LowerCase : Type 0 where
  pub lower : Str → Str
  pub keeps : (c : ℕ) (s : Str) → lower (c ∷ s) ≢ []
  pub lowers : (s : Str) → All IsNoUpper (lower s)

abbrev pub is_ascii : Str → Bool
is_ascii [] = true
is_ascii (c ∷ s) = ltb c 128 && is_ascii s

unfoldable pub lower_case : LowerCase → Str → Str
lower_case l s = if is_ascii s then to_lower s else l.lower s

pub to_lower-IsNoUpper : (s : Str) → All IsNoUpper (to_lower s)
unfolding to_lower
to_lower-IsNoUpper [] = tt
to_lower-IsNoUpper (c ∷ s) = (ground arith, to_lower-IsNoUpper s)

pub lower_case-IsNoUpper : (l : LowerCase) (s : Str) → All IsNoUpper (lower_case l s)
unfolding lower_case
lower_case-IsNoUpper l s = elim (Bool-cases (is_ascii s)) [
  | inl h ↦ rw h (to_lower-IsNoUpper s)
  | inr h ↦ rw h (l.lowers s)
]

not_empty : (s : Str) → s ≢ [] → str_eq s [] ≡ false
not_empty [] h = absurd (h refl)
not_empty (c ∷ s) h = refl

pub lower_case-empty : (l : LowerCase) (s : Str) → str_eq (lower_case l s) [] ≡ str_eq s []
unfolding lower_case to_lower
lower_case-empty l [] = refl
lower_case-empty l (c ∷ s) = elim (Bool-cases (ltb c 128 && is_ascii s)) [
  | inl h ↦ rw h refl
  | inr h ↦ rw h (not_empty (l.lower (c ∷ s)) (l.keeps c s))
]
