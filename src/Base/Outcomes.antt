-- ===== src/Base/Outcomes.antt =====
-- What a Go function returns beside its value: an `error`, or a panic that leaves the function.
use Prim.Native.Nat.{ℕ, zero, suc, ◌+◌, ◌-◌, ◌<◌, ◌≤◌}
use mathlib.Core.Path.{◌≡◌, refl, sym, ap, ◌∙◌}
use mathlib.Core.List.{[], ◌∷◌, ◌++◌, append_assoc}
use mathlib.Core.Logic.{◌≢◌, ◌⊎◌, inl, inr}
use native.Mathlib.Omega.{arith}
use mathlib.Core.Bool.{Bool, true, false, ◌&&◌}
use mathlib.Core.Option.{Option, none, some}
use zipkin_go.Base.Tests.{leb, if◌then◌else◌, le→leb, lt→leb_false}
use zipkin_go.Base.Lists.{
  length, get_elem?, take, drop, length-append, get_elem?-append, take-append, drop-append,
  take_all,
}
use zipkin_go.Base.Strings.{Str}

-- The errors that the packages of the repository declare, those of `strconv.ParseUint`, and `other`
-- for one that code outside the repository makes, with its text.
pub data Error : Type 0 where
  invalid_sampled_byte invalid_sampled_header invalid_flags_header : Error
  invalid_trace_id_header invalid_span_id_header invalid_parent_span_id_header : Error
  invalid_scope invalid_scope_parent invalid_scope_parent_single empty_context_error : Error
  invalid_trace_id_value invalid_span_id_value invalid_parent_span_id_value : Error
  num_syntax num_range : Error
  valid_trace_id_required valid_id_required valid_duration_required : Error
  valid_timestamp_required invalid_endpoint invalid_extract_failure_policy : Error
  valid_tracer_required nil_proto_span nil_zipkin_span invalid_trace_id : Error
  invalid_parent_id invalid_span_id span_id_expected : Error
  other : Str → Error

-- `raised v` is `panic(v)` for an error value `v`, where `none` is nil.
pub data Panic : Type 0 where
  out_of_range nil_pointer nil_map : Panic
  raised : Option Error → Panic

pub data Outcome {ℓ} (A : Type ℓ) : Type ℓ where
  ok : A → Outcome A
  err : Error → Outcome A
  panic : Panic → Outcome A

infixl 5 ◌>>=◌ ◌>>◌
abbrev pub ◌>>=◌ {ℓ κ} : {A : Type ℓ} {B : Type κ} → Outcome A → (A → Outcome B) → Outcome B
ok a >>= f = f a
err e >>= f = err e
panic p >>= f = panic p

abbrev pub ◌>>◌ {ℓ} : {B : Type ℓ} → Outcome (Unit {0}) → Outcome B → Outcome B
m >> k = m >>= λ _. k

-- `s[i]` and `s[i:j]`.
unfoldable pub index : Str → ℕ → Outcome ℕ
index s i = elim (get_elem? s i) [ none ↦ panic out_of_range | some c ↦ ok c ]

unfoldable pub slice : Str → ℕ → ℕ → Outcome Str
slice s i j =
    if leb i j && leb j (length s) then ok (take (j - i) (drop i s)) else panic out_of_range

abbrev pub is_ok {ℓ} : {A : Type ℓ} → Outcome A → Bool
is_ok (ok a) = true
is_ok _ = false

-- A function whose errors are not looked at any further than that there is one.
abbrev pub or_error {ℓ} : {A : Type ℓ} → Error → Outcome A → Outcome A
or_error e (ok a) = ok a
or_error e (err _) = err e
or_error e (panic p) = panic p

pub Outcome-cases {ℓ} :
    {A : Type ℓ} (x : Outcome A)
    → ((p : Panic) → x ≢ panic p)
    → ((a : A) × (x ≡ ok a)) ⊎ ((e : Error) × (x ≡ err e))
Outcome-cases (ok a) h = inl (a, refl)
Outcome-cases (err e) h = inr (e, refl)
Outcome-cases (panic p) h = absurd (h p refl)

-- The middle of a text whose parts have known lengths.
pub slice-append :
    (p s q : Str) (i j : ℕ) → length p ≡ i → i + length s ≡ j → slice (p ++ (s ++ q)) i j ≡ ok s
unfolding slice
slice-append p s q i j hp hj = rw (le→leb i j (omega arith)) (
    rw
      (le→leb j (length (p ++ (s ++ q)))
        (omega (arith, length-append p (s ++ q), length-append s q)))
      (ap ok
        (ap (take (j - i)) (drop-append i p (s ++ q) hp) ∙ take-append (j - i) s q (omega arith))))

pub slice-out_of_range : (s : Str) (i j : ℕ) → length s < j → slice s i j ≡ panic out_of_range
unfolding slice
slice-out_of_range s i j h = rw (lt→leb_false j (length s) h) (ground arith)

pub slice_in_range :
    (s : Str) (i j : ℕ) → i ≤ j → j ≤ length s → slice s i j ≡ ok (take (j - i) (drop i s))
unfolding slice
slice_in_range s i j h k = rw (le→leb i j h, le→leb j (length s) k) refl

pub slice_last : (p s : Str) (i j : ℕ) → length p ≡ i → i + length s ≡ j → slice (p ++ s) i j ≡ ok s
unfolding slice
slice_last p s i j hp hj = rw (le→leb i j (omega arith)) (
    rw (le→leb j (length (p ++ s)) (omega (arith, length-append p s)))
      (ap ok (ap (take (j - i)) (drop-append i p s hp) ∙ take_all (j - i) s (omega arith))))

pub index-append : (p s : Str) (c i : ℕ) → length p ≡ i → index (p ++ c ∷ s) i ≡ ok c
unfolding index
index-append p s c i h = rw (get_elem?-append i p s c h, index)

-- One separating byte further.
pub slice-skip :
    (p : Str) (c : ℕ) (s q : Str) (i j : ℕ)
    → length p + 1 ≡ i
    → i + length s ≡ j
    → slice (p ++ c ∷ (s ++ q)) i j ≡ ok s
slice-skip p c s q i j hp hj =
    ap (λ t. slice t i j) (sym (append_assoc p (c ∷ []) (s ++ q)))
    ∙ slice-append (p ++ c ∷ []) s q i j (omega (arith, length-append p (c ∷ []))) hj

pub index-skip : (p s : Str) (b c i : ℕ) → length p + 1 ≡ i → index (p ++ b ∷ c ∷ s) i ≡ ok c
index-skip p s b c i h =
    ap (λ t. index t i) (sym (append_assoc p (b ∷ []) (c ∷ s)))
    ∙ index-append (p ++ b ∷ []) s c i (omega (arith, length-append p (b ∷ [])))

pub index_in_range : (s : Str) (i : ℕ) → i < length s → (c : ℕ) × (index s i ≡ ok c)
unfolding index
index_in_range [] i h = elim h [ ]
index_in_range (c ∷ s) zero h = (c, refl)
index_in_range (c ∷ s) (suc i) h = index_in_range s i (omega arith)

-- Inversion of a successful step.
pub bind-eq-ok {ℓ κ} :
    {A : Type ℓ} {B : Type κ} (m : Outcome A) (f : A → Outcome B) {b : B}
    → (m >>= f) ≡ ok b
    → (a : A) × (m ≡ ok a) × (f a ≡ ok b)
bind-eq-ok (ok a) f h = (a, refl, h)
bind-eq-ok (err e) f h = cc
bind-eq-ok (panic p) f h = cc
