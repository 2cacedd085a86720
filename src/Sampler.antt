-- ===== src/Sampler.antt =====
-- sample.go. A sampler decides on the lower half of a trace identifier.
pub mod Reservoir
pub mod BitSet
pub mod Counting
pub mod Rates
mod Tests
use Prim.Native.Nat.{bit_xor}
use zipkin_go.Base.{
  ℕ, zero, suc, ◌+◌, ◌-◌, ◌/◌, ◌%◌, ◌^◌, ◌<◌, Bool, true, false, ◌||◌, Option, none, some, List, [],
  ◌∷◌, ◌++◌, Str, codes, ℤ, pos, negsuc, ltb, to_uint64, ◌==◌, if◌then◌else◌, Outcome, ok, err,
  panic, out_of_range, Error, other, ◌>>=◌, get_elem?, set, replicate,
}

unfoldable pub never_sample : ℕ → Bool
never_sample id = false

unfoldable pub always_sample : ℕ → Bool
always_sample id = true

unfoldable pub new_modulo_sampler : ℕ → ℕ → Bool
unfolding always_sample
new_modulo_sampler m = if ltb m 2 then always_sample else λ id. id % m == 0

-- What the code does with a `float64` rate: comparisons with constants, and two conversions to an
-- integer, `uint64(rate * (1 << 63))` and the rounding of `rate * 100`; and its text in an error.
pub record Rate (F : Type 0) : Type 0 where
  pub is_zero : F → Bool
  pub is_one : F → Bool
  pub below_ten_thousandth : F → Bool
  pub below_hundredth : F → Bool
  pub above_one : F → Bool
  pub boundary : F → ℕ
  pub out_of_100 : F → ℕ
  pub text : F → Str

unfoldable pub boundary_sample : ℕ → ℕ → ℕ → Bool
boundary_sample boundary salt id = ltb (bit_xor id salt / 2) boundary

module _ {F : Type 0} (r : Rate F) where
  open r use {is_zero, is_one, below_ten_thousandth, below_hundredth, above_one, text}

  unfoldable pub new_boundary_sampler : F → ℤ → Outcome (ℕ → Bool)
  unfolding never_sample always_sample
  new_boundary_sampler rate salt =
      if is_zero rate
      then ok never_sample
      else if is_one rate
      then ok always_sample
      else if below_ten_thousandth rate || above_one rate
      then err (other (codes "rate should be 0.0 or between 0.0001 and 1: was " ++ text rate))
      else ok (boundary_sample (r.boundary rate) (to_uint64 salt))

-- `s[i]` and `s[i] = v` on a slice.
module _ {ℓ} {A : Type ℓ} where
  unfoldable pub read : List A → ℕ → Outcome A
  read xs i = elim (get_elem? xs i) [ none ↦ panic out_of_range | some a ↦ ok a ]

  unfoldable pub write : List A → ℕ → A → Outcome (List A)
  write xs i a = elim (get_elem? xs i) [ none ↦ panic out_of_range | some _ ↦ ok (set xs i a) ]

-- The first loop of `randomBitSet`.
unfoldable pub fill : ℕ → ℕ → List ℕ → List Bool → Outcome (List ℕ × List Bool)
fill zero i chosen result = ok (chosen, result)
fill (suc rounds) i chosen result = do
  chosen' ← write chosen i i
  result' ← write result i true
  fill rounds (i + 1) chosen' result'

-- `Intn(n)` of the seeded source, which returns a number below `n`.
pub record Random (W : Type 0) : Type 0 where
  pub intn : ℕ → W → ℕ × W
  pub intn_bound : (n : ℕ) (w : W) → 0 < n → (intn n w).0 < n

-- The body of the second loop, where the draw falls on a chosen place.
unfoldable pub replace : ℕ → ℕ → List ℕ → List Bool → Outcome (List ℕ × List Bool)
replace i j chosen result = do
  k ← read chosen j
  result' ← write result k false
  result'' ← write result' i true
  chosen' ← write chosen j i
  ok (chosen', result'')

unfoldable pub reservoir_step : ℕ → ℕ → ℕ → List ℕ → List Bool → Outcome (List ℕ × List Bool)
unfolding replace
reservoir_step cardinality i j chosen result =
    if ltb j cardinality then replace i j chosen result else ok (chosen, result)

module _ {W : Type 0} (rnd : Random W) where
  open rnd use {intn}

  unfoldable pub reservoir : ℕ → ℕ → ℕ → List ℕ → List Bool → W → Outcome (List Bool × W)
  reservoir zero cardinality i chosen result w = ok (result, w)
  reservoir (suc rounds) cardinality i chosen result w = do
    let (j, w') = intn (i + 1) w
    (chosen', result') ← reservoir_step cardinality i j chosen result
    reservoir rounds cardinality (i + 1) chosen' result' w'

  unfoldable pub random_bit_set : ℕ → ℕ → W → Outcome (List Bool × W)
  unfolding fill reservoir
  random_bit_set size cardinality w = do
    (chosen, result) ← fill cardinality 0 (replicate cardinality 0) (replicate size false)
    reservoir (size - cardinality) cardinality cardinality chosen result w

-- The closure of `NewCountingSampler`: one call returns a decision and moves the index.
unfoldable pub counting_sample : List Bool → ℕ → Outcome (Bool × ℕ)
unfolding read
counting_sample decisions i = do
  result ← read decisions i
  ok (result, if i + 1 == 100 then 0 else i + 1)

-- A sampler that `NewCountingSampler` returns: one of the constant ones, or the decisions to go round.
pub data CountingSampler : Type 0 where
  constant : Bool → CountingSampler
  decisions : List Bool → CountingSampler

module _ {F W : Type 0} (r : Rate F) (rnd : Random W) where
  unfoldable pub new_counting_sampler : F → W → Outcome (CountingSampler × W)
  new_counting_sampler rate w =
      if r.is_zero rate
      then ok (constant false, w)
      else if r.is_one rate
      then ok (constant true, w)
      else if r.below_hundredth rate || r.above_one rate
      then err (other (codes "rate should be 0.0 or between 0.01 and 1: was " ++ r.text rate))
      else do (bits, w') ← random_bit_set rnd 100 (r.out_of_100 rate) w; ok (decisions bits, w')
