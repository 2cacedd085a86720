-- ===== src/Sampler/Counting.antt =====
-- A counting sampler samples as many of any hundred calls as it has decisions set.
use zipkin_go.Base.{
  ℕ, zero, suc, ◌+◌, ◌-◌, ◌≤◌, ◌<◌, ◌≡◌, refl, ap, ◌∙◌, arith, Bool, false, ◌==◌, some, List, [],
  ◌∷◌, ◌++◌, if◌then◌else◌, Outcome, ok, bind-eq-ok, ◌>>=◌, length, get_elem?, get_elem?-of_lt,
  take, drop, take-append-drop,
}
use zipkin_go.Sampler.{Rate, Random, decisions, counting_sample, new_counting_sampler}
use zipkin_go.Sampler.Reservoir.{count_true, read_lem}
use zipkin_go.Sampler.BitSet.{random_bit_set-count}

drop_all : (n : ℕ) (ds : List Bool) → length ds ≤ n → drop n ds ≡ []
drop_all zero [] h = refl
drop_all zero (x ∷ ds) h = elim h [ ]
drop_all (suc n) [] h = refl
drop_all (suc n) (x ∷ ds) h = drop_all n ds (omega arith)

-- The results of so many calls in a row, and the index behind them.
unfoldable pub samples : ℕ → List Bool → ℕ → Outcome (List Bool × ℕ)
samples zero ds i = ok ([], i)
samples (suc n) ds i = do
  (r, i1) ← counting_sample ds i
  (rs, i2) ← samples n ds i1
  ok (r ∷ rs, i2)

drop-get_elem? :
    (ds : List Bool) (i : ℕ) (d : Bool) → get_elem? ds i ≡ some d → drop i ds ≡ d ∷ drop (suc i) ds
drop-get_elem? [] i d h = cc
drop-get_elem? (x ∷ ds) zero d h = cc
drop-get_elem? (x ∷ ds) (suc i) d h = drop-get_elem? ds i d h

module _ (ds : List Bool) (full : length ds ≡ 100) where
  one_sample :
      (i : ℕ)
      → i < 100
      → (d : Bool) × (drop i ds ≡ d ∷ drop (suc i) ds)
        × (counting_sample ds i ≡ ok (d, (if i + 1 == 100 then 0 else i + 1)))
  unfolding counting_sample
  one_sample i h =
      let (d, at_i) = get_elem?-of_lt ds i (omega arith) in
      (d, drop-get_elem? ds i d at_i, rw (read_lem ds i d at_i) refl)

  -- Short of the end the index moves on.
  samples_inside : (n i : ℕ) → i + n < 100 → samples n ds i ≡ ok (take n (drop i ds), i + n)
  unfolding samples
  samples_inside zero i h = ap (λ (k : ℕ). ok ([], k)) (omega arith)
  samples_inside (suc n) i h =
      let (d, split, step) = one_sample i (omega arith) in
      let next : (if i + 1 == 100 then 0 else i + 1) ≡ suc i = ground arith in
      let last : suc i + n ≡ i + suc n = omega arith in
      rw (step, next, samples_inside n (suc i) (omega arith), split, last) refl

  -- At the end it starts again.
  samples_to_end : (n i : ℕ) → i + suc n ≡ 100 → samples (suc n) ds i ≡ ok (drop i ds, 0)
  unfolding samples
  samples_to_end zero i h =
      let (d, split, step) = one_sample i (omega arith) in
      let next : (if i + 1 == 100 then 0 else i + 1) ≡ 0 = ground arith in
      rw (step, next, split, drop_all (suc i) ds (omega arith)) refl
  samples_to_end (suc n) i h =
      let (d, split, step) = one_sample i (omega arith) in
      let next : (if i + 1 == 100 then 0 else i + 1) ≡ suc i = ground arith in
      rw (step, next, samples_to_end n (suc i) (omega arith), split) refl

samples-add :
    (m n : ℕ) (ds : List Bool) (i i1 i2 : ℕ) (rs qs : List Bool)
    → samples m ds i ≡ ok (rs, i1)
    → samples n ds i1 ≡ ok (qs, i2)
    → samples (m + n) ds i ≡ ok (rs ++ qs, i2)
unfolding samples
samples-add zero n ds i i1 i2 rs qs e f =
    let none_left : 0 + n ≡ n = omega arith in
    let p : i1 ≡ i = ground arith in let q : rs ≡ [] = ground arith in rw (none_left, q) (rw p at f)
samples-add (suc m) n ds i i1 i2 rs qs e f =
    let next : suc m + n ≡ suc (m + n) = omega arith in
    let ((r, i'), step, e') = bind-eq-ok (counting_sample ds i) _ e in
    let ((rs', i''), rest, e'') = bind-eq-ok (samples m ds i') _ e' in
    let p : i1 ≡ i'' = ground arith in
    let q : rs ≡ r ∷ rs' = ground arith in
    rw (next, step, samples-add m n ds i' i'' i2 rs' qs rest (rw p at f), q) refl

count_true-append : (xs ys : List Bool) → count_true (xs ++ ys) ≡ count_true xs + count_true ys
count_true-append [] ys = omega arith
count_true-append (x ∷ xs) ys = omega (arith, count_true-append xs ys)

-- Any hundred calls in a row on a sampler of a hundred decisions, from whatever index it is at,
-- leave it at that index, and as many of them are sampled as decisions are set.
pub samples_hundred :
    (ds : List Bool) (i : ℕ)
    → length ds ≡ 100
    → i < 100
    → (rs : List Bool) × (samples 100 ds i ≡ ok (rs, i)) × (count_true rs ≡ count_true ds)
samples_hundred ds i full h =
    let n : ℕ = 99 - i in
    let whole : suc n + i ≡ 100 = omega arith in
    let back : 0 + i ≡ i = omega arith in
    let tail = samples_to_end ds full n i (omega arith) in
    let head = rw back at (samples_inside ds full i 0 (omega arith)) in
    (
      drop i ds ++ take i ds,
      rw (← whole) (samples-add (suc n) i ds i 0 i (drop i ds) (take i ds) tail head),
      omega (
        arith,
        count_true-append (drop i ds) (take i ds),
        count_true-append (take i ds) (drop i ds),
        ap count_true (take-append-drop i ds),
      ),
    )

-- `NewCountingSampler` returns for a rate between its bounds whose rounding is at most a hundred
-- hundredths, and of any hundred calls in a row on the sampler, from any index, as many are sampled
-- as the rate is in hundredths.
pub new_counting_sampler-rate :
    {F W : Type 0} (r : Rate F) (rnd : Random W) (rate : F) (w : W) (i : ℕ)
    → r.is_zero rate ≡ false
    → r.is_one rate ≡ false
    → r.below_hundredth rate ≡ false
    → r.above_one rate ≡ false
    → r.out_of_100 rate ≤ 100
    → i < 100
    → (ds rs : List Bool) × (w' : W) × (new_counting_sampler r rnd rate w ≡ ok (decisions ds, w'))
      × (samples 100 ds i ≡ ok (rs, i))
      × (count_true rs ≡ r.out_of_100 rate)
unfolding new_counting_sampler
new_counting_sampler-rate r rnd rate w i zero_rate one_rate low high fits h =
    let (ds, w', made, full, total) = random_bit_set-count rnd 100 (r.out_of_100 rate) w fits in
    let (rs, run, same) = samples_hundred ds i full h in
    (ds, rs, w', rw (zero_rate, one_rate, low, high, made) refl, run, same ∙ total)
