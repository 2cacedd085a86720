-- ===== src/Sampler/BitSet.antt =====
-- `randomBitSet` sets exactly as many bits as it is asked for, whatever the source draws.
use zipkin_go.Base.{
  ℕ, zero, suc, ◌+◌, ◌-◌, ◌≤◌, ◌<◌, ◌≡◌, refl, ◌∙◌, arith, Bool, true, false, some, List, ltb, ok,
  length, get_elem?, set, replicate, length-set, length-replicate, get_elem?-of_lt, get_elem?-lt,
}
use zipkin_go.Sampler.{fill, Random, random_bit_set}
use zipkin_go.Sampler.Reservoir.{
  count_true, count_true-set, at_set, write_lem, IsReservoir, reservoir_lem,
}

-- After `i` rounds of the first loop the first `i` places are chosen and set.
record IsFilled (i : ℕ) (chosen : List ℕ) (result : List Bool) : Type 0 where
  places : (j : ℕ) → j < i → get_elem? chosen j ≡ some j
  bits : (p : ℕ) → p < length result → get_elem? result p ≡ some (ltb p i)
  total : count_true result ≡ i

fill_lem :
    (rounds i cardinality : ℕ) (chosen : List ℕ) (result : List Bool)
    → IsFilled i chosen result
    → i + rounds ≡ cardinality
    → length chosen ≡ cardinality
    → cardinality ≤ length result
    → (chosen' : List ℕ) × (result' : List Bool) × (fill rounds i chosen result
        ≡ ok (chosen', result'))
      × IsFilled cardinality chosen' result'
      × (length chosen' ≡ cardinality)
      × (length result' ≡ length result)
unfolding fill
fill_lem zero i cardinality chosen result inv e n m =
    let q : i ≡ cardinality = omega arith in (chosen, result, refl, rw (← q) inv, n, refl)
fill_lem (suc rounds) i cardinality chosen result inv e n m =
    let (a, at_i) = get_elem?-of_lt chosen i (omega arith) in
    let clear : get_elem? result i ≡ some false = ground (arith, inv.bits i (omega arith)) in
    let (chosen', result', f, inv', n', m') =
      fill_lem rounds (i + 1) cardinality (set chosen i i) (set result i true)
        (record {
          places = λ j h. ground (arith, at_set chosen i j i (omega arith), inv.places j);
          bits = λ p h.
              ground
                (arith, length-set result i true, at_set result i p true (omega arith), inv.bits p);
          total = omega (arith, count_true-set result i false true clear, inv.total);
        })
        (omega arith) (length-set chosen i i ∙ n) (rw length-set m) in
    (
      chosen',
      result',
      rw (write_lem chosen i a i at_i, write_lem result i false true clear, f) refl,
      inv',
      n',
      m' ∙ length-set result i true,
    )

filled-IsReservoir :
    (cardinality : ℕ) (chosen : List ℕ) (result : List Bool)
    → IsFilled cardinality chosen result
    → length chosen ≡ cardinality
    → cardinality ≤ length result
    → IsReservoir cardinality cardinality chosen result
filled-IsReservoir cardinality chosen result f n m = record {
  len = n;
  marked = λ j k e. ground (arith, get_elem?-lt chosen j k e, f.places j, f.bits k, n);
  clear = λ p h q. ground (arith, f.bits p q);
  distinct = λ j1 j2 k e1 e2. ground (
    arith,
    get_elem?-lt chosen j1 k e1,
    get_elem?-lt chosen j2 k e2,
    f.places j1,
    f.places j2,
    n,
  );
  total = f.total;
}

get_elem?-replicate : (n p : ℕ) → p < n → get_elem? (replicate n false) p ≡ some false
get_elem?-replicate zero p h = elim h [ ]
get_elem?-replicate (suc n) zero h = refl
get_elem?-replicate (suc n) (suc p) h = get_elem?-replicate n p (omega arith)

count_true-replicate : (n : ℕ) → count_true (replicate n false) ≡ 0
count_true-replicate zero = refl
count_true-replicate (suc n) = omega (arith, count_true-replicate n)

-- `randomBitSet` returns `size` bits of which exactly `cardinality` are set, whatever the source
-- draws, and no index that it uses is out of range, if the bits asked for fit.
pub random_bit_set-count :
    {W : Type 0} (rnd : Random W) (size cardinality : ℕ) (w : W)
    → cardinality ≤ size
    → (bits : List Bool) × (w' : W) × (random_bit_set rnd size cardinality w ≡ ok (bits, w'))
      × (length bits ≡ size)
      × (count_true bits ≡ cardinality)
unfolding random_bit_set
random_bit_set-count rnd size cardinality w h =
    let zeros : List ℕ = replicate cardinality 0 in
    let clear : List Bool = replicate size false in
    let (chosen, result, e, f, n, m) =
      fill_lem cardinality 0 cardinality zeros clear
        (record {
          places = λ j h. absurd (omega arith);
          bits = λ p q. ground (arith, get_elem?-replicate size p, length-replicate size false);
          total = count_true-replicate size;
        })
        (omega arith) (length-replicate cardinality 0)
        (omega (arith, length-replicate size false)) in
    let (bits, w', g, k, total) =
      reservoir_lem rnd (size - cardinality) cardinality cardinality chosen result w
        (filled-IsReservoir cardinality chosen result f n
          (omega (arith, m, length-replicate size false)))
        (omega (arith, m, length-replicate size false)) in
    (bits, w', rw (e, g) refl, omega (arith, k, m, length-replicate size false), total)
