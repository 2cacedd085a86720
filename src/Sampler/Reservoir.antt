-- ===== src/Sampler/Reservoir.antt =====
-- The loop of `randomBitSet` that replaces chosen places keeps as many bits set.
use zipkin_go.Base.{
  ℕ, zero, suc, ◌+◌, ◌≤◌, ◌<◌, ◌≡◌, refl, ◌∙◌, arith, Bool, true, false, Bool-cases, ==_iff, ◌==◌,
  some, List, [], ◌∷◌, ltb, ltb→lt, if◌then◌else◌, ok, inl, inr, length, get_elem?, set, length-set,
  get_elem?-of_lt, get_elem?-lt, get_elem?-set_self, get_elem?-set_ne,
}
use zipkin_go.Sampler.{read, write, Random, replace, reservoir_step, reservoir}

-- The bits that are set.
abbrev pub count_true : List Bool → ℕ
count_true [] = 0
count_true (b ∷ bs) = (if b then 1 else 0) + count_true bs

pub count_true-set :
    (bs : List Bool) (i : ℕ) (old new : Bool)
    → get_elem? bs i ≡ some old
    → count_true (set bs i new) + (if old then 1 else 0) ≡ count_true bs + (if new then 1 else 0)
count_true-set [] i old new h = cc
count_true-set (b ∷ bs) zero old new h = ground arith
count_true-set (b ∷ bs) (suc i) old new h = ground (arith, count_true-set bs i old new h)

pub at_set {ℓ} :
    {A : Type ℓ} (xs : List A) (i j : ℕ) (v : A)
    → i < length xs
    → get_elem? (set xs i v) j ≡ (if i == j then some v else get_elem? xs j)
at_set xs i j v h = elim (Bool-cases (i == j)) [
  | inl e ↦ rw e (rw (← (==_iff i j).0 e) (get_elem?-set_self xs i v h))
  | inr e ↦ rw e (get_elem?-set_ne xs i j v (λ (q : i ≡ j). ground arith))
]

pub read_lem {ℓ} :
    {A : Type ℓ} (xs : List A) (i : ℕ) (a : A) → get_elem? xs i ≡ some a → read xs i ≡ ok a
unfolding read
read_lem xs i a h = rw (h, read) refl

pub write_lem {ℓ} :
    {A : Type ℓ} (xs : List A) (i : ℕ) (a v : A)
    → get_elem? xs i ≡ some a
    → write xs i v ≡ ok (set xs i v)
unfolding write
write_lem xs i a v h = rw (h, write) refl

-- The chosen places are distinct and below `i`, their bits are set, and no other bit is.
pub record IsReservoir (cardinality i : ℕ) (chosen : List ℕ) (result : List Bool) : Type 0 where
  pub len : length chosen ≡ cardinality
  pub marked : (j k : ℕ) → get_elem? chosen j ≡ some k → (k < i) × (get_elem? result k ≡ some true)
  pub clear : (p : ℕ) → i ≤ p → p < length result → get_elem? result p ≡ some false
  pub distinct :
      (j1 j2 k : ℕ) → get_elem? chosen j1 ≡ some k → get_elem? chosen j2 ≡ some k → j1 ≡ j2
  pub total : count_true result ≡ cardinality

module _ (cardinality i : ℕ) (chosen : List ℕ) (result : List Bool)
    (inv : IsReservoir cardinality i chosen result) (room : i < length result) where
  keep-IsReservoir : IsReservoir cardinality (i + 1) chosen result
  keep-IsReservoir = record {
    len = inv.len;
    marked = λ j k e. let (lt, b) = inv.marked j k e in (omega arith, b);
    clear = λ p h q. inv.clear p (omega arith) q;
    distinct = inv.distinct;
    total = inv.total;
  }

  module _ (j k : ℕ) (at_j : get_elem? chosen j ≡ some k) where
    abbrev chosen' : List ℕ
    chosen' = set chosen j i

    abbrev result' : List Bool
    result' = set (set result k false) i true

    old_lt : k < i
    old_lt = (inv.marked j k at_j).0

    -- A place that stays chosen keeps its bit.
    marked' :
        (j' k' : ℕ)
        → get_elem? chosen' j' ≡ some k'
        → (k' < i + 1) × (get_elem? result' k' ≡ some true)
    marked' j' k' e =
        let below = get_elem?-lt chosen j k at_j in
        ground (
          arith,
          at_set chosen j j' i below,
          at_set (set result k false) i k' true (rw length-set room),
          at_set result k k' false (omega (arith, old_lt)),
          inv.marked j' k',
          inv.distinct j j' k',
          at_j,
        )

    clear' : (p : ℕ) → i + 1 ≤ p → p < length result' → get_elem? result' p ≡ some false
    clear' p h q = ground (
      arith,
      length-set (set result k false) i true,
      length-set result k false,
      at_set (set result k false) i p true (rw length-set room),
      at_set result k p false (omega (arith, old_lt)),
      inv.clear p,
    )

    distinct' :
        (j1 j2 n : ℕ) → get_elem? chosen' j1 ≡ some n → get_elem? chosen' j2 ≡ some n → j1 ≡ j2
    distinct' j1 j2 n e f =
        let below = get_elem?-lt chosen j k at_j in
        ground (
          arith,
          at_set chosen j j1 i below,
          at_set chosen j j2 i below,
          inv.marked j1 n,
          inv.marked j2 n,
          inv.distinct j1 j2 n,
        )

    total' : count_true result' ≡ cardinality
    total' =
        let (lt, bit) = inv.marked j k at_j in
        let still : get_elem? (set result k false) i ≡ some false =
          ground (arith, at_set result k i false (omega arith), inv.clear i (omega arith) room) in
        omega (
          arith,
          count_true-set result k true false bit,
          count_true-set (set result k false) i false true still,
          inv.total,
        )

    replace_lem :
        (replace i j chosen result ≡ ok (chosen', result'))
        × IsReservoir cardinality (i + 1) chosen' result'
        × (length result' ≡ length result)
    unfolding replace
    replace_lem =
        let (lt, bit) = inv.marked j k at_j in
        let (b, at_i) = get_elem?-of_lt (set result k false) i (rw length-set room) in
        (
          rw
              (
                read_lem chosen j k at_j,
                write_lem result k true false bit,
                write_lem (set result k false) i b true at_i,
                write_lem chosen j k i at_j,
              )
              refl,
          record {
            len = length-set chosen j i ∙ inv.len;
            marked = marked';
            clear = clear';
            distinct = distinct';
            total = total';
          },
          length-set (set result k false) i true ∙ length-set result k false,
        )

-- One draw keeps the reservoir.
pub reservoir_step_lem :
    (cardinality i j : ℕ) (chosen : List ℕ) (result : List Bool)
    → IsReservoir cardinality i chosen result
    → i < length result
    → (chosen' : List ℕ) × (result' : List Bool) × (reservoir_step cardinality i j chosen result
        ≡ ok (chosen', result'))
      × IsReservoir cardinality (i + 1) chosen' result'
      × (length result' ≡ length result)
unfolding reservoir_step
reservoir_step_lem cardinality i j chosen result inv room = elim (Bool-cases (ltb j cardinality)) [
  | inl e ↦
      (let (k, at_j) = get_elem?-of_lt chosen j (omega (arith, ltb→lt j cardinality e, inv.len)) in
        let (step, inv', n) = replace_lem cardinality i chosen result inv room j k at_j in
        (_, _, rw e step, inv', n))
  | inr e ↦ (chosen, result, rw e refl, keep-IsReservoir cardinality i chosen result inv room, refl)
]

pub reservoir_lem :
    {W : Type 0} (rnd : Random W) (rounds cardinality i : ℕ) (chosen : List ℕ) (result : List Bool)
    (w : W)
    → IsReservoir cardinality i chosen result
    → i + rounds ≡ length result
    → (bits : List Bool) × (w' : W) × (reservoir rnd rounds cardinality i chosen result w
        ≡ ok (bits, w'))
      × (length bits ≡ length result)
      × (count_true bits ≡ cardinality)
unfolding reservoir
reservoir_lem rnd zero cardinality i chosen result w inv room = (result, w, refl, refl, inv.total)
reservoir_lem rnd (suc rounds) cardinality i chosen result w inv room =
    let (j, w1) = rnd.intn (i + 1) w in
    let (chosen1, result1, e, inv1, n) =
      reservoir_step_lem cardinality i j chosen result inv (omega arith) in
    let (bits, w', f, m, total) =
      reservoir_lem rnd rounds cardinality (i + 1) chosen1 result1 w1 inv1 (omega arith) in
    (bits, w', rw (e, f) refl, m ∙ n, total)
