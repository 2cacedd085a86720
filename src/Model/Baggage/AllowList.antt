-- ===== src/Model/Baggage/AllowList.antt =====
-- The allow list as an invariant of every sequence of calls on fresh fields.
use zipkin_go.Base.{
  ◌≡◌, refl, Bool, true, false, some, List, [], ◌∷◌, arith, Str, Dict, lookup, insert, remove,
  lookup-insert, lookup-remove, to_lower, str_eq_iff, is_some, Outcome, ok, ◌>>=◌, Bool-cases,
  Option-cases, inl, inr, ◌∙◌,
}
use zipkin_go.Model.Baggage.{
  Baggage, new_fields, field_map, registered, write_field, add_field, set_field, delete_field,
}

pub data Operation : Type 0 where
  add_op set_op : Str → List Str → Operation
  delete_op : Str → Operation

unfoldable pub run_op : Operation → Baggage → Outcome (Baggage × Bool)
run_op (add_op key vs) b = add_field b key vs
run_op (set_op key vs) b = set_field b key vs
run_op (delete_op key) b = ok (delete_field b key)

-- The calls of a program, whatever it does with their results.
unfoldable pub run_ops : List Operation → Baggage → Outcome Baggage
run_ops [] b = ok b
run_ops (op ∷ ops) b = do (b', _) ← run_op op b; run_ops ops b'

-- The map of fields is there, and holds registered keys only.
pub record IsAllowed (b : Baggage) : Type 0 where
  pub live : is_some b.fields ≡ true
  pub allowed :
      (k : Str) → is_some (lookup k (field_map b)) ≡ true → is_some (lookup k b.registry) ≡ true

new_fields-IsAllowed : (b : Baggage) → IsAllowed (new_fields b)
unfolding new_fields lookup
new_fields-IsAllowed b = record { live = refl; allowed = λ k h. ground arith }

insert-allowed :
    (key k : Str) (vs : List Str) (b : Baggage) (m : Dict (List Str))
    → IsAllowed b
    → b.fields ≡ some m
    → registered b key ≡ true
    → is_some (lookup k (insert (to_lower key) vs m)) ≡ true
    → is_some (lookup k b.registry) ≡ true
insert-allowed key k vs b m v live r h =
    ground (arith, lookup-insert (to_lower key) k vs m, str_eq_iff (to_lower key) k, v.allowed k)

remove-allowed :
    (key k : Str) (b : Baggage) (m : Dict (List Str))
    → IsAllowed b
    → b.fields ≡ some m
    → is_some (lookup k (remove (to_lower key) m)) ≡ true
    → is_some (lookup k b.registry) ≡ true
remove-allowed key k b m v live h = ground (arith, lookup-remove (to_lower key) k m, v.allowed k)

-- What a call leaves behind.
abbrev Keeps : Baggage → Outcome (Baggage × Bool) → Type 0
Keeps b r =
    (b' : Baggage) × (flag : Bool) × (r ≡ ok (b', flag)) × IsAllowed b' × (b'.registry ≡ b.registry)

write_field-Keeps :
    (b : Baggage) (key : Str) (vs : List Str)
    → IsAllowed b
    → registered b key ≡ true
    → Keeps b (do b' ← write_field b (to_lower key) vs; ok (b', true))
unfolding write_field
write_field-Keeps b key vs v r = elim (Option-cases b.fields) [
  | inl e ↦ cc (v.live)
  | inr (m, e) ↦ (
    record b { fields = some (insert (to_lower key) vs m) },
    true,
    rw e refl,
    record { live = refl; allowed = λ k h. insert-allowed key k vs b m v e r h },
    refl,
  )
]

run_op-Keeps : (op : Operation) (b : Baggage) → IsAllowed b → Keeps b (run_op op b)
unfolding run_op add_field set_field delete_field
run_op-Keeps (add_op key []) b v = (b, false, refl, v, refl)
run_op-Keeps (add_op key (x ∷ vs)) b v = elim (Bool-cases (registered b key)) [
  | inl r ↦ rw r (write_field-Keeps b key _ v r)
  | inr r ↦ (b, false, rw r refl, v, refl)
]
run_op-Keeps (set_op key []) b v = (b, false, refl, v, refl)
run_op-Keeps (set_op key (x ∷ vs)) b v = elim (Bool-cases (registered b key)) [
  | inl r ↦ rw r (write_field-Keeps b key _ v r)
  | inr r ↦ (b, false, rw r refl, v, refl)
]
run_op-Keeps (delete_op key) b v = elim (Bool-cases (registered b key)) [
  | inl r ↦ elim (Option-cases b.fields) [
    | inl e ↦ cc (v.live)
    | inr (m, e) ↦ (
      record b { fields = some (remove (to_lower key) m) },
      true,
      rw (r, e) refl,
      record { live = refl; allowed = λ k h. remove-allowed key k b m v e h },
      refl,
    )
  ]
  | inr r ↦ (b, false, rw r refl, v, refl)
]

run_ops-IsAllowed :
    (ops : List Operation) (b : Baggage)
    → IsAllowed b
    → (b' : Baggage) × (run_ops ops b ≡ ok b') × IsAllowed b' × (b'.registry ≡ b.registry)
unfolding run_ops
run_ops-IsAllowed [] b v = (b, refl, v, refl)
run_ops-IsAllowed (op ∷ ops) b v =
    let (b1, flag, e, v1, s1) = run_op-Keeps op b v in
    let (b2, f, v2, s2) = run_ops-IsAllowed ops b1 v1 in (b2, rw e f, v2, s2 ∙ s1)

-- On fresh fields no sequence of `Add`, `Set` and `Delete` panics, and after it every field is one of
-- the handler's registry, which none of them changes.
pub run_ops-new_fields :
    (ops : List Operation) (b : Baggage)
    → (b' : Baggage) × (run_ops ops (new_fields b) ≡ ok b')
      × IsAllowed b'
      × (b'.registry ≡ b.registry)
unfolding new_fields
run_ops-new_fields ops b = run_ops-IsAllowed ops (new_fields b) (new_fields-IsAllowed b)
