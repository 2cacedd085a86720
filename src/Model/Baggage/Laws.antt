-- ===== src/Model/Baggage/Laws.antt =====
-- What the operations of baggage do to its fields, and that no field is outside the allow list.
use zipkin_go.Base.{
  ◌≡◌, refl, Bool, Bool-cases, inl, inr, true, false, ◌&&◌, some, List, [], ◌∷◌, ◌++◌, arith, Str,
  Dict, insert, lookup-insert, lookup-remove, to_lower, str_eq, str_eq_iff, if◌then◌else◌, ok,
}
use zipkin_go.Model.Baggage.{
  Baggage, values_at, get_field, registered, write_field, add_field, set_field, delete_field,
}

abbrev is_empty : List Str → Bool
is_empty [] = true
is_empty (v ∷ vs) = false

abbrev pub accepts : Baggage → Str → List Str → Bool
accepts b key [] = false
accepts b key (v ∷ vs) = registered b key

-- What a write to one key makes of a field.
abbrev pub written_at : Bool → Str → Str → List Str → List Str → List Str
written_at flag key j new old = if flag && str_eq (to_lower key) (to_lower j) then new else old

values_at-insert :
    (k j : Str) (vs : List Str) (m : Dict (List Str))
    → values_at j (insert k vs m) ≡ (if str_eq k j then vs else values_at j m)
values_at-insert k j vs m = ground (arith, lookup-insert k j vs m)

module _ (b : Baggage) (m : Dict (List Str)) (live : b.fields ≡ some m) where
  write_field_at :
      (key : Str) (values : List Str)
      → (b' : Baggage) × (write_field b (to_lower key) values ≡ ok b')
        × ((j : Str) → get_field b' j ≡ written_at true key j values (get_field b j))
        × (b'.registry ≡ b.registry)
  unfolding write_field get_field
  write_field_at key values = (
    record b { fields = some (insert (to_lower key) values m) },
    rw live refl,
    λ j. rw live (values_at-insert (to_lower key) (to_lower j) values m),
    refl,
  )

  -- `Set` replaces the field of a registered key, and leaves every other field.
  pub get_field-set_field :
      (key : Str) (values : List Str)
      → (b' : Baggage) × (set_field b key values ≡ ok (b', accepts b key values))
        × ((j : Str)
            → get_field b' j ≡ written_at (accepts b key values) key j values (get_field b j))
        × (b'.registry ≡ b.registry)
  unfolding set_field
  get_field-set_field key [] = (b, refl, (λ j. refl), refl)
  get_field-set_field key (v ∷ vs) = elim (Bool-cases (registered b key)) [
    | inl r ↦
        (let (b', e, at, same) = write_field_at key (v ∷ vs) in (b', rw (r, e) refl, rw r at, same))
    | inr r ↦ (b, rw r refl, rw r (λ j. refl), refl)
  ]

  -- On fields that are there, `Add` appends to the field of a registered key, whatever the case of
  -- its letters, and leaves every other field; it returns whether the key is registered and there
  -- are values.
  pub get_field-add_field :
      (key : Str) (values : List Str)
      → (b' : Baggage) × (add_field b key values ≡ ok (b', accepts b key values))
        × ((j : Str)
            → get_field b' j
              ≡ written_at (accepts b key values) key j (get_field b j ++ values) (get_field b j))
        × (b'.registry ≡ b.registry)
  unfolding add_field get_field
  get_field-add_field key [] = (b, refl, (λ j. refl), refl)
  get_field-add_field key (v ∷ vs) = elim (Bool-cases (registered b key)) [
    | inl r ↦
        (let (b', e, at, same) = write_field_at key (get_field b key ++ v ∷ vs) in
          (
            b',
            rw (r, e) refl,
            rw r (λ j. ground (arith, at j, str_eq_iff (to_lower key) (to_lower j))),
            same,
          ))
    | inr r ↦ (b, rw r refl, rw r (λ j. refl), refl)
  ]

  -- On fields that are there, `Delete` empties the field of a registered key, and leaves every
  -- other field.
  pub get_field-delete_field :
      (key j : Str)
      → get_field (delete_field b key).0 j
        ≡ written_at (delete_field b key).1 key j [] (get_field b j)
  unfolding delete_field get_field
  get_field-delete_field key j = ground (arith, live, lookup-remove (to_lower key) (to_lower j) m)
