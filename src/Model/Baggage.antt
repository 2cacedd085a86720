-- ===== src/Model/Baggage.antt =====
-- propagation/baggage/baggage.go: the one implementation of `model.BaggageFields` (model/span.go), and
-- its handler (middleware/baggage.go). `none` for `fields` is the nil map of the handler itself.
pub mod Laws
pub mod AllowList
use zipkin_go.Base.{
  ℕ, Bool, true, false, Option, none, some, List, [], ◌∷◌, ◌++◌, Str, Dict, lookup, insert, remove,
  to_lower, str_eq, is_some, if◌then◌else◌, Outcome, ok, panic, nil_map, ◌>>=◌,
}

pub record Baggage : Type 0 where
  pub registry : Dict (Unit {0})
  pub fields : Option (Dict (List Str))

unfoldable pub register : Dict (Unit {0}) → List Str → Dict (Unit {0})
register r [] = r
register r (key ∷ keys) = register (insert (to_lower key) tt r) keys

-- The package's `New`.
unfoldable pub new_handler : List Str → Baggage
unfolding register
new_handler keys = record { registry = register [] keys; fields = none }

-- The method `New`, which the server middlewares call.
unfoldable pub new_fields : Baggage → Baggage
new_fields b = record { registry = b.registry; fields = some [] }

-- m[k] on a map of slices: a missing key reads as the empty slice.
abbrev pub values_at : Str → Dict (List Str) → List Str
values_at k m = elim (lookup k m) [ none ↦ [] | some vs ↦ vs ]

-- Reading a nil map finds nothing.
abbrev pub field_map : Baggage → Dict (List Str)
field_map b = elim b.fields [ none ↦ [] | some m ↦ m ]

unfoldable pub get_field : Baggage → Str → List Str
get_field b key = values_at (to_lower key) (field_map b)

abbrev pub registered : Baggage → Str → Bool
registered b key = is_some (lookup (to_lower key) b.registry)

-- Writing to a nil map panics.
unfoldable pub write_field : Baggage → Str → List Str → Outcome Baggage
write_field b key values = elim b.fields [
  | none ↦ panic nil_map
  | some m ↦ ok (record b { fields = some (insert key values m) })
]

unfoldable pub add_field : Baggage → Str → List Str → Outcome (Baggage × Bool)
unfolding write_field
add_field b key [] = ok (b, false)
add_field b key (v ∷ vs) =
    if registered b key
    then (do
      b' ← write_field b (to_lower key) (values_at (to_lower key) (field_map b) ++ v ∷ vs)
      ok (b', true))
    else ok (b, false)

unfoldable pub set_field : Baggage → Str → List Str → Outcome (Baggage × Bool)
unfolding write_field
set_field b key [] = ok (b, false)
set_field b key (v ∷ vs) =
    if registered b key
    then (do b' ← write_field b (to_lower key) (v ∷ vs); ok (b', true))
    else ok (b, false)

-- The range loop deletes the one key that equals `key`; over a nil map it does nothing.
unfoldable pub delete_field : Baggage → Str → Baggage × Bool
delete_field b key =
    if registered b key
    then (
      elim b.fields [ none ↦ b | some m ↦ record b { fields = some (remove (to_lower key) m) } ],
      true,
    )
    else (b, false)

-- `Iterate` calls its function on each field, in some order, with a copy of the values.
unfoldable pub fold_fields {ℓ} : {S : Type ℓ} → (Str → List Str → S → S) → Dict (List Str) → S → S
fold_fields f [] s = s
fold_fields f ((k, vs) ∷ m) s = fold_fields f m (f k vs s)

unfoldable pub iterate_fields {ℓ} : {S : Type ℓ} → (Str → List Str → S → S) → Baggage → S → S
unfolding fold_fields
iterate_fields f b s = fold_fields f (field_map b) s

-- `IterateKeys` calls its function on each registered key.
unfoldable pub fold_keys {ℓ} : {S : Type ℓ} → (Str → S → S) → Dict (Unit {0}) → S → S
fold_keys f [] s = s
fold_keys f ((k, _) ∷ m) s = fold_keys f m (f k s)

unfoldable pub iterate_keys {ℓ} : {S : Type ℓ} → (Str → S → S) → Baggage → S → S
unfolding fold_keys
iterate_keys f b s = fold_keys f b.registry s
