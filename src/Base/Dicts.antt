-- ===== src/Base/Dicts.antt =====
-- Go maps with string keys, as association lists. A range loop over a map visits its entries in an
-- order that Go leaves open: a fold over the list stands for one such order, and theorems range over
-- all lists.
use mathlib.Core.Path.{◌≡◌, refl, sym, ap, ◌∙◌}
use mathlib.Core.List.{List, [], ◌∷◌, ◌++◌, append_assoc, append-nil}
use mathlib.Core.Option.{Option, none, some}
use native.Mathlib.Omega.{arith}
use zipkin_go.Base.Tests.{if◌then◌else◌}
use zipkin_go.Base.Strings.{Str, str_eq, str_eq_iff, str_eq_refl}

abbrev pub Dict {ℓ} : Type ℓ → Type ℓ
Dict V = List (Str × V)

module _ {ℓ} {V : Type ℓ} where
  unfoldable pub lookup : Str → Dict V → Option V
  lookup k [] = none
  lookup k ((j, v) ∷ m) = if str_eq j k then some v else lookup k m

  -- m[k] = v
  unfoldable pub insert : Str → V → Dict V → Dict V
  insert k v [] = (k, v) ∷ []
  insert k v ((j, w) ∷ m) = if str_eq j k then (k, v) ∷ m else (j, w) ∷ insert k v m

  -- delete(m, k)
  unfoldable pub remove : Str → Dict V → Dict V
  remove k [] = []
  remove k ((j, w) ∷ m) = let rest = remove k m in if str_eq j k then rest else (j, w) ∷ rest

  pub lookup-insert :
      (k j : Str) (v : V) (m : Dict V)
      → lookup j (insert k v m) ≡ (if str_eq k j then some v else lookup j m)
  unfolding lookup insert
  lookup-insert k j v [] = refl
  lookup-insert k j v ((i, w) ∷ m) =
      ground (arith, str_eq_iff k j, str_eq_iff i k, str_eq_iff i j, lookup-insert k j v m)

  pub lookup-remove :
      (k j : Str) (m : Dict V) → lookup j (remove k m) ≡ (if str_eq k j then none else lookup j m)
  unfolding lookup remove
  lookup-remove k j [] = ground arith
  lookup-remove k j ((i, w) ∷ m) =
      ground (arith, lookup-remove k j m, str_eq_iff i k, str_eq_iff i j, str_eq_iff k j)

  pub lookup-insert_self : (k : Str) (v : V) (m : Dict V) → lookup k (insert k v m) ≡ some v
  lookup-insert_self k v m = simp (lookup-insert, str_eq_refl)

  -- m[k] = v for each entry of another map.
  abbrev pub insert_all : Dict V → Dict V → Dict V
  insert_all [] m = m
  insert_all ((k, v) ∷ entries) m = insert_all entries (insert k v m)

  -- Each key stands once, as in a Go map.
  abbrev pub IsMap : Dict V → Type ℓ
  IsMap [] = Unit
  IsMap ((k, v) ∷ m) = (lookup k m ≡ none) × IsMap m

  abbrev AreNew : Dict V → Dict V → Type ℓ
  AreNew [] acc = Unit
  AreNew ((k, v) ∷ m) acc = (lookup k acc ≡ none) × AreNew m acc

  insert-new : (k : Str) (v : V) (m : Dict V) → lookup k m ≡ none → insert k v m ≡ m ++ (k, v) ∷ []
  unfolding insert lookup
  insert-new k v [] h = refl
  insert-new k v ((j, w) ∷ m) h = ground (arith, insert-new k v m)

  AreNew-insert :
      (k : Str) (v : V) (m acc : Dict V)
      → lookup k m ≡ none
      → AreNew m acc
      → AreNew m (insert k v acc)
  unfolding lookup
  AreNew-insert k v [] acc h new = tt
  AreNew-insert k v ((j, w) ∷ m) acc h new =
      ground
        (arith, lookup-insert k j v acc, str_eq_iff k j, str_eq_iff j k, AreNew-insert k v m acc)

  insert_all-append : (m acc : Dict V) → IsMap m → AreNew m acc → insert_all m acc ≡ acc ++ m
  insert_all-append [] acc once new = sym (append-nil acc)
  insert_all-append ((k, v) ∷ m) acc once new =
      insert_all-append m (insert k v acc) once.1 (AreNew-insert k v m acc once.0 new.1)
      ∙ ap (λ a. a ++ m) (insert-new k v acc new.0)
      ∙ append_assoc acc ((k, v) ∷ []) m

  AreNew-nil : (m : Dict V) → AreNew m []
  unfolding lookup
  AreNew-nil [] = tt
  AreNew-nil ((k, v) ∷ m) = (refl, AreNew-nil m)

  -- A map is copied into an empty one.
  pub insert_all-nil : (m : Dict V) → IsMap m → insert_all m [] ≡ m
  insert_all-nil m once = insert_all-append m [] once (AreNew-nil m)

pub ruleset dict_laws = (lookup-insert, lookup-remove, str_eq_refl)
