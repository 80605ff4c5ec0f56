-- ===== src/Base/Maps.antt =====
-- The standard library's maps as association lists. `insert` replaces in place, or adds at the
-- end; `remove` drops every entry of the key, so that no uniqueness has to be carried along.
use Prim.Native.Nat.{ℕ}
use mathlib.Core.Path.{◌≡◌, refl}
use mathlib.Core.Logic.{◌⊎◌, ◌≢◌}
use mathlib.Core.Bool.{Bool, true, false}
use mathlib.Core.List.{List, [], ◌∷◌}
use mathlib.Core.Option.{Option, none, some}
use native.Mathlib.Omega.{arith}
use kdapp.Base.Tests.{◌==◌, if◌then◌else◌}

abbrev pub Map {ℓ} : Type ℓ → Type ℓ
Map V = List (ℕ × V)

module _ {ℓ} {V : Type ℓ} where
  abbrev pub lookup : ℕ → Map V → Option V
  lookup k [] = none
  lookup k ((j, v) ∷ m) = if j == k then some v else lookup k m

  abbrev pub contains_key : ℕ → Map V → Bool
  contains_key k m = elim (lookup k m) [ none ↦ false | some _ ↦ true ]

  abbrev pub insert : ℕ → V → Map V → Map V
  insert k v [] = (k, v) ∷ []
  insert k v ((j, w) ∷ m) = if j == k then (k, v) ∷ m else (j, w) ∷ insert k v m

  abbrev pub remove : ℕ → Map V → Map V
  remove k [] = []
  remove k ((j, v) ∷ m) = let rest = remove k m in if j == k then rest else (j, v) ∷ rest

  pub lookup-insert :
      (k j : ℕ) (v : V) (m : Map V)
      → lookup j (insert k v m) ≡ (if k == j then some v else lookup j m)
  lookup-insert k j v [] = refl
  lookup-insert k j v ((i, w) ∷ m) = ground (arith, lookup-insert k j v m)

  pub lookup-insert_self : (k : ℕ) (v : V) (m : Map V) → lookup k (insert k v m) ≡ some v
  lookup-insert_self k v [] = ground arith
  lookup-insert_self k v ((i, w) ∷ m) = ground (arith, lookup-insert_self k v m)

  pub lookup-remove :
      (k j : ℕ) (m : Map V) → lookup j (remove k m) ≡ (if k == j then none else lookup j m)
  lookup-remove k j [] = ground arith
  lookup-remove k j ((i, w) ∷ m) = ground (arith, lookup-remove k j m)

  pub lookup-remove_self : (k : ℕ) (m : Map V) → lookup k (remove k m) ≡ none
  lookup-remove_self k [] = refl
  lookup-remove_self k ((i, w) ∷ m) = ground (arith, lookup-remove_self k m)

  -- A new entry that is removed again leaves no trace, in the order either.
  pub remove_fresh : (k : ℕ) (m : Map V) → lookup k m ≡ none → remove k m ≡ m
  remove_fresh k [] h = refl
  remove_fresh k ((i, w) ∷ m) h = ground (arith, remove_fresh k m)

  pub remove-insert : (k : ℕ) (v : V) (m : Map V) → lookup k m ≡ none → remove k (insert k v m) ≡ m
  remove-insert k v [] h = ground arith
  remove-insert k v ((i, w) ∷ m) h = ground (arith, remove-insert k v m)

  -- Writing back what was there undoes a write.
  pub insert-insert : (k : ℕ) (v w : V) (m : Map V) → insert k w (insert k v m) ≡ insert k w m
  insert-insert k v w [] = ground arith
  insert-insert k v w ((i, u) ∷ m) = ground (arith, insert-insert k v w m)

  pub insert_same : (k : ℕ) (v : V) (m : Map V) → lookup k m ≡ some v → insert k v m ≡ m
  insert_same k v [] h = cc
  insert_same k v ((i, u) ∷ m) h = ground (arith, insert_same k v m)

  pub lookup-insert_inv :
      (k j : ℕ) (v u : V) (m : Map V)
      → lookup j (insert k v m) ≡ some u
      → (v ≡ u) ⊎ (lookup j m ≡ some u)
  lookup-insert_inv k j v u m h = ground (arith, lookup-insert k j v m)

  pub lookup-remove_inv :
      (k j : ℕ) (u : V) (m : Map V) → lookup j (remove k m) ≡ some u → lookup j m ≡ some u
  lookup-remove_inv k j u m h = ground (arith, lookup-remove k j m)

  pub contains_key-insert :
      (k j : ℕ) (v : V) (m : Map V)
      → contains_key j (insert k v m) ≡ (if k == j then true else contains_key j m)
  contains_key-insert k j v m = ground (arith, lookup-insert k j v m)

  pub contains_key-remove :
      (k j : ℕ) (m : Map V)
      → contains_key j (remove k m) ≡ (if k == j then false else contains_key j m)
  contains_key-remove k j m = ground (arith, lookup-remove k j m)

  pub contains_key-eq_some :
      (k : ℕ) (v : V) (m : Map V) → lookup k m ≡ some v → contains_key k m ≡ true
  contains_key-eq_some k v m h = rw (h, contains_key)

  pub eq_none-contains_key : (k : ℕ) (m : Map V) → contains_key k m ≡ false → lookup k m ≡ none
  eq_none-contains_key k m h = ground arith

  pub remove-insert_any : (k : ℕ) (v : V) (m : Map V) → remove k (insert k v m) ≡ remove k m
  remove-insert_any k v [] = ground arith
  remove-insert_any k v ((i, w) ∷ m) = ground (arith, remove-insert_any k v m)

  pub lookup-insert_ne :
      (k j : ℕ) (v : V) (m : Map V) → k ≢ j → lookup j (insert k v m) ≡ lookup j m
  lookup-insert_ne k j v m h = ground (arith, lookup-insert k j v m)
