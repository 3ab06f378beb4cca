-- ===== src/Prelude/Maps.antt =====
-- Go's maps as association lists. The order of the list is the order in which `range` visits it.
use mathlib.Core.Path.{◌≡◌, refl, ap, ◌∙◌}
use mathlib.Core.Logic.{◌≢◌, ◌⊎◌, inl, inr}
use mathlib.Core.List.{List, [], ◌∷◌}
use mathlib.Core.Option.{Option, none, some}
use native.Mathlib.Omega.{arith}
use catshadow.Prelude.Tests.{if◌then◌else◌, Bool-cases}
use catshadow.Prelude.Eq.{Comparable, ◌==◌, ==_iff}

abbrev pub Map {ℓ κ} : Type ℓ → Type κ → Type (ℓ ⊔ κ)
Map K V = List (K × V)

module _ {ℓ κ} {K : Type ℓ} {V : Type κ} ⦃c : Comparable K⦄ where
  -- `m[k]`, with the `ok` of the two-valued form as the option.
  unfoldable pub lookup : K → Map K V → Option V
  lookup k [] = none
  lookup k ((j, v) ∷ m) = if j == k then some v else lookup k m

  -- `delete(m, k)`
  unfoldable pub erase : K → Map K V → Map K V
  erase k [] = []
  erase k ((j, w) ∷ m) = if j == k then erase k m else (j, w) ∷ erase k m

  -- `m[k] = v`
  unfoldable pub insert : K → V → Map K V → Map K V
  insert k v [] = (k, v) ∷ []
  insert k v ((j, w) ∷ m) = if j == k then (j, v) ∷ m else (j, w) ∷ insert k v m

  pub lookup-insert :
      (k other : K) (new : V) (m : Map K V)
      → lookup other (insert k new m) ≡ (if k == other then some new else lookup other m)
  unfolding lookup insert
  lookup-insert k other new [] = refl
  lookup-insert k other new ((i, old) ∷ m) =
      let below = lookup-insert k other new m in
      ground (arith, below, ==_iff i other, ==_iff i k, ==_iff k other)

  pub lookup-erase :
      (k j : K) (m : Map K V) → lookup j (erase k m) ≡ (if k == j then none else lookup j m)
  unfolding lookup erase
  lookup-erase k j [] = ground arith
  lookup-erase k j ((i, w) ∷ m) =
      ground (arith, ==_iff k j, ==_iff i k, ==_iff i j, lookup-erase k j m)

  pub lookup-insert_self : (k : K) (v : V) (m : Map K V) → lookup k (insert k v m) ≡ some v
  lookup-insert_self k v m = ground (arith, lookup-insert k k v m, ==_iff k k)

  pub lookup-insert_ne :
      (k j : K) (v : V) (m : Map K V) → k ≢ j → lookup j (insert k v m) ≡ lookup j m
  lookup-insert_ne k j v m h = ground (arith, lookup-insert k j v m, ==_iff k j)

  -- What stands in a map after an insertion was put there, or was there before.
  pub lookup-insert_inv :
      (k j : K) (v w : V) (m : Map K V)
      → lookup j (insert k v m) ≡ some w
      → ((k ≡ j) × (v ≡ w)) ⊎ (lookup j m ≡ some w)
  lookup-insert_inv k j v w m h = elim (Bool-cases (k == j)) [
    | inl e ↦ inl ((==_iff k j).0 e, ground (arith, h, e, lookup-insert k j v m))
    | inr e ↦ inr (ground (arith, h, e, lookup-insert k j v m))
  ]

  -- An entry for a new key leaves the other entries.
  pub lookup-insert_new :
      (k j : K) (v w : V) (m : Map K V)
      → lookup k m ≡ none
      → lookup j m ≡ some w
      → lookup j (insert k v m) ≡ some w
  lookup-insert_new k j v w m new h =
      lookup-insert_ne k j v m (λ e. ground (arith, new, h, ap (λ (x : K). lookup x m) e)) ∙ h

  -- What stands in a map after an entry was deleted was there before.
  pub lookup-erase_inv :
      (k j : K) (w : V) (m : Map K V)
      → lookup j (erase k m) ≡ some w
      → (k ≢ j) × (lookup j m ≡ some w)
  lookup-erase_inv k j w m h = elim (Bool-cases (k == j)) [
    | inl e ↦ absurd (ground (arith, h, e, lookup-erase k j m))
    | inr e ↦
        (λ same. ground (arith, e, (==_iff k j).1 same), ground (arith, h, e, lookup-erase k j m))
  ]

  pub lookup-erase_self : (k : K) (m : Map K V) → lookup k (erase k m) ≡ none
  lookup-erase_self k m = ground (arith, lookup-erase k k m, ==_iff k k)

  pub lookup-erase_ne : (k j : K) (m : Map K V) → k ≢ j → lookup j (erase k m) ≡ lookup j m
  lookup-erase_ne k j m h = ground (arith, lookup-erase k j m, ==_iff k j)

  -- No key is listed twice.
  abbrev pub Distinct : Map K V → Type κ
  Distinct [] = Unit
  Distinct ((k, v) ∷ m) = (lookup k m ≡ none) × Distinct m

  pub insert-Distinct : (k : K) (v : V) (m : Map K V) → Distinct m → Distinct (insert k v m)
  unfolding insert lookup
  insert-Distinct k v [] d = (refl, tt)
  insert-Distinct k v ((j, w) ∷ m) d =
      ground (arith, ==_iff j k, ==_iff k j, insert-Distinct k v m d.1, lookup-insert k j v m)

  pub erase-Distinct : (k : K) (m : Map K V) → Distinct m → Distinct (erase k m)
  unfolding erase
  erase-Distinct k [] d = tt
  erase-Distinct k ((j, w) ∷ m) d =
      ground (arith, ==_iff j k, ==_iff k j, erase-Distinct k m d.1, lookup-erase k j m)
