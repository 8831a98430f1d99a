-- ===== src/Prelude/GoMap.antt =====
-- Go's map as an association list. The order of the list stands for the unspecified order in which
-- `range` visits a map: what is proved holds for each list, so for each order.
use mathlib.Core.Path.{◌≡◌, refl, ap, sym, ◌∙◌}
use mathlib.Core.Bool.{Bool, true, false}
use mathlib.Core.Option.{Option, none, some}
use mathlib.Core.List.{List, [], ◌∷◌}
use native.Mathlib.Omega.{arith}
use newt.Prelude.Tests.{if◌then◌else◌, is_some}
use newt.Prelude.Equality.{Eq, ◌==◌}

abbrev pub GoMap {ℓ} : Type ℓ → Type ℓ → Type ℓ
GoMap K V = List (K × V)

module _ {ℓ} {K V : Type ℓ} ⦃e : Eq K⦄ where
  -- `v, ok := m[k]`
  abbrev pub lookup : K → GoMap K V → Option V
  lookup k [] = none
  lookup k ((j, v) ∷ m) = if j == k then some v else lookup k m

  -- `m[k] = v`
  abbrev pub insert : K → V → GoMap K V → GoMap K V
  insert k v [] = (k, v) ∷ []
  insert k v ((j, w) ∷ m) = if j == k then (k, v) ∷ m else (j, w) ∷ insert k v m

  -- `delete(m, k)`
  abbrev pub delete : K → GoMap K V → GoMap K V
  delete k [] = []
  delete k ((j, w) ∷ m) = let rest = delete k m in if j == k then rest else (j, w) ∷ rest

  pub lookup-insert :
      (k j : K) (v : V) (m : GoMap K V)
      → lookup j (insert k v m) ≡ (if k == j then some v else lookup j m)
  lookup-insert k j v [] = refl
  lookup-insert k j v ((i, w) ∷ m) =
      ground (arith, e.beq_iff k j, e.beq_iff i k, e.beq_iff i j, lookup-insert k j v m)

  pub lookup-delete :
      (k j : K) (m : GoMap K V) → lookup j (delete k m) ≡ (if k == j then none else lookup j m)
  lookup-delete k j [] = ground arith
  lookup-delete k j ((i, w) ∷ m) =
      ground (arith, e.beq_iff k j, e.beq_iff i k, e.beq_iff i j, lookup-delete k j m)

module _ {ℓ} {K V : Type ℓ} where
  -- the keys that `range` visits
  abbrev pub keys : GoMap K V → List K
  keys [] = []
  keys ((k, v) ∷ m) = k ∷ keys m

module _ {ℓ} {A : Type ℓ} ⦃e : Eq A⦄ where
  abbrev pub elem : A → List A → Bool
  elem a [] = false
  elem a (x ∷ xs) = if x == a then true else elem a xs

module _ {ℓ} {K V : Type ℓ} ⦃e : Eq K⦄ where
  pub elem-keys : (k : K) (m : GoMap K V) → elem k (keys m) ≡ is_some (lookup k m)
  elem-keys k [] = refl
  elem-keys k ((j, v) ∷ m) = ground (arith, elem-keys k m)

-- A key that does not stand in the list is not found under any name.
pub lookup-absent {ℓ} :
    {K V : Type ℓ} ⦃e : Eq K⦄ (j k : K) (m : GoMap K V)
    → elem j (keys m) ≡ false
    → (j == k) ≡ true
    → lookup k m ≡ none
lookup-absent ⦃e⦄ j k m h same =
    ap (λ x. lookup x m) (sym ((e.beq_iff j k).0 same)) ∙ ground (arith, elem-keys j m)

-- No key stands twice, as in a Go map.
abbrev pub Distinct {ℓ} : {K V : Type ℓ} ⦃e : Eq K⦄ → GoMap K V → Type 0
Distinct [] = Unit
Distinct ((k, v) ∷ m) = (elem k (keys m) ≡ false) × Distinct m

module _ {ℓ} {K V : Type ℓ} ⦃e : Eq K⦄ where
  pub elem-keys-insert :
      (k j : K) (v : V) (m : GoMap K V)
      → elem j (keys (insert k v m)) ≡ (if k == j then true else elem j (keys m))
  elem-keys-insert k j v m =
      ground (arith, elem-keys j (insert k v m), elem-keys j m, lookup-insert k j v m)

  pub elem-keys-delete :
      (k j : K) (m : GoMap K V)
      → elem j (keys (delete k m)) ≡ (if k == j then false else elem j (keys m))
  elem-keys-delete k j m =
      ground (arith, elem-keys j (delete k m), elem-keys j m, lookup-delete k j m)

  pub insert-Distinct : (k : K) (v : V) (m : GoMap K V) → Distinct m → Distinct (insert k v m)
  insert-Distinct k v [] d = (refl, tt)
  insert-Distinct k v ((j, w) ∷ m) d =
      ground (arith, e.beq_iff j k, elem-keys-insert k j v m, insert-Distinct k v m, e.beq_iff k j)

  pub delete-Distinct : (k : K) (m : GoMap K V) → Distinct m → Distinct (delete k m)
  delete-Distinct k [] d = tt
  delete-Distinct k ((j, w) ∷ m) d =
      ground (arith, elem-keys-delete k j m, delete-Distinct k m, e.beq_iff k j)

pub ruleset map_laws = (lookup-insert, lookup-delete)
