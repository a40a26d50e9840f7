-- ===== src/Common/Map.antt =====
-- Go's `map[string]V` as an association list. The order in which Go walks a map is not defined, so
-- a function that walks one is stated here over the list's own order.
use Prim.Native.Nat.{ℕ, zero, suc, ◌≤◌}
use ai_desktop_assistant.Common.Lists.{length, drop}
use mathlib.Core.Path.{subst}
use ai_desktop_assistant.Common.Tests.{str_eq, str_eq_iff, str_eq_refl, if◌then◌else◌, if_ind}
use Prim.Native.String.{String}
use mathlib.Core.Path.{◌≡◌, refl}
use mathlib.Core.Logic.{◌⊎◌}
use mathlib.Core.Option.{Option, none, some}
use mathlib.Core.List.{List, [], ◌∷◌}
use native.Mathlib.Omega.{arith}

abbrev pub Map {ℓ} : Type ℓ → Type ℓ
Map V = List (String × V)

module _ {ℓ} {V : Type ℓ} where
  unfoldable pub lookup : String → Map V → Option V
  lookup k [] = none
  lookup k ((j, v) ∷ m) = if str_eq j k then some v else lookup k m

  unfoldable pub insert : String → V → Map V → Map V
  insert k v [] = (k, v) ∷ []
  insert k v ((j, w) ∷ m) = if str_eq j k then (k, v) ∷ m else (j, w) ∷ insert k v m

  unfoldable pub delete : String → Map V → Map V
  delete k [] = []
  delete k ((j, w) ∷ m) = if str_eq j k then delete k m else (j, w) ∷ delete k m

  -- A read of a missing key gives the zero value `d`.
  abbrev pub lookup_or : V → String → Map V → V
  lookup_or d k m = elim (lookup k m) [ none ↦ d | some v ↦ v ]

  pub lookup-insert :
      (k j : String) (v : V) (m : Map V)
      → lookup j (insert k v m) ≡ (if str_eq k j then some v else lookup j m)
  unfolding lookup insert
  lookup-insert k j v [] = refl
  lookup-insert k j v ((i, w) ∷ m) =
      ground (arith, str_eq_iff k j, str_eq_iff i k, str_eq_iff i j, lookup-insert k j v m)

  pub lookup-delete :
      (k j : String) (m : Map V) → lookup j (delete k m) ≡ (if str_eq k j then none else lookup j m)
  unfolding lookup delete
  lookup-delete k j [] = ground arith
  lookup-delete k j ((i, w) ∷ m) =
      ground (arith, str_eq_iff k j, str_eq_iff i k, str_eq_iff i j, lookup-delete k j m)

  pub lookup-insert_self : (k : String) (v : V) (m : Map V) → lookup k (insert k v m) ≡ some v
  lookup-insert_self k v m = simp (lookup-insert, str_eq_refl)

  pub lookup-delete_self : (k : String) (m : Map V) → lookup k (delete k m) ≡ none
  lookup-delete_self k m = simp (lookup-delete, str_eq_refl)

  -- What a map holds after an insertion is the new entry or was there before.
  pub lookup-insert_cases :
      (k j : String) (v x : V) (m : Map V)
      → lookup j (insert k v m) ≡ some x
      → (k ≡ j) × (v ≡ x) ⊎ (lookup j m ≡ some x)
  lookup-insert_cases k j v x m h = ground (arith, lookup-insert k j v m, str_eq_iff k j)

  pub length-insert_le : (k : String) (v : V) (m : Map V) → length (insert k v m) ≤ suc (length m)
  unfolding insert
  length-insert_le k v [] = omega arith
  length-insert_le k v ((j, w) ∷ m) = ground (arith, length-insert_le k v m)

module _ {ℓ κ} {V : Type ℓ} (P : V → Type κ) where
  -- A map all of whose values have a property.
  abbrev pub Every : Map V → Type κ
  Every [] = Unit
  Every ((k, v) ∷ m) = P v × Every m

  pub Every-insert : (k : String) (v : V) (m : Map V) → P v → Every m → Every (insert k v m)
  unfolding insert
  Every-insert k v [] p h = (p, tt)
  Every-insert k v ((j, w) ∷ m) p (q, h) =
      if_ind Every (str_eq j k) (λ e. (p, h)) (λ e. (q, Every-insert k v m p h))

  pub Every-delete : (k : String) (m : Map V) → Every m → Every (delete k m)
  unfolding delete
  Every-delete k [] h = tt
  Every-delete k ((j, w) ∷ m) (q, h) =
      if_ind Every (str_eq j k) (λ e. Every-delete k m h) (λ e. (q, Every-delete k m h))

  pub Every-drop : (n : ℕ) (m : Map V) → Every m → Every (drop n m)
  Every-drop zero m h = h
  Every-drop (suc n) [] h = tt
  Every-drop (suc n) ((k, v) ∷ m) (q, h) = Every-drop n m h

  pub Every-lookup_or : (d : V) (k : String) (m : Map V) → P d → Every m → P (lookup_or d k m)
  unfolding lookup
  Every-lookup_or d k [] p h = p
  Every-lookup_or d k ((j, w) ∷ m) p (q, h) =
      if_ind (λ (o : Option V). P (elim o as (λ x. V) [ none ↦ d | some v ↦ v ])) (str_eq j k)
        (λ e. q) (λ e. Every-lookup_or d k m p h)

  pub Every-lookup : (k : String) (m : Map V) (v : V) → Every m → lookup k m ≡ some v → P v
  unfolding lookup
  Every-lookup k [] v h e = ground (arith, e)
  Every-lookup k ((j, w) ∷ m) v (q, h) e =
      if_ind (λ (o : Option V). o ≡ some v → P v) (str_eq j k) (λ b g. subst P (some-inj g) q)
        (λ b g. Every-lookup k m v h g) e
    where
      some-inj : {x y : V} → some x ≡ some y → x ≡ y
      some-inj g = ground (arith, g)
