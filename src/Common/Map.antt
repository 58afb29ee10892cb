-- ===== src/Common/Map.antt =====
-- `std::unordered_map` as an association list: the order of the list stands for the order in which the
-- container is iterated, which the standard leaves open.
use tower_main.Common.Tests.{Eq, ◌==◌, if◌then◌else◌, ==-cases, beq_refl, ≢→==, Bool-cases}
use mathlib.Core.Path.{◌≡◌, refl}
use mathlib.Core.Logic.{◌⊎◌, inl, inr, ◌≢◌}
use mathlib.Core.Bool.{Bool, true, false}
use mathlib.Core.Option.{Option, none, some}
use mathlib.Core.List.{List, [], ◌∷◌}
use native.Mathlib.Omega.{arith}

abbrev pub Map : Type 0 → Type 0 → Type 0
Map K V = List (K × V)

module _ {K V : Type 0} ⦃e : Eq K⦄ where
  -- `find`, `at` and `contains`.
  unfoldable pub lookup : K → Map K V → Option V
  lookup wanted [] = none
  lookup wanted ((key, value) ∷ rest) = if key == wanted then some value else lookup wanted rest

  unfoldable pub has_key : K → Map K V → Bool
  has_key wanted [] = false
  has_key wanted ((key, value) ∷ rest) = if key == wanted then true else has_key wanted rest

  -- `insert_or_assign`, `m[k] = v`.
  unfoldable pub insert : K → V → Map K V → Map K V
  insert new value [] = (new, value) ∷ []
  insert new value ((key, old) ∷ rest) =
      if key == new then (key, value) ∷ rest else (key, old) ∷ insert new value rest

  unfoldable pub erase : K → Map K V → Map K V
  erase k [] = []
  erase k ((j, v) ∷ m) = if j == k then erase k m else (j, v) ∷ erase k m

  pub lookup-insert :
      (new wanted : K) (value : V) (m : Map K V)
      → lookup wanted (insert new value m) ≡ (if new == wanted then some value else lookup wanted m)
  unfolding lookup insert
  lookup-insert k j v [] = refl
  lookup-insert k j v ((i, w) ∷ m) = elim (==-cases i k) [
    | inl (same, t) ↦ rw (t, same) (ground arith)
    | inr (apart, t) ↦
        rw (t, lookup-insert k j v m)
          (elim (==-cases k j) [ inl (same, u) ↦ rw (u, ← same, t) | inr (_, u) ↦ rw u ])
  ]

  pub lookup-erase :
      (k j : K) (m : Map K V) → lookup j (erase k m) ≡ (if k == j then none else lookup j m)
  unfolding lookup erase
  lookup-erase k j [] = ground arith
  lookup-erase k j ((i, w) ∷ m) = elim (==-cases i k) [
    | inl (same, t) ↦ rw (t, lookup-erase k j m, same) (ground arith)
    | inr (apart, t) ↦
        rw (t, lookup-erase k j m)
          (elim (==-cases k j) [ inl (same, u) ↦ rw (u, ← same, t) | inr (_, u) ↦ rw u ])
  ]

  pub has_key-lookup :
      (k : K) (m : Map K V)
      → ((has_key k m ≡ true) × ((v : V) × (lookup k m ≡ some v)))
        ⊎ ((has_key k m ≡ false) × (lookup k m ≡ none))
  unfolding has_key lookup
  has_key-lookup k [] = inr (refl, refl)
  has_key-lookup k ((j, v) ∷ m) = elim (Bool-cases (j == k)) [
    | inl t ↦ rw t (inl (refl, (v, refl)))
    | inr t ↦ rw t (has_key-lookup k m)
  ]

  pub lookup-insert_self : (k : K) (v : V) (m : Map K V) → lookup k (insert k v m) ≡ some v
  lookup-insert_self k v m = rw (lookup-insert k k v m, beq_refl k)

  pub lookup-insert_ne :
      (k j : K) (v : V) (m : Map K V) → k ≢ j → lookup j (insert k v m) ≡ lookup j m
  lookup-insert_ne k j v m h = rw (lookup-insert k j v m, ≢→== k j h)

  pub lookup-erase_self : (k : K) (m : Map K V) → lookup k (erase k m) ≡ none
  lookup-erase_self k m = rw (lookup-erase k k m, beq_refl k)

  pub lookup-erase_ne : (k j : K) (m : Map K V) → k ≢ j → lookup j (erase k m) ≡ lookup j m
  lookup-erase_ne k j m h = rw (lookup-erase k j m, ≢→== k j h)
