-- ===== src/Containers/SharedMap.antt =====
-- `ConcurrentMap`. A function that `apply` and its like are given changes a value in place; here it returns it.
use tower_main.Common.{
  ◌≡◌, refl, ◌⊎◌, inl, inr, Bool, true, false, not, if◌then◌else◌, [], ◌∷◌, Option, none, some, Eq,
  ◌==◌, Result, or_fail, out_of_range, Option-cases, ==-cases, beq_refl, arith,
}
use tower_main.Common.Map.{
  Map, lookup, has_key, insert, erase, lookup-insert, lookup-erase, has_key-lookup,
  lookup-erase_self,
}

module _ {K V : Type 0} ⦃e : Eq K⦄ where
  unfoldable pub insert_or_assign : K → V → Map K V → Map K V
  insert_or_assign key value m = insert key value m

  unfoldable pub at : K → Map K V → Result V
  at key m = or_fail (lookup key m) out_of_range

  unfoldable pub erase_key : K → Map K V → Map K V
  erase_key key m = if not (has_key key m) then m else erase key m

  -- The result, what `target` holds afterwards, and the map that is left.
  unfoldable pub try_extract : K → V → Map K V → Bool × V × Map K V
  try_extract key target m = elim (lookup key m) [
    | none ↦ (false, target, m)
    | some value ↦ (true, value, erase key m)
  ]

  unfoldable pub clear : Map K V → Map K V
  clear m = []

  unfoldable pub contains : K → Map K V → Bool
  contains key m = has_key key m

  unfoldable pub empty : Map K V → Bool
  empty [] = true
  empty (x ∷ m) = false

  -- `function(_map[key])`.
  unfoldable pub apply : K → (V → V) → Map K V → Map K V
  apply key function m =
      if not (has_key key m)
      then m
      else elim (lookup key m) [ none ↦ m | some value ↦ insert key (function value) m ]

  unfoldable pub apply_all : (V → V) → Map K V → Map K V
  apply_all function [] = []
  apply_all function ((k, value) ∷ m) = (k, function value) ∷ apply_all function m

  unfoldable pub apply_some : (V → Bool) → (V → V) → Map K V → Map K V
  apply_some filter function [] = []
  apply_some filter function ((k, value) ∷ m) =
      (if not (filter value) then (k, value) else (k, function value))
      ∷ apply_some filter function m

  -- What an access by key should leave under each key.
  abbrev pub changed : K → (V → Option V) → Map K V → K → Option V
  changed key f m j = elim (lookup j m) [ none ↦ none | some v ↦ if key == j then f v else some v ]

  -- `erase` removes the entry under its key, if there is one, and no other.
  pub lookup-erase_key :
      (key j : K) (m : Map K V)
      → lookup j (erase_key key m) ≡ (if key == j then none else lookup j m)
  unfolding erase_key
  lookup-erase_key key j m = elim (has_key-lookup key m) [
    | inl (there, _) ↦ rw there (lookup-erase key j m)
    | inr (missing, gone) ↦
        rw missing
          (elim (==-cases key j) [ inl (same, t) ↦ rw (t, ← same) gone | inr (_, t) ↦ rw t ])
  ]

  -- `try_extract` hands out the value under the key and removes it, or says that there is none and changes
  -- neither the map nor its target.
  pub try_extract_lem :
      (key : K) (target : V) (m : Map K V)
      → ((v : V) × (lookup key m ≡ some v)
          × (try_extract key target m ≡ (true, v, erase key m))
          × (lookup key (erase key m) ≡ none))
        ⊎ (lookup key m ≡ none) × (try_extract key target m ≡ (false, target, m))
  unfolding try_extract
  try_extract_lem key target m = elim (Option-cases (lookup key m)) [
    | inl t ↦ inr (t, ground arith)
    | inr (v, t) ↦ inl (v, t, ground arith, lookup-erase_self key m)
  ]

  -- `apply` changes the value under its key, if there is one, and nothing else.
  pub lookup-apply :
      (key j : K) (function : V → V) (m : Map K V)
      → lookup j (apply key function m) ≡ changed key (λ v. some (function v)) m j
  unfolding apply
  lookup-apply key j function m = elim (has_key-lookup key m) [
    | inl (there, (v, found)) ↦
        rw (there, found, lookup-insert key j (function v) m)
          (elim (==-cases key j) [
            | inl (same, t) ↦ rw (t, ← same) (ground (arith, found, beq_refl key))
            | inr (_, t) ↦ rw t (ground (arith, t))
          ])
    | inr (missing, gone) ↦ rw missing (elim (==-cases key j) [
      | inl (same, t) ↦ rw (← same) (ground (arith, gone))
      | inr (_, t) ↦ ground (arith, t)
    ])
  ]

  -- `apply_some` changes exactly the values that pass the filter, each under its key, and adds and removes none.
  pub lookup-apply_some :
      (filter : V → Bool) (function : V → V) (m : Map K V) (j : K)
      → lookup j (apply_some filter function m)
        ≡ elim (lookup j m) [ none ↦ none | some v ↦ some (if filter v then function v else v) ]
  unfolding lookup apply_some
  lookup-apply_some filter function [] j = refl
  lookup-apply_some filter function ((k, v) ∷ m) j =
      ground (arith, lookup-apply_some filter function m j)
