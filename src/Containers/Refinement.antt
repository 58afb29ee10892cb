-- ===== src/Containers/Refinement.antt =====
-- `ConcurrentMap` refines a partial function from keys to values: the order of its entries is forgotten.
use tower_main.Common.{
  ◌≡◌, refl, ap, ◌∙◌, inl, inr, Bool, true, false, if◌then◌else◌, List, [], ◌∷◌, ◌++◌, Option, none,
  some, Eq, ◌==◌, Option-cases, arith,
}
use tower_main.Common.Map.{Map, lookup, lookup-insert, lookup-erase}
use tower_main.Containers.SharedMap.{
  insert_or_assign, erase_key, try_extract, clear, apply, apply_all, apply_some, changed,
  lookup-erase_key, try_extract_lem, lookup-apply, lookup-apply_some,
}

-- The calls that change a map, or take from it.
pub data MapCall (K V : Type 0) : Type 0 where
  inserts : (key : K) (value : V) → MapCall K V
  erases extracts : (key : K) → MapCall K V
  clears : MapCall K V
  applies : (key : K) (function : V → V) → MapCall K V
  applies_all : (function : V → V) → MapCall K V
  applies_some : (filter : V → Bool) (function : V → V) → MapCall K V

-- The map, and the values that `try_extract` has handed out.
pub record MapRun (K V : Type 0) : Type 0 where
  pub entries : Map K V
  pub extracted : List V

pub record View (K V : Type 0) : Type 0 where
  pub value_of : K → Option V
  pub handed_out : List V

abbrev pub change : {V : Type 0} → (V → V) → Option V → Option V
change function none = none
change function (some v) = some (function v)

change-some :
    {V : Type 0} (filter : V → Bool) (function : V → V) (o : Option V)
    → (elim o [ none ↦ none | some v ↦ some (if filter v then function v else v) ])
      ≡ change (λ v. if filter v then function v else v) o
change-some filter function none = refl
change-some filter function (some v) = refl

module _ {K V : Type 0} ⦃e : Eq K⦄ where
  abbrev pub view : MapRun K V → View K V
  view r = record { value_of = λ key. lookup key r.entries; handed_out = r.extracted }

  abbrev pub collect : Bool × V × Map K V → List V → MapRun K V
  collect (true, value, m) extracted = record { entries = m; extracted = extracted ++ value ∷ [] }
  collect (false, value, m) extracted = record { entries = m; extracted = extracted }

  -- `target` is what a call of `try_extract` has in its out parameter.
  unfoldable pub call : V → MapCall K V → MapRun K V → MapRun K V
  unfolding insert_or_assign erase_key try_extract clear apply apply_all apply_some
  call target (inserts key value) r = record r { entries = insert_or_assign key value r.entries }
  call target (erases key) r = record r { entries = erase_key key r.entries }
  call target (extracts key) r = collect (try_extract key target r.entries) r.extracted
  call target clears r = record r { entries = clear r.entries }
  call target (applies key function) r = record r { entries = apply key function r.entries }
  call target (applies_all function) r = record r { entries = apply_all function r.entries }
  call target (applies_some filter function) r = record r {
    entries = apply_some filter function r.entries;
  }

  abbrev pub without : K → (K → Option V) → K → Option V
  without key f j = if key == j then none else f j

  abbrev pub hand_out : K → View K V → Option V → View K V
  hand_out key w none = w
  hand_out key w (some v) = record {
    value_of = without key w.value_of;
    handed_out = w.handed_out ++ v ∷ [];
  }

  -- What each call means.
  abbrev pub spec_call : MapCall K V → View K V → View K V
  spec_call (inserts key value) w = record w {
    value_of = λ j. if key == j then some value else w.value_of j;
  }
  spec_call (erases key) w = record w { value_of = without key w.value_of }
  spec_call (extracts key) w = hand_out key w (w.value_of key)
  spec_call clears w = record w { value_of = λ j. none }
  spec_call (applies key function) w = record w {
    value_of = λ j. if key == j then change function (w.value_of j) else w.value_of j;
  }
  spec_call (applies_all function) w = record w { value_of = λ j. change function (w.value_of j) }
  spec_call (applies_some filter function) w = record w {
    value_of = λ j. change (λ v. if filter v then function v else v) (w.value_of j);
  }

  abbrev pub calls : V → List (MapCall K V) → MapRun K V → MapRun K V
  calls target [] r = r
  calls target (c ∷ cs) r = calls target cs (call target c r)

  abbrev pub spec_calls : List (MapCall K V) → View K V → View K V
  spec_calls [] w = w
  spec_calls (c ∷ cs) w = spec_calls cs (spec_call c w)

  lookup-apply_all :
      (function : V → V) (m : Map K V) (j : K)
      → lookup j (apply_all function m) ≡ change function (lookup j m)
  unfolding lookup apply_all
  lookup-apply_all function [] j = refl
  lookup-apply_all function ((k, v) ∷ m) j = ground (arith, lookup-apply_all function m j)

  changed-change :
      (key j : K) (function : V → V) (m : Map K V)
      → changed key (λ v. some (function v)) m j
        ≡ (if key == j then change function (lookup j m) else lookup j m)
  changed-change key j function m = elim (Option-cases (lookup j m)) [
    | inl missing ↦ rw missing (ground arith)
    | inr (v, found) ↦ rw found (ground arith)
  ]

  -- Two views agree if they agree at each key.
  values :
      (r : MapRun K V) (w : View K V)
      → ((j : K) → lookup j r.entries ≡ w.value_of j)
      → r.extracted ≡ w.handed_out
      → view r ≡ w
  values r w h k = λ i. record { value_of = λ j. h j i; handed_out = k i }

  view-call :
      (target : V) (c : MapCall K V) (r : MapRun K V)
      → view (call target c r) ≡ spec_call c (view r)
  unfolding call insert_or_assign clear lookup
  view-call target (inserts key value) r =
      values _ _ (λ j. lookup-insert key j value r.entries) refl
  view-call target (erases key) r = values _ _ (λ j. lookup-erase_key key j r.entries) refl
  view-call target (extracts key) r = elim (try_extract_lem key target r.entries) [
    | inl (v, found, does, _) ↦
        rw (does, found) (values _ _ (λ j. lookup-erase key j r.entries) refl)
    | inr (missing, does) ↦ rw (does, missing) refl
  ]
  view-call target clears r = refl
  view-call target (applies key function) r =
      values _ _
        (λ j. lookup-apply key j function r.entries ∙ changed-change key j function r.entries) refl
  view-call target (applies_all function) r =
      values _ _ (λ j. lookup-apply_all function r.entries j) refl
  view-call target (applies_some filter function) r =
      values _ _
        (λ j.
          lookup-apply_some filter function r.entries j
          ∙ change-some filter function (lookup j r.entries))
        refl

  -- Whatever the calls and their order: what a lookup finds under each key after them, and what they have handed out, is
  -- what the same calls make of the function from keys to values, which knows no order of the entries.
  pub view-calls :
      (target : V) (cs : List (MapCall K V)) (r : MapRun K V)
      → view (calls target cs r) ≡ spec_calls cs (view r)
  view-calls target [] r = refl
  view-calls target (c ∷ cs) r =
      view-calls target cs (call target c r) ∙ ap (λ w. spec_calls cs w) (view-call target c r)
