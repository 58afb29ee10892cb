-- ===== src/Pathfinder/Frontier.antt =====
-- The open nodes of the A* search, a `std::priority_queue` that compares `f`. Which of several least nodes is
-- on top is the library's choice, so the search takes the queue as a parameter.
use tower_main.Common.{
  ℕ, suc, ◌≤◌, ◌≡◌, refl, ap, ◌↔◌, ◌⊎◌, inl, inr, leb, if◌then◌else◌, List, [], ◌∷◌, ◌∈◌, length,
  Option, none, some, arith, Bool-cases, leb→le, leb→lt,
}
use tower_main.Grid.{Point}

pub record Node : Type 0 where
  pub f : ℕ
  pub p : Point

-- `Takes n rest ns`: `ns` with one occurrence of `n` taken out is `rest`.
pub data Takes (n : Node) : List Node → List Node → Type 0 where
  here : (ns : List Node) → Takes n ns (n ∷ ns)
  there : (m : Node) {rest ns : List Node} → Takes n rest ns → Takes n (m ∷ rest) (m ∷ ns)

-- `take_top` is `top` followed by `pop`.
pub record MinQueue : Type 0 where
  pub take_top : List Node → Option (Node × List Node)
  pub take_top-nil : take_top [] ≡ none
  pub take_top-cons :
      (n : Node) (ns : List Node)
      → (top : Node) × (rest : List Node) × (take_top (n ∷ ns) ≡ some (top, rest))
        × Takes top rest (n ∷ ns)
        × ((m : Node) → m ∈ n ∷ ns → top.f ≤ m.f)

pub Takes-length :
    {n : Node} {rest ns : List Node} → Takes n rest ns → length ns ≡ suc (length rest)
Takes-length (here ns) = refl
Takes-length (there m t) = ap suc (Takes-length t)

pub Takes-mem :
    {n : Node} {rest ns : List Node}
    → Takes n rest ns
    → (m : Node) → (m ∈ ns) ↔ ((m ≡ n) ⊎ (m ∈ rest))
Takes-mem (here ns) m = (λ h. h, λ h. h)
Takes-mem (there k t) m =
    (λ h. ground (arith, (Takes-mem t m).0), λ h. ground (arith, (Takes-mem t m).1))

-- A queue that takes the first of the least nodes.
unfoldable pub take_least : Node → List Node → Node × List Node
take_least n [] = (n, [])
take_least n (m ∷ ns) =
    let (top, rest) = take_least m ns in if leb n.f top.f then (n, m ∷ ns) else (top, n ∷ rest)

abbrev TakesLeast : Node → List Node → Node × List Node → Type 0
TakesLeast n ns (top, rest) = Takes top rest (n ∷ ns) × ((m : Node) → m ∈ n ∷ ns → top.f ≤ m.f)

take_least-TakesLeast : (n : Node) (ns : List Node) → TakesLeast n ns (take_least n ns)
unfolding take_least
take_least-TakesLeast n [] = (here [], λ m h. ground arith)
take_least-TakesLeast n (m ∷ ns) =
    let (takes, least) = take_least-TakesLeast m ns in
    elim (Bool-cases (leb n.f (take_least m ns).0.f)) [
      | inl e ↦ rw e (
        here (m ∷ ns),
        λ k. elim [
          | inl same ↦ rw same (omega arith)
          | inr old ↦ omega (arith, least k old, leb→le _ _ e)
        ],
      )
      | inr e ↦ rw e (
        there n takes,
        λ k. elim [ inl same ↦ rw same (omega (arith, leb→lt _ _ e)) | inr old ↦ least k old ],
      )
    ]

abbrev pub first_least : List Node → Option (Node × List Node)
first_least [] = none
first_least (n ∷ ns) = some (take_least n ns)

pub first_least-cons :
    (n : Node) (ns : List Node)
    → (top : Node) × (rest : List Node) × (first_least (n ∷ ns) ≡ some (top, rest))
      × Takes top rest (n ∷ ns)
      × ((m : Node) → m ∈ n ∷ ns → top.f ≤ m.f)
first_least-cons n ns =
    let (takes, least) = take_least-TakesLeast n ns in
    ((take_least n ns).0, (take_least n ns).1, refl, takes, least)

abbrev pub least_first : MinQueue
least_first = record {
  take_top = first_least;
  take_top-nil = refl;
  take_top-cons = first_least-cons;
}
