-- ===== src/Pathfinder/Invariant.antt =====
-- The invariant of the A* loop.
use tower_main.Common.{
  ℕ, ◌+◌, ◌≤◌, ◌≡◌, refl, ◌≢◌, ◌↔◌, ◌⊎◌, inl, inr, true, List, [], ◌∷◌, ◌∈◌, none, some, ==-cases,
  beq_refl,
}
use tower_main.Grid.{Grid, Point, point_eq}
use tower_main.Grid.Cells.{Inside, distance}
use tower_main.Pathfinder.{Search, PointMap, contains, update}
use tower_main.Pathfinder.Frontier.{Node}
use tower_main.Pathfinder.Walks.{Step}

pub contains-mem : (p : Point) (qs : List Point) → (contains p qs ≡ true) ↔ (p ∈ qs)
unfolding contains
contains-mem p [] = (λ e. cc, λ m. absurd m)
contains-mem p (q ∷ qs) = elim (==-cases p q) [
  | inl (same, e) ↦ rw e (λ _. inl same, λ _. refl)
  | inr (apart, e) ↦ rw e (
    λ h. inr ((contains-mem p qs).0 h),
    elim [ inl same ↦ absurd (apart same) | inr m ↦ (contains-mem p qs).1 m ],
  )
]

pub update_self : {V : Type 0} (m : PointMap V) (p : Point) (v : V) → update m p v p ≡ some v
update_self m p v = rw (beq_refl p)

pub update_ne : {V : Type 0} (m : PointMap V) (p q : Point) (v : V) → p ≢ q → update m p v q ≡ m q
update_ne m p q v h = elim (==-cases p q) [ inl (e, _) ↦ absurd (h e) | inr (_, e) ↦ rw e ]

pub update-entry :
    {V : Type 0} (m : PointMap V) (p q : Point) (v w : V)
    → update m p v q ≡ some w
    → ((p ≡ q) × (v ≡ w)) ⊎ ((p ≢ q) × (m q ≡ some w))
update-entry m p q v w e = elim (==-cases p q) [
  | inl (same, t) ↦ (let f = rw t at e in inl (same, cc))
  | inr (apart, t) ↦ inr (apart, rw t at e)
]

-- A point with an entry in `g` is settled, or waits in the queue.
abbrev pub IsSeen : Search → Point → Type 0
IsSeen s q = (q ∈ s.closed) ⊎ ((n : Node) × (n ∈ s.open_nodes) × (n.p ≡ q))

-- Where the cost of `q` comes from.
abbrev pub ComesFrom : Grid → Search → Point → ℕ → Type 0
ComesFrom grid s q v =
    (p : Point) × (u : ℕ) × (s.parents q ≡ some p)
    × (s.g p ≡ some u)
    × (p ∈ s.closed)
    × Step grid p q
    × (v ≡ u + distance p q)

-- The step from a settled point has been tried: its end is settled, or costs no more than by this step.
abbrev pub IsTried : Search → Point → Point → Type 0
IsTried s p q =
    (v : ℕ) × (w : ℕ) × (s.g p ≡ some v)
    × (s.g q ≡ some w)
    × ((q ∈ s.closed) ⊎ (w ≤ v + distance p q))

-- `Pending p q` holds of the steps that the inner loop has still to try; `budget` is the cost that the rounds
-- to come may add.
pub record Inv (grid : Grid) (start : Point) (limit budget : ℕ) (Pending : Point → Point → Type 0)
    (s : Search) : Type 0 where
  pub start_zero : s.g start ≡ some 0
  pub start_root : s.parents start ≡ none
  pub bounded : (q : Point) (v : ℕ) → s.g q ≡ some v → v + budget ≤ limit
  pub on_grid : (q : Point) (v : ℕ) → s.g q ≡ some v → Inside grid q
  pub seen : (q : Point) (v : ℕ) → s.g q ≡ some v → IsSeen s q
  pub opened : (n : Node) → n ∈ s.open_nodes → (v : ℕ) × (s.g n.p ≡ some v)
  pub settled : (q : Point) → q ∈ s.closed → (v : ℕ) × (s.g q ≡ some v)
  pub rooted : (q : Point) (v : ℕ) → s.g q ≡ some v → (q ≡ start) ⊎ ComesFrom grid s q v
  pub tried : (p q : Point) → p ∈ s.closed → Step grid p q → Pending p q ⊎ IsTried s p q

-- The steps from one point to those of a list.
abbrev pub StepsTo : Point → List Point → Point → Point → Type 0
StepsTo current targets p q = (p ≡ current) × (q ∈ targets)

abbrev pub NoStep : Point → Point → Type 0
NoStep p q = ⊥
