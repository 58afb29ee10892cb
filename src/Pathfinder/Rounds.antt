-- ===== src/Pathfinder/Rounds.antt =====
-- One round of the A* loop: taking the top node, and the end of the loop.
use tower_main.Common.{
  ℕ, ◌≤◌, ◌≡◌, refl, sym, ap, ◌∙◌, subst, ◌⊎◌, inl, inr, List, [], ◌∷◌, ◌∈◌, some, arith,
}
use tower_main.Grid.{Grid, Point, point_eq}
use tower_main.Pathfinder.{Search}
use tower_main.Pathfinder.Frontier.{Node, Takes, Takes-mem}
use tower_main.Pathfinder.Walks.{Step, Reach, start, next}
use tower_main.Pathfinder.Invariant.{Inv, IsTried, NoStep}

abbrev pub popped : Search → Node → List Node → Search
popped s top rest = record s { open_nodes = rest; closed = top.p ∷ s.closed }

module _ (grid : Grid) (from : Point) (limit budget more : ℕ) (le : budget ≤ more) (s : Search)
    (i : Inv grid from limit more NoStep s) (top : Node) (rest : List Node)
    (takes : Takes top rest s.open_nodes) where
  pub top_known : (v : ℕ) × (s.g top.p ≡ some v)
  top_known = i.opened top ((Takes-mem takes top).1 (inl refl))

  -- Taking the top node keeps the invariant, but for the steps from it.
  pub popped-Inv :
      (Pending : Point → Point → Type 0)
      → ((q : Point) → Step grid top.p q → Pending top.p q ⊎ IsTried (popped s top rest) top.p q)
      → Inv grid from limit budget Pending (popped s top rest)
  popped-Inv Pending try = record {
    start_zero = i.start_zero;
    start_root = i.start_root;
    bounded = λ q v e. omega (arith, i.bounded q v e);
    on_grid = i.on_grid;
    seen = λ q v e. elim (i.seen q v e) [
      | inl m ↦ inl (inr m)
      | inr (n, m, at) ↦ elim ((Takes-mem takes n).0 m) [
        | inl same ↦ inl (inl (sym at ∙ ap (λ (k : Node). k.p) same))
        | inr left ↦ inr (n, left, at)
      ]
    ];
    opened = λ n m. i.opened n ((Takes-mem takes n).1 (inr m));
    settled = λ q. elim [ inl same ↦ rw same top_known | inr m ↦ i.settled q m ];
    rooted = λ q v e. elim (i.rooted q v e) [
      | inl first ↦ inl first
      | inr (p, u, parent, paid, m, st, sum) ↦ inr (p, u, parent, paid, inr m, st, sum)
    ];
    tried = λ p q. elim [
      | inl same ↦ rw same (try q)
      | inr m ↦ λ st. elim (i.tried p q m st) [
        | inl pending ↦ absurd pending
        | inr (a, b, paid, cost, tail) ↦
            inr (a, b, paid, cost, elim tail [ inl c ↦ inl (inr c) | inr less ↦ inr less ])
      ]
    ];
  }

-- With no node left, all that can be reached is settled.
module _ (grid : Grid) (from : Point) (limit budget : ℕ) (s : Search)
    (i : Inv grid from limit budget NoStep s) (empty : s.open_nodes ≡ []) where
  seen_settled : (q : Point) (v : ℕ) → s.g q ≡ some v → q ∈ s.closed
  seen_settled q v e = elim (i.seen q v e) [
    | inl m ↦ m
    | inr (n, m, _) ↦ absurd (subst (λ ns. n ∈ ns) empty m)
  ]

  pub Reach-settled : {q : Point} → Reach grid from q → q ∈ s.closed
  Reach-settled (start k) = seen_settled from 0 i.start_zero
  Reach-settled (next {o} {q} r st) = elim (i.tried o q (Reach-settled r) st) [
    | inl pending ↦ absurd pending
    | inr (_, w, _, e, _) ↦ seen_settled q w e
  ]
