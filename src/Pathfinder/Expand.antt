-- ===== src/Pathfinder/Expand.antt =====
-- One round of the A* loop whose node is not the end: it keeps the invariant and lowers the measure.
use tower_main.Common.{
  ◌↔◌, ℕ, ◌+◌, ◌*◌, ◌^◌, ◌≤◌, ◌<◌, ◌≡◌, refl, ◌⊎◌, inl, inr, false, List, [], ◌∷◌, ◌∈◌, length,
  some, ok, arith, Result,
}
use tower_main.Grid.{Grid, Point, point_eq, adjacents_8way}
use tower_main.Grid.Cells.{Inside, Touches, cell, IsValid}
use tower_main.Grid.Adjacents.{mem-adjacents_8way, Inside-IsInt, adjacents_8way-length}
use tower_main.Pathfinder.{Search, contains, relax_all}
use tower_main.Pathfinder.Frontier.{Node, Takes, Takes-length}
use tower_main.Pathfinder.Walks.{Step}
use tower_main.Pathfinder.Invariant.{Inv, IsTried, NoStep, StepsTo}
use tower_main.Pathfinder.Relax.{IsAffordable, relax_all-Relaxed, relax_all-same}
use tower_main.Pathfinder.Unclosed.{unclosed, unclosed-cons, unclosed-closes}
use tower_main.Pathfinder.Rounds.{popped, popped-Inv}

at_cell : {grid : Grid} {p : Point} → (k : Inside grid p) → p ≡ cell k.i k.j
at_cell k = λ d. record { r = k.row d; c = k.col d }

-- Nothing is pending once every target is done.
done :
    {grid : Grid} {from current : Point} {limit budget : ℕ} {s : Search}
    → Inv grid from limit budget (StepsTo current []) s
    → Inv grid from limit budget NoStep s
done i = record {
  start_zero = i.start_zero;
  start_root = i.start_root;
  bounded = i.bounded;
  on_grid = i.on_grid;
  seen = i.seen;
  opened = i.opened;
  settled = i.settled;
  rooted = i.rooted;
  tried = λ p q m st. elim (i.tried p q m st) [ inl t ↦ absurd t.1 | inr old ↦ inr old ];
}

-- A grid whose paths have costs that an `int` holds, with the distance that is still to go: at most 2 for each cell, and
-- the two sides.
abbrev pub IsSmall : Grid → Type 0
IsSmall grid = 2 * (grid.rows * grid.cols) + grid.rows + grid.cols < 2 ^ 31

module _ (grid : Grid) (valid : IsValid grid) (from end : Point) where
  abbrev pub limit : ℕ
  limit = 2 * (grid.rows * grid.cols)

  -- The cells that are not settled can each add 2 to a cost.
  abbrev pub budget : Search → ℕ
  budget s = 2 * unclosed s.closed grid.rows grid.cols

  abbrev pub LoopInv : Search → Type 0
  LoopInv s = Inv grid from limit (budget s) NoStep s

  abbrev pub measure : Search → ℕ
  measure s = 8 * unclosed s.closed grid.rows grid.cols + length s.open_nodes

  -- The neighbours that the inner loop goes through are the ends of steps.
  neighbours :
      (p : Point)
      → Inside grid p
      → (q : Point) → (q ∈ adjacents_8way grid p) ↔ (Inside grid p × Inside grid q × Touches p q)
  neighbours p k q = mem-adjacents_8way grid p q valid (Inside-IsInt valid k)

  -- One round whose node is not `end`.
  module _ (small : IsSmall grid) (end_inside : Inside grid end) (s : Search) (i : LoopInv s)
      (top : Node) (rest : List Node) (takes : Takes top rest s.open_nodes) (v : ℕ)
      (known : s.g top.p ≡ some v) where
    abbrev pub expand : Result Search
    expand = relax_all grid end top.p (popped s top rest) (adjacents_8way grid top.p)

    abbrev left : ℕ
    left = budget (popped s top rest)

    here : Inside grid top.p
    here = i.on_grid top.p v known

    payable : v + 2 < 2 ^ 31
    payable = omega (arith, i.bounded top.p v known, here.row_lt, here.col_lt)

    left-le : left ≤ budget s
    left-le = omega (arith, unclosed-cons top.p s.closed grid.rows grid.cols)

    keeps :
        (Pending : Point → Point → Type 0)
        → ((q : Point) → Step grid top.p q → Pending top.p q ⊎ IsTried (popped s top rest) top.p q)
        → Inv grid from limit left Pending (popped s top rest)
    keeps = popped-Inv grid from limit left (budget s) left-le s i top rest takes

    abbrev pub Continues : Type 0
    Continues =
        (s' : Search) × (expand ≡ ok s')
        × LoopInv s'
        × (s'.closed ≡ top.p ∷ s.closed)
        × (measure s' < measure s)

    -- The node's point was expanded before: nothing changes but that the node is gone.
    pub again : top.p ∈ s.closed → Continues
    again old =
        let tried : (q : Point) → Step grid top.p q → IsTried (popped s top rest) top.p q = λ q st.
          elim (i.tried top.p q old st) [
            | inl pending ↦ absurd pending
            | inr (a, b, paid, cost, tail) ↦
                (a, b, paid, cost, elim tail [ inl c ↦ inl (inr c) | inr less ↦ inr less ])
          ] in
        let same =
          relax_all-same grid valid from end top.p limit left v payable (adjacents_8way grid top.p)
            (popped s top rest) known (λ q m. ((neighbours top.p here q).0 m, tried q)) in
        (
          popped s top rest,
          same,
          keeps NoStep (λ q st. inr (tried q st)),
          refl,
          omega (arith, Takes-length takes, unclosed-cons top.p s.closed grid.rows grid.cols),
        )

    pub fresh : contains top.p s.closed ≡ false → Continues
    fresh new =
        let targets = adjacents_8way grid top.p in
        let begun = keeps (StepsTo top.p targets) (λ q st.
          inl (refl, (neighbours top.p here q).1 (st.from_inside, st.to_inside, st.touches))) in
        let closes : unclosed (top.p ∷ s.closed) grid.rows grid.cols + 1
            ≤ unclosed s.closed grid.rows grid.cols =
          unclosed-closes top.p s.closed here.i here.j (at_cell here) new grid.rows grid.cols
            here.row_lt here.col_lt in
        let pays : IsAffordable grid end limit left v = record {
          end_inside = end_inside;
          small = small;
          affordable = omega (arith, i.bounded top.p v known, closes);
        } in
        let run =
          relax_all-Relaxed grid valid from end top.p limit left v payable targets
            (popped s top rest) (begun, inl refl, known) (λ q m. (neighbours top.p here q).0 m)
            pays in
        let fewer : 8 * unclosed run.out.closed grid.rows grid.cols + 8
            ≤ 8 * unclosed s.closed grid.rows grid.cols =
          rw run.same_closed (omega arith) in
        (
          run.out,
          run.returns,
          rw run.same_closed (done run.inv),
          run.same_closed,
          omega (arith, Takes-length takes, run.grows, adjacents_8way-length grid top.p),
        )
