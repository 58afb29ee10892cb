-- ===== src/Pathfinder/Improve.antt =====
-- A cheaper way to a point keeps the invariant of the search.
use tower_main.Common.{
  ℕ, ◌+◌, ◌≤◌, ◌≡◌, refl, sym, ap, ◌∙◌, ◌≢◌, ◌⊎◌, inl, inr, List, ◌∷◌, ◌∈◌, some, arith, ==-cases,
}
use tower_main.Grid.{Grid, Point, point_eq}
use tower_main.Grid.Cells.{distance}
use tower_main.Pathfinder.{Search, update}
use tower_main.Pathfinder.Walks.{Step, Step-cost}
use tower_main.Pathfinder.Invariant.{
  update_self, update_ne, update-entry, ComesFrom, IsTried, Inv, StepsTo,
}

module _ (grid : Grid) (start end current : Point) (limit budget : ℕ) where
  abbrev pub InvTo : List Point → Search → Type 0
  InvTo targets s = Inv grid start limit budget (StepsTo current targets) s

  -- A step that needs no change is no longer pending.
  pub drop_tried :
      (s : Search) (next : Point) (rest : List Point)
      → InvTo (next ∷ rest) s
      → (Step grid current next → IsTried s current next)
      → InvTo rest s
  drop_tried s next rest i done = record {
    start_zero = i.start_zero;
    start_root = i.start_root;
    bounded = i.bounded;
    on_grid = i.on_grid;
    seen = i.seen;
    opened = i.opened;
    settled = i.settled;
    rooted = i.rooted;
    tried = λ p q m st. elim (i.tried p q m st) [
      | inl (e, inl f) ↦ inr (rw (e, f) (done (rw (e, f) at st)))
      | inl (e, inr later) ↦ inl (e, later)
      | inr old ↦ inr old
    ];
  }

  -- The state that `improve` leaves where it finds a cheaper way to `next`.
  abbrev pub improved : Search → Point → ℕ → Search
  improved s next cost = record s {
    open_nodes = record { f = cost + distance next end; p = next } ∷ s.open_nodes;
    parents = update s.parents next current;
    g = update s.g next cost;
  }

  module _ (s : Search) (next : Point) (rest : List Point) (i : InvTo (next ∷ rest) s) (v : ℕ)
      (known : s.g current ≡ some v) (expanded : current ∈ s.closed) (fresh : ¬ (next ∈ s.closed))
      (step : Step grid current next) (affordable : v + 2 + budget ≤ limit) where
    abbrev cost : ℕ
    cost = v + distance current next

    abbrev s' : Search
    s' = improved s next cost

    -- Settled points keep their cost.
    kept : (q : Point) → q ∈ s.closed → s'.g q ≡ s.g q
    kept q m = update_ne s.g next q cost (λ e. fresh (rw e m))

    abbrev IsEntry : Point → ℕ → Type 0
    IsEntry q w = ((next ≡ q) × (cost ≡ w)) ⊎ ((next ≢ q) × (s.g q ≡ some w))

    entry : (q : Point) (w : ℕ) → s'.g q ≡ some w → IsEntry q w
    entry q w = update-entry s.g next q cost w

    improved-rooted : (q : Point) (w : ℕ) → IsEntry q w → (q ≡ start) ⊎ ComesFrom grid s' q w
    improved-rooted q w (inl (same, e)) = inr (
        rw (← same) (
          current,
          v,
          update_self s.parents next current,
          kept current expanded ∙ known,
          expanded,
          step,
          sym e,
        ))
    improved-rooted q w (inr (apart, e)) = elim (i.rooted q w e) [
      | inl first ↦ inl first
      | inr (p, u, from, paid, m, st, sum) ↦
          inr (p, u, update_ne s.parents next q current apart ∙ from, kept p m ∙ paid, m, st, sum)
    ]

    improved-IsTried :
        ((w : ℕ) → s.g next ≡ some w → cost ≤ w)
        → (p q : Point) → p ∈ s.closed
        → StepsTo current (next ∷ rest) p q ⊎ IsTried s p q
        → StepsTo current rest p q ⊎ IsTried s' p q
    improved-IsTried cheaper p q m (inl (e, inl f)) = inr (
        rw (e, f)
          (v, cost, kept current expanded ∙ known, update_self s.g next cost, inr (omega arith)))
    improved-IsTried cheaper p q m (inl (e, inr later)) = inl (e, later)
    improved-IsTried cheaper p q m (inr (a, b, paid, cost_q, tail)) = elim (==-cases next q) [
      | inl (same, _) ↦
          let less = cheaper b (ap s.g same ∙ cost_q) in
          let bound : b ≤ a + distance p q = elim tail [
            | inl old ↦ absurd (fresh (rw same old))
            | inr le ↦ le
          ] in
          inr (
            a,
            cost,
            kept p m ∙ paid,
            ap s'.g (sym same) ∙ update_self s.g next cost,
            inr (omega arith),
          )
      | inr (apart, _) ↦ inr (a, b, kept p m ∙ paid, update_ne s.g next q cost apart ∙ cost_q, tail)
    ]

    pub improved-Inv : next ≢ start → ((w : ℕ) → s.g next ≡ some w → cost ≤ w) → InvTo rest s'
    improved-Inv apart cheaper = record {
      start_zero = update_ne s.g next start cost apart ∙ i.start_zero;
      start_root = update_ne s.parents next start current apart ∙ i.start_root;
      bounded = λ q w e. elim (entry q w e) [
        | inl (_, paid) ↦ omega (arith, (Step-cost step).1)
        | inr (_, old) ↦ i.bounded q w old
      ];
      on_grid = λ q w e. elim (entry q w e) [
        | inl (same, _) ↦ rw (← same) step.to_inside
        | inr (_, old) ↦ i.on_grid q w old
      ];
      seen = λ q w e. elim (entry q w e) [
        | inl (same, _) ↦ inr (_, inl refl, same)
        | inr (_, old) ↦ elim (i.seen q w old) [
          | inl m ↦ inl m
          | inr (n, m, at) ↦ inr (n, inr m, at)
        ]
      ];
      opened = λ n. elim [
        | inl same ↦ (cost, rw same (update_self s.g next cost))
        | inr m ↦ elim (==-cases next n.p) [
          | inl (same, _) ↦ (cost, ap s'.g (sym same) ∙ update_self s.g next cost)
          | inr (other, _) ↦
              ((i.opened n m).0, update_ne s.g next n.p cost other ∙ (i.opened n m).1)
        ]
      ];
      settled = λ q m. ((i.settled q m).0, kept q m ∙ (i.settled q m).1);
      rooted = λ q w e. improved-rooted q w (entry q w e);
      tried = λ p q m st. improved-IsTried cheaper p q m (i.tried p q m st);
    }
