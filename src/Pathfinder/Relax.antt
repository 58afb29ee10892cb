-- ===== src/Pathfinder/Relax.antt =====
-- The inner loop keeps the invariant, and tries each step from the point that it expands.
use tower_main.Common.{
  ℕ, ◌+◌, ◌^◌, ◌≤◌, ◌<◌, ◌≡◌, refl, sym, ap, ◌∙◌, inl, inr, true, false, List, [], ◌∷◌, ◌∈◌, length,
  Option, Result, some, ok, arith, Bool-cases, Option-cases, if◌then◌else◌,
}
use tower_main.Common.Int.{add_natural_int32-fits}
use tower_main.Grid.{Grid, Point, point_eq}
use tower_main.Grid.Cells.{
  Inside, IsValid, Touches, is_blocked_cell, distance, distance-lt, manhattan_distance-fits,
}
use tower_main.Pathfinder.{
  Search, PointMap, contains, subscript, is_no_better, accept, offer, improve, relax, relax_all,
}
use tower_main.Pathfinder.Walks.{Step, Step-cost}
use tower_main.Pathfinder.Invariant.{contains-mem, update_ne, IsTried, Inv, StepsTo}
use tower_main.Pathfinder.Improve.{InvTo, drop_tried, improved, improved-Inv}

-- What is known of the inner loop once it has tried all but the steps to `targets`.
pub record Relaxed (grid : Grid) (start current : Point) (limit budget v n : ℕ)
    (targets : List Point) (s : Search) (r : Result Search) : Type 0 where
  pub out : Search
  pub returns : r ≡ ok out
  pub inv : Inv grid start limit budget (StepsTo current targets) out
  pub same_closed : out.closed ≡ s.closed
  pub known : out.g current ≡ some v
  pub grows : length out.open_nodes ≤ length s.open_nodes + n

subscript-known : (m : PointMap ℕ) (p : Point) {v : ℕ} → m p ≡ some v → subscript m p ≡ (v, m)
subscript-known m p e = rw (e, subscript)

is_no_better-le :
    (m : PointMap ℕ) (p : Point) (cost : ℕ)
    → is_no_better m p cost ≡ true
    → (w : ℕ) × (m p ≡ some w) × (w ≤ cost)
is_no_better-le m p cost e = elim (Option-cases (m p)) [
  | inl n ↦ (let f = rw (n, is_no_better) at e in cc)
  | inr (w, t) ↦ (w, t, ground arith)
]

is_no_better-lt :
    (m : PointMap ℕ) (p : Point) (cost : ℕ)
    → is_no_better m p cost ≡ false
    → (w : ℕ) → m p ≡ some w
    → cost ≤ w
is_no_better-lt m p cost e w t = ground arith

le-is_no_better :
    (m : PointMap ℕ) (p : Point) (w cost : ℕ)
    → m p ≡ some w
    → w ≤ cost
    → is_no_better m p cost ≡ true
le-is_no_better m p w cost e le = ground arith

some_same : {A : Type 0} {o : Option A} {a b : A} → o ≡ some a → o ≡ some b → a ≡ b
some_same e f = cc

-- What the bounds of the search grant: no cost leaves `int`.
pub record IsAffordable (grid : Grid) (end : Point) (limit budget v : ℕ) : Type 0 where
  pub end_inside : Inside grid end
  pub small : limit + grid.rows + grid.cols < 2 ^ 31
  pub affordable : v + 2 + budget ≤ limit

module _ (grid : Grid) (valid : IsValid grid) (start end current : Point) (limit budget v : ℕ)
    (payable : v + 2 < 2 ^ 31) where
  abbrev Tries : List Point → Search → Type 0
  Tries targets s =
      InvTo grid start end current limit budget targets s
      × (current ∈ s.closed)
      × (s.g current ≡ some v)

  abbrev Improves : Point → List Point → Search → Search → Type 0
  Improves next rest s s' =
      InvTo grid start end current limit budget rest s'
      × (s'.closed ≡ s.closed)
      × (s'.g current ≡ some v)
      × (length s'.open_nodes ≤ length s.open_nodes + 1)

  improve-known :
      (s : Search) (next : Point)
      → s.g current ≡ some v
      → Step grid current next
      → improve grid end current s next ≡ (
          if is_no_better s.g next (v + distance current next)
          then ok s
          else accept grid end current s next s.g (v + distance current next))
  unfolding improve offer
  improve-known s next known step =
      let near = (Step-cost step).1 in
      rw
        (
          subscript-known s.g current known,
          manhattan_distance-fits current next (omega arith),
          add_natural_int32-fits v (distance current next) (omega arith),
        )
        refl

  accept-improved :
      IsAffordable grid end limit budget v
      → (s : Search) (next : Point) → Step grid current next
      → accept grid end current s next s.g (v + distance current next)
        ≡ ok (improved grid start end current limit budget s next (v + distance current next))
  unfolding accept
  accept-improved a s next step =
      let near = (Step-cost step).1 in
      let far = distance-lt step.to_inside a.end_inside in
      let sums = a.small in
      let pays = a.affordable in
      rw
        (
          manhattan_distance-fits next end (omega arith),
          add_natural_int32-fits (v + distance current next) (distance next end) (omega arith),
        )
        refl

  improve-Improves :
      (next : Point) (rest : List Point) (s : Search)
      → Tries (next ∷ rest) s
      → ¬ (next ∈ s.closed)
      → Step grid current next
      → IsAffordable grid end limit budget v
      → (s' : Search) × (improve grid end current s next ≡ ok s') × Improves next rest s s'
  improve-Improves next rest s (i, m, known) fresh step a =
      rw (improve-known s next known step)
        (elim (Bool-cases (is_no_better s.g next (v + distance current next))) [
          | inl no_better ↦
              let (w, old, le) = is_no_better-le s.g next _ no_better in
              rw no_better (
                s,
                refl,
                (
                  drop_tried grid start end current limit budget s next rest i
                      (λ _. (v, w, known, old, inr le)),
                  refl,
                  known,
                  omega arith,
                ),
              )
          | inr better ↦
              let cheaper = is_no_better-lt s.g next _ better in
              let apart = λ (e : next ≡ start).
                (let least = cheaper 0 (ap s.g e ∙ i.start_zero) in
                  (let moves = (Step-cost step).0 in absurd (omega arith))) in
              rw better (
                improved grid start end current limit budget s next (v + distance current next),
                accept-improved a s next step,
                (
                  improved-Inv grid start end current limit budget s next rest i v known m fresh
                      step a.affordable apart cheaper,
                  refl,
                  update_ne s.g next current _ (λ e. fresh (rw e m)) ∙ known,
                  omega arith,
                ),
              )
        ])

  abbrev Neighbour : Point → Type 0
  Neighbour q = Inside grid current × Inside grid q × Touches current q

  relax-Improves :
      (next : Point) (rest : List Point) (s : Search)
      → Tries (next ∷ rest) s
      → Neighbour next
      → IsAffordable grid end limit budget v
      → (s' : Search) × (relax grid end current s next ≡ ok s') × Improves next rest s s'
  unfolding relax
  relax-Improves next rest s (i, m, known) (here, there, touches) a =
      elim (Bool-cases (contains next s.closed)) [
        | inl old ↦
            let (w, cost) = i.settled next ((contains-mem next s.closed).0 old) in
            let same =
              drop_tried grid start end current limit budget s next rest i
                (λ _. (v, w, known, cost, inl ((contains-mem next s.closed).0 old))) in
            (s, rw old, (same, refl, known, omega arith))
        | inr new ↦
            let (blocked, _, read) = is_blocked_cell grid next valid there in
            elim (Bool-cases blocked) [
              | inl wall ↦
                  let same =
                    drop_tried grid start end current limit budget s next rest i
                      (λ step. (let clash = sym read ∙ step.free in absurd (cc))) in
                  (s, rw (new, read, wall), (same, refl, known, omega arith))
              | inr free ↦
                  let step : Step grid current next = record {
                    from_inside = here;
                    to_inside = there;
                    touches = touches;
                    free = read ∙ ap ok free;
                  } in
                  rw (new, read, free)
                    (improve-Improves next rest s (i, m, known)
                      (λ c. (let f = (contains-mem next s.closed).1 c in cc)) step a)
            ]
      ]

  pub relax_all-Relaxed :
      (targets : List Point) (s : Search)
      → Tries targets s
      → ((q : Point) → q ∈ targets → Neighbour q)
      → IsAffordable grid end limit budget v
      → Relaxed grid start current limit budget v
          (length targets)
          []
          s
          (relax_all grid end current s targets)
  unfolding relax_all
  relax_all-Relaxed [] s (i, m, known) near a = record {
    out = s;
    returns = refl;
    inv = i;
    same_closed = refl;
    known = known;
    grows = omega arith;
  }
  relax_all-Relaxed (next ∷ rest) s (i, m, known) near a =
      let (s', returns, (i', closed', known', grows)) =
        relax-Improves next rest s (i, m, known) (near next (inl refl)) a in
      let more = relax_all-Relaxed rest s' (i', rw closed' m, known') (λ q t. near q (inr t)) a in
      record {
        out = more.out;
        returns = rw returns more.returns;
        inv = more.inv;
        same_closed = more.same_closed ∙ closed';
        known = more.known;
        grows = omega (arith, more.grows);
      }

  -- A point that was expanded before: nothing is left to try, and nothing changes.
  relax-same :
      (next : Point) (s : Search)
      → s.g current ≡ some v
      → Neighbour next
      → (Step grid current next → IsTried s current next)
      → relax grid end current s next ≡ ok s
  unfolding relax
  relax-same next s known (here, there, touches) tried =
      elim (Bool-cases (contains next s.closed)) [
        | inl old ↦ rw old
        | inr new ↦
            let (blocked, _, read) = is_blocked_cell grid next valid there in
            elim (Bool-cases blocked) [
              | inl wall ↦ rw (new, read, wall)
              | inr free ↦
                  let step : Step grid current next = record {
                    from_inside = here;
                    to_inside = there;
                    touches = touches;
                    free = read ∙ ap ok free;
                  } in
                  let (a, w, paid, cost, tail) = tried step in
                  let le : w ≤ v + distance current next = elim tail [
                    | inl m ↦ (let f = (contains-mem next s.closed).1 m in absurd (cc))
                    | inr less ↦ omega (arith, some_same paid known)
                  ] in
                  rw (new, read, free)
                    (improve-known s next known step
                      ∙ rw (le-is_no_better s.g next w (v + distance current next) cost le) refl)
            ]
      ]

  pub relax_all-same :
      (targets : List Point) (s : Search)
      → s.g current ≡ some v
      → ((q : Point) → q ∈ targets → Neighbour q × (Step grid current q → IsTried s current q))
      → relax_all grid end current s targets ≡ ok s
  unfolding relax_all
  relax_all-same [] s known near = refl
  relax_all-same (next ∷ rest) s known near =
      let (there, tried) = near next (inl refl) in
      rw (relax-same next s known there tried) (relax_all-same rest s known (λ q t. near q (inr t)))
