-- ===== src/Pathfinder/Astar.antt =====
-- `astar` ends, and returns a path exactly if there is one.
use tower_main.Common.{
  List-cases, ℕ, zero, suc, ◌<◌, ◌≡◌, refl, sym, ap, ◌∙◌, inl, inr, List, [], ◌∈◌, none, some, ok,
  arith, Bool-cases, ==-cases, Result,
}
use tower_main.Grid.{Grid, Point, point_eq, is_inside_point}
use tower_main.Grid.Cells.{Inside, IsValid, Inside-is_inside, is_inside-Inside}
use tower_main.Pathfinder.{Search, contains, search, begin, astar, rounds, path_fuel}
use tower_main.Pathfinder.Frontier.{MinQueue, Takes, Takes-mem}
use tower_main.Pathfinder.Walks.{Reach, Reach-Inside}
use tower_main.Pathfinder.Invariant.{update_self, update-entry, NoStep, contains-mem}
use tower_main.Pathfinder.Unclosed.{unclosed-le}
use tower_main.Pathfinder.Paths.{ReturnsWalk, reconstruct_path-Walk}
use tower_main.Pathfinder.Rounds.{Reach-settled}
use tower_main.Pathfinder.Expand.{IsSmall, limit, budget, LoopInv, measure, Continues, again, fresh}

-- The search returns the empty path, and no walk leads to `end`, or it returns a walk.
pub data Finds (grid : Grid) (from end : Point) (r : Result (List Point)) : Type 0 where
  lost : r ≡ ok [] → ¬ Reach grid from end → Finds grid from end r
  found : ReturnsWalk grid from end r → Finds grid from end r

module _ (queue : MinQueue) (grid : Grid) (valid : IsValid grid) (small : IsSmall grid)
    (from end : Point) where
  abbrev run : ℕ → Search → Result (List Point)
  run fuel s = search queue grid fuel end s

  not_reached :
      (s : Search)
      → LoopInv grid valid from end s
      → s.open_nodes ≡ []
      → ¬ (end ∈ s.closed)
      → ¬ Reach grid from end
  not_reached s i empty unmet r = unmet (
      Reach-settled grid from (limit grid valid from end) (budget grid valid from end s) s i empty
        r)

  search-Finds :
      Inside grid end
      → (fuel : ℕ) (s : Search) → LoopInv grid valid from end s
      → ¬ (end ∈ s.closed)
      → measure grid valid from end s < fuel
      → Finds grid from end (run fuel s)
  unfolding search
  search-Finds there zero s i unmet le = absurd (omega arith)
  search-Finds there (suc fuel) s i unmet le = elim (List-cases s.open_nodes) [
    | inl empty ↦
        let none_left : queue.take_top s.open_nodes ≡ none =
          ap queue.take_top empty ∙ queue.take_top-nil in
        lost (rw (none_left, search)) (not_reached s i empty unmet)
    | inr (n, ns, some_open) ↦
        let (top, rest, taken, takes, _) = queue.take_top-cons n ns in
        let takes' : Takes top rest s.open_nodes = rw some_open takes in
        let (v, known) = i.opened top ((Takes-mem takes' top).1 (inl refl)) in
        let popped_top : queue.take_top s.open_nodes ≡ some (top, rest) =
          ap queue.take_top some_open ∙ taken in
        rw (popped_top, search)
          (elim (==-cases top.p end) [
            | inl (e, t) ↦ rw t (
                found (
                  reconstruct_path-Walk grid from (limit grid valid from end)
                    (budget grid valid from end s) NoStep s i end (path_fuel grid) v
                    (rw (← e) known) (omega (arith, i.bounded top.p v known))
                    (rw (← e) (i.on_grid top.p v known))))
            | inr (ne, t) ↦
                let (s', returns, i', closed, less) : Continues grid valid from end small there s i
                    top rest takes' v known =
                  elim (Bool-cases (contains top.p s.closed)) [
                    | inl old ↦
                        again grid valid from end small there s i top rest takes' v known
                          ((contains-mem top.p s.closed).0 old)
                    | inr new ↦
                        fresh grid valid from end small there s i top rest takes' v known new
                  ] in
                rw (t, returns)
                  (search-Finds there fuel s' i'
                    (rw closed (elim [ inl same ↦ ne (sym same) | inr m ↦ unmet m ])) (omega arith))
          ])
  ]

  -- At the beginning `g` has the start alone.
  entry : (q : Point) (v : ℕ) → (begin queue grid from).g q ≡ some v → (from ≡ q) × (0 ≡ v)
  entry q v e = elim (update-entry (λ _. none) from q 0 v e) [
    | inl t ↦ t
    | inr t ↦ (let f = t.1 in absurd (cc))
  ]

  begin-Inv : Inside grid from → LoopInv grid valid from end (begin queue grid from)
  begin-Inv k = record {
    start_zero = update_self (λ _. none) from 0;
    start_root = refl;
    bounded = λ q v e. omega (arith, (entry q v e).1, unclosed-le [] grid.rows grid.cols);
    on_grid = λ q v e. rw (← (entry q v e).0) k;
    seen = λ q v e. inr (_, inl refl, (entry q v e).0);
    opened = λ n. elim [
      | inl same ↦ (0, rw same (update_self (λ _. none) from 0))
      | inr nowhere ↦ absurd nowhere
    ];
    settled = λ q m. absurd m;
    rooted = λ q v e. inl (sym (entry q v e).0);
    tried = λ p q m. absurd m;
  }

  -- On a valid grid of which twice the number of cells, with the number of rows and that of columns, is below 2^31, for
  -- any two points and any priority queue that takes out a least entry: `astar` throws nothing, overflows no `int` and
  -- ends within its fuel. It returns the empty path if no walk leads from the start to the end, and otherwise a walk
  -- from the start to the end.
  pub astar-Finds : Finds grid from end (astar queue grid from end)
  unfolding astar
  astar-Finds = elim (Bool-cases (is_inside_point grid from)) [
    | inr off ↦
        lost (rw off)
          (λ r. (let k = Inside-is_inside grid from valid (Reach-Inside r).0 in absurd (cc)))
    | inl on ↦ elim (Bool-cases (is_inside_point grid end)) [
      | inr off ↦
          lost (rw (on, off))
            (λ r. (let k = Inside-is_inside grid end valid (Reach-Inside r).1 in absurd (cc)))
      | inl on' ↦
          rw (on, on')
            (search-Finds (is_inside-Inside grid end valid on') (rounds grid)
              (begin queue grid from) (begin-Inv (is_inside-Inside grid from valid on)) (λ m. m)
              (omega (arith, unclosed-le [] grid.rows grid.cols)))
    ]
  ]
