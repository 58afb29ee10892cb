-- ===== src/Pathfinder/Jps/Outcomes.antt =====
-- What the jump point search can return, and when it does not.
use mathlib.Core.List.{reverse-append}
use tower_main.Common.{
  ℕ, zero, suc, ◌≡◌, refl, sym, ap, subst, ◌∙◌, inl, inr, List, [], ◌∷◌, ◌++◌, reverse, none, some,
  Option-cases, List-cases, Result, ok, err, out_of_fuel,
}
use tower_main.Grid.{Grid, Point}
use tower_main.Grid.Cells.{IsValid}
use tower_main.Grid.Adjacents.{IsInt}
use tower_main.Pathfinder.{follow, reconstruct_path}
use tower_main.Pathfinder.Frontier.{MinQueue, Takes, Takes-mem}
use tower_main.Pathfinder.Walks.{Walk, rest, move}
use tower_main.Pathfinder.Paths.{ReturnsWalk}
use tower_main.Pathfinder.Jps.{Jump, jump_rounds, finish, jps}
use tower_main.Pathfinder.Jps.Blocks.{IsClose}
use tower_main.Pathfinder.Jps.Parents.{HasParent, IsKnown, Inv}
use tower_main.Pathfinder.Jps.Probes.{jump-JumpsTo}

-- The empty path, a walk from the start to the end, or no return within the fuel.
pub data Outcome (grid : Grid) (start end : Point) (r : Result (List Point)) : Type 0 where
  nothing : r ≡ ok [] → Outcome grid start end r
  walk : ReturnsWalk grid start end r → Outcome grid start end r
  goes_on : r ≡ err out_of_fuel → Outcome grid start end r

module _ (grid : Grid) (start : Point) (s : Jump) (inv : Inv grid start s) where
  follow-Outcome :
      (end : Point) (fuel : ℕ) (current : Point) (path : List Point)
      → IsKnown start s.parents current
      → Walk grid end current (reverse path)
      → Outcome grid start end (follow fuel s.parents current path)
  unfolding follow
  follow-Outcome end zero current path known w = goes_on refl
  follow-Outcome end (suc fuel) current path known w = elim (Option-cases (s.parents current)) [
    | inl first ↦ elim known [
      | inl same ↦ walk (
        reverse path,
        rw (first, follow),
        subst (λ k. Walk grid end k (reverse path)) (sym same) w,
      )
      | inr (o, has) ↦ (let f = sym first ∙ has in absurd (cc))
    ]
    | inr (o, has) ↦
        let (step, known') = inv.linked current o has in
        let longer : Walk grid end o (reverse (path ++ o ∷ [])) =
          rw (reverse-append path (o ∷ [])) (move step w) in
        rw (has, follow) (follow-Outcome end fuel o (path ++ o ∷ []) known' longer)
  ]

  follow-endless :
      HasParent s.parents start
      → (fuel : ℕ) (current : Point) (path : List Point) → IsKnown start s.parents current
      → follow fuel s.parents current path ≡ err out_of_fuel
  unfolding follow
  follow-endless (o, e) zero current path known = refl
  follow-endless (o, e) (suc fuel) current path (inl same) =
      rw (ap (λ k. s.parents k) (sym same) ∙ e, follow)
        (follow-endless (o, e) fuel o (path ++ o ∷ []) (inv.linked start o e).1)
  follow-endless (o, e) (suc fuel) current path (inr (p, f)) =
      rw (f, follow) (follow-endless (o, e) fuel p (path ++ p ∷ []) (inv.linked current p f).1)

  -- In a state of the invariant in which the start has itself a parent, because a probe has run over it, and so has the
  -- end: `reconstruct_path` never returns, whatever the fuel.
  pub reconstruct_path-endless :
      (end : Point)
      → HasParent s.parents start
      → HasParent s.parents end
      → (fuel : ℕ) → reconstruct_path fuel s.parents end ≡ err out_of_fuel
  unfolding reconstruct_path
  reconstruct_path-endless end at_start at_end fuel =
      follow-endless at_start fuel end (end ∷ []) (inr at_end)

module _ (queue : MinQueue) (grid : Grid) (valid : IsValid grid) (start end : Point)
    (close_by : IsClose grid end) where
  finish-Outcome :
      (fuel : ℕ) (s : Jump) (more : Result (List Point))
      → Inv grid start s
      → Outcome grid start end more
      → Outcome grid start end (finish queue grid end fuel s more)
  unfolding reconstruct_path
  finish-Outcome fuel s more inv out = elim (Option-cases (s.parents end)) [
    | inl unseen ↦ rw (unseen, finish) out
    | inr (o, has) ↦
        rw (has, finish)
          (follow-Outcome grid start s inv end fuel end (end ∷ []) (inr (o, has))
            (rest (inv.linked end o has).0.to_inside))
  ]

  jump_rounds-Outcome :
      (fuel : ℕ) (s : Jump)
      → Inv grid start s
      → Outcome grid start end (jump_rounds queue grid end fuel s)
  unfolding jump_rounds
  jump_rounds-Outcome zero s inv = goes_on refl
  jump_rounds-Outcome (suc fuel) s inv = elim (List-cases s.open_nodes) [
    | inl empty ↦
        let none_left : queue.take_top s.open_nodes ≡ none =
          ap queue.take_top empty ∙ queue.take_top-nil in
        nothing (rw (none_left, jump_rounds))
    | inr (n, ns, some_open) ↦
        let (top, others, taken, takes, _) = queue.take_top-cons n ns in
        let takes' : Takes top others s.open_nodes = rw some_open takes in
        let popped : queue.take_top s.open_nodes ≡ some (top, others) =
          ap queue.take_top some_open ∙ taken in
        let (int, known) = inv.opened top ((Takes-mem takes' top).1 (inl refl)) in
        let left : Inv grid start (record s { open_nodes = others }) = record {
          linked = inv.linked;
          opened = λ m there. inv.opened m ((Takes-mem takes' m).1 (inr there));
        } in
        let (jumped, returns, inv') =
          jump-JumpsTo grid valid start end close_by top.p (record s { open_nodes = others }) int
            known left in
        rw (popped, returns, jump_rounds)
          (finish-Outcome (suc fuel) jumped (jump_rounds queue grid end fuel jumped) inv'
            (jump_rounds-Outcome fuel jumped inv'))
  ]

  pub begin-Inv :
      IsInt start
      → Inv grid start (record {
        open_nodes = record { f = 0; p = start } ∷ [];
        closed = [];
        parents = λ _. none;
      })
  begin-Inv int = record {
    linked = λ p o e. absurd (cc);
    opened =
        λ n. elim [ inl same ↦ (rw same int, rw same (inl refl)) | inr nowhere ↦ absurd nowhere ];
  }

  -- On a valid grid, for a start with `int` coordinates and an end whose distance from each point of the grid is below
  -- 2^31, with any fuel for the rounds: the jump point search throws nothing and overflows no `int`, and where it
  -- returns it returns the empty path or a walk from the start to the end.
  pub jps-Outcome :
      (fuel : ℕ) → IsInt start → Outcome grid start end (jps queue grid end fuel start)
  unfolding jps
  jps-Outcome fuel int = jump_rounds-Outcome fuel _ (begin-Inv int)
