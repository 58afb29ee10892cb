-- ===== src/Pathfinder/Jps.antt =====
-- `Pathfinder::jps` and `find_path` of tower/world/path_finder.hpp: the jump point search. The walks over the grid are
-- functions of fuel; `probe_fuel` is enough for a probe, which Pathfinder/Jps/Probes.antt proves.
pub mod Rooms
pub mod Blocks
mod Parents
mod Answers
mod Probes
pub mod Outcomes
mod Tests
use tower_main.Common.{
  ℕ, zero, suc, ◌+◌, Bool, true, false, ◌&&◌, ◌||◌, not, if◌then◌else◌, List, [], ◌∷◌, Option, none,
  some, ◌==◌, Result, ok, err, ◌>>=◌, out_of_fuel,
}
use tower_main.Common.Int.{pos, int_eq, sub_int32}
use tower_main.Grid.{
  Grid, Point, point_eq, add, manhattan_distance, is_inside_point, is_blocked, adjacents_8way,
}
use tower_main.Pathfinder.{PointMap, update, contains, reconstruct_path, astar}
use tower_main.Pathfinder.Frontier.{Node, MinQueue}

pub record Jump : Type 0 where
  pub open_nodes : List Node
  pub closed : List Point
  pub parents : PointMap Point

-- `{neighbor.r - p.r, neighbor.c - p.c}`, and `{p.r - dr, p.c - dc}`.
unfoldable pub sub : Point → Point → Result Point
sub p q = do r ← sub_int32 p.r q.r; c ← sub_int32 p.c q.c; ok (record { r = r; c = c })

abbrev pub row_only : Point → Point
row_only d = record { r = d.r; c = pos 0 }

abbrev pub col_only : Point → Point
col_only d = record { r = pos 0; c = d.c }

abbrev pub row_unit : Point
row_unit = record { r = pos 1; c = pos 0 }

abbrev pub col_unit : Point
col_unit = record { r = pos 0; c = pos 1 }

-- `dr * dc != 0`; each of the two is at most 1 in size.
abbrev pub is_diagonal : Point → Bool
is_diagonal d = not (d.r == pos 0) && not (d.c == pos 0)

-- A second test of the grid, made only if the first is false.
abbrev pub or_else : Result Bool → Result Bool → Result Bool
or_else first second = first >>= λ b. if b then ok true else second

abbrev pub opens : Point → ℕ → Jump → Jump
opens p f s = record s { open_nodes = record { f = f; p = p } ∷ s.open_nodes }

-- `open.push({heuristic(p, end), p})`.
abbrev pub push_node : Point → Point → Jump → Result Jump
push_node end p s = manhattan_distance p end >>= λ f. ok (opens p f s)

-- A probe that stops at a jump point.
abbrev pub stop_at : Point → Point → Jump → Result (Bool × Jump)
stop_at end p s = push_node end p s >>= λ pushed. ok (true, pushed)

abbrev pub note_parent : Point → Point → Jump → Jump
note_parent p parent s = record s { parents = update s.parents p parent }

abbrev pub close : Point → Jump → Jump
close p s = record s { closed = p ∷ s.closed }

module _ (grid : Grid) where
  -- `grid.is_inside(p) && !grid.is_blocked(p)`.
  unfoldable pub is_free : Point → Result Bool
  is_free p = if is_inside_point grid p then (is_blocked grid p >>= λ b. ok (not b)) else ok false

  -- `block` is on the grid and blocked, and the point beyond it is free.
  unfoldable pub has_forced_neighbor : Point → Point → Result Bool
  unfolding is_free
  has_forced_neighbor block direction =
      let blocked = λ (forced_neighbor : Point).
        is_blocked grid block >>= λ b. if b then is_free forced_neighbor else ok false in
      add block direction >>= λ forced_neighbor.
      if is_inside_point grid block then blocked forced_neighbor else ok false

  -- The tests of two blocks, each with its direction.
  abbrev pub either_forced : Result Point → Point → Result Point → Point → Result Bool
  either_forced first direction second direction' = first >>= λ block. second >>= λ block'.
      or_else (has_forced_neighbor block direction) (has_forced_neighbor block' direction')

  -- The test of the two neighbours that the direction of a probe asks for.
  unfoldable pub is_jump_point : Point → Point → Result Bool
  unfolding has_forced_neighbor
  is_jump_point p d =
      if is_diagonal d
      then either_forced (sub p (col_only d)) (row_only d) (sub p (row_only d)) (col_only d)
      else if not (d.r == pos 0)
      then either_forced (add p col_unit) d (sub p col_unit) d
      else if not (d.c == pos 0)
      then either_forced (add p row_unit) d (sub p row_unit) d
      else ok false

  module _ (end : Point) where
    -- The loop of `probe`, with its two recursive calls along a row and a column.
    unfoldable pub probe : ℕ → Point → Point → Jump → Result (Bool × Jump)
    unfolding is_jump_point is_free
    probe zero p d s = err out_of_fuel
    probe (suc fuel) p d s =
        let probe_from = λ (f : Point) (t : Jump). add p f >>= λ q. probe fuel q f t in
        let body = λ (noted : Jump).
          (let diagonal = probe_from (row_only d) noted >>= λ v.
          probe_from (col_only d) v.1 >>= λ h.
          (let diagonal_on = probe_from d (close p h.1) in
            if v.0 || h.0 then stop_at end p h.1 else diagonal_on) in
            let straight_on = probe_from d (close p noted) in
            let unforced = if is_diagonal d then diagonal else straight_on in
            let beyond =
              is_jump_point p d >>= λ forced. if forced then stop_at end p noted else unforced in
            if p == end then ok (true, noted) else beyond) in
        let inside = sub p d >>= λ parent. body (note_parent p parent s) in
        is_free p >>= λ free. if free then inside else ok (false, s)

    abbrev pub probe_fuel : ℕ
    probe_fuel = grid.rows + grid.cols + 1

    -- The body of the loop of `jump` over the neighbours.
    unfoldable pub jump_to : Point → Point → Jump → Result Jump
    unfolding probe
    jump_to p neighbor s =
        if contains neighbor s.closed
        then ok s
        else (is_blocked grid neighbor >>= λ blocked.
            if blocked
            then ok s
            else (sub neighbor p >>= λ direction.
                probe probe_fuel neighbor direction s >>= λ r. ok r.1))

    unfoldable pub jump_all : Point → List Point → Jump → Result Jump
    unfolding jump_to
    jump_all p [] s = ok s
    jump_all p (neighbor ∷ rest) s = jump_to p neighbor s >>= jump_all p rest

    unfoldable pub jump : Point → Jump → Result Jump
    unfolding jump_all
    jump p s = jump_all p (adjacents_8way grid p) (close p s)

-- `while (!open.empty())`; the fuel bounds its rounds, and those of `reconstruct_path`.
module _ (queue : MinQueue) (grid : Grid) (end : Point) where
  -- `if (parents.contains(end)) return reconstruct_path(parents, end)`.
  abbrev pub finish : ℕ → Jump → Result (List Point) → Result (List Point)
  finish fuel s more = elim (s.parents end) [
    | none ↦ more
    | some parent ↦ reconstruct_path fuel s.parents end
  ]

  unfoldable pub jump_rounds : ℕ → Jump → Result (List Point)
  unfolding jump reconstruct_path
  jump_rounds zero s = err out_of_fuel
  jump_rounds (suc fuel) s = elim (queue.take_top s.open_nodes) [
    | none ↦ ok []
    | some (node, rest) ↦ jump grid end node.p (record s { open_nodes = rest }) >>= λ jumped.
        finish (suc fuel) jumped (jump_rounds fuel jumped)
  ]

  unfoldable pub jps : ℕ → Point → Result (List Point)
  unfolding jump_rounds
  jps fuel start =
      jump_rounds fuel
        (record { open_nodes = record { f = 0; p = start } ∷ []; closed = []; parents = λ _. none })

pub data Algorithm : Type 0 where
  astar_search jump_point_search : Algorithm

unfoldable pub find_path : MinQueue → Grid → ℕ → Point → Point → Algorithm → Result (List Point)
unfolding jps
find_path queue grid fuel start end astar_search = astar queue grid start end
find_path queue grid fuel start end jump_point_search = jps queue grid end fuel start
