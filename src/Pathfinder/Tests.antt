-- ===== src/Pathfinder/Tests.antt =====
-- Runs of A* on the grids of tower/world/path_finder.test.cpp.
use tower_main.Common.{◌≡◌, refl, true, false, List, [], ◌∷◌, ok, arith}
use tower_main.Common.Int.{sub_int32, abs_int32, add_natural_int32}
use tower_main.Grid.{
  Grid, Point, is_inside_point, point_beq, is_blocked, adjacents_8way, manhattan_distance,
}
use tower_main.Grid.Cells.{IsValid, cell}
use tower_main.Pathfinder.{astar}
use tower_main.Pathfinder.Frontier.{least_first, take_least}
use tower_main.Pathfinder.Expand.{IsSmall}
use tower_main.Pathfinder.Astar.{Finds, astar-Finds}

-- A wall with a gap, and a wall without one.
abbrev gap : Grid
gap = record {
  rows = 5;
  cols = 5;
  cells =
      false ∷ false ∷ false ∷ false ∷ false ∷ true ∷ true ∷ true ∷ false ∷ false ∷ false ∷ false
      ∷ false ∷ false ∷ false ∷ false ∷ false ∷ false ∷ false ∷ false ∷ false ∷ false ∷ false
      ∷ false ∷ false ∷ [];
}

abbrev wall : Grid
wall = record {
  rows = 5;
  cols = 5;
  cells =
      false ∷ false ∷ false ∷ false ∷ false ∷ true ∷ true ∷ true ∷ true ∷ true ∷ false ∷ false
      ∷ false ∷ false ∷ false ∷ false ∷ false ∷ false ∷ false ∷ false ∷ false ∷ false ∷ false
      ∷ false ∷ false ∷ [];
}

abbrev through_gap : List Point
through_gap = cell 0 0 ∷ cell 0 1 ∷ cell 0 2 ∷ cell 1 3 ∷ cell 2 4 ∷ cell 3 4 ∷ cell 4 4 ∷ []

path_through_gap : astar least_first gap (cell 0 0) (cell 4 4) ≡ ok through_gap
unfolding astar is_inside_point point_beq is_blocked adjacents_8way manhattan_distance sub_int32
    abs_int32 add_natural_int32 take_least
path_through_gap = refl

no_path : astar least_first wall (cell 0 0) (cell 4 4) ≡ ok []
unfolding astar is_inside_point point_beq is_blocked adjacents_8way manhattan_distance sub_int32
    abs_int32 add_natural_int32 take_least
no_path = refl

gap-IsValid : IsValid gap
gap-IsValid = omega arith

gap-IsSmall : IsSmall gap
gap-IsSmall = omega arith

astar-Finds_example : Finds gap (cell 0 0) (cell 4 4) (astar least_first gap (cell 0 0) (cell 4 4))
astar-Finds_example = astar-Finds least_first gap gap-IsValid gap-IsSmall (cell 0 0) (cell 4 4)
