-- ===== src/Grid/Tests.antt =====
-- The neighbours of points of a small grid.
use tower_main.Common.{
  ◌≡◌, refl, ◌↔◌, ◌∈◌, Bool, true, false, [], ◌∷◌, ok, err, overflow, some, get_elem?, ◌+◌, ◌*◌,
  ◌-◌, ◌^◌, ◌<◌, ◌≤◌, ◌⊎◌, arith,
}
use tower_main.Common.Int.{pos, negsuc, sub_int32}
use tower_main.Grid.{Grid, Point, is_blocked, adjacents_8way, adjacents_4way, manhattan_distance}
use tower_main.Grid.Cells.{
  IsValid, Inside, Touches, cell, distance, is_blocked_cell, manhattan_distance-cases,
}
use tower_main.Grid.Adjacents.{IsInt, mem-adjacents_8way, mem-adjacents_4way}

abbrev small : Grid
small = record { rows = 2; cols = 3; cells = false ∷ true ∷ false ∷ false ∷ false ∷ false ∷ [] }

small-IsValid : IsValid small
small-IsValid = omega arith

corner-IsInt : IsInt (cell 0 0)
corner-IsInt = record {
  row_above = omega arith;
  row_below = omega arith;
  col_above = omega arith;
  col_below = omega arith;
}

corner : adjacents_8way small (cell 0 0) ≡ cell 1 0 ∷ cell 0 1 ∷ cell 1 1 ∷ []
unfolding adjacents_8way
corner = refl

off : adjacents_4way small (record { r = negsuc 0; c = pos 0 }) ≡ []
unfolding adjacents_4way
off = refl

mem-adjacents_8way_example :
    (cell 1 1 ∈ adjacents_8way small (cell 0 0))
    ↔ (Inside small (cell 0 0) × Inside small (cell 1 1) × Touches (cell 0 0) (cell 1 1))
mem-adjacents_8way_example =
    mem-adjacents_8way small (cell 0 0) (cell 1 1) small-IsValid corner-IsInt

mem-adjacents_4way_example : (cell 1 0 ∈ adjacents_4way small (cell 0 0)) ↔ (
    Inside small (cell 0 0)
    × Inside small (cell 1 0)
    × (manhattan_distance (cell 0 0) (cell 1 0) ≡ ok 1))
mem-adjacents_4way_example =
    mem-adjacents_4way small (cell 0 0) (cell 1 0) small-IsValid corner-IsInt

abbrev far_point : Point
far_point = record { r = negsuc (2 ^ 31 - 1); c = pos 0 }

far_point_overflows : manhattan_distance (cell 0 0) far_point ≡ err overflow
unfolding manhattan_distance sub_int32
far_point_overflows = refl

-- The heuristic from a corner to an end in the first row that an `int` holds.
manhattan_distance-cases_example :
    (distance (cell 0 0) far_point < 2 ^ 31)
      × (manhattan_distance (cell 0 0) far_point ≡ ok (distance (cell 0 0) far_point))
    ⊎ (2 ^ 31 ≤ distance (cell 0 0) far_point)
      × (manhattan_distance (cell 0 0) far_point ≡ err overflow)
manhattan_distance-cases_example = manhattan_distance-cases (cell 0 0) far_point

abbrev blocked_cell : Inside small (cell 0 1)
blocked_cell = record {
  i = 0;
  j = 1;
  row = refl;
  col = refl;
  row_lt = omega arith;
  col_lt = omega arith;
}

is_blocked_cell_example :
    (b : Bool) × (get_elem? small.cells (0 * 3 + 1) ≡ some b) × (is_blocked small (cell 0 1) ≡ ok b)
is_blocked_cell_example = is_blocked_cell small (cell 0 1) small-IsValid blocked_cell
