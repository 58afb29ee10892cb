-- ===== src/Pathfinder/Jps/Tests.antt =====
-- Runs of the jump point search.
use tower_main.Common.{◌≡◌, refl, true, false, [], ◌∷◌, ok, err, out_of_fuel, arith}
use tower_main.Common.Int.{◌-ℤ◌, add_int32, sub_int32, abs_int32, add_natural_int32}
use tower_main.Grid.{
  Grid, add, is_inside_point, point_beq, is_blocked, adjacents_8way, manhattan_distance,
}
use tower_main.Grid.Cells.{IsValid, Inside, cell}
use tower_main.Common.{inl, inr, none}
use tower_main.Grid.{at_point, at, at_index}
use tower_main.Grid.Adjacents.{IsInt}
use tower_main.Pathfinder.Walks.{Step}
use tower_main.Pathfinder.Jps.{Jump}
use tower_main.Pathfinder.Jps.Blocks.{IsClose, Inside-IsClose}
use tower_main.Pathfinder.Jps.Parents.{HasParent, Inv}
use tower_main.Pathfinder.Jps.Probes.{jump-JumpsTo}
use tower_main.Pathfinder.Jps.Outcomes.{Outcome, begin-Inv, jps-Outcome, reconstruct_path-endless}
use tower_main.Pathfinder.Invariant.{update-entry}
use tower_main.Pathfinder.{contains, update, reconstruct_path}
use tower_main.Pathfinder.Frontier.{least_first, take_least}
use tower_main.Pathfinder.Jps.{
  jps, jump_rounds, jump, jump_all, jump_to, probe, is_jump_point, has_forced_neighbor, is_free,
  sub,
}

abbrev pit : Grid
pit = record {
  rows = 2;
  cols = 4;
  cells = false ∷ false ∷ true ∷ false ∷ true ∷ false ∷ false ∷ false ∷ [];
}

abbrev row : Grid
row = record { rows = 1; cols = 3; cells = false ∷ false ∷ false ∷ [] }

along_row : jps least_first row (cell 0 2) 20 (cell 0 0) ≡ ok (cell 0 0 ∷ cell 0 1 ∷ cell 0 2 ∷ [])
unfolding jps jump_rounds jump jump_all jump_to probe is_jump_point has_forced_neighbor is_free sub
    add is_inside_point point_beq is_blocked adjacents_8way manhattan_distance add_int32 sub_int32
    abs_int32 add_natural_int32 take_least contains
along_row = refl

around_pit : jps least_first pit (cell 0 3) 20 (cell 0 0) ≡ err out_of_fuel
unfolding jps jump_rounds jump jump_all jump_to probe is_jump_point has_forced_neighbor is_free sub
    add is_inside_point point_beq is_blocked adjacents_8way manhattan_distance add_int32 sub_int32
    abs_int32 add_natural_int32 take_least contains
around_pit = refl

row-IsValid : IsValid row
row-IsValid = omega arith

start-IsInt : IsInt (cell 0 0)
start-IsInt = omega arith

end_inside : Inside row (cell 0 2)
end_inside = record {
  i = 0;
  j = 2;
  row = refl;
  col = refl;
  row_lt = omega arith;
  col_lt = omega arith;
}

end-IsClose : IsClose row (cell 0 2)
end-IsClose = Inside-IsClose end_inside (omega arith)

jps-Outcome_example :
    Outcome row (cell 0 0) (cell 0 2) (jps least_first row (cell 0 2) 20 (cell 0 0))
jps-Outcome_example =
    jps-Outcome least_first row row-IsValid (cell 0 0) (cell 0 2) end-IsClose 20 start-IsInt

-- The search before its first jump.
abbrev begun : Jump
begun = record {
  open_nodes = record { f = 0; p = cell 0 0 } ∷ [];
  closed = [];
  parents = λ _. none;
}

begun-Inv : Inv row (cell 0 0) begun
begun-Inv = begin-Inv least_first row row-IsValid (cell 0 0) (cell 0 2) end-IsClose start-IsInt

jump-JumpsTo_example :
    (after : Jump) × (jump row (cell 0 2) (cell 0 0) begun ≡ ok after) × Inv row (cell 0 0) after
jump-JumpsTo_example =
    jump-JumpsTo row row-IsValid (cell 0 0) (cell 0 2) end-IsClose (cell 0 0) begun start-IsInt
      (inl refl) begun-Inv

-- Two cells that are the parents of each other, as after two probes that met.
abbrev crossed : Jump
crossed = record {
  open_nodes = [];
  closed = [];
  parents = update (update (λ _. none) (cell 0 0) (cell 0 1)) (cell 0 1) (cell 0 0);
}

right : Step row (cell 0 0) (cell 0 1)
unfolding is_blocked at_point at at_index ◌-ℤ◌
right = record {
  from_inside = record {
    i = 0;
    j = 0;
    row = refl;
    col = refl;
    row_lt = omega arith;
    col_lt = omega arith;
  };
  to_inside = record {
    i = 0;
    j = 1;
    row = refl;
    col = refl;
    row_lt = omega arith;
    col_lt = omega arith;
  };
  touches = record { apart = λ e. cc; rows = omega arith; cols = omega arith };
  free = refl;
}

left : Step row (cell 0 1) (cell 0 0)
unfolding is_blocked at_point at at_index ◌-ℤ◌
left = record {
  from_inside = right.to_inside;
  to_inside = right.from_inside;
  touches = record { apart = λ e. cc; rows = omega arith; cols = omega arith };
  free = refl;
}

first : HasParent crossed.parents (cell 0 0)
unfolding point_beq
first = (cell 0 1, refl)

second : HasParent crossed.parents (cell 0 1)
unfolding point_beq
second = (cell 0 0, refl)

crossed-Inv : Inv row (cell 0 0) crossed
crossed-Inv = record {
  linked = λ p o e.
      elim (update-entry (update (λ _. none) (cell 0 0) (cell 0 1)) (cell 0 1) p (cell 0 0) o e) [
        | inl (same, same') ↦ (rw (← same, ← same') right, inl same')
        | inr (_, old) ↦ elim (update-entry (λ _. none) (cell 0 0) p (cell 0 1) o old) [
          | inl (same, same') ↦ (rw (← same, ← same') left, inr (rw (← same') second))
          | inr (_, nowhere) ↦ absurd (cc)
        ]
      ];
  opened = λ n m. absurd m;
}

reconstruct_path-endless_example : reconstruct_path 50 crossed.parents (cell 0 1) ≡ err out_of_fuel
reconstruct_path-endless_example =
    reconstruct_path-endless row (cell 0 0) crossed crossed-Inv (cell 0 1) first second 50

-- No path from a point to itself is found.
same_point : jps least_first row (cell 0 0) 20 (cell 0 0) ≡ ok []
unfolding jps jump_rounds jump jump_all jump_to probe is_jump_point has_forced_neighbor is_free sub
    add is_inside_point point_beq is_blocked adjacents_8way manhattan_distance add_int32 sub_int32
    abs_int32 add_natural_int32 take_least contains
same_point = refl
