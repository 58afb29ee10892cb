-- ===== src/Pathfinder/Jps/Answers.antt =====
-- The tests of a probe throw nothing at a point of the grid.
use tower_main.Common.{
  ◌≡◌, refl, ap, ◌∙◌, ◌⊎◌, inl, inr, Bool, true, false, not, ◌==◌, Bool-cases, Result, ok, arith,
}
use tower_main.Common.Int.{pos, abs, int_eq}
use tower_main.Grid.{Grid, Point, point_eq, is_inside_point, is_blocked}
use tower_main.Grid.Cells.{IsValid, Inside, is_inside-Inside, is_blocked_cell, plus}
use tower_main.Grid.Adjacents.{IsInt}
use tower_main.Pathfinder.Jps.{
  row_only, col_only, row_unit, col_unit, is_diagonal, or_else, is_free, has_forced_neighbor,
  either_forced, is_jump_point,
}
use tower_main.Pathfinder.Jps.Rooms.{IsDirection}
use tower_main.Pathfinder.Jps.Blocks.{add-plus, Reaches, add-Reaches, sub-Reaches}

-- A test that throws nothing.
abbrev pub Answers : Result Bool → Type 0
Answers r = (b : Bool) × (r ≡ ok b)

or_else-Answers : (a b : Result Bool) → Answers a → Answers b → Answers (or_else a b)
or_else-Answers a b (true, e) (y, f) = (true, rw e)
or_else-Answers a b (false, e) (y, f) = (y, rw e f)

along_rows : (d : Point) → is_diagonal d ≡ false → not (d.r == pos 0) ≡ true → abs d.c ≡ 0
along_rows d t u = ground arith

along_cols : (d : Point) → not (d.r == pos 0) ≡ false → abs d.r ≡ 0
along_cols d u = ground arith

module _ (grid : Grid) (valid : IsValid grid) where
  -- `is_free` holds at a point of the grid that is not blocked, and only there.
  pub is_free-cases :
      (p : Point)
      → ((is_free grid p ≡ ok true) × Inside grid p × (is_blocked grid p ≡ ok false))
        ⊎ (is_free grid p ≡ ok false)
  unfolding is_free
  is_free-cases p = elim (Bool-cases (is_inside_point grid p)) [
    | inr off ↦ inr (rw off)
    | inl on ↦
        let k = is_inside-Inside grid p valid on in
        let (b, _, read) = is_blocked_cell grid p valid k in
        elim (Bool-cases b) [
          | inl t ↦ inr (rw (on, read, t))
          | inr t ↦ inl (rw (on, read, t), k, read ∙ ap (λ c. ok c) t)
        ]
  ]

  is_free-Answers : (p : Point) → Answers (is_free grid p)
  is_free-Answers p = elim (is_free-cases p) [ inl (e, _, _) ↦ (true, e) | inr e ↦ (false, e) ]

  has_forced_neighbor-Answers :
      (p d : Point) → IsInt (plus p d) → Answers (has_forced_neighbor grid p d)
  unfolding has_forced_neighbor
  has_forced_neighbor-Answers p d int =
      rw (add-plus p d int) (elim (Bool-cases (is_inside_point grid p)) [
        | inr off ↦ (false, rw off)
        | inl on ↦
            let (b, _, read) = is_blocked_cell grid p valid (is_inside-Inside grid p valid on) in
            let (free, e) = is_free-Answers (plus p d) in
            elim (Bool-cases b) [
              | inl t ↦ (free, rw (on, read, t, e))
              | inr t ↦ (false, rw (on, read, t))
            ]
      ])

  either_forced-Answers :
      (first second : Result Point) (d d' : Point)
      → Reaches first d
      → Reaches second d'
      → Answers (either_forced grid first d second d')
  either_forced-Answers first second d d' (a, e, int) (b, e', int') =
      rw (e, e')
        (or_else-Answers _ _ (has_forced_neighbor-Answers a d int)
          (has_forced_neighbor-Answers b d' int'))

  pub is_jump_point-Answers :
      (p d : Point) → Inside grid p → IsDirection d → Answers (is_jump_point grid p d)
  unfolding is_jump_point
  is_jump_point-Answers p d k i = elim (Bool-cases (is_diagonal d)) [
    | inl t ↦ rw t (
        either_forced-Answers _ _ _ _
          (sub-Reaches valid k (col_only d) (row_only d) (omega (arith, i.row_step))
            (omega (arith, i.col_step)))
          (sub-Reaches valid k (row_only d) (col_only d) (omega (arith, i.row_step))
            (omega (arith, i.col_step))))
    | inr t ↦ elim (Bool-cases (not (d.r == pos 0))) [
      | inl u ↦
          let still = along_rows d t u in
          rw (t, u)
            (either_forced-Answers _ _ _ _
              (add-Reaches valid k col_unit d (omega (arith, i.row_step)) (omega arith))
              (sub-Reaches valid k col_unit d (omega (arith, i.row_step)) (omega arith)))
      | inr u ↦ elim (Bool-cases (not (d.c == pos 0))) [
        | inl v ↦
            let still = along_cols d u in
            rw (t, u, v)
              (either_forced-Answers _ _ _ _
                (add-Reaches valid k row_unit d (omega arith) (omega (arith, i.col_step)))
                (sub-Reaches valid k row_unit d (omega arith) (omega (arith, i.col_step))))
        | inr v ↦ rw (t, u, v) (false, refl)
      ]
    ]
  ]

  pub direction-IsInt : (d : Point) → IsDirection d → IsInt d
  direction-IsInt d i = record {
    row_above = ground (arith, i.row_step);
    row_below = ground (arith, i.row_step);
    col_above = ground (arith, i.col_step);
    col_below = ground (arith, i.col_step);
  }
