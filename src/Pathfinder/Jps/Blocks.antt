-- ===== src/Pathfinder/Jps/Blocks.antt =====
-- The points that a probe computes near a point of the grid are `int`s, so that its sums and differences do not overflow.
use tower_main.Common.{ℕ, ◌+◌, ◌≤◌, ◌<◌, ◌^◌, ◌≡◌, refl, Result, ok, arith}
use tower_main.Common.Int.{ℤ, pos, ◌+ℤ◌, ◌-ℤ◌, abs, IsInt32, add_int32-fits, sub_int32-fits}
use tower_main.Grid.{Grid, Point, add}
use tower_main.Grid.Cells.{IsValid, Inside, plus, minus, distance, distance-lt}
use tower_main.Grid.Adjacents.{IsInt}
use tower_main.Pathfinder.Jps.{sub}

pub add-plus : (p d : Point) → IsInt (plus p d) → add p d ≡ ok (plus p d)
unfolding add plus
add-plus p d i =
    rw
      (
        add_int32-fits p.r d.r (i.row_above, i.row_below),
        add_int32-fits p.c d.c (i.col_above, i.col_below),
      )
      refl

pub sub-minus : (p d : Point) → IsInt (minus p d) → sub p d ≡ ok (minus p d)
unfolding sub minus
sub-minus p d i =
    rw
      (
        sub_int32-fits p.r d.r (i.row_above, i.row_below),
        sub_int32-fits p.c d.c (i.col_above, i.col_below),
      )
      refl

near-IsInt32 :
    (n i : ℕ) (a : ℤ) → i < n → n < 2 ^ 31 → abs a ≤ 1 → IsInt32 (pos i +ℤ a) × IsInt32 (pos i -ℤ a)
unfolding ◌+ℤ◌ ◌-ℤ◌
near-IsInt32 n i a h k l = ground arith

beyond-IsInt32 :
    (n i : ℕ) (a b : ℤ)
    → i < n
    → n < 2 ^ 31
    → abs a + abs b ≤ 1
    → IsInt32 (pos i +ℤ a +ℤ b) × IsInt32 (pos i -ℤ a +ℤ b)
unfolding ◌+ℤ◌ ◌-ℤ◌
beyond-IsInt32 n i a b h k l = ground arith

of_axes : (p : Point) → IsInt32 p.r → IsInt32 p.c → IsInt p
of_axes p row col = record {
  row_above = row.0;
  row_below = row.1;
  col_above = col.0;
  col_below = col.1;
}

-- A sum or a difference that is computed, and a further sum.
abbrev pub Reaches : Result Point → Point → Type 0
Reaches r b = (q : Point) × (r ≡ ok q) × IsInt (plus q b)

module _ {grid : Grid} (valid : IsValid grid) {p : Point} (k : Inside grid p) (a : Point) where
  -- The points at most one away along each axis.
  pub near-IsInt : abs a.r ≤ 1 → abs a.c ≤ 1 → IsInt (plus p a) × IsInt (minus p a)
  unfolding plus minus
  near-IsInt rows cols =
      let row = near-IsInt32 grid.rows k.i a.r k.row_lt valid.rows_int rows in
      let col = near-IsInt32 grid.cols k.j a.c k.col_lt valid.cols_int cols in
      rw (k.row, k.col) (of_axes _ row.0 col.0, of_axes _ row.1 col.1)

  -- The same, reached in two steps.
  pub beyond-IsInt :
      (b : Point)
      → abs a.r + abs b.r ≤ 1
      → abs a.c + abs b.c ≤ 1
      → IsInt (plus (plus p a) b) × IsInt (plus (minus p a) b)
  unfolding plus minus
  beyond-IsInt b rows cols =
      let row = beyond-IsInt32 grid.rows k.i a.r b.r k.row_lt valid.rows_int rows in
      let col = beyond-IsInt32 grid.cols k.j a.c b.c k.col_lt valid.cols_int cols in
      rw (k.row, k.col) (of_axes _ row.0 col.0, of_axes _ row.1 col.1)

  pub add-Reaches :
      (b : Point) → abs a.r + abs b.r ≤ 1 → abs a.c + abs b.c ≤ 1 → Reaches (add p a) b
  add-Reaches b rows cols =
      let near = near-IsInt (omega arith) (omega arith) in
      (plus p a, add-plus p a near.0, (beyond-IsInt b rows cols).0)

  pub sub-Reaches :
      (b : Point) → abs a.r + abs b.r ≤ 1 → abs a.c + abs b.c ≤ 1 → Reaches (sub p a) b
  sub-Reaches b rows cols =
      let near = near-IsInt (omega arith) (omega arith) in
      (minus p a, sub-minus p a near.1, (beyond-IsInt b rows cols).1)

-- A point whose distance from each point of the grid an `int` holds.
abbrev pub IsClose : Grid → Point → Type 0
IsClose grid end = (q : Point) → Inside grid q → distance q end < 2 ^ 31

pub Inside-IsClose :
    {grid : Grid} {end : Point}
    → Inside grid end
    → grid.rows + grid.cols < 2 ^ 31
    → IsClose grid end
Inside-IsClose there small q k = omega (arith, distance-lt k there)
