-- ===== src/Grid/Cells.antt =====
-- Which points lie on a valid grid, and that every read at such a point succeeds.
use tower_main.Common.{
  ℕ, ◌+◌, ◌*◌, ◌<◌, ◌≤◌, ◌^◌, ◌≡◌, refl, ◌≢◌, ◌⊎◌, inl, inr, err, overflow, Bool, true, length,
  get_elem?, get_elem?-some, some, ok, arith,
}
use tower_main.Common.Int.{
  ℤ, pos, negsuc, ◌+ℤ◌, ◌-ℤ◌, abs, sub_int32-fits, abs_int32-fits, add_natural_int32-fits,
  abs-IsInt32, sub_int32-cases, abs_int32-cases, add_natural_int32-cases,
  add_natural_int32-overflows,
}
use native.Mathlib.Nat.{mod-eq_of_lt, mul-le-mul}
use tower_main.Grid
use tower_main.Grid.{
  Grid, Point, manhattan_distance, size_mod, to_int, is_inside_point, is_blocked, at_point,
  at_index,
}

-- A grid as large as its sides say, with sides that an `int` holds.
pub record IsValid (g : Grid) : Type 0 where
  pub rows_int : g.rows < 2 ^ 31
  pub cols_int : g.cols < 2 ^ 31
  pub size : length g.cells ≡ g.rows * g.cols

-- The independent description of the points of a grid.
pub record Inside (g : Grid) (p : Point) : Type 0 where
  pub i : ℕ
  pub j : ℕ
  pub row : p.r ≡ pos i
  pub col : p.c ≡ pos j
  pub row_lt : i < g.rows
  pub col_lt : j < g.cols

abbrev pub cell : ℕ → ℕ → Point
cell i j = record { r = pos i; c = pos j }

-- The sums and differences of points over the integers, and their distance.
unfoldable pub plus : Point → Point → Point
plus p d = record { r = p.r +ℤ d.r; c = p.c +ℤ d.c }

unfoldable pub minus : Point → Point → Point
minus p d = record { r = p.r -ℤ d.r; c = p.c -ℤ d.c }

unfoldable pub distance : Point → Point → ℕ
distance p q = abs (p.r -ℤ q.r) + abs (p.c -ℤ q.c)

-- Two points touch if they differ, by at most one row and at most one column.
pub record Touches (p q : Point) : Type 0 where
  pub apart : p ≢ q
  pub rows : abs (p.r -ℤ q.r) ≤ 1
  pub cols : abs (p.c -ℤ q.c) ≤ 1

pub to_int_small : (n : ℕ) → n < 2 ^ 31 → to_int n ≡ pos n
to_int_small n h = ground arith

-- On a grid whose sides an `int` holds, `is_inside` decides `Inside`.
pub Inside-is_inside : (g : Grid) (p : Point) → IsValid g → Inside g p → is_inside_point g p ≡ true
unfolding is_inside_point
Inside-is_inside g p v k =
    rw (to_int_small g.rows v.rows_int, to_int_small g.cols v.cols_int, k.row, k.col)
      (ground (arith, k.row_lt, k.col_lt))

is_inside-parts :
    (g : Grid) (r c : ℤ)
    → IsValid g
    → Grid.is_inside g r c ≡ true
    → (i j : ℕ) × (r ≡ pos i) × (c ≡ pos j) × (i < g.rows) × (j < g.cols)
unfolding Grid.is_inside
is_inside-parts g (pos i) (pos j) v h =
    let rows = to_int_small g.rows v.rows_int in
    let cols = to_int_small g.cols v.cols_int in
    (i, j, refl, refl, ground (arith, rows, cols), ground (arith, rows, cols))
is_inside-parts g (pos i) (negsuc j) v h = ground arith
is_inside-parts g (negsuc i) (pos j) v h = ground arith
is_inside-parts g (negsuc i) (negsuc j) v h = ground arith

pub distance-zero : (p q : Point) → distance p q ≡ 0 → p ≡ q
unfolding distance ◌-ℤ◌
distance-zero p q e = ground arith

-- `manhattan_distance` returns the distance where this is an `int`.
pub manhattan_distance-fits :
    (p q : Point) → distance p q < 2 ^ 31 → manhattan_distance p q ≡ ok (distance p q)
unfolding distance manhattan_distance
manhattan_distance-fits p q h =
    let height : abs (p.r -ℤ q.r) < 2 ^ 31 = omega arith in
    let width : abs (p.c -ℤ q.c) < 2 ^ 31 = omega arith in
    rw
      (
        sub_int32-fits p.r q.r (abs-IsInt32 _ height),
        abs_int32-fits (p.r -ℤ q.r) height,
        sub_int32-fits p.c q.c (abs-IsInt32 _ width),
        abs_int32-fits (p.c -ℤ q.c) width,
      )
      (add_natural_int32-fits _ _ h)

manhattan_distance-overflows :
    (p q : Point) → 2 ^ 31 ≤ distance p q → manhattan_distance p q ≡ err overflow
unfolding distance manhattan_distance
manhattan_distance-overflows p q h = ground (
  arith,
  sub_int32-cases p.r q.r,
  sub_int32-cases p.c q.c,
  abs_int32-cases (p.r -ℤ q.r),
  abs_int32-cases (p.c -ℤ q.c),
  add_natural_int32-overflows (abs (p.r -ℤ q.r)) (abs (p.c -ℤ q.c)),
)

near_or_far : (n : ℕ) → (n < 2 ^ 31) ⊎ (2 ^ 31 ≤ n)
near_or_far n = omega arith

-- For any two points: `manhattan_distance` returns the sum of the magnitudes of the differences of their coordinates if
-- this is below 2^31, and overflows if it is not.
pub manhattan_distance-cases :
    (p q : Point)
    → (distance p q < 2 ^ 31) × (manhattan_distance p q ≡ ok (distance p q))
      ⊎ (2 ^ 31 ≤ distance p q) × (manhattan_distance p q ≡ err overflow)
manhattan_distance-cases p q = elim (near_or_far (distance p q)) [
  | inl near ↦ inl (near, manhattan_distance-fits p q near)
  | inr far ↦ inr (far, manhattan_distance-overflows p q far)
]

-- What it returns is the distance.
pub manhattan_distance-eq : (p q : Point) (d : ℕ) → manhattan_distance p q ≡ ok d → distance p q ≡ d
unfolding distance manhattan_distance
manhattan_distance-eq p q d e = ground (
  arith,
  sub_int32-cases p.r q.r,
  sub_int32-cases p.c q.c,
  abs_int32-cases (p.r -ℤ q.r),
  abs_int32-cases (p.c -ℤ q.c),
  add_natural_int32-cases (abs (p.r -ℤ q.r)) (abs (p.c -ℤ q.c)),
)

-- Two points of a grid are nearer than the sum of its sides.
pub distance-lt :
    {g : Grid} {p q : Point} → Inside g p → Inside g q → distance p q + 2 ≤ g.rows + g.cols
unfolding distance ◌-ℤ◌
distance-lt {g} {p} {q} k l =
    rw (k.row, k.col, l.row, l.col) (ground (arith, k.row_lt, k.col_lt, l.row_lt, l.col_lt))

pub is_inside-Inside : (g : Grid) (p : Point) → IsValid g → is_inside_point g p ≡ true → Inside g p
unfolding is_inside_point
is_inside-Inside g p v h =
    let (i, j, r, c, below, beside) = is_inside-parts g p.r p.c v h in
    record { i = i; j = j; row = r; col = c; row_lt = below; col_lt = beside }

index-lt : (rows cols i j : ℕ) → i < rows → j < cols → i * cols + j < rows * cols
index-lt rows cols i j h k = grind arith

cells-lt : (rows cols : ℕ) → rows < 2 ^ 31 → cols < 2 ^ 31 → rows * cols < size_mod
cells-lt rows cols h k =
    let h' : rows ≤ 2 ^ 31 = omega arith in
    let k' : cols ≤ 2 ^ 31 = omega arith in omega (arith, mul-le-mul h' k')

-- A read at a point of the grid: the cell in its row and column, with no throw and no wrap-around.
pub is_blocked_cell :
    (g : Grid) (p : Point)
    → IsValid g
    → (k : Inside g p)
    → (b : Bool) × (get_elem? g.cells (k.i * g.cols + k.j) ≡ some b) × (is_blocked g p ≡ ok b)
unfolding is_blocked
is_blocked_cell g p v k =
    let inside = index-lt g.rows g.cols k.i k.j k.row_lt k.col_lt in
    let (b, read) = get_elem?-some g.cells (k.i * g.cols + k.j) (rw v.size inside) in
    let small : k.i * g.cols + k.j < size_mod =
      omega (arith, inside, cells-lt g.rows g.cols v.rows_int v.cols_int) in
    (b, read, rw (k.row, k.col, mod-eq_of_lt small, read))
