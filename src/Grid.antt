-- ===== src/Grid.antt =====
-- tower/system/container/grid.hpp: points with `int` coordinates, and `Grid<bool>`, a row-major vector
-- of `rows * cols` cells. A true cell is blocked. `size_t` is a number below 2^64 and `int` an integer;
-- the conversions between the two, which the calls make implicitly, are written out.
pub mod Cells
mod Insertions
mod Steps
pub mod Adjacents
mod Tests
use package.tower_main.Common.{
  ℕ, ◌+◌, ◌-◌, ◌*◌, ◌%◌, ◌^◌, Bool, false, ◌&&◌, ltb, leb, if◌then◌else◌, List, [], ◌∷◌, ◌++◌,
  get_elem?, replicate, Eq, ◌==◌, Result, ok, ◌>>=◌, or_fail, out_of_range, ◌≡◌, ◌↔◌, arith,
}
use package.tower_main.Common.Int.{
  ℤ, pos, negsuc, ltb_ℤ, leb_ℤ, int_eq, add_int32, sub_int32, abs_int32, add_natural_int32,
}

abbrev pub size_mod : ℕ
size_mod = 2 ^ 64

abbrev pub add_size : ℕ → ℕ → ℕ
add_size a b = (a + b) % size_mod

abbrev pub sub_size : ℕ → ℕ → ℕ
sub_size a b = (a + size_mod - b) % size_mod

-- An `int` where a `size_t` is wanted: a negative one wraps.
abbrev pub to_size : ℤ → ℕ
to_size (pos n) = n
to_size (negsuc n) = size_mod - 1 - n

-- `static_cast<int>` of a `size_t`: the low 32 bits, in two's complement.
abbrev pub to_int : ℕ → ℤ
to_int n = let m = n % 2 ^ 32 in if ltb m (2 ^ 31) then pos m else negsuc (2 ^ 32 - 1 - m)

pub record Point : Type 0 where
  pub r : ℤ
  pub c : ℤ

-- `Point {size_t, size_t}`.
abbrev pub of_size : ℕ → ℕ → Point
of_size r c = record { r = to_int r; c = to_int c }

-- `operator==`.
unfoldable pub point_beq : Point → Point → Bool
point_beq p q = p.r == q.r && p.c == q.c

pub point_beq_iff : (p q : Point) → (point_beq p q ≡ Bool.true) ↔ (p ≡ q)
unfolding point_beq
point_beq_iff p q = ground arith

instance abbrev pub point_eq : Eq Point
point_eq = record { decides = point_beq_iff; test = point_beq }

-- `operator+`.
unfoldable pub add : Point → Point → Result Point
add p q = do r ← add_int32 p.r q.r; c ← add_int32 p.c q.c; ok (record { r = r; c = c })

unfoldable pub manhattan_distance : Point → Point → Result ℕ
manhattan_distance p q = do
  rows ← sub_int32 p.r q.r
  height ← abs_int32 rows
  cols ← sub_int32 p.c q.c
  width ← abs_int32 cols
  add_natural_int32 height width

pub record Grid : Type 0 where
  pub rows : ℕ
  pub cols : ℕ
  pub cells : List Bool

-- The constructor that makes the cells, and the one that is handed them.
unfoldable pub new : ℕ → ℕ → Grid
new rows cols = record {
  rows = rows;
  cols = cols;
  cells = replicate (rows * cols % size_mod) false;
}

unfoldable pub of_cells : List Bool → ℕ → ℕ → Grid
of_cells cells rows cols = record { rows = rows; cols = cols; cells = cells }

-- The `const` overloads of `at`, which are `std::vector::at`: they throw past the end.
unfoldable pub at_index : Grid → ℕ → Result Bool
at_index g i = or_fail (get_elem? g.cells i) out_of_range

unfoldable pub at : Grid → ℕ → ℕ → Result Bool
unfolding at_index
at g r c = at_index g ((r * g.cols + c) % size_mod)

unfoldable pub at_point : Grid → Point → Result Bool
unfolding at
at_point g p = at g (to_size p.r) (to_size p.c)

unfoldable pub is_inside : Grid → ℤ → ℤ → Bool
is_inside g r c =
    leb_ℤ (pos 0) r && leb_ℤ (pos 0) c && ltb_ℤ r (to_int g.rows) && ltb_ℤ c (to_int g.cols)

unfoldable pub is_inside_point : Grid → Point → Bool
unfolding is_inside
is_inside_point g p = is_inside g p.r p.c

unfoldable pub is_inside_index : Grid → ℕ → Bool
is_inside_index g i = ltb i (g.rows * g.cols % size_mod)

-- `static_cast<bool>(at(p))`, on a grid of `bool`.
unfoldable pub is_blocked : Grid → Point → Result Bool
unfolding at_point
is_blocked g p = at_point g p

abbrev pub emplace_if : Bool → ℕ → ℕ → List Point → List Point
emplace_if b r c adjacents = if b then adjacents ++ of_size r c ∷ [] else adjacents

module _ (g : Grid) (r c : ℕ) where
  -- The four guarded insertions with which both functions begin.
  pub emplace_straight : List Point
  emplace_straight =
      let down = emplace_if (ltb r (sub_size g.rows 1)) (add_size r 1) c [] in
      let up = emplace_if (leb 1 r) (sub_size r 1) c down in
      let right = emplace_if (ltb c (sub_size g.cols 1)) r (add_size c 1) up in
      emplace_if (leb 1 c) r (sub_size c 1) right

  pub emplace_diagonal : List Point → List Point
  emplace_diagonal straight =
      let below = ltb r (sub_size g.rows 1) in
      let beside = ltb c (sub_size g.cols 1) in
      let a = emplace_if (below && beside) (add_size r 1) (add_size c 1) straight in
      let b = emplace_if (below && leb 1 c) (add_size r 1) (sub_size c 1) a in
      let d = emplace_if (leb 1 r && beside) (sub_size r 1) (add_size c 1) b in
      emplace_if (leb 1 r && leb 1 c) (sub_size r 1) (sub_size c 1) d

  unfoldable pub get_4way_adjacents : List Point
  unfolding emplace_straight is_inside
  get_4way_adjacents = if is_inside g (to_int r) (to_int c) then emplace_straight else []

  unfoldable pub get_8way_adjacents : List Point
  unfolding emplace_straight emplace_diagonal is_inside
  get_8way_adjacents =
      if is_inside g (to_int r) (to_int c) then emplace_diagonal emplace_straight else []

-- The overloads on a point.
unfoldable pub adjacents_4way : Grid → Point → List Point
unfolding get_4way_adjacents
adjacents_4way g p = get_4way_adjacents g (to_size p.r) (to_size p.c)

unfoldable pub adjacents_8way : Grid → Point → List Point
unfolding get_8way_adjacents
adjacents_8way g p = get_8way_adjacents g (to_size p.r) (to_size p.c)
