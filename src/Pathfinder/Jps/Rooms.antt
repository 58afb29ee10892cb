-- ===== src/Pathfinder/Jps/Rooms.antt =====
-- The directions of a probe, and how many steps a probe can make before it leaves the grid.
use tower_main.Common.{
  ℕ, suc, ◌+◌, ◌-◌, ◌≤◌, ◌<◌, ◌≡◌, refl, ap, ◌⊎◌, inl, inr, true, if◌then◌else◌, ◌==◌, nat_eq,
  arith,
}
use tower_main.Common.Int.{ℤ, pos, negsuc, pos_part, neg_part, ◌+ℤ◌, ◌-ℤ◌, abs, int_eq}
use tower_main.Grid.{Grid, Point}
use tower_main.Grid.Cells.{Inside, Touches, plus, minus}
use tower_main.Pathfinder.Jps.{row_only, col_only, is_diagonal}

-- One step, straight or diagonal.
pub record IsDirection (d : Point) : Type 0 where
  pub row_step : abs d.r ≤ 1
  pub col_step : abs d.c ≤ 1
  pub moves : 1 ≤ abs d.r + abs d.c

-- The steps along one axis of length `n` from `x`, the last of which leads outside.
abbrev pub axis_room : ℕ → ℤ → ℤ → ℕ
axis_room n x (pos d) = if d == 0 then 0 else n - pos_part x
axis_room n x (negsuc d) = suc (pos_part x) - neg_part x

abbrev pub room : Grid → Point → Point → ℕ
room grid p d = axis_room grid.rows p.r d.r + axis_room grid.cols p.c d.c

axis_room-step :
    (n i : ℕ) (d : ℤ)
    → i < n
    → abs d ≤ 1
    → axis_room n (pos i +ℤ d) d + abs d ≤ axis_room n (pos i) d
unfolding ◌+ℤ◌
axis_room-step n i d h k = ground arith

axis_room-le : (n i : ℕ) (d : ℤ) → i < n → axis_room n (pos i) d ≤ n
axis_room-le n i d h = ground arith

-- A probe from a point of the grid has no more room than the grid has rows and columns.
pub room-le : (grid : Grid) (p d : Point) → Inside grid p → room grid p d ≤ grid.rows + grid.cols
room-le grid p d k =
    rw (k.row, k.col)
      (omega
        (arith, axis_room-le grid.rows k.i d.r k.row_lt, axis_room-le grid.cols k.j d.c k.col_lt))

-- A step takes some of the room.
pub room-step :
    (grid : Grid) (p d : Point)
    → Inside grid p
    → IsDirection d
    → room grid (plus p d) d < room grid p d
unfolding plus
room-step grid p d k i =
    rw (k.row, k.col)
      (omega (
        arith,
        axis_room-step grid.rows k.i d.r k.row_lt i.row_step,
        axis_room-step grid.cols k.j d.c k.col_lt i.col_step,
        i.moves,
      ))

axis_room-stay : (n : ℕ) (x : ℤ) → axis_room n x (pos 0) ≡ 0
axis_room-stay n x = refl

pub diagonal-row : (d : Point) → IsDirection d → is_diagonal d ≡ true → IsDirection (row_only d)
diagonal-row d i e = record {
  row_step = i.row_step;
  col_step = omega arith;
  moves = ground (arith, e);
}

pub diagonal-col : (d : Point) → IsDirection d → is_diagonal d ≡ true → IsDirection (col_only d)
diagonal-col d i e = record {
  row_step = omega arith;
  col_step = i.col_step;
  moves = ground (arith, e);
}

-- The first steps of the two probes that a diagonal one starts take some of its room as well.
pub room-row :
    (grid : Grid) (p d : Point)
    → Inside grid p
    → IsDirection (row_only d)
    → room grid (plus p (row_only d)) (row_only d) < room grid p d
unfolding plus
room-row grid p d k i =
    rw (k.row, k.col) (omega (arith, axis_room-step grid.rows k.i d.r k.row_lt i.row_step, i.moves))

pub room-col :
    (grid : Grid) (p d : Point)
    → Inside grid p
    → IsDirection (col_only d)
    → room grid (plus p (col_only d)) (col_only d) < room grid p d
unfolding plus
room-col grid p d k i =
    rw (k.row, k.col) (omega (arith, axis_room-step grid.cols k.j d.c k.col_lt i.col_step, i.moves))

cancel_step : (x d : ℤ) → x +ℤ d -ℤ d ≡ x
unfolding ◌+ℤ◌ ◌-ℤ◌
cancel_step x d = ground arith

cancel_difference : (x y : ℤ) → y -ℤ (y -ℤ x) ≡ x
unfolding ◌-ℤ◌
cancel_difference x y = ground arith

-- The point before the next one of a probe is the one that it comes from.
pub minus-plus : (p d : Point) → minus (plus p d) d ≡ p
unfolding minus plus
minus-plus p d = rw (cancel_step p.r d.r, cancel_step p.c d.c)

pub minus-minus : (p q : Point) → minus q (minus q p) ≡ p
unfolding minus
minus-minus p q = rw (cancel_difference p.r q.r, cancel_difference p.c q.c)

abs_flip : (x y : ℤ) → abs (x -ℤ y) ≤ 1 → abs (y -ℤ x) ≤ 1
unfolding ◌-ℤ◌
abs_flip x y h = ground arith

zero-eq : (x y : ℤ) → abs (x -ℤ y) ≡ 0 → y ≡ x
unfolding ◌-ℤ◌
zero-eq x y h = ground arith

some_step : (a b : ℕ) → (1 ≤ a + b) ⊎ ((a ≡ 0) × (b ≡ 0))
some_step a b = omega arith

pub Touches-IsDirection : (p q : Point) → Touches p q → IsDirection (minus q p)
unfolding minus
Touches-IsDirection p q t = record {
  row_step = abs_flip p.r q.r t.rows;
  col_step = abs_flip p.c q.c t.cols;
  moves = elim (some_step (abs (q.r -ℤ p.r)) (abs (q.c -ℤ p.c))) [
    | inl some_moved ↦ some_moved
    | inr (a, b) ↦
        (let e = zero-eq q.r p.r a in let f = zero-eq q.c p.c b in absurd (t.apart (cc (e, f))))
  ];
}

back : (x d : ℤ) → abs d ≤ 1 → abs (x -ℤ d -ℤ x) ≤ 1
unfolding ◌-ℤ◌
back x d h = ground arith

stands_still : (x d : ℤ) → x -ℤ d ≡ x → abs d ≡ 0
unfolding ◌-ℤ◌
stands_still x d e = ground arith

-- The point that a probe comes from touches the one that it has reached.
pub minus-Touches : (p d : Point) → IsDirection d → Touches (minus p d) p
unfolding minus
minus-Touches p d i = record {
  apart = λ e.
      (let f = stands_still p.r d.r (ap (λ (k : Point). k.r) e) in
        let g = stands_still p.c d.c (ap (λ (k : Point). k.c) e) in omega (arith, f, g, i.moves));
  rows = back p.r d.r i.row_step;
  cols = back p.c d.c i.col_step;
}
