-- ===== src/Grid/Adjacents.antt =====
-- The neighbours that `get_4way_adjacents` and `get_8way_adjacents` return, against an independent
-- description of when two points touch.
use tower_main.Common.{
  ℕ, ◌+◌, ◌-◌, ◌<◌, ◌≤◌, ◌^◌, ◌≡◌, refl, ap, ◌↔◌, ◌⊎◌, ◌∙◌, sym, subst, true, false, length, [],
  ◌∈◌, arith, ok, Bool-cases, inl, inr,
}
use tower_main.Common.Int.{ℤ, pos, negsuc, ◌-ℤ◌, pos_part, neg_part}
use tower_main.Grid
use tower_main.Grid.{
  Grid, Point, size_mod, to_int, to_size, is_inside_point, of_size, add_size, sub_size, emplace_if,
  adjacents_8way, adjacents_4way, manhattan_distance, get_8way_adjacents, get_4way_adjacents,
}
use tower_main.Grid.Cells.{
  IsValid, Touches, cell, Inside, Inside-is_inside, is_inside-Inside, to_int_small, distance,
  manhattan_distance-fits, manhattan_distance-eq,
}
use tower_main.Grid.Insertions.{
  Straight, mem-straight, mem-diagonal, straight-length, diagonal-length,
}
use tower_main.Grid.Steps.{
  Neighbour, near_cases, Straight-sound, Straight-distance, Straight-complete, Diagonal-sound,
  Diagonal-complete, row_int, col_int,
}

-- The values that the `int` coordinates of a point have.
pub record IsInt (p : Point) : Type 0 where
  pub row_above : neg_part p.r ≤ 2 ^ 31
  pub row_below : pos_part p.r < 2 ^ 31
  pub col_above : neg_part p.c ≤ 2 ^ 31
  pub col_below : pos_part p.c < 2 ^ 31

to_int-to_size : (a : ℤ) → neg_part a ≤ 2 ^ 31 → pos_part a < 2 ^ 31 → to_int (to_size a) ≡ a
to_int-to_size (pos n) h k = to_int_small n k
to_int-to_size (negsuc n) h k = ground arith

module _ (g : Grid) (v : IsValid g) (i j : ℕ) (row_lt : i < g.rows) (col_lt : j < g.cols)
    (q : Point) where
  -- The guard passes, and `size_t` and back changes nothing.
  passes : Grid.is_inside g (to_int i) (to_int j) ≡ true
  unfolding is_inside_point
  passes =
      rw (row_int g v i j row_lt col_lt q, col_int g v i j row_lt col_lt q)
        (Inside-is_inside g (cell i j) v
          (record { i = i; j = j; row = refl; col = refl; row_lt = row_lt; col_lt = col_lt }))

  abbrev Coordinate : ℕ → ℕ → Type 0
  Coordinate a b = (b ≡ a + 1) ⊎ (b ≡ a) ⊎ (1 ≤ a) × (b ≡ a - 1)

  straight : Straight g i j q → q ∈ Grid.emplace_diagonal g i j (Grid.emplace_straight g i j)
  straight s = (mem-diagonal g i j q _).1 (inl (inl (inl (inl ((mem-straight g i j q).1 s)))))

  choose :
      (k : Inside g q)
      → ¬ ((k.i ≡ i) × (k.j ≡ j))
      → Coordinate i k.i
      → Coordinate j k.j
      → q ∈ Grid.emplace_diagonal g i j (Grid.emplace_straight g i j)
  choose k apart (inr (inl e)) (inr (inl f)) = absurd (apart (e, f))
  choose k apart (inr (inl e)) (inl f) =
      straight (Straight-complete g v i j row_lt col_lt q k (inl (e, inl f)))
  choose k apart (inr (inl e)) (inr (inr f)) =
      straight (Straight-complete g v i j row_lt col_lt q k (inl (e, inr f)))
  choose k apart (inl e) (inr (inl f)) =
      straight (Straight-complete g v i j row_lt col_lt q k (inr (f, inl e)))
  choose k apart (inr (inr e)) (inr (inl f)) =
      straight (Straight-complete g v i j row_lt col_lt q k (inr (f, inr e)))
  choose k apart (inl e) (inl f) =
      (mem-diagonal g i j q _).1 (Diagonal-complete g v i j row_lt col_lt q _ k (inl e) (inl f))
  choose k apart (inl e) (inr (inr f)) =
      (mem-diagonal g i j q _).1 (Diagonal-complete g v i j row_lt col_lt q _ k (inl e) (inr f))
  choose k apart (inr (inr e)) (inl f) =
      (mem-diagonal g i j q _).1 (Diagonal-complete g v i j row_lt col_lt q _ k (inr e) (inl f))
  choose k apart (inr (inr e)) (inr (inr f)) =
      (mem-diagonal g i j q _).1 (Diagonal-complete g v i j row_lt col_lt q _ k (inr e) (inr f))

  chosen : Neighbour g i j q → q ∈ Grid.emplace_diagonal g i j (Grid.emplace_straight g i j)
  chosen (k, t) =
      choose k
        (λ e. t.apart (λ d. record {
          r = (ap pos (sym e.0) ∙ sym k.row) d;
          c = (ap pos (sym e.1) ∙ sym k.col) d;
        }))
        (near_cases i k.i (rw k.row at t.rows)) (near_cases j k.j (rw k.col at t.cols))

  mem-adjacents_8way-cell : (q ∈ adjacents_8way g (cell i j)) ↔ Neighbour g i j q
  unfolding adjacents_8way get_8way_adjacents
  mem-adjacents_8way-cell = rw passes (
    λ m.
        Diagonal-sound g v i j row_lt col_lt q _
          (λ s. Straight-sound g v i j row_lt col_lt q ((mem-straight g i j q).0 s))
          ((mem-diagonal g i j q _).0 m),
    chosen,
  )

  -- One step along one axis.
  straight-near : Inside g q → distance (cell i j) q ≡ 1 → Straight g i j q
  unfolding distance ◌-ℤ◌
  straight-near k d =
      Straight-complete g v i j row_lt col_lt q k
        (ground (arith, near_cases i k.i, near_cases j k.j, k.row, k.col))

  near-straight : Straight g i j q → distance (cell i j) q ≡ 1
  near-straight s = Straight-distance g v i j row_lt col_lt q s

  mem-adjacents_4way-cell :
      (q ∈ adjacents_4way g (cell i j)) ↔ (Inside g q × (distance (cell i j) q ≡ 1))
  unfolding adjacents_4way get_4way_adjacents
  mem-adjacents_4way-cell = rw passes (
    λ m.
        let s = (mem-straight g i j q).0 m in
        ((Straight-sound g v i j row_lt col_lt q s).0, near-straight s),
    λ n. (mem-straight g i j q).1 (straight-near n.0 n.1),
  )

module _ (g : Grid) (p q : Point) (v : IsValid g) where
  at_cell : (k : Inside g p) → p ≡ cell k.i k.j
  at_cell k = λ d. record { r = k.row d; c = k.col d }

  -- Off the grid both functions return at once.
  off_grid :
      IsInt p
      → is_inside_point g p ≡ false
      → (adjacents_8way g p ≡ []) × (adjacents_4way g p ≡ []) × ¬ Inside g p
  unfolding adjacents_8way get_8way_adjacents adjacents_4way get_4way_adjacents is_inside_point
  off_grid n off =
      let same = to_int-to_size p.r n.row_above n.row_below in
      let same' = to_int-to_size p.c n.col_above n.col_below in
      (rw (same, same', off), rw (same, same', off), λ k. cc (Inside-is_inside g p v k))

-- On a valid grid, for a point `p` with `int` coordinates: `q` is among the neighbours that `get_8way_adjacents`
-- returns for `p` exactly if both lie on the grid and `q` touches `p`.
pub mem-adjacents_8way :
    (g : Grid) (p q : Point)
    → IsValid g
    → IsInt p
    → (q ∈ adjacents_8way g p) ↔ (Inside g p × Inside g q × Touches p q)
mem-adjacents_8way g p q v n = elim (Bool-cases (is_inside_point g p)) [
  | inl on ↦
      let k = is_inside-Inside g p v on in
      let there = mem-adjacents_8way-cell g v k.i k.j k.row_lt k.col_lt q in
      let e = at_cell g p q v k in
      (
        λ m.
            let t = there.0 (subst (λ x. q ∈ adjacents_8way g x) e m) in
            (k, t.0, subst (λ x. Touches x q) (sym e) t.1),
        λ t.
            subst (λ x. q ∈ adjacents_8way g x) (sym e)
              (there.1 (t.1, subst (λ x. Touches x q) e t.2)),
      )
  | inr off ↦
      let (empty, _, outside) = off_grid g p q v n off in
      (λ m. absurd (subst (λ xs. q ∈ xs) empty m), λ t. absurd (outside t.0))
]

-- On a valid grid, for a point `p` with `int` coordinates: `q` is among the neighbours that `get_4way_adjacents`
-- returns for `p` exactly if both lie on the grid, at Manhattan distance 1.
pub mem-adjacents_4way :
    (g : Grid) (p q : Point)
    → IsValid g
    → IsInt p
    → (q ∈ adjacents_4way g p) ↔ (Inside g p × Inside g q × (manhattan_distance p q ≡ ok 1))
mem-adjacents_4way g p q v n = elim (Bool-cases (is_inside_point g p)) [
  | inl on ↦
      let k = is_inside-Inside g p v on in
      let there = mem-adjacents_4way-cell g v k.i k.j k.row_lt k.col_lt q in
      let e = at_cell g p q v k in
      (
        λ m.
            let t = there.0 (subst (λ x. q ∈ adjacents_4way g x) e m) in
            let near = ap (λ x. distance x q) e ∙ t.1 in
            (
              k,
              t.0,
              manhattan_distance-fits p q (rw near (omega arith)) ∙ ap (λ (d : ℕ). ok d) near,
            ),
        λ t.
            subst (λ x. q ∈ adjacents_4way g x) (sym e)
              (there.1 (t.1, ap (λ x. distance x q) (sym e) ∙ manhattan_distance-eq p q 1 t.2)),
      )
  | inr off ↦
      let (_, empty, outside) = off_grid g p q v n off in
      (λ m. absurd (subst (λ xs. q ∈ xs) empty m), λ t. absurd (outside t.0))
]

pub Inside-IsInt : {g : Grid} {p : Point} → IsValid g → Inside g p → IsInt p
Inside-IsInt {g} {p} v k =
    let row = k.row in
    let col = k.col in
    record {
      row_above = rw row (omega arith);
      row_below = rw row (omega (arith, k.row_lt, v.rows_int));
      col_above = rw col (omega arith);
      col_below = rw col (omega (arith, k.col_lt, v.cols_int));
    }

pub adjacents_8way-length : (g : Grid) (p : Point) → length (adjacents_8way g p) ≤ 8
unfolding adjacents_8way get_8way_adjacents
adjacents_8way-length g p =
    let r = to_size p.r in
    let c = to_size p.c in
    let straight = straight-length g r c in
    let diagonal = diagonal-length g r c (Grid.emplace_straight g r c) in
    elim (Bool-cases (Grid.is_inside g (to_int r) (to_int c))) [
      | inl on ↦ rw on (omega arith)
      | inr off ↦ rw off (omega arith)
    ]
