-- ===== src/Grid/Steps.antt =====
-- The eight steps from a point of a valid grid: what the guards of the source test, and the
-- coordinates to which the wrapping arithmetic of the source comes.
use tower_main.Common.{
  ℕ, ◌+◌, ◌-◌, ◌<◌, ◌≤◌, ◌^◌, ◌≡◌, ap, ◌≢◌, ◌↔◌, ◌⊎◌, ◌∙◌, true, ltb, leb, arith, inl, inr,
}
use tower_main.Common.Int.{pos, ◌-ℤ◌, abs}
use tower_main.Grid.{Grid, Point, to_int, of_size, add_size, sub_size}
use tower_main.Grid.Cells.{IsValid, Touches, cell, Inside, to_int_small, distance}
use tower_main.Grid.Insertions.{and_left, and_right, and_both, below, beside, Straight, Diagonal}

-- A step along one axis of `n` places: its guard, and the coordinate that it leads to.
module _ (n a : ℕ) (h : n < 2 ^ 31) (lt : a < n) where
  next_guard : (ltb a (sub_size n 1) ≡ true) ↔ (a + 1 < n)
  next_guard = (λ e. ground arith, λ e. ground arith)

  next_int : a + 1 < n → to_int (add_size a 1) ≡ pos (a + 1)
  next_int e = ground arith

  last_int : 1 ≤ a → to_int (sub_size a 1) ≡ pos (a - 1)
  last_int e = ground arith

last_guard : (a : ℕ) → (leb 1 a ≡ true) ↔ (1 ≤ a)
last_guard a = (λ e. ground arith, λ e. ground arith)

abbrev pub Neighbour : Grid → ℕ → ℕ → Point → Type 0
Neighbour g i j q = Inside g q × Touches (cell i j) q

-- Where a place at most one away lies.
pub near_cases :
    (a b : ℕ) → abs (pos a -ℤ pos b) ≤ 1 → (b ≡ a + 1) ⊎ (b ≡ a) ⊎ (1 ≤ a) × (b ≡ a - 1)
unfolding ◌-ℤ◌
near_cases a b h = ground arith

module _ (g : Grid) (v : IsValid g) (i j : ℕ) (row_lt : i < g.rows) (col_lt : j < g.cols)
    (q : Point) where
  cell-Neighbour :
      (a b : ℕ)
      → (q.r ≡ pos a) × (q.c ≡ pos b)
      → (a < g.rows) × (b < g.cols)
      → (a ≤ i + 1) × (i ≤ a + 1) × (b ≤ j + 1) × (j ≤ b + 1) × ((a ≢ i) ⊎ (b ≢ j))
      → Neighbour g i j q
  unfolding ◌-ℤ◌
  cell-Neighbour a b e k n = (
    record { i = a; j = b; row = e.0; col = e.1; row_lt = k.0; col_lt = k.1 },
    record { apart = λ same. ground arith; rows = ground arith; cols = ground arith },
  )

-- The two coordinates of an inserted point, and back.
coordinates :
    (q : Point) (r c a b : ℕ)
    → to_int r ≡ pos a
    → to_int c ≡ pos b
    → (q ≡ of_size r c) ↔ ((q.r ≡ pos a) × (q.c ≡ pos b))
coordinates q r c a b h k = (λ e. ground arith, λ e. ground arith)

module _ (g : Grid) (v : IsValid g) (i j : ℕ) (row_lt : i < g.rows) (col_lt : j < g.cols)
    (q : Point) where
  inserted :
      (r c a b : ℕ)
      → to_int r ≡ pos a
      → to_int c ≡ pos b
      → (a < g.rows) × (b < g.cols)
      → (a ≤ i + 1) × (i ≤ a + 1) × (b ≤ j + 1) × (j ≤ b + 1) × ((a ≢ i) ⊎ (b ≢ j))
      → q ≡ of_size r c
      → Neighbour g i j q
  inserted r c a b h k inside near e =
      cell-Neighbour g v i j row_lt col_lt q a b ((coordinates q r c a b h k).0 e) inside near

  down_int : i + 1 < g.rows → to_int (add_size i 1) ≡ pos (i + 1)
  down_int = next_int g.rows i v.rows_int row_lt

  right_int : j + 1 < g.cols → to_int (add_size j 1) ≡ pos (j + 1)
  right_int = next_int g.cols j v.cols_int col_lt

  up_int : 1 ≤ i → to_int (sub_size i 1) ≡ pos (i - 1)
  up_int = last_int g.rows i v.rows_int row_lt

  left_int : 1 ≤ j → to_int (sub_size j 1) ≡ pos (j - 1)
  left_int = last_int g.cols j v.cols_int col_lt

  pub row_int : to_int i ≡ pos i
  row_int = to_int_small i (omega (arith, row_lt, v.rows_int))

  pub col_int : to_int j ≡ pos j
  col_int = to_int_small j (omega (arith, col_lt, v.cols_int))

  below_iff : (below g i ≡ true) ↔ (i + 1 < g.rows)
  below_iff = next_guard g.rows i v.rows_int row_lt

  beside_iff : (beside g j ≡ true) ↔ (j + 1 < g.cols)
  beside_iff = next_guard g.cols j v.cols_int col_lt

  pub Straight-sound : Straight g i j q → Neighbour g i j q
  Straight-sound (inl (inl (inl (inl m)))) = absurd m
  Straight-sound (inl (inl (inl (inr (b, e))))) =
      let n = below_iff.0 b in
      inserted _ _ (i + 1) j (down_int n) col_int (n, col_lt) (omega arith) e
  Straight-sound (inl (inl (inr (b, e)))) =
      let n = (last_guard i).0 b in
      inserted _ _ (i - 1) j (up_int n) col_int (omega arith) (omega arith) e
  Straight-sound (inl (inr (b, e))) =
      let n = beside_iff.0 b in
      inserted _ _ i (j + 1) row_int (right_int n) (row_lt, n) (omega arith) e
  Straight-sound (inr (b, e)) =
      let n = (last_guard j).0 b in
      inserted _ _ i (j - 1) row_int (left_int n) (omega arith) (omega arith) e

  pub Diagonal-sound :
      (X : Type 0) → (X → Neighbour g i j q) → Diagonal g i j q X → Neighbour g i j q
  Diagonal-sound X h (inl (inl (inl (inl m)))) = h m
  Diagonal-sound X h (inl (inl (inl (inr (b, e))))) =
      let n : i + 1 < g.rows = below_iff.0 (and_left (beside g j) b) in
      let m : j + 1 < g.cols = beside_iff.0 (and_right (below g i) b) in
      inserted _ _ (i + 1) (j + 1) (down_int n) (right_int m) (n, m) (omega arith) e
  Diagonal-sound X h (inl (inl (inr (b, e)))) =
      let n : i + 1 < g.rows = below_iff.0 (and_left (leb 1 j) b) in
      let m : 1 ≤ j = (last_guard j).0 (and_right (below g i) b) in
      inserted _ _ (i + 1) (j - 1) (down_int n) (left_int m) (omega arith) (omega arith) e
  Diagonal-sound X h (inl (inr (b, e))) =
      let n : 1 ≤ i = (last_guard i).0 (and_left (beside g j) b) in
      let m : j + 1 < g.cols = beside_iff.0 (and_right (leb 1 i) b) in
      inserted _ _ (i - 1) (j + 1) (up_int n) (right_int m) (omega arith) (omega arith) e
  Diagonal-sound X h (inr (b, e)) =
      let n : 1 ≤ i = (last_guard i).0 (and_left (leb 1 j) b) in
      let m : 1 ≤ j = (last_guard j).0 (and_right (leb 1 i) b) in
      inserted _ _ (i - 1) (j - 1) (up_int n) (left_int m) (omega arith) (omega arith) e

  -- Each straight step is one long.
  pub Straight-distance : Straight g i j q → distance (cell i j) q ≡ 1
  unfolding distance ◌-ℤ◌
  Straight-distance (inl (inl (inl (inl m)))) = absurd m
  Straight-distance (inl (inl (inl (inr (b, e))))) =
      let there = (coordinates q _ _ _ _ (down_int (below_iff.0 b)) col_int).0 e in
      ground (arith, there)
  Straight-distance (inl (inl (inr (b, e)))) =
      let n : 1 ≤ i = (last_guard i).0 b in
      let there = (coordinates q _ _ _ _ (up_int n) col_int).0 e in ground (arith, there)
  Straight-distance (inl (inr (b, e))) =
      let there = (coordinates q _ _ _ _ row_int (right_int (beside_iff.0 b))).0 e in
      ground (arith, there)
  Straight-distance (inr (b, e)) =
      let n : 1 ≤ j = (last_guard j).0 b in
      let there = (coordinates q _ _ _ _ row_int (left_int n)).0 e in ground (arith, there)

  place :
      (r c a b : ℕ)
      → to_int r ≡ pos a
      → to_int c ≡ pos b
      → (k : Inside g q) → (k.i ≡ a) × (k.j ≡ b)
      → q ≡ of_size r c
  place r c a b h l k e = (coordinates q r c a b h l).1 (k.row ∙ ap pos e.0, k.col ∙ ap pos e.1)

  pub Straight-complete :
      (k : Inside g q)
      → (k.i ≡ i) × ((k.j ≡ j + 1) ⊎ (1 ≤ j) × (k.j ≡ j - 1))
        ⊎ (k.j ≡ j) × ((k.i ≡ i + 1) ⊎ (1 ≤ i) × (k.i ≡ i - 1))
      → Straight g i j q
  Straight-complete k (inl (e, inl f)) =
      let n : j + 1 < g.cols = omega (arith, k.col_lt) in
      inl (inr (beside_iff.1 n, place _ _ i (j + 1) row_int (right_int n) k (e, f)))
  Straight-complete k (inl (e, inr (n, f))) =
      inr ((last_guard j).1 n, place _ _ i (j - 1) row_int (left_int n) k (e, f))
  Straight-complete k (inr (e, inl f)) =
      let n : i + 1 < g.rows = omega (arith, k.row_lt) in
      inl (inl (inl (inr (below_iff.1 n, place _ _ (i + 1) j (down_int n) col_int k (f, e)))))
  Straight-complete k (inr (e, inr (n, f))) =
      inl (inl (inr ((last_guard i).1 n, place _ _ (i - 1) j (up_int n) col_int k (f, e))))

  pub Diagonal-complete :
      (X : Type 0) (k : Inside g q)
      → (k.i ≡ i + 1) ⊎ (1 ≤ i) × (k.i ≡ i - 1)
      → (k.j ≡ j + 1) ⊎ (1 ≤ j) × (k.j ≡ j - 1)
      → Diagonal g i j q X
  Diagonal-complete X k (inl e) (inl f) =
      let n : i + 1 < g.rows = omega (arith, k.row_lt) in
      let m : j + 1 < g.cols = omega (arith, k.col_lt) in
      let there = place _ _ (i + 1) (j + 1) (down_int n) (right_int m) k (e, f) in
      inl (inl (inl (inr (and_both (below_iff.1 n) (beside_iff.1 m), there))))
  Diagonal-complete X k (inl e) (inr (m, f)) =
      let n : i + 1 < g.rows = omega (arith, k.row_lt) in
      let there = place _ _ (i + 1) (j - 1) (down_int n) (left_int m) k (e, f) in
      inl (inl (inr (and_both (below_iff.1 n) ((last_guard j).1 m), there)))
  Diagonal-complete X k (inr (n, e)) (inl f) =
      let m : j + 1 < g.cols = omega (arith, k.col_lt) in
      let there = place _ _ (i - 1) (j + 1) (up_int n) (right_int m) k (e, f) in
      inl (inr (and_both ((last_guard i).1 n) (beside_iff.1 m), there))
  Diagonal-complete X k (inr (n, e)) (inr (m, f)) =
      let there = place _ _ (i - 1) (j - 1) (up_int n) (left_int m) k (e, f) in
      inr (and_both ((last_guard i).1 n) ((last_guard j).1 m), there)
