-- ===== src/Pathfinder/Unclosed.antt =====
-- How many cells of the grid the search has still to settle: the measure of its loop.
use tower_main.Common.{
  ℕ, zero, suc, ◌+◌, ◌*◌, ◌≤◌, ◌<◌, ◌≡◌, inl, inr, false, List, ◌∷◌, if◌then◌else◌, arith, ==-cases,
  beq_refl, nat_eq,
}
use tower_main.Grid.{Point, point_eq}
use tower_main.Grid.Cells.{cell}
use tower_main.Pathfinder.{contains}

abbrev open_cell : List Point → ℕ → ℕ → ℕ
open_cell closed i j = if contains (cell i j) closed then 0 else 1

unclosed_row : List Point → ℕ → ℕ → ℕ
unclosed_row closed i zero = 0
unclosed_row closed i (suc n) = unclosed_row closed i n + open_cell closed i n

pub unclosed : List Point → ℕ → ℕ → ℕ
unclosed closed zero n = 0
unclosed closed (suc m) n = unclosed closed m n + unclosed_row closed m n

unclosed_row-le : (closed : List Point) (i n : ℕ) → unclosed_row closed i n ≤ n
unfolding unclosed_row
unclosed_row-le closed i zero = omega arith
unclosed_row-le closed i (suc n) = ground (arith, unclosed_row-le closed i n)

pub unclosed-le : (closed : List Point) (m n : ℕ) → unclosed closed m n ≤ m * n
unfolding unclosed
unclosed-le closed zero n = omega arith
unclosed-le closed (suc m) n = omega (arith, unclosed-le closed m n, unclosed_row-le closed m n)

module _ (p : Point) (closed : List Point) where
  open_cell-cons : (i j : ℕ) → open_cell (p ∷ closed) i j ≤ open_cell closed i j
  unfolding contains
  open_cell-cons i j = ground arith

  row-cons : (i n : ℕ) → unclosed_row (p ∷ closed) i n ≤ unclosed_row closed i n
  unfolding unclosed_row
  row-cons i zero = omega arith
  row-cons i (suc n) = omega (arith, row-cons i n, open_cell-cons i n)

  pub unclosed-cons : (m n : ℕ) → unclosed (p ∷ closed) m n ≤ unclosed closed m n
  unfolding unclosed
  unclosed-cons zero n = omega arith
  unclosed-cons (suc m) n = omega (arith, unclosed-cons m n, row-cons m n)

  module _ (i j : ℕ) (here : p ≡ cell i j) (new : contains p closed ≡ false) where
    open_cell-closes : open_cell (p ∷ closed) i j + 1 ≤ open_cell closed i j
    unfolding contains
    open_cell-closes = rw (← here, beq_refl p, new) (omega arith)

    row-closes : (n : ℕ) → j < n → unclosed_row (p ∷ closed) i n + 1 ≤ unclosed_row closed i n
    unfolding unclosed_row
    row-closes zero h = absurd (omega arith)
    row-closes (suc n) h = elim (==-cases j n) [
      | inl (e, _) ↦ rw (← e) (omega (arith, row-cons i j, open_cell-closes))
      | inr (ne, _) ↦ omega (arith, row-closes n (omega arith), open_cell-cons i n)
    ]

    -- Settling a cell of the grid that was not settled leaves one fewer.
    pub unclosed-closes :
        (m n : ℕ) → i < m → j < n → unclosed (p ∷ closed) m n + 1 ≤ unclosed closed m n
    unfolding unclosed
    unclosed-closes zero n h k = absurd (omega arith)
    unclosed-closes (suc m) n h k = elim (==-cases i m) [
      | inl (e, _) ↦ rw (← e) (omega (arith, unclosed-cons i n, row-closes n k))
      | inr (ne, _) ↦ omega (arith, unclosed-closes m n (omega arith) k, row-cons m n)
    ]
