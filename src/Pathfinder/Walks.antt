-- ===== src/Pathfinder/Walks.antt =====
-- What a path is, independently of the search: steps between touching cells of the grid, each onto a cell
-- that is not blocked.
use tower_main.Common.{ℕ, ◌+◌, ◌≤◌, ◌≡◌, ◌⊎◌, inl, inr, false, List, [], ◌∷◌, ok, arith}
use tower_main.Common.Int.{◌-ℤ◌, abs}
use tower_main.Grid.{Grid, Point, is_blocked}
use tower_main.Grid.Cells.{Inside, Touches, distance, distance-zero}

pub record Step (grid : Grid) (p q : Point) : Type 0 where
  pub from_inside : Inside grid p
  pub to_inside : Inside grid q
  pub touches : Touches p q
  pub free : is_blocked grid q ≡ ok false

-- `Walk grid p q path`: `path` lists the cells of a walk from `p` to `q`, both included.
pub data Walk (grid : Grid) (q : Point) : Point → List Point → Type 0 where
  rest : Inside grid q → Walk grid q q (q ∷ [])
  move :
      {p o : Point} {path : List Point}
      → Step grid p o
      → Walk grid q o path
      → Walk grid q p (p ∷ path)

-- The points to which some walk from `p` leads.
pub data Reach (grid : Grid) (p : Point) : Point → Type 0 where
  start : Inside grid p → Reach grid p p
  next : {o q : Point} → Reach grid p o → Step grid o q → Reach grid p q

pub Reach-Inside : {grid : Grid} {p q : Point} → Reach grid p q → Inside grid p × Inside grid q
Reach-Inside (start i) = (i, i)
Reach-Inside (next r s) = ((Reach-Inside r).0, s.to_inside)

zero_or_pos : (n : ℕ) → (n ≡ 0) ⊎ (1 ≤ n)
zero_or_pos n = omega arith

-- A step costs 1 or 2.
pub Step-cost :
    {grid : Grid} {p q : Point} → Step grid p q → (1 ≤ distance p q) × (distance p q ≤ 2)
unfolding distance ◌-ℤ◌
Step-cost {grid} {p} {q} s = (
  elim (zero_or_pos (abs (p.r -ℤ q.r) + abs (p.c -ℤ q.c))) [
    | inl none_moved ↦ absurd (s.touches.apart (distance-zero p q none_moved))
    | inr moved ↦ moved
  ],
  omega (arith, s.touches.rows, s.touches.cols),
)
