-- ===== src/Pathfinder/Paths.antt =====
-- `reconstruct_path` on the parents that the search has set.
use mathlib.Core.List.{reverse-append}
use tower_main.Common.{
  ℕ, zero, suc, ◌<◌, ◌≡◌, inl, inr, List, [], ◌∷◌, ◌++◌, reverse, some, ok, arith, Result,
}
use tower_main.Grid.{Grid, Point}
use tower_main.Grid.Cells.{Inside}
use tower_main.Pathfinder.{Search, follow, reconstruct_path}
use tower_main.Pathfinder.Walks.{Walk, rest, move, Step-cost}
use tower_main.Pathfinder.Invariant.{Inv}

-- A run that returns a walk from `start` to `end`.
abbrev pub ReturnsWalk : Grid → Point → Point → Result (List Point) → Type 0
ReturnsWalk grid start end r = (path : List Point) × (r ≡ ok path) × Walk grid end start path

module _ (grid : Grid) (start : Point) (limit budget : ℕ) (Pending : Point → Point → Type 0)
    (s : Search) (i : Inv grid start limit budget Pending s) (end : Point) where
  -- Each step to a parent lowers the cost.
  follow-Walk :
      (fuel : ℕ) (current : Point) (path : List Point) (v : ℕ)
      → s.g current ≡ some v
      → v < fuel
      → Walk grid end current (reverse path)
      → ReturnsWalk grid start end (follow fuel s.parents current path)
  unfolding follow
  follow-Walk zero current path v e h w = absurd (omega arith)
  follow-Walk (suc fuel) current path v e h w = elim (i.rooted current v e) [
    | inl first ↦ (reverse path, rw (first, i.start_root, follow), rw first at w)
    | inr (p, u, from, paid, m, step, sum) ↦
        let longer : Walk grid end p (reverse (path ++ p ∷ [])) =
          rw (reverse-append path (p ∷ [])) (move step w) in
        rw (from, follow)
          (follow-Walk fuel p (path ++ p ∷ []) u paid (omega (arith, (Step-cost step).0)) longer)
  ]

  -- The loop over the parents ends, at `start`, within as many rounds as `end` costs.
  pub reconstruct_path-Walk :
      (fuel v : ℕ)
      → s.g end ≡ some v
      → v < fuel
      → Inside grid end
      → ReturnsWalk grid start end (reconstruct_path fuel s.parents end)
  unfolding reconstruct_path
  reconstruct_path-Walk fuel v e h k = follow-Walk fuel end (end ∷ []) v e h (rest k)
