-- ===== src/Pathfinder.antt =====
-- tower/world/path_finder.hpp: A* over the grid, and the path that it reconstructs. A run is a function of
-- fuel; `rounds` and `path_fuel` are enough, which Pathfinder/Astar.antt proves.
pub mod Frontier
pub mod Walks
mod Invariant
mod Improve
mod Relax
mod Unclosed
mod Paths
mod Rounds
pub mod Expand
pub mod Astar
pub mod Jps
mod Tests
use package.tower_main.Common.{
  ℕ, zero, suc, ◌+◌, ◌*◌, Bool, true, false, ◌||◌, not, leb, if◌then◌else◌, List, [], ◌∷◌, ◌++◌,
  reverse, Option, none, some, ◌==◌, Result, ok, err, ◌>>=◌, out_of_fuel,
}
use package.tower_main.Common.Int.{add_natural_int32}
use package.tower_main.Grid.{
  Grid, Point, point_eq, manhattan_distance, is_inside_point, is_blocked, adjacents_8way,
}
use Frontier.{Node, MinQueue}

-- `std::unordered_map<Point, V>`, by its lookups, and `std::unordered_set<Point>`, by its members.
abbrev pub PointMap : Type 0 → Type 0
PointMap V = Point → Option V

abbrev pub update : {V : Type 0} → PointMap V → Point → V → PointMap V
update m p v q = if p == q then some v else m q

unfoldable pub contains : Point → List Point → Bool
contains p [] = false
contains p (q ∷ qs) = p == q || contains p qs

-- `g[p]`: a missing entry is made, with value 0.
abbrev pub subscript : PointMap ℕ → Point → ℕ × PointMap ℕ
subscript m p = elim (m p) [ none ↦ (0, update m p 0) | some v ↦ (v, m) ]

-- `while (parents.contains(current))`.
pub follow : ℕ → PointMap Point → Point → List Point → Result (List Point)
follow zero parents current path = err out_of_fuel
follow (suc fuel) parents current path = elim (parents current) [
  | none ↦ ok (reverse path)
  | some parent ↦ follow fuel parents parent (path ++ parent ∷ [])
]

unfoldable pub reconstruct_path : ℕ → PointMap Point → Point → Result (List Point)
unfolding follow
reconstruct_path fuel parents end = follow fuel parents end (end ∷ [])

-- The variables of the loop.
pub record Search : Type 0 where
  pub open_nodes : List Node
  pub closed : List Point
  pub parents : PointMap Point
  pub g : PointMap ℕ

-- Whether a path is known that costs no more.
abbrev pub is_no_better : PointMap ℕ → Point → ℕ → Bool
is_no_better g next g_next = elim (g next) [ none ↦ false | some old ↦ leb old g_next ]

module _ (grid : Grid) (end current : Point) where
  -- `next` gets a new parent and cost, and is opened.
  pub accept : Search → Point → PointMap ℕ → ℕ → Result Search
  accept s next g g_next = do
    left ← manhattan_distance next end
    f ← add_natural_int32 g_next left
    ok (record s {
      open_nodes = record { f = f; p = next } ∷ s.open_nodes;
      parents = update s.parents next current;
      g = update g next g_next;
    })

  -- The body of the inner loop below its two `continue`s, once `g[current]` is read.
  pub offer : Search → Point → ℕ × PointMap ℕ → Result Search
  offer s next (g_current, g) = do
    step ← manhattan_distance current next
    g_next ← add_natural_int32 g_current step
    if is_no_better g next g_next then ok (record s { g = g }) else accept s next g g_next

  pub improve : Search → Point → Result Search
  unfolding offer accept
  improve s next = offer s next (subscript s.g current)

  pub relax : Search → Point → Result Search
  unfolding improve contains
  relax s next =
      if contains next s.closed
      then ok s
      else (is_blocked grid next >>= λ blocked. if blocked then ok s else improve s next)

  -- `for (const auto& next : grid.get_8way_adjacents(current))`.
  pub relax_all : Search → List Point → Result Search
  unfolding relax
  relax_all s [] = ok s
  relax_all s (next ∷ rest) = relax s next >>= λ s'. relax_all s' rest

abbrev pub rounds : Grid → ℕ
rounds grid = 8 * (grid.rows * grid.cols) + 2

abbrev pub path_fuel : Grid → ℕ
path_fuel grid = 2 * rounds grid + 1

module _ (queue : MinQueue) (grid : Grid) where
  -- `while (!open.empty())`.
  pub search : ℕ → Point → Search → Result (List Point)
  unfolding relax_all reconstruct_path
  search zero end s = err out_of_fuel
  search (suc fuel) end s = elim (queue.take_top s.open_nodes) [
    | none ↦ ok []
    | some (node, rest) ↦
        let popped = record s { open_nodes = rest; closed = node.p ∷ s.closed } in
        let found = reconstruct_path (path_fuel grid) s.parents end in
        let next =
          relax_all grid end node.p popped (adjacents_8way grid node.p) >>= search fuel end in
        if node.p == end then found else next
  ]

  abbrev pub begin : Point → Search
  begin start = record {
    open_nodes = record { f = 0; p = start } ∷ [];
    closed = [];
    parents = λ _. none;
    g = λ q. if start == q then some 0 else none;
  }

  unfoldable pub astar : Point → Point → Result (List Point)
  unfolding search
  astar start end =
      let found = search (rounds grid) end (begin start) in
      if not (is_inside_point grid start) || not (is_inside_point grid end) then ok [] else found
