-- ===== src/Nodes.antt =====
-- tower/world/node.hpp: the tree of nodes. A node is known by its `node_id`; the pointer to the parent is weak.
-- Positions and rotations, which are floating point, are left out.
pub mod Roots
mod Tests
use tower_main.Common.{
  ℕ, zero, suc, Bool, true, false, if◌then◌else◌, List, [], ◌∷◌, ◌++◌, Option, none, some, ◌==◌,
  nat_eq, Result, ok, err, ◌>>=◌, or_fail, dangling, out_of_fuel,
}

pub record Node : Type 0 where
  pub parent : Option ℕ
  pub children : List ℕ

-- The nodes that are alive.
abbrev pub Nodes : Type 0
Nodes = ℕ → Option Node

abbrev pub put : ℕ → Node → Nodes → Nodes
put node value nodes other = if node == other then some value else nodes other

abbrev pub is_alive : Option Node → Bool
is_alive none = false
is_alive (some n) = true

-- `weak_ptr::lock`.
abbrev pub lock : Option ℕ → Nodes → Option ℕ
lock none nodes = none
lock (some node) nodes = if is_alive (nodes node) then some node else none

unfoldable pub get_parent : ℕ → Nodes → Option ℕ
get_parent node nodes = elim (nodes node) [ none ↦ none | some n ↦ lock n.parent nodes ]

unfoldable pub get_children : ℕ → Nodes → List ℕ
get_children node nodes = elim (nodes node) [ none ↦ [] | some n ↦ n.children ]

unfoldable pub set_parent : ℕ → ℕ → Nodes → Result Nodes
set_parent node parent nodes =
    or_fail (nodes node) dangling >>= λ n. ok (put node (record n { parent = some parent }) nodes)

-- A null child is passed over.
unfoldable pub add_child : ℕ → Option ℕ → Nodes → Result Nodes
unfolding set_parent
add_child node none nodes = ok nodes
add_child node (some child) nodes = or_fail (nodes node) dangling >>= λ n.
    set_parent child node (put node (record n { children = n.children ++ child ∷ [] }) nodes)

-- `while (true)` of `get_root`.
unfoldable pub get_root : ℕ → ℕ → Nodes → Result ℕ
unfolding get_parent
get_root zero node nodes = err out_of_fuel
get_root (suc fuel) node nodes = elim (get_parent node nodes) [
  | none ↦ ok node
  | some parent ↦ get_root fuel parent nodes
]
