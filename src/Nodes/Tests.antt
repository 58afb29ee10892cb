-- ===== src/Nodes/Tests.antt =====
-- A player of three nodes, and a node that is put below it.
use tower_main.Common.{ℕ, zero, suc, ◌≡◌, refl, [], ◌∷◌, none, some, ok, arith}
use tower_main.Nodes.{Nodes, get_parent, add_child, get_root}
use tower_main.Nodes.Roots.{
  Rooted, at_root, below, IsForest, root_after, get_root-Rooted, add_child-Rooted,
}

-- The player 0 with its offset 1; below that the weapon 2; and the collider 3 on its own.
abbrev player_nodes : Nodes
player_nodes zero = some (record { parent = none; children = 1 ∷ [] })
player_nodes (suc zero) = some (record { parent = some 0; children = 2 ∷ [] })
player_nodes (suc (suc zero)) = some (record { parent = some 1; children = [] })
player_nodes (suc (suc (suc zero))) = some (record { parent = none; children = [] })
player_nodes (suc (suc (suc (suc n)))) = none

offset-Rooted : Rooted player_nodes 1 1 0
unfolding get_parent
offset-Rooted = below refl (at_root refl)

weapon-Rooted : Rooted player_nodes 2 2 0
unfolding get_parent
weapon-Rooted = below refl offset-Rooted

player_nodes-IsForest : IsForest player_nodes
unfolding get_parent
player_nodes-IsForest zero = (0, 0, at_root refl)
player_nodes-IsForest (suc zero) = (1, 0, offset-Rooted)
player_nodes-IsForest (suc (suc zero)) = (2, 0, weapon-Rooted)
player_nodes-IsForest (suc (suc (suc zero))) = (0, 3, at_root refl)
player_nodes-IsForest (suc (suc (suc (suc n)))) = (0, suc (suc (suc (suc n))), at_root refl)

collider-orphan : get_parent 3 player_nodes ≡ none
unfolding get_parent
collider-orphan = refl

get_root-Rooted_example : get_root 3 2 player_nodes ≡ ok 0
get_root-Rooted_example = get_root-Rooted 3 (omega arith) weapon-Rooted

add_child-Rooted_example :
    (after : Nodes) × (add_child 1 (some 3) player_nodes ≡ ok after)
    × ((node depth root : ℕ)
        → Rooted player_nodes depth node root
        → (d : ℕ) × Rooted after d node (root_after 3 0 root))
    × IsForest after
add_child-Rooted_example =
    add_child-Rooted 1 3 player_nodes player_nodes-IsForest refl refl collider-orphan 1 0
      offset-Rooted (omega arith)
