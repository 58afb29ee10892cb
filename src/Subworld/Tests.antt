-- ===== src/Subworld/Tests.antt =====
-- An area that a player has left and a monster has entered.
use tower_main.Common.{
  ℕ, zero, suc, ◌≡◌, ◌≢◌, refl, Option, none, some, ok, inl, inr, ◌↔◌, ◌∈◌, Bool, true, false, ◌&&◌,
  [], ◌∷◌, ◌==◌, nat_eq, leb, arith,
}
use Prim.Native.Nat.{bit_and}
use tower_main.Subworld.{
  CollisionObject, Subworld, is_colliding, update_contacts, collisions_of, collisions_with,
}
use tower_main.Common.Map.{lookup}
use tower_main.Nodes.{Nodes, get_children}
use tower_main.Subworld.Trees.{EntityNode, add_entity, remove_entity}
use tower_main.Subworld.Removals.{Below, none_left, first_child, remove_entity-add_entity}
use tower_main.Subworld.Collisions.{
  Distinct, mem-collisions_with, mem-collisions_of, contacts-colliding,
}

abbrev area : CollisionObject
area = record { node_id = 1; shape = 10; layer = 2; mask = 5 }

abbrev player : CollisionObject
player = record { node_id = 2; shape = 30; layer = 4; mask = 0 }

abbrev monster : CollisionObject
monster = record { node_id = 3; shape = 11; layer = 1; mask = 0 }

abbrev touching : ℕ → ℕ → Bool
touching s t = leb s 20 && leb t 20

abbrev cave : Subworld
cave = record {
  collision_objects = player ∷ monster ∷ [];
  collision_areas = area ∷ [];
  contacts = λ a b. a == 1 && b == 2;
  signals = [];
  entities = [];
}

one_area : Distinct (area ∷ [])
one_area = (λ o m. absurd m, tt)

two_bodies : Distinct (player ∷ monster ∷ [])
two_bodies = (
  λ o m e. elim m [ inl same ↦ ground arith | inr nowhere ↦ absurd nowhere ],
  (λ o m. absurd m, tt),
)

contacts-colliding_example :
    (update_contacts touching cave).contacts 1 3 ≡ is_colliding touching area monster
contacts-colliding_example =
    contacts-colliding touching cave area monster one_area two_bodies (inl refl) (inr (inl refl))

mem-collisions_with_example :
    (monster ∈ collisions_with touching 12 1 (player ∷ monster ∷ []))
    ↔ ((monster ∈ player ∷ monster ∷ []) × ((bit_and 1 1 == 0) ≡ false) × (touching 11 12 ≡ true))
mem-collisions_with_example = mem-collisions_with touching 12 1 (player ∷ monster ∷ []) monster

mem-collisions_of_example :
    (player ∈ collisions_of touching area (player ∷ monster ∷ []))
    ↔ ((player ∈ player ∷ monster ∷ []) × (is_colliding touching area player ≡ false))
mem-collisions_of_example = mem-collisions_of touching area (player ∷ monster ∷ []) player

-- A player 0 with its collider 5, on its own.
abbrev collider : CollisionObject
collider = record { node_id = 5; shape = 1; layer = 1; mask = 0 }

abbrev player_nodes : Nodes
player_nodes zero = some (record { parent = none; children = 5 ∷ [] })
player_nodes (suc n) = none

abbrev object_at : ℕ → Option CollisionObject
object_at zero = none
object_at (suc n) = some collider

one-Below : Below player_nodes object_at 1 (get_children 0 player_nodes) (collider ∷ [])
unfolding get_children
one-Below = first_child none_left none_left

abbrev newcomer : EntityNode
newcomer = record { entity_id = 7; node = 0 }

collider-fresh :
    (o p : CollisionObject) → o ∈ cave.collision_objects → p ∈ collider ∷ [] → o.node_id ≢ p.node_id
collider-fresh o p m n e = elim m [
  | inl first ↦ ground (arith, first, n, e)
  | inr (inl second) ↦ ground (arith, second, n, e)
  | inr (inr nowhere) ↦ absurd nowhere
]

no_player : lookup 7 cave.entities ≡ none
unfolding lookup
no_player = refl

remove_entity-add_entity_example :
    (added : Subworld) × (add_entity player_nodes object_at 2 newcomer cave ≡ ok added)
    × (remove_entity player_nodes object_at 2 newcomer added ≡ ok cave)
remove_entity-add_entity_example =
    remove_entity-add_entity player_nodes object_at 2 newcomer cave (omega arith) one-Below
      no_player collider-fresh
