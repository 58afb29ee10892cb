-- ===== src/Subworld/Trees.antt =====
-- `Subworld::add_entity` and `remove_entity` of tower/world/subworld.cpp, with the walks over the tree below an entity.
-- A walk is a function of fuel.
use tower_main.Common.{
  ℕ, zero, suc, List, [], ◌∷◌, Option, none, some, nat_eq, Result, ok, err, ◌>>=◌, out_of_fuel,
}
use tower_main.Common.Map.{insert, erase}
use tower_main.Nodes.{Nodes, get_children}
use tower_main.Subworld.{CollisionObject, Subworld, remove_object}

pub record EntityNode : Type 0 where
  pub entity_id : ℕ
  pub node : ℕ

abbrev pub put_object : CollisionObject → Subworld → Subworld
put_object o w = record w { collision_objects = o ∷ remove_object o.node_id w.collision_objects }

abbrev pub drop_object : CollisionObject → Subworld → Subworld
drop_object o w = record w { collision_objects = remove_object o.node_id w.collision_objects }

-- `if (const auto object = std::dynamic_pointer_cast<CollisionObject>(child))`.
abbrev pub if_object :
    (CollisionObject → Subworld → Subworld) → Option CollisionObject → Subworld → Subworld
if_object change none w = w
if_object change (some o) w = change o w

-- The object that a node is, if it is one.
module _ (nodes : Nodes) (object_at : ℕ → Option CollisionObject) where
  unfoldable pub add_children : ℕ → List ℕ → Subworld → Result Subworld
  add_children zero children w = err out_of_fuel
  add_children (suc fuel) [] w = ok w
  add_children (suc fuel) (child ∷ rest) w =
      add_children fuel (get_children child nodes) (if_object put_object (object_at child) w)
      >>= add_children fuel rest

  abbrev pub add_collision_objects_from_tree : ℕ → ℕ → Subworld → Result Subworld
  add_collision_objects_from_tree fuel node w = add_children fuel (get_children node nodes) w

  unfoldable pub remove_children : ℕ → List ℕ → Subworld → Result Subworld
  remove_children zero children w = err out_of_fuel
  remove_children (suc fuel) [] w = ok w
  remove_children (suc fuel) (child ∷ rest) w =
      remove_children fuel (get_children child nodes) (if_object drop_object (object_at child) w)
      >>= remove_children fuel rest

  abbrev pub remove_collision_objects_from_tree : ℕ → ℕ → Subworld → Result Subworld
  remove_collision_objects_from_tree fuel node w = remove_children fuel (get_children node nodes) w

  unfoldable pub add_entity : ℕ → EntityNode → Subworld → Result Subworld
  unfolding add_children
  add_entity fuel entity w = add_collision_objects_from_tree fuel entity.node w >>= λ added.
      ok (record added { entities = insert entity.entity_id entity.node added.entities })

  unfoldable pub remove_entity : ℕ → EntityNode → Subworld → Result Subworld
  unfolding remove_children
  remove_entity fuel entity w = remove_collision_objects_from_tree fuel entity.node w >>= λ removed.
      ok (record removed { entities = erase entity.entity_id removed.entities })
