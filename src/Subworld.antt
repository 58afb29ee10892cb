-- ===== src/Subworld.antt =====
-- tower/world/subworld.cpp and tower/physics/collision_object.hpp: the collision objects of a subworld and the contacts
-- of its areas with them. A shape is a number, and whether two shapes touch, which is computed in floating point, is
-- an argument. A map from `node_id`s is the list of its values.
pub mod Collisions
pub mod Trees
pub mod Removals
mod Tests
use Prim.Native.Nat.{bit_and}
use tower_main.Common.Map.{Map}
use tower_main.Common.{
  ℕ, Bool, true, false, not, ◌&&◌, if◌then◌else◌, List, [], ◌∷◌, ◌++◌, ◌==◌, nat_eq,
}

pub record CollisionObject : Type 0 where
  pub node_id : ℕ
  pub shape : ℕ
  pub layer : ℕ
  pub mask : ℕ

-- The signals that an area sends, with the identifiers of the area and of the body.
pub data Signal : Type 0 where
  body_entered body_staying body_exited : (area body : ℕ) → Signal

-- `contacts` is the map of sets by its members: an area and a body of its set. `entities` has the node of each
-- `entity_id`.
pub record Subworld : Type 0 where
  pub collision_objects : List CollisionObject
  pub collision_areas : List CollisionObject
  pub contacts : ℕ → ℕ → Bool
  pub signals : List Signal
  pub entities : Map ℕ ℕ

abbrev pub set_contact : ℕ → ℕ → Bool → (ℕ → ℕ → Bool) → ℕ → ℕ → Bool
set_contact area body value contacts a b = if a == area && b == body then value else contacts a b

pub remove_object : ℕ → List CollisionObject → List CollisionObject
remove_object node_id [] = []
remove_object node_id (o ∷ os) =
    let rest = remove_object node_id os in if o.node_id == node_id then rest else o ∷ rest

unfoldable pub add_collision_area : CollisionObject → Subworld → Subworld
unfolding remove_object
add_collision_area area w = record w {
  collision_areas = area ∷ remove_object area.node_id w.collision_areas;
  contacts = λ a b. if a == area.node_id then false else w.contacts a b;
}

unfoldable pub remove_collision_area : ℕ → Subworld → Subworld
unfolding remove_object
remove_collision_area area_id w = record w {
  collision_areas = remove_object area_id w.collision_areas;
  contacts = λ a b. if a == area_id then false else w.contacts a b;
}

-- `shapes_touch` is `CollisionShape::is_colliding`.
module _ (shapes_touch : ℕ → ℕ → Bool) where
  -- An object is known by its `node_id`.
  unfoldable pub is_colliding : CollisionObject → CollisionObject → Bool
  is_colliding o other =
      if o.node_id == other.node_id
      then false
      else if bit_and o.mask other.layer == 0
      then false
      else shapes_touch o.shape other.shape

  -- The body of the two loops of `Subworld::tick` over the areas and the objects.
  unfoldable pub update_contact : CollisionObject → CollisionObject → Subworld → Subworld
  unfolding is_colliding
  update_contact area body w =
      let a = area.node_id in
      let b = body.node_id in
      if is_colliding area body
      then (if w.contacts a b
          then record w { signals = w.signals ++ body_staying a b ∷ [] }
          else record w {
            signals = w.signals ++ body_entered a b ∷ [];
            contacts = set_contact a b true w.contacts;
          })
      else if w.contacts a b
      then record w {
        signals = w.signals ++ body_exited a b ∷ [];
        contacts = set_contact a b false w.contacts;
      }
      else w

  pub update_bodies : CollisionObject → List CollisionObject → Subworld → Subworld
  unfolding update_contact
  update_bodies area [] w = w
  update_bodies area (body ∷ bodies) w = update_bodies area bodies (update_contact area body w)

  pub update_areas : List CollisionObject → Subworld → Subworld
  unfolding update_bodies
  update_areas [] w = w
  update_areas (area ∷ areas) w = update_areas areas (update_bodies area w.collision_objects w)

  unfoldable pub update_contacts : Subworld → Subworld
  unfolding update_areas
  update_contacts w = update_areas w.collision_areas w

  -- `get_collisions` of a collider, by its loop.
  pub collisions_of : CollisionObject → List CollisionObject → List CollisionObject
  unfolding is_colliding
  collisions_of collider [] = []
  collisions_of collider (other ∷ rest) =
      let more = collisions_of collider rest in
      if is_colliding collider other then more else other ∷ more

  -- `get_collisions` of a shape and a mask, by its loop.
  unfoldable pub collisions_with : ℕ → ℕ → List CollisionObject → List CollisionObject
  collisions_with target_shape mask [] = []
  collisions_with target_shape mask (c ∷ rest) =
      let more = collisions_with target_shape mask rest in
      if bit_and mask c.layer == 0
      then more
      else if not (shapes_touch c.shape target_shape)
      then more
      else c ∷ more
