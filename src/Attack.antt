-- ===== src/Attack.antt =====
-- `MeleeAttack::use` of tower/skill/melee_attack.hpp, over the state machine and the health of the entities, the nodes
-- and the collision objects of a subworld; and the machine and the health with which tower/player/player.cpp and
-- tower/entity/simple_monster.cpp create an entity. The states of tower/player/state do nothing on `enter` and `exit`.
pub mod Hits
pub mod Damage
pub mod Cadence
mod Tests
use Prim.Native.String.{String}
use tower_main.Common.{
  ℕ, Bool, true, false, if◌then◌else◌, List, [], ◌∷◌, ◌++◌, Option, none, some, ◌==◌, nat_eq,
  Result, ok, err, ◌>>=◌, or_fail, dangling,
}
use tower_main.Common.Int.{ℤ, pos, sub_int32}
use tower_main.Nodes.{Nodes, get_root}
use tower_main.Subworld.{CollisionObject, collisions_with}
use tower_main.StateMachine.{
  State, StateMachine, add_state, add_transition, set_initial_state, try_transition,
  transition_delayed,
}
use tower_main.Health.{Resource, change_health, add_mode}

-- The conditions of the transitions read nothing.
abbrev pub always : (Unit {0}) → Bool
always w = true

-- `IdleState` and `AttackingState`, made at an address.
abbrev pub plain_state : String → ℕ → State (Unit {0})
plain_state name address = record {
  address = address;
  name = name;
  enter = λ w. w;
  exit = λ w. w;
  transitions = [];
}

abbrev pub idle_state : ℕ → State (Unit {0})
idle_state address = add_transition "Attacking" always (plain_state "Idle" address)

abbrev pub attacking_state : ℕ → State (Unit {0})
attacking_state address = add_transition "Idle" always (plain_state "Attacking" address)

abbrev pub empty_machine : StateMachine (Unit {0})
empty_machine = record {
  current_state = none;
  states = [];
  delay_timer = none;
  delayed = [];
  next_timer = 0;
}

unfoldable pub init_states : (idle_address attacking_address : ℕ) → StateMachine (Unit {0})
init_states idle_address attacking_address = set_initial_state "Idle" (
    add_state (attacking_state attacking_address)
      (add_state (idle_state idle_address) empty_machine))

-- The health of a new entity: `max_health`, all of it.
abbrev pub init_resource : ℤ → Resource
init_resource max_health = record { max_health = max_health; health = max_health; changes = [] }

abbrev pub player_health : ℤ
player_health = pos 100

abbrev pub monster_health : ℤ
monster_health = pos 10

pub record Entity : Type 0 where
  pub entity_id : ℕ
  pub state_machine : StateMachine (Unit {0})
  pub resource : Resource

-- The entities by their `node_id`: `dynamic_cast<entity::Entity*>` of a root.
abbrev pub Entities : Type 0
Entities = ℕ → Option Entity

abbrev pub put_entity : ℕ → Entity → Entities → Entities
put_entity node value entities other = if node == other then some value else entities other

-- `MeleeAttackable`.
pub record Weapon : Type 0 where
  pub melee_attack_damage : ℤ
  pub melee_attack_shape : ℕ

abbrev pub fist_damage : ℤ
fist_damage = pos 1

-- `EntityResourceChange` with mode `ADD` of the health.
pub record HealthChange : Type 0 where
  pub entity_id : ℕ
  pub amount : ℤ

pub data Broadcast : Type 0 where
  entity_resource_changes : List HealthChange → Broadcast
  skill_melee_attack : (entity_id : ℕ) → Broadcast

pub record Fight : Type 0 where
  pub entities : Entities
  pub broadcasts : List Broadcast

-- `ColliderLayer::ENTITIES`.
abbrev pub entities_layer : ℕ
entities_layer = 1

-- `change_health(ADD, -damage)`, and the change that is told.
unfoldable pub damage_entity :
    ℤ → ℕ → Entity → Entities × List HealthChange → Result (Entities × List HealthChange)
damage_entity damage root entity (entities, damages) = do
  amount ← sub_int32 (pos 0) damage
  resource ← change_health add_mode amount entity.resource
  ok (
    put_entity root (record entity { resource = resource }) entities,
    damages ++ record { entity_id = entity.entity_id; amount = amount } ∷ [],
  )

-- `fuel` bounds the walk to a root.
module _ (fuel : ℕ) (nodes : Nodes) where
  -- The body of the loop over the colliders.
  unfoldable pub hit :
      ℤ → ℕ → CollisionObject → Entities × List HealthChange → Result (Entities × List HealthChange)
  unfolding damage_entity
  hit damage user_id collider (entities, damages) = get_root fuel collider.node_id nodes >>= λ root.
      elim (entities root) [
        | none ↦ ok (entities, damages)
        | some entity ↦
            if user_id == entity.entity_id
            then ok (entities, damages)
            else damage_entity damage root entity (entities, damages)
      ]

  unfoldable pub hit_all :
      ℤ
      → ℕ
      → List CollisionObject
      → Entities × List HealthChange
      → Result (Entities × List HealthChange)
  unfolding hit
  hit_all damage user_id [] s = ok s
  hit_all damage user_id (collider ∷ rest) s =
      hit damage user_id collider s >>= hit_all damage user_id rest

abbrev pub told : List HealthChange → List Broadcast
told [] = []
told (d ∷ ds) = entity_resource_changes (d ∷ ds) ∷ []

abbrev pub set_machine : ℕ → Entity → StateMachine (Unit {0}) → Entities → Entities
set_machine user entity machine entities =
    put_entity user (record entity { state_machine = machine }) entities

-- `shapes_touch` is `CollisionShape::is_colliding`.
module _ (shapes_touch : ℕ → ℕ → Bool) (fuel : ℕ) (nodes : Nodes)
    (objects : List CollisionObject) where
  -- `get_collisions` of the shape of the weapon, on the layer of entities.
  abbrev pub struck_by : Weapon → List CollisionObject
  struck_by weapon = collisions_with shapes_touch weapon.melee_attack_shape entities_layer objects

  -- What follows the transition to `Attacking`.
  unfoldable pub strike : Weapon → ℕ → ℕ → Fight → Result Fight
  unfolding hit_all
  strike weapon user user_id s = do
    struck ←
        hit_all fuel nodes weapon.melee_attack_damage user_id (struck_by weapon) (s.entities, [])
    entity ← or_fail (struck.0 user) dangling
    ok (record {
      entities =
          set_machine user entity (transition_delayed "Idle" true entity.state_machine) struck.0;
      broadcasts = s.broadcasts ++ told struck.1 ++ skill_melee_attack user_id ∷ [];
    })

  unfoldable pub use_attack : Weapon → ℕ → Fight → Result Fight
  unfolding strike
  use_attack weapon user s = do
    entity ← or_fail (s.entities user) dangling
    tried ← try_transition "Attacking" entity.state_machine tt
    let begun = record s { entities = set_machine user entity tried.1 s.entities }
    if tried.0 then strike weapon user entity.entity_id begun else ok begun
