-- ===== src/Network/Zone.antt =====
-- tower/network/zone.cpp: the tasks that run on the strand of a zone. The `Subworld` of the zone and the entities,
-- which the clients and the subworlds share, are the interface `Gameplay`.
use tower_main.Common.{
  ℕ, ◌+◌, Bool, true, false, not, ltb, if◌then◌else◌, List, [], ◌∷◌, ◌++◌, Option, none, some, ◌==◌,
  nat_eq, Result, ok, err, ◌>>=◌, or_fail, null_pointer,
}
use tower_main.Common.Map.{Map, lookup, insert, erase, has_key}
use tower_main.Network.Client.{
  Packet, player_movement, skill_melee_attack, Outgoing, player_spawns, entity_spawns, player_spawn,
  entity_despawn, entity_movements, Store, send_packet,
}

-- `Subworld`, all entities of the program, and what a zone asks of both. An entity is known by its `entity_id`.
pub record Gameplay : Type 1 where
  pub Subworld : Type 0
  pub Entities : Type 0
  -- `player->position = {size_x / 2, 0, size_z / 2}`.
  pub to_centre : Subworld → ℕ → Entities → Entities
  pub add_entity : ℕ → Subworld → Subworld
  pub remove_entity : ℕ → Subworld → Subworld
  -- The entities that are no players, and all entities.
  pub other_entities : Subworld → List ℕ
  pub all_entities : Subworld → List ℕ
  -- `Subworld::tick` and then the ticks of the entities, and what these broadcast.
  pub tick_all : Subworld → Entities → Subworld × Entities × List Outgoing
  pub has_nan : ℕ → Bool
  -- The player turns to a direction.
  pub turn : ℕ → ℕ → Entities → Entities
  -- The main weapon of a player, if it is `MeleeAttackable`, and its use by the player.
  pub melee_weapon : ℕ → Entities → Option ℕ
  pub use_weapon : ℕ → ℕ → Subworld → Entities → Entities × List Outgoing

abbrev pub tick_interval : ℕ
tick_interval = 100

-- What is posted to the strand of a zone.
pub data ZoneTask : Type 0 where
  adds removes : (client_id : ℕ) → ZoneTask
  handles : (client_id : ℕ) → Packet → ZoneTask
  ticks : ZoneTask

pub record Zone (Subworld : Type 0) : Type 0 where
  pub is_running : Bool
  pub last_tick : ℕ
  pub clients : Map ℕ ℕ
  pub subworld : Subworld
  pub tasks : List ZoneTask

-- What all strands share: the clients, and the entities.
pub record Shared (Entities : Type 0) : Type 0 where
  pub store : Store
  pub entities : Entities

pub is_empty : Map ℕ ℕ → Bool
is_empty [] = true
is_empty (x ∷ m) = false

-- `client->player`, which is then dereferenced.
unfoldable pub player_of : ℕ → Store → Result ℕ
player_of client_id store = elim (lookup client_id store) [
  | none ↦ err null_pointer
  | some c ↦ or_fail c.player null_pointer
]

unfoldable pub broadcast : Outgoing → ℕ → Map ℕ ℕ → Store → Store
broadcast packet except [] store = store
broadcast packet except ((id, client_id) ∷ rest) store =
    let others = broadcast packet except rest (send_packet client_id packet store) in
    let skipped = broadcast packet except rest store in if id == except then skipped else others

-- No client has the identifier 0.
abbrev pub no_exception : ℕ
no_exception = 0

unfoldable pub broadcast_all : List Outgoing → Map ℕ ℕ → Store → Store
unfolding broadcast
broadcast_all [] clients store = store
broadcast_all (packet ∷ packets) clients store =
    broadcast_all packets clients (broadcast packet no_exception clients store)

-- The players of the other clients of the zone.
pub other_players : ℕ → Map ℕ ℕ → Store → Result (List ℕ)
unfolding player_of
other_players entity_id [] store = ok []
other_players entity_id ((id, client_id) ∷ rest) store = player_of client_id store >>= λ other.
    other_players entity_id rest store >>= λ others.
    ok (if other == entity_id then others else other ∷ others)

module _ {S : Type 0} where
  unfoldable pub post : ZoneTask → Zone S → Zone S
  post task z = record z { tasks = z.tasks ++ task ∷ [] }

  unfoldable pub start : Zone S → Zone S
  unfolding post
  start z = if z.is_running then z else post ticks (record z { is_running = true })

  unfoldable pub stop : Zone S → Zone S
  stop z = if not z.is_running then z else record z { is_running = false }

  unfoldable pub add_client_deferred : ℕ → Zone S → Zone S
  unfolding post
  add_client_deferred client_id z = post (adds client_id) z

  unfoldable pub remove_client_deferred : ℕ → Zone S → Zone S
  unfolding post
  remove_client_deferred client_id z = post (removes client_id) z

  unfoldable pub handle_packet_deferred : ℕ → Packet → Zone S → Zone S
  unfolding post
  handle_packet_deferred client_id packet z = post (handles client_id packet) z

-- The bodies of the tasks.
module _ (game : Gameplay) where
  abbrev pub Outcome : Type 0
  Outcome = Result (Zone game.Subworld × Shared game.Entities)

  unfoldable pub add_client : ℕ → Zone game.Subworld → Shared game.Entities → Outcome
  unfolding start is_empty player_of broadcast other_players
  add_client client_id z s =
      let begun = if is_empty z.clients then start z else z in
      let clients = insert client_id client_id begun.clients in
      player_of client_id s.store >>= λ player.
      let entities = game.to_centre begun.subworld player s.entities in
      let subworld = game.add_entity player begun.subworld in
      other_players player clients s.store >>= λ others.
      let told = send_packet client_id (player_spawns others) s.store in
      let shown = send_packet client_id (entity_spawns (game.other_entities subworld)) told in
      ok (
        record begun { clients = clients; subworld = subworld },
        record {
          store = broadcast (player_spawn player) client_id clients shown;
          entities = entities;
        },
      )

  unfoldable pub remove_client : ℕ → Zone game.Subworld → Shared game.Entities → Outcome
  unfolding stop is_empty player_of broadcast
  remove_client client_id z s =
      if not (has_key client_id z.clients)
      then ok (z, s)
      else (player_of client_id s.store >>= λ player.
          let left = record z {
            subworld = game.remove_entity player z.subworld;
            clients = erase client_id z.clients;
          } in
          ok (
            if is_empty left.clients then stop left else left,
            record s {
              store = broadcast (entity_despawn player) no_exception left.clients s.store;
            },
          ))

  -- `now` is the clock before, `later` after the ticks of the world.
  unfoldable pub tick : ℕ → ℕ → Zone game.Subworld → Shared game.Entities → Outcome
  unfolding post broadcast broadcast_all
  tick now later z s =
      let (subworld, entities, packets) = game.tick_all z.subworld s.entities in
      let moved = entity_movements (game.all_entities subworld) in
      let store =
        broadcast moved no_exception z.clients (broadcast_all packets z.clients s.store) in
      ok (
        if not z.is_running
        then (z, s)
        else if ltb now (z.last_tick + tick_interval)
        then (post ticks z, s)
        else (
          post ticks (record z { subworld = subworld; last_tick = later }),
          record { store = store; entities = entities },
        ))

  unfoldable pub handle_player_movement :
      ℕ → ℕ → Zone game.Subworld → Shared game.Entities → Outcome
  unfolding player_of
  handle_player_movement client_id direction z s =
      if game.has_nan direction
      then ok (z, s)
      else (player_of client_id s.store >>= λ player.
          ok (z, record s { entities = game.turn player direction s.entities }))

  unfoldable pub handle_skill_melee_attack : ℕ → Zone game.Subworld → Shared game.Entities → Outcome
  unfolding player_of broadcast_all
  handle_skill_melee_attack client_id z s = player_of client_id s.store >>= λ player.
      elim (game.melee_weapon player s.entities) [
        | none ↦ ok (z, s)
        | some weapon ↦
            let (entities, packets) = game.use_weapon player weapon z.subworld s.entities in
            ok (z, record { store = broadcast_all packets z.clients s.store; entities = entities })
      ]

  unfoldable pub dispatch : ℕ → Packet → Zone game.Subworld → Shared game.Entities → Outcome
  unfolding handle_player_movement handle_skill_melee_attack
  dispatch client_id (player_movement direction) z s =
      handle_player_movement client_id direction z s
  dispatch client_id skill_melee_attack z s = handle_skill_melee_attack client_id z s
  dispatch client_id packet z s = ok (z, s)

  unfoldable pub handle_packet : ℕ → Packet → Zone game.Subworld → Shared game.Entities → Outcome
  unfolding dispatch
  handle_packet client_id packet z s =
      if not (has_key client_id z.clients) then ok (z, s) else dispatch client_id packet z s

  unfoldable pub run_task : ℕ → ℕ → ZoneTask → Zone game.Subworld → Shared game.Entities → Outcome
  unfolding add_client remove_client tick handle_packet
  run_task now later (adds client_id) z s = add_client client_id z s
  run_task now later (removes client_id) z s = remove_client client_id z s
  run_task now later (handles client_id packet) z s = handle_packet client_id packet z s
  run_task now later ticks z s = tick now later z s
