-- ===== src/Network/Client.antt =====
-- tower/network/client.hpp, client.cpp and the state of connection.cpp: the clients, as a store of the shared
-- objects by their `client_id`. What the flatbuffers messages hold is written out as data, and an entity, such as
-- the player of a client, is known by its `entity_id`.
use tower_main.Common.{
  ℕ, Bool, true, false, String, if◌then◌else◌, List, [], ◌∷◌, ◌++◌, Option, none, some, nat_eq,
}
use tower_main.Common.Map.{Map, lookup, insert}

-- What the handlers read from a packet of a client. The last three are passed on to a zone; a direction is a
-- number that stands for its two floats.
pub data Packet : Type 0 where
  client_join_request : (username character_name token : Option String) → Packet
  player_enter_zone_request : (zone_id : ℕ) → Packet
  heart_beat : Packet
  ping : (timestamp : ℕ) → Packet
  player_movement : (direction : ℕ) → Packet
  skill_melee_attack : Packet
  unknown : Packet

-- What is sent to the clients.
pub data Outgoing : Type 0 where
  pong : (timestamp : ℕ) → Outgoing
  client_join_response : (entity_id : ℕ) → Outgoing
  player_enter_zone_response : (zone_id : ℕ) → Outgoing
  player_spawns : (entity_ids : List ℕ) → Outgoing
  entity_spawns : (entity_ids : List ℕ) → Outgoing
  player_spawn : (entity_id : ℕ) → Outgoing
  entity_despawn : (entity_id : ℕ) → Outgoing
  entity_movements : (entity_ids : List ℕ) → Outgoing
  replication : (content : ℕ) → Outgoing

-- `sent` lists the packets that were handed to the socket, the newest last.
pub record Client : Type 0 where
  pub is_authenticated : Bool
  pub player : Option ℕ
  pub is_running : Bool
  pub is_connected : Bool
  pub sent : List Outgoing

abbrev pub Store : Type 0
Store = Map ℕ Client

-- A client whose socket was accepted.
abbrev pub accepted : Client
accepted = record {
  is_authenticated = false;
  player = none;
  is_running = false;
  is_connected = true;
  sent = [];
}

unfoldable pub send_packet : ℕ → Outgoing → Store → Store
send_packet client_id packet store = elim (lookup client_id store) [
  | none ↦ store
  | some c ↦
      if c.is_connected
      then insert client_id (record c { sent = c.sent ++ packet ∷ [] }) store
      else store
]

unfoldable pub start : ℕ → Store → Store
start client_id store = elim (lookup client_id store) [
  | none ↦ store
  | some c ↦ if c.is_running then store else insert client_id (record c { is_running = true }) store
]

-- `Connection::disconnect`: the store, and whether the callback `_disconnected` is called.
unfoldable pub disconnect : ℕ → Store → Store × Bool
disconnect client_id store = elim (lookup client_id store) [
  | none ↦ (store, false)
  | some c ↦
      if c.is_connected
      then (insert client_id (record c { is_connected = false }) store, true)
      else (store, false)
]

-- `Client::stop`.
unfoldable pub stop : ℕ → Store → Store × Bool
unfolding disconnect
stop client_id store = elim (lookup client_id store) [
  | none ↦ (store, false)
  | some c ↦
      if c.is_running
      then disconnect client_id (insert client_id (record c { is_running = false }) store)
      else (store, false)
]
