-- ===== src/Network/Server.antt =====
-- tower/network/server.cpp: the tasks that run on the strand of the server. The check of a token by `jwt` and the
-- outcome of the queries of a join are arguments.
use tower_main.Common.{
  ℕ, ◌+◌, ◌%◌, ◌^◌, Bool, true, false, String, not, ◌&&◌, ◌||◌, if◌then◌else◌, List, [], ◌∷◌, ◌++◌,
  Option, none, some, ◌==◌, nat_eq, Result, ok, ◌>>=◌, or_fail, out_of_range,
}
use tower_main.Common.Map.{Map, lookup, insert, erase, has_key}
use tower_main.Network.Client
use tower_main.Network.Client.{
  Packet, client_join_request, player_enter_zone_request, heart_beat, ping, Outgoing, pong,
  client_join_response, player_enter_zone_response, Store, send_packet, accepted,
}
use tower_main.Network.Zone.{
  Gameplay, Zone, Shared, add_client_deferred, remove_client_deferred, handle_packet_deferred,
}
use tower_main.Profiler.{Profiler, add_packet}

-- How the queries of a join end.
pub data JoinOutcome : Type 0 where
  prepare_failed execute_failed no_rows no_player : JoinOutcome
  loaded : (entity_id : ℕ) → JoinOutcome

-- What is posted to the strand of the server. `resumes` is the rest of a join after its queries, `cleans` the task
-- that `Server::stop` waits for.
pub data ServerTask : Type 0 where
  cleans : ServerTask
  adds removes : (client_id : ℕ) → ServerTask
  handles : (client_id : ℕ) → Packet → ServerTask
  resumes : (client_id : ℕ) → JoinOutcome → ServerTask

pub record Server (game : Gameplay) : Type 0 where
  pub is_running : Bool
  pub clients : Map ℕ ℕ
  pub clients_current_zone : Map ℕ ℕ
  pub zones : Map ℕ (Zone game.Subworld)
  pub shared : Shared game.Entities
  pub profiler : Profiler
  pub tasks : List ServerTask
  pub client_id_generator : ℕ

-- `unordered_map::emplace`, which keeps an entry that is there.
unfoldable pub emplace : ℕ → ℕ → Map ℕ ℕ → Map ℕ ℕ
emplace key value m = if has_key key m then m else insert key value m

unfoldable pub set_authenticated : ℕ → Store → Store
set_authenticated client_id store = elim (lookup client_id store) [
  | none ↦ store
  | some c ↦ insert client_id (record c { is_authenticated = true }) store
]

unfoldable pub set_player : ℕ → Option ℕ → Store → Store
set_player client_id player store = elim (lookup client_id store) [
  | none ↦ store
  | some c ↦ insert client_id (record c { player = player }) store
]

unfoldable pub is_authenticated : ℕ → Store → Bool
is_authenticated client_id store = elim (lookup client_id store) [
  | none ↦ false
  | some c ↦ c.is_authenticated
]

module _ {game : Gameplay} where
  unfoldable pub with_store : Store → Server game → Server game
  with_store store s = record s { shared = record s.shared { store = store } }

  unfoldable pub with_zones : Map ℕ (Zone game.Subworld) → Server game → Server game
  with_zones zones s = record s { zones = zones }

  -- `_disconnected` is `remove_client_deferred`.
  unfoldable pub remove_client_deferred_if : Bool → ℕ → Server game → Server game
  remove_client_deferred_if called client_id s =
      if called then record s { tasks = s.tasks ++ removes client_id ∷ [] } else s

  unfoldable pub stop_client : ℕ → Server game → Server game
  unfolding with_store remove_client_deferred_if
  stop_client client_id s =
      let (store, called) = Client.stop client_id s.shared.store in
      remove_client_deferred_if called client_id (with_store store s)

  -- The socket of a client fails, as a send or a receive finds.
  unfoldable pub lose_connection : ℕ → Server game → Server game
  unfolding with_store remove_client_deferred_if
  lose_connection client_id s =
      let (store, called) = Client.disconnect client_id s.shared.store in
      remove_client_deferred_if called client_id (with_store store s)

  unfoldable pub send : ℕ → Outgoing → Server game → Server game
  unfolding with_store
  send client_id packet s = with_store (send_packet client_id packet s.shared.store) s

  -- `Server::add_client_deferred`, of an accepted socket.
  unfoldable pub accept_client : Server game → Server game
  accept_client s =
      let client_id = (s.client_id_generator + 1) % 2 ^ 32 in
      record s {
        client_id_generator = client_id;
        shared = record s.shared { store = insert client_id accepted s.shared.store };
        tasks = s.tasks ++ adds client_id ∷ [];
      }

  -- The callback of the connection; there is no packet where the verifier fails.
  unfoldable pub receive : ℕ → ℕ → ℕ → ℕ → Option Packet → Server game → Server game
  unfolding stop_client
  receive now later client_id size packet s =
      let counted = record s { profiler = add_packet now later size s.profiler } in
      elim packet [
        | none ↦ stop_client client_id counted
        | some p ↦ record counted { tasks = s.tasks ++ handles client_id p ∷ [] }
      ]

  unfoldable pub add_client : ℕ → Server game → Server game
  unfolding emplace with_store
  add_client client_id s = with_store (Client.start client_id s.shared.store) (record s {
    clients = emplace client_id client_id s.clients;
    clients_current_zone = emplace client_id 0 s.clients_current_zone;
  })

  -- `_zones.at(zone_id)->...`, where the call posts to the strand of the zone.
  unfoldable pub at_zone :
      ℕ → (Zone game.Subworld → Zone game.Subworld) → Server game → Result (Server game)
  unfolding with_zones
  at_zone zone_id call s = or_fail (lookup zone_id s.zones) out_of_range >>= λ zone.
      ok (with_zones (insert zone_id (call zone) s.zones) s)

  unfoldable pub remove_client : ℕ → Server game → Result (Server game)
  unfolding stop_client at_zone
  remove_client client_id s =
      let stopped = stop_client client_id s in
      or_fail (lookup client_id stopped.clients_current_zone) out_of_range >>= λ current_zone.
      (if has_key current_zone stopped.zones
        then at_zone current_zone (remove_client_deferred client_id) stopped
        else ok stopped)
      >>= λ told. ok (record told {
        clients = erase client_id told.clients;
        clients_current_zone = erase client_id told.clients_current_zone;
      })

  -- The first part of the coroutine, up to the queries.
  unfoldable pub handle_client_join_request :
      (String → String → Bool)
      → ℕ
      → Option String
      → Option String
      → Option String
      → Server game
      → Server game
  unfolding stop_client with_store set_authenticated
  handle_client_join_request verify client_id (some username) (some character_name) (some token) s =
      if verify username token
      then with_store (set_authenticated client_id s.shared.store) s
      else stop_client client_id s
  handle_client_join_request verify client_id username character_name token s =
      stop_client client_id s

  unfoldable pub resume_join : ℕ → JoinOutcome → Server game → Server game
  unfolding stop_client with_store set_player send
  resume_join client_id prepare_failed s = s
  resume_join client_id execute_failed s = stop_client client_id s
  resume_join client_id no_rows s = stop_client client_id s
  resume_join client_id no_player s =
      stop_client client_id (with_store (set_player client_id none s.shared.store) s)
  resume_join client_id (loaded entity_id) s =
      send client_id (client_join_response entity_id)
        (with_store (set_player client_id (some entity_id) s.shared.store) s)

  -- The two calls that move the client from zone to zone.
  unfoldable pub change_zone : ℕ → ℕ → ℕ → Server game → Result (Server game)
  unfolding at_zone
  change_zone client_id current_zone_id next_zone_id s =
      (if current_zone_id == 0
        then ok s
        else at_zone current_zone_id (remove_client_deferred client_id) s)
      >>= at_zone next_zone_id (add_client_deferred client_id)

  unfoldable pub enter_from : ℕ → ℕ → ℕ → Server game → Result (Server game)
  unfolding change_zone stop_client send
  enter_from client_id current_zone_id next_zone_id s =
      if current_zone_id == next_zone_id
      then ok s
      else (if (current_zone_id == 0 || has_key current_zone_id s.zones)
            && has_key next_zone_id s.zones
          then (change_zone client_id current_zone_id next_zone_id s >>= λ moved. ok (
              send client_id (player_enter_zone_response next_zone_id) (record moved {
                clients_current_zone = insert client_id next_zone_id moved.clients_current_zone;
              })))
          else ok (stop_client client_id s))

  unfoldable pub handle_player_enter_zone_request : ℕ → ℕ → Server game → Result (Server game)
  unfolding enter_from
  handle_player_enter_zone_request client_id next_zone_id s =
      or_fail (lookup client_id s.clients_current_zone) out_of_range >>= λ current_zone_id.
      enter_from client_id current_zone_id next_zone_id s

  -- The default case of the switch.
  unfoldable pub pass_on : ℕ → Packet → Server game → Result (Server game)
  unfolding stop_client at_zone is_authenticated
  pass_on client_id packet s =
      if not (is_authenticated client_id s.shared.store)
      then ok (stop_client client_id s)
      else (if not (has_key client_id s.clients)
          then ok s
          else (or_fail (lookup client_id s.clients_current_zone) out_of_range >>= λ zone_id.
              at_zone zone_id (handle_packet_deferred client_id packet) s))

  unfoldable pub handle_packet :
      (String → String → Bool) → ℕ → Packet → Server game → Result (Server game)
  unfolding handle_client_join_request handle_player_enter_zone_request send pass_on
  handle_packet verify client_id (client_join_request username character_name token) s =
      ok (handle_client_join_request verify client_id username character_name token s)
  handle_packet verify client_id (player_enter_zone_request zone_id) s =
      handle_player_enter_zone_request client_id zone_id s
  handle_packet verify client_id heart_beat s = ok s
  handle_packet verify client_id (ping timestamp) s = ok (send client_id (pong timestamp) s)
  handle_packet verify client_id packet s = pass_on client_id packet s

  unfoldable pub stop_clients : Map ℕ ℕ → Server game → Server game
  unfolding stop_client
  stop_clients [] s = s
  stop_clients ((id, client_id) ∷ rest) s = stop_clients rest (stop_client client_id s)

  -- The zones that are stopped here are cleared at once.
  unfoldable pub clean_up : Server game → Server game
  unfolding stop_clients with_zones
  clean_up s = with_zones [] (stop_clients s.clients s)

  -- The flag, with which the accepting loop begins.
  unfoldable pub start : Server game → Server game
  start s = if s.is_running then s else record s { is_running = true }

  unfoldable pub stop : Server game → Server game
  stop s =
      if not s.is_running
      then s
      else record s { is_running = false; tasks = s.tasks ++ cleans ∷ [] }

  unfoldable pub run_task :
      (String → String → Bool) → ServerTask → Server game → Result (Server game)
  unfolding add_client remove_client handle_packet resume_join clean_up
  run_task verify cleans s = ok (clean_up s)
  run_task verify (adds client_id) s = ok (add_client client_id s)
  run_task verify (removes client_id) s = remove_client client_id s
  run_task verify (handles client_id packet) s = handle_packet verify client_id packet s
  run_task verify (resumes client_id outcome) s = ok (resume_join client_id outcome s)
