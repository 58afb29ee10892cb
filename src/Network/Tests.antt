-- ===== src/Network/Tests.antt =====
-- A server with two zones, of which a client enters the first, and the data of a small zone.
mod Lifetimes
use tower_main.Common.{
  Option, ◌-◌, ◌≤◌, ◌<◌, ℕ, ◌+◌, ◌*◌, ◌%◌, ◌^◌, ◌≡◌, ◌≢◌, refl, ap, ◌⊎◌, Bool, true, false, String,
  List, [], ◌∷◌, length, none, some, nat_eq, Result, ok, err, arith,
}
use tower_main.Common.Map.{lookup, insert, has_key}
use tower_main.Network.Client.{Client, accepted, Store, send_packet, player_enter_zone_request}
use tower_main.Network.Client
use tower_main.Network.HeartBeat.{
  HeartBeater, packet_at, timeout_at, handle_all, silent_client-stops,
}
use tower_main.Network.Receive.{throws, Receives, receive_packet, receive_packet-cases}
use tower_main.Network.Terrain.{ZoneData, create, Terrain, create-cases}
use tower_main.Network.Zone.{Gameplay, Zone}
use tower_main.Network.Server
use tower_main.Network.Server.{
  Server, accept_client, add_client, receive, handle_packet, handle_player_enter_zone_request,
  enter_from, change_zone, at_zone, with_zones, with_store, emplace, send,
}
use tower_main.Network.Membership.{Synced, will_hold}
use tower_main.Network.Runs.{Step, Run, done, after, runs, accepts, receives}
use tower_main.Network.Membership.Steps.{Run-Synced}

abbrev quiet : HeartBeater
quiet = record { last_beat = 0; dead_beats = 2; is_ticking = true; stops = 0; beats_sent = 7 }

silent_client-stops_example :
    ((handle_all
        (packet_at 1000 ∷ timeout_at 6001 ∷ timeout_at 11001 ∷ timeout_at 16001 ∷ [])
        quiet).stops
      ≡ 0)
    × ((handle_all
          (packet_at 1000 ∷ timeout_at 6001 ∷ timeout_at 11001 ∷ timeout_at 16001 ∷ [])
          quiet).beats_sent
        ≡ 7 + 3)
    × ((handle_all
          (packet_at 1000
            ∷ timeout_at 6001
            ∷ timeout_at 11001
            ∷ timeout_at 16001
            ∷ timeout_at 21001
            ∷ [])
          quiet).stops
        ≡ 1)
    × ((handle_all
          (packet_at 1000
            ∷ timeout_at 6001
            ∷ timeout_at 11001
            ∷ timeout_at 16001
            ∷ timeout_at 21001
            ∷ [])
          quiet).is_ticking
        ≡ false)
silent_client-stops_example =
    silent_client-stops 1000 21001 (timeout_at 6001 ∷ timeout_at 11001 ∷ timeout_at 16001 ∷ [])
      quiet refl (omega arith) refl

abbrev corridor : ZoneData
corridor = record { size_x = 3; size_z = 1; blocked = false ∷ true ∷ false ∷ [] }

create-cases_example :
    (3 * 1 % 2 ^ 32 ≢ length corridor.blocked) × (create corridor ≡ ok none)
    ⊎ (3 * 1 % 2 ^ 32 ≡ length corridor.blocked) × Terrain corridor (create corridor)
create-cases_example = create-cases corridor (omega arith) (omega arith)

-- A subworld is the list of its entities.
abbrev listing : Gameplay
listing = record {
  Subworld = List ℕ;
  Entities = ℕ;
  to_centre = λ w e es. es + 1;
  add_entity = λ e w. e ∷ w;
  remove_entity = λ e w. w;
  other_entities = λ w. [];
  all_entities = λ w. w;
  tick_all = λ w es. (w, es, []);
  has_nan = λ d. false;
  turn = λ e d es. es;
  melee_weapon = λ e es. none;
  use_weapon = λ e weapon w es. (es, []);
}

abbrev empty_zone : Zone (List ℕ)
empty_zone = record { is_running = false; last_tick = 0; clients = []; subworld = []; tasks = [] }

abbrev opened : Server listing
opened = record {
  is_running = true;
  clients = [];
  clients_current_zone = [];
  zones = (1, empty_zone) ∷ [];
  shared = record { store = []; entities = 0 };
  profiler = record { records = []; is_renewing = false; total_packets = 0; total_bytes = 0 };
  tasks = [];
  client_id_generator = 0;
}

abbrev verify : String → String → Bool
verify username token = true

one_zone : (z : ℕ) (zone : Zone (List ℕ)) → lookup z opened.zones ≡ some zone → zone ≡ empty_zone
unfolding lookup
one_zone z zone e = ground arith

opened-Synced : Synced opened
unfolding lookup
opened-Synced = record {
  no_zone_zero = refl;
  agree = λ id z zone e. ap (will_hold id) (one_zone z zone e);
}

abbrev knocked : Server listing
knocked = accept_client opened

abbrev let_in : Server listing
let_in = add_client 1 (record knocked { tasks = [] })

abbrev asked : Server listing
asked = receive 5 6 1 100 (some (player_enter_zone_request 1)) let_in

abbrev or_else : {A : Type 0} → A → Result A → A
or_else a (ok b) = b
or_else a (err e) = a

abbrev entered : Server listing
entered = or_else asked (
    Server.run_task verify (Server.handles 1 (player_enter_zone_request 1))
      (record asked { tasks = [] }))

entering : Step verify asked entered
unfolding accept_client add_client receive Server.run_task handle_packet
    handle_player_enter_zone_request enter_from change_zone at_zone with_zones with_store emplace
    send send_packet Client.start lookup insert has_key
entering = runs (Server.handles 1 (player_enter_zone_request 1)) [] asked entered refl refl

entered_run : Run verify opened entered
unfolding accept_client add_client receive Server.run_task
entered_run = after (accepts opened) (
    after (runs (Server.adds 1) [] knocked let_in refl refl) (
      after (receives 5 6 1 100 (some (player_enter_zone_request 1)) let_in)
        (after entering (done entered))))

Run-Synced_example : Synced entered
Run-Synced_example = Run-Synced verify opened entered entered_run opened-Synced

abbrev ten : ℕ
ten = 10

abbrev zeros : ℕ → Option (List ℕ)
zeros size = some (0 ∷ 0 ∷ [])

receive_packet-cases_example : Receives (some ten) zeros (receive_packet (some ten) zeros)
receive_packet-cases_example = receive_packet-cases (some ten) zeros

short_length : receive_packet (some 3) zeros ≡ throws
unfolding receive_packet
short_length = refl
