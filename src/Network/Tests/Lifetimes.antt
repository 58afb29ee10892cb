-- ===== src/Network/Tests/Lifetimes.antt =====
-- The run in which a client enters a zone, followed by the loss of its connection; a packet from a client that has entered
-- no zone; and the start of a server of which the second zone cannot be read.
use tower_main.Common.{
  ℕ, ◌≡◌, refl, ◌⊎◌, false, if◌then◌else◌, List, [], ◌∷◌, Option, none, some, nat_eq, ok, err,
  out_of_range, ◌==◌, arith,
}
use tower_main.Common.Map.{lookup, insert, has_key}
use tower_main.Grid.{Grid}
use tower_main.Network.Client
use tower_main.Network.Client.{send_packet, player_movement, player_enter_zone_request}
use tower_main.Network.Terrain.{ZoneData}
use tower_main.Network.Server
use tower_main.Network.Server.{
  Server, ServerTask, accept_client, add_client, receive, handle_packet,
  handle_player_enter_zone_request, enter_from, change_zone, at_zone, with_zones, with_store,
  emplace, send, lose_connection, remove_client_deferred_if,
}
use tower_main.Network.Runs.{Run, done, after, runs, accepts, receives, loses}
use tower_main.Network.Membership.{Synced}
use tower_main.Network.Lifetime.{IsLive}
use tower_main.Network.Lifetime.Steps.{Run-IsLive, removal_returns}
use tower_main.Network.Refusals.{Throws, handle_packet-cases}
use tower_main.Network.Startup.{init, IsNew, AreSmall, IsReadable, init-cases}
use tower_main.Network.Tests.{listing, opened, verify, knocked, let_in, entered, entering}

abbrev lost : Server listing
lost = lose_connection 1 entered

lost_run : Run verify opened lost
unfolding accept_client add_client receive Server.run_task
lost_run = after (accepts opened) (
    after (runs (Server.adds 1) [] knocked let_in refl refl) (
      after (receives 5 6 1 100 (some (player_enter_zone_request 1)) let_in)
        (after entering (after (loses 1 entered) (done lost)))))

opened-IsLive : IsLive opened
unfolding lookup
opened-IsLive = record { same_keys = λ id. refl; ready = λ id. refl }

Run-IsLive_example : IsLive lost
Run-IsLive_example = Run-IsLive verify opened lost lost_run opened-IsLive

-- The removal is all that is left to do.
removal_last : lost.tasks ≡ Server.removes 1 ∷ []
unfolding accept_client add_client receive Server.run_task handle_packet
    handle_player_enter_zone_request enter_from change_zone at_zone with_zones with_store emplace
    send send_packet Client.start lookup insert has_key lose_connection Client.disconnect
    remove_client_deferred_if
removal_last = refl

removal_returns_example :
    (s'' : Server listing) × (Server.run_task verify (Server.removes 1) (record lost { tasks = [] })
      ≡ ok s'')
removal_returns_example =
    removal_returns verify opened lost 1 [] opened-IsLive lost_run removal_last

handle_packet-cases_example :
    Throws 7 opened (player_movement 3)
      × (handle_packet verify 7 (player_movement 3) opened ≡ err out_of_range)
    ⊎ ¬ Throws 7 opened (player_movement 3)
      × ((s' : Server listing) × (handle_packet verify 7 (player_movement 3) opened ≡ ok s'))
handle_packet-cases_example =
    handle_packet-cases verify 7 (player_movement 3) opened (opened-IsLive.same_keys 7)

abbrev cell_data : ZoneData
cell_data = record { size_x = 1; size_z = 1; blocked = false ∷ [] }

-- Only the first zone has a file.
abbrev files : ℕ → Option ZoneData
files zone_id = if zone_id == 1 then some cell_data else none

abbrev no_entities : Grid → List ℕ
no_entities g = []

files-AreSmall : AreSmall listing no_entities files
files-AreSmall zone_id z e = ground arith

abbrev built : Server listing
built = record opened { zones = [] }

built-IsNew : IsNew listing no_entities files built
built-IsNew = record {
  no_zones = refl;
  no_clients = refl;
  none_noted = refl;
  no_tasks = refl;
  no_store = refl;
}

init-cases_example :
    IsReadable listing no_entities files 1
      × ((s' : Server listing) × (init listing no_entities files 40 built ≡ ok s')
          × Synced s'
          × IsLive s')
    ⊎ ¬ IsReadable listing no_entities files 1
      × (init listing no_entities files 40 built ≡ err out_of_range)
init-cases_example = init-cases listing no_entities files 40 built built-IsNew files-AreSmall
