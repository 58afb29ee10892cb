-- ===== src/Network/Lifetime/Tasks.antt =====
-- What the tasks of the server, but for the removal, do to the tasks that are still to come for a client.
use tower_main.Common.{
  ℕ, ◌≡◌, refl, inl, inr, Bool, ◌&&◌, ◌||◌, String, [], ◌∷◌, Option, none, some, ◌==◌, nat_eq,
  Bool-cases, Option-cases, or_fail, out_of_range,
}
use tower_main.Common.Map.{Map, lookup, insert, has_key}
use tower_main.Network.Client
use tower_main.Network.Client.{
  Packet, client_join_request, player_enter_zone_request, heart_beat, ping, player_movement,
  skill_melee_attack, unknown, Outgoing, Store, send_packet, pong, client_join_response,
  player_enter_zone_response,
}
use tower_main.Network.Zone
use tower_main.Network.Zone.{Gameplay, ZoneTask, Shared}
use tower_main.Network.Server
use tower_main.Network.Server.{
  Server, ServerTask, JoinOutcome, prepare_failed, execute_failed, no_rows, no_player, loaded,
  stop_client, stop_clients, lose_connection, send, accept_client, receive, add_client,
  remove_client, at_zone, with_zones, with_store, remove_client_deferred_if,
  handle_client_join_request, resume_join, change_zone, enter_from,
  handle_player_enter_zone_request, pass_on, handle_packet, set_player, set_authenticated, clean_up,
}
use tower_main.Profiler.{add_packet}
use tower_main.Network.Membership.{OnOk, OnOk-bind, OnOk-chain}
use tower_main.Network.Lifetime.{IsLive}
use tower_main.Network.Lifetime.Connected.{
  SameConnected, Closes, disconnect-Closes, stop-Closes, send_packet-SameConnected,
  set_player-SameConnected, set_authenticated-SameConnected,
}
use tower_main.Network.Lifetime.Edits.{Lives-store, Lives-neutral, Lives-closed, Lives-moved}

module _ {game : Gameplay} where
  -- What a call that may stop a client leaves as it was.
  pub record Keeps (s t : Server game) : Type 0 where
    pub clients : t.clients ≡ s.clients
    pub noted : t.clients_current_zone ≡ s.clients_current_zone

  closed-IsLive :
      (j : ℕ) (r : Store × Bool) (s : Server game)
      → Closes j s.shared.store r
      → IsLive s
      → IsLive (remove_client_deferred_if r.1 j (with_store r.0 s))
  unfolding remove_client_deferred_if with_store
  closed-IsLive j r s c v =
      let w = Lives-closed s.tasks s.clients s.clients_current_zone s.shared.store j r c v in
      elim (Bool-cases r.1) [ inl t ↦ rw t (rw t at w) | inr t ↦ rw t (rw t at w) ]

  pub stop_client-IsLive : (j : ℕ) (s : Server game) → IsLive s → IsLive (stop_client j s)
  unfolding stop_client
  stop_client-IsLive j s v =
      closed-IsLive j (Client.stop j s.shared.store) s (stop-Closes j s.shared.store) v

  pub stop_client-Keeps : (j : ℕ) (s : Server game) → Keeps s (stop_client j s)
  unfolding stop_client remove_client_deferred_if with_store
  stop_client-Keeps j s = elim (Bool-cases (Client.stop j s.shared.store).1) [
    | inl t ↦ rw t (record { clients = refl; noted = refl })
    | inr t ↦ rw t (record { clients = refl; noted = refl })
  ]

  pub lose_connection-IsLive : (j : ℕ) (s : Server game) → IsLive s → IsLive (lose_connection j s)
  unfolding lose_connection
  lose_connection-IsLive j s v =
      closed-IsLive j (Client.disconnect j s.shared.store) s (disconnect-Closes j s.shared.store) v

  store-IsLive :
      (store : Store) (s : Server game)
      → SameConnected s.shared.store store
      → IsLive s
      → IsLive (with_store store s)
  unfolding with_store
  store-IsLive store s same v =
      Lives-store s.tasks s.clients s.clients_current_zone s.shared.store store same v

  send-IsLive : (j : ℕ) (packet : Outgoing) (s : Server game) → IsLive s → IsLive (send j packet s)
  unfolding send
  send-IsLive j packet s v =
      store-IsLive (send_packet j packet s.shared.store) s
        (send_packet-SameConnected j packet s.shared.store) v

  pub stop_clients-IsLive : (m : Map ℕ ℕ) (s : Server game) → IsLive s → IsLive (stop_clients m s)
  unfolding stop_clients
  stop_clients-IsLive [] s v = v
  stop_clients-IsLive ((id, j) ∷ rest) s v =
      stop_clients-IsLive rest (stop_client j s) (stop_client-IsLive j s v)

  pub receive-IsLive :
      (now later id size : ℕ) (packet : Option Packet) (s : Server game)
      → IsLive s
      → IsLive (receive now later id size packet s)
  unfolding receive
  receive-IsLive now later id size none s v =
      stop_client-IsLive id (record s { profiler = add_packet now later size s.profiler }) v
  receive-IsLive now later id size (some packet) s v =
      Lives-neutral s.tasks s.clients s.clients_current_zone s.shared.store
        (Server.handles id packet) tt v

  pub resume_join-IsLive :
      (id : ℕ) (outcome : JoinOutcome) (s : Server game)
      → IsLive s
      → IsLive (resume_join id outcome s)
  unfolding resume_join
  resume_join-IsLive id prepare_failed s v = v
  resume_join-IsLive id execute_failed s v = stop_client-IsLive id s v
  resume_join-IsLive id no_rows s v = stop_client-IsLive id s v
  resume_join-IsLive id no_player s v =
      stop_client-IsLive id (with_store (set_player id none s.shared.store) s) (
        store-IsLive (set_player id none s.shared.store) s
          (set_player-SameConnected id none s.shared.store) v)
  resume_join-IsLive id (loaded e) s v =
      send-IsLive id (client_join_response e) (with_store (set_player id (some e) s.shared.store) s)
        (store-IsLive (set_player id (some e) s.shared.store) s
          (set_player-SameConnected id (some e) s.shared.store) v)

  join_request-IsLive :
      (verify : String → String → Bool) (id : ℕ) (username character_name token : Option String)
      (s : Server game)
      → IsLive s
      → IsLive (handle_client_join_request verify id username character_name token s)
  unfolding handle_client_join_request
  join_request-IsLive verify id (some u) (some c) (some t) s v = elim (Bool-cases (verify u t)) [
    | inl e ↦ rw e (
        store-IsLive (set_authenticated id s.shared.store) s
          (set_authenticated-SameConnected id s.shared.store) v)
    | inr e ↦ rw e (stop_client-IsLive id s v)
  ]
  join_request-IsLive verify id none c t s v = stop_client-IsLive id s v
  join_request-IsLive verify id (some u) none t s v = stop_client-IsLive id s v
  join_request-IsLive verify id (some u) (some c) none s v = stop_client-IsLive id s v

  -- A call on a zone changes the zones alone.
  at_zone-Keeps :
      (P : Server game → Type 0) (z : ℕ) (call : Zone.Zone game.Subworld → Zone.Zone game.Subworld)
      (s : Server game)
      → ((zones : Map ℕ (Zone.Zone game.Subworld)) → P (with_zones zones s))
      → OnOk P (at_zone z call s)
  unfolding at_zone
  at_zone-Keeps P z call s h =
      OnOk-bind _ _ (or_fail (lookup z s.zones) out_of_range)
        (λ zone. h (insert z (call zone) s.zones))

  pass_on-IsLive :
      (id : ℕ) (packet : Packet) (s : Server game) → IsLive s → OnOk IsLive (pass_on id packet s)
  unfolding pass_on with_zones
  pass_on-IsLive id packet s v = elim (Bool-cases (Server.is_authenticated id s.shared.store)) [
    | inr t ↦ rw t (stop_client-IsLive id s v)
    | inl t ↦ elim (Bool-cases (has_key id s.clients)) [
      | inr u ↦ rw (t, u) v
      | inl u ↦
          rw (t, u)
            (OnOk-bind _ _ (or_fail (lookup id s.clients_current_zone) out_of_range)
              (λ z. at_zone-Keeps IsLive z _ s (λ zones. v)))
    ]
  ]

  change_zone-noted :
      (id c n : ℕ) (s : Server game)
      → lookup id s.clients_current_zone ≡ some c
      → IsLive s
      → OnOk
          (λ (t : Server game).
            IsLive (record t { clients_current_zone = insert id n t.clients_current_zone }))
          (change_zone id c n s)
  unfolding change_zone with_zones
  change_zone-noted id c n s e v =
      let moved = Lives-moved s.tasks s.clients s.clients_current_zone s.shared.store id n c e v in
      elim (Bool-cases (c == 0)) [
        | inl t ↦ rw t (at_zone-Keeps _ n (Zone.add_client_deferred id) s (λ zones. moved))
        | inr t ↦ rw t (
            OnOk-chain
              {Q = λ (t : Server game).
                (zones : Map ℕ (Zone.Zone game.Subworld))
                → IsLive (record t {
                  zones = zones;
                  clients_current_zone = insert id n t.clients_current_zone;
                })}
              _ (at_zone n (Zone.add_client_deferred id))
              (at_zone c (Zone.remove_client_deferred id) s)
              (at_zone-Keeps _ c (Zone.remove_client_deferred id) s (λ zones others. moved))
              (λ t left. at_zone-Keeps _ n (Zone.add_client_deferred id) t left))
      ]

  enter_from-IsLive :
      (id c n : ℕ) (s : Server game)
      → lookup id s.clients_current_zone ≡ some c
      → IsLive s
      → OnOk IsLive (enter_from id c n s)
  unfolding enter_from
  enter_from-IsLive id c n s e v = elim (Bool-cases (c == n)) [
    | inl t ↦ rw t v
    | inr t ↦ elim (Bool-cases ((c == 0 || has_key c s.zones) && has_key n s.zones)) [
      | inr u ↦ rw (t, u) (stop_client-IsLive id s v)
      | inl u ↦
          rw (t, u)
            (OnOk-chain _ _ (change_zone id c n s) (change_zone-noted id c n s e v) (λ moved w.
              send-IsLive id (player_enter_zone_response n)
                (record moved { clients_current_zone = insert id n moved.clients_current_zone }) w))
    ]
  ]

  enter-IsLive :
      (id n : ℕ) (s : Server game)
      → IsLive s
      → OnOk IsLive (handle_player_enter_zone_request id n s)
  unfolding handle_player_enter_zone_request
  enter-IsLive id n s v = elim (Option-cases (lookup id s.clients_current_zone)) [
    | inl e ↦ rw e tt
    | inr (c, e) ↦ rw e (enter_from-IsLive id c n s e v)
  ]

  pub handle_packet-IsLive :
      (verify : String → String → Bool) (id : ℕ) (packet : Packet) (s : Server game)
      → IsLive s
      → OnOk IsLive (handle_packet verify id packet s)
  unfolding handle_packet
  handle_packet-IsLive verify id (client_join_request u c t) s v =
      join_request-IsLive verify id u c t s v
  handle_packet-IsLive verify id (player_enter_zone_request n) s v = enter-IsLive id n s v
  handle_packet-IsLive verify id heart_beat s v = v
  handle_packet-IsLive verify id (ping t) s v = send-IsLive id (pong t) s v
  handle_packet-IsLive verify id (player_movement d) s v = pass_on-IsLive id (player_movement d) s v
  handle_packet-IsLive verify id skill_melee_attack s v = pass_on-IsLive id skill_melee_attack s v
  handle_packet-IsLive verify id unknown s v = pass_on-IsLive id unknown s v
