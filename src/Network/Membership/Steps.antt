-- ===== src/Network/Membership/Steps.antt =====
-- The steps of the server and of its zones, in any order, and that each keeps the zones in line with what the server
-- has noted.
use tower_main.Common.{
  arith, ℕ, ◌≡◌, refl, sym, ap, subst, ◌∙◌, inl, inr, Bool, ◌&&◌, ◌||◌, String, if◌then◌else◌,
  Option, none, some, ◌==◌, nat_eq, ==-cases, Bool-cases, Option-cases, Result, ok, or_fail,
  out_of_range,
}
use tower_main.Common.Map.{lookup, insert, erase, has_key, has_key-lookup}
use tower_main.Network.Client
use tower_main.Network.Client.{
  Packet, client_join_request, player_enter_zone_request, heart_beat, ping, player_movement,
  skill_melee_attack, unknown, Outgoing,
}
use tower_main.Network.Zone
use tower_main.Network.Zone.{Gameplay, ZoneTask, Shared}
use tower_main.Network.Server
use tower_main.Network.Server.{
  Server, ServerTask, JoinOutcome, prepare_failed, execute_failed, no_rows, no_player, loaded,
  stop_client, lose_connection, send, accept_client, receive, add_client, remove_client, at_zone,
  with_zones, with_store, remove_client_deferred_if, handle_client_join_request, resume_join,
  change_zone, enter_from, handle_player_enter_zone_request, pass_on, handle_packet, set_player,
}
use tower_main.Network.Runs.{
  Step, Run, accepts, receives, loses, resumes, runs, throws, starts, stops, zone_runs, done, after,
}
use tower_main.Network.Membership.{
  holds, settled, will_hold, Agrees, Synced, OnOk, OnOk-bind, OnOk-ok, OnOk-chain, settled-append,
}
use tower_main.Profiler.{add_packet}
use tower_main.Network.Membership.ZoneTasks.{run_task-Keeps}
use tower_main.Network.Membership.Edits.{edit-zone, post-removes, forget, post-adds, emplace-zero}

module _ {game : Gameplay} where
  record Same (s s' : Server game) : Type 0 where
    zones : s'.zones ≡ s.zones
    noted : s'.clients_current_zone ≡ s.clients_current_zone

  Same-Synced : {s s' : Server game} → Same s s' → Synced s → Synced s'
  Same-Synced {s} {s'} k y =
      subst (λ zs. Agrees zs s'.clients_current_zone) (sym k.zones)
        (subst (λ c. Agrees s.zones c) (sym k.noted) y)

  stop_client-Same : (id : ℕ) (s : Server game) → Same s (stop_client id s)
  unfolding stop_client with_store remove_client_deferred_if
  stop_client-Same id s = elim (Bool-cases (Client.stop id s.shared.store).1) [
    | inl t ↦ rw t (record { zones = refl; noted = refl })
    | inr t ↦ rw t (record { zones = refl; noted = refl })
  ]

  lose_connection-Same : (id : ℕ) (s : Server game) → Same s (lose_connection id s)
  unfolding lose_connection with_store remove_client_deferred_if
  lose_connection-Same id s = elim (Bool-cases (Client.disconnect id s.shared.store).1) [
    | inl t ↦ rw t (record { zones = refl; noted = refl })
    | inr t ↦ rw t (record { zones = refl; noted = refl })
  ]

  receive-Same :
      (now later id size : ℕ) (packet : Option Packet) (s : Server game)
      → Same s (receive now later id size packet s)
  unfolding receive
  receive-Same now later id size none s =
      let k = stop_client-Same id (record s { profiler = add_packet now later size s.profiler }) in
      record { zones = k.zones; noted = k.noted }
  receive-Same now later id size (some packet) s = (record { zones = refl; noted = refl })

  resume_join-Same :
      (id : ℕ) (outcome : JoinOutcome) (s : Server game) → Same s (resume_join id outcome s)
  unfolding resume_join send with_store
  resume_join-Same id prepare_failed s = (record { zones = refl; noted = refl })
  resume_join-Same id execute_failed s = stop_client-Same id s
  resume_join-Same id no_rows s = stop_client-Same id s
  resume_join-Same id no_player s =
      let k = stop_client-Same id (with_store (set_player id none s.shared.store) s) in
      record { zones = k.zones; noted = k.noted }
  resume_join-Same id (loaded entity_id) s = (record { zones = refl; noted = refl })

  join_request-Same :
      (verify : String → String → Bool) (id : ℕ) (username character_name token : Option String)
      (s : Server game)
      → Same s (handle_client_join_request verify id username character_name token s)
  unfolding handle_client_join_request with_store
  join_request-Same verify id (some u) (some c) (some t) s = elim (Bool-cases (verify u t)) [
    | inl e ↦ rw e (record { zones = refl; noted = refl })
    | inr e ↦ rw e (stop_client-Same id s)
  ]
  join_request-Same verify id none c t s = stop_client-Same id s
  join_request-Same verify id (some u) none t s = stop_client-Same id s
  join_request-Same verify id (some u) (some c) none s = stop_client-Same id s

  start-Same : (s : Server game) → Same s (Server.start s)
  unfolding Server.start
  start-Same s = ground arith

  stop-Same : (s : Server game) → Same s (Server.stop s)
  unfolding Server.stop
  stop-Same s = ground arith

  -- A call on a zone that leaves its clients alone.
  at_zone-Synced :
      (z : ℕ) (call : Zone.Zone game.Subworld → Zone.Zone game.Subworld) (s : Server game)
      → ((id : ℕ) (zone : Zone.Zone game.Subworld) → will_hold id (call zone) ≡ will_hold id zone)
      → Synced s
      → OnOk Synced (at_zone z call s)
  unfolding at_zone with_zones
  at_zone-Synced z call s same y = elim (Option-cases (lookup z s.zones)) [
    | inl e ↦ rw e tt
    | inr (zone, e) ↦
        rw e (edit-zone s.zones s.clients_current_zone z zone (call zone) y e (λ id. same id zone))
  ]

  pass_on-Synced :
      (id : ℕ) (packet : Packet) (s : Server game) → Synced s → OnOk Synced (pass_on id packet s)
  unfolding pass_on Zone.handle_packet_deferred Zone.post
  pass_on-Synced id packet s y = elim (Bool-cases (Server.is_authenticated id s.shared.store)) [
    | inr t ↦ rw t (Same-Synced (stop_client-Same id s) y)
    | inl t ↦ elim (Bool-cases (has_key id s.clients)) [
      | inr u ↦ rw (t, u) y
      | inl u ↦
          rw (t, u)
            (OnOk-bind _ _ (or_fail (lookup id s.clients_current_zone) out_of_range)
              (λ z. at_zone-Synced z _ s (λ j zone. settled-append j zone.tasks _ _) y))
    ]
  ]

  -- What is left where a client is taken from the zone that is noted for it.
  abbrev Without : ℕ → Server game → Type 0
  Without id t = Agrees t.zones (erase id t.clients_current_zone)

  take-Without :
      (id c : ℕ) (s : Server game)
      → lookup id s.clients_current_zone ≡ some c
      → Synced s
      → OnOk (Without id) (at_zone c (Zone.remove_client_deferred id) s)
  unfolding at_zone with_zones Zone.remove_client_deferred
  take-Without id c s e y = elim (Option-cases (lookup c s.zones)) [
    | inl none_there ↦ rw none_there tt
    | inr (zone, found) ↦ rw found (post-removes s.zones s.clients_current_zone id c zone y e found)
  ]

  leave-Without :
      (id c : ℕ) (s : Server game)
      → lookup id s.clients_current_zone ≡ some c
      → Synced s
      → OnOk
          (Without id)
          (if has_key c s.zones then at_zone c (Zone.remove_client_deferred id) s else ok s)
  leave-Without id c s e y = elim (has_key-lookup c s.zones) [
    | inr (missing, gone) ↦ rw missing (forget s.zones s.clients_current_zone id c y e gone)
    | inl (there, _) ↦ rw there (take-Without id c s e y)
  ]

  abbrev forget_client : ℕ → Server game → Result (Server game)
  forget_client id told = ok (record told {
    clients = erase id told.clients;
    clients_current_zone = erase id told.clients_current_zone;
  })

  remove_client-Synced : (id : ℕ) (s : Server game) → Synced s → OnOk Synced (remove_client id s)
  unfolding remove_client
  remove_client-Synced id s y =
      let stopped = stop_client id s in
      elim (Option-cases (lookup id stopped.clients_current_zone)) [
        | inl e ↦ rw e tt
        | inr (c, e) ↦ rw e (
            OnOk-chain {Q = Without id} Synced (forget_client id)
              (if has_key c stopped.zones
                then at_zone c (Zone.remove_client_deferred id) stopped
                else ok stopped)
              (leave-Without id c stopped e (Same-Synced (stop_client-Same id s) y))
              (λ told left. left))
      ]

  change_zone-noted :
      (id c n : ℕ) (s : Server game)
      → lookup id s.clients_current_zone ≡ some c
      → Synced s
      → OnOk
          (λ (t : Server game). Agrees t.zones (insert id n t.clients_current_zone))
          (change_zone id c n s)
  unfolding change_zone at_zone with_zones Zone.add_client_deferred
  change_zone-noted id c n s e y =
      let first : OnOk (Without id)
          (if c == 0 then ok s else at_zone c (Zone.remove_client_deferred id) s) =
        elim (==-cases c 0) [
          | inl (zero_zone, t) ↦ rw t (
              forget s.zones s.clients_current_zone id c y e
                (ap (λ k. lookup k s.zones) zero_zone ∙ y.no_zone_zero))
          | inr (_, t) ↦ rw t (take-Without id c s e y)
        ] in
      OnOk-chain {Q = Without id}
        (λ (t : Server game). Agrees t.zones (insert id n t.clients_current_zone))
        (at_zone n (Zone.add_client_deferred id))
        (if c == 0 then ok s else at_zone c (Zone.remove_client_deferred id) s) first
        (λ t left. elim (Option-cases (lookup n t.zones)) [
          | inl none_there ↦ rw none_there tt
          | inr (zone, found) ↦
              rw found (post-adds t.zones t.clients_current_zone id n zone left found)
        ])

  enter_from-Synced :
      (id c n : ℕ) (s : Server game)
      → lookup id s.clients_current_zone ≡ some c
      → Synced s
      → OnOk Synced (enter_from id c n s)
  unfolding enter_from send with_store
  enter_from-Synced id c n s e y = elim (Bool-cases (c == n)) [
    | inl t ↦ rw t y
    | inr t ↦ elim (Bool-cases ((c == 0 || has_key c s.zones) && has_key n s.zones)) [
      | inr u ↦ rw (t, u) (Same-Synced (stop_client-Same id s) y)
      | inl u ↦
          rw (t, u)
            (OnOk-chain _ _ (change_zone id c n s) (change_zone-noted id c n s e y)
              (λ moved noted. noted))
    ]
  ]

  enter-Synced :
      (id n : ℕ) (s : Server game)
      → Synced s
      → OnOk Synced (handle_player_enter_zone_request id n s)
  unfolding handle_player_enter_zone_request
  enter-Synced id n s y = elim (Option-cases (lookup id s.clients_current_zone)) [
    | inl e ↦ rw e tt
    | inr (c, e) ↦ rw e (enter_from-Synced id c n s e y)
  ]

  handle_packet-Synced :
      (verify : String → String → Bool) (id : ℕ) (packet : Packet) (s : Server game)
      → Synced s
      → OnOk Synced (handle_packet verify id packet s)
  unfolding handle_packet send with_store
  handle_packet-Synced verify id (client_join_request u c t) s y =
      Same-Synced (join_request-Same verify id u c t s) y
  handle_packet-Synced verify id (player_enter_zone_request n) s y = enter-Synced id n s y
  handle_packet-Synced verify id heart_beat s y = y
  handle_packet-Synced verify id (ping t) s y = y
  handle_packet-Synced verify id (player_movement d) s y = pass_on-Synced id (player_movement d) s y
  handle_packet-Synced verify id skill_melee_attack s y = pass_on-Synced id skill_melee_attack s y
  handle_packet-Synced verify id unknown s y = pass_on-Synced id unknown s y

  run_task-Synced :
      (verify : String → String → Bool) (task : ServerTask) (s : Server game)
      → Synced s
      → OnOk Synced (Server.run_task verify task s)
  unfolding Server.run_task add_client with_store Server.clean_up with_zones lookup
  run_task-Synced verify Server.cleans s y = record {
    no_zone_zero = refl;
    agree = λ id z zone e. absurd (cc);
  }
  run_task-Synced verify (Server.adds id) s y = emplace-zero s.zones s.clients_current_zone id y
  run_task-Synced verify (Server.removes id) s y = remove_client-Synced id s y
  run_task-Synced verify (Server.handles id packet) s y = handle_packet-Synced verify id packet s y
  run_task-Synced verify (Server.resumes id outcome) s y =
      Same-Synced (resume_join-Same id outcome s) y

Step-Synced :
    {game : Gameplay} (verify : String → String → Bool) {s s' : Server game}
    → Step verify s s'
    → Synced s
    → Synced s'
unfolding accept_client
Step-Synced verify (accepts s) y = y
Step-Synced verify (receives now later id size packet s) y =
    Same-Synced (receive-Same now later id size packet s) y
Step-Synced verify (loses id s) y = Same-Synced (lose_connection-Same id s) y
Step-Synced verify (resumes id outcome s) y = y
Step-Synced verify (runs task rest s s' queue result) y =
    OnOk-ok Synced (run_task-Synced verify task (record s { tasks = rest }) y) result
Step-Synced verify (throws task rest s error queue result) y = y
Step-Synced verify (starts s) y = Same-Synced (start-Same s) y
Step-Synced verify (stops s) y = Same-Synced (stop-Same s) y
Step-Synced {game = game} verify
      (zone_runs now later z zone zone' shared' task rest s found queue result) y =
    edit-zone s.zones s.clients_current_zone z zone zone' y found (λ id.
      let k =
        OnOk-ok _ (run_task-Keeps game s.shared now later task (record zone { tasks = rest }))
          result in
      k.queued id (holds id zone'.clients)
      ∙ ap (settled id rest) (k.held id)
      ∙ ap (λ ts. settled id ts (holds id zone.clients)) (sym queue))

-- Suppose that there is no zone 0 and that each zone, once it has run what is posted to it, will hold exactly the
-- clients for which the server has noted that zone. Then this is so after any run, whatever the strands and the
-- outside world do and in whatever order.
pub Run-Synced :
    {game : Gameplay} (verify : String → String → Bool) (s s' : Server game)
    → Run verify s s'
    → Synced s
    → Synced s'
Run-Synced verify s s' (done t) y = y
Run-Synced verify s s' (after step rest) y = Run-Synced verify _ _ rest (Step-Synced verify step y)
