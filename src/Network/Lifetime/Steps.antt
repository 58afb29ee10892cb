-- ===== src/Network/Lifetime/Steps.antt =====
-- The tasks that are still to come for a client stay in order in every run, so that no removal throws.
use tower_main.Common.{
  ℕ, ◌≡◌, Error, sym, ap, subst, ◌∙◌, inl, inr, Bool, String, List, ◌∷◌, some, nat_eq, Bool-cases,
  ok, err,
}
use tower_main.Common.Map.{Map, lookup, insert, erase, has_key-lookup}
use tower_main.Network.Client
use tower_main.Network.Client.{
  Packet, client_join_request, player_enter_zone_request, heart_beat, ping, player_movement,
  skill_melee_attack, unknown, Outgoing, Store, send_packet, pong, client_join_response,
  player_enter_zone_response,
}
use tower_main.Network.Zone
use tower_main.Network.Zone.{Gameplay, ZoneTask, Shared}
use tower_main.Network.Server
use tower_main.Network.Server.{
  Server, ServerTask, JoinOutcome, prepare_failed, execute_failed, no_rows, no_player, loaded,
  stop_client, stop_clients, lose_connection, send, accept_client, receive, add_client,
  remove_client, at_zone, with_zones, with_store, remove_client_deferred_if,
  handle_client_join_request, resume_join, change_zone, enter_from,
  handle_player_enter_zone_request, pass_on, handle_packet, set_player, set_authenticated, clean_up,
}
use tower_main.Network.Runs.{
  Step, Run, accepts, receives, loses, resumes, runs, throws, starts, stops, zone_runs, done, after,
}
use tower_main.Network.Membership.{OnOk, OnOk-ok}
use tower_main.Network.Lifetime.{Lives, IsLive}
use tower_main.Network.Lifetime.Connected.{start-SameConnected}
use tower_main.Network.Lifetime.ZoneTasks.{run_task-Leaves}
use tower_main.Network.Lifetime.Tasks.{
  stop_client-IsLive, lose_connection-IsLive, stop_clients-IsLive, receive-IsLive,
  resume_join-IsLive, handle_packet-IsLive, stop_client-Keeps,
}
use tower_main.Network.Lifetime.Edits.{
  holds-lookup, Lives-store, Lives-neutral, Lives-accepted, Lives-added, Lives-removed,
}

module _ {game : Gameplay} where
  abbrev forget : ℕ → Server game → Server game
  forget j t = record t {
    clients = erase j t.clients;
    clients_current_zone = erase j t.clients_current_zone;
  }

  stop_client-forget :
      (j : ℕ) (s : Server game) → stop_client j (forget j s) ≡ forget j (stop_client j s)
  unfolding stop_client remove_client_deferred_if with_store
  stop_client-forget j s = elim (Bool-cases (Client.stop j s.shared.store).1) [
    | inl t ↦ rw t
    | inr t ↦ rw t
  ]

  remove_client-ok :
      (j c : ℕ) (s : Server game)
      → lookup j (stop_client j s).clients_current_zone ≡ some c
      → (zones : Map ℕ (Zone.Zone game.Subworld)) × (remove_client j s
          ≡ ok (forget j (with_zones zones (stop_client j s))))
  unfolding remove_client at_zone with_zones
  remove_client-ok j c s e =
      let t = stop_client j s in
      elim (has_key-lookup c t.zones) [
        | inl (there, (zone, found)) ↦
            (insert c (Zone.remove_client_deferred j zone) t.zones, rw (e, there, found))
        | inr (missing, gone) ↦ (t.zones, rw (e, missing))
      ]

  -- A removal whose turn it is returns.
  pub remove_client-returns :
      (j : ℕ) (s : Server game)
      → Lives (Server.removes j ∷ s.tasks) s.clients s.clients_current_zone s.shared.store
      → (s' : Server game) × (remove_client j s ≡ ok s') × IsLive s'
  unfolding with_zones
  remove_client-returns j s v =
      let t = stop_client j s in
      let (present, live) =
        Lives-removed s.tasks s.clients s.clients_current_zone s.shared.store j v in
      let stopped : IsLive (stop_client j (forget j s)) = stop_client-IsLive j (forget j s) live in
      let (c, found) = holds-lookup j s.clients_current_zone present in
      let (zones, returns) =
        remove_client-ok j c s (ap (lookup j) (stop_client-Keeps j s).noted ∙ found) in
      (forget j (with_zones zones t), returns, subst IsLive (stop_client-forget j s) stopped)

  run_task-IsLive :
      (verify : String → String → Bool) (task : ServerTask) (s : Server game)
      → Lives (task ∷ s.tasks) s.clients s.clients_current_zone s.shared.store
      → OnOk IsLive (Server.run_task verify task s)
  unfolding Server.run_task clean_up with_zones add_client with_store
  run_task-IsLive verify Server.cleans s v =
      stop_clients-IsLive s.clients s (record { same_keys = v.same_keys; ready = v.ready })
  run_task-IsLive verify (Server.adds j) s v =
      Lives-store s.tasks _ _ s.shared.store (Client.start j s.shared.store)
        (start-SameConnected j s.shared.store)
        (Lives-added s.tasks s.clients s.clients_current_zone s.shared.store j v)
  run_task-IsLive verify (Server.removes j) s v =
      let (s', returns, live) = remove_client-returns j s v in
      subst (OnOk IsLive) (sym returns) live
  run_task-IsLive verify (Server.handles j packet) s v =
      handle_packet-IsLive verify j packet s (record { same_keys = v.same_keys; ready = v.ready })
  run_task-IsLive verify (Server.resumes j outcome) s v =
      resume_join-IsLive j outcome s (record { same_keys = v.same_keys; ready = v.ready })

  -- A task that throws is a packet of a client.
  thrown-IsLive :
      (verify : String → String → Bool) (task : ServerTask) (s : Server game) (error : Error)
      → Server.run_task verify task s ≡ err error
      → Lives (task ∷ s.tasks) s.clients s.clients_current_zone s.shared.store
      → IsLive s
  unfolding Server.run_task
  thrown-IsLive verify Server.cleans s error e v = absurd (cc)
  thrown-IsLive verify (Server.adds j) s error e v = absurd (cc)
  thrown-IsLive verify (Server.removes j) s error e v =
      (let f = sym (remove_client-returns j s v).1 ∙ e in absurd (cc))
  thrown-IsLive verify (Server.handles j packet) s error e v = record {
    same_keys = v.same_keys;
    ready = v.ready;
  }
  thrown-IsLive verify (Server.resumes j outcome) s error e v = absurd (cc)

queued :
    {game : Gameplay} (task : ServerTask) (rest : List ServerTask) (s : Server game)
    → s.tasks ≡ task ∷ rest
    → IsLive s
    → Lives (task ∷ rest) s.clients s.clients_current_zone s.shared.store
queued task rest s e v = subst (λ ts. Lives ts s.clients s.clients_current_zone s.shared.store) e v

Step-IsLive :
    {game : Gameplay} (verify : String → String → Bool) {s s' : Server game}
    → Step verify s s'
    → IsLive s
    → IsLive s'
unfolding accept_client Server.start Server.stop
Step-IsLive verify (accepts s) v =
    Lives-accepted s.tasks s.clients s.clients_current_zone s.shared.store _ v
Step-IsLive verify (receives now later id size packet s) v =
    receive-IsLive now later id size packet s v
Step-IsLive verify (loses id s) v = lose_connection-IsLive id s v
Step-IsLive verify (resumes id outcome s) v =
    Lives-neutral s.tasks s.clients s.clients_current_zone s.shared.store
      (Server.resumes id outcome) tt v
Step-IsLive verify (starts s) v = elim (Bool-cases s.is_running) [ inl t ↦ rw t v | inr t ↦ rw t v ]
Step-IsLive verify (stops s) v = elim (Bool-cases s.is_running) [
  | inl t ↦
      rw t
        (Lives-neutral s.tasks s.clients s.clients_current_zone s.shared.store Server.cleans tt v)
  | inr t ↦ rw t v
]
Step-IsLive verify (runs task rest s s' queue result) v =
    OnOk-ok IsLive
      (run_task-IsLive verify task (record s { tasks = rest }) (queued task rest s queue v)) result
Step-IsLive verify (throws task rest s error queue result) v =
    thrown-IsLive verify task (record s { tasks = rest }) error result (queued task rest s queue v)
Step-IsLive {game = game} verify
      (zone_runs now later z zone zone' shared' task rest s found queue result) v =
    Lives-store s.tasks s.clients s.clients_current_zone s.shared.store shared'.store
      (OnOk-ok _ (run_task-Leaves game s.shared now later task (record zone { tasks = rest }))
        result)
      v

-- Suppose that the server has the same clients in both of its maps, and that its tasks add and remove each client in
-- turn and leave the connected ones. Then this is so after any run, whatever the strands and the outside world do.
pub Run-IsLive :
    {game : Gameplay} (verify : String → String → Bool) (s s' : Server game)
    → Run verify s s'
    → IsLive s
    → IsLive s'
Run-IsLive verify s s' (done t) v = v
Run-IsLive verify s s' (after step rest) v = Run-IsLive verify _ _ rest (Step-IsLive verify step v)

-- In every run from a server with the same clients in both of its maps, whose tasks add and remove each client in turn
-- and leave the connected ones: a removal of a client, when it is the first task, returns, so that no lookup of it
-- throws.
pub removal_returns :
    {game : Gameplay} (verify : String → String → Bool) (s s' : Server game) (j : ℕ)
    (rest : List ServerTask)
    → IsLive s
    → Run verify s s'
    → s'.tasks ≡ Server.removes j ∷ rest
    → (s'' : Server game) × (Server.run_task verify (Server.removes j) (record s' { tasks = rest })
        ≡ ok s'')
unfolding Server.run_task
removal_returns verify s s' j rest v run queue =
    let (s'', returns, _) =
      remove_client-returns j (record s' { tasks = rest })
        (queued (Server.removes j) rest s' queue (Run-IsLive verify s s' run v)) in
    (s'', returns)
