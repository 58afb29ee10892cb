-- ===== src/Network/Lifetime/ZoneTasks.antt =====
-- No task of a zone opens or closes a connection.
use tower_main.Common.{
  ℕ, refl, ◌∙◌, inl, inr, ltb, if◌then◌else◌, nat_eq, Bool-cases, Option-cases, ◌+◌,
}
use tower_main.Common.Map.{insert, erase, has_key}
use tower_main.Network.Client.{
  Packet, client_join_request, player_enter_zone_request, heart_beat, ping, unknown,
  player_movement, skill_melee_attack, player_spawns, entity_spawns, player_spawn, entity_despawn,
  entity_movements, send_packet,
}
use tower_main.Network.Zone
use tower_main.Network.Zone.{
  Gameplay, ZoneTask, adds, removes, handles, ticks, Shared, is_empty, player_of, other_players,
  broadcast, broadcast_all, tick_interval,
}
use tower_main.Network.Membership.{OnOk, OnOk-bind}
use tower_main.Network.Lifetime.Connected.{
  SameConnected, send_packet-SameConnected, broadcast-SameConnected, broadcast_all-SameConnected,
}

module _ (game : Gameplay) (s : Shared game.Entities) where
  abbrev Leaves : Zone.Zone game.Subworld × Shared game.Entities → Type 0
  Leaves r = SameConnected s.store r.1.store

  add_client-Leaves :
      (j : ℕ) (z : Zone.Zone game.Subworld) → OnOk Leaves (Zone.add_client game j z s)
  unfolding Zone.add_client
  add_client-Leaves j z =
      let begun = if is_empty z.clients then Zone.start z else z in
      OnOk-bind _ _ (player_of j s.store) (λ player.
        OnOk-bind _ _ (other_players player (insert j j begun.clients) s.store) (λ others id.
          let told = send_packet j (player_spawns others) s.store in
          let shown = entity_spawns (game.other_entities (game.add_entity player begun.subworld)) in
          broadcast-SameConnected (player_spawn player) j (insert j j begun.clients)
            (send_packet j shown told) id
          ∙ send_packet-SameConnected j shown told id
          ∙ send_packet-SameConnected j (player_spawns others) s.store id))

  remove_client-Leaves :
      (j : ℕ) (z : Zone.Zone game.Subworld) → OnOk Leaves (Zone.remove_client game j z s)
  unfolding Zone.remove_client
  remove_client-Leaves j z = elim (Bool-cases (has_key j z.clients)) [
    | inr t ↦ rw t (λ id. refl)
    | inl t ↦ rw t (
        OnOk-bind _ _ (player_of j s.store) (λ player id.
          broadcast-SameConnected (entity_despawn player) Zone.no_exception (erase j z.clients)
            s.store id))
  ]

  tick-Leaves :
      (now later : ℕ) (z : Zone.Zone game.Subworld) → OnOk Leaves (Zone.tick game now later z s)
  unfolding Zone.tick
  tick-Leaves now later z = elim (Bool-cases z.is_running) [
    | inr t ↦ rw t (λ id. refl)
    | inl t ↦ elim (Bool-cases (ltb now (z.last_tick + tick_interval))) [
      | inl early ↦ rw (t, early) (λ id. refl)
      | inr due ↦
          rw (t, due)
            (λ id.
              let ticked = game.tick_all z.subworld s.entities in
              broadcast-SameConnected (entity_movements (game.all_entities ticked.0))
                Zone.no_exception z.clients (broadcast_all ticked.2 z.clients s.store) id
              ∙ broadcast_all-SameConnected ticked.2 z.clients s.store id)
    ]
  ]

  movement-Leaves :
      (j direction : ℕ) (z : Zone.Zone game.Subworld)
      → OnOk Leaves (Zone.handle_player_movement game j direction z s)
  unfolding Zone.handle_player_movement
  movement-Leaves j direction z = elim (Bool-cases (game.has_nan direction)) [
    | inl t ↦ rw t (λ id. refl)
    | inr t ↦ rw t (OnOk-bind _ _ (player_of j s.store) (λ player id. refl))
  ]

  attack-Leaves :
      (j : ℕ) (z : Zone.Zone game.Subworld)
      → OnOk Leaves (Zone.handle_skill_melee_attack game j z s)
  unfolding Zone.handle_skill_melee_attack
  attack-Leaves j z = OnOk-bind _ _ (player_of j s.store) (λ player.
      elim (Option-cases (game.melee_weapon player s.entities)) [
        | inl t ↦ rw t (λ id. refl)
        | inr (weapon, t) ↦ rw t (λ id.
            broadcast_all-SameConnected (game.use_weapon player weapon z.subworld s.entities).1
              z.clients s.store id)
      ])

  dispatch-Leaves :
      (j : ℕ) (packet : Packet) (z : Zone.Zone game.Subworld)
      → OnOk Leaves (Zone.dispatch game j packet z s)
  unfolding Zone.dispatch
  dispatch-Leaves j (player_movement direction) z = movement-Leaves j direction z
  dispatch-Leaves j skill_melee_attack z = attack-Leaves j z
  dispatch-Leaves j (client_join_request u c t) z = λ id. refl
  dispatch-Leaves j (player_enter_zone_request n) z = λ id. refl
  dispatch-Leaves j heart_beat z = λ id. refl
  dispatch-Leaves j (ping t) z = λ id. refl
  dispatch-Leaves j unknown z = λ id. refl

  handle_packet-Leaves :
      (j : ℕ) (packet : Packet) (z : Zone.Zone game.Subworld)
      → OnOk Leaves (Zone.handle_packet game j packet z s)
  unfolding Zone.handle_packet
  handle_packet-Leaves j packet z = elim (Bool-cases (has_key j z.clients)) [
    | inl t ↦ rw t (dispatch-Leaves j packet z)
    | inr t ↦ rw t (λ id. refl)
  ]

  pub run_task-Leaves :
      (now later : ℕ) (task : ZoneTask) (z : Zone.Zone game.Subworld)
      → OnOk
          (λ (r : Zone.Zone game.Subworld × Shared game.Entities). SameConnected s.store r.1.store)
          (Zone.run_task game now later task z s)
  unfolding Zone.run_task
  run_task-Leaves now later (adds j) z = add_client-Leaves j z
  run_task-Leaves now later (removes j) z = remove_client-Leaves j z
  run_task-Leaves now later (handles j packet) z = handle_packet-Leaves j packet z
  run_task-Leaves now later ticks z = tick-Leaves now later z
