-- ===== src/Network/Membership/ZoneTasks.antt =====
-- Each task of a zone changes the clients that the zone holds as its name says, and no posted task is lost.
use tower_main.Common.{
  ℕ, ◌≡◌, refl, ap, ◌∙◌, inl, inr, Bool, ltb, if◌then◌else◌, none, nat_eq, ==-cases, Bool-cases,
  Option-cases, ◌+◌, arith,
}
use tower_main.Common.Map.{
  Map, lookup, insert, erase, has_key, has_key-lookup, lookup-insert, lookup-erase,
}
use tower_main.Network.Client.{
  Packet, client_join_request, player_enter_zone_request, heart_beat, ping, unknown,
  player_movement, skill_melee_attack,
}
use tower_main.Network.Zone
use tower_main.Network.Zone.{
  Gameplay, ZoneTask, adds, removes, handles, ticks, Shared, post, is_empty, player_of,
  other_players, tick_interval,
}
use tower_main.Network.Membership.{holds, applied, settled, OnOk, OnOk-bind, settled-append}

-- `z'` holds what the task makes of the clients of `z`, and all its posted tasks that change them.
pub record Keeps {S : Type 0} (task : ZoneTask) (z z' : Zone.Zone S) : Type 0 where
  pub held : (id : ℕ) → holds id z'.clients ≡ applied id task (holds id z.clients)
  pub queued : (id : ℕ) (b : Bool) → settled id z'.tasks b ≡ settled id z.tasks b

holds-insert : (id j : ℕ) (m : Map ℕ ℕ) → holds id (insert j j m) ≡ applied id (adds j) (holds id m)
holds-insert id j m = rw (lookup-insert j id j m) (ground arith)

holds-erase : (id j : ℕ) (m : Map ℕ ℕ) → holds id (erase j m) ≡ applied id (removes j) (holds id m)
holds-erase id j m = rw (lookup-erase j id m) (ground arith)

holds-missing :
    (id j : ℕ) (m : Map ℕ ℕ) → lookup j m ≡ none → holds id m ≡ applied id (removes j) (holds id m)
holds-missing id j m e = elim (==-cases j id) [
  | inl (same, t) ↦ rw (t, ← same, e)
  | inr (_, t) ↦ rw t
]

module _ {S : Type 0} where
  post-queued :
      (id : ℕ) (b : Bool) (z : Zone.Zone S)
      → settled id (post ticks z).tasks b ≡ settled id z.tasks b
  unfolding post
  post-queued id b z = settled-append id z.tasks ticks b

  start-same :
      (z : Zone.Zone S)
      → ((Zone.start z).clients ≡ z.clients)
        × ((id : ℕ) (b : Bool) → settled id (Zone.start z).tasks b ≡ settled id z.tasks b)
  unfolding Zone.start post
  start-same z = elim (Bool-cases z.is_running) [
    | inl t ↦ rw (t, Zone.start) (refl, λ id b. refl)
    | inr t ↦ rw (t, Zone.start) (refl, λ id b. settled-append id z.tasks ticks b)
  ]

  stop-same :
      (z : Zone.Zone S) → ((Zone.stop z).clients ≡ z.clients) × ((Zone.stop z).tasks ≡ z.tasks)
  unfolding Zone.stop
  stop-same z = ground arith

  begun-same :
      (z : Zone.Zone S)
      → let begun = if is_empty z.clients then Zone.start z else z in
        (begun.clients ≡ z.clients)
        × ((id : ℕ) (b : Bool) → settled id begun.tasks b ≡ settled id z.tasks b)
  begun-same z = elim (Bool-cases (is_empty z.clients)) [
    | inl t ↦ rw t (start-same z)
    | inr t ↦ rw t (refl, λ id b. refl)
  ]

  left-same :
      (left : Zone.Zone S)
      → let rest = if is_empty left.clients then Zone.stop left else left in
        (rest.clients ≡ left.clients) × (rest.tasks ≡ left.tasks)
  left-same left = elim (Bool-cases (is_empty left.clients)) [
    | inl t ↦ rw t (stop-same left)
    | inr t ↦ rw t (refl, refl)
  ]

module _ (game : Gameplay) (s : Shared game.Entities) where
  add_client-Keeps :
      (j : ℕ) (z : Zone.Zone game.Subworld)
      → OnOk (λ r. Keeps (adds j) z r.0) (Zone.add_client game j z s)
  unfolding Zone.add_client
  add_client-Keeps j z =
      let begun = if is_empty z.clients then Zone.start z else z in
      let (same, queued) = begun-same z in
      OnOk-bind _ _ (player_of j s.store) (λ player.
        OnOk-bind _ _ (other_players player (insert j j begun.clients) s.store) (λ others. record {
          held = λ id.
              holds-insert id j begun.clients
              ∙ ap (λ (m : Map ℕ ℕ). applied id (adds j) (holds id m)) same;
          queued = queued;
        }))

  remove_client-Keeps :
      (j : ℕ) (z : Zone.Zone game.Subworld)
      → OnOk (λ r. Keeps (removes j) z r.0) (Zone.remove_client game j z s)
  unfolding Zone.remove_client
  remove_client-Keeps j z = elim (has_key-lookup j z.clients) [
    | inl (there, _) ↦ rw there (
        OnOk-bind _ _ (player_of j s.store) (λ player.
          let left : Zone.Zone game.Subworld = record z {
            subworld = game.remove_entity player z.subworld;
            clients = erase j z.clients;
          } in
          let (same, queued) = left-same left in
          record {
            held = λ id. ap (holds id) same ∙ holds-erase id j z.clients;
            queued = λ id b. ap (λ ts. settled id ts b) queued;
          }))
    | inr (missing, gone) ↦
        rw missing
          (record { held = λ id. holds-missing id j z.clients gone; queued = λ id b. refl })
  ]

  tick-Keeps :
      (now later : ℕ) (z : Zone.Zone game.Subworld)
      → OnOk (λ r. Keeps ticks z r.0) (Zone.tick game now later z s)
  unfolding Zone.tick post
  tick-Keeps now later z = elim (Bool-cases z.is_running) [
    | inr t ↦ rw t (record { held = λ id. refl; queued = λ id b. refl })
    | inl t ↦ elim (Bool-cases (ltb now (z.last_tick + tick_interval))) [
      | inl early ↦
          rw (t, early)
            (record { held = λ id. refl; queued = λ id b. settled-append id z.tasks ticks b })
      | inr due ↦
          rw (t, due)
            (record { held = λ id. refl; queued = λ id b. settled-append id z.tasks ticks b })
    ]
  ]

  unchanged : (j : ℕ) (packet : Packet) (z : Zone.Zone game.Subworld) → Keeps (handles j packet) z z
  unchanged j packet z = record { held = λ id. refl; queued = λ id b. refl }

  movement-Keeps :
      (j direction : ℕ) (packet : Packet) (z : Zone.Zone game.Subworld)
      → OnOk
          (λ r. Keeps (handles j packet) z r.0)
          (Zone.handle_player_movement game j direction z s)
  unfolding Zone.handle_player_movement
  movement-Keeps j direction packet z = elim (Bool-cases (game.has_nan direction)) [
    | inl t ↦ rw t (unchanged j packet z)
    | inr t ↦ rw t (OnOk-bind _ _ (player_of j s.store) (λ player. unchanged j packet z))
  ]

  attack-Keeps :
      (j : ℕ) (packet : Packet) (z : Zone.Zone game.Subworld)
      → OnOk (λ r. Keeps (handles j packet) z r.0) (Zone.handle_skill_melee_attack game j z s)
  unfolding Zone.handle_skill_melee_attack
  attack-Keeps j packet z = OnOk-bind _ _ (player_of j s.store) (λ player.
      elim (Option-cases (game.melee_weapon player s.entities)) [
        | inl t ↦ rw t (unchanged j packet z)
        | inr (weapon, t) ↦ rw t (unchanged j packet z)
      ])

  dispatch-Keeps :
      (j : ℕ) (packet : Packet) (z : Zone.Zone game.Subworld)
      → OnOk (λ r. Keeps (handles j packet) z r.0) (Zone.dispatch game j packet z s)
  unfolding Zone.dispatch
  dispatch-Keeps j (player_movement direction) z =
      movement-Keeps j direction (player_movement direction) z
  dispatch-Keeps j skill_melee_attack z = attack-Keeps j skill_melee_attack z
  dispatch-Keeps j (client_join_request u c t) z = unchanged j _ z
  dispatch-Keeps j (player_enter_zone_request n) z = unchanged j _ z
  dispatch-Keeps j heart_beat z = unchanged j _ z
  dispatch-Keeps j (ping t) z = unchanged j _ z
  dispatch-Keeps j unknown z = unchanged j _ z

  handle_packet-Keeps :
      (j : ℕ) (packet : Packet) (z : Zone.Zone game.Subworld)
      → OnOk (λ r. Keeps (handles j packet) z r.0) (Zone.handle_packet game j packet z s)
  unfolding Zone.handle_packet
  handle_packet-Keeps j packet z = elim (Bool-cases (has_key j z.clients)) [
    | inl there ↦ rw there (dispatch-Keeps j packet z)
    | inr missing ↦ rw missing (unchanged j packet z)
  ]

  -- The tasks of a zone keep count of its clients.
  pub run_task-Keeps :
      (now later : ℕ) (task : ZoneTask) (z : Zone.Zone game.Subworld)
      → OnOk (λ r. Keeps task z r.0) (Zone.run_task game now later task z s)
  unfolding Zone.run_task
  run_task-Keeps now later (adds j) z = add_client-Keeps j z
  run_task-Keeps now later (removes j) z = remove_client-Keeps j z
  run_task-Keeps now later (handles j packet) z = handle_packet-Keeps j packet z
  run_task-Keeps now later ticks z = tick-Keeps now later z
