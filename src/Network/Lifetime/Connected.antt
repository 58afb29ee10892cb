-- ===== src/Network/Lifetime/Connected.antt =====
-- What the operations on the store do to the connections of the clients.
use tower_main.Common.{
  ℕ, ◌≡◌, refl, sym, ap, ◌∙◌, inl, inr, Bool, true, false, if◌then◌else◌, List, [], ◌∷◌, ◌++◌,
  Option, some, ◌==◌, nat_eq, ==-cases, Bool-cases, Option-cases,
}
use tower_main.Common.Map.{Map, lookup, insert, lookup-insert_self, lookup-insert_ne}
use tower_main.Network.Client
use tower_main.Network.Client.{Client, Store, Outgoing, send_packet}
use tower_main.Network.Server.{set_authenticated, set_player}
use tower_main.Network.Zone
use tower_main.Network.Zone.{
  Gameplay, Shared, ZoneTask, adds, removes, handles, ticks, broadcast, broadcast_all,
}
use tower_main.Network.Lifetime.{is_open, connected}

abbrev pub SameConnected : Store → Store → Type 0
SameConnected store store' = (id : ℕ) → connected id store' ≡ connected id store

pub connected-insert :
    (id j : ℕ) (c : Client) (store : Store)
    → connected id (insert j c store) ≡ (if j == id then c.is_connected else connected id store)
connected-insert id j c store = elim (==-cases j id) [
  | inl (same, t) ↦
      rw t (
        ap is_open
          (ap (λ k. lookup k (insert j c store)) (sym same) ∙ lookup-insert_self j c store))
  | inr (apart, t) ↦ rw t (ap is_open (lookup-insert_ne j id c store apart))
]

-- A client is replaced by one that is connected as it was.
pub insert-SameConnected :
    (j : ℕ) (c c' : Client) (store : Store)
    → lookup j store ≡ some c
    → c'.is_connected ≡ c.is_connected
    → SameConnected store (insert j c' store)
insert-SameConnected j c c' store e same id =
    connected-insert id j c' store ∙ elim (==-cases j id) [
      | inl (at, t) ↦ rw t (same ∙ sym (ap is_open (ap (λ k. lookup k store) (sym at) ∙ e)))
      | inr (_, t) ↦ rw t
    ]

pub send_packet-SameConnected :
    (j : ℕ) (packet : Outgoing) (store : Store) → SameConnected store (send_packet j packet store)
unfolding send_packet
send_packet-SameConnected j packet store = elim (Option-cases (lookup j store)) [
  | inl e ↦ rw (e, send_packet) (λ id. refl)
  | inr (c, e) ↦ elim (Bool-cases c.is_connected) [
    | inl t ↦
        rw (e, t, send_packet)
          (insert-SameConnected j c (record c { is_connected = true; sent = c.sent ++ packet ∷ [] })
            store e (sym t))
    | inr t ↦ rw (e, t, send_packet) (λ id. refl)
  ]
]

pub start-SameConnected : (j : ℕ) (store : Store) → SameConnected store (Client.start j store)
unfolding Client.start
start-SameConnected j store = elim (Option-cases (lookup j store)) [
  | inl e ↦ rw (e, Client.start) (λ id. refl)
  | inr (c, e) ↦ elim (Bool-cases c.is_running) [
    | inl t ↦ rw (e, t, Client.start) (λ id. refl)
    | inr t ↦
        rw (e, t, Client.start)
          (insert-SameConnected j c (record c { is_running = true }) store e refl)
  ]
]

pub set_player-SameConnected :
    (j : ℕ) (player : Option ℕ) (store : Store) → SameConnected store (set_player j player store)
unfolding set_player
set_player-SameConnected j player store = elim (Option-cases (lookup j store)) [
  | inl e ↦ rw (e, set_player) (λ id. refl)
  | inr (c, e) ↦
      rw (e, set_player) (insert-SameConnected j c (record c { player = player }) store e refl)
]

pub set_authenticated-SameConnected :
    (j : ℕ) (store : Store) → SameConnected store (set_authenticated j store)
unfolding set_authenticated
set_authenticated-SameConnected j store = elim (Option-cases (lookup j store)) [
  | inl e ↦ rw (e, set_authenticated) (λ id. refl)
  | inr (c, e) ↦
      rw (e, set_authenticated)
        (insert-SameConnected j c (record c { is_authenticated = true }) store e refl)
]

-- What `disconnect` makes of the connections: it calls back only for a connected client, whose connection it ends.
pub record Closes (j : ℕ) (store : Store) (r : Store × Bool) : Type 0 where
  pub was_open : r.1 ≡ true → connected j store ≡ true
  pub closed :
      (id : ℕ)
      → connected id r.0
        ≡ (if r.1 then (if j == id then false else connected id store) else connected id store)

pub disconnect-Closes : (j : ℕ) (store : Store) → Closes j store (Client.disconnect j store)
unfolding Client.disconnect
disconnect-Closes j store = elim (Option-cases (lookup j store)) [
  | inl e ↦ rw (e, Client.disconnect) (record { was_open = λ t. cc; closed = λ id. refl })
  | inr (c, e) ↦ elim (Bool-cases c.is_connected) [
    | inl t ↦
        rw (e, t, Client.disconnect)
          (record {
            was_open = λ _. ap is_open e ∙ t;
            closed = λ id. connected-insert id j (record c { is_connected = false }) store;
          })
    | inr t ↦ rw (e, t, Client.disconnect) (record { was_open = λ f. cc; closed = λ id. refl })
  ]
]

pub stop-Closes : (j : ℕ) (store : Store) → Closes j store (Client.stop j store)
unfolding Client.stop
stop-Closes j store = elim (Option-cases (lookup j store)) [
  | inl e ↦ rw (e, Client.stop) (record { was_open = λ t. cc; closed = λ id. refl })
  | inr (c, e) ↦ elim (Bool-cases c.is_running) [
    | inr t ↦ rw (e, t, Client.stop) (record { was_open = λ f. cc; closed = λ id. refl })
    | inl t ↦
        let stopped = insert j (record c { is_running = false }) store in
        let same = insert-SameConnected j c (record c { is_running = false }) store e refl in
        let closes = disconnect-Closes j stopped in
        rw (e, t, Client.stop)
          (record {
            was_open = λ f. sym (same j) ∙ closes.was_open f;
            closed = λ id.
                closes.closed id
                ∙ ap
                    (λ b.
                      if (Client.disconnect j stopped).1 then (if j == id then false else b) else b)
                    (same id);
          })
  ]
]

pub broadcast-SameConnected :
    (packet : Outgoing) (except : ℕ) (clients : Map ℕ ℕ) (store : Store)
    → SameConnected store (broadcast packet except clients store)
unfolding broadcast
broadcast-SameConnected packet except [] store id = refl
broadcast-SameConnected packet except ((i, j) ∷ rest) store id = elim (Bool-cases (i == except)) [
  | inl t ↦ rw t (broadcast-SameConnected packet except rest store id)
  | inr t ↦ rw t (
      broadcast-SameConnected packet except rest (send_packet j packet store) id
      ∙ send_packet-SameConnected j packet store id)
]

pub broadcast_all-SameConnected :
    (packets : List Outgoing) (clients : Map ℕ ℕ) (store : Store)
    → SameConnected store (broadcast_all packets clients store)
unfolding broadcast_all
broadcast_all-SameConnected [] clients store id = refl
broadcast_all-SameConnected (packet ∷ packets) clients store id =
    broadcast_all-SameConnected packets clients (broadcast packet Zone.no_exception clients store)
      id
    ∙ broadcast-SameConnected packet Zone.no_exception clients store id
