-- ===== src/Network/Refusals.antt =====
-- Which packets the handlers of the server throw at.
use tower_main.Common.{
  ℕ, ◌≡◌, refl, sym, ap, ◌∙◌, ◌⊎◌, inl, inr, ◌≢◌, Bool, true, false, ◌&&◌, ◌||◌, String, none, some,
  ◌==◌, nat_eq, ==-cases, Bool-cases, Option-cases, Result, ok, err, out_of_range, ◌>>=◌,
}
use tower_main.Common.Map.{lookup, insert, has_key, has_key-lookup, lookup-insert_ne}
use tower_main.Network.Client.{
  Packet, client_join_request, player_enter_zone_request, heart_beat, ping, player_movement,
  skill_melee_attack, unknown,
}
use tower_main.Network.Zone
use tower_main.Network.Zone.{Gameplay}
use tower_main.Network.Server
use tower_main.Network.Server.{
  Server, is_authenticated, at_zone, with_zones, change_zone, enter_from,
  handle_player_enter_zone_request, pass_on, handle_packet,
}
use tower_main.Network.Membership.{holds, is_some}

-- The packets that are passed on to a zone.
abbrev pub IsPassedOn : Packet → Type 0
IsPassedOn (player_movement direction) = Unit
IsPassedOn skill_melee_attack = Unit
IsPassedOn unknown = Unit
IsPassedOn _ = ⊥

-- A request to enter a zone from a client that the server does not have; or a packet for a zone from an authenticated
-- client whose noted zone does not exist, such as 0.
pub data Throws {game : Gameplay} (id : ℕ) (s : Server game) (packet : Packet) : Type 0 where
  no_client :
      (zone_id : ℕ)
      → packet ≡ player_enter_zone_request zone_id
      → lookup id s.clients_current_zone ≡ none
      → Throws id s packet
  no_zone :
      (zone_id : ℕ)
      → IsPassedOn packet
      → is_authenticated id s.shared.store ≡ true
      → lookup id s.clients_current_zone ≡ some zone_id
      → lookup zone_id s.zones ≡ none
      → Throws id s packet

guard_parts : (a b c : Bool) → ((a || b) && c) ≡ true → ((a ≡ true) ⊎ (b ≡ true)) × (c ≡ true)
guard_parts true b c h = (inl refl, h)
guard_parts false true c h = (inr refl, h)
guard_parts false false c h = absurd (cc)

module _ {game : Gameplay} where
  abbrev Returns : Result (Server game) → Type 0
  Returns r = (s' : Server game) × (r ≡ ok s')

  Returns-bind :
      (f : Server game → Result (Server game)) (r : Result (Server game))
      → (t : Server game) → r ≡ ok t
      → Returns (f t)
      → Returns (r >>= f)
  Returns-bind f r t e (s', h) = (s', ap (λ x. x >>= f) e ∙ h)

  at_zone-there :
      (z : ℕ) (call : Zone.Zone game.Subworld → Zone.Zone game.Subworld) (s : Server game)
      (zone : Zone.Zone game.Subworld)
      → lookup z s.zones ≡ some zone
      → at_zone z call s ≡ ok (with_zones (insert z (call zone) s.zones) s)
  unfolding at_zone
  at_zone-there z call s zone e = rw e

  there :
      (z : ℕ) (s : Server game)
      → has_key z s.zones ≡ true
      → (zone : Zone.Zone game.Subworld) × (lookup z s.zones ≡ some zone)
  there z s h = elim (has_key-lookup z s.zones) [
    | inl (_, found) ↦ found
    | inr (missing, _) ↦ (let f = sym h ∙ missing in absurd (cc))
  ]

  change_zone-Returns :
      (id c n : ℕ) (s : Server game)
      → c ≢ n
      → ((c == 0) ≡ true) ⊎ (has_key c s.zones ≡ true)
      → has_key n s.zones ≡ true
      → Returns (change_zone id c n s)
  unfolding change_zone with_zones
  change_zone-Returns id c n s apart from to =
      let (next, found) = there n s to in
      elim (Bool-cases (c == 0)) [
        | inl t ↦ rw t (_, at_zone-there n (Zone.add_client_deferred id) s next found)
        | inr t ↦
            let kept : has_key c s.zones ≡ true = elim from [
              | inl zero_zone ↦ (let f = sym t ∙ zero_zone in absurd (cc))
              | inr h ↦ h
            ] in
            let (old, at) = there c s kept in
            let left = with_zones (insert c (Zone.remove_client_deferred id old) s.zones) s in
            rw t (
              Returns-bind (at_zone n (Zone.add_client_deferred id))
                (at_zone c (Zone.remove_client_deferred id) s) left
                (at_zone-there c (Zone.remove_client_deferred id) s old at)
                (
                  _,
                  at_zone-there n (Zone.add_client_deferred id) left next
                      (lookup-insert_ne c n _ s.zones apart ∙ found),
                ))
      ]

  enter_from-Returns : (id c n : ℕ) (s : Server game) → Returns (enter_from id c n s)
  unfolding enter_from
  enter_from-Returns id c n s = elim (==-cases c n) [
    | inl (_, t) ↦ (s, rw t)
    | inr (apart, t) ↦ elim (Bool-cases ((c == 0 || has_key c s.zones) && has_key n s.zones)) [
      | inr u ↦ (Server.stop_client id s, rw (t, u))
      | inl u ↦
          let (from, to) = guard_parts (c == 0) (has_key c s.zones) (has_key n s.zones) u in
          let (moved, e) = change_zone-Returns id c n s apart from to in
          rw (t, u) (Returns-bind _ (change_zone id c n s) moved e (_, refl))
    ]
  ]

  abbrev Outcome : ℕ → Server game → Packet → Result (Server game) → Type 0
  Outcome id s packet r =
      Throws id s packet × (r ≡ err out_of_range) ⊎ ¬ Throws id s packet × Returns r

  -- A packet that is not passed on, nor asks for a zone, is never refused.
  calm :
      (id : ℕ) (s : Server game) (packet : Packet) (s' : Server game)
      → ¬ IsPassedOn packet
      → ((n : ℕ) → ¬ (packet ≡ player_enter_zone_request n))
      → Outcome id s packet (ok s')
  calm id s packet s' h k =
      inr (elim [ no_client n e _ ↦ k n e | no_zone n p _ _ _ ↦ h p ], (s', refl))

  enter-cases :
      (id n : ℕ) (s : Server game)
      → Outcome id s (player_enter_zone_request n) (handle_player_enter_zone_request id n s)
  unfolding handle_player_enter_zone_request
  enter-cases id n s = elim (Option-cases (lookup id s.clients_current_zone)) [
    | inl e ↦ rw e (inl (no_client n refl e, refl))
    | inr (c, e) ↦ rw e (
        inr (
          elim [ no_client m _ gone ↦ (let f = sym e ∙ gone in cc) | no_zone z p _ _ _ ↦ p ],
          enter_from-Returns id c n s,
        ))
  ]

  pass_on-cases :
      (id : ℕ) (packet : Packet) (s : Server game)
      → holds id s.clients ≡ holds id s.clients_current_zone
      → IsPassedOn packet
      → ((n : ℕ) → ¬ (packet ≡ player_enter_zone_request n))
      → Outcome id s packet (pass_on id packet s)
  unfolding pass_on
  pass_on-cases id packet s keys p other = elim (Bool-cases (is_authenticated id s.shared.store)) [
    | inr t ↦ rw t (
        inr (
          elim [ no_client n e _ ↦ other n e | no_zone z _ a _ _ ↦ (let f = sym t ∙ a in cc) ],
          (_, refl),
        ))
    | inl t ↦ elim (has_key-lookup id s.clients) [
      | inr (missing, gone) ↦
          let absent : holds id s.clients_current_zone ≡ false = sym keys ∙ ap is_some gone in
          rw (t, missing)
            (inr (
              elim [
                | no_client n e _ ↦ other n e
                | no_zone z _ _ e _ ↦ (let f = sym absent ∙ ap is_some e in cc)
              ],
              (s, refl),
            ))
      | inl (present, (j, found)) ↦
          let noted : holds id s.clients_current_zone ≡ true = sym keys ∙ ap is_some found in
          elim (Option-cases (lookup id s.clients_current_zone)) [
            | inl e ↦ (let f = sym noted ∙ ap is_some e in absurd (cc))
            | inr (z, e) ↦ elim (Option-cases (lookup z s.zones)) [
              | inl no_zone_there ↦
                  rw (t, present, e, at_zone, no_zone_there)
                    (inl (no_zone z p t e no_zone_there, refl))
              | inr (zone, at) ↦
                  rw (t, present, e)
                    (inr (
                      elim [
                        | no_client n e _ ↦ other n e
                        | no_zone y _ _ f gone ↦ (let g = sym e ∙ f in cc (g, gone, at))
                      ],
                      (_, at_zone-there z (Zone.handle_packet_deferred id packet) s zone at),
                    ))
            ]
          ]
    ]
  ]

  -- A handler of the server throws `std::out_of_range` exactly at a request to enter a zone from a client that the server
  -- does not have, and at a packet for a zone from an authenticated client whose noted zone does not exist; at any
  -- other packet it returns. The server has the same clients in both of its maps.
  pub handle_packet-cases :
      (verify : String → String → Bool) (id : ℕ) (packet : Packet) (s : Server game)
      → holds id s.clients ≡ holds id s.clients_current_zone
      → Throws id s packet × (handle_packet verify id packet s ≡ err out_of_range)
        ⊎ ¬ Throws id s packet × ((s' : Server game) × (handle_packet verify id packet s ≡ ok s'))
  unfolding handle_packet
  handle_packet-cases verify id (client_join_request u c t) s keys =
      calm id s _ _ (λ p. p) (λ n e. cc)
  handle_packet-cases verify id (player_enter_zone_request n) s keys = enter-cases id n s
  handle_packet-cases verify id heart_beat s keys = calm id s _ _ (λ p. p) (λ n e. cc)
  handle_packet-cases verify id (ping t) s keys = calm id s _ _ (λ p. p) (λ n e. cc)
  handle_packet-cases verify id (player_movement d) s keys =
      pass_on-cases id (player_movement d) s keys tt (λ n e. cc)
  handle_packet-cases verify id skill_melee_attack s keys =
      pass_on-cases id skill_melee_attack s keys tt (λ n e. cc)
  handle_packet-cases verify id unknown s keys = pass_on-cases id unknown s keys tt (λ n e. cc)
