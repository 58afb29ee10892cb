-- ===== src/Network/Startup.antt =====
-- `Server::init` of tower/network/server.cpp, and the zones that `Zone::create` makes. What is read from the file of a zone,
-- if it can be read and verified, is an argument, and so is the subworld that is made of the obstacles.
use tower_main.Common.{
  ℕ, zero, suc, ◌*◌, ◌≤◌, ◌<◌, ◌%◌, ◌^◌, ◌≡◌, refl, sym, ap, subst, ◌∙◌, ◌⊎◌, inl, inr, ◌≢◌, false,
  [], Option, none, some, nat_eq, ==-cases, Option-cases, Result, ok, err, out_of_range, ◌>>=◌,
  arith, length,
}
use tower_main.Common.Map.{Map, lookup, insert, lookup-insert_self, lookup-insert_ne}
use tower_main.Grid.{Grid}
use tower_main.Network.Zone
use tower_main.Network.Zone.{Gameplay}
use tower_main.Network.Terrain.{ZoneData, create, create-cases}
use tower_main.Network.Server.{Server, at_zone, with_zones}
use tower_main.Network.Membership.{Synced, Agrees}
use tower_main.Network.Lifetime.{IsLive}

abbrev pub zone_count : ℕ
zone_count = 10

module _ (game : Gameplay) (make_subworld : Grid → game.Subworld)
    (read_zone : ℕ → Option ZoneData) where
  abbrev pub new_zone : game.Subworld → Zone.Zone game.Subworld
  new_zone subworld = record {
    is_running = false;
    last_tick = 0;
    clients = [];
    subworld = subworld;
    tasks = [];
  }

  unfoldable pub create_zone : Option ZoneData → Result (Option (Zone.Zone game.Subworld))
  create_zone none = ok none
  create_zone (some z) = create z >>= λ grid.
      ok (elim grid [ none ↦ none | some g ↦ some (new_zone (make_subworld g)) ])

  abbrev pub put :
      ℕ
      → Option (Zone.Zone game.Subworld)
      → Map ℕ (Zone.Zone game.Subworld)
      → Map ℕ (Zone.Zone game.Subworld)
  put zone_id none zones = zones
  put zone_id (some zone) zones = insert zone_id zone zones

  -- The loop, with the zones that are left and the identifier of the first.
  unfoldable pub create_zones :
      ℕ → ℕ → Map ℕ (Zone.Zone game.Subworld) → Result (Map ℕ (Zone.Zone game.Subworld))
  unfolding create_zone
  create_zones zero zone_id zones = ok zones
  create_zones (suc left) zone_id zones = create_zone (read_zone zone_id) >>= λ zone.
      create_zones left (suc zone_id) (put zone_id zone zones)

  -- A monster is added to the first zone.
  unfoldable pub init : ℕ → Server game → Result (Server game)
  unfolding create_zones at_zone with_zones
  init monster s = create_zones zone_count 1 s.zones >>= λ zones.
      at_zone 1 (λ zone. record zone { subworld = game.add_entity monster zone.subworld })
        (with_zones zones s)

  -- The sides of every zone fit an `int`.
  abbrev pub AreSmall : Type 0
  AreSmall =
      (zone_id : ℕ) (z : ZoneData)
      → read_zone zone_id ≡ some z
      → (z.size_x < 2 ^ 31) × (z.size_z < 2 ^ 31)

  -- The data of the zone can be read, and has a cell for each point of its grid.
  abbrev pub IsReadable : ℕ → Type 0
  IsReadable zone_id =
      (z : ZoneData) × (read_zone zone_id ≡ some z)
      × (z.size_x * z.size_z % 2 ^ 32 ≡ length z.blocked)

  -- Zones without clients or tasks, and no zone 0.
  record IsFresh (zones : Map ℕ (Zone.Zone game.Subworld)) : Type 0 where
    no_zone_zero : lookup 0 zones ≡ none
    quiet :
        (z : ℕ) (zone : Zone.Zone game.Subworld)
        → lookup z zones ≡ some zone
        → (zone.clients ≡ []) × (zone.tasks ≡ [])

  create_zone-cases :
      AreSmall
      → (zone_id : ℕ)
      → (IsReadable zone_id
          × ((w : game.Subworld) × (create_zone (read_zone zone_id) ≡ ok (some (new_zone w)))))
        ⊎ ¬ IsReadable zone_id × (create_zone (read_zone zone_id) ≡ ok none)
  unfolding create_zone
  create_zone-cases small zone_id = elim (Option-cases (read_zone zone_id)) [
    | inl e ↦ inr (λ r. (let f = sym e ∙ r.1 in cc), rw e)
    | inr (z, e) ↦
        let (x, y) = small zone_id z e in
        elim (create-cases z x y) [
          | inl (apart, rejected) ↦ inr (
            λ r. apart (
                let f = sym e ∙ r.1 in
                (let g : r.0 ≡ z = cc in
                  subst (λ (d : ZoneData). d.size_x * d.size_z % 2 ^ 32 ≡ length d.blocked) g r.2)),
            rw (e, rejected),
          )
          | inr (same, terrain) ↦
              inl ((z, e, same), (make_subworld terrain.grid, rw (e, terrain.returns)))
        ]
  ]

  put-IsFresh :
      (zone_id : ℕ) (w : game.Subworld) (zones : Map ℕ (Zone.Zone game.Subworld))
      → zone_id ≢ 0
      → IsFresh zones
      → IsFresh (insert zone_id (new_zone w) zones)
  put-IsFresh zone_id w zones apart f = record {
    no_zone_zero = lookup-insert_ne zone_id 0 (new_zone w) zones apart ∙ f.no_zone_zero;
    quiet = λ z zone e. elim (==-cases zone_id z) [
      | inl (same, _) ↦
          let g =
            sym (lookup-insert_self zone_id (new_zone w) zones)
            ∙ ap (λ k. lookup k (insert zone_id (new_zone w) zones)) same
            ∙ e in
          (cc g, cc g)
      | inr (other, _) ↦
          f.quiet z zone (sym (lookup-insert_ne zone_id z (new_zone w) zones other) ∙ e)
    ];
  }

  -- The zones that are there after the loop.
  record Created (zone_id : ℕ) (zones : Map ℕ (Zone.Zone game.Subworld))
      (r : Result (Map ℕ (Zone.Zone game.Subworld))) : Type 0 where
    out : Map ℕ (Zone.Zone game.Subworld)
    returns : r ≡ ok out
    fresh : IsFresh out
    before : (z : ℕ) → z < zone_id → lookup z out ≡ lookup z zones

  create_zones-Created :
      AreSmall
      → (left zone_id : ℕ) (zones : Map ℕ (Zone.Zone game.Subworld)) → 1 ≤ zone_id
      → IsFresh zones
      → Created zone_id zones (create_zones left zone_id zones)
  unfolding create_zones
  create_zones-Created small zero zone_id zones h f = record {
    out = zones;
    returns = refl;
    fresh = f;
    before = λ z lt. refl;
  }
  create_zones-Created small (suc left) zone_id zones h f = elim (create_zone-cases small zone_id) [
    | inl (_, (w, e)) ↦
        let rest =
          create_zones-Created small left (suc zone_id) (insert zone_id (new_zone w) zones)
            (omega arith) (put-IsFresh zone_id w zones (λ z. omega arith) f) in
        rw e (record {
          out = rest.out;
          returns = rest.returns;
          fresh = rest.fresh;
          before = λ z lt.
              rest.before z (omega arith)
              ∙ lookup-insert_ne zone_id z (new_zone w) zones (λ same. omega arith);
        })
    | inr (_, e) ↦
        let rest = create_zones-Created small left (suc zone_id) zones (omega arith) f in
        rw e (record {
          out = rest.out;
          returns = rest.returns;
          fresh = rest.fresh;
          before = λ z lt. rest.before z (omega arith);
        })
  ]

  -- A server before `init`, without zones, clients or tasks.
  pub record IsNew (s : Server game) : Type 0 where
    pub no_zones : s.zones ≡ []
    pub no_clients : s.clients ≡ []
    pub none_noted : s.clients_current_zone ≡ []
    pub no_tasks : s.tasks ≡ []
    pub no_store : s.shared.store ≡ []

  IsFresh-Agrees : (zones : Map ℕ (Zone.Zone game.Subworld)) → IsFresh zones → Agrees zones []
  unfolding lookup
  IsFresh-Agrees zones f = record {
    no_zone_zero = f.no_zone_zero;
    agree = λ id z zone e. (let (clients, tasks) = f.quiet z zone e in rw (tasks, clients));
  }

  no_zones-IsFresh : IsFresh []
  unfolding lookup
  no_zones-IsFresh = record { no_zone_zero = refl; quiet = λ z zone e. absurd (cc) }

  -- What `init` leaves.
  abbrev pub IsReady : Server game → Type 0
  IsReady s = Synced s × IsLive s

  fresh-IsReady :
      (s : Server game) (zones : Map ℕ (Zone.Zone game.Subworld))
      → IsNew s
      → IsFresh zones
      → IsReady (with_zones zones s)
  unfolding with_zones lookup
  fresh-IsReady s zones n f = (
    subst (Agrees zones) (sym n.none_noted) (IsFresh-Agrees zones f),
    rw (n.no_tasks, n.no_clients, n.none_noted, n.no_store)
        (record { same_keys = λ id. refl; ready = λ id. refl }),
  )

  monster_in : ℕ → Zone.Zone game.Subworld → Zone.Zone game.Subworld
  monster_in monster zone = record zone { subworld = game.add_entity monster zone.subworld }

  at_first_zone :
      (monster : ℕ) (s : Server game) (zones : Map ℕ (Zone.Zone game.Subworld)) (w : game.Subworld)
      → IsNew s
      → IsFresh zones
      → lookup 1 zones ≡ some (new_zone w)
      → (s' : Server game) × (at_zone 1
            (λ zone. record zone { subworld = game.add_entity monster zone.subworld })
            (with_zones zones s)
          ≡ ok s')
        × IsReady s'
  unfolding at_zone with_zones
  at_first_zone monster s zones w n f e =
      let w' = game.add_entity monster w in
      (
        with_zones (insert 1 (new_zone w') zones) s,
        rw e,
        fresh-IsReady s (insert 1 (new_zone w') zones) n
            (put-IsFresh 1 w' zones (λ z. omega arith) f),
      )

  no_first_zone :
      (monster : ℕ) (s : Server game) (zones : Map ℕ (Zone.Zone game.Subworld))
      → lookup 1 zones ≡ none
      → at_zone 1
          (λ zone. record zone { subworld = game.add_entity monster zone.subworld })
          (with_zones zones s)
        ≡ err out_of_range
  unfolding at_zone with_zones
  no_first_zone monster s zones e = rw e

  -- `init` of a new server, where the sides of every zone fit an `int`: if the data of zone 1 are readable it returns, and
  -- the zones agree with what the server has noted and the tasks to come with the connections; if they are not it
  -- throws `std::out_of_range`, whatever the other zones.
  pub init-cases :
      (monster : ℕ) (s : Server game)
      → IsNew s
      → AreSmall
      → IsReadable 1 × ((s' : Server game) × (init monster s ≡ ok s') × Synced s' × IsLive s')
        ⊎ ¬ IsReadable 1 × (init monster s ≡ err out_of_range)
  unfolding init create_zones lookup
  init-cases monster s n small =
      let start : IsFresh s.zones = subst IsFresh (sym n.no_zones) no_zones-IsFresh in
      elim (create_zone-cases small 1) [
        | inl (readable, (w, e)) ↦
            let rest =
              create_zones-Created small 9 2 (insert 1 (new_zone w) s.zones) (omega arith)
                (put-IsFresh 1 w s.zones (λ z. omega arith) start) in
            let found = rest.before 1 (omega arith) ∙ lookup-insert_self 1 (new_zone w) s.zones in
            let (s', returns, ready) = at_first_zone monster s rest.out w n rest.fresh found in
            inl (readable, (s', rw (e, rest.returns) returns, ready.0, ready.1))
        | inr (unreadable, e) ↦
            let rest = create_zones-Created small 9 2 s.zones (omega arith) start in
            let gone = rest.before 1 (omega arith) ∙ ap (lookup 1) n.no_zones in
            inr (unreadable, rw (e, rest.returns) (no_first_zone monster s rest.out gone))
      ]
