-- ===== src/Monster/Chases.antt =====
-- A tick of a monster is defined, changes its mode only along the arrows of the state machine, and keeps the path that
-- it follows a walk of the grid.
use tower_main.Common.{
  ℕ, suc, ◌+◌, ◌≡◌, ◌≢◌, refl, sym, subst, ◌∙◌, ◌⊎◌, inl, inr, Bool, true, not, ltb, leb, List, [],
  ◌∷◌, length, get_elem?-some, some, Result, ok, Bool-cases, Option-cases, List-cases, ltb→lt,
}
use tower_main.Grid.{Grid, Point}
use tower_main.Grid.Cells.{IsValid}
use tower_main.Pathfinder.Frontier.{MinQueue}
use tower_main.Pathfinder.Walks.{Walk}
use tower_main.Pathfinder.Expand.{IsSmall}
use tower_main.Pathfinder.Astar.{lost, found, astar-Finds}
use tower_main.Monster.{
  first, Mode, idle, chasing, attacking, centre_of, target_itself, Monster, Senses, with_target,
  find_path_to, is_gone, start_chasing, tick_idle, renew_path, arrive, follow_path, chase_on,
  is_renewed, after_renewal, chase, tick_chasing, attack, tick_attacking, tick_mode, tick,
}

-- The arrows between the modes.
pub data Arrow : Mode → Mode → Type 0 where
  stays : (mode : Mode) → Arrow mode mode
  finds_target : Arrow idle chasing
  reaches_target : Arrow chasing attacking
  loses_target : (mode : Mode) → Arrow mode idle

-- A monster that is not idle has a target; one that chases follows a walk of the grid.
pub record IsChasing (grid : Grid) (m : Monster) : Type 0 where
  pub has_target : m.mode ≢ idle → (target : ℕ) × (m.chasing_target ≡ some target)
  pub path_walk : m.mode ≡ chasing → (from end : Point) × Walk grid end from m.chasing_path

-- What the code around a monster has to grant: a grid that is as large as its sides say, and not so large that the cost of
-- a path overflows; sorting loses no object; and
-- the players that are found, and the target, are there to be read.
pub record AreGranted (s : Senses) (m : Monster) : Type 0 where
  pub valid : IsValid s.grid
  pub small : IsSmall s.grid
  pub sorted : (xs : List ℕ) → s.sort xs ≡ [] → xs ≡ []
  pub players_alive :
      (object player : ℕ) → s.root_player object ≡ some player → s.is_alive player ≡ true
  pub target_alive : (target : ℕ) → m.chasing_target ≡ some target → s.is_alive target ≡ true

-- A tick from `m` ends in a monster that chases, by an arrow.
pub record Ticks (grid : Grid) (m : Monster) (r : Result Monster) : Type 0 where
  pub out : Monster
  pub returns : r ≡ ok out
  pub arrow : Arrow m.mode out.mode
  pub chases : IsChasing grid out

-- What a search finds: nothing, or a walk.
abbrev IsPath : Grid → List Point → Type 0
IsPath grid path = (path ≡ []) ⊎ ((from end : Point) × Walk grid end from path)

module _ (queue : MinQueue) (s : Senses) where
  find_path_to-IsPath :
      (target : ℕ)
      → IsValid s.grid
      → IsSmall s.grid
      → s.is_alive target ≡ true
      → (path : List Point) × (find_path_to queue s target ≡ ok path) × IsPath s.grid path
  unfolding find_path_to
  find_path_to-IsPath target v w alive =
      elim (astar-Finds queue s.grid v w s.own_cell (s.cell_of target)) [
        | lost e _ ↦ ([], rw alive e, inl refl)
        | found (path, e, walk) ↦ (path, rw alive e, inr (s.own_cell, s.cell_of target, walk))
      ]

  idle-IsChasing : (m : Monster) → m.mode ≡ idle → IsChasing s.grid m
  idle-IsChasing m e = record {
    has_target = λ h. absurd (h e);
    path_walk = λ h. (let f = sym e ∙ h in absurd (cc));
  }

  start_chasing-Ticks :
      (player : ℕ) (m : Monster) (path : List Point)
      → m.mode ≡ idle
      → IsPath s.grid path
      → Arrow m.mode (start_chasing queue s player m path).mode
        × IsChasing s.grid (start_chasing queue s player m path)
  unfolding start_chasing
  start_chasing-Ticks player m [] e p =
      (stays m.mode, idle-IsChasing (record m { chasing_path = [] }) e)
  start_chasing-Ticks player m (q ∷ path) e (inl empty) = (let f = empty in absurd (cc))
  start_chasing-Ticks player m (q ∷ path) e (inr walk) =
      (rw e finds_target, record { has_target = λ _. (player, refl); path_walk = λ _. walk })

  first_of : (xs : List ℕ) → xs ≢ [] → (x : ℕ) × (first xs ≡ some x)
  first_of [] h = absurd (h refl)
  first_of (x ∷ xs) h = (x, refl)

  tick_idle-Ticks :
      (m : Monster) → m.mode ≡ idle → AreGranted s m → Ticks s.grid m (tick_idle queue s m)
  unfolding tick_idle
  tick_idle-Ticks m e g = elim (List-cases s.detected) [
    | inl none_near ↦
        rw (none_near, tick_idle)
          (record { out = m; returns = refl; arrow = stays m.mode; chases = idle-IsChasing m e })
    | inr (x, xs, near) ↦
        let (object, at) =
          first_of (s.sort (x ∷ xs)) (λ none_left. (let f = g.sorted (x ∷ xs) none_left in cc)) in
        elim (Option-cases (s.root_player object)) [
          | inl no_player ↦
              rw (near, at, no_player, tick_idle)
                (record {
                  out = m;
                  returns = refl;
                  arrow = stays m.mode;
                  chases = idle-IsChasing m e;
                })
          | inr (player, is_player) ↦
              let (path, returns, is_path) =
                find_path_to-IsPath player g.valid g.small
                  (g.players_alive object player is_player) in
              let (arrow, chases) = start_chasing-Ticks player m path e is_path in
              rw (near, at, is_player, returns, tick_idle)
                (record {
                  out = start_chasing queue s player m path;
                  returns = refl;
                  arrow = arrow;
                  chases = chases;
                })
        ]
  ]

  -- The mode alone changes, to idle.
  gives_up : (m : Monster) → Ticks s.grid m (ok (record m { mode = idle }))
  gives_up m = record {
    out = record m { mode = idle };
    returns = refl;
    arrow = loses_target m.mode;
    chases = idle-IsChasing (record m { mode = idle }) refl;
  }

  is_gone-cases :
      (m : Monster) (target : ℕ)
      → AreGranted s m
      → m.chasing_target ≡ some target
      → (gone : Bool) × (is_gone queue s m.chasing_target ≡ ok gone)
  unfolding is_gone
  is_gone-cases m target g e = (not (s.contains target), rw (e, is_gone, g.target_alive target e))

  targeted :
      {target : ℕ} (step : ℕ → Result Monster) (m : Monster)
      → m.chasing_target ≡ some target
      → Ticks s.grid m (step target)
      → Ticks s.grid m (with_target step m m.chasing_target)
  targeted step m t ticks = subst (λ k. Ticks s.grid m (with_target step m k)) (sym t) ticks

  attack-Ticks :
      (target : ℕ) (m : Monster)
      → m.mode ≡ attacking
      → m.chasing_target ≡ some target
      → Ticks s.grid m (ok (attack queue s target m))
  unfolding attack
  attack-Ticks target m e t = elim (Bool-cases (s.is_far target)) [
    | inl far ↦ rw far (gives_up m)
    | inr near ↦ rw near (record {
      out = record m { target_position = some (target_itself target); attacks = suc m.attacks };
      returns = refl;
      arrow = stays m.mode;
      chases = record {
        has_target = λ _. (target, t);
        path_walk = λ h. (let f = sym e ∙ h in absurd (cc));
      };
    })
  ]

  tick_attacking-Ticks :
      (m : Monster)
      → m.mode ≡ attacking
      → IsChasing s.grid m
      → AreGranted s m
      → Ticks s.grid m (tick_attacking queue s m)
  unfolding tick_attacking
  tick_attacking-Ticks m e c g =
      let (target, t) = c.has_target (λ h. (let f = sym e ∙ h in cc)) in
      let (gone, seen) = is_gone-cases m target g t in
      elim (Bool-cases gone) [
        | inl away ↦ rw (seen, away) (gives_up m)
        | inr there ↦
            rw (seen, there)
              (targeted (λ k. ok (attack queue s k m)) m t (attack-Ticks target m e t))
      ]

  chase_on-Ticks :
      (target : ℕ) (m : Monster)
      → m.mode ≡ chasing
      → m.chasing_target ≡ some target
      → (from end : Point) × Walk s.grid end from m.chasing_path
      → Ticks s.grid m (chase_on queue s target m)
  unfolding chase_on arrive follow_path
  chase_on-Ticks target m e t walk =
      elim (Bool-cases (leb (length m.chasing_path) m.chasing_path_index)) [
        | inl at_end ↦ elim (Bool-cases (s.is_close target)) [
          | inl close ↦
              rw (at_end, close)
                (record {
                  out = record m { mode = attacking };
                  returns = refl;
                  arrow = rw e reaches_target;
                  chases = record { has_target = λ _. (target, t); path_walk = λ h. absurd (cc) };
                })
          | inr away ↦ rw (at_end, away) (gives_up m)
        ]
        | inr going ↦ elim (Bool-cases s.has_arrived) [
          | inr on_way ↦
              rw (going, on_way)
                (record {
                  out = m;
                  returns = refl;
                  arrow = stays m.mode;
                  chases = record { has_target = λ _. (target, t); path_walk = λ _. walk };
                })
          | inl here ↦ elim (Bool-cases (ltb (m.chasing_path_index + 1) (length m.chasing_path))) [
            | inl more ↦
                let (p, read) =
                  get_elem?-some m.chasing_path (m.chasing_path_index + 1) (ltb→lt _ _ more) in
                rw (going, here, more, read)
                  (record {
                    out = record m {
                      chasing_path_index = m.chasing_path_index + 1;
                      target_position = some (centre_of p);
                    };
                    returns = refl;
                    arrow = stays m.mode;
                    chases = record { has_target = λ _. (target, t); path_walk = λ _. walk };
                  })
            | inr last ↦
                rw (going, here, last)
                  (record {
                    out = record m { chasing_path_index = m.chasing_path_index + 1 };
                    returns = refl;
                    arrow = stays m.mode;
                    chases = record { has_target = λ _. (target, t); path_walk = λ _. walk };
                  })
          ]
        ]
      ]

  -- The same from a monster with another path, index and time.
  Ticks-mode :
      {m n : Monster} {r : Result Monster} → n.mode ≡ m.mode → Ticks s.grid n r → Ticks s.grid m r
  Ticks-mode {m} {n} same t = record {
    out = t.out;
    returns = t.returns;
    arrow = subst (λ k. Arrow k t.out.mode) same t.arrow;
    chases = t.chases;
  }

  renewed-Ticks :
      (target : ℕ) (m : Monster) (path : List Point)
      → m.mode ≡ chasing
      → m.chasing_target ≡ some target
      → m.chasing_path ≡ path
      → IsPath s.grid path
      → Ticks s.grid m (after_renewal queue s target true m path)
  unfolding after_renewal
  renewed-Ticks target m [] e t same p = gives_up m
  renewed-Ticks target m (q ∷ path) e t same (inl empty) = (let f = empty in absurd (cc))
  renewed-Ticks target m (q ∷ path) e t same (inr walk) = chase_on-Ticks target m e t (rw same walk)

  chase-Ticks :
      (target : ℕ) (m : Monster)
      → m.mode ≡ chasing
      → m.chasing_target ≡ some target
      → IsChasing s.grid m
      → AreGranted s m
      → Ticks s.grid m (chase queue s target m)
  unfolding chase renew_path after_renewal
  chase-Ticks target m e t c g = elim (Bool-cases (is_renewed queue s m)) [
    | inr recent ↦ rw recent (chase_on-Ticks target m e t (c.path_walk e))
    | inl long_ago ↦
        let (path, returns, is_path) =
          find_path_to-IsPath target g.valid g.small (g.target_alive target t) in
        let n : Monster = record m {
          chasing_path = path;
          chasing_path_index = 0;
          chasing_started = s.now;
        } in
        rw (long_ago, returns)
          (Ticks-mode {m = m} {n = n} refl (renewed-Ticks target n path e t refl is_path))
  ]

  tick_chasing-Ticks :
      (m : Monster)
      → m.mode ≡ chasing
      → IsChasing s.grid m
      → AreGranted s m
      → Ticks s.grid m (tick_chasing queue s m)
  unfolding tick_chasing
  tick_chasing-Ticks m e c g =
      let (target, t) = c.has_target (λ h. (let f = sym e ∙ h in cc)) in
      let (gone, seen) = is_gone-cases m target g t in
      elim (Bool-cases gone) [
        | inl away ↦ rw (seen, away) (gives_up m)
        | inr there ↦
            rw (seen, there) (targeted (λ k. chase queue s k m) m t (chase-Ticks target m e t c g))
      ]

  mode-cases : (mode : Mode) → (mode ≡ idle) ⊎ (mode ≡ chasing) ⊎ (mode ≡ attacking)
  mode-cases idle = inl refl
  mode-cases chasing = inr (inl refl)
  mode-cases attacking = inr (inr refl)

  in_mode :
      {mode : Mode} (m : Monster)
      → m.mode ≡ mode
      → Ticks s.grid m (tick_mode queue s mode m)
      → Ticks s.grid m (tick queue s m)
  unfolding tick
  in_mode m e ticks = subst (λ k. Ticks s.grid m (tick_mode queue s k m)) (sym e) ticks

  -- A tick of a monster with a target, if it is not idle, and a walk of the grid, if it chases; on a valid grid of which
  -- twice the number of cells, with the rows and the columns, is below 2^31, where sorting loses no object and the players
  -- that are found and the target are there to be read: it throws nothing, follows an arrow from idle to
  -- chasing, from chasing to attacking, to idle or to the same mode, and leaves such a monster.
  pub tick-Ticks :
      (m : Monster) → IsChasing s.grid m → AreGranted s m → Ticks s.grid m (tick queue s m)
  unfolding tick
  tick-Ticks m c g = elim (mode-cases m.mode) [
    | inl e ↦ in_mode m e (tick_idle-Ticks m e g)
    | inr (inl e) ↦ in_mode m e (tick_chasing-Ticks m e c g)
    | inr (inr e) ↦ in_mode m e (tick_attacking-Ticks m e c g)
  ]
