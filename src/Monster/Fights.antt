-- ===== src/Monster/Fights.antt =====
-- The tick of a monster with its attack: `MeleeAttack::use` is its last statement, made where `attacks` is counted.
use tower_main.Common.{
  ℕ, ◌≡◌, refl, sym, subst, ◌∙◌, ◌⊎◌, inl, inr, Bool, true, false, if◌then◌else◌, List, some, ◌==◌,
  nat_eq, beq_refl, Bool-cases, Result, ok, ◌>>=◌, arith,
}
use tower_main.Common.Int.{pos}
use tower_main.Nodes.{Nodes}
use tower_main.Grid.{Grid}
use tower_main.Subworld.{CollisionObject}
use tower_main.StateMachine.{StateMachine, waiting, expired, try_transition, transition_delayed}
use tower_main.Pathfinder.Frontier.{MinQueue}
use tower_main.Attack.{Entity, put_entity, Weapon, Fight, fist_damage, use_attack}
use tower_main.Attack.Hits.{AreHealthy, HaveRoots, healthy-put}
use tower_main.Attack.Damage.{machine_after, use_attack-Attacked}
use tower_main.Attack.Cadence.{
  Phase, is_ready, is_attacking, is_over, attempt, CanAttack, attempt-Phase, try-ready, try-busy,
}
use tower_main.Monster.{Monster, Senses, tick}
use tower_main.Monster.Chases.{IsChasing, Arrow, AreGranted, tick-Ticks}

machine_after_self :
    (node : ℕ) (begun own : StateMachine (Unit {0}))
    → machine_after node node begun own ≡ transition_delayed "Idle" true begun
machine_after_self node begun own = rw (beq_refl node)

attempt-begun :
    (m begun : StateMachine (Unit {0}))
    → try_transition "Attacking" m tt ≡ ok (true, begun, tt)
    → attempt m ≡ ok (transition_delayed "Idle" true begun)
unfolding attempt
attempt-begun m begun tried = rw tried

-- A machine in a phase begins an attack, or refuses and stays.
try-cases :
    (idle_address attacking_address : ℕ) {m : StateMachine (Unit {0})}
    → Phase idle_address attacking_address m
    → CanAttack idle_address attacking_address m
      ⊎ (try_transition "Attacking" m tt ≡ ok (false, m, tt))
try-cases i a (is_ready timer next) = inl (_, try-ready i a timer next)
try-cases i a (is_attacking timer next) = inr (try-busy i a timer next waiting)
try-cases i a (is_over timer next) = inr (try-busy i a timer next expired)

module _ (queue : MinQueue) (shapes_touch : ℕ → ℕ → Bool) (fuel : ℕ) (nodes : Nodes)
    (objects : List CollisionObject) where
  -- `fist` is the shape of the weapon, `node` that of the monster.
  unfoldable pub tick_fight : Senses → (fist node : ℕ) → Monster → Fight → Result (Monster × Fight)
  unfolding tick
  tick_fight senses fist node m s = tick queue senses m >>= λ n.
      if n.attacks == m.attacks
      then ok (n, s)
      else (use_attack shapes_touch fuel nodes objects
            (record { melee_attack_damage = fist_damage; melee_attack_shape = fist }) node s
          >>= λ t. ok (n, t))

  -- The monster is in the fight, with a machine that is idle or returns to it.
  pub record Fights (idle_address attacking_address node : ℕ) (s : Fight) : Type 0 where
    pub healthy : AreHealthy s.entities
    pub self : Entity
    pub there : s.entities node ≡ some self
    pub phase : Phase idle_address attacking_address self.state_machine

  abbrev StillFights : (idle_address attacking_address node : ℕ) → Result Fight → Type 0
  StillFights idle_address attacking_address node r =
      (t : Fight) × (r ≡ ok t) × Fights idle_address attacking_address node t

  module _ (idle_address attacking_address node : ℕ) (weapon : Weapon)
      (roots : HaveRoots fuel nodes objects) (is_fist : weapon.melee_attack_damage ≡ pos 1) where
    -- The machine moves to `Attacking`.
    begins-Fights :
        (s : Fight) (u : Entity) (begun : StateMachine (Unit {0}))
        → AreHealthy s.entities
        → s.entities node ≡ some u
        → Phase idle_address attacking_address u.state_machine
        → try_transition "Attacking" u.state_machine tt ≡ ok (true, begun, tt)
        → StillFights idle_address attacking_address node
            (use_attack shapes_touch fuel nodes objects weapon node s)
    begins-Fights s u begun healthy there phase tried =
        let a =
          use_attack-Attacked shapes_touch fuel nodes objects 1 node weapon s u begun tt is_fist
            (omega arith) healthy roots there tried in
        let own = a.hurt node u there in
        (
          a.after,
          a.returns,
          record {
            healthy = a.healthy;
            self = own.out;
            there = own.still_there;
            phase =
                subst (Phase idle_address attacking_address)
                  (sym (own.its_machine ∙ machine_after_self node begun u.state_machine))
                  (attempt-Phase idle_address attacking_address phase
                    (attempt-begun u.state_machine begun tried));
          },
        )

    -- It stays.
    waits-Fights :
        (s : Fight) (u : Entity)
        → AreHealthy s.entities
        → s.entities node ≡ some u
        → Phase idle_address attacking_address u.state_machine
        → try_transition "Attacking" u.state_machine tt ≡ ok (false, u.state_machine, tt)
        → StillFights idle_address attacking_address node
            (use_attack shapes_touch fuel nodes objects weapon node s)
    unfolding use_attack
    waits-Fights s u healthy there phase tried = (
      record s { entities = put_entity node u s.entities },
      rw (there, tried),
      record {
        healthy = healthy-put node u s.entities (healthy node u there) healthy;
        self = u;
        there = rw (beq_refl node);
        phase = phase;
      },
    )

    use_attack-Fights :
        (s : Fight)
        → Fights idle_address attacking_address node s
        → StillFights idle_address attacking_address node
            (use_attack shapes_touch fuel nodes objects weapon node s)
    use_attack-Fights s f = elim (try-cases idle_address attacking_address f.phase) [
      | inl (begun, tried) ↦ begins-Fights s f.self begun f.healthy f.there f.phase tried
      | inr refused ↦ waits-Fights s f.self f.healthy f.there f.phase refused
    ]

  -- The monster after its tick, and the fight.
  pub record TicksFight (grid : Grid) (idle_address attacking_address node : ℕ) (m : Monster)
      (r : Result (Monster × Fight)) : Type 0 where
    pub out : Monster
    pub after : Fight
    pub returns : r ≡ ok (out, after)
    pub arrow : Arrow m.mode out.mode
    pub chases : IsChasing grid out
    pub fights : Fights idle_address attacking_address node after

  -- A tick, with its attack, of a monster with a target, if it is not idle, and a walk of the grid, if it chases; on a
  -- valid grid of which twice the number of cells, with the rows and the columns, is below 2^31, where sorting loses no
  -- object and the players that are found and the target are there to be read; in a fight in which the health
  -- of each entity is valid, the machine of the monster is idle or is to return to it, and each collision object has a
  -- root fewer than `fuel` parents above it: it throws nothing, follows an arrow of the modes, and leaves such a monster
  -- in such a fight.
  pub tick_fight-TicksFight :
      (senses : Senses) (idle_address attacking_address fist node : ℕ) (m : Monster) (s : Fight)
      → IsChasing senses.grid m
      → AreGranted senses m
      → HaveRoots fuel nodes objects
      → Fights idle_address attacking_address node s
      → TicksFight senses.grid idle_address attacking_address node m
          (tick_fight senses fist node m s)
  unfolding tick_fight
  tick_fight-TicksFight senses i a fist node m s chases granted roots f =
      let t = tick-Ticks queue senses m chases granted in
      let weapon : Weapon = record {
        melee_attack_damage = fist_damage;
        melee_attack_shape = fist;
      } in
      elim (Bool-cases (t.out.attacks == m.attacks)) [
        | inl same ↦
            rw (t.returns, same)
              (record {
                out = t.out;
                after = s;
                returns = refl;
                arrow = t.arrow;
                chases = t.chases;
                fights = f;
              })
        | inr struck ↦
            let (after, returns, still) = use_attack-Fights i a node weapon roots refl s f in
            rw (t.returns, struck, returns)
              (record {
                out = t.out;
                after = after;
                returns = refl;
                arrow = t.arrow;
                chases = t.chases;
                fights = still;
              })
      ]
