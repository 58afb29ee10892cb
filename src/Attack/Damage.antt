-- ===== src/Attack/Damage.antt =====
-- What an attack as a whole does to the entities.
use tower_main.Common.{
  ℕ, ◌^◌, ◌<◌, ◌≡◌, refl, ap, inl, inr, Bool, true, if◌then◌else◌, List, [], ◌∷◌, ◌++◌, some, ◌==◌,
  nat_eq, ==-cases, beq_refl, Result, ok,
}
use tower_main.Common.Int.{pos}
use tower_main.Nodes.{Nodes}
use tower_main.Subworld.{CollisionObject}
use tower_main.Subworld.Collisions.{mem-collisions_with}
use tower_main.StateMachine.{StateMachine, try_transition, transition_delayed}
use tower_main.Attack.{
  Entity, put_entity, Weapon, skill_melee_attack, Fight, entities_layer, struck_by, told, strike,
  use_attack,
}
use tower_main.Attack.Hits.{
  AreHealthy, HaveRoots, damage_at, Hurt, healthy-put, hit_all-Hits, subst-entity,
}

-- The machine of an entity after an attack by `user`, whose machine the transition has left as `begun`.
abbrev pub machine_after :
    (user root : ℕ) (begun own : StateMachine (Unit {0})) → StateMachine (Unit {0})
machine_after user root begun own =
    if user == root then transition_delayed "Idle" true begun else own

-- The fight after an attack of `damage` at each entity.
pub record Attacked (user user_id : ℕ) (begun : StateMachine (Unit {0})) (damage : ℕ → ℕ)
    (before : Fight) (r : Result Fight) : Type 0 where
  pub after : Fight
  pub returns : r ≡ ok after
  pub healthy : AreHealthy after.entities
  pub hurt :
      (root : ℕ) (e : Entity)
      → before.entities root ≡ some e
      → Hurt user_id
          (damage root)
          (machine_after user root begun e.state_machine)
          e
          (after.entities root)

module _ (shapes_touch : ℕ → ℕ → Bool) (fuel : ℕ) (nodes : Nodes)
    (objects : List CollisionObject) where
  struck-HaveRoots :
      (weapon : Weapon)
      → HaveRoots fuel nodes objects
      → HaveRoots fuel nodes (struck_by shapes_touch fuel nodes objects weapon)
  struck-HaveRoots weapon roots o m =
      roots o
        ((mem-collisions_with shapes_touch weapon.melee_attack_shape entities_layer objects o).0
          m).0

  -- An attack with a weapon of damage `d`, below 2^31, by an entity whose machine moves to `Attacking`; where the health
  -- of each entity is valid, and each collision object has a root fewer than `fuel` parents above it: it throws nothing,
  -- takes from each entity but the user `d` for each of its collision objects that the shape of the weapon strikes, down
  -- to 0 at worst, and sets the machine of the user, and no other, to return to `Idle` after a delay.
  pub use_attack-Attacked :
      (d user : ℕ) (weapon : Weapon) (s : Fight) (u : Entity) (begun : StateMachine (Unit {0}))
      (world : Unit {0})
      → weapon.melee_attack_damage ≡ pos d
      → d < 2 ^ 31
      → AreHealthy s.entities
      → HaveRoots fuel nodes objects
      → s.entities user ≡ some u
      → try_transition "Attacking" u.state_machine tt ≡ ok (true, begun, world)
      → Attacked user u.entity_id begun
          (damage_at d fuel nodes (struck_by shapes_touch fuel nodes objects weapon))
          s
          (use_attack shapes_touch fuel nodes objects weapon user s)
  unfolding use_attack strike
  use_attack-Attacked d user weapon s u begun world is_d small healthy roots there tried =
      let moved : Entity = record u { state_machine = begun } in
      let entities = put_entity user moved s.entities in
      let all =
        hit_all-Hits fuel nodes d small u.entity_id
          (struck_by shapes_touch fuel nodes objects weapon) entities []
          (healthy-put user moved s.entities (healthy user u there) healthy)
          (struck-HaveRoots weapon roots) in
      let own = all.hurt user moved (rw (beq_refl user)) in
      let final : Entity = record own.out {
        state_machine = transition_delayed "Idle" true own.out.state_machine;
      } in
      rw (there, tried, is_d, all.returns, own.still_there)
        (record {
          after = record {
            entities = put_entity user final all.after;
            broadcasts = s.broadcasts ++ told all.damages ++ skill_melee_attack u.entity_id ∷ [];
          };
          returns = refl;
          healthy =
              healthy-put user final all.after (all.healthy user own.out own.still_there)
                all.healthy;
          hurt = λ root e is_at. elim (==-cases user root) [
            | inl (same, t) ↦
                subst-entity s.entities
                  (λ k g.
                    Hurt u.entity_id
                      (damage_at d fuel nodes (struck_by shapes_touch fuel nodes objects weapon) k)
                      (machine_after user k begun g.state_machine) g
                      (put_entity user final all.after k))
                  same there is_at
                  (rw (beq_refl user) (record {
                    out = final;
                    still_there = refl;
                    same_id = own.same_id;
                    its_machine = ap (λ k. transition_delayed "Idle" true k) own.its_machine;
                    dropped = own.dropped;
                  }))
            | inr (apart, t) ↦ rw t (all.hurt root e (rw t is_at))
          ];
        })
