-- ===== src/Attack/Tests.antt =====
-- A player with a fist beside a monster of two colliders.
use tower_main.Attack.Cadence.{Phase, Run-Phase}
use tower_main.Common.{
  ℕ, zero, suc, ◌≡◌, refl, subst, ◌<◌, ◌⊎◌, inl, inr, Bool, true, List, [], ◌∷◌, none, some, ok,
  arith,
}
use tower_main.Common.Int.{pos}
use tower_main.Common.Map.{lookup, insert}
use tower_main.Nodes.{Nodes, get_parent, get_root}
use tower_main.Nodes.Roots.{Rooted, at_root, below}
use tower_main.Subworld.{CollisionObject, collisions_with}
use tower_main.StateMachine.{
  waiting, StateMachine, allows, deref, move_to, add_state, add_transition, set_initial_state,
  try_transition,
}
use tower_main.Health
use tower_main.Attack.{
  Entity, Entities, Weapon, Fight, init_states, init_resource, player_health, monster_health,
  fist_damage, struck_by, use_attack,
}
use tower_main.Attack.Hits.{AreHealthy, HaveRoots, damage_at}
use tower_main.Attack.Damage.{Attacked, use_attack-Attacked}
use tower_main.Attack.Cadence.{
  attempts, Run, done, after, made, ready, busy, CanAttack, Recovers, attempt-ready, Run-attacks,
}

-- The player 0 with its collider 1; the monster 2 with its colliders 3 and 4.
abbrev arena_nodes : Nodes
arena_nodes zero = some (record { parent = none; children = 1 ∷ [] })
arena_nodes (suc zero) = some (record { parent = some 0; children = [] })
arena_nodes (suc (suc zero)) = some (record { parent = none; children = 3 ∷ 4 ∷ [] })
arena_nodes (suc (suc (suc zero))) = some (record { parent = some 2; children = [] })
arena_nodes (suc (suc (suc (suc zero)))) = some (record { parent = some 2; children = [] })
arena_nodes (suc (suc (suc (suc (suc n))))) = none

abbrev collider : ℕ → CollisionObject
collider node_id = record { node_id = node_id; shape = 0; layer = 1; mask = 0 }

abbrev colliders : List CollisionObject
colliders = collider 1 ∷ collider 3 ∷ collider 4 ∷ []

abbrev player : Entity
player = record {
  entity_id = 1;
  state_machine = init_states 10 11;
  resource = init_resource player_health;
}

abbrev monster : Entity
monster = record {
  entity_id = 2;
  state_machine = init_states 20 21;
  resource = init_resource monster_health;
}

abbrev arena_entities : Entities
arena_entities zero = some player
arena_entities (suc zero) = none
arena_entities (suc (suc zero)) = some monster
arena_entities (suc (suc (suc n))) = none

abbrev arena : Fight
arena = record { entities = arena_entities; broadcasts = [] }

abbrev fist : Weapon
fist = record { melee_attack_damage = fist_damage; melee_attack_shape = 5 }

abbrev touches : ℕ → ℕ → Bool
touches a b = true

full_health : (n : ℕ) → n < 1000 → Health.Laws.IsValid (init_resource (pos n))
full_health n small = record {
  max_int32 = omega (arith, small);
  not_below = ground arith;
  not_above = ground arith;
}

some_same : {a b : Entity} → some a ≡ some b → a ≡ b
some_same e = cc

arena-healthy : AreHealthy arena_entities
arena-healthy zero e is =
    subst (λ (k : Entity). Health.Laws.IsValid k.resource) (some_same is)
      (full_health 100 (omega arith))
arena-healthy (suc zero) e is = absurd (cc)
arena-healthy (suc (suc zero)) e is =
    subst (λ (k : Entity). Health.Laws.IsValid k.resource) (some_same is)
      (full_health 10 (omega arith))
arena-healthy (suc (suc (suc n))) e is = absurd (cc)

below_player : Rooted arena_nodes 1 1 0
unfolding get_parent
below_player = below refl (at_root refl)

left-Rooted : Rooted arena_nodes 1 3 2
unfolding get_parent
left-Rooted = below refl (at_root refl)

right-Rooted : Rooted arena_nodes 1 4 2
unfolding get_parent
right-Rooted = below refl (at_root refl)

arena-HaveRoots : HaveRoots 2 arena_nodes colliders
arena-HaveRoots o (inl e) = rw e (1, 0, omega arith, below_player)
arena-HaveRoots o (inr (inl e)) = rw e (1, 2, omega arith, left-Rooted)
arena-HaveRoots o (inr (inr (inl e))) = rw e (1, 2, omega arith, right-Rooted)
arena-HaveRoots o (inr (inr (inr m))) = absurd m

abbrev begun : StateMachine (Unit {0})
begun = record player.state_machine {
  current_state = some (record { key = "Attacking"; address = 11 });
}

begins : try_transition "Attacking" player.state_machine tt ≡ ok (true, begun, tt)
unfolding init_states add_state add_transition set_initial_state insert lookup try_transition deref
    allows move_to
begins = refl

use_attack-Attacked_example :
    Attacked 0 1 begun
      (damage_at 1 2 arena_nodes (struck_by touches 2 arena_nodes colliders fist))
      arena
      (use_attack touches 2 arena_nodes colliders fist 0 arena)
use_attack-Attacked_example =
    use_attack-Attacked touches 2 arena_nodes colliders 1 0 fist arena player begun tt refl
      (omega arith) arena-healthy arena-HaveRoots refl begins

twice : damage_at 1 2 arena_nodes (struck_by touches 2 arena_nodes colliders fist) 2 ≡ 2
unfolding get_root get_parent collisions_with
twice = refl

one_attack : Run (made 10 11) (busy 10 11 0 waiting 1)
unfolding ready init_states add_state add_transition set_initial_state insert lookup
one_attack = after done (attempts (attempt-ready 10 11 none 0))

Run-Phase_example : Phase 10 11 (busy 10 11 0 waiting 1)
Run-Phase_example = Run-Phase 10 11 one_attack

Run-attacks_example :
    CanAttack 10 11 (busy 10 11 0 waiting 1) ⊎ Recovers 10 11 (busy 10 11 0 waiting 1)
Run-attacks_example = Run-attacks 10 11 one_attack
