-- ===== src/Monster/Tests.antt =====
-- Ticks of a monster in a corridor of three cells.
use tower_main.Common.{
  ℕ, inl, inr, zero, suc, subst, ◌<◌, ◌≡◌, refl, true, false, [], ◌∷◌, none, some, ok, arith,
}
use tower_main.Common.Int.{sub_int32, abs_int32, add_natural_int32}
use tower_main.Common.Int.{pos}
use tower_main.Health
use tower_main.Nodes.{Nodes, get_parent}
use tower_main.Nodes.Roots.{Rooted, at_root, below}
use tower_main.Subworld.{CollisionObject}
use tower_main.Attack.{
  Entity, Entities, Fight, init_states, init_resource, player_health, monster_health,
}
use tower_main.Attack.Hits.{AreHealthy, HaveRoots}
use tower_main.Attack.Cadence.{made-Phase}
use tower_main.Monster.Fights.{Fights, TicksFight, tick_fight, tick_fight-TicksFight}
use tower_main.Grid.{
  Grid, is_inside_point, point_beq, is_blocked, adjacents_8way, manhattan_distance,
}
use tower_main.Grid.Cells.{IsValid, cell}
use tower_main.Pathfinder.{astar}
use tower_main.Pathfinder.Expand.{IsSmall}
use tower_main.Pathfinder.Frontier.{least_first, take_least}
use tower_main.Monster.{
  idle, attacking, chasing, Monster, Senses, centre_of, find_path_to, start_chasing, tick_idle,
  tick,
}
use tower_main.Monster.Chases.{IsChasing, AreGranted, Ticks, tick-Ticks}

abbrev corridor : Grid
corridor = record { rows = 1; cols = 3; cells = false ∷ false ∷ false ∷ [] }

-- The player 7 stands at the end of the corridor, and its object 40 is detected.
abbrev sees_player : Senses
sees_player = record {
  grid = corridor;
  now = 5000;
  detected = 40 ∷ [];
  sort = λ xs. xs;
  root_player = λ _. some 7;
  is_alive = λ _. true;
  contains = λ _. true;
  own_cell = cell 0 0;
  cell_of = λ _. cell 0 2;
  is_close = λ _. false;
  is_far = λ _. true;
  has_arrived = false;
}

abbrev waiting_monster : Monster
waiting_monster = record {
  mode = idle;
  chasing_target = none;
  chasing_path = [];
  chasing_path_index = 0;
  chasing_started = 0;
  target_position = none;
  attacks = 0;
}

starts_chasing :
    tick least_first sees_player waiting_monster
    ≡ ok (record {
      mode = chasing;
      chasing_target = some 7;
      chasing_path = cell 0 0 ∷ cell 0 1 ∷ cell 0 2 ∷ [];
      chasing_path_index = 0;
      chasing_started = 5000;
      target_position = some (centre_of (cell 0 0));
      attacks = 0;
    })
unfolding tick tick_idle find_path_to start_chasing astar is_inside_point point_beq is_blocked
    adjacents_8way manhattan_distance sub_int32 abs_int32 add_natural_int32 take_least
starts_chasing = refl

waiting_monster-IsChasing : IsChasing corridor waiting_monster
waiting_monster-IsChasing = record {
  has_target = λ not_idle. absurd (not_idle refl);
  path_walk = λ e. absurd (cc);
}

corridor-IsValid : IsValid corridor
corridor-IsValid = omega arith

corridor-IsSmall : IsSmall corridor
corridor-IsSmall = omega arith

sees_player-AreGranted : AreGranted sees_player waiting_monster
sees_player-AreGranted = record {
  valid = corridor-IsValid;
  small = corridor-IsSmall;
  sorted = λ xs e. e;
  players_alive = λ _ _ _. refl;
  target_alive = λ _ _. refl;
}

tick-Ticks_example : Ticks corridor waiting_monster (tick least_first sees_player waiting_monster)
tick-Ticks_example =
    tick-Ticks least_first sees_player waiting_monster waiting_monster-IsChasing
      sees_player-AreGranted

-- The player, at node 0 with its collider 1, is beside the monster, at node 2.
abbrev cave_nodes : Nodes
cave_nodes zero = some (record { parent = none; children = 1 ∷ [] })
cave_nodes (suc zero) = some (record { parent = some 0; children = [] })
cave_nodes (suc (suc zero)) = some (record { parent = none; children = [] })
cave_nodes (suc (suc (suc n))) = none

abbrev player_collider : CollisionObject
player_collider = record { node_id = 1; shape = 0; layer = 1; mask = 0 }

collider-Rooted : Rooted cave_nodes 1 1 0
unfolding get_parent
collider-Rooted = below refl (at_root refl)

cave-HaveRoots : HaveRoots 2 cave_nodes (player_collider ∷ [])
cave-HaveRoots o (inl e) = rw e (1, 0, omega arith, collider-Rooted)
cave-HaveRoots o (inr m) = absurd m

abbrev player_entity : Entity
player_entity = record {
  entity_id = 7;
  state_machine = init_states 30 31;
  resource = init_resource player_health;
}

abbrev monster_entity : Entity
monster_entity = record {
  entity_id = 8;
  state_machine = init_states 20 21;
  resource = init_resource monster_health;
}

abbrev cave_entities : Entities
cave_entities zero = some player_entity
cave_entities (suc zero) = none
cave_entities (suc (suc zero)) = some monster_entity
cave_entities (suc (suc (suc n))) = none

full_health : (n : ℕ) → n < 1000 → Health.Laws.IsValid (init_resource (pos n))
full_health n small = record {
  max_int32 = omega (arith, small);
  not_below = ground arith;
  not_above = ground arith;
}

some_same : {a b : Entity} → some a ≡ some b → a ≡ b
some_same e = cc

cave-healthy : AreHealthy cave_entities
cave-healthy zero e is =
    subst (λ (k : Entity). Health.Laws.IsValid k.resource) (some_same is)
      (full_health 100 (omega arith))
cave-healthy (suc zero) e is = absurd (cc)
cave-healthy (suc (suc zero)) e is =
    subst (λ (k : Entity). Health.Laws.IsValid k.resource) (some_same is)
      (full_health 10 (omega arith))
cave-healthy (suc (suc (suc n))) e is = absurd (cc)

abbrev cave_fight : Fight
cave_fight = record { entities = cave_entities; broadcasts = [] }

cave-Fights :
    Fights least_first (λ a b. true) 2 cave_nodes (player_collider ∷ []) 20 21 2 cave_fight
cave-Fights = record {
  healthy = cave-healthy;
  self = monster_entity;
  there = refl;
  phase = made-Phase 20 21;
}

abbrev attacker : Monster
attacker = record waiting_monster { mode = attacking; chasing_target = some 7 }

abbrev beside_player : Senses
beside_player = record sees_player { is_far = λ _. false }

attacker-IsChasing : IsChasing corridor attacker
attacker-IsChasing = record { has_target = λ _. (7, refl); path_walk = λ e. absurd (cc) }

beside_player-AreGranted : AreGranted beside_player attacker
beside_player-AreGranted = record {
  valid = corridor-IsValid;
  small = corridor-IsSmall;
  sorted = λ xs e. e;
  players_alive = λ _ _ _. refl;
  target_alive = λ _ _. refl;
}

tick_fight-TicksFight_example :
    TicksFight least_first
      (λ a b. true)
      2
      cave_nodes
      (player_collider ∷ [])
      corridor
      20
      21
      2
      attacker
      (tick_fight least_first
        (λ a b. true)
        2
        cave_nodes
        (player_collider ∷ [])
        beside_player
        5
        2
        attacker
        cave_fight)
tick_fight-TicksFight_example =
    tick_fight-TicksFight least_first (λ a b. true) 2 cave_nodes (player_collider ∷ [])
      beside_player 20 21 5 2 attacker cave_fight attacker-IsChasing beside_player-AreGranted
      cave-HaveRoots cave-Fights
