-- ===== src/Monster.antt =====
-- `SimpleMonster::tick` of tower/entity/simple_monster.cpp, over the A* search. What a tick reads of the world around the
-- monster is a record `Senses`: positions are floating point, of which the code uses the cells of the grid and a few
-- comparisons of distances. Times are milliseconds of the steady clock.
pub mod Chases
pub mod Fights
mod Tests
use tower_main.Common.{
  ℕ, suc, ◌+◌, Bool, true, false, not, ltb, leb, ◌&&◌, if◌then◌else◌, List, [], ◌∷◌, length,
  get_elem?, Option, none, some, Result, ok, err, ◌>>=◌, or_fail, out_of_range, dangling,
}
use tower_main.Grid.{Grid, Point}
use tower_main.Pathfinder.{astar}
use tower_main.Pathfinder.Frontier.{MinQueue}

pub data Mode : Type 0 where
  idle chasing attacking : Mode

-- Where the monster walks to: the centre of a cell (`Subworld::point2position`), or the position of its target.
pub data Destination : Type 0 where
  centre_of : Point → Destination
  target_itself : (entity : ℕ) → Destination

-- `chasing_target` is a bare pointer to an entity. `attacks` counts the calls of `MeleeAttack::use`.
pub record Monster : Type 0 where
  pub mode : Mode
  pub chasing_target : Option ℕ
  pub chasing_path : List Point
  pub chasing_path_index : ℕ
  pub chasing_started : ℕ
  pub target_position : Option Destination
  pub attacks : ℕ

pub record Senses : Type 0 where
  pub grid : Grid
  pub now : ℕ
  -- The objects of players in the detection area, `std::sort` of them by their distance, and the player that is the
  -- root of an object.
  pub detected : List ℕ
  pub sort : List ℕ → List ℕ
  pub root_player : ℕ → Option ℕ
  -- Whether an entity is still there to be read, and whether the subworld contains it.
  pub is_alive : ℕ → Bool
  pub contains : ℕ → Bool
  -- The cell of the monster, and that of an entity.
  pub own_cell : Point
  pub cell_of : ℕ → Point
  -- The distances that are compared: below 1, above 1, and the destination is reached.
  pub is_close : ℕ → Bool
  pub is_far : ℕ → Bool
  pub has_arrived : Bool

abbrev pub repath_after : ℕ
repath_after = 3000

abbrev pub first : List ℕ → Option ℕ
first [] = none
first (x ∷ xs) = some x

-- The rest of a tick reads the target.
abbrev pub with_target : (ℕ → Result Monster) → Monster → Option ℕ → Result Monster
with_target step m none = ok m
with_target step m (some target) = step target

module _ (queue : MinQueue) (s : Senses) where
  -- `find_path` from the cell of the monster to that of an entity, which it reads.
  unfoldable pub find_path_to : ℕ → Result (List Point)
  find_path_to entity =
      if s.is_alive entity then astar queue s.grid s.own_cell (s.cell_of entity) else err dangling

  -- `entities().contains(_chasing_target->entity_id)`.
  unfoldable pub is_gone : Option ℕ → Result Bool
  is_gone none = ok true
  is_gone (some target) = if s.is_alive target then ok (not (s.contains target)) else err dangling

  unfoldable pub start_chasing : ℕ → Monster → List Point → Monster
  start_chasing player m [] = record m { chasing_path = [] }
  start_chasing player m (p ∷ path) = record m {
    mode = chasing;
    chasing_target = some player;
    chasing_path = p ∷ path;
    chasing_path_index = 0;
    chasing_started = s.now;
    target_position = some (centre_of p);
  }

  unfoldable pub tick_idle : Monster → Result Monster
  unfolding find_path_to start_chasing
  tick_idle m = elim s.detected [
    | [] ↦ ok m
    | x ∷ xs ↦ or_fail (first (s.sort (x ∷ xs))) out_of_range >>= λ object.
        elim (s.root_player object) [
          | none ↦ ok m
          | some player ↦ find_path_to player >>= λ path. ok (start_chasing player m path)
        ]
  ]

  -- The path is searched again if the chase has lasted too long.
  unfoldable pub renew_path : ℕ → Monster → Result Monster
  unfolding find_path_to
  renew_path target m =
      if ltb (m.chasing_started + repath_after) s.now
      then (find_path_to target >>= λ path.
          ok (record m { chasing_path = path; chasing_path_index = 0; chasing_started = s.now }))
      else ok m

  unfoldable pub arrive : ℕ → Monster → Monster
  arrive target m = record m { mode = if s.is_close target then attacking else idle }

  -- `_chasing_path.at(_chasing_path_index)`, under its guard.
  unfoldable pub follow_path : Monster → Result Monster
  follow_path m =
      let index = m.chasing_path_index + 1 in
      let next = record m { chasing_path_index = index } in
      if not s.has_arrived
      then ok m
      else if ltb index (length m.chasing_path)
      then (or_fail (get_elem? m.chasing_path index) out_of_range >>= λ p.
          ok (record next { target_position = some (centre_of p) }))
      else ok next

  unfoldable pub chase_on : ℕ → Monster → Result Monster
  unfolding arrive follow_path
  chase_on target m =
      if leb (length m.chasing_path) m.chasing_path_index
      then ok (arrive target m)
      else follow_path m

  -- An empty path that was searched again ends the chase.
  abbrev pub is_renewed : Monster → Bool
  is_renewed m = ltb (m.chasing_started + repath_after) s.now

  unfoldable pub after_renewal : ℕ → Bool → Monster → List Point → Result Monster
  unfolding chase_on
  after_renewal target true m [] = ok (record m { mode = idle })
  after_renewal target renewed m path = chase_on target m

  unfoldable pub chase : ℕ → Monster → Result Monster
  unfolding renew_path after_renewal
  chase target m = renew_path target m >>= λ n. after_renewal target (is_renewed m) n n.chasing_path

  unfoldable pub tick_chasing : Monster → Result Monster
  unfolding is_gone chase
  tick_chasing m = is_gone m.chasing_target >>= λ gone.
      if gone
      then ok (record m { mode = idle })
      else with_target (λ target. chase target m) m m.chasing_target

  unfoldable pub attack : ℕ → Monster → Monster
  attack target m =
      if s.is_far target
      then record m { mode = idle }
      else record m { target_position = some (target_itself target); attacks = suc m.attacks }

  unfoldable pub tick_attacking : Monster → Result Monster
  unfolding is_gone attack
  tick_attacking m = is_gone m.chasing_target >>= λ gone.
      if gone
      then ok (record m { mode = idle })
      else with_target (λ target. ok (attack target m)) m m.chasing_target

  abbrev pub tick_mode : Mode → Monster → Result Monster
  tick_mode idle m = tick_idle m
  tick_mode chasing m = tick_chasing m
  tick_mode attacking m = tick_attacking m

  unfoldable pub tick : Monster → Result Monster
  unfolding tick_idle tick_chasing tick_attacking
  tick m = tick_mode m.mode m
