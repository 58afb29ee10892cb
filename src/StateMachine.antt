-- ===== src/StateMachine.antt =====
-- tower/system/state.hpp and tower/system/state_machine.hpp. `W` is what the conditions of the transitions
-- read and the `enter` and `exit` of the states change.
pub mod Transitions
pub mod Delays
mod Tests
use Prim.Native.String.{String}
use package.tower_main.Common.{
  ℕ, suc, ◌+◌, Bool, true, false, not, if◌then◌else◌, List, [], ◌∷◌, ◌++◌, map, Option, none, some,
  ◌==◌, nat_eq, Result, ok, err, ◌>>=◌, null_pointer, dangling,
}
use package.tower_main.Common.Map.{Map, lookup, insert}
use package.tower_main.Common.Text.{string_eq}

-- An object of a class derived from `State`, with the address at which it was made.
pub record State (W : Type 0) : Type 0 where
  pub address : ℕ
  pub name : String
  pub enter : W → W
  pub exit : W → W
  pub transitions : Map String (W → Bool)

-- The pointer to a state: its address, and the key under which `_states` owns it.
pub record StatePointer : Type 0 where
  pub key : String
  pub address : ℕ

-- A coroutine of `transition_delayed`: its timer, the state it is to enter, and how far the wait is.
pub data Progress : Type 0 where
  waiting expired cancelled : Progress

pub record Delayed : Type 0 where
  pub timer : ℕ
  pub target : String
  pub progress : Progress

pub record StateMachine (W : Type 0) : Type 0 where
  pub current_state : Option StatePointer
  pub states : Map String (State W)
  pub delay_timer : Option ℕ
  pub delayed : List Delayed
  pub next_timer : ℕ

-- `cancel` completes the wait of a timer that has not expired.
unfoldable pub stop_waiting : Progress → Progress → Progress
stop_waiting waiting outcome = outcome
stop_waiting expired outcome = expired
stop_waiting cancelled outcome = cancelled

unfoldable pub settle : ℕ → Progress → Delayed → Delayed
unfolding stop_waiting
settle timer outcome d =
    if d.timer == timer then record d { progress = stop_waiting d.progress outcome } else d

unfoldable pub cancel : ℕ → List Delayed → List Delayed
cancel timer ds = map (settle timer cancelled) ds

unfoldable pub expire : ℕ → List Delayed → List Delayed
expire timer ds = map (settle timer expired) ds

-- The coroutine of a timer whose wait is over, and the others.
unfoldable pub take_ready : ℕ → List Delayed → Option (Delayed × List Delayed)
take_ready timer [] = none
take_ready timer (d ∷ ds) =
    let rest = take_ready timer ds in
    if d.timer == timer
    then some (d, ds)
    else elim rest [ none ↦ none | some (found, others) ↦ some (found, d ∷ others) ]

module _ {W : Type 0} where
  unfoldable pub add_transition : String → (W → Bool) → State W → State W
  add_transition state_name condition s = record s {
    transitions = insert state_name condition s.transitions;
  }

  -- `State::can_transition`.
  unfoldable pub allows : State W → String → W → Bool
  allows s next_state_name w = elim (lookup next_state_name s.transitions) [
    | none ↦ false
    | some condition ↦ condition w
  ]

  unfoldable pub add_state : State W → StateMachine W → StateMachine W
  add_state s m = record m { states = insert s.name s m.states }

  unfoldable pub set_initial_state : String → StateMachine W → StateMachine W
  set_initial_state state_name m = elim (lookup state_name m.states) [
    | none ↦ m
    | some s ↦ record m { current_state = some (record { key = state_name; address = s.address }) }
  ]

  -- `*pointer`: the object may be gone, replaced under its key by another.
  unfoldable pub deref : StateMachine W → StatePointer → Result (State W)
  deref m p = elim (lookup p.key m.states) [
    | none ↦ err dangling
    | some s ↦ if s.address == p.address then ok s else err dangling
  ]

  unfoldable pub get_current_state_name : StateMachine W → Result String
  unfolding deref
  get_current_state_name m = elim m.current_state [
    | none ↦ err null_pointer
    | some p ↦ deref m p >>= λ s. ok s.name
  ]

  unfoldable pub can_transition : String → StateMachine W → W → Result Bool
  unfolding deref allows
  can_transition new_state_name m w = elim m.current_state [
    | none ↦ ok false
    | some p ↦ deref m p >>= λ s. ok (allows s new_state_name w)
  ]

  -- The last lines of `try_transition`.
  unfoldable pub move_to : String → State W → StateMachine W → W → Bool × StateMachine W × W
  move_to new_state_name current m w = elim (lookup new_state_name m.states) [
    | none ↦ (false, m, w)
    | some s ↦ (
      true,
      record m { current_state = some (record { key = new_state_name; address = s.address }) },
      s.enter (current.exit w),
    )
  ]

  unfoldable pub try_transition : String → StateMachine W → W → Result (Bool × StateMachine W × W)
  unfolding deref allows move_to
  try_transition new_state_name m w = elim m.current_state [
    | none ↦ ok (false, m, w)
    | some p ↦ deref m p >>= λ s.
        ok (if allows s new_state_name w then move_to new_state_name s m w else (false, m, w))
  ]

  unfoldable pub abort : StateMachine W → StateMachine W
  unfolding cancel
  abort m = elim m.delay_timer [
    | none ↦ m
    | some timer ↦ record m { delay_timer = none; delayed = cancel timer m.delayed }
  ]

  unfoldable pub transition_delayed : String → Bool → StateMachine W → StateMachine W
  unfolding abort
  transition_delayed new_state_name override m =
      let begun = if override then abort m else m in
      let d : Delayed = record {
        timer = begun.next_timer;
        target = new_state_name;
        progress = waiting;
      } in
      record begun {
        delay_timer = some begun.next_timer;
        delayed = begun.delayed ++ d ∷ [];
        next_timer = suc begun.next_timer;
      }

  -- The coroutine of a timer goes on after its wait; `ec` is set if the wait was cancelled.
  unfoldable pub resume : ℕ → StateMachine W → W → Result (StateMachine W × W)
  unfolding try_transition take_ready
  resume timer m w = elim (take_ready timer m.delayed) [
    | none ↦ ok (m, w)
    | some (d, rest) ↦
        let gone = record m { delayed = rest } in
        elim d.progress [
          | waiting ↦ ok (m, w)
          | cancelled ↦ ok (gone, w)
          | expired ↦ try_transition d.target gone w >>= λ r. ok (r.1, r.2)
        ]
  ]

  -- The delay of a timer passes.
  unfoldable pub pass_delay : ℕ → StateMachine W → StateMachine W
  unfolding expire
  pass_delay timer m = record m { delayed = expire timer m.delayed }
