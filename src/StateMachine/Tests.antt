-- ===== src/StateMachine/Tests.antt =====
-- A machine with two states, of which the second waits to be entered. The world counts the calls of `enter` and `exit`.
use tower_main.Common.{ℕ, ◌≡◌, refl, ◌+◌, ◌*◌, inl, Bool, true, [], ◌∷◌, none, some, ok, String}
use tower_main.Common.Map.{lookup, insert}
use tower_main.Common.Text.{string_eq}
use tower_main.StateMachine.{
  State, StateMachine, add_state, set_initial_state, try_transition, transition_delayed, pass_delay,
}
use tower_main.StateMachine.Transitions.{
  IsValid, Tries, try_transition-Tries, try_transition-IsValid, add_state-IsValid,
  set_initial_state-IsValid,
}
use tower_main.StateMachine.Delays.{
  HoldsTimer, transition_delayed-HoldsTimer, pass_delay-HoldsTimer,
}

abbrev idle : State ℕ
idle = record {
  address = 1;
  name = "Idle";
  enter = λ w. w + 1;
  exit = λ w. w * 2;
  transitions = ("Attack", λ _. true) ∷ [];
}

abbrev attack : State ℕ
attack = record {
  address = 2;
  name = "Attack";
  enter = λ w. w + 10;
  exit = λ w. w;
  transitions = [];
}

abbrev no_states : StateMachine ℕ
no_states = record {
  current_state = none;
  states = [];
  delay_timer = none;
  delayed = [];
  next_timer = 0;
}

abbrev one_state : StateMachine ℕ
one_state = add_state idle no_states

abbrev stopped : StateMachine ℕ
stopped = add_state attack one_state

abbrev ready : StateMachine ℕ
ready = set_initial_state "Idle" stopped

abbrev delayed : StateMachine ℕ
delayed = transition_delayed "Attack" true ready

nowhere : (n : String) (s : State ℕ) → ¬ (lookup n no_states.states ≡ some s)
unfolding lookup
nowhere n s e = cc

no_states-IsValid : IsValid no_states
no_states-IsValid = record { filed = λ n s e. absurd (nowhere n s e); alive = inl refl }

one_state-IsValid : IsValid one_state
one_state-IsValid = add_state-IsValid idle no_states no_states-IsValid (λ p e. cc)

add_state-IsValid_example : IsValid (add_state attack one_state)
unfolding add_state
add_state-IsValid_example = add_state-IsValid attack one_state one_state-IsValid (λ p e. cc)

ready-IsValid : IsValid (set_initial_state "Idle" stopped)
ready-IsValid = set_initial_state-IsValid "Idle" stopped add_state-IsValid_example

try_transition-Tries_example : Tries "Attack" ready 3 (try_transition "Attack" ready 3)
try_transition-Tries_example = try_transition-Tries "Attack" ready 3 ready-IsValid

try_transition-IsValid_example :
    (b : Bool) × (m' : StateMachine ℕ) × (w' : ℕ) × (try_transition "Attack" ready 3
      ≡ ok (b, m', w'))
    × IsValid m'
try_transition-IsValid_example = try_transition-IsValid "Attack" ready 3 ready-IsValid

ready-HoldsTimer : HoldsTimer ready
unfolding add_state set_initial_state lookup insert
ready-HoldsTimer d i w = absurd i

transition_delayed-HoldsTimer_example : HoldsTimer (transition_delayed "Attack" true ready)
transition_delayed-HoldsTimer_example =
    transition_delayed-HoldsTimer "Attack" ready ready-HoldsTimer

pass_delay-HoldsTimer_example : HoldsTimer (pass_delay 0 delayed)
pass_delay-HoldsTimer_example =
    pass_delay-HoldsTimer 0 delayed transition_delayed-HoldsTimer_example
