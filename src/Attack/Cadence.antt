-- ===== src/Attack/Cadence.antt =====
-- The machine of an entity that attacks: one attack at a time, and an end to each.
use tower_main.Common.{
  ℕ, suc, ◌≡◌, ◌≢◌, refl, sym, ap, subst, ◌∙◌, ◌⊎◌, inl, inr, true, false, if◌then◌else◌, [], ◌∷◌,
  Option, none, some, nat_eq, ==-cases, Result, ok, ◌>>=◌, arith,
}
use tower_main.Common.Map.{lookup, insert}
use tower_main.Common.Text.{string_eq}
use tower_main.StateMachine.{
  StateMachine, Progress, waiting, expired, settle, stop_waiting, cancel, expire, take_ready, abort,
  allows, deref, move_to, add_state, add_transition, set_initial_state, try_transition,
  transition_delayed, pass_delay, resume,
}
use tower_main.Attack.{init_states}

ok-injective {ℓ} : {A : Type ℓ} {a b : A} → ok a ≡ ok b → a ≡ b
ok-injective e = cc

-- The calls of `MeleeAttack::use` on the machine of its user.
unfoldable pub attempt : StateMachine (Unit {0}) → Result (StateMachine (Unit {0}))
attempt m = do
  tried ← try_transition "Attacking" m tt
  ok (if tried.0 then transition_delayed "Idle" true tried.1 else tried.1)

-- What happens to the machine: an attack is tried, a delay passes, the coroutine of a timer goes on.
pub data Step : StateMachine (Unit {0}) → StateMachine (Unit {0}) → Type 0 where
  attempts : {m n : StateMachine (Unit {0})} → attempt m ≡ ok n → Step m n
  passes : {m : StateMachine (Unit {0})} (timer : ℕ) → Step m (pass_delay timer m)
  resumes :
      {m n : StateMachine (Unit {0})} (timer : ℕ) (world : Unit {0})
      → resume timer m tt ≡ ok (n, world)
      → Step m n

pub data Run : StateMachine (Unit {0}) → StateMachine (Unit {0}) → Type 0 where
  done : {m : StateMachine (Unit {0})} → Run m m
  after : {m n k : StateMachine (Unit {0})} → Run m n → Step n k → Run m k

module _ (idle_address attacking_address : ℕ) where
  abbrev pub made : StateMachine (Unit {0})
  made = init_states idle_address attacking_address

  unfoldable pub ready : Option ℕ → ℕ → StateMachine (Unit {0})
  ready timer next = record made { delay_timer = timer; next_timer = next }

  unfoldable pub busy : ℕ → Progress → ℕ → StateMachine (Unit {0})
  busy timer progress next = record made {
    current_state = some (record { key = "Attacking"; address = attacking_address });
    delay_timer = some timer;
    delayed = record { timer = timer; target = "Idle"; progress = progress } ∷ [];
    next_timer = next;
  }

  -- The machine is idle, and no coroutine is left; or it attacks, and its one coroutine is to set it to idle.
  pub data Phase : StateMachine (Unit {0}) → Type 0 where
    is_ready : (timer : Option ℕ) (next : ℕ) → Phase (ready timer next)
    is_attacking : (timer next : ℕ) → Phase (busy timer waiting next)
    is_over : (timer next : ℕ) → Phase (busy timer expired next)

  pub made-Phase : Phase made
  unfolding ready init_states add_state add_transition set_initial_state insert lookup
  made-Phase = is_ready none 0

  pub try-ready :
      (timer : Option ℕ) (next : ℕ)
      → try_transition "Attacking" (ready timer next) tt
        ≡ ok (
          true,
          record (ready timer next) {
            current_state = some (record { key = "Attacking"; address = attacking_address });
          },
          tt,
        )
  unfolding ready init_states add_state add_transition set_initial_state insert lookup
      try_transition deref allows move_to
  try-ready timer next = ground arith

  pub attempt-ready :
      (timer : Option ℕ) (next : ℕ) → attempt (ready timer next) ≡ ok (busy next waiting (suc next))
  unfolding attempt ready busy init_states add_state add_transition set_initial_state insert lookup
      try_transition deref allows move_to transition_delayed abort cancel
  attempt-ready timer next = ground arith

  pub try-busy :
      (timer next : ℕ) (progress : Progress)
      → try_transition "Attacking" (busy timer progress next) tt
        ≡ ok (false, busy timer progress next, tt)
  unfolding busy init_states add_state add_transition set_initial_state insert lookup try_transition
      deref allows move_to
  try-busy timer next progress = ground arith

  pass_delay-busy :
      (timer next : ℕ) → pass_delay timer (busy timer waiting next) ≡ busy timer expired next
  unfolding pass_delay busy expire settle stop_waiting
  pass_delay-busy timer next = ground arith

  resume-over :
      (timer next : ℕ)
      → resume timer (busy timer expired next) tt ≡ ok (ready (some timer) next, tt)
  unfolding resume take_ready busy ready init_states add_state add_transition set_initial_state
      insert lookup try_transition deref allows move_to
  resume-over timer next = ground arith

  pass_delay-ready :
      (t : ℕ) (timer : Option ℕ) (next : ℕ) → pass_delay t (ready timer next) ≡ ready timer next
  unfolding pass_delay expire ready init_states add_state add_transition set_initial_state insert
      lookup
  pass_delay-ready t timer next = refl

  pass_delay-over :
      (t timer next : ℕ) → pass_delay t (busy timer expired next) ≡ busy timer expired next
  unfolding pass_delay busy expire settle stop_waiting
  pass_delay-over t timer next = ground arith

  pass_delay-other :
      (t timer next : ℕ)
      → timer ≢ t
      → pass_delay t (busy timer waiting next) ≡ busy timer waiting next
  unfolding pass_delay busy expire settle stop_waiting
  pass_delay-other t timer next apart = ground arith

  resume-ready :
      (t : ℕ) (timer : Option ℕ) (next : ℕ)
      → resume t (ready timer next) tt ≡ ok (ready timer next, tt)
  unfolding resume take_ready ready init_states add_state add_transition set_initial_state insert
      lookup
  resume-ready t timer next = refl

  resume-attacking :
      (t timer next : ℕ) → resume t (busy timer waiting next) tt ≡ ok (busy timer waiting next, tt)
  unfolding resume take_ready busy
  resume-attacking t timer next = ground arith

  resume-other :
      (t timer next : ℕ)
      → timer ≢ t
      → resume t (busy timer expired next) tt ≡ ok (busy timer expired next, tt)
  unfolding resume take_ready busy
  resume-other t timer next apart = ground arith

  attempt-busy :
      (timer next : ℕ) (progress : Progress)
      → attempt (busy timer progress next) ≡ ok (busy timer progress next)
  unfolding attempt
  attempt-busy timer next progress = rw (try-busy timer next progress)

  reaches :
      {m n : StateMachine (Unit {0})} {r : Result (StateMachine (Unit {0}))}
      → Phase m
      → r ≡ ok m
      → r ≡ ok n
      → Phase n
  reaches phase e f = subst Phase (ok-injective (sym e ∙ f)) phase

  ends_in :
      {m n : StateMachine (Unit {0})} {world : Unit {0}}
      {r : Result (StateMachine (Unit {0}) × Unit {0})}
      → Phase m
      → r ≡ ok (m, tt)
      → r ≡ ok (n, world)
      → Phase n
  ends_in phase e f = subst Phase (ap (λ k. k.0) (ok-injective (sym e ∙ f))) phase

  pub attempt-Phase : {m n : StateMachine (Unit {0})} → Phase m → attempt m ≡ ok n → Phase n
  attempt-Phase (is_ready timer next) e =
      reaches (is_attacking next (suc next)) (attempt-ready timer next) e
  attempt-Phase (is_attacking timer next) e =
      reaches (is_attacking timer next) (attempt-busy timer next waiting) e
  attempt-Phase (is_over timer next) e =
      reaches (is_over timer next) (attempt-busy timer next expired) e

  pass_delay-Phase : (t : ℕ) {m : StateMachine (Unit {0})} → Phase m → Phase (pass_delay t m)
  pass_delay-Phase t (is_ready timer next) =
      subst Phase (sym (pass_delay-ready t timer next)) (is_ready timer next)
  pass_delay-Phase t (is_attacking timer next) = elim (==-cases timer t) [
    | inl (same, _) ↦
        subst Phase
          (sym (
            ap (λ k. pass_delay k (busy timer waiting next)) (sym same)
            ∙ pass_delay-busy timer next))
          (is_over timer next)
    | inr (apart, _) ↦
        subst Phase (sym (pass_delay-other t timer next apart)) (is_attacking timer next)
  ]
  pass_delay-Phase t (is_over timer next) =
      subst Phase (sym (pass_delay-over t timer next)) (is_over timer next)

  resume-Phase :
      (t : ℕ) (world : Unit {0}) {m n : StateMachine (Unit {0})}
      → Phase m
      → resume t m tt ≡ ok (n, world)
      → Phase n
  resume-Phase t world (is_ready timer next) e =
      ends_in (is_ready timer next) (resume-ready t timer next) e
  resume-Phase t world (is_attacking timer next) e =
      ends_in (is_attacking timer next) (resume-attacking t timer next) e
  resume-Phase t world (is_over timer next) e = elim (==-cases timer t) [
    | inl (same, _) ↦
        ends_in (is_ready (some timer) next)
          (ap (λ k. resume k (busy timer expired next) tt) (sym same) ∙ resume-over timer next) e
    | inr (apart, _) ↦ ends_in (is_over timer next) (resume-other t timer next apart) e
  ]

  Step-Phase : {m n : StateMachine (Unit {0})} → Step m n → Phase m → Phase n
  Step-Phase (attempts e) p = attempt-Phase p e
  Step-Phase (passes timer) p = pass_delay-Phase timer p
  Step-Phase (resumes timer world e) p = resume-Phase timer world p e

  -- In a run from the machine with which a player or a monster is made, of attempts to attack, delays that pass and
  -- coroutines that go on: the machine is idle with no coroutine left, or it attacks with exactly one, which waits or
  -- whose delay is over, and which is to set it to idle.
  pub Run-Phase : {m : StateMachine (Unit {0})} → Run made m → Phase m
  Run-Phase run = from_made made-Phase run
    where
      from_made : {k m : StateMachine (Unit {0})} → Phase k → Run k m → Phase m
      from_made p done = p
      from_made p (after run step) = Step-Phase step (from_made p run)

  -- An attack can begin.
  abbrev pub CanAttack : StateMachine (Unit {0}) → Type 0
  CanAttack m =
      (begun : StateMachine (Unit {0})) × (try_transition "Attacking" m tt ≡ ok (true, begun, tt))

  -- No attack can begin, until the delay of a timer has passed and its coroutine has gone on.
  abbrev pub Recovers : StateMachine (Unit {0}) → Type 0
  Recovers m =
      (timer : ℕ) × (rested : StateMachine (Unit {0})) × (attempt m ≡ ok m)
      × (resume timer (pass_delay timer m) tt ≡ ok (rested, tt))
      × CanAttack rested

  ready-CanAttack : (timer : Option ℕ) (next : ℕ) → CanAttack (ready timer next)
  ready-CanAttack timer next = (_, try-ready timer next)

  Phase-attacks : {m : StateMachine (Unit {0})} → Phase m → CanAttack m ⊎ Recovers m
  Phase-attacks (is_ready timer next) = inl (ready-CanAttack timer next)
  Phase-attacks (is_attacking timer next) = inr (
    timer,
    ready (some timer) next,
    attempt-busy timer next waiting,
    rw (pass_delay-busy timer next) (resume-over timer next),
    ready-CanAttack (some timer) next,
  )
  Phase-attacks (is_over timer next) = inr (
    timer,
    ready (some timer) next,
    attempt-busy timer next expired,
    rw (pass_delay-over timer timer next) (resume-over timer next),
    ready-CanAttack (some timer) next,
  )

  -- At the end of every run from the machine with which a player or a monster is made, of attempts to attack, delays
  -- that pass and coroutines that go on: an attack can begin; or an attempt changes nothing, and there is a timer after
  -- whose delay and the coroutine that waits for it an attack can begin.
  pub Run-attacks : {m : StateMachine (Unit {0})} → Run made m → CanAttack m ⊎ Recovers m
  Run-attacks run = Phase-attacks (Run-Phase run)
