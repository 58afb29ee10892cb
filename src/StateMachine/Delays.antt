-- ===== src/StateMachine/Delays.antt =====
-- Delayed transitions: which of them can still run.
use Prim.Native.String.{String}
use tower_main.Common.{
  ℕ, ◌≡◌, refl, sym, ap, subst, ◌∙◌, inl, inr, ◌≢◌, true, none, some, nat_eq, ◌∈◌, mem-append,
  Option-cases, arith, List, [], ◌∷◌, map,
}
use tower_main.StateMachine.{
  StateMachine, Delayed, Progress, waiting, expired, cancelled, stop_waiting, settle, cancel,
  expire, abort, transition_delayed, pass_delay,
}

-- Of the waiting coroutines the machine holds the timer, so there is one at most.
abbrev pub HoldsTimer : {W : Type 0} → StateMachine W → Type 0
HoldsTimer m = (d : Delayed) → d ∈ m.delayed → d.progress ≡ waiting → m.delay_timer ≡ some d.timer

mem-map :
    {A B : Type 0} (f : A → B) (b : B) (xs : List A) → b ∈ map f xs → (a : A) × (a ∈ xs) × (b ≡ f a)
mem-map f b [] m = absurd m
mem-map f b (x ∷ xs) (inl e) = (x, inl refl, e)
mem-map f b (x ∷ xs) (inr m) = let (a, there, e) = mem-map f b xs m in (a, inr there, e)

settle-waiting :
    (timer : ℕ) (outcome : Progress) (d : Delayed)
    → outcome ≢ waiting
    → (settle timer outcome d).progress ≡ waiting
    → (d.progress ≡ waiting) × (d.timer ≢ timer) × (settle timer outcome d ≡ d)
unfolding settle stop_waiting
settle-waiting timer outcome d h e = ground arith

some_same : {A : Type 0} {a b : A} → some a ≡ some b → b ≡ a
some_same e = cc

module _ {W : Type 0} where
  abort-none : (m : StateMachine W) → m.delay_timer ≡ none → abort m ≡ m
  unfolding abort
  abort-none m e = ground arith

  abort-some :
      (m : StateMachine W) (timer : ℕ)
      → m.delay_timer ≡ some timer
      → (abort m).delayed ≡ map (settle timer cancelled) m.delayed
  unfolding abort cancel
  abort-some m timer e = rw (e, abort)

  -- After `abort` of a machine that holds the timer of each waiting coroutine, no coroutine waits.
  pub abort-idle :
      (m : StateMachine W)
      → HoldsTimer m
      → (d : Delayed) → d ∈ (abort m).delayed
      → d.progress ≢ waiting
  abort-idle m h d i w = elim (Option-cases m.delay_timer) [
    | inl e ↦
        let held = h d (subst (λ (x : StateMachine W). d ∈ x.delayed) (abort-none m e) i) w in
        (let f = sym e ∙ held in cc)
    | inr (timer, e) ↦
        let (a, there, same) =
          mem-map (settle timer cancelled) d m.delayed (rw (abort-some m timer e) at i) in
        let (waits, other, _) =
          settle-waiting timer cancelled a (λ c. cc)
            (ap (λ (x : Delayed). x.progress) (sym same) ∙ w) in
        other (some_same (sym e ∙ h a there waits))
  ]

  new_delay : StateMachine W → String → Delayed
  new_delay m name = record { timer = (abort m).next_timer; target = name; progress = waiting }

  waits-new :
      (name : String) (m : StateMachine W)
      → HoldsTimer m
      → (d : Delayed) → d ∈ (transition_delayed name true m).delayed
      → d.progress ≡ waiting
      → d ≡ new_delay m name
  unfolding transition_delayed new_delay
  waits-new name m h d i w = elim ((mem-append d (abort m).delayed (new_delay m name ∷ [])).0 i) [
    | inl old ↦ absurd (abort-idle m h d old w)
    | inr (inl e) ↦ e
    | inr (inr nowhere) ↦ absurd nowhere
  ]

  -- With `override`, `transition_delayed` keeps the machine holding the timer of each waiting coroutine.
  pub transition_delayed-HoldsTimer :
      (name : String) (m : StateMachine W)
      → HoldsTimer m
      → HoldsTimer (transition_delayed name true m)
  unfolding transition_delayed new_delay
  transition_delayed-HoldsTimer name m h d i w =
      ap (λ (x : Delayed). some x.timer) (sym (waits-new name m h d i w))

  -- So does the passing of any delay.
  pub pass_delay-HoldsTimer :
      (timer : ℕ) (m : StateMachine W) → HoldsTimer m → HoldsTimer (pass_delay timer m)
  unfolding pass_delay expire
  pass_delay-HoldsTimer timer m h d i w =
      let (a, there, same) = mem-map (settle timer expired) d m.delayed i in
      let (waits, _, kept) =
        settle-waiting timer expired a (λ c. cc)
          (ap (λ (x : Delayed). x.progress) (sym same) ∙ w) in
      h a there waits ∙ ap (λ (x : Delayed). some x.timer) (sym (same ∙ kept))

  -- A coroutine that has been overridden, and whose delay had not passed by then.
  abbrev pub NotExpired : ℕ → StateMachine W → Type 0
  NotExpired timer m = (d : Delayed) → d ∈ m.delayed → d.timer ≡ timer → d.progress ≢ expired
