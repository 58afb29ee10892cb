-- ===== src/StateMachine/Transitions.antt =====
-- What `try_transition` does, and that the machine never holds a pointer to a state that is gone.
use Prim.Native.String.{String}
use tower_main.Common.{
  ◌≡◌, refl, sym, ap, subst, ◌∙◌, ◌⊎◌, inl, inr, ◌≢◌, Bool, true, false, if◌then◌else◌, none, some,
  nat_eq, ==-cases, Bool-cases, Option-cases, Result, ok, arith,
}
use tower_main.Common.Map.{lookup, lookup-insert_self, lookup-insert_ne}
use tower_main.Common.Text.{string_eq}
use tower_main.StateMachine.{
  State, StatePointer, StateMachine, allows, add_state, set_initial_state, deref, move_to,
  try_transition,
}

module _ {W : Type 0} where
  -- The state that `_current_state` points to.
  pub record IsCurrent (m : StateMachine W) (p : StatePointer) (s : State W) : Type 0 where
    pub points : m.current_state ≡ some p
    pub owned : lookup p.key m.states ≡ some s
    pub at : s.address ≡ p.address

  -- Each state is filed under its name, and the current one is still there.
  pub record IsValid (m : StateMachine W) : Type 0 where
    pub filed : (n : String) (s : State W) → lookup n m.states ≡ some s → s.name ≡ n
    pub alive : (m.current_state ≡ none) ⊎ ((p : StatePointer) × (s : State W) × IsCurrent m p s)

  -- All that a call of `try_transition` can do: move, by a transition whose condition holds to a state that
  -- exists, with `exit` before `enter`; or nothing at all.
  pub data Tries (name : String) (m : StateMachine W) (w : W)
      : Result (Bool × StateMachine W × W) → Type 0 where
    moves :
        (p : StatePointer) (s t : State W)
        → IsCurrent m p s
        → allows s name w ≡ true
        → lookup name m.states ≡ some t
        → Tries name m w (
            ok (
              true,
              record m { current_state = some (record { key = name; address = t.address }) },
              t.enter (s.exit w),
            ))
    stays :
        ((p : StatePointer) (s t : State W)
          → IsCurrent m p s
          → allows s name w ≡ true
          → ¬ (lookup name m.states ≡ some t))
        → Tries name m w (ok (false, m, w))

  deref-current :
      (m : StateMachine W) (p : StatePointer) (s : State W) → IsCurrent m p s → deref m p ≡ ok s
  unfolding deref
  deref-current m p s c = ground (arith, c.owned, c.at)

  -- There is one current state.
  current_unique :
      (m : StateMachine W) (p q : StatePointer) (s t : State W)
      → IsCurrent m p s
      → IsCurrent m q t
      → s ≡ t
  current_unique m p q s t c d = ground (arith, c.points, c.owned, d.points, d.owned)

  try_transition-none :
      (name : String) (m : StateMachine W) (w : W)
      → m.current_state ≡ none
      → try_transition name m w ≡ ok (false, m, w)
  unfolding try_transition
  try_transition-none name m w e = ground arith

  try_transition-some :
      (name : String) (m : StateMachine W) (w : W) (p : StatePointer) (s : State W)
      → IsCurrent m p s
      → try_transition name m w ≡ ok (if allows s name w then move_to name s m w else (false, m, w))
  unfolding try_transition deref
  try_transition-some name m w p s c = ground (arith, c.points, c.owned, c.at)

  move_to-cases :
      (name : String) (s : State W) (m : StateMachine W) (w : W)
      → ((t : State W) × (lookup name m.states ≡ some t)
          × (move_to name s m w ≡ (
            true,
            record m { current_state = some (record { key = name; address = t.address }) },
            t.enter (s.exit w),
          )))
        ⊎ (lookup name m.states ≡ none) × (move_to name s m w ≡ (false, m, w))
  unfolding move_to
  move_to-cases name s m w = elim (Option-cases (lookup name m.states)) [
    | inl e ↦ inr (e, ground arith)
    | inr (t, e) ↦ inl (t, e, ground arith)
  ]

  -- On a valid machine `try_transition` follows no dead pointer, and does one of the two.
  pub try_transition-Tries :
      (name : String) (m : StateMachine W) (w : W)
      → IsValid m
      → Tries name m w (try_transition name m w)
  try_transition-Tries name m w v = elim v.alive [
    | inl e ↦
        subst (Tries name m w) (sym (try_transition-none name m w e))
          (stays (λ p s t c _ _. (let f = sym e ∙ c.points in cc)))
    | inr (p, s, c) ↦
        subst (Tries name m w) (sym (try_transition-some name m w p s c))
          (elim (Bool-cases (allows s name w)) [
            | inr no_way ↦ rw no_way (
                stays (λ q s' t d yes_way _.
                  (let f = ap (λ (x : State W). allows x name w) (current_unique m p q s s' c d) in
                    cc)))
            | inl way ↦ rw way (elim (move_to-cases name s m w) [
              | inl (t, found, e) ↦ rw e (moves p s t c way found)
              | inr (missing, e) ↦
                  rw e (stays (λ q s' t d _ found. (let f = sym missing ∙ found in cc)))
            ])
          ])
  ]

  Tries-IsValid :
      (name : String) (m : StateMachine W) (w : W) {r : Result (Bool × StateMachine W × W)}
      → IsValid m
      → Tries name m w r
      → (b : Bool) × (m' : StateMachine W) × (w' : W) × (r ≡ ok (b, m', w')) × IsValid m'
  Tries-IsValid name m w v (stays _) = (false, m, w, refl, v)
  Tries-IsValid name m w v (moves p s t c way found) = (
    true,
    _,
    _,
    refl,
    record {
      filed = v.filed;
      alive = inr (
        record { key = name; address = t.address },
        t,
        record { points = refl; owned = found; at = refl },
      );
    },
  )

  -- On a valid machine `try_transition` returns, and leaves the machine valid.
  pub try_transition-IsValid :
      (name : String) (m : StateMachine W) (w : W)
      → IsValid m
      → (b : Bool) × (m' : StateMachine W) × (w' : W) × (try_transition name m w ≡ ok (b, m', w'))
        × IsValid m'
  try_transition-IsValid name m w v = Tries-IsValid name m w v (try_transition-Tries name m w v)

  -- `add_state` leaves a valid machine valid, unless the new state has the name of the current one.
  pub add_state-IsValid :
      (s : State W) (m : StateMachine W)
      → IsValid m
      → ((p : StatePointer) → m.current_state ≡ some p → p.key ≢ s.name)
      → IsValid (add_state s m)
  unfolding add_state
  add_state-IsValid s m v apart = record {
    filed = λ n t e. elim (==-cases s.name n) [
      | inl (same, _) ↦
          (let f = sym (lookup-insert_self s.name s m.states) ∙ rw (← same) at e in
            ground (arith, f, same))
      | inr (ne, _) ↦ v.filed n t (sym (lookup-insert_ne s.name n s m.states ne) ∙ e)
    ];
    alive = elim v.alive [
      | inl e ↦ inl e
      | inr (p, t, c) ↦ inr (
        p,
        t,
        record {
          points = c.points;
          owned =
              lookup-insert_ne s.name p.key s m.states (λ e. apart p c.points (sym e)) ∙ c.owned;
          at = c.at;
        },
      )
    ];
  }

  -- `set_initial_state` leaves a valid machine valid, whatever the name.
  pub set_initial_state-IsValid :
      (name : String) (m : StateMachine W) → IsValid m → IsValid (set_initial_state name m)
  unfolding set_initial_state
  set_initial_state-IsValid name m v = elim (Option-cases (lookup name m.states)) [
    | inl e ↦ rw (e, set_initial_state) v
    | inr (s, e) ↦
        rw (e, set_initial_state)
          (record {
            filed = v.filed;
            alive = inr (
              record { key = name; address = s.address },
              s,
              record { points = refl; owned = e; at = refl },
            );
          })
  ]
