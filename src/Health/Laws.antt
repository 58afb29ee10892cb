-- ===== src/Health/Laws.antt =====
-- Health stays between 0 and its maximum.
use tower_main.Common.{
  ℕ, ◌-◌, ◌^◌, ◌≤◌, ◌<◌, ◌≡◌, refl, ◌∙◌, ◌⊎◌, inl, inr, ◌∷◌, false, Result, ok, err, overflow,
  arith, if◌then◌else◌,
}
use tower_main.Common.Int.{
  ℤ, pos, neg, ◌+ℤ◌, ◌-ℤ◌, ltb_ℤ, leb_ℤ, ◌≤ℤ◌, pos_part, neg_part, IsInt32, add_int32, sub_int32,
}
use tower_main.Health.{ChangeMode, add_mode, set_mode, Resource, change_health, clamp}

pub record IsValid (r : Resource) : Type 0 where
  pub max_int32 : pos_part r.max_health < 2 ^ 31
  pub not_below : pos 0 ≤ℤ r.health
  pub not_above : r.health ≤ℤ r.max_health

-- The nearest value of the range from 0 to `hi`.
abbrev pub saturate : ℤ → ℤ → ℤ
saturate hi v = if ltb_ℤ v (pos 0) then pos 0 else if ltb_ℤ hi v then hi else v

-- What a change makes of a valid resource.
pub record Changes (mode : ChangeMode) (r : Resource) (wanted reported : ℤ) (res : Result Resource)
    : Type 0 where
  pub out : Resource
  pub returns : res ≡ ok out
  pub valid : IsValid out
  pub same_max : out.max_health ≡ r.max_health
  pub health_lem : out.health ≡ saturate r.max_health wanted
  pub signalled : out.changes ≡ (mode, reported) ∷ r.changes

add_int32-ok :
    (a b : ℤ)
    → pos 0 ≤ℤ a
    → neg_part b ≤ 2 ^ 31
    → (pos (2 ^ 31) ≤ℤ a +ℤ b) × (add_int32 a b ≡ err overflow)
      ⊎ (leb_ℤ (pos (2 ^ 31)) (a +ℤ b) ≡ false) × (add_int32 a b ≡ ok (a +ℤ b))
unfolding add_int32
add_int32-ok a b h k = ground arith

sub_int32-ok :
    (a b : ℤ)
    → pos 0 ≤ℤ a
    → pos 0 ≤ℤ b
    → pos_part a < 2 ^ 31
    → pos_part b < 2 ^ 31
    → sub_int32 a b ≡ ok (a -ℤ b)
unfolding sub_int32
sub_int32-ok a b h k m n = ground arith

clamp-saturate : (v hi : ℤ) → pos 0 ≤ℤ hi → clamp v (pos 0) hi ≡ ok (saturate hi v)
unfolding clamp
clamp-saturate v hi h = ground arith

saturate_bounds : (hi v : ℤ) → pos 0 ≤ℤ hi → (pos 0 ≤ℤ saturate hi v) × (saturate hi v ≤ℤ hi)
saturate_bounds hi v h = ground arith

max_not_below : (r : Resource) → IsValid r → pos 0 ≤ℤ r.max_health
max_not_below r v = omega (arith, v.not_below, v.not_above)

saturated : (mode : ChangeMode) (r : Resource) (wanted reported : ℤ) → Resource
saturated mode r wanted reported = record r {
  health = saturate r.max_health wanted;
  changes = (mode, reported) ∷ r.changes;
}

saturated-Changes :
    (mode : ChangeMode) (r : Resource) (wanted reported : ℤ) {res : Result Resource}
    → IsValid r
    → res ≡ ok (saturated mode r wanted reported)
    → Changes mode r wanted reported res
unfolding saturated
saturated-Changes mode r wanted reported v e =
    let bounds = saturate_bounds r.max_health wanted (max_not_below r v) in
    record {
      out = saturated mode r wanted reported;
      returns = e;
      valid = record { max_int32 = v.max_int32; not_below = bounds.0; not_above = bounds.1 };
      same_max = refl;
      health_lem = refl;
      signalled = refl;
    }

add-returns :
    (r : Resource) (amount : ℤ)
    → IsValid r
    → add_int32 r.health amount ≡ ok (r.health +ℤ amount)
    → change_health add_mode amount r ≡ ok (saturated add_mode r (r.health +ℤ amount) amount)
unfolding change_health saturated
add-returns r amount v e =
    rw (e, clamp-saturate (r.health +ℤ amount) r.max_health (max_not_below r v))

add-overflows :
    (r : Resource) (amount : ℤ)
    → add_int32 r.health amount ≡ err overflow
    → change_health add_mode amount r ≡ err overflow
unfolding change_health
add-overflows r amount e = rw e

-- `ADD` on a valid resource: the sum, brought into the range from 0 to the maximum, and a signal with the
-- amount that was asked for; or a signed overflow, exactly if the sum is 2^31 or more.
pub change_health-add :
    (r : Resource) (amount : ℤ)
    → IsValid r
    → IsInt32 amount
    → (pos (2 ^ 31) ≤ℤ r.health +ℤ amount) × (change_health add_mode amount r ≡ err overflow)
      ⊎ (leb_ℤ (pos (2 ^ 31)) (r.health +ℤ amount) ≡ false)
        × Changes add_mode r (r.health +ℤ amount) amount (change_health add_mode amount r)
change_health-add r amount v n = elim (add_int32-ok r.health amount v.not_below n.0) [
  | inl (big, e) ↦ inl (big, add-overflows r amount e)
  | inr (small, e) ↦
      inr (
        small,
        saturated-Changes add_mode r (r.health +ℤ amount) amount v (add-returns r amount v e),
      )
]

below-max : (a b : ℤ) → pos 0 ≤ℤ a → a ≤ℤ b → pos_part b < 2 ^ 31 → pos_part a < 2 ^ 31
below-max a b h k m = ground arith

set-returns :
    (r : Resource) (amount : ℤ)
    → IsValid r
    → change_health set_mode amount r
      ≡ ok (saturated set_mode r amount (saturate r.max_health amount -ℤ r.health))
unfolding change_health saturated
set-returns r amount v =
    let low = max_not_below r v in
    let bounds = saturate_bounds r.max_health amount low in
    rw (
      clamp-saturate amount r.max_health low,
      sub_int32-ok (saturate r.max_health amount) r.health bounds.0 v.not_below
          (below-max _ _ bounds.0 bounds.1 v.max_int32)
          (below-max _ _ v.not_below v.not_above v.max_int32),
    )

damage_small :
    (r : Resource) (h d : ℕ)
    → IsValid r
    → r.health ≡ pos h
    → ¬ (pos (2 ^ 31) ≤ℤ r.health +ℤ neg (pos d))
unfolding ◌+ℤ◌
damage_small r h d v e = ground arith

damage-saturate :
    (r : Resource) (h d : ℕ)
    → IsValid r
    → r.health ≡ pos h
    → saturate r.max_health (r.health +ℤ neg (pos d)) ≡ pos (h - d)
unfolding ◌+ℤ◌
damage-saturate r h d v e = ground arith

-- `SET` on a valid resource: the amount, brought into the range from 0 to the maximum, and a signal with the
-- difference that this made.
pub change_health-set :
    (r : Resource) (amount : ℤ)
    → IsValid r
    → Changes set_mode r amount
        (saturate r.max_health amount -ℤ r.health)
        (change_health set_mode amount r)
change_health-set r amount v = saturated-Changes set_mode r amount _ v (set-returns r amount v)

-- Damage of `d` points takes `d` from the health of a valid resource, down to 0 at worst, and never overflows.
pub change_health-damage :
    (r : Resource) (h d : ℕ)
    → IsValid r
    → r.health ≡ pos h
    → d ≤ 2 ^ 31
    → (r' : Resource) × (change_health add_mode (neg (pos d)) r ≡ ok r')
      × (r'.health ≡ pos (h - d))
      × IsValid r'
change_health-damage r h d v e le = elim (change_health-add r (neg (pos d)) v (ground arith)) [
  | inl (big, _) ↦ absurd (damage_small r h d v e big)
  | inr (_, c) ↦ (c.out, c.returns, c.health_lem ∙ damage-saturate r h d v e, c.valid)
]
