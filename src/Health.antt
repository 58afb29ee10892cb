-- ===== src/Health.antt =====
-- `EntityResource` of tower/entity/entity.hpp: the health of an entity, an `int32_t`. A call of the signal
-- `health_changed` is an entry of `changes`, the newest first.
pub mod Laws
mod Tests
use package.tower_main.Common.{if◌then◌else◌, List, ◌∷◌, Result, ok, err, ◌>>=◌, precondition}
use package.tower_main.Common.Int.{ℤ, pos, ltb_ℤ, add_int32, sub_int32}

pub data ChangeMode : Type 0 where
  add_mode set_mode : ChangeMode

pub record Resource : Type 0 where
  pub max_health : ℤ
  pub health : ℤ
  pub changes : List (ChangeMode × ℤ)

-- `std::clamp`, whose bounds must be in order.
unfoldable pub clamp : ℤ → ℤ → ℤ → Result ℤ
clamp v lo hi =
    if ltb_ℤ hi lo
    then err precondition
    else ok (if ltb_ℤ v lo then lo else if ltb_ℤ hi v then hi else v)

unfoldable pub change_health : ChangeMode → ℤ → Resource → Result Resource
unfolding add_int32 sub_int32 clamp
change_health add_mode amount r = do
  sum ← add_int32 r.health amount
  health ← clamp sum (pos 0) r.max_health
  ok (record r { health = health; changes = (add_mode, amount) ∷ r.changes })
change_health set_mode amount r = do
  health ← clamp amount (pos 0) r.max_health
  difference ← sub_int32 health r.health
  ok (record r { health = health; changes = (set_mode, difference) ∷ r.changes })
