-- ===== src/Common/Results.antt =====
-- Code that may throw, or whose model may run out of fuel.
use mathlib.Core.Option.{Option, none, some}

-- `out_of_range` is a thrown `std::out_of_range`; `overflow` (of a signed integer), `null_pointer` and `dangling`
-- are undefined in C++, as is `precondition`, a call of the library that its contract forbids;
-- `out_of_fuel` is a loop of the model that was cut off.
pub data Error : Type 0 where
  out_of_range overflow null_pointer dangling precondition out_of_fuel : Error

pub data Result {ℓ} (A : Type ℓ) : Type ℓ where
  ok : A → Result A
  err : Error → Result A

infixl 5 ◌>>=◌
abbrev pub ◌>>=◌ {ℓ κ} : {A : Type ℓ} {B : Type κ} → Result A → (A → Result B) → Result B
ok a >>= f = f a
err e >>= f = err e

abbrev pub or_fail {ℓ} : {A : Type ℓ} → Option A → Error → Result A
or_fail none e = err e
or_fail (some a) e = ok a
