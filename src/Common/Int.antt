-- ===== src/Common/Int.antt =====
-- Signed integers over the native numbers, under the library's names (its ℤ stands on the unary ℕ).
-- Sums and orders go through the two parts of an integer, which are numbers that `omega` reads.
use Prim.Native.Nat.{ℕ, suc, ◌+◌, ◌-◌, ◌^◌, ◌≤◌, ◌<◌}
use mathlib.Core.Path.{◌≡◌}
use mathlib.Core.Logic.{◌↔◌, ◌⊎◌}
use mathlib.Core.Bool.{Bool, true, ◌&&◌}
use native.Mathlib.Omega.{arith}
use tower_main.Common.Tests.{ltb, leb, nat_beq, if◌then◌else◌, Eq}
use tower_main.Common.Results.{Result, ok, err, overflow}

-- `negsuc n` is -(n + 1).
pub data ℤ : Type 0 where
  pos : ℕ → ℤ
  negsuc : ℕ → ℤ

abbrev pub pos_part : ℤ → ℕ
pos_part (pos n) = n
pos_part (negsuc n) = 0

abbrev pub neg_part : ℤ → ℕ
neg_part (pos n) = 0
neg_part (negsuc n) = suc n

-- a - b, as an integer.
abbrev pub sub_ℕ : ℕ → ℕ → ℤ
sub_ℕ a b = if leb b a then pos (a - b) else negsuc (b - a - 1)

infixl 65 ◌+ℤ◌ ◌-ℤ◌
infix 50 ◌≤ℤ◌
unfoldable pub ◌+ℤ◌ : ℤ → ℤ → ℤ
a +ℤ b = sub_ℕ (pos_part a + pos_part b) (neg_part a + neg_part b)

unfoldable pub ◌-ℤ◌ : ℤ → ℤ → ℤ
a -ℤ b = sub_ℕ (pos_part a + neg_part b) (neg_part a + pos_part b)

abbrev pub neg : ℤ → ℤ
neg a = sub_ℕ (neg_part a) (pos_part a)

abbrev pub ◌≤ℤ◌ : ℤ → ℤ → Type 0
a ≤ℤ b = pos_part a + neg_part b ≤ pos_part b + neg_part a

abbrev pub ltb_ℤ : ℤ → ℤ → Bool
ltb_ℤ a b = ltb (pos_part a + neg_part b) (pos_part b + neg_part a)

abbrev pub leb_ℤ : ℤ → ℤ → Bool
leb_ℤ a b = leb (pos_part a + neg_part b) (pos_part b + neg_part a)

-- The magnitude, as `std::abs` of an `int` that has one.
abbrev pub abs : ℤ → ℕ
abs (pos n) = n
abs (negsuc n) = suc n

pub +ℤ_parts :
    (a b : ℤ)
    → pos_part (a +ℤ b) + neg_part a + neg_part b ≡ neg_part (a +ℤ b) + pos_part a + pos_part b
unfolding ◌+ℤ◌
+ℤ_parts a b = ground arith

pub -ℤ_parts :
    (a b : ℤ)
    → pos_part (a -ℤ b) + neg_part a + pos_part b ≡ neg_part (a -ℤ b) + pos_part a + neg_part b
unfolding ◌-ℤ◌
-ℤ_parts a b = ground arith

pub eq_of_parts : (a b : ℤ) → pos_part a + neg_part b ≡ pos_part b + neg_part a → a ≡ b
eq_of_parts a b h = ground arith

pub ruleset int_laws = (arith, +ℤ_parts, -ℤ_parts, eq_of_parts)

abbrev pub int_beq : ℤ → ℤ → Bool
int_beq a b = nat_beq (pos_part a + neg_part b) (pos_part b + neg_part a)

pub int_beq_iff : (a b : ℤ) → (int_beq a b ≡ true) ↔ (a ≡ b)
int_beq_iff a b = ground arith

instance abbrev pub int_eq : Eq ℤ
int_eq = record { decides = int_beq_iff; test = int_beq }

-- `a + b` and `a - b` on `int` or `int32_t`, and `std::abs`: a result that the type does not hold is an overflow.
unfoldable pub add_int32 : ℤ → ℤ → Result ℤ
unfolding ◌+ℤ◌
add_int32 a b =
    let sum = a +ℤ b in
    if leb_ℤ (negsuc (2 ^ 31 - 1)) sum && ltb_ℤ sum (pos (2 ^ 31)) then ok sum else err overflow

unfoldable pub sub_int32 : ℤ → ℤ → Result ℤ
unfolding ◌-ℤ◌
sub_int32 a b =
    let difference = a -ℤ b in
    if leb_ℤ (negsuc (2 ^ 31 - 1)) difference && ltb_ℤ difference (pos (2 ^ 31))
    then ok difference
    else err overflow

unfoldable pub abs_int32 : ℤ → Result ℕ
abs_int32 a = if ltb (abs a) (2 ^ 31) then ok (abs a) else err overflow

-- `a + b` on `int`s that are not negative.
unfoldable pub add_natural_int32 : ℕ → ℕ → Result ℕ
add_natural_int32 a b = if ltb (a + b) (2 ^ 31) then ok (a + b) else err overflow

abbrev pub IsInt32 : ℤ → Type 0
IsInt32 a = (neg_part a ≤ 2 ^ 31) × (pos_part a < 2 ^ 31)

pub add_int32-fits : (a b : ℤ) → IsInt32 (a +ℤ b) → add_int32 a b ≡ ok (a +ℤ b)
unfolding add_int32
add_int32-fits a b h = ground arith

pub sub_int32-fits : (a b : ℤ) → IsInt32 (a -ℤ b) → sub_int32 a b ≡ ok (a -ℤ b)
unfolding sub_int32
sub_int32-fits a b h = ground arith

pub abs_int32-fits : (a : ℤ) → abs a < 2 ^ 31 → abs_int32 a ≡ ok (abs a)
unfolding abs_int32
abs_int32-fits a h = ground arith

pub add_natural_int32-fits : (a b : ℕ) → a + b < 2 ^ 31 → add_natural_int32 a b ≡ ok (a + b)
unfolding add_natural_int32
add_natural_int32-fits a b h = ground arith

pub abs-IsInt32 : (a : ℤ) → abs a < 2 ^ 31 → IsInt32 a
abs-IsInt32 a h = ground arith

pub sub_int32-cases : (a b : ℤ) → (sub_int32 a b ≡ ok (a -ℤ b)) ⊎ (sub_int32 a b ≡ err overflow)
unfolding sub_int32
sub_int32-cases a b = ground arith

pub abs_int32-cases : (a : ℤ) → (abs_int32 a ≡ ok (abs a)) ⊎ (abs_int32 a ≡ err overflow)
unfolding abs_int32
abs_int32-cases a = ground arith

pub add_natural_int32-cases :
    (a b : ℕ) → (add_natural_int32 a b ≡ ok (a + b)) ⊎ (add_natural_int32 a b ≡ err overflow)
unfolding add_natural_int32
add_natural_int32-cases a b = ground arith

pub add_natural_int32-overflows : (a b : ℕ) → 2 ^ 31 ≤ a + b → add_natural_int32 a b ≡ err overflow
unfolding add_natural_int32
add_natural_int32-overflows a b h = ground arith
