-- ===== src/Prelude/Integers.antt =====
-- Signed integers over the native numbers, and the machine's bounded ones.
use Prim.Native.Nat.{ℕ, suc, ◌+◌, ◌-◌, ◌≤◌}
use mathlib.Core.Path.{◌≡◌}
use mathlib.Core.Bool.{Bool, true}
use mathlib.Core.Option.{Option, none, some}
use native.Mathlib.Omega.{arith}
use singbox_sub_me.Prelude.Tests.{leb, if◌then◌else◌}

-- `negsuc n` is `-(n + 1)`.
pub data ℤ : Type 0 where
  pos negsuc : ℕ → ℤ

infixl 20 ◌⊖◌ ◌+ℤ◌ ◌-ℤ◌
-- The difference of two naturals.
abbrev pub ◌⊖◌ : ℕ → ℕ → ℤ
a ⊖ b = if leb b a then pos (a - b) else negsuc (b - a - 1)

abbrev pub ◌+ℤ◌ : ℤ → ℤ → ℤ
pos a +ℤ pos b = pos (a + b)
pos a +ℤ negsuc b = a ⊖ suc b
negsuc a +ℤ pos b = b ⊖ suc a
negsuc a +ℤ negsuc b = negsuc (suc (a + b))

abbrev pub ◌-ℤ◌ : ℤ → ℤ → ℤ
a -ℤ pos b = a +ℤ (0 ⊖ b)
a -ℤ negsuc b = a +ℤ pos (suc b)

-- `u64::MAX`, `u128::MAX` and `i128::MAX`
abbrev pub u64_max : ℕ
u64_max = 18446744073709551615

abbrev pub u128_max : ℕ
u128_max = 340282366920938463463374607431768211455

abbrev pub i128_max : ℕ
i128_max = 170141183460469231731687303715884105727

-- `u64::saturating_add`
abbrev pub saturating_add : ℕ → ℕ → ℕ
saturating_add a b = if leb (a + b) u64_max then a + b else u64_max

-- `u64::checked_add`
abbrev pub checked_add : ℕ → ℕ → Option ℕ
checked_add a b = if leb (a + b) u64_max then some (a + b) else none

-- A signed value in `[-(bound + 1), bound]`.
abbrev pub fits : ℕ → ℤ → Bool
fits bound (pos n) = leb n bound
fits bound (negsuc n) = leb n bound

abbrev pub clamp : ℕ → ℤ → ℤ
clamp bound (pos n) = if leb n bound then pos n else pos bound
clamp bound (negsuc n) = if leb n bound then negsuc n else negsuc bound

-- `i128::saturating_add` and `i128::checked_sub`
abbrev pub signed_saturating_add : ℤ → ℤ → ℤ
signed_saturating_add a b = clamp i128_max (a +ℤ b)

abbrev pub signed_checked_sub : ℤ → ℤ → Option ℤ
signed_checked_sub a b = if fits i128_max (a -ℤ b) then some (a -ℤ b) else none

-- What is subtracted and added again is back.
pub sub-add : (a b : ℤ) → b +ℤ (a -ℤ b) ≡ a
sub-add (pos a) (pos b) = ground arith
sub-add (pos a) (negsuc b) = ground arith
sub-add (negsuc a) (pos b) = ground arith
sub-add (negsuc a) (negsuc b) = ground arith

pub clamp-fits : (bound : ℕ) (z : ℤ) → fits bound z ≡ true → clamp bound z ≡ z
clamp-fits bound (pos n) h = ground arith
clamp-fits bound (negsuc n) h = ground arith

pub fits-sub :
    (m n : ℕ) (a b : ℤ) → fits m a ≡ true → fits n b ≡ true → fits (m + n + 1) (a -ℤ b) ≡ true
fits-sub m n (pos a) (pos b) h k = ground arith
fits-sub m n (pos a) (negsuc b) h k = ground arith
fits-sub m n (negsuc a) (pos b) h k = ground arith
fits-sub m n (negsuc a) (negsuc b) h k = ground arith

pub fits_weaken : (m n : ℕ) (z : ℤ) → m ≤ n → fits m z ≡ true → fits n z ≡ true
fits_weaken m n (pos a) h k = ground arith
fits_weaken m n (negsuc a) h k = ground arith
