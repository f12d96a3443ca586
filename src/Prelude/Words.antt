-- ===== src/Prelude/Words.antt =====
-- Machine words. A U256 is a number below 2 ^ 256 and its `+` and `*` wrap; an i128 is an integer
-- with the checked operations of the standard library, and the wrap-around of `+=` in a release
-- build.
use Prim.Native.Nat.{ℕ, ◌+◌, ◌-◌, ◌*◌, ◌%◌, ◌^◌, ◌≤◌, ◌<◌}
use mathlib.Core.Path.{◌≡◌}
use mathlib.Core.Bool.{Bool, ◌&&◌}
use mathlib.Core.Option.{Option, none, some}
use native.Mathlib.Omega.{arith}
use passbook.Prelude.Tests.{ltb, leb, if◌then◌else◌}
use passbook.Prelude.Int.{ℤ, pos, negsuc, pos_part, neg_part, ◌+ℤ◌, ◌-ℤ◌}

unfoldable pub u256_add : ℕ → ℕ → ℕ
u256_add a b = (a + b) % 2 ^ 256

unfoldable pub u256_mul : ℕ → ℕ → ℕ
u256_mul a b = (a * b) % 2 ^ 256

pub u256_add-exact : (a b : ℕ) → a + b < 2 ^ 256 → u256_add a b ≡ a + b
unfolding u256_add
u256_add-exact a b h = omega arith

abbrev pub i128_max : ℕ
i128_max = 2 ^ 127 - 1

-- i128::MIN ≤ z ≤ i128::MAX
abbrev pub InI128 : ℤ → Type 0
InI128 z = (pos_part z ≤ i128_max) × (neg_part z ≤ 2 ^ 127)

abbrev pub in_i128 : ℤ → Bool
in_i128 z = leb (pos_part z) i128_max && leb (neg_part z) (2 ^ 127)

-- `i128::try_from(u).ok()`
unfoldable pub try_i128 : ℕ → Option ℤ
try_i128 u = if leb u i128_max then some (pos u) else none

-- `i128::try_from(u).unwrap_or(i128::MAX)`
unfoldable pub clamp_i128 : ℕ → ℤ
clamp_i128 u = if leb u i128_max then pos u else pos i128_max

unfoldable pub in_range : ℤ → Option ℤ
in_range z = if in_i128 z then some z else none

-- `a.checked_add(b)`, `a.checked_sub(b)`
unfoldable pub checked_add : ℤ → ℤ → Option ℤ
unfolding in_range
checked_add a b = in_range (a +ℤ b)

unfoldable pub checked_sub : ℤ → ℤ → Option ℤ
unfolding in_range
checked_sub a b = in_range (a -ℤ b)

-- The i128 whose bit pattern is that of z modulo 2 ^ 128.
abbrev pub of_bits : ℕ → ℤ
of_bits w = if ltb w (2 ^ 127) then pos w else negsuc (2 ^ 128 - 1 - w)

abbrev pub to_bits : ℤ → ℕ
to_bits (pos n) = n % 2 ^ 128
to_bits (negsuc n) = 2 ^ 128 - 1 - n % 2 ^ 128

unfoldable pub wrap_i128 : ℤ → ℤ
wrap_i128 z = of_bits (to_bits z)

-- `a += b`
unfoldable pub i128_add : ℤ → ℤ → ℤ
unfolding wrap_i128
i128_add a b = wrap_i128 (a +ℤ b)

pub wrap_i128-exact : (z : ℤ) → InI128 z → wrap_i128 z ≡ z
unfolding wrap_i128
wrap_i128-exact (pos n) h = ground arith
wrap_i128-exact (negsuc n) h = ground arith

pub InI128-wrap_i128 : (z : ℤ) → InI128 (wrap_i128 z)
unfolding wrap_i128
InI128-wrap_i128 (pos n) = ground arith
InI128-wrap_i128 (negsuc n) = ground arith

-- What wrapped on the way does not matter.
pub wrap_i128-add : (a b : ℤ) → wrap_i128 (wrap_i128 a +ℤ b) ≡ wrap_i128 (a +ℤ b)
unfolding wrap_i128 ◌+ℤ◌
wrap_i128-add (pos n) (pos m) = ground arith
wrap_i128-add (pos n) (negsuc m) = ground arith
wrap_i128-add (negsuc n) (pos m) = ground arith
wrap_i128-add (negsuc n) (negsuc m) = ground arith

pub i128_add-exact : (a b : ℤ) → InI128 (a +ℤ b) → i128_add a b ≡ a +ℤ b
unfolding i128_add
i128_add-exact a b h = wrap_i128-exact (a +ℤ b) h

pub try_i128-some : (u : ℕ) {z : ℤ} → try_i128 u ≡ some z → (z ≡ pos u) × (u ≤ i128_max)
unfolding try_i128
try_i128-some u h = ground arith

pub try_i128-fits : (u : ℕ) → u ≤ i128_max → try_i128 u ≡ some (pos u)
unfolding try_i128
try_i128-fits u h = ground arith

pub clamp_i128-fits : (u : ℕ) → u ≤ i128_max → clamp_i128 u ≡ pos u
unfolding clamp_i128
clamp_i128-fits u h = ground arith
