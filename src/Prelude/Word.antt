-- ===== src/Prelude/Word.antt =====
-- Machine words of the 64-bit target: u64 and usize, as native numbers below 2 ^ 64.
use Prim.Native.Nat.{ℕ, zero, suc, ◌+◌, ◌-◌, ◌%◌, ◌^◌, ◌<◌}
use mathlib.Core.Path.{◌≡◌}
use mathlib.Core.Bool.{Bool, true, false}
use mathlib.Core.Option.{Option, none, some}
use native.Mathlib.Omega.{arith}
use mathlib.Core.Logic.{inl, inr}
use uring.Prelude.Tests.{ltb, leb, ◌==◌, if◌then◌else◌, Bool-cases}

abbrev pub word : ℕ
word = 2 ^ 64

abbrev pub i64_max : ℕ
i64_max = 2 ^ 63 - 1

abbrev pub u64_max : ℕ
u64_max = 2 ^ 64 - 1

-- Atomic `fetch_add` and `fetch_sub` wrap.
abbrev pub fetch_add : ℕ → ℕ → ℕ
fetch_add a n = (a + n) % word

abbrev pub fetch_sub : ℕ → ℕ → ℕ
fetch_sub a n = (a + word - n) % word

abbrev pub checked_add : ℕ → ℕ → Option ℕ
checked_add a b = if ltb (a + b) word then some (a + b) else none

abbrev pub checked_sub : ℕ → ℕ → Option ℕ
checked_sub a b = if leb b a then some (a - b) else none

abbrev pub saturating_add : ℕ → ℕ → ℕ
saturating_add a b = if ltb (a + b) word then a + b else u64_max

-- `checked_next_multiple_of`.
abbrev pub checked_next_multiple_of : ℕ → ℕ → Option ℕ
checked_next_multiple_of a b =
    if b == 0 then none else if a % b == 0 then some a else checked_add a (b - a % b)

-- `is_power_of_two`, as a search for the exponent.
abbrev pub is_power_below : ℕ → ℕ → Bool
is_power_below zero n = false
is_power_below (suc k) n = if 2 ^ k == n then true else is_power_below k n

unfoldable pub is_power_of_two : ℕ → Bool
is_power_of_two n = is_power_below 64 n

power_below : (k n : ℕ) → is_power_below k n ≡ true → (e : ℕ) × (e < k) × (n ≡ 2 ^ e)
power_below zero n h = cc
power_below (suc k) n h = elim (Bool-cases (2 ^ k == n)) [
  | inl hit ↦ (k, omega arith, ground (arith, hit))
  | inr miss ↦ let (e, below, eq) = power_below k n (rw miss at h) in (e, omega arith, eq)
]

-- What the test finds.
pub is_power_of_two-pow : (n : ℕ) → is_power_of_two n ≡ true → (e : ℕ) × (e < 64) × (n ≡ 2 ^ e)
unfolding is_power_of_two
is_power_of_two-pow n h = power_below 64 n h
