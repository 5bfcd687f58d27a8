-- ===== src/Prelude/Bits.antt =====
-- The masks of the source at variables: clearing the low bits of a word, and its top bit.
use Prim.Native.Nat.{
  ℕ, zero, suc, ◌+◌, ◌-◌, ◌*◌, ◌/◌, ◌%◌, ◌^◌, ◌≤◌, ◌<◌, min, max, bit_and, bit_or, digits,
  bit_and-bitwise, bit_or-bitwise,
}
use mathlib.Core.Path.{◌≡◌, refl, ap}
use native.Mathlib.Omega.{arith}
use native.Mathlib.Nat.{add-zero, add-suc, two-pow-succ, one-le-pow, pow-le-pow_right}

-- Both operations go digit by digit; once there are more steps than the first number has digits,
-- their count does not matter.
module _ (ended : ℕ → ℕ) (both : ℕ → ℕ → ℕ) where
  steps_enough : (k l a b : ℕ) → a ≤ k → a ≤ l → digits ended both k a b ≡ digits ended both l a b
  steps_enough zero zero a b p q = refl
  steps_enough (suc k) (suc l) zero b p q = refl
  steps_enough (suc k) zero zero b p q = refl
  steps_enough zero (suc l) zero b p q = refl
  steps_enough zero l (suc a) b p q = absurd (omega arith)
  steps_enough (suc k) zero (suc a) b p q = absurd (omega arith)
  steps_enough (suc k) (suc l) (suc a) b p q =
      ap (λ (t : ℕ). t * 2 + both (suc a % 2) (b % 2))
        (steps_enough k l (suc a / 2) (b / 2) (omega arith) (omega arith))

zero-bit_and : (b : ℕ) → bit_and 0 b ≡ 0
zero-bit_and b = bit_and-bitwise 0 b

zero-bit_or : (b : ℕ) → bit_or 0 b ≡ b
zero-bit_or b = bit_or-bitwise 0 b

-- The lowest digit apart from the others.
bit_and-low : (a b : ℕ) → bit_and a b ≡ bit_and (a / 2) (b / 2) * 2 + min (a % 2) (b % 2)
bit_and-low zero b = omega (arith, zero-bit_and b, zero-bit_and (b / 2))
bit_and-low (suc a) b =
    let half : ℕ = suc a / 2 in
    let low = steps_enough (λ d. zero) min a half half (b / 2) (omega arith) (omega arith) in
    omega (arith, low, bit_and-bitwise half (b / 2), bit_and-bitwise (suc a) b)

bit_or-low : (a b : ℕ) → bit_or a b ≡ bit_or (a / 2) (b / 2) * 2 + max (a % 2) (b % 2)
bit_or-low zero b = omega (arith, zero-bit_or b, zero-bit_or (b / 2))
bit_or-low (suc a) b =
    let half : ℕ = suc a / 2 in
    let low = steps_enough (λ d. d) max a half half (b / 2) (omega arith) (omega arith) in
    omega (arith, low, bit_or-bitwise half (b / 2), bit_or-bitwise (suc a) b)

-- A mask of ones keeps a word of that width.
bit_and_ones : (w a : ℕ) → a < 2 ^ w → bit_and a (2 ^ w - 1) ≡ a
bit_and_ones zero a h = let e : a ≡ 0 = omega arith in rw e (zero-bit_and 0)
bit_and_ones (suc w) a h =
    let half : (2 ^ suc w - 1) / 2 ≡ 2 ^ w - 1 = omega (arith, two-pow-succ w, one-le-pow w 2) in
    let low : (2 ^ suc w - 1) % 2 ≡ 1 = omega (arith, two-pow-succ w, one-le-pow w 2) in
    let step : bit_and a (2 ^ suc w - 1) ≡ bit_and (a / 2) (2 ^ w - 1) * 2 + min (a % 2) 1 =
      rw (bit_and-low a (2 ^ suc w - 1), half, low) refl in
    omega (arith, step, two-pow-succ w, bit_and_ones w (a / 2))

pub pow_add : (w e : ℕ) → 2 ^ (w + e) ≡ 2 ^ w * 2 ^ e
pow_add w zero = rw (add-zero w) (omega arith)
pow_add w (suc e) =
    rw (add-suc w e)
      (omega (arith, two-pow-succ (w + e), pow_add w e, ap (λ (t : ℕ). 2 ^ w * t) (two-pow-succ e)))

bit_and_even : (a m b : ℕ) → b ≡ m + m → bit_and a b ≡ bit_and (a / 2) m * 2
bit_and_even a m b e =
    let half : b / 2 ≡ m = omega arith in
    let low : b % 2 ≡ 0 = omega arith in
    let step : bit_and a b ≡ bit_and (a / 2) m * 2 + min (a % 2) 0 =
      rw (bit_and-low a b, half, low) refl in
    omega (arith, step)

-- `a & !(2 ^ e - 1)` in a word of `w + e` bits, for `a` with high part `q` and low part `r`.
pub bit_and_split :
    (e w q r a : ℕ)
    → q < 2 ^ w
    → r < 2 ^ e
    → a ≡ q * 2 ^ e + r
    → bit_and a (2 ^ (w + e) - 2 ^ e) ≡ q * 2 ^ e
bit_and_split zero w q r a h l e = rw (add-zero w) (omega (arith, bit_and_ones w a (omega arith)))
bit_and_split (suc e) w q r a h l eq =
    let twice : 2 ^ (w + suc e) ≡ 2 ^ (w + e) + 2 ^ (w + e) =
      rw (add-suc w e) (two-pow-succ (w + e)) in
    let times : q * 2 ^ suc e ≡ q * (2 ^ e + 2 ^ e) = ap (λ (t : ℕ). q * t) (two-pow-succ e) in
    let half : a / 2 ≡ q * 2 ^ e + r / 2 = omega (arith, times) in
    let ih = bit_and_split e w q (r / 2) (a / 2) h (omega (arith, two-pow-succ e)) half in
    let le : 2 ^ e ≤ 2 ^ (w + e) = pow-le-pow_right (omega arith) (omega arith) in
    omega (
      arith,
      times,
      ih,
      bit_and_even a (2 ^ (w + e) - 2 ^ e) (2 ^ (w + suc e) - 2 ^ suc e)
          (omega (arith, twice, two-pow-succ e, le)),
    )

-- The bit `2 ^ e` of a word, clear and set.
pub bit_and_clear : (e a : ℕ) → a < 2 ^ e → bit_and a (2 ^ e) ≡ 0
bit_and_clear zero a h = let same : a ≡ 0 = omega arith in rw same (zero-bit_and 1)
bit_and_clear (suc e) a h = omega (
  arith,
  two-pow-succ e,
  bit_and_clear e (a / 2),
  bit_and_even a (2 ^ e) (2 ^ suc e) (two-pow-succ e),
)

pub bit_and_set : (e a b : ℕ) → a < 2 ^ e → b ≡ a + 2 ^ e → bit_and b (2 ^ e) ≡ 2 ^ e
bit_and_set zero a b h eq = let same : b ≡ 1 = omega arith in rw same
bit_and_set (suc e) a b h eq = omega (
  arith,
  two-pow-succ e,
  bit_and_set e (a / 2) (b / 2) (omega (arith, two-pow-succ e)) (omega (arith, two-pow-succ e)),
  bit_and_even b (2 ^ e) (2 ^ suc e) (two-pow-succ e),
)

bit_or_even : (a m b : ℕ) → b ≡ m + m → bit_or a b ≡ bit_or (a / 2) m * 2 + a % 2
bit_or_even a m b e =
    let half : b / 2 ≡ m = omega arith in
    let low : b % 2 ≡ 0 = omega arith in
    let step : bit_or a b ≡ bit_or (a / 2) m * 2 + max (a % 2) 0 =
      rw (bit_or-low a b, half, low) refl in
    omega (arith, step)

pub bit_or_top : (e a : ℕ) → a < 2 ^ e → bit_or a (2 ^ e) ≡ a + 2 ^ e
bit_or_top zero a h = let same : a ≡ 0 = omega arith in rw same (zero-bit_or 1)
bit_or_top (suc e) a h = omega (
  arith,
  two-pow-succ e,
  bit_or_top e (a / 2),
  bit_or_even a (2 ^ e) (2 ^ suc e) (two-pow-succ e),
)
