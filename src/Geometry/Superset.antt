-- ===== src/Geometry/Superset.antt =====
-- `aligned_geometry` gives the least aligned range around the logical one.
use Prim.Native.Nat.{bit_and}
use native.Mathlib.Nat.{div-add-mod', mod-lt, div-lt_iff_lt-mul, one-le-pow}
use uring.Prelude.{
  ℕ, ◌+◌, ◌-◌, ◌*◌, ◌/◌, ◌%◌, ◌^◌, ◌≤◌, ◌<◌, ◌≡◌, ap, ◌≢◌, ◌↔◌, inl, inr, Option-cases, none, some,
  arith, true,
}
use uring.Prelude.Word.{word, u64_max, is_power_of_two, is_power_of_two-pow}
use uring.Prelude.Bits.{bit_and_split, pow_add}
use uring.Geometry.{Geometry, max_read_len, superset, aligned_geometry}

-- The mask keeps the blocks before the offset.
mask-mod :
    (o a : ℕ) → o < word → is_power_of_two a ≡ true → bit_and o (u64_max - (a - 1)) ≡ o - o % a
mask-mod o a h p =
    let (e, small, eq) = is_power_of_two-pow a p in
    let w : ℕ = 64 - e in
    let full : 2 ^ (w + e) ≡ 2 ^ 64 = ap (λ (t : ℕ). 2 ^ t) {y = 64} (omega arith) in
    let pos : 0 < 2 ^ e = one-le-pow e 2 (omega arith) in
    let high : o / 2 ^ e < 2 ^ w = (div-lt_iff_lt-mul pos).1 (omega (arith, full, pow_add w e)) in
    let parts : o ≡ o / 2 ^ e * 2 ^ e + o % 2 ^ e = omega (arith, div-add-mod' o (2 ^ e)) in
    let split = bit_and_split e w (o / 2 ^ e) (o % 2 ^ e) o high (mod-lt o pos) parts in
    let mask : u64_max - (a - 1) ≡ 2 ^ (w + e) - 2 ^ e = omega (arith, full) in
    rw (mask, eq) (omega (arith, split, parts))

-- A geometry covers the logical range, is aligned at both ends, and no aligned range is shorter.
pub record Covers (o l a : ℕ) (g : Geometry) : Type 0 where
  pub exact : g.kernel_offset + g.head ≡ o
  pub near : g.head < a
  pub aligned_start : g.kernel_offset % a ≡ 0
  pub aligned_len : g.region_len % a ≡ 0
  pub covered : g.head + l ≤ g.region_len
  pub tight : g.region_len < g.head + l + a

mod_down : (t a : ℕ) → (t - t % a) % a ≡ 0
mod_down t a = grind arith

mod_up : (t a : ℕ) → 0 < a → (t + (a - t % a)) % a ≡ 0
mod_up t a h = grind arith

superset-Covers :
    (o l a : ℕ) (g : Geometry)
    → o < word
    → 0 < a
    → is_power_of_two a ≡ true
    → superset o l a ≡ some g
    → Covers o l a g
unfolding superset
superset-Covers o l a g ho pos p h =
    let start : o - (o - o % a) ≡ o % a = omega (arith, div-add-mod' o a) in
    let within : o % a < a = mod-lt o pos in
    let len : (o % a + l) % a < a = mod-lt _ pos in
    let down = mod_down o a in
    let up = mod_up (o % a + l) a pos in
    ground (arith, mask-mod o a ho p, rw (mask-mod o a ho p) at h)

-- Whatever geometry comes back for an offset of 64 bits covers the caller's range, is aligned at
-- both ends, and is shorter than a block more than the range from its aligned start.
pub aligned_geometry-Covers :
    (o l a : ℕ) (g : Geometry) → o < word → aligned_geometry o l a ≡ some g → Covers o l a g
unfolding aligned_geometry
aligned_geometry-Covers o l a g ho h = ground (arith, superset-Covers o l a g ho)

abbrev pub IsLegalAlign : ℕ → Type 0
IsLegalAlign a = (is_power_of_two a ≡ true) × (a ≤ max_read_len)

pub power_pos : (a : ℕ) → is_power_of_two a ≡ true → 0 < a
power_pos a p = let (e, small, eq) = is_power_of_two-pow a p in omega (arith, one-le-pow e 2)

superset-ne-none :
    (o l a : ℕ) → o < word → l ≤ max_read_len → IsLegalAlign a → superset o l a ≢ none
unfolding superset
superset-ne-none o l a ho hl p h =
    let pos = power_pos a p.0 in
    let within : o % a < a = mod-lt o pos in
    let len : (o % a + l) % a < a = mod-lt _ pos in
    let start : o - (o - o % a) ≡ o % a = omega (arith, div-add-mod' o a) in
    ground (arith, rw (mask-mod o a ho p.0) at h)

-- For an offset of 64 bits and a length within the read cap, there is a geometry exactly if the
-- alignment is a power of two of at most the cap.
pub aligned_geometry_total :
    (o l a : ℕ)
    → o < word
    → l ≤ max_read_len
    → ((g : Geometry) × (aligned_geometry o l a ≡ some g)) ↔ IsLegalAlign a
unfolding aligned_geometry
aligned_geometry_total o l a ho hl = (
  λ given. ground (arith, given.1),
  λ legal. elim (Option-cases (aligned_geometry o l a)) [
    | inl e ↦ ground (arith, power_pos a legal.0, superset-ne-none o l a ho hl legal)
    | inr found ↦ found
  ],
)
