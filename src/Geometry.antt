-- ===== src/Geometry.antt =====
-- src/driver.rs: the constants of a read and `aligned_geometry`, the block-aligned superset of a
-- logical range.
pub mod Superset
use Prim.Native.Nat.{bit_and}
use uring.Prelude.{ℕ, ◌-◌, Bool, not, ◌||◌, Option, none, some, ltb, ◌==◌, if◌then◌else◌}
use uring.Prelude.Word.{word, u64_max, checked_add, checked_next_multiple_of, is_power_of_two}

abbrev pub current_position : ℕ
current_position = u64_max

abbrev pub max_read_len : ℕ
max_read_len = 0x7fff_f000

pub record Geometry : Type 0 where
  pub kernel_offset : ℕ
  pub head : ℕ
  pub region_len : ℕ

infixl 5 ◌>>=◌
abbrev ◌>>=◌ {ℓ κ} : {A : Type ℓ} {B : Type κ} → Option A → (A → Option B) → Option B
none >>= f = none
some a >>= f = f a

-- `usize::try_from` of a u64, on a 64-bit target.
abbrev usize_try_from : ℕ → Option ℕ
usize_try_from n = if ltb n word then some n else none

-- The last lines of the function: `align` is a power of two above 1.
unfoldable pub superset : ℕ → ℕ → ℕ → Option Geometry
superset offset len align = do
  let mask = align - 1
  let kernel_offset = bit_and offset (u64_max - mask)
  head ← usize_try_from (offset - kernel_offset)
  total ← checked_add head len
  region_len ← checked_next_multiple_of total align
  some (record { kernel_offset = kernel_offset; head = head; region_len = region_len })

unfoldable pub aligned_geometry : ℕ → ℕ → ℕ → Option Geometry
unfolding superset
aligned_geometry offset len align =
    if align == 0 || not (is_power_of_two align) || ltb max_read_len align
    then none
    else if align == 1
    then some (record { kernel_offset = offset; head = 0; region_len = len })
    else superset offset len align
