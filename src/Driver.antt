-- ===== src/Driver.antt =====
-- src/driver.rs: the driver thread. Its state, what it does with a message, the submission of its
-- backlog, what it does with a completion, and one turn of `drive`.
-- The outside is an argument: what has arrived on the channel and in the completion queue, how much
-- room the submission queue has, what the syscalls return, where the allocator puts a buffer, the
-- time. `none` stands for a panic of the thread, which aborts the process.
pub mod Intake
pub mod Submit
pub mod Reap
pub mod Turn
pub mod Inv
pub mod Account
use Prim.Native.Nat.{bit_and, bit_or}
use uring.Prelude.{
  ℕ, zero, suc, ◌+◌, ◌-◌, ◌%◌, ◌^◌, Bool, true, false, not, ◌&&◌, ◌||◌, Option, none, some, List,
  [], ◌∷◌, ◌≡◌, refl, ◌++◌, ltb, leb, ◌==◌, if◌then◌else◌, is_none_or, replicate,
}
use uring.Prelude.Int.{ℤ, pos, negsuc}
use uring.Prelude.Word.{word, u64_max, fetch_add, fetch_sub, checked_add, saturating_add}
use uring.Prelude.Map.{contains, erase, lookup, insert, remove, keys}
use uring.Sys.{
  IoError, os, custom, other, IoResult, ok, err, errno_is, eintr, ebusy, enoent, ealready,
}
use uring.Geometry.{Geometry, aligned_geometry}
use uring.Admission.{ReadPermits}
use uring.Pending.{Pending, Completion, seen, Sqe, async_cancel}
use uring.Budget.{TurnBudget, fresh_budget, can_take_message, can_reap, continue_without_wait}

abbrev pub cancel_bit : ℕ
cancel_bit = 2 ^ 63

abbrev pub max_consecutive_submit_errors : ℕ
max_consecutive_submit_errors = 128

-- Milliseconds.
abbrev pub drain_timeout : ℕ
drain_timeout = 5000

pub record DriverStats : Type 0 where
  pub submitted : ℕ
  pub delivered : ℕ
  pub orphan_reclaimed : ℕ
  pub in_flight : ℕ
  pub cancel_succeeded : ℕ
  pub cancel_not_found : ℕ
  pub cancel_already : ℕ
  pub cq_overflow : ℕ
  pub submit_errors : ℕ

pub record ReadMsg : Type 0 where
  pub id : ℕ
  pub file : ℕ
  pub offset : ℕ
  pub len : ℕ
  pub done : ℕ
  pub permit : ReadPermits
  pub align : ℕ

pub data Msg : Type 0 where
  read : ReadMsg → Msg
  cancel : ℕ → Msg
  shutdown : Msg

-- `DriverState` and the local variables of `drive`. `ring` holds the entries that were pushed into
-- the submission queue, `replies` the results that were sent and `released` the permits that were
-- dropped, the newest first.
pub record Driver : Type 0 where
  pub pending : List (ℕ × Pending)
  pub backlog : List Sqe
  pub queued_cancels : List ℕ
  pub stats : DriverStats
  pub shutting_down : Bool
  pub drain_deadline : Option ℕ
  pub consecutive_submit_errors : ℕ
  pub submit_error_logged : Bool
  pub previous_cq_overflow : ℕ
  pub continue_now : Bool
  pub inbox : List Msg
  pub ring : List Sqe
  pub replies : List (ℕ × IoResult (List ℕ))
  pub released : List ReadPermits
  pub sem_closed : Bool

infixl 5 ◌>>=◌
abbrev pub ◌>>=◌ {ℓ κ} : {A : Type ℓ} {B : Type κ} → Option A → (A → Option B) → Option B
none >>= f = none
some a >>= f = f a

pub >>=-some {ℓ κ} :
    {A : Type ℓ} {B : Type κ} (o : Option A) (f : A → Option B) (b : B)
    → o >>= f ≡ some b
    → (a : A) × (o ≡ some a) × (f a ≡ some b)
>>=-some none f b e = cc
>>=-some (some a) f b e = (a, refl, e)

-- At most one cancel for an id.
unfoldable pub queue_cancel : Driver → ℕ → Driver
queue_cancel d id = if contains id d.queued_cancels then d else record d {
  queued_cancels = id ∷ d.queued_cancels;
  backlog = d.backlog ++ async_cancel id (bit_or id cancel_bit) ∷ [];
}

unfoldable pub queue_all : Driver → List ℕ → Driver
queue_all d [] = d
queue_all d (id ∷ ids) = queue_all (queue_cancel d id) ids
