-- ===== src/Front.antt =====
-- src/driver.rs: what `UringDriver` does on the caller's side: the validation of a read and `submit`.
-- A shard is its index. The semaphores, the shards' threads (whether a channel still has its
-- receiver) and the rest of the surroundings are arguments.
pub mod Validate
pub mod Requests
pub mod Submit
pub mod Batch
use Prim.Native.Nat.{bit_and}
use uring.Prelude.{
  ℕ, zero, suc, ◌+◌, ◌-◌, ◌%◌, ◌^◌, Bool, true, false, not, ◌&&◌, ◌||◌, Option, none, some, List,
  [], ◌∷◌, ◌++◌, String, ltb, leb, ◌==◌, if◌then◌else◌, is_some_and, length,
}
use uring.Prelude.Word.{word, i64_max, checked_add, fetch_add}
use uring.Sys.{IoError, custom, invalid_input, other, IoResult, ok, err}
use uring.Geometry.{Geometry, aligned_geometry, current_position, max_read_len}
use uring.Admission.{
  ReadPermits, Semaphore, Tried, granted, full, shut, Semaphores, ShardPolicy, capacity_aware,
  round_robin, drop_permits, select_read_shard, ◌>>=◌,
}
use uring.Driver.{cancel_bit, ReadMsg, Msg}

pub record ReadLimits : Type 0 where
  pub max_read_len : Option ℕ
  pub max_in_flight_bytes : Option ℕ

pub record Request : Type 0 where
  pub file : ℕ
  pub offset : ℕ
  pub len : ℕ
  pub align : ℕ
  pub allow_current_position : Bool
  pub notify_now : Bool

abbrev pub invalid {ℓ} : {A : Type ℓ} → String → IoResult A
invalid s = err (custom invalid_input s)

-- The bytes of the allocation within the byte budget.
unfoldable pub within_budget : ReadLimits → ℕ → IoResult ℕ
within_budget l bytes =
    if is_some_and l.max_in_flight_bytes (λ m. ltb m bytes)
    then invalid "aligned allocation exceeds byte budget"
    else ok bytes

abbrev pub ends_within : Request → Geometry → Bool
ends_within r g =
    r.allow_current_position && r.offset == current_position
    || is_some_and (checked_add g.kernel_offset g.region_len) (λ end. leb end i64_max)

unfoldable pub check_geometry : ReadLimits → Request → Option Geometry → IoResult ℕ
check_geometry l r none =
    invalid
      "alignment must be a power of two, and the block-aligned range must fit MAX_RW_COUNT and end within i64::MAX"
check_geometry l r (some g) =
    if leb g.region_len max_read_len && ends_within r g
    then within_budget l (g.region_len + r.align - 1)
    else invalid
        "alignment must be a power of two, and the block-aligned range must fit MAX_RW_COUNT and end within i64::MAX"

-- The checks of `submit`, up to the bytes that the read is charged.
unfoldable pub validate : ReadLimits → Request → IoResult ℕ
validate l r =
    if not r.allow_current_position && r.offset == current_position
    then invalid "offset u64::MAX is reserved for read_current"
    else if not (r.offset == current_position) && ltb i64_max r.offset
    then invalid "offset exceeds i64::MAX (kernel loff_t is signed)"
    else if ltb max_read_len r.len || is_some_and l.max_read_len (λ m. ltb m r.len)
    then invalid
        "read length exceeds MAX_RW_COUNT or configured logical read limit; caller must chunk"
    else check_geometry l r (aligned_geometry r.offset r.len r.align)

-- `HandleState`. The permits that a waiting handle asks for are those of its shard, the charge of
-- bytes and the driver's reservation.
pub record Waiting : Type 0 where
  pub shard : ℕ
  pub charge : ℕ
  pub shared_reservation : Option ℕ
  pub file : ℕ
  pub offset : ℕ
  pub len : ℕ
  pub align : ℕ
  pub done : ℕ

pub data HandleState : Type 0 where
  inert : HandleState
  waiting_permit : Waiting → HandleState
  submitted : ℕ → HandleState

-- `tx` is the shard whose channel the handle holds; the handle's result channel is named by its id.
pub record ReadHandle : Type 0 where
  pub id : ℕ
  pub tx : ℕ
  pub finished : Bool
  pub cancel_on_drop : Bool
  pub state : HandleState

-- `UringDriver`, and what it has sent: messages and wakes by shard, and results, the newest first.
pub record Front (S : Type 0) : Type 0 where
  pub limits : ReadLimits
  pub shard_policy : ShardPolicy
  pub semaphores : Semaphores S
  pub shared_reservation : Option ℕ
  pub next_id : ℕ
  pub rr : ℕ
  pub sent : List (ℕ × Msg)
  pub signals : List ℕ
  pub replies : List (ℕ × IoResult (List ℕ))

abbrev pub inert_handle : ℕ → ℕ → ReadHandle
inert_handle id shard = record {
  id = id;
  tx = shard;
  finished = false;
  cancel_on_drop = false;
  state = inert;
}

abbrev is_capacity_aware : ShardPolicy → Bool
is_capacity_aware round_robin = false
is_capacity_aware capacity_aware = true

module _ {S : Type 0} (sem : Semaphore S) where
  unfoldable pub reject : Front S → ℕ → ℕ → IoError → Front S × ReadHandle
  reject f id shard e = (record f { replies = (id, err e) ∷ f.replies }, inert_handle id shard)

  -- The permits are taken, and `alive` says whether the shard's channel still has its receiver. When
  -- it has not, the message comes back and its permits are dropped.
  unfoldable pub send_read :
      (ℕ → Bool) → Front S → Request → ℕ → ℕ → ReadPermits → Front S × ReadHandle
  send_read alive f r id shard permit =
      let permit' : ReadPermits = record permit { shared_reservation = f.shared_reservation } in
      let m : ReadMsg = record {
        id = id;
        file = r.file;
        offset = r.offset;
        len = r.len;
        done = id;
        permit = permit';
        align = r.align;
      } in
      if alive shard
      then (
        record f {
          sent = (shard, Msg.read m) ∷ f.sent;
          signals = if r.notify_now then shard ∷ f.signals else f.signals;
        },
        record {
          id = id;
          tx = shard;
          finished = false;
          cancel_on_drop = true;
          state = submitted shard;
        },
      )
      else reject (record f { semaphores = drop_permits sem permit f.semaphores }) id shard
          (custom other "uring driver shut down")

  unfoldable pub admit :
      (ℕ → Bool) → Front S → Request → ℕ → ℕ → ℕ × Tried × Semaphores S → Front S × ReadHandle
  admit alive f r id charge (shard, granted p, s) =
      send_read alive (record f { semaphores = s }) r id shard p
  admit alive f r id charge (shard, full, s) = (
    record f { semaphores = s },
    record {
      id = id;
      tx = shard;
      finished = false;
      cancel_on_drop = true;
      state = waiting_permit (record {
        shard = shard;
        charge = charge;
        shared_reservation = f.shared_reservation;
        file = r.file;
        offset = r.offset;
        len = r.len;
        align = r.align;
        done = id;
      });
    },
  )
  admit alive f r id charge (shard, shut, s) =
      reject (record f { semaphores = s }) id shard (custom other "uring driver shut down")

  unfoldable pub submit_checked :
      (ℕ → Bool) → Front S → Request → ℕ → ℕ → IoResult ℕ → Option (Front S × ReadHandle)
  submit_checked alive f r id start (err e) = some (reject f id start e)
  submit_checked alive f r id start (ok bytes) =
      let charge = bytes % 2 ^ 32 in
      let aware = is_capacity_aware f.shard_policy && not r.allow_current_position in
      (do
        chosen ← select_read_shard sem start charge aware f.semaphores
        some (admit alive f r id charge chosen))

  -- `none` stands for a panic: an id with the cancel bit, or a driver without shards.
  unfoldable pub submit : (ℕ → Bool) → Front S → Request → Option (Front S × ReadHandle)
  submit alive f r =
      if not (bit_and f.next_id cancel_bit == 0) || length f.semaphores.counts == 0
      then none
      else let f' = record f { next_id = fetch_add f.next_id 1; rr = fetch_add f.rr 1 } in
        submit_checked alive f' r f.next_id (f.rr % length f.semaphores.counts)
          (validate f.limits r)
