-- ===== src/Driver/Intake.antt =====
-- src/driver.rs: the bounded intake phase of `drive`.
pub mod Entry
pub mod Keys
pub mod Safety
pub mod Bounded
use uring.Prelude.{
  ℕ, zero, suc, ◌+◌, ◌-◌, Bool, true, false, not, ◌&&◌, ◌||◌, Option, none, some, List, [], ◌∷◌,
  ◌++◌, ltb, leb, ◌==◌, if◌then◌else◌, is_none_or, replicate,
}
use uring.Prelude.Word.{u64_max, fetch_add, checked_add, saturating_add}
use uring.Prelude.Map.{lookup, insert, keys}
use uring.Sys.{IoError, custom, other, err}
use uring.Geometry.{Geometry, aligned_geometry}
use uring.Pending.{Pending, read_sqe}
use uring.Budget.{TurnBudget, can_take_message}
use uring.Driver.{ReadMsg, Msg, read, cancel, shutdown, Driver, ◌>>=◌, queue_cancel, queue_all}

-- A read that is answered and whose permit is dropped without ever being in flight.
unfoldable pub turn_away : Driver → ReadMsg → IoError → Driver
turn_away d m e = record d {
  replies = (m.done, err e) ∷ d.replies;
  released = m.permit ∷ d.released;
}

unfoldable pub new_pending : ReadMsg → Geometry → ℕ → ℕ → Pending
new_pending m g size pad = record {
  buf = replicate size 0;
  file = m.file;
  done = some m.done;
  offset = g.kernel_offset;
  nread = 0;
  permit = m.permit;
  pad = pad;
  head = g.head;
  want = m.len;
  region_len = g.region_len;
  align = m.align;
  transient_retries = 0;
  cancel_requested = false;
}

unfoldable pub accept : Driver → ReadMsg → Pending → Driver
accept d m p = record d {
  pending = insert m.id p d.pending;
  backlog = d.backlog ++ read_sqe p m.id ∷ [];
  stats = record stats {
    submitted = fetch_add stats.submitted 1;
    in_flight = fetch_add stats.in_flight 1;
  };
}
  where
    open d use {stats}

unfoldable pub misplaced : ℕ → ℕ → ℕ → Bool
misplaced pad region_len size =
    pad == u64_max || is_none_or (checked_add pad region_len) (λ end. ltb size end)

-- The buffer is allocated, with `pad` the allocator's answer to `align_offset`.
unfoldable pub place : Driver → ReadMsg → Geometry → ℕ → ℕ → Driver
place d m g size pad =
    if misplaced pad g.region_len size
    then turn_away d m (custom other "could not align O_DIRECT read buffer")
    else accept d m (new_pending m g size pad)

unfoldable pub allocate : ℕ → TurnBudget → Driver → ReadMsg → Geometry → Driver × TurnBudget
allocate pad b d m g = elim (checked_add g.region_len (m.align - 1)) [
  | none ↦ (turn_away d m (custom other "aligned O_DIRECT allocation size overflow"), b)
  | some size ↦
      (place d m g size pad, record b { allocation_bytes = saturating_add b.allocation_bytes size })
]

unfoldable pub on_read : ℕ → TurnBudget → Driver → ReadMsg → Option (Driver × TurnBudget)
on_read pad b d m =
    if d.shutting_down
    then some (turn_away d m (custom other "uring driver shutting down"), b)
    else (do g ← aligned_geometry m.offset m.len m.align; some (allocate pad b d m g))

unfoldable pub on_cancel : Driver → ℕ → Driver
on_cancel d id = elim (lookup id d.pending) [
  | none ↦ d
  | some p ↦
      queue_cancel
        (record d { pending = insert id (record p { cancel_requested = true }) d.pending }) id
]

unfoldable pub on_shutdown : Driver → Driver
on_shutdown d = queue_all (record d { shutting_down = true }) (keys d.pending)

-- `pads` is the allocator's answer for each read.
unfoldable pub on_message : (ℕ → ℕ) → TurnBudget → Driver → Msg → Option (Driver × TurnBudget)
on_message pads b d (read m) = on_read (pads m.id) b d m
on_message pads b d (cancel id) = some (on_cancel d id, b)
on_message pads b d shutdown = some (on_shutdown d, b)

abbrev pub count_message : TurnBudget → TurnBudget
count_message b = record b { messages = b.messages + 1 }

-- The intake loop over what the channel holds; `gone` says that every sender is dropped.
unfoldable pub intake :
    (ℕ → ℕ) → Bool → TurnBudget → Driver → List Msg → Option (Driver × TurnBudget)
intake pads gone b d [] =
    some (record d { inbox = []; shutting_down = d.shutting_down || can_take_message b && gone }, b)
intake pads gone b d (m ∷ ms) =
    if can_take_message b
    then (do (d', b') ← on_message pads (count_message b) d m; intake pads gone b' d' ms)
    else some (record d { inbox = m ∷ ms }, b)
