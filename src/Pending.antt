-- ===== src/Pending.antt =====
-- src/driver.rs: one in-flight logical read (`Pending`), and what the driver does with it when a
-- read completion arrives (`deliver`, `finish_direct_short_read`, `reap_read`).
-- A sender of tokio's oneshot channel is a number that names the channel. What tokio and the
-- file system answer when they are asked is an argument, `Answers`.
pub mod Resubmit
pub mod Content
pub mod Whole
pub mod Cancel
use uring.Prelude.{
  ℕ, zero, suc, ◌+◌, ◌-◌, ◌%◌, ◌^◌, Bool, true, false, not, ◌&&◌, ◌||◌, Option, none, some, List,
  [], ◌++◌, min, ltb, leb, ◌==◌, if◌then◌else◌, is_none_or, take, drop,
}
use uring.Prelude.Int.{ℤ, pos, negsuc}
use uring.Prelude.Word.{word}
use uring.Sys.{IoError, os, custom, other, IoResult, ok, err, ◌>>=◌, eintr, eagain, ecanceled}
use uring.Geometry.{current_position}
use uring.Admission.{ReadPermits}

abbrev pub max_transient_retries : ℕ
max_transient_retries = 16

pub record Pending : Type 0 where
  pub buf : List ℕ
  pub file : ℕ
  pub done : Option ℕ
  pub offset : ℕ
  pub nread : ℕ
  pub permit : ReadPermits
  pub pad : ℕ
  pub head : ℕ
  pub want : ℕ
  pub region_len : ℕ
  pub align : ℕ
  pub transient_retries : ℕ
  pub cancel_requested : Bool

-- A submission queue entry. The target address of a read is given as an index into its buffer.
pub record ReadOp : Type 0 where
  pub fd : ℕ
  pub target : ℕ
  pub len : ℕ
  pub offset : ℕ

pub data Sqe : Type 0 where
  read : ReadOp → ℕ → Sqe
  async_cancel : ℕ → ℕ → Sqe

-- The entry is built while bytes are left to read, so the subtraction is exact.
unfoldable pub read_sqe : Pending → ℕ → Sqe
read_sqe p ud =
    read
      (record {
        fd = p.file;
        target = p.pad + p.nread;
        len = (p.region_len - p.nread) % 2 ^ 32;
        offset = (p.offset + p.nread) % word;
      })
      ud

-- `buf.copy_within(start..end, 0)`.
abbrev pub copy_to_front : List ℕ → ℕ → ℕ → List ℕ
copy_to_front buf start end = take (end - start) (drop start buf) ++ drop (end - start) buf

abbrev pub moved : List ℕ → ℕ → ℕ → List ℕ
moved buf start avail =
    if not (start == 0) && not (avail == 0) then copy_to_front buf start (start + avail) else buf

-- Whether the receiver is closed, and what the file's metadata gives for its length.
pub record Answers : Type 0 where
  pub receiver_closed : Bool
  pub file_len : IoResult ℕ

unfoldable pub deliver : Answers → Pending → Pending × List ℕ
deliver a p =
    if is_none_or p.done (λ tx. a.receiver_closed)
    then (p, [])
    else let avail = min (p.nread - p.head) p.want in
      let start = p.pad + p.head in (record p { buf = [] }, take avail (moved p.buf start avail))

pub data ReapStep : Type 0 where
  finish : IoResult (List ℕ) → ReapStep
  resubmit : Sqe → ReapStep

abbrev pub finish_ok : Pending × List ℕ → Pending × ReapStep
finish_ok (p, bytes) = (p, finish (ok bytes))

unfoldable pub finish_direct_short_read : Answers → Pending → IoResult ℕ → Pending × ReapStep
finish_direct_short_read a p (err e) = (p, finish (err e))
finish_direct_short_read a p (ok file_len) =
    if ltb ((p.offset + p.nread) % word) file_len
    then (
      p,
      finish (err (custom other "io_uring O_DIRECT: non-block-aligned short read before EOF")),
    )
    else finish_ok (deliver a p)

abbrev retry : Pending → ℕ → Pending × ReapStep
retry p id = (p, resubmit (read_sqe p id))

-- A negative result, `err` its errno.
unfoldable pub reap_error : Pending → ℕ → ℕ → Bool → Pending × ReapStep
reap_error p id errno stop_continuation =
    let transient = errno == eintr || errno == eagain in
    if transient && not (p.offset == current_position) && ltb p.nread p.region_len
    then if stop_continuation
      then (p, finish (err (os ecanceled)))
      else if ltb p.transient_retries max_transient_retries
      then retry (record p { transient_retries = p.transient_retries + 1 }) id
      else (p, finish (err (os errno)))
    else (p, finish (err (os errno)))

-- A positive result, already added to `nread`.
unfoldable pub reap_progress : Answers → Pending → ℕ → Bool → Pending × ReapStep
reap_progress a p id stop_continuation =
    let is_stream = p.offset == current_position in
    let covered = leb (p.head + p.want) p.nread in
    if is_stream || covered || leb p.region_len p.nread
    then finish_ok (deliver a p)
    else if stop_continuation
    then (p, finish (err (os ecanceled)))
    else if ltb 1 p.align && not (p.nread % p.align == 0)
    then finish_direct_short_read a p a.file_len
    else retry p id

unfoldable pub reap_read : Answers → Pending → ℕ → ℤ → Bool → Pending × ReapStep
reap_read a p id (negsuc n) shutting_down =
    reap_error p id (suc n) (p.cancel_requested || shutting_down)
reap_read a p id (pos zero) shutting_down = finish_ok (deliver a p)
reap_read a p id (pos (suc n)) shutting_down =
    reap_progress a (record p { nread = (p.nread + suc n) % word; transient_retries = 0 }) id
      (p.cancel_requested || shutting_down)

-- A completion, and what the buffer holds when it arrives.
pub record Completion : Type 0 where
  pub answers : Answers
  pub result : ℤ
  pub memory : List ℕ

-- The entry as the completion finds it: the kernel writes into the buffer that the table owns.
abbrev pub seen : Pending → Completion → Pending
seen p c = record p { buf = c.memory }
