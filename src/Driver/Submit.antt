-- ===== src/Driver/Submit.antt =====
-- src/driver.rs: the submission of the backlog (`flush_backlog`, `submit_if_needed`, `submit_ring`),
-- the classification of its result, and the overflow counter.
pub mod Cancels
pub mod Failure
pub mod Order
use uring.Prelude.{
  ℕ, zero, suc, ◌+◌, ◌%◌, ◌^◌, Bool, true, false, not, ◌&&◌, ◌||◌, Option, none, some, List, [],
  ◌∷◌, ◌++◌, leb, ◌==◌, if◌then◌else◌,
}
use uring.Prelude.Word.{fetch_add}
use uring.Prelude.Map.{keys}
use uring.Sys.{IoError, IoResult, ok, err, errno_is, ebusy, eintr}
use uring.Pending.{Sqe}
use uring.Driver.{Driver, queue_all, max_consecutive_submit_errors}

-- What the ring answers at one submission: how many entries its queue has room for, the state of its
-- queue and flags after the push, and the result of the syscall.
pub record Enter : Type 0 where
  pub room : ℕ
  pub sq_is_empty : Bool
  pub cq_overflow : Bool
  pub taskrun : Bool
  pub result : IoResult ℕ

unfoldable pub flush_backlog : ℕ → List Sqe → List Sqe → List Sqe × List Sqe
flush_backlog room ring [] = (ring, [])
flush_backlog zero ring (s ∷ backlog) = (ring, s ∷ backlog)
flush_backlog (suc room) ring (s ∷ backlog) = flush_backlog room (ring ++ s ∷ []) backlog

-- `none` when nothing has to be entered for.
unfoldable pub submit_if_needed : Enter → Option (IoResult ℕ)
submit_if_needed e = if not e.sq_is_empty || e.cq_overflow || e.taskrun then some e.result else none

-- A failure that is not transient.
unfoldable pub count_submit_error : Driver → Driver
count_submit_error d =
    let failed = record d {
      stats = record stats { submit_errors = fetch_add stats.submit_errors 1 };
      consecutive_submit_errors = (d.consecutive_submit_errors + 1) % 2 ^ 32;
      submit_error_logged = true;
    } in
    if not failed.shutting_down
      && leb max_consecutive_submit_errors failed.consecutive_submit_errors
    then queue_all (record failed { shutting_down = true }) (keys d.pending)
    else failed
  where
    open d use {stats}

-- The count of accepted entries comes with the state.
unfoldable pub handle_submit_result : IoResult ℕ → Driver → Driver × ℕ
handle_submit_result (ok submitted) d = (record d { consecutive_submit_errors = 0 }, submitted)
handle_submit_result (err e) d =
    if errno_is e ebusy || errno_is e eintr
    then (record d { consecutive_submit_errors = 0 }, 0)
    else (count_submit_error d, 0)

abbrev pub flushed : Enter → Driver → Driver
flushed e d =
    let (ring, backlog) = flush_backlog e.room d.ring d.backlog in
    record d { ring = ring; backlog = backlog }

unfoldable pub submit_ring : Enter → Driver → Driver × ℕ
submit_ring e d = elim (submit_if_needed e) [
  | none ↦ (flushed e d, 0)
  | some result ↦ handle_submit_result result (flushed e d)
]

-- The warning that the second component asks for is only logged.
unfoldable pub update_cq_overflow : Driver → ℕ → Driver × Bool
update_cq_overflow d observed = if observed == d.previous_cq_overflow then (d, false) else (
  record d { previous_cq_overflow = observed; stats = record stats { cq_overflow = observed } },
  not (observed == 0),
)
  where
    open d use {stats}
