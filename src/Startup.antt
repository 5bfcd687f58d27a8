-- ===== src/Startup.antt =====
-- src/driver.rs: what a driver does before it serves: the checks of its limits, the io-wq
-- registration, the wait for the probe's completion, and its event descriptors. The syscalls' answers
-- are arguments, one after another; `none` stands for a loop that still waits for one.
pub mod Transfer
use uring.Prelude.{
  ℕ, zero, suc, ◌+◌, ◌≤◌, Bool, true, false, not, ◌&&◌, ◌||◌, Option, none, some, List, [], ◌∷◌,
  ltb, leb, ◌==◌, if◌then◌else◌, is_some_and, max,
}
use uring.Prelude.Int.{ℤ, pos, negsuc}
use uring.Sys.{
  ErrorKind, IoError, os, custom, invalid_input, other, IoResult, ok, err, errno_is, raw_os_error,
  eintr, eagain, eacces, eperm, enosys, einval, eopnotsupp, etime,
}
use uring.Front.{ReadLimits}

unfoldable pub eventfd_transfer : List (IoResult ℕ) → Option (IoResult (Unit {0}))
eventfd_transfer [] = none
eventfd_transfer (ok n ∷ rest) =
    if n == 8
    then some (ok tt)
    else some (err (custom other "eventfd transferred an unexpected byte count"))
eventfd_transfer (err e ∷ rest) =
    let again = eventfd_transfer rest in
    if errno_is e eintr then again else if errno_is e eagain then some (ok tt) else some (err e)

-- The latch `error_logged`, and whether a warning is logged.
abbrev pub log_once : Bool → IoResult (Unit {0}) → Bool × Bool
log_once logged (ok u) = (logged, false)
log_once logged (err e) = (true, not logged)

-- `EventFd::transfer`.
unfoldable pub transfer : Bool → List (IoResult ℕ) → Option (Bool × Bool)
transfer logged results = elim (eventfd_transfer results) [
  | none ↦ none
  | some r ↦ some (log_once logged r)
]

abbrev pub iowq_max_bounded_workers : ℕ
iowq_max_bounded_workers = 16

pub data IoWqRegistration : Type 0 where
  registered : ℕ × ℕ → IoWqRegistration
  failed : ErrorKind → Option ℕ → IoWqRegistration

pub record IoWqSetup : Type 0 where
  pub requested : ℕ × ℕ
  pub result : IoWqRegistration

-- `io::Error::kind`; the standard library's table of errnos is an argument.
abbrev pub kind_of : (ℕ → ErrorKind) → IoError → ErrorKind
kind_of table (os n) = table n
kind_of table (custom k s) = k

abbrev pub registration : (ℕ → ErrorKind) → IoResult (ℕ × ℕ) → IoWqRegistration
registration table (ok limits) = registered limits
registration table (err e) = failed (kind_of table e) (raw_os_error e)

-- `register` gives the limits as the kernel leaves them.
unfoldable pub register_iowq_setup : (ℕ → ErrorKind) → (ℕ × ℕ → IoResult (ℕ × ℕ)) → IoWqSetup
register_iowq_setup table register = record {
  requested = (iowq_max_bounded_workers, 0);
  result = registration table (register (iowq_max_bounded_workers, 0));
}

pub data ProbeFailure : Type 0 where
  setup read_op : IoError → ProbeFailure

abbrev pub source : ProbeFailure → IoError
source (setup e) = e
source (read_op e) = e

unfoldable pub is_expected_restriction : ProbeFailure → Bool
is_expected_restriction f =
    let e = source f in
    errno_is e eacces
    || errno_is e eperm
    || errno_is e enosys
    || errno_is e einval
    || errno_is e eopnotsupp

-- `max_permits` is tokio's `Semaphore::MAX_PERMITS`.
unfoldable pub validate_read_limits : ℕ → ReadLimits → Option ProbeFailure
validate_read_limits max_permits l =
    if is_some_and l.max_in_flight_bytes (λ bytes. bytes == 0 || ltb max_permits bytes)
    then some
        (setup (custom invalid_input "byte budget must be between 1 and Semaphore::MAX_PERMITS"))
    else none

-- One return from the wait for the probe's completion: the clock before it, its result, and what the
-- completion queue holds after it.
pub record ProbeWait : Type 0 where
  pub now : ℕ
  pub waited : IoResult ℕ
  pub cqe : Option ℤ

abbrev pub taken : Option ℤ → Option (IoResult ℤ) → Option (IoResult ℤ)
taken none again = again
taken (some result) again = some (ok result)

abbrev pub after_wait : IoResult ℕ → Option ℤ → Option (IoResult ℤ) → Option (IoResult ℤ)
after_wait (ok n) cqe again = taken cqe again
after_wait (err e) cqe again =
    if errno_is e eintr || errno_is e etime then taken cqe again else some (err e)

unfoldable pub drain_probe_cqe : ℕ → List ProbeWait → Option (IoResult ℤ)
drain_probe_cqe deadline [] = none
drain_probe_cqe deadline (w ∷ rest) =
    let again = drain_probe_cqe deadline rest in
    if leb deadline w.now
    then some (err (custom other "probe: no CQE within the bounded wait"))
    else after_wait w.waited w.cqe again
