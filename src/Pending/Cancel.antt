-- ===== src/Pending/Cancel.antt =====
-- A read whose cancel was asked for, or whose driver shuts down, is not continued.
use uring.Prelude.{ℕ, zero, suc, ◌≡◌, Bool, true, ◌||◌, arith}
use uring.Prelude.Int.{ℤ, pos, negsuc}
use uring.Pending.{Pending, Sqe, Answers, resubmit, reap_read, reap_error, reap_progress}

reap_error-stops :
    (p : Pending) (id errno : ℕ) (q : Pending) (s : Sqe)
    → ¬ (reap_error p id errno true ≡ (q, resubmit s))
unfolding reap_error
reap_error-stops p id errno q s e = ground arith

reap_progress-stops :
    (a : Answers) (p : Pending) (id : ℕ) (q : Pending) (s : Sqe)
    → ¬ (reap_progress a p id true ≡ (q, resubmit s))
unfolding reap_progress
reap_progress-stops a p id q s e = ground arith

-- Once its cancel was asked for or the driver shuts down, a read is finished by whatever completion
-- comes: it is not submitted again.
pub reap_read-stops :
    (a : Answers) (p : Pending) (id : ℕ) (res : ℤ) (down : Bool) (q : Pending) (s : Sqe)
    → p.cancel_requested || down ≡ true
    → ¬ (reap_read a p id res down ≡ (q, resubmit s))
unfolding reap_read
reap_read-stops a p id (pos zero) down q s stop e = ground arith
reap_read-stops a p id (pos (suc n)) down q s stop e = reap_progress-stops a _ id q s (rw stop at e)
reap_read-stops a p id (negsuc n) down q s stop e = reap_error-stops p id (suc n) q s (rw stop at e)
