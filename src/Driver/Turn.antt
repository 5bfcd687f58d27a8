-- ===== src/Driver/Turn.antt =====
-- src/driver.rs: one turn of the loop of `drive`, its exits, and the loop over many turns.
pub mod Safety
pub mod Drain
pub mod Draining
pub mod Bounded
use uring.Prelude.{
  ℕ, zero, suc, ◌+◌, Bool, true, false, not, ◌&&◌, ◌||◌, Option, none, some, List, [], ◌∷◌, ◌++◌,
  leb, if◌then◌else◌,
}
use uring.Prelude.Word.{saturating_add}
use uring.Sys.{IoResult, custom, other, err}
use uring.Pending.{Pending}
use uring.Budget.{TurnBudget, fresh_budget, continue_without_wait}
use uring.Driver.{Driver, Msg, drain_timeout, ◌>>=◌}
use uring.Driver.Intake.{intake}
use uring.Driver.Submit.{Enter, submit_ring, update_cq_overflow}
use uring.Driver.Reap.{Cqe, reap}

abbrev pub is_empty {ℓ} : {A : Type ℓ} → List A → Bool
is_empty [] = true
is_empty (x ∷ xs) = false

abbrev pub loop_heartbeat : ℕ
loop_heartbeat = 50

abbrev pub idle_heartbeat : ℕ
idle_heartbeat = 1000

-- How long a turn waits for events, in milliseconds; a turn may also skip the wait.
unfoldable pub wait_timeout : Driver → ℕ
wait_timeout d =
    if d.continue_now
    then 0
    else if d.shutting_down || not (is_empty d.pending)
    then loop_heartbeat
    else idle_heartbeat

-- What a turn meets: the messages that have arrived since the last one and whether all senders are
-- gone, the allocator's answers, both submissions, the completion queue, the overflow counter, the
-- clock at the deadline's setting and at its test, and the ring when the turn ends.
pub record TurnInput : Type 0 where
  pub arrived : List Msg
  pub senders_gone : Bool
  pub pads : ℕ → ℕ
  pub before_reap : Enter
  pub completions : List Cqe
  pub after_reap : Enter
  pub overflow : ℕ
  pub now : ℕ
  pub later : ℕ
  pub ready_cqe : Bool
  pub sq_is_empty : Bool

-- How a turn ends: another follows, or the thread returns after a clean drain or with the state
-- leaked.
pub data Verdict : Type 0 where
  running drained leaked : Verdict

abbrev pub leak_error : IoResult (List ℕ)
leak_error = err (custom other "uring driver leaked op on bounded-drain timeout")

abbrev pub answer : Option ℕ → List (ℕ × IoResult (List ℕ)) → List (ℕ × IoResult (List ℕ))
answer none replies = replies
answer (some tx) replies = (tx, leak_error) ∷ replies

-- Every caller that still waits is answered. The entries stay, with their buffers and permits.
unfoldable pub fail_stranded :
    List (ℕ × Pending)
    → List (ℕ × IoResult (List ℕ))
    → List (ℕ × Pending) × List (ℕ × IoResult (List ℕ))
fail_stranded [] replies = ([], replies)
fail_stranded ((id, p) ∷ m) replies =
    let (m', replies') = fail_stranded m (answer p.done replies) in
    ((id, record p { done = none }) ∷ m', replies')

abbrev pub deadline : Driver → ℕ → ℕ
deadline d now = elim d.drain_deadline [ none ↦ now + drain_timeout | some t ↦ t ]

unfoldable pub leak : Driver → Driver
leak d =
    let (pending, replies) = fail_stranded d.pending d.replies in
    record d { pending = pending; replies = replies; sem_closed = true }

unfoldable pub exit : Driver → ℕ → ℕ → Driver × Verdict
exit d now later =
    if not d.shutting_down
    then (d, running)
    else if is_empty d.pending && is_empty d.backlog
    then (record d { sem_closed = true }, drained)
    else let d' = record d { drain_deadline = some (deadline d now) } in
      if leb (deadline d now) later then (leak d', leaked) else (d', running)

unfoldable pub set_continue : TurnInput → TurnBudget → ℕ → Driver × Verdict → Driver × Verdict
set_continue i b submitted (d, running) = (
  record d {
    continue_now =
        continue_without_wait b i.ready_cqe (not (is_empty d.backlog) || not i.sq_is_empty)
          submitted;
  },
  running,
)
set_continue i b submitted (d, drained) = (d, drained)
set_continue i b submitted (d, leaked) = (d, leaked)

unfoldable pub turn : TurnInput → Driver → Option (Driver × Verdict)
turn i d = do
  (d1, b1) ← intake i.pads i.senders_gone fresh_budget d (d.inbox ++ i.arrived)
  let (d2, submitted_before_reap) = submit_ring i.before_reap d1
  (d3, b3) ← reap b1 d2 i.completions
  let (d4, submitted_after_reap) = submit_ring i.after_reap d3
  let (d5, warn) = update_cq_overflow d4 i.overflow
  some (
      set_continue i b3 (saturating_add submitted_before_reap submitted_after_reap)
        (exit d5 i.now i.later))

-- The loop, over the turns that the outside gives it.
unfoldable pub drive : List TurnInput → Driver → Option (Driver × Verdict)
drive [] d = some (d, running)
drive (i ∷ is) d = do
  (d', verdict) ← turn i d
  elim verdict [ running ↦ drive is d' | drained ↦ some (d', drained) | leaked ↦ some (d', leaked) ]
