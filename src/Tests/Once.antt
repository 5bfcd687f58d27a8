-- ===== src/Tests/Once.antt =====
-- A run that reads a block for one caller and ends.
use uring.Prelude.{◌+◌, ◌≡◌, ◌≢◌, refl, ap, sym, ◌∙◌, Option, none, some, [], ◌∷◌, arith}
use uring.Budget.{can_reap, continue_without_wait}
use uring.Pending.{
  read_sqe, reap_read, reap_progress, reap_error, deliver, finish_direct_short_read,
}
use uring.Prelude.Map.{total}
use uring.Driver.{Driver}
use uring.Driver.Submit.{
  submit_ring, submit_if_needed, handle_submit_result, flush_backlog, update_cq_overflow,
}
use uring.Driver.Reap.{reap, on_cqe, on_read_cqe, on_step, on_finish, count_cancel, count_sent}
use uring.Driver.Turn.{Verdict, running, drained, leaked, drive, turn, exit, set_continue}
use uring.Driver.Turn.Safety.{EndsWell, turn-Outcome, drive-Outcome}
use uring.Driver.Account.Run.{arrivals, requests, answers, waits, drive-answers_once}
use uring.Tests.Loop.{idle, idle-Inv, one_turn, one_turn-Meets, one_turn-MeetsAll, intake-closing}

abbrev last : Option (Driver × Verdict) → Verdict
last none = running
last (some r) = r.1

turn-last : last (turn one_turn idle) ≡ drained
unfolding turn submit_ring submit_if_needed handle_submit_result flush_backlog reap can_reap on_cqe
    on_read_cqe reap_read reap_progress reap_error deliver finish_direct_short_read on_step
    on_finish count_cancel count_sent update_cq_overflow exit set_continue continue_without_wait
    read_sqe
turn-last = rw intake-closing refl

one_turn-ends :
    (x : Driver × Verdict)
    → turn one_turn idle ≡ some x
    → x.1 ≡ drained
    → (last (drive (one_turn ∷ []) idle) ≡ drained)
      × (requests 7 (arrivals (one_turn ∷ []) idle) ≡ 1)
unfolding drive arrivals
one_turn-ends (d, running) e v = absurd (cc v)
one_turn-ends (d, leaked) e v = absurd (cc v)
one_turn-ends (d, drained) e v = (rw e refl, rw e refl)

abbrev one_run : EndsWell (one_turn ∷ []) idle
one_run = drive-Outcome (one_turn ∷ []) idle one_turn-MeetsAll idle-Inv

one_run-last :
    (last (drive (one_turn ∷ []) idle) ≡ drained) × (requests 7 (arrivals (one_turn ∷ []) idle) ≡ 1)
one_run-last =
    let (x, e, o) = turn-Outcome one_turn idle one_turn-Meets idle-Inv in
    one_turn-ends x e (sym (ap last e) ∙ turn-last)

one_run-ends : one_run.0.1 ≢ running
one_run-ends e = absurd (cc (sym (ap last one_run.1) ∙ one_run-last.0, e))

once :
    requests 7 (arrivals (one_turn ∷ []) idle)
      + requests 7 idle.inbox
      + waits 7 idle
      + answers 7 idle
    ≡ 1
unfolding total
once = omega (arith, one_run-last.1)

drive-answers_once_example : answers 7 one_run.0.0 + requests 7 one_run.0.0.inbox ≡ 1
drive-answers_once_example =
    drive-answers_once 7 (one_turn ∷ []) idle one_run.0 one_turn-MeetsAll idle-Inv one_run.1
      one_run-ends once
