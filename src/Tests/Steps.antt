-- ===== src/Tests/Steps.antt =====
-- Single steps of the driver: submission, shutdown, the exits, and the account of a turn.
use Prim.Native.Nat.{bit_or}
use uring.Prelude.Int.{negsuc}
use uring.Budget.{TurnBudget, fresh_budget, turn_messages}
use uring.Pending.{Pending, Answers, reap_read, resubmit}
use uring.Pending.Cancel.{reap_read-stops}
use uring.Driver.{Msg, cancel_bit}
use uring.Driver.Intake.Bounded.{intake-bounded}
use uring.Driver.Reap.{on_cqe, on_read_cqe, count_cancel}
use uring.Driver.Reap.UserData.{on_cqe-user_data}
use uring.Prelude.{◌≢◌}
use uring.Budget.{can_take_message}
use uring.Driver.Intake.{intake}
use uring.Driver.Reap.{reap}
use uring.Driver.Submit.{submit_ring, submit_if_needed, update_cq_overflow}
use uring.Driver.Turn.{TurnInput, turn, fail_stranded, set_continue, drive}
use uring.Driver.Turn.Bounded.{drive-ends}
use uring.Tests.Loop.{block_read, read_done, intake-loaded}
use uring.Prelude.{
  ℕ, zero, suc, ◌+◌, ◌%◌, ◌≤◌, ◌<◌, ◌≡◌, refl, true, false, none, some, [], ◌∷◌, ◌++◌, arith,
  length, replicate, All,
}
use uring.Sys.{ok, IoResult, os, err}
use uring.Admission.{ReadPermits}
use uring.Pending.{read_sqe, async_cancel}
use uring.Driver.{Msg, Driver}
use uring.Driver.Intake.{on_shutdown}
use uring.Driver.Submit.{flush_backlog, handle_submit_result}
use uring.Driver.Submit.Failure.{
  AllCancelled, IsHard, handle_all, handle_all-running, handle_all-limit, on_shutdown-AllCancelled,
}
use uring.Driver.Submit.Cancels.{Cancels}
use uring.Prelude.Map.{keys}
use uring.Driver.Submit.Order.{flush_backlog-order}
use uring.Driver.Turn.{Verdict, running, leak, exit}
use uring.Driver.Turn.Drain.{callers, silenced, failures, leak-answers, exit-bounded}
use uring.Driver.Account.{inbox_weight, taken}
use uring.Driver.Account.Turn.{turn-taken}
use uring.Driver.Turn.Safety.{turn-Outcome}
use uring.Tests.Loop.{
  block_read, idle, loaded, entry, one_turn, one_turn-Meets, idle-Inv, block-Sound,
}

flush_backlog-order_example :
    let r = flush_backlog 1 [] (read_sqe entry 1 ∷ async_cancel 1 9 ∷ []) in
    (r.0 ++ r.1 ≡ read_sqe entry 1 ∷ async_cancel 1 9 ∷ []) × (length r.0 ≡ 1)
flush_backlog-order_example = flush_backlog-order 1 [] (read_sqe entry 1 ∷ async_cancel 1 9 ∷ [])

on_shutdown-AllCancelled_example :
    ((on_shutdown loaded).shutting_down ≡ true) × AllCancelled (on_shutdown loaded)
on_shutdown-AllCancelled_example = on_shutdown-AllCancelled loaded

abbrev hard : IoResult ℕ
hard = err (os 9)

All-hard : (n : ℕ) → All IsHard (replicate n hard)
All-hard zero = tt
All-hard (suc n) = ((refl, refl), All-hard n)

handle_all-running_example :
    ((handle_all (replicate 5 hard) loaded).shutting_down ≡ false)
    × ((handle_all (replicate 5 hard) loaded).consecutive_submit_errors ≡ 5)
handle_all-running_example =
    handle_all-running (replicate 5 hard) loaded (All-hard 5) refl (omega arith)

handle_all-limit_example :
    let d = (handle_submit_result hard (handle_all (replicate 127 hard) loaded)).0 in
    (d.shutting_down ≡ true) × Cancels (keys loaded.pending) loaded d
handle_all-limit_example =
    handle_all-limit (replicate 127 hard) hard loaded (All-hard 127) (refl, refl) refl refl

leak-answers_example :
    ((leak loaded).replies ≡ failures (callers loaded.pending) loaded.replies)
    × ((leak loaded).pending ≡ silenced loaded.pending)
    × ((leak loaded).released ≡ loaded.released)
leak-answers_example = leak-answers loaded

abbrev closing : Driver
closing = record loaded { shutting_down = true }

exit-running : (exit closing 100 101).1 ≡ running
unfolding exit
exit-running = refl

exit-bounded_example : ((exit closing 100 101).0.drain_deadline ≡ some 5100) × (101 < 5100)
exit-bounded_example = exit-bounded closing 100 101 refl exit-running

-- The account of the read's caller, 7, and of its byte permits.
abbrev caller_seven : ℕ → ℕ
caller_seven tx = tx % 8

abbrev bytes : ReadPermits → ℕ
bytes p = elim p.bytes [ none ↦ 0 | some n ↦ n ]

abbrev end : Driver × Verdict
end = (turn-Outcome one_turn idle one_turn-Meets idle-Inv).0

turn-taken_example :
    inbox_weight caller_seven bytes end.0.inbox + taken caller_seven bytes end.0
    ≡ inbox_weight caller_seven bytes (idle.inbox ++ one_turn.arrived)
      + taken caller_seven bytes idle
turn-taken_example =
    turn-taken caller_seven bytes one_turn idle end block-Sound
      (turn-Outcome one_turn idle one_turn-Meets idle-Inv).1

abbrev answers : Answers
answers = record { receiver_closed = false; file_len = ok 8 }

abbrev cancelled : Pending
cancelled = record entry { cancel_requested = true }

reap_read-stops_example : ¬ (
    reap_read answers cancelled 1 (negsuc 3) false ≡ (cancelled, resubmit (read_sqe cancelled 1)))
reap_read-stops_example =
    reap_read-stops answers cancelled 1 (negsuc 3) false cancelled (read_sqe cancelled 1) refl

on_cqe-user_data_example :
    (on_cqe loaded (record read_done { user_data = 1 })
      ≡ on_read_cqe loaded 1 read_done.completion read_done.send_ok)
    × (on_cqe loaded (record read_done { user_data = bit_or 1 cancel_bit })
        ≡ some (record loaded { stats = count_cancel read_done.completion.result loaded.stats }))
on_cqe-user_data_example = on_cqe-user_data loaded read_done 1 (omega arith)

abbrev one_message : TurnBudget
one_message = record { messages = 1; completions = 0; allocation_bytes = 15 }

intake-bounded_example : (1 ≡ 0 + 1) × (1 ≤ turn_messages)
intake-bounded_example =
    intake-bounded (λ i. 1) false fresh_budget idle (Msg.read block_read ∷ []) (loaded, one_message)
      (omega arith) intake-loaded

-- The kernel never completes the read, and the deadline has passed.
abbrev stuck : Driver
stuck = record loaded { shutting_down = true; drain_deadline = some 50 }

abbrev hung : TurnInput
hung = record one_turn { arrived = []; completions = [] }

stuck-ends : (r : Driver × Verdict) × (drive (hung ∷ []) stuck ≡ some r)
unfolding drive turn intake can_take_message submit_ring submit_if_needed handle_submit_result
    flush_backlog reap update_cq_overflow exit leak fail_stranded set_continue
stuck-ends = (_, refl)

drive-ends_example : stuck-ends.0.1 ≢ running
drive-ends_example =
    drive-ends 50 [] [] hung stuck stuck-ends.0 (record { down = refl; set = refl }) (omega arith)
      stuck-ends.1
