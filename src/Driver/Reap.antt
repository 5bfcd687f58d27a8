-- ===== src/Driver/Reap.antt =====
-- src/driver.rs: the bounded reap phase of `drive`.
pub mod Safety
pub mod UserData
use Prim.Native.Nat.{bit_and}
use uring.Prelude.{
  ℕ, zero, suc, ◌+◌, Bool, true, false, not, Option, none, some, List, [], ◌∷◌, ◌++◌, ◌==◌,
  if◌then◌else◌,
}
use uring.Prelude.Int.{ℤ, pos, negsuc}
use uring.Prelude.Word.{fetch_add, fetch_sub}
use uring.Prelude.Map.{erase, lookup, insert, remove}
use uring.Sys.{IoResult, enoent, ealready}
use uring.Pending.{Pending, Completion, seen, ReapStep, finish, resubmit, reap_read}
use uring.Budget.{TurnBudget, can_reap}
use uring.Driver.{Driver, DriverStats, cancel_bit, ◌>>=◌}

-- A completion queue entry, with what the oneshot channel answers if the result is sent: whether
-- the receiver was still there.
pub record Cqe : Type 0 where
  pub user_data : ℕ
  pub completion : Completion
  pub send_ok : Bool

unfoldable pub count_cancel : ℤ → DriverStats → DriverStats
count_cancel (pos zero) s = record s { cancel_succeeded = fetch_add s.cancel_succeeded 1 }
count_cancel (pos (suc n)) s = s
count_cancel (negsuc n) s =
    if suc n == enoent
    then record s { cancel_not_found = fetch_add s.cancel_not_found 1 }
    else if suc n == ealready
    then record s { cancel_already = fetch_add s.cancel_already 1 }
    else s

unfoldable pub count_sent : Bool → DriverStats → DriverStats
count_sent true s = record s {
  delivered = fetch_add s.delivered 1;
  in_flight = fetch_sub s.in_flight 1;
}
count_sent false s = record s {
  orphan_reclaimed = fetch_add s.orphan_reclaimed 1;
  in_flight = fetch_sub s.in_flight 1;
}

-- The entry leaves the table, its result is sent and its permits are dropped.
unfoldable pub on_finish : Driver → ℕ → Pending → IoResult (List ℕ) → Bool → Option Driver
on_finish d id p outcome send_ok = do
  tx ← p.done
  some (record d {
    pending = remove id d.pending;
    replies = (tx, outcome) ∷ d.replies;
    stats = count_sent send_ok d.stats;
    queued_cancels = erase id d.queued_cancels;
    released = p.permit ∷ d.released;
  })

unfoldable pub on_step : Driver → ℕ → Bool → Pending × ReapStep → Option Driver
on_step d id send_ok (p, finish outcome) = on_finish d id p outcome send_ok
on_step d id send_ok (p, resubmit sqe) =
    some (record d { pending = insert id p d.pending; backlog = d.backlog ++ sqe ∷ [] })

unfoldable pub on_read_cqe : Driver → ℕ → Completion → Bool → Option Driver
on_read_cqe d id c send_ok = elim (lookup id d.pending) [
  | none ↦ some d
  | some p ↦ on_step d id send_ok (reap_read c.answers (seen p c) id c.result d.shutting_down)
]

unfoldable pub on_cqe : Driver → Cqe → Option Driver
on_cqe d c =
    if bit_and c.user_data cancel_bit == 0
    then on_read_cqe d c.user_data c.completion c.send_ok
    else some (record d { stats = count_cancel c.completion.result d.stats })

abbrev pub count_completion : TurnBudget → TurnBudget
count_completion b = record b { completions = b.completions + 1 }

-- The loop over what the completion queue holds; what is left stays there.
unfoldable pub reap : TurnBudget → Driver → List Cqe → Option (Driver × TurnBudget)
reap b d [] = some (d, b)
reap b d (c ∷ cs) =
    if can_reap b then (do d' ← on_cqe d c; reap (count_completion b) d' cs) else some (d, b)
