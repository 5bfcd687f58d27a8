-- ===== src/Tests/Ends.antt =====
-- A batch, a handle's life, a shared pool, the waits of the start, and the end of a driver.
use uring.Prelude.{
  ℕ, ◌≡◌, refl, true, false, none, some, List, [], ◌∷◌, ◌++◌, arith, length, All, replicate,
}
use uring.Prelude.Int.{ℤ}
use uring.Prelude.Word.{is_power_of_two}
use uring.Prelude.Map.{contains, IsUnique, total}
use uring.Sys.{os, IoResult, ok, err}
use uring.Geometry.{aligned_geometry, superset}
use uring.Admission.{select_read_shard, scan, try_bytes}
use uring.Front.{
  within_budget, check_geometry, validate, waiting_permit, ReadHandle, Front, send_read, admit,
  submit_checked, submit,
}
use uring.Front.Requests.{ReadRequest, submit_batch}
use uring.Front.Batch.{IsWoken, submit_batch-wakes}
use uring.Handle.{pending, ready, PollInput}
use uring.Reservation.{Shares, drops, step}
use uring.Reservation.Conserved.{Inv, step-Inv}
use uring.Startup.{eventfd_transfer, ProbeWait, drain_probe_cqe}
use uring.Startup.Transfer.{interrupted, Means, eventfd_transfer-ends, drain_probe_cqe-bounded}
use uring.Closing.{new, Shard, stats}
use uring.Closing.Terminal.{registers, closes, run, run-closed}
use uring.Closing.Sums.{Accounted, IsSum, Drained, stats-Accounted, stats-Drained}
use uring.Tests.Callers.{S, tokens, front, all_alive}
use uring.Tests.Reads.{permits}
use uring.Tests.Loop.{no_stats}

abbrev requests : List ReadRequest
requests = record { file = 3; offset = 0; len = 4 } ∷ record { file = 3; offset = 4; len = 4 } ∷ []

batch-runs :
    (x : Front S × List ReadHandle × List ℕ) × (submit_batch tokens all_alive front requests []
      ≡ some x)
unfolding submit_batch submit submit_checked admit send_read validate check_geometry within_budget
    aligned_geometry superset is_power_of_two select_read_shard scan try_bytes
batch-runs = (_, refl)

submit_batch-wakes_example :
    let x = batch-runs.0 in
    (x.0.signals ≡ []) × (length x.1 ≡ 2) × IsUnique x.2 × All (λ h. IsWoken x.2 h.state) x.1
submit_batch-wakes_example =
    submit_batch-wakes tokens all_alive front requests batch-runs.0 batch-runs.1

abbrev waiting : ReadHandle
waiting = record {
  id = 9;
  tx = 0;
  finished = false;
  cancel_on_drop = true;
  state = waiting_permit (record {
    shard = 0;
    charge = 8;
    shared_reservation = none;
    file = 3;
    offset = 0;
    len = 8;
    align = 1;
    done = 9;
  });
}

-- No permit yet, then one, and then the handle is dropped.
abbrev polls : List PollInput
polls =
    record { acquire = pending; alive = true; received = pending }
    ∷ record { acquire = ready (some permits); alive = true; received = pending }
    ∷ []

abbrev pool : Shares
pool = record {
  pool = record { capacity = 12; available = 4 };
  receipts = (0, record { bytes = 8; owners = 1 }) ∷ [];
  next = 1;
}

pool-Inv : Inv pool
unfolding total
pool-Inv = record {
  word_sized = omega arith;
  conserved = refl;
  unique = (refl, tt);
  named = λ j h. ground arith;
}

step-Inv_example : Inv (step (drops 0) pool)
step-Inv_example = step-Inv (drops 0) pool pool-Inv

eventfd_transfer-ends_example :
    (x : IoResult (Unit {0})) × (eventfd_transfer (replicate 2 interrupted ++ ok 8 ∷ []) ≡ some x)
    × Means (ok 8) x
eventfd_transfer-ends_example = eventfd_transfer-ends 2 (ok 8) [] tt

abbrev wait_at : ℕ → ProbeWait
wait_at now = record { now = now; waited = err (os 62); cqe = none }

drain_probe_cqe-bounded_example :
    (r : IoResult ℤ) × (drain_probe_cqe 2000 (wait_at 0 ∷ wait_at 1999 ∷ wait_at 2001 ∷ [])
      ≡ some r)
drain_probe_cqe-bounded_example =
    drain_probe_cqe-bounded 2000 (wait_at 0 ∷ wait_at 1999 ∷ []) (wait_at 2001) [] (omega arith)

run-closed_example : contains 2 (run (new 7) (registers 1 ∷ closes ∷ registers 2 ∷ [])).shut ≡ true
run-closed_example = run-closed 7 (registers 1 ∷ closes ∷ registers 2 ∷ []) 2 refl refl

abbrev shards : List Shard
shards =
    record {
      sem = 0;
      joined = true;
      stats = record no_stats { submitted = 3; delivered = 2; orphan_reclaimed = 1 };
    }
    ∷ record { sem = 1; joined = true; stats = record no_stats { submitted = 1; delivered = 1 } }
    ∷ []

stats-Accounted_example : IsSum shards (stats shards) × Accounted (stats shards)
stats-Accounted_example = stats-Accounted shards (refl, (refl, tt))

stats-Drained_example : Drained (stats shards)
stats-Drained_example = stats-Drained shards ((refl, refl), ((refl, refl), tt))
