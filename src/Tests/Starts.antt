-- ===== src/Tests/Starts.antt =====
-- A start of three shards, the second of which has a ring that drops completions.
use uring.Prelude.{ℕ, none, some, true, false, arith, ◌==◌, if◌then◌else◌}
use uring.Sys.{ok}
use uring.Front.{ReadLimits}
use uring.Reservation.{SharedReadBudget}
use uring.Start.{ShardAnswers, probe_and_start_with_shared_budget}
use uring.Start.Outcome.{Settled, start-Settled}

abbrev good : ShardAnswers
good = record {
  ring = ok tt;
  nodrop = true;
  probe = ok tt;
  cq_efd = ok tt;
  registered = ok tt;
  wake_efd = ok tt;
  spawned = ok tt;
}

abbrev second_bad : ℕ → ShardAnswers
second_bad i = if i == 1 then record good { nodrop = false } else good

abbrev limits : ReadLimits
limits = record { max_read_len = none; max_in_flight_bytes = some 20 }

abbrev pool : SharedReadBudget
pool = record { capacity = 100; available = 50 }

start-Settled_example :
    Settled second_bad 8 3 limits pool
      (probe_and_start_with_shared_budget 8 second_bad 1000 3 limits pool).0
      (probe_and_start_with_shared_budget 8 second_bad 1000 3 limits pool).1
start-Settled_example = start-Settled second_bad 8 1000 3 limits pool (omega arith) (omega arith)
