-- ===== src/Closing.antt =====
-- src/driver.rs: the end of admission and of a driver: `ByteAdmission`, `request_shutdown`, `shutdown`
-- and the summed counters. Semaphores are named by numbers; what matters of them is which are closed.
pub mod Terminal
pub mod Sums
use uring.Prelude.{
  ℕ, zero, suc, ◌+◌, ◌%◌, Bool, true, false, not, Option, none, some, List, [], ◌∷◌, ◌++◌, ltb, leb,
  ◌==◌, if◌then◌else◌, length,
}
use uring.Prelude.Word.{word}
use uring.Prelude.Map.{contains}
use uring.Driver.{DriverStats, Msg}
use uring.Front.{ReadHandle, HandleState, inert, waiting_permit, submitted}

-- `AdmissionRegistry`, with the semaphore of the bytes, and the semaphores that were closed so far.
pub record ByteAdmission : Type 0 where
  pub bytes : ℕ
  pub closed : Bool
  pub counts : List ℕ
  pub shut : List ℕ

unfoldable pub new : ℕ → ByteAdmission
new bytes = record { bytes = bytes; closed = false; counts = []; shut = [] }

unfoldable pub register : ByteAdmission → ℕ → ByteAdmission
register a count =
    if a.closed
    then record a { shut = count ∷ a.shut }
    else record a { counts = a.counts ++ count ∷ [] }

unfoldable pub close : ByteAdmission → ByteAdmission
close a = record a { closed = true; counts = []; shut = a.counts ++ a.bytes ∷ a.shut }

-- A shard as its driver sees it: its semaphore, whether its thread was joined, and its counters.
pub record Shard : Type 0 where
  pub sem : ℕ
  pub joined : Bool
  pub stats : DriverStats

-- What a driver does to end: the messages and wakes that it sends to its shards, by index, the oldest
-- first, and the semaphores that it closes.
pub record Ending : Type 0 where
  pub admission : Option ByteAdmission
  pub shut : List ℕ
  pub sent : List (ℕ × Msg)
  pub signals : List ℕ

abbrev pub close_bytes : Option ByteAdmission → Option ByteAdmission
close_bytes none = none
close_bytes (some a) = some (close a)

abbrev pub sems : List Shard → List ℕ
sems [] = []
sems (s ∷ ss) = s.sem ∷ sems ss

abbrev pub ask : ℕ → List Shard → List (ℕ × Msg)
ask i [] = []
ask i (s ∷ ss) = (i, Msg.shutdown) ∷ ask (suc i) ss

abbrev pub wake : ℕ → List Shard → List ℕ
wake i [] = []
wake i (s ∷ ss) = i ∷ wake (suc i) ss

unfoldable pub request_shutdown : List Shard → Ending → Ending
request_shutdown shards e = record {
  admission = close_bytes e.admission;
  shut = e.shut ++ sems shards;
  sent = e.sent ++ ask 0 shards;
  signals = e.signals ++ wake 0 shards;
}

-- `Shard::join`: a shard that was joined before is left alone. The shard is the `i`-th.
unfoldable pub join : ℕ → Shard → Ending → Shard × Ending
join i s e = if s.joined then (s, e) else (
  record s { joined = true },
  record e { sent = e.sent ++ (i, Msg.shutdown) ∷ []; signals = e.signals ++ i ∷ [] },
)

unfoldable pub join_all : ℕ → List Shard → Ending → List Shard × Ending
join_all i [] e = ([], e)
join_all i (s ∷ ss) e =
    let (s', e') = join i s e in let (ss', e2) = join_all (suc i) ss e' in (s' ∷ ss', e2)

-- `is_finished`, with the answer of the threads' handles.
unfoldable pub is_finished : (ℕ → Bool) → ℕ → List Shard → Bool
is_finished exited i [] = true
is_finished exited i (s ∷ ss) =
    let others = is_finished exited (suc i) ss in
    if s.joined then others else if exited i then others else false

-- The release build's `+=` wraps.
abbrev pub add : ℕ → ℕ → ℕ
add a b = (a + b) % word

abbrev pub add_stats : DriverStats → DriverStats → DriverStats
add_stats a b = record {
  submitted = add a.submitted b.submitted;
  delivered = add a.delivered b.delivered;
  orphan_reclaimed = add a.orphan_reclaimed b.orphan_reclaimed;
  in_flight = add a.in_flight b.in_flight;
  cancel_succeeded = add a.cancel_succeeded b.cancel_succeeded;
  cancel_not_found = add a.cancel_not_found b.cancel_not_found;
  cancel_already = add a.cancel_already b.cancel_already;
  cq_overflow = add a.cq_overflow b.cq_overflow;
  submit_errors = add a.submit_errors b.submit_errors;
}

-- `StatsSnapshot` has the counters of `DriverStats`.
abbrev pub default_snapshot : DriverStats
default_snapshot = record {
  submitted = 0;
  delivered = 0;
  orphan_reclaimed = 0;
  in_flight = 0;
  cancel_succeeded = 0;
  cancel_not_found = 0;
  cancel_already = 0;
  cq_overflow = 0;
  submit_errors = 0;
}

unfoldable pub sum_from : DriverStats → List Shard → DriverStats
sum_from snap [] = snap
sum_from snap (s ∷ ss) = sum_from (add_stats snap s.stats) ss

unfoldable pub stats : List Shard → DriverStats
unfolding sum_from
stats shards = sum_from default_snapshot shards

-- `shutdown`: the snapshot is taken after the joins, so the joins' shards give it.
unfoldable pub shutdown : (List Shard → List Shard) → List Shard → Ending → DriverStats × Ending
unfolding stats
shutdown drained shards e =
    let (joined, e') = join_all 0 shards (request_shutdown shards e) in (stats (drained joined), e')
