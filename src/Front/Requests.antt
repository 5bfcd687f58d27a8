-- ===== src/Front/Requests.antt =====
-- src/driver.rs: the read calls of `UringDriver`.
use uring.Prelude.{
  ℕ, Bool, true, false, Option, some, List, [], ◌∷◌, ◌++◌, ltb, if◌then◌else◌, length,
}
use uring.Prelude.Map.{contains}
use uring.Sys.{IoResult, ok}
use uring.Geometry.{current_position}
use uring.Admission.{Semaphore, ◌>>=◌}
use uring.Front.{
  Request, HandleState, inert, waiting_permit, submitted, ReadHandle, Front, invalid, submit,
}

abbrev pub max_batch_reads : ℕ
max_batch_reads = 64

pub record ReadRequest : Type 0 where
  pub file : ℕ
  pub offset : ℕ
  pub len : ℕ

abbrev pub positioned : ReadRequest → ℕ → Bool → Request
positioned q align notify_now = record {
  file = q.file;
  offset = q.offset;
  len = q.len;
  align = align;
  allow_current_position = false;
  notify_now = notify_now;
}

-- One wake for a shard.
abbrev pub queue_wake : HandleState → List ℕ → List ℕ
queue_wake inert wakes = wakes
queue_wake (waiting_permit w) wakes = wakes
queue_wake (submitted shard) wakes = if contains shard wakes then wakes else wakes ++ shard ∷ []

-- The wakes, one after another.
abbrev pub signal_all : List ℕ → List ℕ → List ℕ
signal_all [] signals = signals
signal_all (shard ∷ wakes) signals = signal_all wakes (shard ∷ signals)

module _ {S : Type 0} (sem : Semaphore S) (alive : ℕ → Bool) where
  unfoldable pub read_at : Front S → ReadRequest → Option (Front S × ReadHandle)
  read_at f q = submit sem alive f (positioned q 1 true)

  unfoldable pub read_at_direct : Front S → ReadRequest → ℕ → Option (Front S × ReadHandle)
  read_at_direct f q align = submit sem alive f (positioned q align true)

  unfoldable pub read_current : Front S → ℕ → ℕ → Option (Front S × ReadHandle)
  read_current f file len = submit sem alive f (record {
    file = file;
    offset = current_position;
    len = len;
    align = 1;
    allow_current_position = true;
    notify_now = true;
  })

  unfoldable pub submit_batch :
      Front S → List ReadRequest → List ℕ → Option (Front S × List ReadHandle × List ℕ)
  submit_batch f [] wakes = some (f, [], wakes)
  submit_batch f (q ∷ qs) wakes = do
    (f', h) ← submit sem alive f (positioned q 1 false)
    (f2, hs, wakes') ← submit_batch f' qs (queue_wake h.state wakes)
    some (f2, h ∷ hs, wakes')

  unfoldable pub read_at_batch :
      Front S → List ReadRequest → Option (Front S × IoResult (List ReadHandle))
  read_at_batch f requests =
      if ltb max_batch_reads (length requests)
      then some (f, invalid "read batch exceeds MAX_BATCH_READS")
      else (do
        (f', handles, wakes) ← submit_batch f requests []
        some (record f' { signals = signal_all wakes f'.signals }, ok handles))
