-- ===== src/Pread/Run.antt =====
-- examples/concurrent_pread_bench/linux.rs: the reads of `run`, whatever the strategy and however long
-- they take.
use uring.Prelude.{ℕ, ◌+◌, ◌==◌, Bool, not, List, [], ◌∷◌, ◌++◌, if◌then◌else◌, length}
use uring.Sys.{IoResult, ok, err, IoError}
use uring.Pread.{Config, Checked, verify_range, div_ceil, task_offsets}

-- The errors of a task, as numbers in place of their messages.
pub data Failure : Type 0 where
  read_failed : IoError → Failure
  short_read : ℕ → ℕ → Failure
  wrong_content : ℕ → ℕ → ℕ → Failure

pub data TaskResult : Type 0 where
  latencies : List ℕ → TaskResult
  fails : Failure → TaskResult

abbrev pub with_latency : ℕ → TaskResult → TaskResult
with_latency elapsed (TaskResult.latencies lats) = TaskResult.latencies (elapsed ∷ lats)
with_latency elapsed (TaskResult.fails f) = TaskResult.fails f

abbrev pub checked : Checked → ℕ → TaskResult → TaskResult
checked Checked.matches elapsed rest = with_latency elapsed rest
checked (Checked.mismatch pos got want) elapsed rest =
    TaskResult.fails (Failure.wrong_content pos got want)

abbrev pub extend : TaskResult → TaskResult → TaskResult
extend (TaskResult.fails f) rest = TaskResult.fails f
extend (TaskResult.latencies lats) (TaskResult.latencies all) = TaskResult.latencies (lats ++ all)
extend (TaskResult.latencies lats) (TaskResult.fails f) = TaskResult.fails f

module _ (cfg : Config) (verify : Bool) where
  abbrev pub check_read : ℕ → IoResult (List ℕ) → ℕ → TaskResult → TaskResult
  check_read off (err e) elapsed rest = TaskResult.fails (Failure.read_failed e)
  check_read off (ok bytes) elapsed rest =
      if not (length bytes == cfg.read_size)
      then TaskResult.fails (Failure.short_read off (length bytes))
      else if verify
      then checked (verify_range off bytes) elapsed rest
      else with_latency elapsed rest

  -- The reads of a task, from its `n`-th on: each, by its strategy, gives its result and the time it took.
  unfoldable pub task : (ℕ → ℕ → IoResult (List ℕ) × ℕ) → ℕ → List ℕ → TaskResult
  task read n [] = TaskResult.latencies []
  task read n (off ∷ rest) =
      let later = task read (n + 1) rest in
      let (result, elapsed) = read n off in check_read off result elapsed later

  -- The tasks, in the order in which they are joined.
  unfoldable pub join_tasks : (ℕ → ℕ → ℕ → IoResult (List ℕ) × ℕ) → List ℕ → List ℕ → TaskResult
  join_tasks reads offs [] = TaskResult.latencies []
  join_tasks reads offs (t ∷ order) =
      let rest = join_tasks reads offs order in
      extend (task (reads t) 0 (task_offsets (div_ceil (length offs) cfg.concurrency) offs t)) rest
