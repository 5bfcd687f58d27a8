-- ===== src/Trace.antt =====
-- src/diagnostics.rs: `Trace`, the stamps of a sampled read, and which reads are sampled. The clock's
-- readings are arguments, in nanoseconds; an operation also returns the diagnostics that it updates.
pub mod Stages
pub mod Sampling
use uring.Prelude.{
  ℕ, ◌+◌, ◌-◌, ◌%◌, ◌^◌, min, Bool, true, false, Option, none, some, ◌==◌, if◌then◌else◌, List, [],
  ◌∷◌,
}
use uring.Prelude.Word.{word, u64_max, fetch_add}
use uring.Diagnostics.{
  Diagnostics, Stage, admission, queue, prepare, lifetime, cqe, resume, record_stage,
  sample_interval,
}

pub record Trace : Type 0 where
  pub start : ℕ
  pub queued : ℕ
  pub entered : ℕ
  pub sent : ℕ

unfoldable pub sample_with_start : Diagnostics → ℕ → Option Trace × Diagnostics
sample_with_start d start = (
  if d.requests % sample_interval == 0
      then some (record { start = start; queued = 0; entered = 0; sent = 0 })
      else none,
  record d { requests = fetch_add d.requests 1 },
)

-- `start.elapsed()`, at the clock's reading, from 1 on.
abbrev pub now : Trace → ℕ → ℕ
now t clock = min (clock - t.start) (u64_max - 1) + 1

unfoldable pub enqueue : ℕ → Trace × Diagnostics → Trace × Diagnostics
enqueue clock (t, d) =
    let now = now t clock in (record t { queued = now }, record_stage d admission (now - 1))

unfoldable pub enter : ℕ → Trace × Diagnostics → Trace × Diagnostics
enter clock (t, d) =
    let now = now t clock in (record t { entered = now }, record_stage d queue (now - t.queued))

unfoldable pub prepared : ℕ → Trace × Diagnostics → Trace × Diagnostics
prepared clock (t, d) = (t, record_stage d prepare (now t clock - t.entered))

unfoldable pub reaped : ℕ → ℕ → Bool → Trace × Diagnostics → Trace × Diagnostics
reaped clock started final_cqe (t, d) =
    let d' = record_stage d cqe (now t clock - started) in
    (t, if final_cqe then record_stage d' lifetime (started - t.entered) else d')

unfoldable pub sending : ℕ → Trace × Diagnostics → Trace × Diagnostics
sending clock (t, d) = (record t { sent = now t clock }, d)

unfoldable pub received : ℕ → Trace × Diagnostics → Trace × Diagnostics
received clock (t, d) = (t, if t.sent == 0 then d else record_stage d resume (now t clock - t.sent))

-- The completions of a read, each with the clock before and after `reap_read`, all but the last.
unfoldable pub reap_short : List (ℕ × ℕ) → Trace × Diagnostics → Trace × Diagnostics
reap_short [] s = s
reap_short ((started, ended) ∷ cqes) s = reap_short cqes (reaped ended (now s.0 started) false s)

-- The clock's readings where a sampled read is handed over, taken in and prepared, at its completions,
-- and where its result is sent and received.
pub record Readings : Type 0 where
  pub enqueued : ℕ
  pub entered : ℕ
  pub prepared : ℕ
  pub short_cqes : List (ℕ × ℕ)
  pub started : ℕ
  pub ended : ℕ
  pub sent : ℕ
  pub received : ℕ

-- The calls that the handle and the driver make for a sampled read.
unfoldable pub observe : Readings → Trace × Diagnostics → Trace × Diagnostics
observe r s =
    let s' =
      reap_short r.short_cqes (prepared r.prepared (enter r.entered (enqueue r.enqueued s))) in
    received r.received (sending r.sent (reaped r.ended (now s'.0 r.started) true s'))

-- One handle after another, each with the clock at its construction.
unfoldable pub sample_all : List ℕ → Diagnostics → List (Option Trace) × Diagnostics
sample_all [] d = ([], d)
sample_all (start ∷ starts) d =
    let (t, d') = sample_with_start d start in let (ts, d'') = sample_all starts d' in (t ∷ ts, d'')
