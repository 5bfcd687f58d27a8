-- ===== src/Trace/Stages.antt =====
-- What each stage's histogram records of a sampled read.
use uring.Prelude.{ℕ, ◌-◌, ◌≤◌, ◌<◌, ◌≡◌, ◌==◌, refl, ◌∙◌, true, false, List, [], ◌∷◌, All, arith}
use uring.Prelude.Word.{u64_max}
use uring.Diagnostics.{LatencyHistogram, record_nanos, Diagnostics, record_stage, snapshot}
use uring.Trace.{
  Trace, now, enqueue, enter, prepared, reaped, sending, received, reap_short, Readings, observe,
}

abbrev pub record_each : LatencyHistogram → List (ℕ × ℕ) → LatencyHistogram
record_each h [] = h
record_each h ((started, ended) ∷ cqes) = record_each (record_nanos h (ended - started)) cqes

-- The clock goes on, and does not reach the reading at which `now` stops.
pub record InOrder (start : ℕ) (r : Readings) : Type 0 where
  pub enqueued : start ≤ r.enqueued
  pub entered : r.enqueued ≤ r.entered
  pub prepared : r.entered ≤ r.prepared
  pub short_cqes : All (λ c. (start ≤ c.0) × (c.0 ≤ c.1) × (c.1 - start < u64_max)) r.short_cqes
  pub started : r.prepared ≤ r.started
  pub ended : r.started ≤ r.ended
  pub sent : r.ended ≤ r.sent
  pub received : r.sent ≤ r.received
  pub last : r.received - start < u64_max

reap_short-trace : (cqes : List (ℕ × ℕ)) (s : Trace × Diagnostics) → (reap_short cqes s).0 ≡ s.0
unfolding reap_short reaped
reap_short-trace [] s = refl
reap_short-trace ((started, ended) ∷ cqes) s =
    reap_short-trace cqes (reaped ended (now s.0 started) false s)

reap_short-other :
    (cqes : List (ℕ × ℕ)) (s : Trace × Diagnostics) (i : ℕ)
    → (i == 4) ≡ false
    → (reap_short cqes s).1.stages i ≡ s.1.stages i
unfolding reap_short reaped record_stage
reap_short-other [] s i h = refl
reap_short-other ((started, ended) ∷ cqes) s i h =
    reap_short-other cqes (reaped ended (now s.0 started) false s) i h ∙ (rw h refl)

reap_short-cqe :
    (cqes : List (ℕ × ℕ)) (t : Trace) (d : Diagnostics)
    → All (λ c. (t.start ≤ c.0) × (c.0 ≤ c.1) × (c.1 - t.start < u64_max)) cqes
    → (reap_short cqes (t, d)).1.stages 4 ≡ record_each (d.stages 4) cqes
unfolding reap_short reaped record_stage
reap_short-cqe [] t d h = refl
reap_short-cqe ((started, ended) ∷ cqes) t d ((after, on, within), h) =
    let took : now t ended - now t started ≡ ended - started = omega (arith, after, on, within) in
    reap_short-cqe cqes t (reaped ended (now t started) false (t, d)).1 h ∙ (rw took refl)

now-sub :
    (t : Trace) (a b : ℕ) → t.start ≤ a → a ≤ b → b - t.start < u64_max → now t b - now t a ≡ b - a
now-sub t a b h k l = omega arith

last_calls :
    (t : Trace) (d : Diagnostics) (started ended sent got : ℕ)
    → snapshot (received got (sending sent (reaped ended (now t started) true (t, d)))).1 ≡ record {
      admission = d.stages 0;
      driver_queue = d.stages 1;
      preparation = d.stages 2;
      driver_lifetime = record_nanos (d.stages 3) (now t started - t.entered);
      cqe_processing = record_nanos (d.stages 4) (now t ended - now t started);
      completion_to_poll = record_nanos (d.stages 5) (now t got - now t sent);
    }
unfolding received sending reaped snapshot record_stage
last_calls t d started ended sent got =
    let stamped : (now t sent == 0) ≡ false = ground arith in rw stamped refl

-- For a sampled read whose clock goes on (within 2 ^ 64 - 2 nanoseconds of its construction), the calls
-- of the handle and of the driver add to each stage just what it is said to measure, and nothing else:
-- from the construction to the handing over, from there to the intake, from there to the preparation,
-- from the intake to the last completion, each completion's processing, and from sending to receiving.
pub observe-snapshot :
    (r : Readings) (t : Trace) (d : Diagnostics)
    → InOrder t.start r
    → snapshot (observe r (t, d)).1 ≡ record {
      admission = record_nanos (snapshot d).admission (r.enqueued - t.start);
      driver_queue = record_nanos (snapshot d).driver_queue (r.entered - r.enqueued);
      preparation = record_nanos (snapshot d).preparation (r.prepared - r.entered);
      driver_lifetime = record_nanos (snapshot d).driver_lifetime (r.started - r.entered);
      cqe_processing =
          record_nanos (record_each (snapshot d).cqe_processing r.short_cqes) (r.ended - r.started);
      completion_to_poll = record_nanos (snapshot d).completion_to_poll (r.received - r.sent);
    }
unfolding observe prepared enter enqueue record_stage snapshot
observe-snapshot r t d o =
    let s = prepared r.prepared (enter r.entered (enqueue r.enqueued (t, d))) in
    let s' = reap_short r.short_cqes s in
    let same = reap_short-trace r.short_cqes s in
    let other = reap_short-other r.short_cqes s in
    let each = reap_short-cqe r.short_cqes s.0 s.1 o.short_cqes in
    let handed : now t r.enqueued - 1 ≡ r.enqueued - t.start =
      omega (
        arith, o.enqueued, o.entered, o.prepared, o.started, o.ended, o.sent, o.received, o.last,
      ) in
    let queued =
      now-sub t r.enqueued r.entered o.enqueued o.entered
        (omega (arith, o.entered, o.prepared, o.started, o.ended, o.sent, o.received, o.last)) in
    let made =
      now-sub t r.entered r.prepared (omega (arith, o.enqueued, o.entered)) o.prepared
        (omega (arith, o.prepared, o.started, o.ended, o.sent, o.received, o.last)) in
    let lived =
      now-sub t r.entered r.started (omega (arith, o.enqueued, o.entered))
        (omega (arith, o.prepared, o.started))
        (omega (arith, o.started, o.ended, o.sent, o.received, o.last)) in
    let worked =
      now-sub t r.started r.ended (omega (arith, o.enqueued, o.entered, o.prepared, o.started))
        o.ended (omega (arith, o.ended, o.sent, o.received, o.last)) in
    let resumed =
      now-sub t r.sent r.received
        (omega (arith, o.enqueued, o.entered, o.prepared, o.started, o.ended, o.sent)) o.received
        o.last in
    last_calls s'.0 s'.1 r.started r.ended r.sent r.received
    ∙ (rw same (
        cc (
          other 0 refl,
          other 1 refl,
          other 2 refl,
          other 3 refl,
          other 5 refl,
          each,
          handed,
          queued,
          made,
          lived,
          worked,
          resumed,
        )))
