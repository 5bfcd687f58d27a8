-- ===== src/Closing/Sums.antt =====
-- The counters that `stats` gives are the sums over the shards.
use uring.Prelude.{ℕ, ◌+◌, ◌%◌, ◌<◌, ◌∙◌, ◌≡◌, refl, List, [], ◌∷◌, arith, All}
use uring.Prelude.Word.{word}
use uring.Driver.{DriverStats}
use uring.Closing.{Shard, add_stats, default_snapshot, sum_from, stats}

-- The identity that holds of a shard after a clean drain.
abbrev pub Drained : DriverStats → Type 0
Drained s = (s.in_flight ≡ 0) × (s.submitted ≡ (s.delivered + s.orphan_reclaimed) % word)

-- The identity that holds of a shard at any time.
abbrev pub Accounted : DriverStats → Type 0
Accounted s = s.submitted ≡ (s.delivered + s.orphan_reclaimed + s.in_flight) % word

sum_from-Accounted :
    (shards : List Shard) (snap : DriverStats)
    → Accounted snap
    → All (λ (s : Shard). Accounted s.stats) shards
    → Accounted (sum_from snap shards)
unfolding sum_from
sum_from-Accounted [] snap h hs = h
sum_from-Accounted (s ∷ ss) snap h hs =
    sum_from-Accounted ss (add_stats snap s.stats) (omega (arith, h, hs.0)) hs.1

sum_from-Drained :
    (shards : List Shard) (snap : DriverStats)
    → Drained snap
    → All (λ (s : Shard). Drained s.stats) shards
    → Drained (sum_from snap shards)
unfolding sum_from
sum_from-Drained [] snap h hs = h
sum_from-Drained (s ∷ ss) snap h hs =
    let one = hs.0 in
    sum_from-Drained ss (add_stats snap s.stats) (omega (arith, h, one), omega (arith, h, one)) hs.1

-- The sum of a counter over the shards.
abbrev pub total_of : (DriverStats → ℕ) → List Shard → ℕ
total_of counter [] = 0
total_of counter (s ∷ ss) = counter s.stats + total_of counter ss

-- Every counter is the sum over the shards, modulo 2 ^ 64.
pub record IsSum (shards : List Shard) (snap : DriverStats) : Type 0 where
  pub submitted : snap.submitted ≡ total_of (λ (s : DriverStats). s.submitted) shards % word
  pub delivered : snap.delivered ≡ total_of (λ (s : DriverStats). s.delivered) shards % word
  pub orphan_reclaimed :
      snap.orphan_reclaimed ≡ total_of (λ (s : DriverStats). s.orphan_reclaimed) shards % word
  pub in_flight : snap.in_flight ≡ total_of (λ (s : DriverStats). s.in_flight) shards % word
  pub cancel_succeeded :
      snap.cancel_succeeded ≡ total_of (λ (s : DriverStats). s.cancel_succeeded) shards % word
  pub cancel_not_found :
      snap.cancel_not_found ≡ total_of (λ (s : DriverStats). s.cancel_not_found) shards % word
  pub cancel_already :
      snap.cancel_already ≡ total_of (λ (s : DriverStats). s.cancel_already) shards % word
  pub cq_overflow : snap.cq_overflow ≡ total_of (λ (s : DriverStats). s.cq_overflow) shards % word
  pub submit_errors :
      snap.submit_errors ≡ total_of (λ (s : DriverStats). s.submit_errors) shards % word

module _ (counter : DriverStats → ℕ)
    (adds : (a b : DriverStats) → counter (add_stats a b) ≡ (counter a + counter b) % word) where
  sum_from-total_of :
      (shards : List Shard) (snap : DriverStats)
      → counter snap < word
      → counter (sum_from snap shards) ≡ (counter snap + total_of counter shards) % word
  unfolding sum_from
  sum_from-total_of [] snap h = omega (arith, h)
  sum_from-total_of (s ∷ ss) snap h =
      let step = adds snap s.stats in
      sum_from-total_of ss (add_stats snap s.stats) (omega (arith, step)) ∙ omega (arith, step)

  stats-total_of :
      (shards : List Shard)
      → counter default_snapshot ≡ 0
      → counter (stats shards) ≡ total_of counter shards % word
  unfolding stats
  stats-total_of shards none_yet =
      sum_from-total_of shards default_snapshot (omega (arith, none_yet)) ∙ omega (arith, none_yet)

-- Each counter that `stats` gives is its sum over the shards, modulo 2 ^ 64; and if in every shard the
-- accepted reads are the delivered, the reclaimed and those in flight, modulo 2 ^ 64, so they are in the
-- summed counters.
pub stats-Accounted :
    (shards : List Shard)
    → All (λ (s : Shard). Accounted s.stats) shards
    → IsSum shards (stats shards) × Accounted (stats shards)
unfolding stats
stats-Accounted shards h = (
  record {
    submitted = stats-total_of (λ (s : DriverStats). s.submitted) (λ a b. refl) shards refl;
    delivered = stats-total_of (λ (s : DriverStats). s.delivered) (λ a b. refl) shards refl;
    orphan_reclaimed =
        stats-total_of (λ (s : DriverStats). s.orphan_reclaimed) (λ a b. refl) shards refl;
    in_flight = stats-total_of (λ (s : DriverStats). s.in_flight) (λ a b. refl) shards refl;
    cancel_succeeded =
        stats-total_of (λ (s : DriverStats). s.cancel_succeeded) (λ a b. refl) shards refl;
    cancel_not_found =
        stats-total_of (λ (s : DriverStats). s.cancel_not_found) (λ a b. refl) shards refl;
    cancel_already =
        stats-total_of (λ (s : DriverStats). s.cancel_already) (λ a b. refl) shards refl;
    cq_overflow = stats-total_of (λ (s : DriverStats). s.cq_overflow) (λ a b. refl) shards refl;
    submit_errors = stats-total_of (λ (s : DriverStats). s.submit_errors) (λ a b. refl) shards refl;
  },
  sum_from-Accounted shards default_snapshot refl h,
)

-- If every shard has no read in flight and every accepted one delivered or reclaimed, so have the
-- summed counters.
pub stats-Drained :
    (shards : List Shard) → All (λ (s : Shard). Drained s.stats) shards → Drained (stats shards)
unfolding stats
stats-Drained shards h = sum_from-Drained shards default_snapshot (refl, refl) h
