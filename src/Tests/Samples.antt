-- ===== src/Tests/Samples.antt =====
-- The histograms, over one sample of seven nanoseconds.
use uring.Prelude.{
  ℕ, ◌%◌, ◌==◌, if◌then◌else◌, get_or, ◌/◌, ◌+◌, ◌-◌, ◌^◌, ◌≤◌, ◌<◌, ◌≡◌, refl, arith, [], ◌∷◌,
}
use uring.Diagnostics.{
  Diagnostics, snapshot, LatencyHistogram, default_histogram, record_nanos, merge, since,
}
use uring.Trace.{Trace, Readings, observe, sample_all}
use uring.Trace.Stages.{InOrder, observe-snapshot}
use uring.Trace.Sampling.{sampled, sample_all-sampled}
use uring.Diagnostics.Buckets.{IsHistogram, record_nanos-IsHistogram}
use uring.Diagnostics.Delta.{IsWords, since-merge}

default-IsHistogram : IsHistogram default_histogram
default-IsHistogram = record { size = refl; counted = refl }

record_nanos-IsHistogram_example :
    (b : ℕ) × (2 ^ b ≤ 7)
    × (7 < 2 ^ (b + 1))
    × (get_or (record_nanos default_histogram 7).buckets 2 0
        ≡ (if 2 == b then (get_or default_histogram.buckets b 0 + 1) % 2 ^ 64 else 0))
    × ((record_nanos default_histogram 7).count ≡ 1)
    × ((record_nanos default_histogram 7).total_nanos ≡ 7)
    × IsHistogram (record_nanos default_histogram 7)
unfolding record_nanos
record_nanos-IsHistogram_example =
    record_nanos-IsHistogram default_histogram 7 2 (omega arith) default-IsHistogram

abbrev small : LatencyHistogram
small = record { count = 2; total_nanos = 9; buckets = 2 ∷ 0 ∷ [] }

abbrev full_counts : LatencyHistogram
full_counts = record { count = 2 ^ 64 - 1; total_nanos = 5; buckets = (2 ^ 64 - 1) ∷ 7 ∷ [] }

small-IsWords : IsWords small
small-IsWords = record {
  count = omega arith;
  total = omega arith;
  buckets = (omega arith, (omega arith, tt));
}

full_counts-IsWords : IsWords full_counts
full_counts-IsWords = record {
  count = omega arith;
  total = omega arith;
  buckets = (omega arith, (omega arith, tt));
}

since-merge_example : since (merge full_counts small) full_counts ≡ small
since-merge_example = since-merge full_counts small full_counts-IsWords small-IsWords refl

abbrev fresh : Diagnostics
fresh = record { stages = λ i. default_histogram; requests = 0 }

abbrev traced : Trace
traced = record { start = 3; queued = 0; entered = 0; sent = 0 }

abbrev readings : Readings
readings = record {
  enqueued = 5;
  entered = 7;
  prepared = 8;
  short_cqes = (10, 12) ∷ [];
  started = 20;
  ended = 23;
  sent = 24;
  received = 30;
}

readings-InOrder : InOrder 3 readings
readings-InOrder = record {
  enqueued = omega arith;
  entered = omega arith;
  prepared = omega arith;
  short_cqes = ((omega arith, omega arith, omega arith), tt);
  started = omega arith;
  ended = omega arith;
  sent = omega arith;
  received = omega arith;
  last = omega arith;
}

observe-snapshot_example : snapshot (observe readings (traced, fresh)).1 ≡ record {
  admission = record_nanos default_histogram 2;
  driver_queue = record_nanos default_histogram 2;
  preparation = record_nanos default_histogram 1;
  driver_lifetime = record_nanos default_histogram 13;
  cqe_processing = record_nanos (record_nanos default_histogram 2) 3;
  completion_to_poll = record_nanos default_histogram 6;
}
unfolding snapshot
observe-snapshot_example = observe-snapshot readings traced fresh readings-InOrder

sample_all-sampled_example :
    (sampled (sample_all (3 ∷ 4 ∷ []) fresh).0 + 63 / 64 ≡ 65 / 64)
    × ((sample_all (3 ∷ 4 ∷ []) fresh).1.requests ≡ 2)
sample_all-sampled_example = sample_all-sampled (3 ∷ 4 ∷ []) fresh (omega arith)
