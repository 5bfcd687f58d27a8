-- ===== src/Diagnostics.antt =====
-- src/diagnostics.rs: the duration histograms. The atomic histogram and its snapshot have the same
-- counters.
pub mod Buckets
pub mod Delta
use uring.Prelude.{
  ℕ, zero, suc, ◌+◌, ◌-◌, ◌%◌, ◌^◌, List, [], ◌∷◌, leb, max, ◌==◌, if◌then◌else◌, replicate, get_or,
  set,
}
use uring.Prelude.Word.{word, fetch_add, fetch_sub}

pub record LatencyHistogram : Type 0 where
  pub count : ℕ
  pub total_nanos : ℕ
  pub buckets : List ℕ

abbrev pub default_histogram : LatencyHistogram
default_histogram = record { count = 0; total_nanos = 0; buckets = replicate 64 0 }

-- The highest binary digit among the lowest `k`.
unfoldable pub top_digit : ℕ → ℕ → ℕ
top_digit zero n = 0
top_digit (suc k) n = let below = top_digit k n in if leb (2 ^ k) n then k else below

-- `u64::leading_zeros`.
unfoldable pub leading_zeros : ℕ → ℕ
leading_zeros n = if n == 0 then 64 else 63 - top_digit 64 n

unfoldable pub bucket : ℕ → ℕ
bucket nanos = 63 - leading_zeros (max nanos 1)

-- `Histogram::record`; the index is within the 64 buckets.
unfoldable pub record_nanos : LatencyHistogram → ℕ → LatencyHistogram
record_nanos h nanos = record {
  count = fetch_add h.count 1;
  total_nanos = fetch_add h.total_nanos nanos;
  buckets = set h.buckets (bucket nanos) (fetch_add (get_or h.buckets (bucket nanos) 0) 1);
}

abbrev pub merge_buckets : List ℕ → List ℕ → List ℕ
merge_buckets [] ys = []
merge_buckets (a ∷ xs) [] = a ∷ xs
merge_buckets (a ∷ xs) (b ∷ ys) = fetch_add a b ∷ merge_buckets xs ys

unfoldable pub merge : LatencyHistogram → LatencyHistogram → LatencyHistogram
merge h other = record {
  count = fetch_add h.count other.count;
  total_nanos = fetch_add h.total_nanos other.total_nanos;
  buckets = merge_buckets h.buckets other.buckets;
}

abbrev pub since_buckets : List ℕ → List ℕ → List ℕ
since_buckets [] ys = []
since_buckets (a ∷ xs) [] = []
since_buckets (a ∷ xs) (b ∷ ys) = fetch_sub a b ∷ since_buckets xs ys

-- Both arrays have 64 buckets.
unfoldable pub since : LatencyHistogram → LatencyHistogram → LatencyHistogram
since h earlier = record {
  count = fetch_sub h.count earlier.count;
  total_nanos = fetch_sub h.total_nanos earlier.total_nanos;
  buckets = since_buckets h.buckets earlier.buckets;
}

abbrev pub sample_interval : ℕ
sample_interval = 64

pub record DiagnosticsSnapshot : Type 0 where
  pub admission : LatencyHistogram
  pub driver_queue : LatencyHistogram
  pub preparation : LatencyHistogram
  pub driver_lifetime : LatencyHistogram
  pub cqe_processing : LatencyHistogram
  pub completion_to_poll : LatencyHistogram

unfoldable pub merge_snapshot : DiagnosticsSnapshot → DiagnosticsSnapshot → DiagnosticsSnapshot
merge_snapshot d other = record {
  admission = merge d.admission other.admission;
  driver_queue = merge d.driver_queue other.driver_queue;
  preparation = merge d.preparation other.preparation;
  driver_lifetime = merge d.driver_lifetime other.driver_lifetime;
  cqe_processing = merge d.cqe_processing other.cqe_processing;
  completion_to_poll = merge d.completion_to_poll other.completion_to_poll;
}

unfoldable pub since_snapshot : DiagnosticsSnapshot → DiagnosticsSnapshot → DiagnosticsSnapshot
since_snapshot d earlier = record {
  admission = since d.admission earlier.admission;
  driver_queue = since d.driver_queue earlier.driver_queue;
  preparation = since d.preparation earlier.preparation;
  driver_lifetime = since d.driver_lifetime earlier.driver_lifetime;
  cqe_processing = since d.cqe_processing earlier.cqe_processing;
  completion_to_poll = since d.completion_to_poll earlier.completion_to_poll;
}

pub data Stage : Type 0 where
  admission queue prepare lifetime cqe resume : Stage

-- `stage as usize`.
abbrev pub stage_index : Stage → ℕ
stage_index admission = 0
stage_index queue = 1
stage_index prepare = 2
stage_index lifetime = 3
stage_index cqe = 4
stage_index resume = 5

-- The array of the stages is a function of the index.
pub record Diagnostics : Type 0 where
  pub stages : ℕ → LatencyHistogram
  pub requests : ℕ

unfoldable pub record_stage : Diagnostics → Stage → ℕ → Diagnostics
record_stage d stage nanos = record d {
  stages = λ i. if i == stage_index stage then record_nanos (d.stages i) nanos else d.stages i;
}

unfoldable pub snapshot : Diagnostics → DiagnosticsSnapshot
snapshot d = record {
  admission = d.stages (stage_index admission);
  driver_queue = d.stages (stage_index queue);
  preparation = d.stages (stage_index prepare);
  driver_lifetime = d.stages (stage_index lifetime);
  cqe_processing = d.stages (stage_index cqe);
  completion_to_poll = d.stages (stage_index resume);
}

abbrev pub empty_snapshot : DiagnosticsSnapshot
empty_snapshot = record {
  admission = default_histogram;
  driver_queue = default_histogram;
  preparation = default_histogram;
  driver_lifetime = default_histogram;
  cqe_processing = default_histogram;
  completion_to_poll = default_histogram;
}

abbrev pub merge_shards : DiagnosticsSnapshot → List Diagnostics → DiagnosticsSnapshot
merge_shards total [] = total
merge_shards total (d ∷ ds) = merge_shards (merge_snapshot total (snapshot d)) ds

-- `UringDriver::diagnostics`, over the shards.
unfoldable pub diagnostics : List Diagnostics → DiagnosticsSnapshot
diagnostics ds = merge_shards empty_snapshot ds
