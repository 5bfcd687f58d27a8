-- ===== src/Trace/Sampling.antt =====
-- One handle in 64 is sampled.
use uring.Prelude.{
  ℕ, suc, ◌+◌, ◌/◌, ◌%◌, ◌<◌, ◌≡◌, ◌==◌, Bool, true, false, ◌≢◌, Bool-cases, inl, inr, Option, none,
  some, List, [], ◌∷◌, arith, length, if◌then◌else◌,
}
use uring.Prelude.Word.{word, fetch_add}
use uring.Diagnostics.{Diagnostics, sample_interval}
use uring.Trace.{Trace, sample_with_start, sample_all}

abbrev pub sampled : List (Option Trace) → ℕ
sampled [] = 0
sampled (none ∷ ts) = sampled ts
sampled (some t ∷ ts) = suc (sampled ts)

sampled_of_test :
    (b : Bool) (t : Trace) (ts : List (Option Trace))
    → sampled ((if b then some t else none) ∷ ts) ≡ (if b then 1 else 0) + sampled ts
sampled_of_test true t ts = omega arith
sampled_of_test false t ts = omega arith

-- Among any handles of a shard that has made fewer than 2 ^ 64, those whose number is a multiple of 64
-- are sampled: their count is the difference of the numbers' quotients, rounded up.
pub sample_all-sampled :
    (starts : List ℕ) (d : Diagnostics)
    → d.requests + length starts < word
    → (sampled (sample_all starts d).0 + (d.requests + 63) / 64
        ≡ (d.requests + length starts + 63) / 64)
      × ((sample_all starts d).1.requests ≡ d.requests + length starts)
unfolding sample_all sample_with_start
sample_all-sampled [] d h = omega arith
sample_all-sampled (start ∷ starts) d h =
    let (rest, count) =
      sample_all-sampled starts (record d { requests = fetch_add d.requests 1 })
        (omega (arith, h)) in
    let next : fetch_add d.requests 1 ≡ d.requests + 1 = omega (arith, h) in
    elim (Bool-cases (d.requests % sample_interval == 0)) [
      | inl hit ↦
          let multiple : d.requests % 64 ≡ 0 = ground arith in
          (
            rw sampled_of_test (rw hit (omega (arith, rest, next, multiple))),
            omega (arith, count, next),
          )
      | inr miss ↦
          let other : d.requests % 64 ≢ 0 = ground arith in
          (
            rw sampled_of_test (rw miss (omega (arith, rest, next, other))),
            omega (arith, count, next),
          )
    ]
