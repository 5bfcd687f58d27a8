-- ===== src/Diagnostics/Buckets.antt =====
-- Where a duration is recorded, and that the buckets account for every one.
use uring.Prelude.{
  ℕ, zero, suc, ◌+◌, ◌%◌, ◌^◌, ◌<◌, ◌≤◌, ◌≡◌, ap, ◌∙◌, inl, inr, false, List, [], ◌∷◌, leb, max,
  ◌==◌, if◌then◌else◌, refl, arith, Bool-cases, length, get_or, set, length-set,
}
use uring.Prelude.Word.{word, fetch_add}
use uring.Diagnostics.{LatencyHistogram, top_digit, leading_zeros, bucket, record_nanos}

top_digit-range :
    (k n : ℕ)
    → 0 < n
    → n < 2 ^ k
    → (2 ^ top_digit k n ≤ n) × (n < 2 ^ (top_digit k n + 1)) × (top_digit k n < k)
unfolding top_digit
top_digit-range zero n pos h = absurd (omega arith)
top_digit-range (suc k) n pos h =
    let next : 2 ^ (k + 1) ≡ 2 ^ suc k =
      ap (λ (t : ℕ). 2 ^ t) {x = k + 1} {y = suc k} (omega arith) in
    elim (Bool-cases (leb (2 ^ k) n)) [
      | inl hit ↦ simp hit (ground arith, omega (arith, h, next), omega arith)
      | inr miss ↦
          let (low, high, small) = top_digit-range k n pos (ground arith) in
          simp miss (low, high, omega (arith, small))
    ]

bucket-top : (n : ℕ) → n < word → bucket n ≡ top_digit 64 (max n 1)
unfolding bucket leading_zeros
bucket-top n h =
    let (low, high, small) = top_digit-range 64 (max n 1) (omega arith) (omega arith) in
    let nonzero : (max n 1 == 0) ≡ false = ground arith in simp nonzero (omega (arith, small))

abbrev pub sum : List ℕ → ℕ
sum [] = 0
sum (b ∷ bs) = b + sum bs

sum-set : (bs : List ℕ) (i v : ℕ) → i < length bs → sum (set bs i v) + get_or bs i 0 ≡ sum bs + v
sum-set [] i v h = absurd (omega arith)
sum-set (b ∷ bs) zero v h = omega arith
sum-set (b ∷ bs) (suc i) v h = omega (arith, sum-set bs i v (omega arith))

-- A histogram has its 64 buckets, and they add up to its count, modulo 2 ^ 64.
pub record IsHistogram (h : LatencyHistogram) : Type 0 where
  pub size : length h.buckets ≡ 64
  pub counted : sum h.buckets % word ≡ h.count

get_or-set :
    (bs : List ℕ) (i v j : ℕ)
    → i < length bs
    → get_or (set bs i v) j 0 ≡ (if j == i then v else get_or bs j 0)
get_or-set [] i v j h = absurd (omega arith)
get_or-set (b ∷ bs) zero v zero h = refl
get_or-set (b ∷ bs) zero v (suc j) h = ground arith
get_or-set (b ∷ bs) (suc i) v zero h = ground arith
get_or-set (b ∷ bs) (suc i) v (suc j) h = get_or-set bs i v j (omega arith) ∙ ground arith

-- In a histogram whose 64 buckets add up to its count, modulo 2 ^ 64, a 64-bit duration adds one to the
-- bucket of its highest binary digit (0 counts as 1), modulo 2 ^ 64, and nothing to any other bucket `j`;
-- it adds one to the count and itself to the total, modulo 2 ^ 64; and the histogram keeps 64 buckets
-- which add up to its count.
pub record_nanos-IsHistogram :
    (h : LatencyHistogram) (nanos j : ℕ)
    → nanos < word
    → IsHistogram h
    → (b : ℕ) × (2 ^ b ≤ max nanos 1)
      × (max nanos 1 < 2 ^ (b + 1))
      × (get_or (record_nanos h nanos).buckets j 0
          ≡ (if j == b then (get_or h.buckets b 0 + 1) % word else get_or h.buckets j 0))
      × ((record_nanos h nanos).count ≡ (h.count + 1) % word)
      × ((record_nanos h nanos).total_nanos ≡ (h.total_nanos + nanos) % word)
      × IsHistogram (record_nanos h nanos)
unfolding record_nanos
record_nanos-IsHistogram h nanos j small v =
    let (low, high, within) = top_digit-range 64 (max nanos 1) (omega arith) (omega arith) in
    let at = bucket-top nanos small in
    let inside : bucket nanos < length h.buckets = omega (arith, at, within, v.size) in
    (
      bucket nanos,
      rw at low,
      rw at high,
      get_or-set h.buckets (bucket nanos) _ j inside,
      refl,
      refl,
      record {
        size = length-set h.buckets (bucket nanos) _ ∙ v.size;
        counted = omega (
          arith,
          v.counted,
          sum-set h.buckets (bucket nanos) (fetch_add (get_or h.buckets (bucket nanos) 0) 1) inside,
        );
      },
    )
