-- ===== src/Diagnostics/Delta.antt =====
-- A delta undoes what was recorded before.
use uring.Prelude.{ℕ, ◌<◌, ◌≡◌, refl, List, [], ◌∷◌, arith, length, All}
use uring.Prelude.Word.{word, fetch_add, fetch_sub}
use uring.Diagnostics.{LatencyHistogram, merge_buckets, merge, since_buckets, since}

pub record IsWords (h : LatencyHistogram) : Type 0 where
  pub count : h.count < word
  pub total : h.total_nanos < word
  pub buckets : All (λ b. b < word) h.buckets

pub add_sub : (a b : ℕ) → a < word → b < word → fetch_sub (fetch_add a b) a ≡ b
add_sub a b ha hb = omega arith

since_merge_buckets :
    (xs ys : List ℕ)
    → length xs ≡ length ys
    → All (λ b. b < word) xs
    → All (λ b. b < word) ys
    → since_buckets (merge_buckets xs ys) xs ≡ ys
since_merge_buckets [] [] e ha hb = refl
since_merge_buckets [] (b ∷ ys) e ha hb = absurd (omega (arith, e))
since_merge_buckets (a ∷ xs) [] e ha hb = absurd (omega (arith, e))
since_merge_buckets (a ∷ xs) (b ∷ ys) e ha hb =
    cc (add_sub a b ha.0 hb.0, since_merge_buckets xs ys (omega (arith, e)) ha.1 hb.1)

-- For two histograms of 64-bit counters with as many buckets: the delta since an earlier histogram is
-- what was merged into it, even if counters wrapped around.
pub since-merge :
    (h other : LatencyHistogram)
    → IsWords h
    → IsWords other
    → length h.buckets ≡ length other.buckets
    → since (merge h other) h ≡ other
unfolding since merge
since-merge h other vh vo e = cc (
  add_sub h.count other.count vh.count vo.count,
  add_sub h.total_nanos other.total_nanos vh.total vo.total,
  since_merge_buckets h.buckets other.buckets e vh.buckets vo.buckets,
)
