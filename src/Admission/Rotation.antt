-- ===== src/Admission/Rotation.antt =====
-- The order in which the capacity-aware policy tries the shards: from the cursor on, and around.
use uring.Prelude.{
  ℕ, zero, suc, ◌+◌, ◌-◌, ◌<◌, ◌≤◌, ◌≡◌, refl, ap, sym, ◌∙◌, inl, inr, List, [], ◌∷◌, ◌++◌,
  if◌then◌else◌, leb, arith, All, Bool-cases,
}
use uring.Admission.{range, rotation}
use mathlib.Core.List.{append_assoc}

-- How many steps it is from the cursor on, and around, to a shard.
abbrev pub distance : ℕ → ℕ → ℕ → ℕ
distance start shards j = if leb start j then j - start else shards - start + j

range-same : {a a' n n' : ℕ} → a ≡ a' → n ≡ n' → range a n ≡ range a' n'
range-same h k = cc

range-split : (a k m : ℕ) → range a (k + suc m) ≡ range a k ++ (a + k) ∷ range (suc (a + k)) m
range-split a zero m =
    range-same {n = 0 + suc m} {n' = suc m} refl (omega arith)
    ∙ ap (λ (x : ℕ). x ∷ range (suc x) m) {x = a} {y = a + 0} (omega arith)
range-split a (suc k) m =
    let ih = range-split (suc a) k m in
    let start : suc a + k ≡ a + suc k = omega arith in
    range-same {n = suc k + suc m} {n' = suc (k + suc m)} refl (omega arith)
    ∙ ap (λ (xs : List ℕ). a ∷ xs) ih
    ∙ ap (λ (x : ℕ). a ∷ range (suc a) k ++ x ∷ range (suc x) m) start

module _ (P : ℕ → Type 0) where
  range-All : (a n : ℕ) → ((j : ℕ) → a ≤ j → j < a + n → P j) → All P (range a n)
  range-All a zero h = tt
  range-All a (suc n) h = (
    h a (omega arith) (omega arith),
    range-All (suc a) n (λ j low high. h j (omega (arith, low)) (omega (arith, high))),
  )

  append-All : (xs ys : List ℕ) → All P xs → All P ys → All P (xs ++ ys)
  append-All [] ys h k = k
  append-All (x ∷ xs) ys (here, h) k = (here, append-All xs ys h k)

  -- The order up to a shard, of which every shard that is nearer has `P`.
  pub rotation-split :
      (start shards i : ℕ)
      → start < shards
      → i < shards
      → ((j : ℕ) → j < shards → distance start shards j < distance start shards i → P j)
      → (before : List ℕ) × (after : List ℕ) × (rotation start shards ≡ before ++ i ∷ after)
        × All P before
  rotation-split start shards i begins inside nearer = elim (Bool-cases (leb start i)) [
    | inl from ↦
        let low : start ≤ i = ground (arith, from) in
        let here : start + (i - start) ≡ i = omega (arith, low) in
        (
          range start (i - start),
          range (suc i) (shards - i - 1) ++ range 0 start,
          ap (λ (xs : List ℕ). xs ++ range 0 start)
                (range-same refl (omega (arith, low, inside))
                  ∙ range-split start (i - start) (shards - i - 1)
                  ∙ ap (λ (x : ℕ). range start (i - start) ++ x ∷ range (suc x) (shards - i - 1))
                      here)
              ∙ append_assoc (range start (i - start)) (i ∷ range (suc i) (shards - i - 1))
                  (range 0 start),
          range-All start (i - start) (λ j above below.
              nearer j (omega (arith, below, low, inside)) (ground (arith, above, below, from))),
        )
    | inr around ↦
        let high : i < start = ground (arith, around) in
        (
          range start (shards - start) ++ range 0 i,
          range (suc i) (start - i - 1),
          ap (λ (xs : List ℕ). range start (shards - start) ++ xs)
                (range-same refl (omega (arith, high))
                  ∙ range-split 0 i (start - i - 1)
                  ∙ ap (λ (x : ℕ). range 0 i ++ x ∷ range (suc x) (start - i - 1)) {x = 0 + i}
                      {y = i} (omega arith))
              ∙ sym (
                  append_assoc (range start (shards - start)) (range 0 i)
                    (i ∷ range (suc i) (start - i - 1))),
          append-All (range start (shards - start)) (range 0 i)
              (range-All start (shards - start) (λ j above below.
                nearer j (omega (arith, below, begins))
                  (ground (arith, above, below, begins, around))))
              (range-All 0 i (λ j above below.
                nearer j (omega (arith, below, inside)) (ground (arith, below, high, around)))),
        )
  ]
