-- ===== src/Admission/First.antt =====
-- The shard that the capacity-aware policy takes.
use uring.Prelude.{
  ℕ, ◌≡◌, refl, ◌⊎◌, inl, inr, true, false, Option, none, some, List, [], ◌∷◌, ◌++◌, length,
  get_elem?, set, zero, suc, ◌<◌, arith, All,
}
use uring.Admission.{
  acquired, no_permits, closed, Semaphore, Semaphores, bytes_closed, try_bytes, or_else, on_shard,
  scan, select_read_shard, Tried, granted, full, shut, Acquired, settle,
}
use uring.Admission.Rotation.{distance, rotation-split}

module _ {S : Type 0} (sem : Semaphore S) where
  -- A shard without a count permit to give: full or closed.
  abbrev pub Refuses : Semaphores S → ℕ → Type 0
  Refuses s j =
      (c : S) × (get_elem? s.counts j ≡ some c)
      × ((sem.try_acquire_many 1 c ≡ no_permits) ⊎ (sem.try_acquire_many 1 c ≡ closed))

  scan-first :
      (start charge i : ℕ) (before after : List ℕ) (waiting : Option ℕ) (s : Semaphores S)
      (c c' : S)
      → All (Refuses s) before
      → get_elem? s.counts i ≡ some c
      → sem.try_acquire_many 1 c ≡ acquired c'
      → scan sem start charge (before ++ i ∷ after) waiting s
        ≡ some (on_shard sem i (try_bytes sem i charge c' s))
  unfolding scan
  scan-first start charge i [] after waiting s c c' refuse at took = simp (at, took) refl
  scan-first start charge i (j ∷ before) after waiting s c c' ((cj, at_j, inl full_j), more) at
        took =
      simp (at_j, full_j)
        (scan-first start charge i before after (or_else sem waiting j) s c c' more at took)
  scan-first start charge i (j ∷ before) after waiting s c c' ((cj, at_j, inr closed_j), more) at
        took =
      simp (at_j, closed_j) (scan-first start charge i before after waiting s c c' more at took)

  elem-lt : (xs : List S) (i : ℕ) (c : S) → get_elem? xs i ≡ some c → i < length xs
  elem-lt [] i c h = cc h
  elem-lt (x ∷ xs) zero c h = omega arith
  elem-lt (x ∷ xs) (suc i) c h = omega (arith, elem-lt xs i c h)

  -- What becomes of a read on shard `i`, whose semaphore is `c'` without the count permit: with no byte
  -- budget it is granted, and else it is what the budget answers; a refusal gives the count permit back.
  abbrev pub Placed : ℕ → ℕ → S → Semaphores S → Option S → Tried × Semaphores S → Type 0
  Placed i charge c' s none (answer, s') =
      (answer ≡ granted (record { count = i; bytes = none; shared_reservation = none }))
      × (s'.counts ≡ set s.counts i c')
      × (s'.bytes ≡ none)
  Placed i charge c' s (some b) (answer, s') =
      ((b' : S) × (sem.try_acquire_many charge b ≡ acquired b')
        × (answer ≡ granted (record { count = i; bytes = some charge; shared_reservation = none }))
        × (s'.counts ≡ set s.counts i c')
        × (s'.bytes ≡ some b'))
      ⊎ ((((sem.try_acquire_many charge b ≡ no_permits) × (answer ≡ full))
            ⊎ ((sem.try_acquire_many charge b ≡ closed) × (answer ≡ shut)))
          × (s'.counts ≡ set s.counts i (sem.release 1 c'))
          × (s'.bytes ≡ some b))

  settle-Placed :
      (i charge : ℕ) (c' b : S) (s : Semaphores S) (a : Acquired S)
      → s.bytes ≡ some b
      → sem.try_acquire_many charge b ≡ a
      → Placed i charge c' s (some b) (settle sem i charge c' s a)
  settle-Placed i charge c' b s (acquired b') e h = inl (b', h, refl, refl, refl)
  settle-Placed i charge c' b s no_permits e h = inr (inl (h, refl), refl, e)
  settle-Placed i charge c' b s closed e h = inr (inr (h, refl), refl, e)

  try_bytes-Placed :
      (i charge : ℕ) (c' : S) (s : Semaphores S)
      → Placed i charge c' s s.bytes (try_bytes sem i charge c' s)
  unfolding try_bytes
  try_bytes-Placed i charge c' s = by_budget s.bytes refl
    where
      by_budget :
          (o : Option S) → s.bytes ≡ o → Placed i charge c' s o (try_bytes sem i charge c' s)
      by_budget none e = rw (e, try_bytes) (refl, refl, e)
      by_budget (some b) e =
          rw (e, try_bytes) (settle-Placed i charge c' b s (sem.try_acquire_many charge b) e refl)

  -- For a cursor among the shards, and a byte budget that is open, or none: if shard `i` has a count permit
  -- to give, and every shard that is fewer steps from the cursor on, and around, is full or closed, the
  -- capacity-aware policy takes shard `i`, and there the bytes: it grants the count permit and the charge,
  -- without a budget the count permit alone, or answers as the budget does and gives the count permit back.
  pub select_read_shard-first :
      (start charge i : ℕ) (s : Semaphores S) (c c' : S)
      → start < length s.counts
      → bytes_closed sem s.bytes ≡ false
      → ((j : ℕ)
          → j < length s.counts
          → distance start (length s.counts) j < distance start (length s.counts) i
          → Refuses s j)
      → get_elem? s.counts i ≡ some c
      → sem.try_acquire_many 1 c ≡ acquired c'
      → (r : Tried × Semaphores S) × (select_read_shard sem start charge true s
          ≡ some (i, r.0, r.1))
        × Placed i charge c' s s.bytes r
  unfolding select_read_shard
  select_read_shard-first start charge i s c c' begins bytes nearer at took =
      let (before, after, order, refuse) =
        rotation-split (Refuses s) start (length s.counts) i begins (elem-lt s.counts i c at)
          nearer in
      (
        try_bytes sem i charge c' s,
        simp (bytes, order) (scan-first start charge i before after none s c c' refuse at took),
        try_bytes-Placed i charge c' s,
      )
