-- ===== src/Admission/Select.antt =====
-- Admission takes what it grants, and nothing else.
use uring.Prelude.{
  none-some, ℕ, zero, suc, ◌+◌, ◌≡◌, refl, ap, subst, ◌⊎◌, inl, inr, Bool, not, Option, none, some,
  List, [], ◌∷◌, arith, length, get_elem?, set, length-set, Bool-cases, if-cases, Option-cases,
}
use uring.Admission.{
  Acquired, acquired, no_permits, closed, Semaphore, Laws, Tried, granted, full, shut, Semaphores,
  bytes_closed, try_bytes, settle, on_shard, try_read_permits, or_else, none_free, scan,
  select_read_shard, >>=-some,
}

-- What an answer holds of the count permits, and of the bytes.
abbrev pub counts_held : Tried → ℕ
counts_held (granted p) = 1
counts_held full = 0
counts_held shut = 0

-- The byte permit of a read: its charge, if there is a byte budget.
abbrev pub byte_permit {ℓ} : {S : Type ℓ} → Option S → ℕ → Option ℕ
byte_permit none charge = none
byte_permit (some b) charge = some charge

abbrev pub weight : Option ℕ → ℕ
weight none = 0
weight (some n) = n

abbrev pub bytes_held : Option ℕ → Tried → ℕ
bytes_held permit (granted p) = weight permit
bytes_held permit full = 0
bytes_held permit shut = 0

-- A grant carries the byte permit that is due.
abbrev pub Carries : Option ℕ → Tried → Type 0
Carries permit (granted p) = p.bytes ≡ permit
Carries permit full = Unit
Carries permit shut = Unit

module _ {S : Type 0} (sem : Semaphore S) (laws : Laws S sem) where
  -- The free permits of all shards, and of the byte budget.
  abbrev pub free_counts : List S → ℕ
  free_counts [] = 0
  free_counts (s ∷ ss) = laws.permits s + free_counts ss

  abbrev pub free_bytes : Option S → ℕ
  free_bytes none = 0
  free_bytes (some b) = laws.permits b

  -- What is free and what the answer holds, a count permit and the charge of bytes, is what was free.
  abbrev pub Balanced : ℕ → Semaphores S → Tried → Semaphores S → Type 0
  Balanced charge s answer s' =
      (free_counts s.counts ≡ free_counts s'.counts + counts_held answer)
      × (free_bytes s.bytes ≡ free_bytes s'.bytes + bytes_held (byte_permit s.bytes charge) answer)
      × Carries (byte_permit s.bytes charge) answer
      × (length s'.counts ≡ length s.counts)

  free_counts-set :
      (ss : List S) (i : ℕ) (old new : S)
      → get_elem? ss i ≡ some old
      → free_counts (set ss i new) + laws.permits old ≡ free_counts ss + laws.permits new
  free_counts-set [] i old new e = cc e
  free_counts-set (s ∷ ss) zero old new e =
      let same : s ≡ old = ground arith in omega (arith, ap laws.permits same)
  free_counts-set (s ∷ ss) (suc i) old new e = omega (arith, free_counts-set ss i old new e)

  Acquired-cases : (a : Acquired S) → ((s : S) × (a ≡ acquired s)) ⊎ (a ≡ no_permits) ⊎ (a ≡ closed)
  Acquired-cases (acquired s) = inl (s, refl)
  Acquired-cases no_permits = inr (inl refl)
  Acquired-cases closed = inr (inr refl)

  free_counts-swap :
      (ss : List S) (i : ℕ) (old new : S)
      → get_elem? ss i ≡ some old
      → laws.permits new ≡ laws.permits old
      → free_counts (set ss i new) ≡ free_counts ss
  free_counts-swap ss i old new e p = omega (arith, free_counts-set ss i old new e)

  settle-Balanced :
      (index charge : ℕ) (count count' b : S) (s : Semaphores S) (a : Acquired S)
      → get_elem? s.counts index ≡ some count
      → sem.try_acquire_many 1 count ≡ acquired count'
      → s.bytes ≡ some b
      → sem.try_acquire_many charge b ≡ a
      → Balanced charge s
          (settle sem index charge count' s a).0
          (settle sem index charge count' s a).1
  settle-Balanced index charge count count' b s (acquired b') at took eb ea = (
    omega (arith, free_counts-set s.counts index count count' at, laws.takes 1 count count' took),
    rw eb (omega (arith, laws.takes charge b b' ea)),
    rw eb refl,
    length-set s.counts index count',
  )
  settle-Balanced index charge count count' b s no_permits at took eb ea =
      let back : laws.permits (sem.release 1 count') ≡ laws.permits count =
        omega (arith, laws.takes 1 count count' took, laws.gives 1 count') in
      (
        omega (arith, free_counts-swap s.counts index count _ at back),
        omega arith,
        tt,
        length-set s.counts index _,
      )
  settle-Balanced index charge count count' b s closed at took eb ea =
      let back : laws.permits (sem.release 1 count') ≡ laws.permits count =
        omega (arith, laws.takes 1 count count' took, laws.gives 1 count') in
      (
        omega (arith, free_counts-swap s.counts index count _ at back),
        omega arith,
        tt,
        length-set s.counts index _,
      )

  try_bytes-Balanced :
      (index charge : ℕ) (count count' : S) (s : Semaphores S)
      → get_elem? s.counts index ≡ some count
      → sem.try_acquire_many 1 count ≡ acquired count'
      → Balanced charge s
          (try_bytes sem index charge count' s).0
          (try_bytes sem index charge count' s).1
  unfolding try_bytes
  try_bytes-Balanced index charge count count' s at took = elim (Option-cases s.bytes) [
    | inl n ↦
        rw (n, try_bytes)
          (
            omega (
              arith,
              free_counts-set s.counts index count count' at,
              laws.takes 1 count count' took,
            ),
            omega (arith, ap free_bytes n),
            refl,
            length-set s.counts index count',
          )
    | inr (b, e) ↦
        let a : Acquired S = sem.try_acquire_many charge b in
        let same : settle sem index charge count' s a ≡ try_bytes sem index charge count' s =
          simp (e, try_bytes) in
        subst (λ (r : Tried × Semaphores S). Balanced charge s r.0 r.1) same
          (settle-Balanced index charge count count' b s a at took e refl)
  ]

  none_free-Balanced :
      (start charge : ℕ) (waiting : Option ℕ) (s : Semaphores S)
      → Balanced charge s (none_free sem start waiting s).1 (none_free sem start waiting s).2
  unfolding none_free
  none_free-Balanced start charge waiting s = elim (Bool-cases (bytes_closed sem s.bytes)) [
    | inl down ↦ simp down (omega arith, omega arith, tt, refl)
    | inr up ↦ elim (Option-cases waiting) [
      | inl n ↦ simp (up, n) (omega arith, omega arith, tt, refl)
      | inr (i, e) ↦ simp (up, e) (omega arith, omega arith, tt, refl)
    ]
  ]

  scan-Balanced :
      (start charge : ℕ) (order : List ℕ) (waiting : Option ℕ) (s : Semaphores S)
      (r : ℕ × Tried × Semaphores S)
      → scan sem start charge order waiting s ≡ some r
      → Balanced charge s r.1 r.2
  unfolding scan
  scan-Balanced start charge [] waiting s r e =
      let same : none_free sem start waiting s ≡ r = ground arith in
      subst (λ (r : ℕ × Tried × Semaphores S). Balanced charge s r.1 r.2) same
        (none_free-Balanced start charge waiting s)
  scan-Balanced start charge (index ∷ order) waiting s r e =
      elim (Option-cases (get_elem? s.counts index)) [
        | inl n ↦ absurd (none-some r (rw (n, scan) at e))
        | inr (count, at) ↦ elim (Acquired-cases (sem.try_acquire_many 1 count)) [
          | inl (count', took) ↦
              let same : on_shard sem index (try_bytes sem index charge count' s) ≡ r =
                ground (arith, rw (at, took, scan) at e) in
              subst (λ (r : ℕ × Tried × Semaphores S). Balanced charge s r.1 r.2) same
                (try_bytes-Balanced index charge count count' s at took)
          | inr (inl busy) ↦
              scan-Balanced start charge order (or_else sem waiting index) s r
                (rw (at, busy, scan) at e)
          | inr (inr down) ↦ scan-Balanced start charge order waiting s r (rw (at, down, scan) at e)
        ]
      ]

  try_read_permits-Balanced :
      (index charge : ℕ) (s : Semaphores S) (r : Tried × Semaphores S)
      → try_read_permits sem index charge s ≡ some r
      → Balanced charge s r.0 r.1
  unfolding try_read_permits
  try_read_permits-Balanced index charge s r e = elim (Option-cases (get_elem? s.counts index)) [
    | inl n ↦ absurd (none-some r (rw (n, try_read_permits) at e))
    | inr (count, at) ↦ elim (Acquired-cases (sem.try_acquire_many 1 count)) [
      | inl (count', took) ↦
          let same : try_bytes sem index charge count' s ≡ r =
            ground (arith, rw (at, took, try_read_permits) at e) in
          subst (λ (r : Tried × Semaphores S). Balanced charge s r.0 r.1) same
            (try_bytes-Balanced index charge count count' s at took)
      | inr (inl busy) ↦
          let same : (full, s) ≡ r = ground (arith, rw (at, busy, try_read_permits) at e) in
          subst (λ (r : Tried × Semaphores S). Balanced charge s r.0 r.1) same
            (omega arith, omega arith, tt, refl)
      | inr (inr down) ↦
          let same : (shut, s) ≡ r = ground (arith, rw (at, down, try_read_permits) at e) in
          subst (λ (r : Tried × Semaphores S). Balanced charge s r.0 r.1) same
            (omega arith, omega arith, tt, refl)
    ]
  ]

  -- For semaphores that count their permits, under either policy, a grant takes one count permit in all
  -- and, if there is a byte budget, exactly the charge of it, and its byte permit is that charge; without a
  -- budget it has no byte permit. A refusal takes nothing.
  pub select_read_shard-Balanced :
      (start charge : ℕ) (aware : Bool) (s : Semaphores S) (r : ℕ × Tried × Semaphores S)
      → select_read_shard sem start charge aware s ≡ some r
      → Balanced charge s r.1 r.2
  unfolding select_read_shard
  select_read_shard-Balanced start charge aware s r e = elim (if-cases (not aware) _ _ (some r) e) [
    | inl (plain, e') ↦
        let (x, ex, same) = >>=-some (try_read_permits sem start charge s) _ r e' in
        let same' : on_shard sem start x ≡ r = ground arith in
        subst (λ (r : ℕ × Tried × Semaphores S). Balanced charge s r.1 r.2) same'
          (try_read_permits-Balanced start charge s x ex)
    | inr (scanning, e') ↦ elim (if-cases (bytes_closed sem s.bytes) _ _ (some r) e') [
      | inl (down, e2) ↦
          let same : (start, shut, s) ≡ r = ground arith in
          subst (λ (r : ℕ × Tried × Semaphores S). Balanced charge s r.1 r.2) same
            (omega arith, omega arith, tt, refl)
      | inr (up, e2) ↦ scan-Balanced start charge _ none s r e2
    ]
  ]
