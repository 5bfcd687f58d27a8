-- ===== src/Admission.antt =====
-- src/driver.rs: admission of a read: the permits it holds, `try_read_permits` and
-- `select_read_shard`.
-- tokio's semaphore is an argument, `Semaphore`: what the driver calls of it. `Laws` is what its
-- documentation promises.
pub mod Select
pub mod Rotation
pub mod First
use uring.Prelude.{
  ℕ, zero, suc, ◌+◌, ◌-◌, ◌≡◌, refl, Bool, true, false, not, Option, none, some, List, [], ◌∷◌,
  ◌++◌, length, get_elem?, set, if◌then◌else◌, is_some_and,
}

-- The count permit names its shard's semaphore, the byte permit the bytes that it takes, and the
-- reservation the receipt that it keeps alive.
pub record ReadPermits : Type 0 where
  pub count : ℕ
  pub bytes : Option ℕ
  pub shared_reservation : Option ℕ

pub data Acquired (S : Type 0) : Type 0 where
  acquired : S → Acquired S
  no_permits closed : Acquired S

-- `try_acquire_many_owned`, `is_closed`, `close`, and the drop of a permit.
pub record Semaphore (S : Type 0) : Type 0 where
  pub try_acquire_many : ℕ → S → Acquired S
  pub is_closed : S → Bool
  pub close : S → S
  pub release : ℕ → S → S

pub record Laws (S : Type 0) (sem : Semaphore S) : Type 0 where
  pub permits : S → ℕ
  pub takes :
      (n : ℕ) (s s' : S) → sem.try_acquire_many n s ≡ acquired s' → permits s ≡ permits s' + n
  pub gives : (n : ℕ) (s : S) → permits (sem.release n s) ≡ permits s + n
  pub closes : (s : S) → sem.is_closed (sem.close s) ≡ true
  pub refuses : (n : ℕ) (s : S) → sem.is_closed s ≡ true → sem.try_acquire_many n s ≡ closed

-- The answer of an attempt: the permits, or tokio's `TryAcquireError`.
pub data Tried : Type 0 where
  granted : ReadPermits → Tried
  full shut : Tried

-- The semaphores of a driver: one for each shard, and that of the byte budget, if there is one.
pub record Semaphores (S : Type 0) : Type 0 where
  pub counts : List S
  pub bytes : Option S

pub data ShardPolicy : Type 0 where
  round_robin capacity_aware : ShardPolicy

infixl 5 ◌>>=◌
abbrev pub ◌>>=◌ {ℓ κ} : {A : Type ℓ} {B : Type κ} → Option A → (A → Option B) → Option B
none >>= f = none
some a >>= f = f a

pub >>=-some {ℓ κ} :
    {A : Type ℓ} {B : Type κ} (o : Option A) (f : A → Option B) (b : B)
    → o >>= f ≡ some b
    → (a : A) × (o ≡ some a) × (f a ≡ some b)
>>=-some none f b e = cc e
>>=-some (some a) f b e = (a, refl, e)

-- The shards' indices from `start` on, and around.
abbrev pub range : ℕ → ℕ → List ℕ
range start zero = []
range start (suc n) = start ∷ range (suc start) n

abbrev pub rotation : ℕ → ℕ → List ℕ
rotation start shards = range start (shards - start) ++ range 0 start

module _ {S : Type 0} (sem : Semaphore S) where
  abbrev pub bytes_closed : Option S → Bool
  bytes_closed bytes = is_some_and bytes sem.is_closed

  -- What the attempt at the byte permit leads to; a byte error drops the count permit.
  abbrev pub settle : ℕ → ℕ → S → Semaphores S → Acquired S → Tried × Semaphores S
  settle index charge count s (acquired b) = (
    granted (record { count = index; bytes = some charge; shared_reservation = none }),
    record s { counts = set s.counts index count; bytes = some b },
  )
  settle index charge count s no_permits =
      (full, record s { counts = set s.counts index (sem.release 1 count) })
  settle index charge count s closed =
      (shut, record s { counts = set s.counts index (sem.release 1 count) })

  abbrev release_at : ℕ → List S → List S
  release_at i [] = []
  release_at zero (c ∷ cs) = sem.release 1 c ∷ cs
  release_at (suc i) (c ∷ cs) = c ∷ release_at i cs

  abbrev release_bytes : Option ℕ → Option S → Option S
  release_bytes none b = b
  release_bytes (some n) none = none
  release_bytes (some n) (some b) = some (sem.release n b)

  -- The drop of a read's permits.
  unfoldable pub drop_permits : ReadPermits → Semaphores S → Semaphores S
  drop_permits p s = record {
    counts = release_at p.count s.counts;
    bytes = release_bytes p.bytes s.bytes;
  }

  -- The byte permit, once the count permit of shard `index` is held.
  unfoldable pub try_bytes : ℕ → ℕ → S → Semaphores S → Tried × Semaphores S
  try_bytes index charge count s = elim s.bytes [
    | none ↦ (
      granted (record { count = index; bytes = none; shared_reservation = none }),
      record s { counts = set s.counts index count },
    )
    | some b ↦ settle index charge count s (sem.try_acquire_many charge b)
  ]

  -- `none` for an index out of bounds, which panics.
  unfoldable pub try_read_permits : ℕ → ℕ → Semaphores S → Option (Tried × Semaphores S)
  try_read_permits index charge s = do
    count ← get_elem? s.counts index
    some (elim (sem.try_acquire_many 1 count) [
      | acquired count' ↦ try_bytes index charge count' s
      | no_permits ↦ (full, s)
      | closed ↦ (shut, s)
    ])

  abbrev pub or_else : Option ℕ → ℕ → Option ℕ
  or_else none index = some index
  or_else (some w) index = some w

  abbrev pub on_shard : ℕ → Tried × Semaphores S → ℕ × Tried × Semaphores S
  on_shard index (answer, s) = (index, answer, s)

  -- No shard had a count permit.
  unfoldable pub none_free : ℕ → Option ℕ → Semaphores S → ℕ × Tried × Semaphores S
  none_free start waiting s =
      if bytes_closed s.bytes
      then (start, shut, s)
      else elim waiting [ none ↦ (start, shut, s) | some index ↦ (index, full, s) ]

  -- One attempt at every shard in turn; `waiting` is the first healthy one that was full.
  unfoldable pub scan : ℕ → ℕ → List ℕ → Option ℕ → Semaphores S → Option (ℕ × Tried × Semaphores S)
  scan start charge [] waiting s = some (none_free start waiting s)
  scan start charge (index ∷ rest) waiting s = do
    count ← get_elem? s.counts index
    elim (sem.try_acquire_many 1 count) [
      | acquired count' ↦ some (on_shard index (try_bytes index charge count' s))
      | no_permits ↦ scan start charge rest (or_else waiting index) s
      | closed ↦ scan start charge rest waiting s
    ]

  unfoldable pub select_read_shard : ℕ → ℕ → Bool → Semaphores S → Option (ℕ × Tried × Semaphores S)
  select_read_shard start charge aware s =
      if not aware
      then (do r ← try_read_permits start charge s; some (on_shard start r))
      else if bytes_closed s.bytes
      then some (start, shut, s)
      else scan start charge (rotation start (length s.counts)) none s
