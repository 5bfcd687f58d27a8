-- ===== src/Start/Outcome.antt =====
-- How a start ends: with all shards and their bytes reserved, or with nothing kept.
use uring.Prelude.{
  ℕ, zero, suc, ◌+◌, ◌≤◌, ◌<◌, ◌≡◌, ◌==◌, refl, ap, sym, ◌∙◌, inl, inr, Option, none, some, List,
  [], ◌∷◌, All, max, arith, Bool-cases, Option-cases, ltb, is_some_and, ◌||◌,
}
use uring.Prelude.Word.{word, fetch_add}
use uring.Sys.{IoError, ok, err, IoResult-cases}
use uring.Front.{ReadLimits}
use uring.Closing.{ByteAdmission}
use uring.Reservation.{SharedReadBudget, reserve, refund}
use uring.Reservation.Conserved.{reserve-exact}
use uring.Startup.{ProbeFailure, setup, read_op, validate_read_limits}
use uring.Start.{
  down, ShardAnswers, NewShard, start_shard, Started, started, stopped, and_then, start_from,
  start_with_limits, settle, reserve_and_start, probe_and_start_with_shared_budget,
}
use uring.Start.Shard.{Try-cases, start_shard-read_op, start_shard-up}

abbrev pub sems : List NewShard → List ℕ
sems [] = []
sems (s ∷ ss) = s.sem ∷ sems ss

-- The numbers from `i` on.
abbrev pub indexes : ℕ → ℕ → List ℕ
indexes i zero = []
indexes i (suc n) = i ∷ indexes (suc i) n

module _ (entries : ℕ) (answers : ℕ → ShardAnswers) where
  -- The shards from the `i`-th on, of which there are to be `n`.
  abbrev pub Ends : ℕ → ℕ → Started → Type 0
  Ends n i (started ss) = (sems ss ≡ indexes i n) × All (λ s. s.permits ≡ entries) ss
  Ends n i (stopped f ss) =
      (k : ℕ) × (k < n)
      × (sems ss ≡ indexes i k)
      × ((e : IoError) → f ≡ read_op e → (i + k ≡ 0) × ((answers 0).probe ≡ err e))

  Ends-cons :
      (n i : ℕ) (s : NewShard) (rest : Started)
      → s.sem ≡ i
      → s.permits ≡ entries
      → Ends n (suc i) rest
      → Ends (suc n) i (and_then s rest)
  Ends-cons n i s (started ss) at permits (in_order, all) = (cc (at, in_order), (permits, all))
  Ends-cons n i s (stopped f ss) at permits (k, below, in_order, probed) = (
    suc k,
    omega (arith, below),
    cc (at, in_order),
    λ e is. absurd (omega (arith, (probed e is).0)),
  )

  start_from-Ends :
      (n i : ℕ) (adm : Option ByteAdmission) → Ends n i (start_from entries answers n i adm).0
  unfolding start_from
  start_from-Ends zero i adm = (refl, tt)
  start_from-Ends (suc n) i adm =
      elim (Try-cases (start_shard entries i (i == 0) (answers i) adm).0) [
        | inl (s, fine) ↦
            let (at, permits) = start_shard-up entries i (i == 0) (answers i) adm s fine in
            rw (fine, start_from) (Ends-cons n i s _ at permits (start_from-Ends n (suc i) _))
        | inr (f, fails) ↦
            rw (fails, start_from)
              (
                0,
                omega arith,
                refl,
                λ e is.
                    let (first, probed) =
                      start_shard-read_op entries i (i == 0) (answers i) adm e
                        (fails ∙ ap (λ (f : ProbeFailure). down f) is) in
                    let zero' : i ≡ 0 = ground arith in
                    (omega (arith, zero'), ap (λ (j : ℕ). (answers j).probe) (sym zero') ∙ probed),
              )
      ]

  start_with_limits-Ends :
      (shards : ℕ) (l : ReadLimits)
      → Ends (max shards 1) 0 (start_with_limits entries answers shards l).0
  unfolding start_with_limits
  start_with_limits-Ends shards l = start_from-Ends (max shards 1) 0 _

some_failure : (f g : ProbeFailure) → some f ≡ some g → f ≡ g
some_failure f g h = cc h

validate-setup :
    (max_permits : ℕ) (l : ReadLimits) (f : ProbeFailure)
    → validate_read_limits max_permits l ≡ some f
    → (x : IoError) × (f ≡ setup x)
unfolding validate_read_limits
validate-setup max_permits l f h =
    elim (Bool-cases
      (is_some_and l.max_in_flight_bytes (λ bytes. bytes == 0 || ltb max_permits bytes))) [
        | inl bad ↦ (_, sym (some_failure _ f (rw bad at h)))
        | inr fine ↦ absurd (cc (rw fine at h))
      ]

-- What a start with a shared budget leaves.
abbrev pub Settled :
    (ℕ → ShardAnswers) → ℕ → ℕ → ReadLimits → SharedReadBudget → Started → SharedReadBudget → Type 0
Settled answers entries n l pool (started ss) pool' =
    (sems ss ≡ indexes 0 n)
    × All (λ s. s.permits ≡ entries) ss
    × ((bytes : ℕ) × (l.max_in_flight_bytes ≡ some bytes)
        × (pool'.available + bytes ≡ pool.available))
    × (pool'.capacity ≡ pool.capacity)
Settled answers entries n l pool (stopped f ss) pool' =
    (pool' ≡ pool)
    × ((k : ℕ) × (k < n)
        × (sems ss ≡ indexes 0 k)
        × ((e : IoError) → f ≡ read_op e → (k ≡ 0) × ((answers 0).probe ≡ err e)))

refund-reserved :
    (pool pool' : SharedReadBudget) (bytes : ℕ)
    → pool'.capacity ≡ pool.capacity
    → pool'.available + bytes ≡ pool.available
    → pool.available ≤ pool.capacity
    → pool.capacity < word
    → refund pool' bytes ≡ pool
unfolding refund
refund-reserved pool pool' bytes c t fits small =
    let back : fetch_add pool'.available bytes ≡ pool.available = omega (arith, t, fits, small) in
    cc (c, back)

module _ (answers : ℕ → ShardAnswers) (entries shards : ℕ) (l : ReadLimits)
    (pool : SharedReadBudget) where
  refused :
      (x : IoError) → Settled answers entries (max shards 1) l pool (stopped (setup x) []) pool
  refused x = (refl, (0, omega arith, refl, λ e is. absurd (cc is)))

  settle-Settled :
      (bytes : ℕ) (pool' : SharedReadBudget) (r : Started)
      → pool.available ≤ pool.capacity
      → pool.capacity < word
      → l.max_in_flight_bytes ≡ some bytes
      → reserve pool bytes ≡ ok pool'
      → Ends entries answers (max shards 1) 0 r
      → Settled answers entries
          (max shards 1)
          l
          pool
          (settle entries answers bytes pool' r).0
          (settle entries answers bytes pool' r).1
  settle-Settled bytes pool' (started ss) fits small limit e (in_order, all) =
      let (capacity, taken) = reserve-exact pool pool' bytes e in
      (in_order, all, (bytes, limit, taken), capacity)
  settle-Settled bytes pool' (stopped f ss) fits small limit e (k, below, in_order, probed) =
      let (capacity, taken) = reserve-exact pool pool' bytes e in
      (
        refund-reserved pool pool' bytes capacity taken fits small,
        (
          k,
          below,
          in_order,
          λ x is. let (first, failed) = probed x is in (omega (arith, first), failed),
        ),
      )

  reserve_and_start-Settled :
      (o : Option ℕ)
      → l.max_in_flight_bytes ≡ o
      → pool.available ≤ pool.capacity
      → pool.capacity < word
      → Settled answers entries
          (max shards 1)
          l
          pool
          (reserve_and_start entries answers shards l pool o).0
          (reserve_and_start entries answers shards l pool o).1
  reserve_and_start-Settled none limit fits small = refused _
  reserve_and_start-Settled (some bytes) limit fits small =
      elim (IoResult-cases (reserve pool bytes)) [
        | inl (pool', e) ↦
            rw (e, reserve_and_start)
              (settle-Settled bytes pool' _ fits small limit e
                (start_with_limits-Ends entries answers shards l))
        | inr (x, e) ↦ rw (e, reserve_and_start) (refused x)
      ]

-- A start with a budget from a pool of fewer than 2 ^ 64 bytes, of which no more are free than it has,
-- ends in one of two ways. All the shards have started, one for each number below the count asked for
-- (at least one), with `entries` permits each, and the driver's byte limit is taken from the pool. Or
-- there is a failure: the pool is as before, only the shards before the failing one had started, and if
-- the failure is that of a read, no shard had, and it is the first one's probe that failed.
pub start-Settled :
    (answers : ℕ → ShardAnswers) (entries max_permits shards : ℕ) (l : ReadLimits)
    (pool : SharedReadBudget)
    → pool.available ≤ pool.capacity
    → pool.capacity < word
    → Settled answers entries
        (max shards 1)
        l
        pool
        (probe_and_start_with_shared_budget entries answers max_permits shards l pool).0
        (probe_and_start_with_shared_budget entries answers max_permits shards l pool).1
unfolding probe_and_start_with_shared_budget
start-Settled answers entries max_permits shards l pool fits small =
    elim (Option-cases (validate_read_limits max_permits l)) [
      | inl fine ↦
          rw (fine, probe_and_start_with_shared_budget)
            (reserve_and_start-Settled answers entries shards l pool l.max_in_flight_bytes refl fits
              small)
      | inr (f, bad) ↦
          let (x, is) = validate-setup max_permits l f bad in
          rw (bad, probe_and_start_with_shared_budget)
            (rw is (refused answers entries shards l pool x))
    ]
