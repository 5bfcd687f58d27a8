-- ===== src/Start.antt =====
-- src/driver.rs: the start of a driver, `probe_and_start_with_limits` and its variants, shard by shard,
-- and the reservation of its byte budget. What the ring, the descriptors and the thread's creation
-- answer is an argument, for each shard by its index, which also names its count semaphore.
pub mod Shard
pub mod Outcome
use uring.Prelude.{
  ℕ, zero, suc, Bool, true, false, Option, none, some, List, [], ◌∷◌, max, if◌then◌else◌, ◌==◌,
}
use uring.Sys.{IoError, os, custom, invalid_input, IoResult, ok, err, enosys}
use uring.Front.{ReadLimits}
use uring.Closing.{ByteAdmission, register}
use uring.Closing
use uring.Reservation.{SharedReadBudget, reserve, refund}
use uring.Startup.{ProbeFailure, setup, read_op, validate_read_limits}

pub data Try {ℓ} (A : Type ℓ) : Type ℓ where
  up : A → Try A
  down : ProbeFailure → Try A

infixl 5 ◌>>=◌ ◌>>◌
abbrev pub ◌>>=◌ {ℓ κ} : {A : Type ℓ} {B : Type κ} → Try A → (A → Try B) → Try B
up a >>= f = f a
down e >>= f = down e

abbrev pub ◌>>◌ {ℓ} : {B : Type ℓ} → Try (Unit {0}) → Try B → Try B
m >> k = m >>= λ _. k

-- `map_err`.
abbrev pub or_fail : (IoError → ProbeFailure) → IoResult (Unit {0}) → Try (Unit {0})
or_fail f (ok u) = up u
or_fail f (err e) = down (f e)

abbrev pub when : Bool → Try (Unit {0}) → Try (Unit {0})
when true m = m
when false m = up tt

pub record ShardAnswers : Type 0 where
  pub ring : IoResult (Unit {0})
  pub nodrop : Bool
  pub probe : IoResult (Unit {0})
  pub cq_efd : IoResult (Unit {0})
  pub registered : IoResult (Unit {0})
  pub wake_efd : IoResult (Unit {0})
  pub spawned : IoResult (Unit {0})

-- What a started shard has of its own: the semaphore's name and its permits.
pub record NewShard : Type 0 where
  pub sem : ℕ
  pub permits : ℕ

-- The steps before the semaphore is made.
unfoldable pub open_ring : ShardAnswers → Bool → Try (Unit {0})
open_ring a probe = do
  or_fail setup a.ring
  if a.nodrop then up tt else down (setup (os enosys))
  when probe (or_fail read_op a.probe)
  or_fail setup a.cq_efd
  or_fail setup a.registered
  or_fail setup a.wake_efd

abbrev pub register_with : Option ByteAdmission → ℕ → Option ByteAdmission
register_with none sem = none
register_with (some a) sem = some (register a sem)

unfoldable pub start_shard :
    ℕ → ℕ → Bool → ShardAnswers → Option ByteAdmission → Try NewShard × Option ByteAdmission
start_shard entries i probe a adm = elim (open_ring a probe) [
  | down f ↦ (down f, adm)
  | up u ↦
      (or_fail setup a.spawned >> up (record { sem = i; permits = entries }), register_with adm i)
]

-- The shards that are started, or the failure and the shards that are dropped, and joined, for it.
pub data Started : Type 0 where
  started : List NewShard → Started
  stopped : ProbeFailure → List NewShard → Started

abbrev pub and_then : NewShard → Started → Started
and_then s (started rest) = started (s ∷ rest)
and_then s (stopped f rest) = stopped f (s ∷ rest)

module _ (entries : ℕ) (answers : ℕ → ShardAnswers) where
  -- `n` shards from the `i`-th on; only the first one of all is probed.
  unfoldable pub start_from : ℕ → ℕ → Option ByteAdmission → Started × Option ByteAdmission
  start_from zero i adm = (started [], adm)
  start_from (suc n) i adm =
      let (r, adm') = start_shard entries i (i == 0) (answers i) adm in
      elim r [
        | down f ↦ (stopped f [], adm')
        | up s ↦ let (rest, adm'') = start_from n (suc i) adm' in (and_then s rest, adm'')
      ]

  -- The semaphore of the bytes is named after the shards'.
  abbrev pub byte_admission : ℕ → ReadLimits → Option ByteAdmission
  byte_admission shards l = elim l.max_in_flight_bytes [
    | none ↦ none
    | some bytes ↦ some (Closing.new (max shards 1))
  ]

  unfoldable pub start_with_limits : ℕ → ReadLimits → Started × Option ByteAdmission
  start_with_limits shards l = start_from (max shards 1) 0 (byte_admission shards l)

  abbrev pub or_start :
      Option ProbeFailure → Started × Option ByteAdmission → Started × Option ByteAdmission
  or_start none s = s
  or_start (some f) s = (stopped f [], none)

  -- `max_permits` is tokio's `Semaphore::MAX_PERMITS`.
  unfoldable pub probe_and_start_with_limits : ℕ → ℕ → ReadLimits → Started × Option ByteAdmission
  probe_and_start_with_limits max_permits shards l =
      or_start (validate_read_limits max_permits l) (start_with_limits shards l)

  unfoldable pub probe_and_start_sharded : ℕ → ℕ → Started × Option ByteAdmission
  probe_and_start_sharded max_permits shards =
      probe_and_start_with_limits max_permits shards
        (record { max_read_len = none; max_in_flight_bytes = none })

  unfoldable pub probe_and_start : ℕ → Started × Option ByteAdmission
  probe_and_start max_permits = probe_and_start_sharded max_permits 1

  -- The receipt's last owner goes with a driver that does not start.
  abbrev pub settle : ℕ → SharedReadBudget → Started → Started × SharedReadBudget
  settle bytes pool (started ss) = (started ss, pool)
  settle bytes pool (stopped f ss) = (stopped f ss, refund pool bytes)

  abbrev pub reserve_and_start :
      ℕ → ReadLimits → SharedReadBudget → Option ℕ → Started × SharedReadBudget
  reserve_and_start shards l pool none = (
    stopped
        (setup (custom invalid_input "shared read budget requires an explicit local byte limit"))
        [],
    pool,
  )
  reserve_and_start shards l pool (some bytes) = elim (reserve pool bytes) [
    | err e ↦ (stopped (setup e) [], pool)
    | ok pool' ↦ settle bytes pool' (start_with_limits shards l).0
  ]

  unfoldable pub probe_and_start_with_shared_budget :
      ℕ → ℕ → ReadLimits → SharedReadBudget → Started × SharedReadBudget
  probe_and_start_with_shared_budget max_permits shards l pool =
      elim (validate_read_limits max_permits l) [
        | some f ↦ (stopped f [], pool)
        | none ↦ reserve_and_start shards l pool l.max_in_flight_bytes
      ]
