-- ===== src/Tests/Callers.antt =====
-- The caller's side: admission over a concrete semaphore, one read and one batch, a handle's life, a
-- shared pool, and the end of a driver.
use uring.Prelude.{
  zero, suc, ◌<◌, ℕ, ◌+◌, ◌-◌, ◌%◌, ◌^◌, ◌≡◌, refl, Bool, true, false, none, some, [], ◌∷◌, arith,
  leb, ltb, if◌then◌else◌, is_some_and,
}
use uring.Prelude.Word.{is_power_of_two}
use uring.Sys.{ok}
use uring.Geometry.{aligned_geometry, superset}
use uring.Admission.{
  Acquired, acquired, no_permits, closed, Semaphore, Laws, Tried, granted, Semaphores,
  capacity_aware, select_read_shard, scan, try_bytes,
}
use uring.Prelude.{inl}
use uring.Admission.{try_bytes}
use uring.Admission.First.{Refuses, Placed, select_read_shard-first}
use uring.Admission.Rotation.{distance}
use uring.Admission.Select.{Balanced, select_read_shard-Balanced}
use uring.Driver.{Msg}
use uring.Driver.Intake.Entry.{IsValidRead}
use uring.Front.{
  ReadLimits, Request, within_budget, check_geometry, validate, submitted, ReadHandle, Front,
  send_read, admit, submit_checked, submit,
}
use uring.Front.Validate.{validate-IsValidRead}
use uring.Front.Submit.{Outcome, submit-Outcome}
use uring.Tests.Loop.{block_read}

-- A semaphore as its free permits and whether it is closed.
abbrev pub S : Type 0
S = ℕ × Bool

abbrev take_permits : ℕ → S → Acquired S
take_permits n (free, true) = closed
take_permits n (free, false) = if leb n free then acquired (free - n, false) else no_permits

abbrev pub tokens : Semaphore S
tokens = record {
  try_acquire_many = take_permits;
  is_closed = λ s. s.1;
  close = λ s. (s.0, true);
  release = λ n s. (s.0 + n, s.1);
}

takes : (n : ℕ) (s s' : S) → take_permits n s ≡ acquired s' → s.0 ≡ s'.0 + n
takes n (free, true) s' e = ground arith
takes n (free, false) s' e = ground arith

refuses : (n : ℕ) (s : S) → s.1 ≡ true → take_permits n s ≡ closed
refuses n (free, true) e = refl
refuses n (free, false) e = cc e

tokens-Laws : Laws S tokens
tokens-Laws = record {
  permits = λ s. s.0;
  takes = takes;
  gives = λ n s. refl;
  closes = λ s. refl;
  refuses = refuses;
}

-- Two shards, the first of which is full.
abbrev busy : Semaphores S
busy = record { counts = (0, false) ∷ (2, false) ∷ []; bytes = some (100, false) }

abbrev chosen : ℕ × Tried × Semaphores S
chosen = (
  1,
  granted (record { count = 1; bytes = some 15; shared_reservation = none }),
  record { counts = (0, false) ∷ (1, false) ∷ []; bytes = some (85, false) },
)

select-second : select_read_shard tokens 0 15 true busy ≡ some chosen
unfolding select_read_shard scan try_bytes
select-second = refl

select_read_shard-Balanced_example : Balanced tokens tokens-Laws 15 busy chosen.1 chosen.2
select_read_shard-Balanced_example =
    select_read_shard-Balanced tokens tokens-Laws 0 15 true busy chosen select-second

abbrev limits : ReadLimits
limits = record { max_read_len = none; max_in_flight_bytes = some 100 }

abbrev pub block_request : Request
block_request = record {
  file = 3;
  offset = 5;
  len = 3;
  align = 8;
  allow_current_position = false;
  notify_now = true;
}

block-validates : validate limits block_request ≡ ok 15
unfolding validate check_geometry within_budget aligned_geometry superset is_power_of_two
block-validates = refl

validate-IsValidRead_example :
    (v : IsValidRead block_read) × (15 ≡ v.geometry.region_len + 7)
    × (15 % 2 ^ 32 ≡ 15)
    × (is_some_and limits.max_in_flight_bytes (λ max. ltb max 15) ≡ false)
validate-IsValidRead_example =
    validate-IsValidRead limits block_request 15 block_read (omega arith) (λ h. cc h)
      block-validates (refl, refl, refl) (omega arith)

abbrev pub front : Front S
front = record {
  limits = limits;
  shard_policy = capacity_aware;
  semaphores = busy;
  shared_reservation = none;
  next_id = 1;
  rr = 0;
  sent = [];
  signals = [];
  replies = [];
}

abbrev pub all_alive : ℕ → Bool
all_alive shard = true

abbrev after : Front S × ReadHandle
after = (
  record front {
    semaphores = chosen.2;
    next_id = 2;
    rr = 1;
    sent =
        (
          1,
          Msg.read (record {
            id = 1;
            file = 3;
            offset = 5;
            len = 3;
            done = 1;
            permit = record { count = 1; bytes = some 15; shared_reservation = none };
            align = 8;
          }),
        )
        ∷ [];
    signals = 1 ∷ [];
  },
  record { id = 1; tx = 1; finished = false; cancel_on_drop = true; state = submitted 1 },
)

submit-after : submit tokens all_alive front block_request ≡ some after
unfolding submit submit_checked admit send_read select_read_shard scan try_bytes
submit-after = rw block-validates refl

submit-Outcome_example : Outcome tokens block_request front.sent front.replies after.0 after.1
submit-Outcome_example =
    submit-Outcome tokens all_alive front block_request after (omega arith) (omega arith)
      (λ h. cc h) submit-after

-- The cursor is at the second shard, which is full.
abbrev turned : Semaphores S
turned = record { counts = (2, false) ∷ (0, false) ∷ []; bytes = some (100, false) }

second-Refuses : (j : ℕ) → j < 2 → distance 1 2 j < distance 1 2 0 → Refuses tokens turned j
second-Refuses zero below nearer = absurd (omega (arith, nearer))
second-Refuses (suc zero) below nearer = ((0, false), refl, inl refl)
second-Refuses (suc (suc j)) below nearer = absurd (omega (arith, below))

select_read_shard-first_example :
    (r : Tried × Semaphores S) × (select_read_shard tokens 1 15 true turned ≡ some (0, r.0, r.1))
    × Placed tokens 0 15 (1, false) turned turned.bytes r
select_read_shard-first_example =
    select_read_shard-first tokens 1 15 0 turned (2, false) (1, false) (omega arith) refl
      second-Refuses refl refl
