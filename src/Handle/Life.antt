-- ===== src/Handle/Life.antt =====
-- What a handle does over its whole life.
use uring.Prelude.{
  ℕ, ◌≡◌, ◌⊎◌, Bool, true, false, not, if◌then◌else◌, Option, some, All, ◌&&◌, none, List, [], ◌∷◌,
  ◌++◌,
}
use uring.Sys.{IoResult}
use uring.Admission.{ReadPermits}
use uring.Driver.{Msg}
use uring.Front.{HandleState, inert, waiting_permit, submitted, ReadHandle}
use uring.Handle.{
  Poll, pending, ready, PollInput, Effect, sends, wakes, drops_permits, Polled, read_msg,
  cancel_effects, drop, life,
}
use uring.Handle.Waited.{IsWaiting}

-- Whether one of the polls finds the result.
abbrev pub found : Poll (Option (IoResult (List ℕ))) → Bool → Bool
found pending later = later
found (ready r) later = true

abbrev pub arrives : List PollInput → Bool
arrives [] = false
arrives (i ∷ is) = found i.received (arrives is)

-- The effects of a handed-over read: its cancel, if no poll has found its result, and the handle is to
-- cancel at its drop; or none.
abbrev pub Ending : ReadHandle → ℕ → List PollInput → List Effect → Type 0
Ending h shard is es = es ≡ (
    if not h.finished && h.cancel_on_drop && not (arrives is) then cancel_effects h shard else [])

-- The first poll at which the acquire future is ready is `i`, with `answer`; `after` are the later ones.
abbrev pub Acquires : List PollInput → PollInput → List PollInput → Option ReadPermits → Type 0
Acquires is i after answer =
    (before : List PollInput) × (is ≡ before ++ i ∷ after)
    × All IsWaiting before
    × (i.acquire ≡ ready answer)

-- The effects of a life, by the state that the handle starts in. One that waits for permits has none
-- while it waits, or when the semaphore is closed. With the permits, it drops them if the driver is gone,
-- and else hands the read over and wakes its shard; from that poll on the result is asked for.
abbrev pub Shape : ReadHandle → HandleState → List PollInput → List Effect → Type 0
Shape h inert is es = es ≡ []
Shape h (submitted shard) is es = Ending h shard is es
Shape h (waiting_permit w) is es =
    ((es ≡ []) × All IsWaiting is)
    ⊎ ((i : PollInput) × (after : List PollInput) × Acquires is i after none × (es ≡ []))
    ⊎ ((i : PollInput) × (after : List PollInput) × (permit : ReadPermits) × Acquires is i after
          (some permit)
        × (i.alive ≡ false)
        × (es ≡ drops_permits permit ∷ []))
    ⊎ ((i : PollInput) × (after : List PollInput) × (permit : ReadPermits) × (rest : List Effect)
        × Acquires is i after (some permit)
        × (i.alive ≡ true)
        × (es ≡ sends h.tx (Msg.read (read_msg h w permit)) ∷ wakes w.shard ∷ rest)
        × Ending h w.shard (i ∷ after) rest)

abbrev carry : List PollInput → Polled → List Effect
carry is p = p.effects ++ elim p.result [ pending ↦ life is p.handle | ready r ↦ drop p.handle ]
