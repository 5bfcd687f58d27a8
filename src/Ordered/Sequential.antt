-- ===== src/Ordered/Sequential.antt =====
-- What the ordered reader is for: the chunks of a range, as one read after another gives them.
use uring.Prelude.{
  ℕ, zero, suc, ◌+◌, ◌-◌, ◌<◌, ◌≡◌, ◌≢◌, min, List, [], ◌∷◌, leb, if◌then◌else◌, arith, Bool-cases,
  inl, inr,
}
use uring.Sys.{IoResult, ok, err}
use uring.Handle.{Poll}
use uring.Ordered.{
  Config, Chunk, Source, checked_result, is_full, running, ended, failed, Outcome, and_then,
}

-- Whenever a handle of the source is ready, it has what `answer` says of its range.
pub record Serves {F S E : Type 0} (src : Source F S E) (answer : ℕ → ℕ → IoResult (List ℕ))
    : Type 1 where
  pub For : F → ℕ → ℕ → Type 0
  pub made : (s : S) (offset len : ℕ) → For (src.call s offset len).0 offset len
  pub kept :
      (e : E) (f : F) (offset len : ℕ)
      → For f offset len
      → (src.poll e f).0 ≡ Poll.pending
      → For (src.poll e f).1 offset len
  pub given :
      (e : E) (f : F) (offset len : ℕ) (result : IoResult (List ℕ))
      → For f offset len
      → (src.poll e f).0 ≡ Poll.ready result
      → result ≡ answer offset len

abbrev pub short : ℕ → List ℕ → List Chunk
short offset [] = []
short offset (b ∷ bs) = record { offset = offset; bytes = b ∷ bs } ∷ []

-- A full chunk is followed by the rest; a short one, or an error, is the last.
abbrev pub followed : ℕ → ℕ → IoResult (List ℕ) → Outcome → Outcome
followed offset len (err x) rest = ([], failed x)
followed offset len (ok bytes) rest =
    if is_full len (ok bytes)
    then and_then (record { offset = offset; bytes = bytes }) rest
    else (short offset bytes, ended)

module _ (answer : ℕ → ℕ → IoResult (List ℕ)) (end chunk : ℕ) where
  -- The reads from an offset to the end, in at most the given number of rounds.
  unfoldable pub sequential : ℕ → ℕ → Outcome
  sequential zero offset = ([], running)
  sequential (suc n) offset =
      let len = min (end - offset) chunk in
      let rest = sequential n (offset + len) in
      if leb end offset
      then ([], ended)
      else followed offset len (checked_result len (answer offset len)) rest

  followed_ends :
      (offset len : ℕ) (result : IoResult (List ℕ)) (rest : Outcome)
      → rest.1 ≢ running
      → (followed offset len result rest).1 ≢ running
  followed_ends offset len (err x) rest h = cc
  followed_ends offset len (ok bytes) rest h = ground arith

  -- With a round for each byte and one more, the reads end.
  pub sequential_ends :
      (n offset : ℕ) → 0 < chunk → end - offset < n → (sequential n offset).1 ≢ running
  unfolding sequential
  sequential_ends zero offset pos h = absurd (omega arith)
  sequential_ends (suc n) offset pos h = elim (Bool-cases (leb end offset)) [
    | inl over ↦ rw over (cc)
    | inr more ↦ rw more (
        followed_ends offset _ (checked_result _ (answer offset _)) _
          (sequential_ends n (offset + min (end - offset) chunk) pos (ground arith)))
  ]

-- The reads of a whole configuration.
abbrev pub whole_range : (ℕ → ℕ → IoResult (List ℕ)) → Config → Outcome
whole_range answer c = sequential answer (c.offset + c.length) c.chunk (suc c.length) c.offset
