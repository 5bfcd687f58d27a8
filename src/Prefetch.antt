-- ===== src/Prefetch.antt =====
-- examples/ordered_prefetch/linux.rs: the program around `OrderedReader`, which compares each chunk with
-- a positioned read of its own. The command line and the opening of the file are left out; the pread
-- answers and the driver's last counters are arguments.
pub mod Reference
pub mod Chunks
pub mod Sound
pub mod Verified
use uring.Prelude.{
  ℕ, zero, suc, ◌+◌, ◌-◌, ◌%◌, ◌==◌, min, Bool, true, false, not, ◌&&◌, ◌||◌, Option, none, some,
  List, [], ◌∷◌, ◌++◌, ltb, leb, if◌then◌else◌, length, take, drop,
}
use uring.Sys.{IoResult, ok, err, IoError, custom, other, errno_is, eintr}
use uring.Driver.{DriverStats}
use uring.Closing.{add}
use uring.Ordered.{Config, Chunk, validate, Ending, running, ended, failed, Outcome}
use uring.Probe.{same_bytes}

-- The loop of `reference_read` over the answers of `read_at`, with what it has read; `none` is a loop
-- that waits for another answer.
unfoldable pub reference_read :
    List ℕ → ℕ → ℕ → List (IoResult ℕ) → List ℕ → Option (IoResult (List ℕ))
reference_read file offset len [] bytes = if leb len (length bytes) then some (ok bytes) else none
reference_read file offset len (ok count ∷ rest) bytes =
    let more =
      reference_read file offset len rest
        (bytes ++ take count (drop (offset + length bytes) file)) in
    if leb len (length bytes) || count == 0 then some (ok bytes) else more
reference_read file offset len (err e ∷ rest) bytes =
    let again = reference_read file offset len rest bytes in
    if leb len (length bytes)
    then some (ok bytes)
    else if errno_is e eintr
    then again
    else some (err e)

abbrev pub is_nil : List ℕ → Bool
is_nil [] = true
is_nil (b ∷ bs) = false

module _ (reference : ℕ → ℕ → IoResult (List ℕ)) (c : Config) (end : ℕ) where
  -- The last test: the reader has not stopped before the end of the file.
  abbrev pub at_end : ℕ → ℕ → IoResult (List ℕ) → IoResult (ℕ × ℕ)
  at_end delivered chunks (err e) = err e
  at_end delivered chunks (ok bytes) =
      if is_nil bytes
      then ok (delivered, chunks)
      else err (custom other "ordered reader terminated before reference EOF")

  abbrev pub stop : Ending → ℕ → ℕ → Option (IoResult (ℕ × ℕ))
  stop running delivered chunks = none
  stop (failed e) delivered chunks = some (err e)
  stop ended delivered chunks =
      if ltb (c.offset + delivered) end
      then some (at_end delivered chunks (reference (c.offset + delivered) 1))
      else some (ok (delivered, chunks))

  abbrev pub compare_chunk :
      Chunk → ℕ → IoResult (List ℕ) → Option (IoResult (ℕ × ℕ)) → Option (IoResult (ℕ × ℕ))
  compare_chunk chunk expected (err e) rest = some (err e)
  compare_chunk chunk expected (ok bytes) rest =
      if not (same_bytes chunk.bytes bytes)
      then some (err (custom other "byte mismatch against positioned std read"))
      else rest

  -- The loop over the chunks, with the bytes and the chunks that were delivered.
  unfoldable pub verify_chunks : List Chunk → Ending → ℕ → ℕ → Option (IoResult (ℕ × ℕ))
  verify_chunks [] ending delivered chunks = stop ending delivered chunks
  verify_chunks (chunk ∷ cs) ending delivered chunks =
      let expected = c.offset + delivered in
      let rest = verify_chunks cs ending (delivered + length chunk.bytes) (chunks + 1) in
      if not (chunk.offset == expected)
      then some (err (custom other "non-contiguous output offsets"))
      else compare_chunk chunk expected (reference expected (min (end - expected) c.chunk)) rest

abbrev pub conserved : DriverStats → ℕ × ℕ → IoResult (ℕ × ℕ)
conserved s r =
    if not (s.in_flight == 0) || not (s.submitted == add s.delivered s.orphan_reclaimed)
    then err (custom other "driver did not drain with read conservation intact")
    else ok r

abbrev pub with_stats : DriverStats → Option (IoResult (ℕ × ℕ)) → Option (IoResult (ℕ × ℕ))
with_stats s none = none
with_stats s (some (err e)) = some (err e)
with_stats s (some (ok r)) = some (conserved s r)

-- The program from the validation on, for what its reader delivers.
unfoldable pub run :
    (ℕ → ℕ → IoResult (List ℕ)) → Config → Outcome → DriverStats → Option (IoResult (ℕ × ℕ))
run reference c (cs, ending) stats = elim (validate c) [
  | err e ↦ some (err e)
  | ok end ↦ with_stats stats (verify_chunks reference c end cs ending 0 0)
]
