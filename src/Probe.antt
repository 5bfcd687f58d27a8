-- ===== src/Probe.antt =====
-- src/driver.rs: the probe of a new ring, `probe_real_read`, and the file that it reads. The answers of
-- the syscalls are arguments; what becomes of the buffer and the file's name is part of the result.
pub mod Waits
pub mod Safety
pub mod Names
use uring.Prelude.{
  ℕ, zero, suc, ◌+◌, ◌*◌, ◌%◌, ◌==◌, Bool, true, false, not, ◌&&◌, ◌||◌, Option, none, some, List,
  [], ◌∷◌, if◌then◌else◌, length,
}
use uring.Prelude.Int.{ℤ, pos, negsuc}
use uring.Prelude.Word.{fetch_add}
use uring.Sys.{IoError, os, custom, other, IoResult, ok, err}
use uring.Startup.{ProbeWait, drain_probe_cqe}

-- The bytes `(i * 7 + 13) as u8` from the `i`-th on.
unfoldable pub pattern_from : ℕ → ℕ → List ℕ
pattern_from zero i = []
pattern_from (suc n) i = (i * 7 + 13) % 256 ∷ pattern_from n (i + 1)

unfoldable pub pattern : List ℕ
pattern = pattern_from 512 0

-- What the path, `open(2)` without and with a name, the writes and `unlink(2)` answer; a descriptor is a
-- number. `errno` is that of the failed open.
pub record FileAnswers : Type 0 where
  pub dir_has_nul : Bool
  pub tmpfile : Option ℕ
  pub tmpfile_written : IoResult (Unit {0})
  pub path_has_nul : Bool
  pub exclusive : Option ℕ
  pub errno : ℕ
  pub written : IoResult (Unit {0})
  pub unlinked : Bool

-- The result, and whether a name is left in the directory.
pub record Opened : Type 0 where
  pub result : IoResult ℕ
  pub named : Bool

abbrev pub seeded : ℕ → IoResult (Unit {0}) → Bool → Bool → Opened
seeded fd (err e) before after = record { result = err e; named = before }
seeded fd (ok u) before after = record { result = ok fd; named = after }

abbrev pub created : FileAnswers → Option ℕ → Opened
created f none = record { result = err (os f.errno); named = false }
created f (some fd) = seeded fd f.written true (not f.unlinked)

-- The counter `SEQ` gives the name its nonce.
unfoldable pub open_probe_file_exclusive : FileAnswers → ℕ → Opened × ℕ
open_probe_file_exclusive f seq = (
  if f.path_has_nul
      then record { result = err (custom other "probe path has NUL"); named = false }
      else created f f.exclusive,
  fetch_add seq 1,
)

abbrev pub anonymous : FileAnswers → ℕ → Option ℕ → Opened × ℕ
anonymous f seq (some fd) = (seeded fd f.tmpfile_written false false, seq)
anonymous f seq none = open_probe_file_exclusive f seq

unfoldable pub open_probe_file : FileAnswers → ℕ → Opened × ℕ
open_probe_file f seq =
    if f.dir_has_nul
    then (record { result = err (custom other "probe dir path has NUL"); named = false }, seq)
    else anonymous f seq f.tmpfile

-- What becomes of the buffer and of the open file when the probe returns.
pub data Fate : Type 0 where
  not_made dropped leaked : Fate

pub record Probed : Type 0 where
  pub result : IoResult (Unit {0})
  pub buf : Fate
  pub file : Fate

abbrev pub same_bytes : List ℕ → List ℕ → Bool
same_bytes [] [] = true
same_bytes [] (y ∷ ys) = false
same_bytes (x ∷ xs) [] = false
same_bytes (x ∷ xs) (y ∷ ys) = x == y && same_bytes xs ys

-- The completion's result, and the buffer as the kernel leaves it.
abbrev pub judge : ℤ → List ℕ → IoResult (Unit {0})
judge (negsuc n) buf = err (os (n + 1))
judge (pos n) buf =
    if not (n == length pattern) || not (same_bytes buf pattern)
    then err (custom other "probe: read completed but data mismatched")
    else ok tt

abbrev pub drained_to : List ℕ → IoResult ℤ → Probed
drained_to buf (err e) = record { result = err e; buf = leaked; file = leaked }
drained_to buf (ok res) = record { result = judge res buf; buf = dropped; file = dropped }

-- Whether the submission queue has room, the deadline and the returns of the wait, and the buffer when
-- the completion has come; `none` is a probe that still waits.
pub record RingAnswers : Type 0 where
  pub room : Bool
  pub deadline : ℕ
  pub waits : List ProbeWait
  pub memory : List ℕ

abbrev pub drain : RingAnswers → Option (IoResult ℤ) → Option Probed
drain r none = none
drain r (some res) = some (drained_to r.memory res)

abbrev pub probe_opened : RingAnswers → IoResult ℕ → Option Probed
probe_opened r (err e) = some (record { result = err e; buf = not_made; file = not_made })
probe_opened r (ok fd) =
    if not r.room
    then some (record {
      result = err (custom other "probe: submission queue full");
      buf = dropped;
      file = dropped;
    })
    else drain r (drain_probe_cqe r.deadline r.waits)

unfoldable pub probe_real_read : FileAnswers → ℕ → RingAnswers → Option Probed
probe_real_read f seq r = probe_opened r (open_probe_file f seq).0.result
