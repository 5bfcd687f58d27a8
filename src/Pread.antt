-- ===== src/Pread.antt =====
-- examples/concurrent_pread_bench/linux.rs: the content of the file it reads, the choice of its offsets,
-- their division among tasks, and the checks before and after; Run has the reads themselves.
pub mod Content
pub mod Fill
pub mod Created
pub mod Offsets
pub mod Run
pub mod Reads
use uring.Prelude.{
  ℕ, zero, suc, ◌+◌, ◌-◌, ◌*◌, ◌/◌, ◌%◌, ◌^◌, min, ◌==◌, Bool, true, false, not, ◌&&◌, ◌||◌, Option,
  none, some, List, [], ◌∷◌, ◌++◌, ltb, leb, if◌then◌else◌, length, take, drop, String,
}
use uring.Prelude.Word.{word, i64_max, u64_max, fetch_add}
use uring.Sys.{IoResult, ok, err, IoError, custom, other}
use Prim.Native.Nat.{bit_xor}

unfoldable pub splitmix64 : ℕ → ℕ
splitmix64 seed =
    let z = fetch_add seed 11400714819323198485 in
    let z' = bit_xor z (z / 2 ^ 30) * 13787848793156543929 % word in
    let z'' = bit_xor z' (z' / 2 ^ 27) * 10723151780598845931 % word in bit_xor z'' (z'' / 2 ^ 31)

-- A word of eight bytes, by the index of the byte.
unfoldable pub expected_word : ℕ → ℕ → ℕ
expected_word idx k = splitmix64 idx / 256 ^ k % 256

pub data Checked : Type 0 where
  matches : Checked
  mismatch : ℕ → ℕ → ℕ → Checked

-- The loop of `verify_range` at the byte `i`, with the word that it keeps and its index.
unfoldable pub verify_from : ℕ → ℕ → ℕ → (ℕ → ℕ) → List ℕ → Checked
verify_from offset i cached_idx kept [] = Checked.matches
verify_from offset i cached_idx kept (got ∷ rest) =
    let pos = offset + i in
    let idx = pos / 8 in
    let word' = if idx == cached_idx then kept else expected_word idx in
    let want = word' (pos % 8) in
    let later = verify_from offset (i + 1) idx word' rest in
    if not (got == want) then Checked.mismatch pos got want else later

abbrev pub verify_range : ℕ → List ℕ → Checked
verify_range offset data' = verify_from offset 0 u64_max (λ k. 0) data'

abbrev pub word_bytes : (ℕ → ℕ) → List ℕ
word_bytes w = w 0 ∷ w 1 ∷ w 2 ∷ w 3 ∷ w 4 ∷ w 5 ∷ w 6 ∷ w 7 ∷ []

-- A buffer of `n` words.
unfoldable pub fill_words : ℕ → ℕ → List ℕ
fill_words base zero = []
fill_words base (suc n) = word_bytes (expected_word base) ++ fill_words (base + 1) n

-- The loop of `create_file` over the answers of `write_all`, with what it has written; `none` is a loop
-- that waits for another answer.
module _ (words size : ℕ) where
  unfoldable pub write_loop : List (IoResult (Unit {0})) → List ℕ → Option (IoResult (List ℕ))
  write_loop [] bytes = if leb size (length bytes) then some (ok bytes) else none
  write_loop (ok u ∷ rest) bytes =
      let written = length bytes in
      let n = min (size - written) (words * 8) in
      let later = write_loop rest (bytes ++ take n (fill_words (written / 8) words)) in
      if leb size written then some (ok bytes) else later
  write_loop (err e ∷ rest) bytes =
      if leb size (length bytes) then some (ok bytes) else some (err e)

abbrev pub buffer_words : ℕ
buffer_words = 131072

abbrev pub synced_file :
    IoResult (Unit {0}) → Option (IoResult (List ℕ)) → Option (IoResult (List ℕ))
synced_file synced none = none
synced_file synced (some (err e)) = some (err e)
synced_file (ok u) (some (ok bytes)) = some (ok bytes)
synced_file (err e) (some (ok bytes)) = some (err e)

-- `create_file`, for the answers of `open`, `write_all` and `sync_all`, with the bytes of the file.
abbrev pub create_file :
    IoResult (Unit {0})
    → ℕ
    → List (IoResult (Unit {0}))
    → IoResult (Unit {0})
    → Option (IoResult (List ℕ))
create_file (err e) size answers synced = some (err e)
create_file (ok u) size answers synced =
    synced_file synced (write_loop buffer_words size answers [])

pub data Stat : Type 0 where
  special : Stat
  regular : ℕ → Stat
  not_found : Stat
  failed : IoError → Stat

pub data Left : Type 0 where
  untouched : Left
  created : List ℕ → Left
  removed : Left

abbrev pub or_remove : Option (IoResult (List ℕ)) → Option (IoResult (Unit {0}) × Left)
or_remove none = none
or_remove (some (ok bytes)) = some (ok tt, Left.created bytes)
or_remove (some (err e)) = some (err e, Left.removed)

-- `ensure_file`: its result, and what it did to the path.
abbrev pub ensure_file :
    Stat
    → IoResult (Unit {0})
    → ℕ
    → List (IoResult (Unit {0}))
    → IoResult (Unit {0})
    → Option (IoResult (Unit {0}) × Left)
ensure_file Stat.special opened size answers synced =
    some (err (custom other "not a regular file"), Left.untouched)
ensure_file (Stat.regular len) opened size answers synced =
    if not (len == size)
    then some (err (custom other "refusing to truncate"), Left.untouched)
    else some (ok tt, Left.untouched)
ensure_file Stat.not_found opened size answers synced =
    or_remove (create_file opened size answers synced)
ensure_file (Stat.failed e) opened size answers synced = some (err e, Left.untouched)

-- The settings that the checks and the offsets use.
pub record Config : Type 0 where
  pub file_size : ℕ
  pub read_size : ℕ
  pub concurrency : ℕ
  pub total_ops : ℕ
  pub shards : ℕ

abbrev max_concurrency : ℕ
max_concurrency = 4096

abbrev max_read_size : ℕ
max_read_size = 1073741824

pub data Invalid : Type 0 where
  bad_read_size bad_file_size file_too_short bad_concurrency no_ops bad_shards : Invalid

unfoldable pub validate : Config → Option Invalid
validate cfg =
    if cfg.read_size == 0 || ltb max_read_size cfg.read_size
    then some Invalid.bad_read_size
    else if ltb i64_max cfg.file_size
    then some Invalid.bad_file_size
    else if ltb cfg.file_size (fetch_add cfg.read_size 4096)
    then some Invalid.file_too_short
    else if cfg.concurrency == 0 || ltb max_concurrency cfg.concurrency
    then some Invalid.bad_concurrency
    else if cfg.total_ops == 0
    then some Invalid.no_ops
    else if cfg.shards == 0 || ltb 64 cfg.shards
    then some Invalid.bad_shards
    else none

abbrev pub next_state : ℕ → ℕ
next_state state = (state * 6364136223846793005 % word + 1442695040888963407) % word

unfoldable pub offsets_from : ℕ → ℕ → ℕ → List ℕ
offsets_from blocks state zero = []
offsets_from blocks state (suc ops) =
    let state' = next_state state in
    (state' / 2 ^ 33) % blocks * 4096 ∷ offsets_from blocks state' ops

abbrev pub offsets : Config → ℕ → List ℕ
offsets cfg ops = offsets_from ((cfg.file_size - cfg.read_size) / 4096) 2685821657736338717 ops

-- `usize::div_ceil`.
abbrev pub div_ceil : ℕ → ℕ → ℕ
div_ceil a b = if ltb 0 (a % b) then a / b + 1 else a / b

-- The offsets of the task `t`.
abbrev pub task_offsets : ℕ → List ℕ → ℕ → List ℕ
task_offsets per_task offs t =
    let start_idx = min (t * per_task) (length offs) in
    let end_idx = min (start_idx + per_task) (length offs) in
    take (end_idx - start_idx) (drop start_idx offs)
