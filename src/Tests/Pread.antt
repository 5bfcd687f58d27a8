-- ===== src/Tests/Pread.antt =====
-- The pattern of the benchmark's file, its creation, and its offsets.
use uring.Prelude.{
  ◌*◌, ◌+◌, length, ℕ, zero, suc, ◌<◌, true, inl, inr, ◌≡◌, refl, none, some, List, [], ◌∷◌, arith,
  length, take, drop,
}
use uring.Sys.{IoResult, ok, err, os}
use uring.Pread.{
  Config, Checked, Stat, Left, splitmix64, expected_word, verify_from, verify_range, create_file,
  ensure_file, validate, offsets, offsets_from, div_ceil, task_offsets,
}
use uring.Pread.Created.{success, IsEnsured, ensure_file-IsEnsured, create_file-verify_range}
use uring.Pread.Content.{content}
use uring.Pread.Run.{TaskResult, task, join_tasks}
use uring.Pread.Reads.{Joined, IsRead, run-IsRead}
use uring.Pread.Offsets.{tasks}

-- The first output of splitmix64 for the seed 0.
known_word : splitmix64 0 ≡ 16294208416658607535
unfolding splitmix64
known_word = refl

wrong_byte : verify_range 1 (0 ∷ []) ≡ Checked.mismatch 1 0 205
unfolding verify_from expected_word splitmix64
wrong_byte = refl

create_file-verify_range_example :
    (bytes : List ℕ) × (create_file success 20 (success ∷ []) success ≡ some (ok bytes))
    × (length bytes ≡ 20)
    × (verify_range 3 (take 12 (drop 3 bytes)) ≡ Checked.matches)
create_file-verify_range_example =
    create_file-verify_range 20 1 3 12 (omega arith) (omega arith) (omega arith)

-- A disk that is full when the file is synced.
ensure_file-IsEnsured_example :
    (out : IoResult (Unit {0}) × Left) × (ensure_file Stat.not_found success 20
        (success ∷ [])
        (err (os 28))
      ≡ some out)
    × IsEnsured 20 Stat.not_found out
ensure_file-IsEnsured_example =
    ensure_file-IsEnsured Stat.not_found success 20 (success ∷ []) (err (os 28)) (omega arith)

abbrev small : Config
small = record { file_size = 16384; read_size = 4; concurrency = 2; total_ops = 3; shards = 1 }

small_valid : validate small ≡ none
unfolding validate
small_valid = refl

three_offsets : length (offsets small 3) ≡ 3
unfolding offsets_from
three_offsets = refl

-- Reads that return what the file holds, in as many units of time as their task and their place say.
abbrev file_reads : ℕ → ℕ → ℕ → IoResult (List ℕ) × ℕ
file_reads t n off = (ok (content off 4), 5 * t + n)

joined : (t : ℕ) → t < 2 → Joined file_reads small t (1 ∷ 0 ∷ [])
joined zero below = inr (inl refl)
joined (suc zero) below = inl refl
joined (suc (suc t)) below = absurd (omega (arith, below))

run_succeeds :
    join_tasks small true file_reads (offsets small 3) (1 ∷ 0 ∷ [])
    ≡ TaskResult.latencies (5 ∷ 0 ∷ 1 ∷ [])
unfolding join_tasks task offsets_from verify_from expected_word splitmix64
run_succeeds = refl

run-IsRead_example :
    IsRead file_reads small 1 0
      (task_offsets (div_ceil (length (offsets small 3)) 2) (offsets small 3) 1)
    × (tasks (div_ceil (length (offsets small 3)) 2) (offsets small 3) 2 ≡ offsets small 3)
run-IsRead_example =
    run-IsRead file_reads small 3 (1 ∷ 0 ∷ []) (5 ∷ 0 ∷ 1 ∷ []) 1 small_valid joined run_succeeds
      (omega arith)
