-- ===== src/Pread/Reads.antt =====
-- What a run that checks its reads has seen when it succeeds.
use uring.Prelude.{
  ℕ, zero, suc, ◌+◌, ◌<◌, ◌≤◌, ◌==◌, ◌≡◌, refl, ap, ◌∙◌, true, not, ◌⊎◌, inl, inr, none, List, [],
  ◌∷◌, length, take, drop, arith, All, if-elim,
}
use uring.Prelude.Word.{word}
use uring.Sys.{IoResult, ok, err}
use uring.Pread.{Config, Checked, verify_range, validate, offsets, div_ceil, task_offsets}
use uring.Pread.Content.{content, verify_range-content}
use uring.Pread.Offsets.{InFile, tasks, offsets-InFile}
use uring.Pread.Run.{TaskResult, with_latency, checked, check_read, task, extend, join_tasks}

module _ (P : ℕ → Type 0) where
  All-take : (n : ℕ) (xs : List ℕ) → All P xs → All P (take n xs)
  All-take zero xs h = tt
  All-take (suc n) [] h = tt
  All-take (suc n) (x ∷ xs) (here, h) = (here, All-take n xs h)

  All-drop : (n : ℕ) (xs : List ℕ) → All P xs → All P (drop n xs)
  All-drop zero xs h = h
  All-drop (suc n) [] h = tt
  All-drop (suc n) (x ∷ xs) (here, h) = All-drop n xs h

  All-map : (Q : ℕ → Type 0) (xs : List ℕ) → ((x : ℕ) → P x → Q x) → All P xs → All Q xs
  All-map Q [] f h = tt
  All-map Q (x ∷ xs) f (here, h) = (f x here, All-map Q xs f h)

Succeeds : TaskResult → Type 0
Succeeds r = (lats : List ℕ) × (r ≡ TaskResult.latencies lats)

with_latency-Succeeds :
    (elapsed : ℕ) (r : TaskResult) → Succeeds (with_latency elapsed r) → Succeeds r
unfolding Succeeds
with_latency-Succeeds elapsed (TaskResult.latencies lats) h = (lats, refl)
with_latency-Succeeds elapsed (TaskResult.fails f) (lats, h) = absurd (cc h)

checked-Succeeds :
    (v : Checked) (elapsed : ℕ) (r : TaskResult)
    → Succeeds (checked v elapsed r)
    → (v ≡ Checked.matches) × Succeeds r
unfolding Succeeds
checked-Succeeds Checked.matches elapsed r h = (refl, with_latency-Succeeds elapsed r h)
checked-Succeeds (Checked.mismatch pos got want) elapsed r (lats, h) = absurd (cc h)

extend-Succeeds : (a b : TaskResult) → Succeeds (extend a b) → Succeeds a × Succeeds b
unfolding Succeeds
extend-Succeeds (TaskResult.fails f) b (lats, h) = absurd (cc h)
extend-Succeeds (TaskResult.latencies xs) (TaskResult.latencies ys) h = ((xs, refl), (ys, refl))
extend-Succeeds (TaskResult.latencies xs) (TaskResult.fails f) (lats, h) = absurd (cc h)

module _ (reads : ℕ → ℕ → ℕ → IoResult (List ℕ) × ℕ) (cfg : Config) where
  -- The reads of the task `t`, from its `n`-th on, give what the file holds at their offsets.
  abbrev pub IsRead : ℕ → ℕ → List ℕ → Type 0
  IsRead t n [] = Unit
  IsRead t n (off ∷ rest) =
      ((reads t n off).0 ≡ ok (content off cfg.read_size)) × IsRead t (n + 1) rest

  abbrev Fits : ℕ → Type 0
  Fits off = off + cfg.read_size ≤ word

  check_read-Succeeds :
      (off : ℕ) (r : IoResult (List ℕ)) (elapsed : ℕ) (rest : TaskResult)
      → off + cfg.read_size ≤ word
      → Succeeds (check_read cfg true off r elapsed rest)
      → (r ≡ ok (content off cfg.read_size)) × Succeeds rest
  unfolding Succeeds
  check_read-Succeeds off (err e) elapsed rest fits (lats, h) = absurd (cc h)
  check_read-Succeeds off (ok bytes) elapsed rest fits s =
      if-elim {A = TaskResult}
        (λ r. Succeeds r → (ok bytes ≡ ok (content off cfg.read_size)) × Succeeds rest)
        (not (length bytes == cfg.read_size)) _ _ (λ differs h. absurd (cc (h.1)))
        (λ same h.
          let size : length bytes ≡ cfg.read_size = ground (arith, same) in
          let (matches, later) = checked-Succeeds (verify_range off bytes) elapsed rest h in
          let is = (verify_range-content off bytes (omega (arith, size, fits))).0 matches in
          (ap ok (is ∙ ap (content off) size), later))
        s

  task-IsRead :
      (t n : ℕ) (offs : List ℕ)
      → All Fits offs
      → Succeeds (task cfg true (reads t) n offs)
      → IsRead t n offs
  unfolding task
  task-IsRead t n [] fits s = tt
  task-IsRead t n (off ∷ rest) (fits, more) s =
      let r = reads t n off in
      let (is, later) =
        check_read-Succeeds off r.0 r.1 (task cfg true (reads t) (n + 1) rest) fits s in
      (is, task-IsRead t (n + 1) rest more later)

  abbrev pub Joined : ℕ → List ℕ → Type 0
  Joined t [] = ⊥
  Joined t (t' ∷ order) = (t ≡ t') ⊎ Joined t order

  join_tasks-IsRead :
      (offs order : List ℕ) (t : ℕ)
      → All Fits offs
      → Succeeds (join_tasks cfg true reads offs order)
      → Joined t order
      → IsRead t 0 (task_offsets (div_ceil (length offs) cfg.concurrency) offs t)
  unfolding join_tasks
  join_tasks-IsRead offs [] t fits s j = absurd j
  join_tasks-IsRead offs (t' ∷ order) t fits s j =
      let (now, later) = extend-Succeeds _ (join_tasks cfg true reads offs order) s in
      elim j [
        | inl same ↦
            rw same
              (task-IsRead t' 0 _ (All-take Fits _ (drop _ offs) (All-drop Fits _ offs fits)) now)
        | inr earlier ↦ join_tasks-IsRead offs order t fits later earlier
      ]

  -- For a configuration that is accepted, with the checks of `BENCH_VERIFY` and every task joined, in
  -- whatever order, and any results of the reads, those at the same offset included: when the run succeeds,
  -- every read of every task `t` has returned exactly the bytes of the file's pattern at its offset, as many
  -- as a read asks for; and the offsets of the tasks, one task after another, are all that were drawn.
  pub run-IsRead :
      (ops : ℕ) (order lats : List ℕ) (t : ℕ)
      → validate cfg ≡ none
      → ((t : ℕ) → t < cfg.concurrency → Joined t order)
      → join_tasks cfg true reads (offsets cfg ops) order ≡ TaskResult.latencies lats
      → t < cfg.concurrency
      → IsRead t 0
          (task_offsets (div_ceil (length (offsets cfg ops)) cfg.concurrency) (offsets cfg ops) t)
        × (tasks
              (div_ceil (length (offsets cfg ops)) cfg.concurrency)
              (offsets cfg ops)
              cfg.concurrency
            ≡ offsets cfg ops)
  unfolding Succeeds
  run-IsRead ops order lats t valid joined h below =
      let (there, once) = offsets-InFile cfg ops valid in
      let fits : All Fits (offsets cfg ops) =
        All-map (InFile cfg) Fits (offsets cfg ops)
          (λ off in_file. let below = in_file.2 in omega (arith, below)) there in
      (join_tasks-IsRead (offsets cfg ops) order t fits (lats, h) (joined t below), once)
