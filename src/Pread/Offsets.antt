-- ===== src/Pread/Offsets.antt =====
-- The offsets lie in the file, and the tasks read each of them once, in order.
use uring.Prelude.{
  ℕ, zero, suc, ◌+◌, ◌-◌, ◌*◌, ◌/◌, ◌%◌, ◌^◌, ◌≤◌, ◌<◌, ◌≡◌, ap, ◌∙◌, inl, inr, min, none, List, [],
  ◌++◌, ltb, arith, length, take, All, take-add, take_all, Bool-cases,
}
use uring.Prelude.Word.{i64_max}
use uring.Pread.{Config, validate, offsets_from, offsets, next_state, div_ceil, task_offsets}
use native.Mathlib.Nat.{mod-lt, div-add-mod', suc-mul, mul_comm}

-- A read of a whole block that ends in the file.
abbrev pub InFile : Config → ℕ → Type 0
InFile cfg offset =
    (offset % 4096 ≡ 0)
    × (offset + cfg.read_size ≤ cfg.file_size)
    × (offset + cfg.read_size ≤ i64_max)

validate_lem :
    (cfg : Config)
    → validate cfg ≡ none
    → (cfg.read_size + 4096 ≤ cfg.file_size) × (cfg.file_size ≤ i64_max) × (0 < cfg.concurrency)
unfolding validate
validate_lem cfg h = (ground arith, ground arith, ground arith)

offsets_from-InFile :
    (cfg : Config) (ops state : ℕ)
    → cfg.read_size + 4096 ≤ cfg.file_size
    → cfg.file_size ≤ i64_max
    → All (InFile cfg) (offsets_from ((cfg.file_size - cfg.read_size) / 4096) state ops)
unfolding offsets_from
offsets_from-InFile cfg zero state room fits = tt
offsets_from-InFile cfg (suc ops) state room fits =
    let some_block : 0 < (cfg.file_size - cfg.read_size) / 4096 = omega (arith, room) in
    let block = mod-lt (next_state state / 2 ^ 33) some_block in
    (
      (omega arith, omega (arith, block, room), omega (arith, block, room, fits)),
      offsets_from-InFile cfg ops _ room fits,
    )

-- The offsets of the first `n` tasks, one after another.
abbrev pub tasks : ℕ → List ℕ → ℕ → List ℕ
tasks per_task offs zero = []
tasks per_task offs (suc n) = tasks per_task offs n ++ task_offsets per_task offs n

tasks-take :
    (per_task : ℕ) (offs : List ℕ) (n : ℕ)
    → tasks per_task offs n ≡ take (min (n * per_task) (length offs)) offs
tasks-take per_task offs zero =
    ap (λ (k : ℕ). take k offs) {x = 0} {y = min (0 * per_task) (length offs)} (omega arith)
tasks-take per_task offs (suc n) =
    let start = min (n * per_task) (length offs) in
    ap (λ (os : List ℕ). os ++ task_offsets per_task offs n) (tasks-take per_task offs n)
    ∙ take-add start (min (start + per_task) (length offs) - start) offs
    ∙ ap (λ (k : ℕ). take k offs) {x = start + (min (start + per_task) (length offs) - start)}
        {y = min (suc n * per_task) (length offs)} (omega (arith, suc-mul n per_task))

div_ceil-enough : (a b : ℕ) → 0 < b → a ≤ div_ceil a b * b
div_ceil-enough a b pos =
    let exact = div-add-mod' a b in
    let below = mod-lt a pos in
    elim (Bool-cases (ltb 0 (a % b))) [
      | inl some_left ↦ rw some_left (omega (arith, exact, below, suc-mul (a / b) b))
      | inr none_left ↦ rw none_left (ground (arith, none_left, exact))
    ]

tasks-eq :
    (cfg : Config) (offs : List ℕ)
    → 0 < cfg.concurrency
    → tasks (div_ceil (length offs) cfg.concurrency) offs cfg.concurrency ≡ offs
tasks-eq cfg offs some_task =
    let per_task = div_ceil (length offs) cfg.concurrency in
    let enough = div_ceil-enough (length offs) cfg.concurrency some_task in
    tasks-take per_task offs cfg.concurrency
    ∙ take_all (min (cfg.concurrency * per_task) (length offs)) offs
        (omega (arith, enough, mul_comm per_task cfg.concurrency))

-- For a configuration that is accepted: each offset that is drawn is a multiple of 4 KiB, and a whole
-- read from there ends in the file, below the largest signed word; and the tasks' parts of the offsets,
-- one after another, are the offsets, so that each is read once.
pub offsets-InFile :
    (cfg : Config) (ops : ℕ)
    → validate cfg ≡ none
    → All (InFile cfg) (offsets cfg ops)
      × (tasks
            (div_ceil (length (offsets cfg ops)) cfg.concurrency)
            (offsets cfg ops)
            cfg.concurrency
          ≡ offsets cfg ops)
offsets-InFile cfg ops valid =
    let (room, fits, some_task) = validate_lem cfg valid in
    (offsets_from-InFile cfg ops _ room fits, tasks-eq cfg (offsets cfg ops) some_task)
