-- ===== src/Pending/Resubmit.antt =====
-- Every read entry that the driver builds stays inside its buffer and its file range, and a logical
-- read is submitted a bounded number of times.
use uring.Prelude.{
  ℕ, zero, suc, ◌+◌, ◌-◌, ◌*◌, ◌%◌, ◌≤◌, ◌<◌, ◌≡◌, refl, sym, ◌∙◌, subst, ◌/◌, ◌≢◌, ◌⊎◌, Bool,
  false, arith, length,
}
use native.Mathlib.Nat.{div-add-mod, mul-sub, mul-mod_right}
use uring.Prelude.Int.{ℤ, pos, negsuc}
use uring.Prelude.Word.{word, i64_max}
use uring.Geometry.{current_position, max_read_len}
use uring.Pending.{
  Pending, ReadOp, Sqe, read, read_sqe, Answers, resubmit, reap_read, max_transient_retries,
  reap_error, reap_progress, finish_direct_short_read,
}

pub record IsPending (p : Pending) : Type 0 where
  pub read_within : p.nread ≤ p.region_len
  pub buffer_holds : p.pad + p.region_len ≤ length p.buf
  pub range_within : p.head + p.want ≤ p.region_len
  pub capped : p.region_len ≤ max_read_len
  pub positioned : (p.offset ≡ current_position) ⊎ (p.offset + p.region_len ≤ i64_max)
  pub retries_capped : p.transient_retries ≤ max_transient_retries
  pub block : 0 < p.align
  pub aligned_offset : (p.align ≡ 1) ⊎ (p.offset % p.align ≡ 0)
  pub aligned_len : p.region_len % p.align ≡ 0
  pub aligned_read : p.nread % p.align ≡ 0

-- The kernel does not report more bytes than the entry asked for.
abbrev pub IsHonest : Pending → ℤ → Type 0
IsHonest p (pos n) = n ≤ p.region_len - p.nread
IsHonest p (negsuc n) = Unit {0}

-- What the entry of a read promises the kernel.
pub record IsInside (p : Pending) (op : ReadOp) : Type 0 where
  pub same_file : op.fd ≡ p.file
  pub nonempty : 0 < op.len
  pub rest : op.len ≡ p.region_len - p.nread
  pub target_inside : op.target + op.len ≤ p.pad + p.region_len
  pub signed_end : op.offset + op.len ≤ i64_max
  pub next_target : op.target ≡ p.pad + p.nread
  pub next_offset : op.offset ≡ p.offset + p.nread
  pub aligned : (op.len % p.align ≡ 0) × (p.nread % p.align ≡ 0)

-- How many more submissions a read can take: retries are counted anew after each progress.
abbrev pub submissions_left : Pending → ℕ
submissions_left p =
    (p.region_len - p.nread) * (max_transient_retries + 1)
    + (max_transient_retries - p.transient_retries)

mod_rest : (r n a : ℕ) → 0 < a → n ≤ r → r % a ≡ 0 → n % a ≡ 0 → (r - n) % a ≡ 0
mod_rest r n a h le p q =
    let i : ℕ = r / a in
    let j : ℕ = n / a in
    let er : r ≡ a * i = omega (arith, div-add-mod r a) in
    let en : n ≡ a * j = omega (arith, div-add-mod n a) in
    let diff : r - n ≡ a * (i - j) = rw (mul-sub a i j) (omega (arith, er, en)) in
    rw diff (mul-mod_right a (i - j))

mod_one : (n a : ℕ) → 0 < a → a ≤ 1 → n % a ≡ 0
mod_one n a h le = let e : a ≡ 1 = omega arith in rw e (omega arith)

read_sqe-IsInside :
    (p : Pending) (id : ℕ)
    → IsPending p
    → p.nread < p.region_len
    → p.offset ≢ current_position
    → (op : ReadOp) × (read_sqe p id ≡ read op id) × IsInside p op
unfolding read_sqe
read_sqe-IsInside p id v left ne = (
  _,
  refl,
  record {
    same_file = refl;
    nonempty = ground arith;
    rest = ground arith;
    target_inside = ground arith;
    signed_end = ground arith;
    next_target = refl;
    next_offset = ground arith;
    aligned = ground (arith, mod_rest p.region_len p.nread p.align);
  },
)

reap_error-resubmit :
    (p : Pending) (id errno : ℕ) (stop : Bool) (q : Pending) (s : Sqe)
    → reap_error p id errno stop ≡ (q, resubmit s)
    → (q ≡ record p { transient_retries = p.transient_retries + 1 })
      × (s ≡ read_sqe q id)
      × (p.nread < p.region_len)
      × (p.transient_retries < max_transient_retries)
      × (p.offset ≢ current_position)
unfolding reap_error
reap_error-resubmit p id errno stop q s e = ground arith

reap_progress-resubmit :
    (a : Answers) (p : Pending) (id : ℕ) (stop : Bool) (q : Pending) (s : Sqe)
    → reap_progress a p id stop ≡ (q, resubmit s)
    → (q ≡ p)
      × (s ≡ read_sqe q id)
      × (p.nread < p.region_len)
      × (p.nread < p.head + p.want)
      × (p.offset ≢ current_position)
      × ((p.align ≤ 1) ⊎ (p.nread % p.align ≡ 0))
      × (stop ≡ false)
unfolding reap_progress finish_direct_short_read
reap_progress-resubmit a p id stop q s e = ground arith

abbrev pub advance : Pending → ℕ → Pending
advance p n = record p { nread = (p.nread + n) % word; transient_retries = 0 }

advance-IsPending :
    (p : Pending) (n : ℕ)
    → IsPending p
    → suc n ≤ p.region_len - p.nread
    → (p.align ≤ 1) ⊎ ((p.nread + suc n) % word % p.align ≡ 0)
    → IsPending (advance p (suc n)) × (submissions_left (advance p (suc n)) < submissions_left p)
advance-IsPending p n v h al = ground (arith, mod_one ((p.nread + suc n) % word) p.align)

retry-IsPending :
    (p : Pending)
    → IsPending p
    → p.transient_retries < max_transient_retries
    → let q = record p { transient_retries = p.transient_retries + 1 } in
      IsPending q × (submissions_left q < submissions_left p)
retry-IsPending p v h = ground arith

-- The entry of an unfinished read keeps its buffer, file, range, caller and permits.
pub record Keeps (p q : Pending) : Type 0 where
  pub buf : q.buf ≡ p.buf
  pub file : q.file ≡ p.file
  pub done : q.done ≡ p.done
  pub permit : q.permit ≡ p.permit
  pub offset : q.offset ≡ p.offset
  pub head : q.head ≡ p.head
  pub want : q.want ≡ p.want

-- What a continuation of `p` is.
abbrev pub Continues : Pending → ℕ → Pending → Sqe → Type 0
Continues p id q s =
    IsPending q
    × Keeps p q
    × (submissions_left q < submissions_left p)
    × (op : ReadOp) × (s ≡ read op id)
    × IsInside q op

-- A continuation of a well-formed read, after a completion that reports no more than was asked
-- for, keeps the entry well formed, asks for exactly the rest of the region, inside the buffer
-- and the signed file range, and uses up one of finitely many submissions.
pub reap_read-resubmit :
    (a : Answers) (p : Pending) (id : ℕ) (res : ℤ) (down : Bool) (q : Pending) (s : Sqe)
    → IsPending p
    → IsHonest p res
    → reap_read a p id res down ≡ (q, resubmit s)
    → Continues p id q s
unfolding reap_read
reap_read-resubmit a p id (pos zero) down q s v h e = ground arith
reap_read-resubmit a p id (pos (suc n)) down q s v h e =
    let (eq, es, left, more, positioned, al, going) =
      reap_progress-resubmit a (advance p (suc n)) id _ q s e in
    let (v', less) = advance-IsPending p n v h al in
    let kept : Keeps p (advance p (suc n)) = ground arith in
    let (op, eop, inside) = read_sqe-IsInside (advance p (suc n)) id v' left positioned in
    subst (λ r. s ≡ read_sqe r id → Continues p id r s) (sym eq)
      (λ es'. (v', kept, less, op, es' ∙ eop, inside)) es
reap_read-resubmit a p id (negsuc n) down q s v h e =
    let (eq, es, left, more, positioned) = reap_error-resubmit p id (suc n) _ q s e in
    let (v', less) = retry-IsPending p v more in
    let kept : Keeps p (record p { transient_retries = p.transient_retries + 1 }) = ground arith in
    let (op, eop, inside) = read_sqe-IsInside _ id v' left positioned in
    subst (λ r. s ≡ read_sqe r id → Continues p id r s) (sym eq)
      (λ es'. (v', kept, less, op, es' ∙ eop, inside)) es
