-- ===== src/Front/Batch.antt =====
-- A batch wakes every shard that took a read of it, once.
use Prim.Native.Nat.{bit_and}
use uring.Prelude.{
  none-some, ℕ, suc, ◌%◌, ◌^◌, ◌≡◌, refl, sym, ap, subst, ◌∙◌, inl, inr, Bool, true, false, not,
  ◌||◌, ◌==◌, some, List, [], ◌∷◌, ◌++◌, arith, length, if-cases, Bool-cases, All,
}
use uring.Prelude.Word.{fetch_add}
use uring.Prelude.Map.{contains, IsUnique}
use uring.Sys.{IoResult, ok, err}
use uring.Admission.{
  ReadPermits, Semaphore, Tried, granted, full, shut, Semaphores, select_read_shard, >>=-some,
}
use uring.Driver.{cancel_bit}
use uring.Front.{
  Request, validate, HandleState, inert, waiting_permit, submitted, ReadHandle, Front, reject,
  send_read, admit, submit_checked, submit,
}
use uring.Front.Requests.{ReadRequest, positioned, queue_wake, submit_batch}

contains-snoc : (j i : ℕ) (is : List ℕ) → contains j (is ++ i ∷ []) ≡ contains j is || (i == j)
contains-snoc j i [] = ground arith
contains-snoc j i (k ∷ is) = ground (arith, contains-snoc j i is)

snoc-IsUnique :
    (i : ℕ) (is : List ℕ) → contains i is ≡ false → IsUnique is → IsUnique (is ++ i ∷ [])
snoc-IsUnique i [] h u = (refl, tt)
snoc-IsUnique i (k ∷ is) h u =
    (ground (arith, contains-snoc k i is, u.0), snoc-IsUnique i is (ground arith) u.1)

queue_wake-IsUnique :
    (s : HandleState) (wakes : List ℕ) → IsUnique wakes → IsUnique (queue_wake s wakes)
queue_wake-IsUnique inert wakes u = u
queue_wake-IsUnique (waiting_permit w) wakes u = u
queue_wake-IsUnique (submitted shard) wakes u = elim (Bool-cases (contains shard wakes)) [
  | inl old ↦ rw old u
  | inr new ↦ rw new (snoc-IsUnique shard wakes new u)
]

queue_wake-keeps :
    (s : HandleState) (wakes : List ℕ) (j : ℕ)
    → contains j wakes ≡ true
    → contains j (queue_wake s wakes) ≡ true
queue_wake-keeps inert wakes j h = h
queue_wake-keeps (waiting_permit w) wakes j h = h
queue_wake-keeps (submitted shard) wakes j h = ground (arith, contains-snoc j shard wakes)

-- The shard that has the read is among the wakes.
abbrev pub IsWoken : List ℕ → HandleState → Type 0
IsWoken wakes inert = Unit {0}
IsWoken wakes (waiting_permit w) = Unit {0}
IsWoken wakes (submitted shard) = contains shard wakes ≡ true

queue_wake-IsWoken :
    (s : HandleState) (wakes later : List ℕ)
    → ((j : ℕ) → contains j (queue_wake s wakes) ≡ true → contains j later ≡ true)
    → IsWoken later s
queue_wake-IsWoken inert wakes later keeps = tt
queue_wake-IsWoken (waiting_permit w) wakes later keeps = tt
queue_wake-IsWoken (submitted shard) wakes later keeps =
    keeps shard (ground (arith, contains-snoc shard shard wakes))

module _ {S : Type 0} (sem : Semaphore S) (alive : ℕ → Bool) where
  quiet_send :
      (f : Front S) (r : Request) (id shard : ℕ) (p : ReadPermits)
      → r.notify_now ≡ false
      → (send_read sem alive f r id shard p).0.signals ≡ f.signals
  unfolding send_read reject
  quiet_send f r id shard p q = elim (Bool-cases (alive shard)) [
    | inl up ↦ simp (up, q) refl
    | inr gone ↦ simp gone refl
  ]

  quiet_admit :
      (f : Front S) (r : Request) (id charge : ℕ) (c : ℕ × Tried × Semaphores S)
      → r.notify_now ≡ false
      → (admit sem alive f r id charge c).0.signals ≡ f.signals
  unfolding admit reject
  quiet_admit f r id charge (shard, granted p, s) q =
      quiet_send (record f { semaphores = s }) r id shard p q
  quiet_admit f r id charge (shard, full, s) q = refl
  quiet_admit f r id charge (shard, shut, s) q = refl

  quiet_checked :
      (f : Front S) (r : Request) (id start : ℕ) (v : IoResult ℕ) (x : Front S × ReadHandle)
      → r.notify_now ≡ false
      → submit_checked sem alive f r id start v ≡ some x
      → x.0.signals ≡ f.signals
  unfolding submit_checked reject
  quiet_checked f r id start (err e) x q eq = ground arith
  quiet_checked f r id start (ok n) x q eq =
      let (c, ec, some_x) = >>=-some (select_read_shard sem start _ _ f.semaphores) _ x eq in
      let same : admit sem alive f r id (n % 2 ^ 32) c ≡ x = ground arith in
      subst (λ (x : Front S × ReadHandle). x.0.signals ≡ f.signals) same
        (quiet_admit f r id (n % 2 ^ 32) c q)

  quiet_submit :
      (f : Front S) (r : Request) (x : Front S × ReadHandle)
      → r.notify_now ≡ false
      → submit sem alive f r ≡ some x
      → x.0.signals ≡ f.signals
  unfolding submit
  quiet_submit f r x q e =
      elim (if-cases (not (bit_and f.next_id cancel_bit == 0) || length f.semaphores.counts == 0) _
        _ (some x) e) [
          | inl (panics, e') ↦ absurd (none-some x e')
          | inr (runs, e') ↦
              quiet_checked (record f { next_id = fetch_add f.next_id 1; rr = fetch_add f.rr 1 }) r
                f.next_id (f.rr % length f.semaphores.counts) (validate f.limits r) x q e'
        ]

  batch-wakes :
      (f : Front S) (qs : List ReadRequest) (wakes : List ℕ)
      (x : Front S × List ReadHandle × List ℕ)
      → IsUnique wakes
      → submit_batch sem alive f qs wakes ≡ some x
      → (x.0.signals ≡ f.signals)
        × (length x.1 ≡ length qs)
        × IsUnique x.2
        × ((j : ℕ) → contains j wakes ≡ true → contains j x.2 ≡ true)
        × All (λ (h : ReadHandle). IsWoken x.2 h.state) x.1
  unfolding submit_batch
  batch-wakes f [] wakes x u e =
      let same : (f, [], wakes) ≡ x = ground arith in rw (sym same) (refl, refl, u, (λ j h. h), tt)
  batch-wakes f (q ∷ qs) wakes x u e =
      let ((f', h), eh, e') = >>=-some (submit sem alive f (positioned q 1 false)) _ x e in
      let ((f2, hs, ws), es, e2) =
        >>=-some (submit_batch sem alive f' qs (queue_wake h.state wakes)) _ x e' in
      let same : (f2, h ∷ hs, ws) ≡ x = ground arith in
      let (quiet, len, unique, keeps, woken) =
        batch-wakes f' qs (queue_wake h.state wakes) (f2, hs, ws)
          (queue_wake-IsUnique h.state wakes u) es in
      rw (sym same) (
        quiet ∙ quiet_submit f (positioned q 1 false) (f', h) refl eh,
        ap suc len,
        unique,
        (λ j c. keeps j (queue_wake-keeps h.state wakes j c)),
        (queue_wake-IsWoken h.state wakes ws keeps, woken),
      )

  -- If no call panics, no shard is woken while the handles of a batch are built; the wakes that
  -- follow name every shard that has taken a read of the batch, each once; and there is a
  -- handle for each request.
  pub submit_batch-wakes :
      (f : Front S) (qs : List ReadRequest) (x : Front S × List ReadHandle × List ℕ)
      → submit_batch sem alive f qs [] ≡ some x
      → (x.0.signals ≡ f.signals)
        × (length x.1 ≡ length qs)
        × IsUnique x.2
        × All (λ (h : ReadHandle). IsWoken x.2 h.state) x.1
  submit_batch-wakes f qs x e =
      let (quiet, len, unique, keeps, woken) = batch-wakes f qs [] x tt e in
      (quiet, len, unique, woken)
