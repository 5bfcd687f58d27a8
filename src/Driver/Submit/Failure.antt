-- ===== src/Driver/Submit/Failure.antt =====
-- Submission: the invariant, the order of the entries, and the failure of the ring.
use uring.Prelude.{
  ℕ, ◌+◌, ◌%◌, ◌^◌, ◌<◌, ◌≡◌, refl, sym, subst, ◌∙◌, ◌⊎◌, inl, inr, true, false, not, ◌&&◌, ◌||◌,
  leb, List, [], ◌∷◌, arith, length, All, Bool-cases, Option-cases,
}
use uring.Prelude.Map.{keys, contains}
use uring.Sys.{IoResult, ok, err, errno_is, ebusy, eintr}
use uring.Driver.{Driver, queue_cancel, queue_all, max_consecutive_submit_errors}
use uring.Prelude.Map.{All-contains}
use uring.Pending.{Pending}
use uring.Driver.Inv.{Inv, Inv-frame, queue_all-Inv, queue_all-pending, Known-keys}
use uring.Driver.Intake.{on_shutdown}
use uring.Driver.Submit.Cancels.{Cancels, Cancels-frame, queue_all-Cancels}
use uring.Prelude.Word.{fetch_add}
use uring.Driver.Submit.{
  Enter, submit_if_needed, count_submit_error, handle_submit_result, flushed, submit_ring,
}

count_submit_error-Inv : (d : Driver) → Inv d → Inv (count_submit_error d)
unfolding count_submit_error
count_submit_error-Inv d i =
    elim (Bool-cases (
      not d.shutting_down
      && leb max_consecutive_submit_errors ((d.consecutive_submit_errors + 1) % 2 ^ 32))) [
        | inl broken ↦ rw broken (
            queue_all-Inv _ (keys d.pending) (Known-keys d.pending)
              (Inv-frame d _ refl refl refl refl refl refl i))
        | inr kept ↦ rw kept (Inv-frame d _ refl refl refl refl refl refl i)
      ]

handle_submit_result-Inv : (r : IoResult ℕ) (d : Driver) → Inv d → Inv (handle_submit_result r d).0
unfolding handle_submit_result
handle_submit_result-Inv (ok n) d i = Inv-frame d _ refl refl refl refl refl refl i
handle_submit_result-Inv (err e) d i = elim (Bool-cases (errno_is e ebusy || errno_is e eintr)) [
  | inl passing ↦ rw passing (Inv-frame d _ refl refl refl refl refl refl i)
  | inr hard ↦ rw hard (count_submit_error-Inv d i)
]

pub submit_ring-Inv : (e : Enter) (d : Driver) → Inv d → Inv (submit_ring e d).0
unfolding submit_ring
submit_ring-Inv e d i =
    let i' : Inv (flushed e d) = Inv-frame d _ refl refl refl refl refl refl i in
    elim (Option-cases (submit_if_needed e)) [
      | inl n ↦ rw (n, submit_ring) i'
      | inr (r, s) ↦ rw (s, submit_ring) (handle_submit_result-Inv r (flushed e d) i')
    ]

-- The table and the answers are left alone by a submission.
queue_cancel-keeps :
    (d : Driver) (id j : ℕ)
    → contains j d.queued_cancels ≡ true
    → contains j (queue_cancel d id).queued_cancels ≡ true
unfolding queue_cancel
queue_cancel-keeps d id j h = ground arith

queue_cancel-queues : (d : Driver) (id : ℕ) → contains id (queue_cancel d id).queued_cancels ≡ true
unfolding queue_cancel
queue_cancel-queues d id = ground arith

queue_all-keeps :
    (d : Driver) (ids : List ℕ) (j : ℕ)
    → contains j d.queued_cancels ≡ true
    → contains j (queue_all d ids).queued_cancels ≡ true
unfolding queue_all
queue_all-keeps d [] j h = h
queue_all-keeps d (id ∷ ids) j h =
    queue_all-keeps (queue_cancel d id) ids j (queue_cancel-keeps d id j h)

contains_head :
    (i j : ℕ) (is : List ℕ) → contains j (i ∷ is) ≡ true → (i ≡ j) ⊎ (contains j is ≡ true)
contains_head i j is h = ground arith

queue_all-queues :
    (d : Driver) (ids : List ℕ) (j : ℕ)
    → contains j ids ≡ true
    → contains j (queue_all d ids).queued_cancels ≡ true
unfolding queue_all
queue_all-queues d [] j h = cc h
queue_all-queues d (id ∷ ids) j h = elim (contains_head id j ids h) [
  | inl e ↦ queue_all-keeps (queue_cancel d id) ids j (
      subst (λ i. contains i (queue_cancel d id).queued_cancels ≡ true) e
        (queue_cancel-queues d id))
  | inr later ↦ queue_all-queues (queue_cancel d id) ids j later
]

queue_all-shutting_down :
    (d : Driver) (ids : List ℕ) → (queue_all d ids).shutting_down ≡ d.shutting_down
unfolding queue_all queue_cancel
queue_all-shutting_down d [] = refl
queue_all-shutting_down d (id ∷ ids) =
    queue_all-shutting_down (queue_cancel d id) ids ∙ ground arith

-- Every read in flight has its cancel queued.
abbrev pub AllCancelled : Driver → Type 0
AllCancelled d = All (λ j. contains j d.queued_cancels ≡ true) (keys d.pending)

all_queued :
    (d : Driver) (m : List (ℕ × Pending)) → d.pending ≡ m → AllCancelled (queue_all d (keys m))
all_queued d m e = All-contains _ _ (λ j h.
    queue_all-queues d (keys m) j
      (subst (λ m. contains j (keys m) ≡ true) (queue_all-pending d (keys m) ∙ e) h))

-- After a shutdown message the driver is shutting down, and every read in flight has its cancel
-- queued.
pub on_shutdown-AllCancelled :
    (d : Driver) → ((on_shutdown d).shutting_down ≡ true) × AllCancelled (on_shutdown d)
unfolding on_shutdown
on_shutdown-AllCancelled d = (
  queue_all-shutting_down _ (keys d.pending),
  all_queued (record d { shutting_down = true }) d.pending refl,
)

abbrev pub IsHard : IoResult ℕ → Type 0
IsHard (ok n) = ⊥
IsHard (err e) = (errno_is e ebusy ≡ false) × (errno_is e eintr ≡ false)

-- The results of submissions, one after another.
unfoldable pub handle_all : List (IoResult ℕ) → Driver → Driver
handle_all [] d = d
handle_all (r ∷ rs) d = handle_all rs (handle_submit_result r d).0

count_submit_error-below :
    (d : Driver)
    → d.shutting_down ≡ false
    → d.consecutive_submit_errors + 1 < max_consecutive_submit_errors
    → ((count_submit_error d).shutting_down ≡ false)
      × ((count_submit_error d).consecutive_submit_errors ≡ d.consecutive_submit_errors + 1)
unfolding count_submit_error
count_submit_error-below d up h =
    let guard : not d.shutting_down
          && leb max_consecutive_submit_errors ((d.consecutive_submit_errors + 1) % 2 ^ 32)
        ≡ false =
      ground arith in
    rw guard (up, omega arith)

count_submit_error-limit :
    (d : Driver)
    → d.shutting_down ≡ false
    → d.consecutive_submit_errors + 1 ≡ max_consecutive_submit_errors
    → ((count_submit_error d).shutting_down ≡ true)
      × Cancels (keys d.pending) d (count_submit_error d)
unfolding count_submit_error
count_submit_error-limit d up h =
    let guard : not d.shutting_down
          && leb max_consecutive_submit_errors ((d.consecutive_submit_errors + 1) % 2 ^ 32)
        ≡ true =
      ground arith in
    let failed : Driver = record d {
      stats = record stats { submit_errors = fetch_add stats.submit_errors 1 };
      consecutive_submit_errors = (d.consecutive_submit_errors + 1) % 2 ^ 32;
      submit_error_logged = true;
      shutting_down = true;
    } in
    rw guard (
      queue_all-shutting_down failed (keys d.pending),
      Cancels-frame (keys d.pending) d failed _ refl refl (
          queue_all-Cancels failed (keys d.pending)
            (All-contains _ (keys d.pending) (queue_all-queues failed (keys d.pending)))),
    )
  where
    open d use {stats}

hard_step :
    (r : IoResult ℕ) (d : Driver) → IsHard r → (handle_submit_result r d).0 ≡ count_submit_error d
unfolding handle_submit_result
hard_step (ok n) d h = absurd h
hard_step (err e) d h = rw (h.0, h.1) refl

-- A driver that runs keeps running through hard failures in a row as long as their count stays
-- below the limit, and counts each.
pub handle_all-running :
    (rs : List (IoResult ℕ)) (d : Driver)
    → All IsHard rs
    → d.shutting_down ≡ false
    → d.consecutive_submit_errors + length rs < max_consecutive_submit_errors
    → ((handle_all rs d).shutting_down ≡ false)
      × ((handle_all rs d).consecutive_submit_errors ≡ d.consecutive_submit_errors + length rs)
unfolding handle_all
handle_all-running [] d hs up h = (up, omega arith)
handle_all-running (r ∷ rs) d hs up h =
    let step = hard_step r d hs.0 in
    let (up', count) = count_submit_error-below d up (omega arith) in
    let (up2, count2) =
      handle_all-running rs (count_submit_error d) hs.1 up' (omega (arith, count)) in
    rw (handle_all, step) (up2, omega (arith, count, count2))

-- Below the limit a failure leaves the table and the cancels alone.
IsCalm : Driver → Driver → Type 0
IsCalm d d' =
    (d'.pending ≡ d.pending) × (d'.backlog ≡ d.backlog) × (d'.queued_cancels ≡ d.queued_cancels)

count_submit_error-IsCalm :
    (d : Driver)
    → d.consecutive_submit_errors + 1 < max_consecutive_submit_errors
    → IsCalm d (count_submit_error d)
unfolding count_submit_error IsCalm
count_submit_error-IsCalm d h =
    let guard : not d.shutting_down
          && leb max_consecutive_submit_errors ((d.consecutive_submit_errors + 1) % 2 ^ 32)
        ≡ false =
      ground arith in
    rw guard (refl, refl, refl)

handle_all-IsCalm :
    (rs : List (IoResult ℕ)) (d : Driver)
    → All IsHard rs
    → d.shutting_down ≡ false
    → d.consecutive_submit_errors + length rs < max_consecutive_submit_errors
    → IsCalm d (handle_all rs d)
unfolding handle_all IsCalm
handle_all-IsCalm [] d hs up h = (refl, refl, refl)
handle_all-IsCalm (r ∷ rs) d hs up h =
    let step = hard_step r d hs.0 in
    let (up', count) = count_submit_error-below d up (omega arith) in
    let (p, b, q) = count_submit_error-IsCalm d (omega arith) in
    let (p', b', q') =
      handle_all-IsCalm rs (count_submit_error d) hs.1 up' (omega (arith, count)) in
    rw (handle_all, step) (p' ∙ p, b' ∙ b, q' ∙ q)

-- For a driver that runs, the hard failure in a row that makes their count reach the limit starts
-- the shutdown: behind the backlog comes a request to cancel each read in flight that had none, and no
-- request for a read that had one, and every read in flight is marked as having its cancel.
pub handle_all-limit :
    (rs : List (IoResult ℕ)) (r : IoResult ℕ) (d : Driver)
    → All IsHard rs
    → IsHard r
    → d.shutting_down ≡ false
    → d.consecutive_submit_errors + length rs + 1 ≡ max_consecutive_submit_errors
    → let d' = (handle_submit_result r (handle_all rs d)).0 in
      (d'.shutting_down ≡ true) × Cancels (keys d.pending) d d'
unfolding IsCalm
handle_all-limit rs r d hs h up e =
    let (up', count) = handle_all-running rs d hs up (omega arith) in
    let (p, b, q) = handle_all-IsCalm rs d hs up (omega arith) in
    let (down, cancels) = count_submit_error-limit (handle_all rs d) up' (omega (arith, count)) in
    rw (hard_step r (handle_all rs d) h) (
      down,
      Cancels-frame (keys d.pending) d (handle_all rs d) _ (sym b) (sym q) (
          subst (λ m. Cancels (keys m) (handle_all rs d) (count_submit_error (handle_all rs d))) p
            cancels),
    )
