-- ===== src/Driver/Reap/Safety.antt =====
-- The reap phase does not panic and keeps the invariant.
use Prim.Native.Nat.{bit_and}
use uring.Prelude.{
  ℕ, zero, suc, ◌+◌, ◌%◌, ◌≡◌, refl, subst, ◌∙◌, inl, inr, Bool, true, false, ◌==◌, Option, some,
  List, [], ◌∷◌, arith, length, Bool-cases, Option-cases,
}
use uring.Prelude.Int.{ℤ, pos, negsuc}
use uring.Prelude.Word.{word, fetch_sub}
use uring.Prelude.Map.{
  lookup, insert, remove, erase, contains-erase, contains-remove, erase-IsUnique, remove-IsUnique,
  remove-All, lookup-contains, length-remove, All-lookup,
}
use uring.Sys.{IoResult, ok, err}
use uring.Pending.{
  Pending, Answers, Completion, seen, ReapStep, finish, resubmit, reap_read, reap_error,
  reap_progress, deliver, finish_direct_short_read,
}
use uring.Pending.Resubmit.{IsPending, IsHonest, reap_read-resubmit}
use uring.Budget.{TurnBudget, can_reap}
use uring.Driver.{Driver, DriverStats, cancel_bit}
use uring.Driver.Inv.{IsEntry, Inv, Inv-frame, update-Inv}
use uring.Driver.Reap.{
  Cqe, count_cancel, count_sent, on_finish, on_step, on_read_cqe, on_cqe, count_completion, reap,
}

-- What a completion leaves of an entry, whether it finishes it or not.
abbrev pub Same : Pending → Pending → Type 0
Same p q = (q.done ≡ p.done) × (q.permit ≡ p.permit)

deliver-Same : (a : Answers) (p : Pending) → Same p (deliver a p).0
unfolding deliver
deliver-Same a p = ground arith

reap_error-Same : (p : Pending) (id e : ℕ) (stop : Bool) → Same p (reap_error p id e stop).0
unfolding reap_error
reap_error-Same p id e stop = ground arith

short-Same :
    (a : Answers) (p : Pending) (r : IoResult ℕ) → Same p (finish_direct_short_read a p r).0
unfolding finish_direct_short_read
short-Same a p (err e) = (refl, refl)
short-Same a p (ok n) = ground (arith, deliver-Same a p)

reap_progress-Same :
    (a : Answers) (p : Pending) (id : ℕ) (stop : Bool) → Same p (reap_progress a p id stop).0
unfolding reap_progress
reap_progress-Same a p id stop = ground (arith, deliver-Same a p, short-Same a p a.file_len)

pub reap_read-Same :
    (a : Answers) (p : Pending) (id : ℕ) (res : ℤ) (down : Bool)
    → Same p (reap_read a p id res down).0
unfolding reap_read
reap_read-Same a p id (negsuc n) down = reap_error-Same p id (suc n) _
reap_read-Same a p id (pos zero) down = deliver-Same a p
reap_read-Same a p id (pos (suc n)) down = reap_progress-Same a _ id _

-- The counters of a result that is sent.
count_sent-in_flight :
    (b : Bool) (s : DriverStats) → (count_sent b s).in_flight ≡ fetch_sub s.in_flight 1
unfolding count_sent
count_sent-in_flight true s = refl
count_sent-in_flight false s = refl

count_sent-conserved :
    (b : Bool) (s : DriverStats)
    → s.submitted ≡ (s.delivered + s.orphan_reclaimed + s.in_flight) % word
    → (count_sent b s).submitted
      ≡ ((count_sent b s).delivered
          + (count_sent b s).orphan_reclaimed
          + (count_sent b s).in_flight)
        % word
unfolding count_sent
count_sent-conserved true s h = omega arith
count_sent-conserved false s h = omega arith

-- The state after a read is finished.
abbrev pub finished : Driver → ℕ → Pending → IoResult (List ℕ) → Bool → ℕ → Driver
finished d id p outcome send_ok tx = record d {
  pending = remove id d.pending;
  replies = (tx, outcome) ∷ d.replies;
  stats = count_sent send_ok d.stats;
  queued_cancels = erase id d.queued_cancels;
  released = p.permit ∷ d.released;
}

finished-Inv :
    (d : Driver) (id : ℕ) (p q : Pending) (outcome : IoResult (List ℕ)) (send_ok : Bool) (tx : ℕ)
    → lookup id d.pending ≡ some p
    → Inv d
    → Inv (finished d id q outcome send_ok tx)
finished-Inv d id p q outcome send_ok tx found i =
    let there = lookup-contains id d.pending p found in
    record {
      unique = remove-IsUnique id d.pending i.unique;
      entries = remove-All IsEntry id d.pending i.entries;
      in_flight = omega (
        arith,
        count_sent-in_flight send_ok d.stats,
        i.in_flight,
        length-remove id d.pending there,
      );
      conserved = count_sent-conserved send_ok d.stats i.conserved;
      cancels_once = erase-IsUnique id d.queued_cancels i.cancels_once;
      cancels_pending = λ j h. ground (
        arith,
        contains-erase j id d.queued_cancels,
        contains-remove j id d.pending i.unique,
        i.cancels_pending j,
      );
    }

-- The thread does not panic.
abbrev pub Kept : Option Driver → Type 0
Kept r = (d : Driver) × (r ≡ some d) × Inv d

on_finish-Inv :
    (d : Driver) (id : ℕ) (p q : Pending) (outcome : IoResult (List ℕ)) (send_ok : Bool)
    → lookup id d.pending ≡ some p
    → Same p q
    → IsEntry p
    → Inv d
    → Kept (on_finish d id q outcome send_ok)
unfolding on_finish
on_finish-Inv d id p q outcome send_ok found same entry i =
    let (tx, e) = entry.caller in
    (
      finished d id q outcome send_ok tx,
      rw (same.0, e) refl,
      finished-Inv d id p q outcome send_ok tx found i,
    )

-- What the kernel keeps to when it completes a read: the buffer is the one it was given, and no more
-- bytes are reported than were asked for.
pub record Fits (p : Pending) (c : Completion) : Type 0 where
  pub same_length : length c.memory ≡ length p.buf
  pub honest : IsHonest p c.result

seen-IsPending : (p : Pending) (c : Completion) → IsPending p → Fits p c → IsPending (seen p c)
seen-IsPending p c v f = ground (arith, f.same_length)

IsHonest-seen :
    (p : Pending) (m : List ℕ) (r : ℤ) → IsHonest p r → IsHonest (record p { buf = m }) r
IsHonest-seen p m (pos n) h = h
IsHonest-seen p m (negsuc n) h = tt

on_step-Inv :
    (d : Driver) (id : ℕ) (p : Pending) (c : Completion) (send_ok : Bool) (x : Pending × ReapStep)
    → lookup id d.pending ≡ some p
    → Fits p c
    → Inv d
    → reap_read c.answers (seen p c) id c.result d.shutting_down ≡ x
    → Kept (on_step d id send_ok x)
unfolding on_step
on_step-Inv d id p c send_ok (q, finish outcome) found f i e =
    let entry = All-lookup IsEntry id d.pending p i.entries found in
    let same : Same p q =
      subst (λ (x : Pending × ReapStep). Same p x.0) e
        (reap_read-Same c.answers (seen p c) id c.result d.shutting_down) in
    on_finish-Inv d id p q outcome send_ok found same entry i
on_step-Inv d id p c send_ok (q, resubmit s) found f i e =
    let entry = All-lookup IsEntry id d.pending p i.entries found in
    let next =
      reap_read-resubmit c.answers (seen p c) id c.result d.shutting_down q s
        (seen-IsPending p c entry.well f) (IsHonest-seen p c.memory c.result f.honest) e in
    let keeps = next.1 in
    let entry' : IsEntry q = record {
      well = next.0;
      caller = (entry.caller.0, keeps.done ∙ entry.caller.1);
    } in
    (
      _,
      refl,
      Inv-frame (record d { pending = insert id q d.pending }) _ refl refl refl refl refl refl
          (update-Inv d id p q found entry' i),
    )

-- The completions of a turn, as the kernel gives them one after another.
abbrev pub FitsEntry : Driver → Cqe → Type 0
FitsEntry d c = (p : Pending) → lookup c.user_data d.pending ≡ some p → Fits p c.completion

unfoldable pub FitsAll : Driver → List Cqe → Type 0
FitsAll d [] = Unit {0}
FitsAll d (c ∷ cs) = FitsEntry d c × ((d' : Driver) → on_cqe d c ≡ some d' → FitsAll d' cs)

on_read_cqe-Inv :
    (d : Driver) (c : Cqe)
    → FitsEntry d c
    → Inv d
    → Kept (on_read_cqe d c.user_data c.completion c.send_ok)
unfolding on_read_cqe
on_read_cqe-Inv d c f i = elim (Option-cases (lookup c.user_data d.pending)) [
  | inl n ↦ (d, rw (n, on_read_cqe) refl, i)
  | inr (p, e) ↦
      rw (e, on_read_cqe) (on_step-Inv d c.user_data p c.completion c.send_ok _ e (f p e) i refl)
]

count_cancel-counters :
    (r : ℤ) (s : DriverStats)
    → ((count_cancel r s).submitted ≡ s.submitted)
      × ((count_cancel r s).delivered ≡ s.delivered)
      × ((count_cancel r s).orphan_reclaimed ≡ s.orphan_reclaimed)
      × ((count_cancel r s).in_flight ≡ s.in_flight)
unfolding count_cancel
count_cancel-counters (pos zero) s = (refl, refl, refl, refl)
count_cancel-counters (pos (suc n)) s = (refl, refl, refl, refl)
count_cancel-counters (negsuc n) s = ground arith

pub on_cqe-Inv : (d : Driver) (c : Cqe) → FitsEntry d c → Inv d → Kept (on_cqe d c)
unfolding on_cqe
on_cqe-Inv d c f i = elim (Bool-cases (bit_and c.user_data cancel_bit == 0)) [
  | inl is_read ↦ rw is_read (on_read_cqe-Inv d c f i)
  | inr is_cancel ↦
      let (es, ed, eo, ei) = count_cancel-counters c.completion.result d.stats in
      (
        record d { stats = count_cancel c.completion.result d.stats },
        rw is_cancel refl,
        Inv-frame d _ refl refl es ed eo ei i,
      )
]

-- With completions that leave the buffers their length and report no more than was asked for, the
-- reap phase never panics and keeps the invariant.
pub reap-Inv :
    (b : TurnBudget) (d : Driver) (cs : List Cqe)
    → FitsAll d cs
    → Inv d
    → (x : Driver × TurnBudget) × (reap b d cs ≡ some x) × Inv x.0
unfolding reap FitsAll
reap-Inv b d [] f i = ((d, b), refl, i)
reap-Inv b d (c ∷ cs) f i = elim (Bool-cases (can_reap b)) [
  | inl more ↦
      let (d', e, i') = on_cqe-Inv d c f.0 i in
      let (x, ex, i2) = reap-Inv (count_completion b) d' cs (f.1 d' e) i' in
      (x, rw (more, e) ex, i2)
  | inr full ↦ ((d, b), rw full refl, i)
]
