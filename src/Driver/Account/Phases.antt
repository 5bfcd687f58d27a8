-- ===== src/Driver/Account/Phases.antt =====
-- Submission and reaping lose no read and no permit either.
use Prim.Native.Nat.{bit_and}
use uring.Prelude.{
  ℕ, ◌+◌, ◌%◌, ◌^◌, ◌≡◌, refl, sym, ap, ◌∙◌, inl, inr, Bool, not, ◌&&◌, ◌||◌, leb, ◌==◌, some, List,
  [], ◌∷◌, ◌++◌, arith, Bool-cases, Option-cases, if-cases,
}
use uring.Prelude.Map.{keys, lookup, insert, total-remove, total-insert_old}
use uring.Sys.{IoResult, ok, err, errno_is, ebusy, eintr}
use uring.Admission.{ReadPermits}
use uring.Pending.{Pending, Completion, seen, ReapStep, finish, resubmit}
use uring.Budget.{TurnBudget, can_reap}
use uring.Driver.{Driver, cancel_bit, >>=-some, max_consecutive_submit_errors}
use uring.Driver.Submit.{
  Enter, flushed, submit_if_needed, count_submit_error, handle_submit_result, submit_ring,
  update_cq_overflow,
}
use uring.Driver.Reap.{
  Cqe, count_cancel, on_finish, on_step, on_read_cqe, on_cqe, count_completion, reap,
}
use uring.Driver.Reap.Safety.{Same, reap_read-Same, finished}
use uring.Driver.Account.{caller_weight, entry_weight, taken, Frame, same_Frame, Frame-trans}
use uring.Driver.Account.Intake.{queue_all-Frame}

count_submit_error-Frame : (d : Driver) → Frame d (count_submit_error d)
unfolding count_submit_error
count_submit_error-Frame d =
    elim (Bool-cases (
      not d.shutting_down
      && leb max_consecutive_submit_errors ((d.consecutive_submit_errors + 1) % 2 ^ 32))) [
        | inl broken ↦ simp broken (
            Frame-trans d _ _ (same_Frame d _ refl refl refl refl)
              (queue_all-Frame _ (keys d.pending)))
        | inr kept ↦ simp kept (same_Frame d _ refl refl refl refl)
      ]

handle_submit_result-Frame : (r : IoResult ℕ) (d : Driver) → Frame d (handle_submit_result r d).0
unfolding handle_submit_result
handle_submit_result-Frame (ok n) d = same_Frame d _ refl refl refl refl
handle_submit_result-Frame (err e) d = elim (Bool-cases (errno_is e ebusy || errno_is e eintr)) [
  | inl passing ↦ simp passing (same_Frame d _ refl refl refl refl)
  | inr hard ↦ simp hard (count_submit_error-Frame d)
]

pub submit_ring-Frame : (e : Enter) (d : Driver) → Frame d (submit_ring e d).0
unfolding submit_ring
submit_ring-Frame e d = elim (Option-cases (submit_if_needed e)) [
  | inl n ↦ rw (n, submit_ring) (same_Frame d _ refl refl refl refl)
  | inr (r, s) ↦
      rw (s, submit_ring)
        (Frame-trans d (flushed e d) _ (same_Frame d _ refl refl refl refl)
          (handle_submit_result-Frame r (flushed e d)))
]

pub update_cq_overflow-Frame : (d : Driver) (n : ℕ) → Frame d (update_cq_overflow d n).0
unfolding update_cq_overflow
update_cq_overflow-Frame d n = elim (Bool-cases (n == d.previous_cq_overflow)) [
  | inl same ↦ simp same (same_Frame d _ refl refl refl refl)
  | inr other ↦ simp other (same_Frame d _ refl refl refl refl)
]

module _ (w : ℕ → ℕ) (g : ReadPermits → ℕ) where
  on_step-taken :
      (d : Driver) (id : ℕ) (p : Pending) (send_ok : Bool) (x : Pending × ReapStep) (d' : Driver)
      → lookup id d.pending ≡ some p
      → Same p x.0
      → on_step d id send_ok x ≡ some d'
      → (taken w g d' ≡ taken w g d) × (d'.inbox ≡ d.inbox)
  unfolding on_step on_finish
  on_step-taken d id p send_ok (q, finish outcome) d' found same e =
      let (tx, et, e') = >>=-some q.done _ d' e in
      let here : finished d id q outcome send_ok tx ≡ d' = ground arith in
      let weight : entry_weight w g p ≡ w tx + g q.permit =
        omega (arith, ap (caller_weight w g) (sym same.0 ∙ et), ap g same.1) in
      rw (sym here)
        (omega (arith, total-remove (entry_weight w g) id p d.pending found, weight), refl)
  on_step-taken d id p send_ok (q, resubmit s) d' found same e =
      let here : record d { pending = insert id q d.pending; backlog = d.backlog ++ s ∷ [] } ≡ d' =
        ground arith in
      let weight : entry_weight w g p ≡ entry_weight w g q =
        omega (arith, ap (caller_weight w g) same.0, ap g same.1) in
      rw (sym here)
        (omega (arith, total-insert_old (entry_weight w g) id q p d.pending found, weight), refl)

  on_read_cqe-taken :
      (d : Driver) (id : ℕ) (c : Completion) (send_ok : Bool) (d' : Driver)
      → on_read_cqe d id c send_ok ≡ some d'
      → (taken w g d' ≡ taken w g d) × (d'.inbox ≡ d.inbox)
  unfolding on_read_cqe
  on_read_cqe-taken d id c send_ok d' e = elim (Option-cases (lookup id d.pending)) [
    | inl n ↦
        let e' : some d ≡ some d' = rw (n, on_read_cqe) at e in
        let here : d ≡ d' = ground arith in rw (sym here) (refl, refl)
    | inr (p, found) ↦
        on_step-taken d id p send_ok _ d' found
          (reap_read-Same c.answers (seen p c) id c.result d.shutting_down)
          (rw (found, on_read_cqe) at e)
  ]

  on_cqe-taken :
      (d : Driver) (c : Cqe) (d' : Driver)
      → on_cqe d c ≡ some d'
      → (taken w g d' ≡ taken w g d) × (d'.inbox ≡ d.inbox)
  unfolding on_cqe
  on_cqe-taken d c d' e = elim (if-cases (bit_and c.user_data cancel_bit == 0) _ _ (some d') e) [
    | inl (is_read, e') ↦ on_read_cqe-taken d c.user_data c.completion c.send_ok d' e'
    | inr (is_cancel, e') ↦
        let here : record d { stats = count_cancel c.completion.result d.stats } ≡ d' =
          ground arith in
        rw (sym here) (refl, refl)
  ]

  pub reap-taken :
      (b : TurnBudget) (d : Driver) (cs : List Cqe) (x : Driver × TurnBudget)
      → reap b d cs ≡ some x
      → (taken w g x.0 ≡ taken w g d) × (x.0.inbox ≡ d.inbox)
  unfolding reap
  reap-taken b d [] x e = let here : d ≡ x.0 = ground arith in rw (sym here) (refl, refl)
  reap-taken b d (c ∷ cs) x e = elim (if-cases (can_reap b) _ _ (some x) e) [
    | inl (more, e') ↦
        let (d', step, e2) = >>=-some (on_cqe d c) _ x e' in
        let (t, i) = on_cqe-taken d c d' step in
        let (t2, i2) = reap-taken (count_completion b) d' cs x e2 in (t2 ∙ t, i2 ∙ i)
    | inr (full, e') ↦ let here : d ≡ x.0 = ground arith in rw (sym here) (refl, refl)
  ]
