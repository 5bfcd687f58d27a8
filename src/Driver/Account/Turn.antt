-- ===== src/Driver/Account/Turn.antt =====
-- A turn loses no read and no permit.
use uring.Prelude.{ℕ, ◌+◌, ◌≡◌, refl, sym, ap, ◌∙◌, Option, none, some, List, [], ◌∷◌, ◌++◌, arith}
use uring.Prelude.Map.{total}
use uring.Prelude.Word.{saturating_add}
use uring.Sys.{IoResult}
use uring.Admission.{ReadPermits}
use uring.Pending.{Pending}
use uring.Budget.{TurnBudget, fresh_budget}
use uring.Driver.{Driver, >>=-some}
use uring.Driver.Intake.{intake}
use uring.Driver.Intake.Keys.{Sound}
use uring.Driver.Submit.{submit_ring, update_cq_overflow}
use uring.Driver.Reap.{reap}
use uring.Driver.Turn.{
  TurnInput, Verdict, running, drained, leaked, answer, fail_stranded, deadline, leak, exit,
  set_continue, turn,
}
use uring.Driver.Turn.Drain.{exit-cases, serving, clean, late, waiting}
use uring.Driver.Turn.Safety.{rest}
use uring.Driver.Account.{
  caller_weight, entry_weight, inbox_weight, replies_weight, taken, Frame-taken,
}
use uring.Driver.Account.Phases.{submit_ring-Frame, update_cq_overflow-Frame, reap-taken}
use uring.Driver.Account.Intake.{intake-taken}

some-verdict : (y x : Driver × Verdict) → some y ≡ some x → y.0 ≡ x.0
some-verdict y x e = ground arith

module _ (w : ℕ → ℕ) (g : ReadPermits → ℕ) where
  answer-weight :
      (o : Option ℕ) (r : List (ℕ × IoResult (List ℕ)))
      → replies_weight w g (answer o r) ≡ caller_weight w g o + replies_weight w g r
  answer-weight none r = omega arith
  answer-weight (some tx) r = omega arith

  fail_stranded-weight :
      (m : List (ℕ × Pending)) (r : List (ℕ × IoResult (List ℕ)))
      → total (entry_weight w g) (fail_stranded m r).0 + replies_weight w g (fail_stranded m r).1
        ≡ total (entry_weight w g) m + replies_weight w g r
  unfolding fail_stranded total
  fail_stranded-weight [] r = refl
  fail_stranded-weight ((id, p) ∷ m) r =
      omega (arith, fail_stranded-weight m (answer p.done r), answer-weight p.done r)

  leak-taken : (d : Driver) → taken w g (leak d) ≡ taken w g d
  unfolding leak
  leak-taken d = omega (arith, fail_stranded-weight d.pending d.replies)

  exit-taken :
      (d : Driver) (now later : ℕ)
      → (taken w g (exit d now later).0 ≡ taken w g d) × ((exit d now later).0.inbox ≡ d.inbox)
  unfolding leak
  exit-taken d now later = elim (exit-cases d now later) [
    | serving up e ↦ rw e (refl, refl)
    | clean down ep eb e ↦ rw e (refl, refl)
    | late down past e ↦
        rw e (leak-taken (record d { drain_deadline = some (deadline d now) }), refl)
    | waiting down before e ↦ rw e (refl, refl)
  ]

  set_continue-taken :
      (i : TurnInput) (b : TurnBudget) (n : ℕ) (r : Driver × Verdict)
      → (taken w g (set_continue i b n r).0 ≡ taken w g r.0)
        × ((set_continue i b n r).0.inbox ≡ r.0.inbox)
  unfolding set_continue
  set_continue-taken i b n (d, running) = (refl, refl)
  set_continue-taken i b n (d, drained) = (refl, refl)
  set_continue-taken i b n (d, leaked) = (refl, refl)

  rest-taken :
      (i : TurnInput) (before : ℕ) (d : Driver) (b : TurnBudget)
      → (taken w g (rest i before (d, b)).0 ≡ taken w g d)
        × ((rest i before (d, b)).0.inbox ≡ d.inbox)
  rest-taken i before d b =
      let d4 : Driver = (submit_ring i.after_reap d).0 in
      let d5 : Driver = (update_cq_overflow d4 i.overflow).0 in
      let f4 = submit_ring-Frame i.after_reap d in
      let f5 = update_cq_overflow-Frame d4 i.overflow in
      let (t6, i6) = exit-taken d5 i.now i.later in
      let (t7, i7) =
        set_continue-taken i b (saturating_add before (submit_ring i.after_reap d).1)
          (exit d5 i.now i.later) in
      (t7 ∙ t6 ∙ Frame-taken w g d4 d5 f5 ∙ Frame-taken w g d d4 f4, i7 ∙ i6 ∙ f5.inbox ∙ f4.inbox)

  inbox-taken :
      (d d' : Driver)
      → taken w g d' ≡ taken w g d
      → d'.inbox ≡ d.inbox
      → inbox_weight w g d'.inbox + taken w g d' ≡ inbox_weight w g d.inbox + taken w g d
  inbox-taken d d' t i = omega (arith, t, ap (inbox_weight w g) i)

  -- A turn that does not panic, with messages that the handles send, loses no read and answers
  -- none twice, and drops the permits of a read once: for any weights on the callers and on the
  -- permits, what is in the inbox, what is in the table and what was answered and dropped weigh
  -- as much after the turn as before, the messages that arrived included.
  pub turn-taken :
      (i : TurnInput) (d : Driver) (r : Driver × Verdict)
      → Sound d (d.inbox ++ i.arrived)
      → turn i d ≡ some r
      → inbox_weight w g r.0.inbox + taken w g r.0
        ≡ inbox_weight w g (d.inbox ++ i.arrived) + taken w g d
  unfolding turn
  turn-taken i d r s e =
      let ((d1, b1), e1, f1) =
        >>=-some (intake i.pads i.senders_gone fresh_budget d (d.inbox ++ i.arrived)) _ r e in
      let ((d3, b3), e3, f3) =
        >>=-some (reap b1 (submit_ring i.before_reap d1).0 i.completions) _ r f1 in
      let t1 =
        intake-taken w g i.pads i.senders_gone fresh_budget d (d.inbox ++ i.arrived) (d1, b1) s
          e1 in
      let d2 : Driver = (submit_ring i.before_reap d1).0 in
      let f2 = submit_ring-Frame i.before_reap d1 in
      let (t3, in3) = reap-taken w g b1 d2 i.completions (d3, b3) e3 in
      let (t7, i7) = rest-taken i (submit_ring i.before_reap d1).1 d3 b3 in
      let last : (rest i (submit_ring i.before_reap d1).1 (d3, b3)).0 ≡ r.0 = some-verdict _ r f3 in
      rw (sym last) (
        inbox-taken d3 (rest i (submit_ring i.before_reap d1).1 (d3, b3)).0 t7 i7
        ∙ inbox-taken d2 d3 t3 in3
        ∙ inbox-taken d1 d2 (Frame-taken w g d1 d2 f2) f2.inbox
        ∙ t1)
