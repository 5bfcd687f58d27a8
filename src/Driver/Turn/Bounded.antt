-- ===== src/Driver/Turn/Bounded.antt =====
-- A shutdown ends within its deadline.
use uring.Prelude.{
  ℕ, ◌≤◌, ◌<◌, ◌≡◌, ◌≢◌, refl, sym, ap, subst, Bool, true, false, some, List, [], ◌∷◌, ◌++◌, arith,
}
use uring.Budget.{TurnBudget, fresh_budget}
use uring.Driver.{Driver, >>=-some}
use uring.Driver.Intake.{intake}
use uring.Driver.Submit.{submit_ring}
use uring.Driver.Reap.{reap}
use uring.Driver.Turn.{
  TurnInput, Verdict, running, drained, leaked, deadline, exit, set_continue, turn, drive,
}
use uring.Driver.Turn.Drain.{exit-cases, serving, clean, late, waiting}
use uring.Driver.Turn.Safety.{rest}
use uring.Driver.Turn.Draining.{
  Draining, intake-Draining, submit_ring-Draining, reap-Draining, update_cq_overflow-Draining,
}

-- What a turn that is not the last one keeps.
abbrev Goes : ℕ → TurnInput → Driver × Verdict → Type 0
Goes t i (d, running) = Draining t d × (i.later < t)
Goes t i (d, drained) = Unit {0}
Goes t i (d, leaked) = Unit {0}

deadline-set : (t : ℕ) (d : Driver) (now : ℕ) → d.drain_deadline ≡ some t → deadline d now ≡ t
deadline-set t d now e = rw (e, deadline) refl

exit-Goes : (t : ℕ) (i : TurnInput) (d : Driver) → Draining t d → Goes t i (exit d i.now i.later)
exit-Goes t i d h = elim (exit-cases d i.now i.later) [
  | serving up e ↦ absurd (not_both d.shutting_down h.down up)
  | clean down ep eb e ↦ subst (Goes t i) (sym e) tt
  | late down past e ↦ subst (Goes t i) (sym e) tt
  | waiting down before e ↦
      let at = deadline-set t d i.now h.set in
      subst (Goes t i) (sym e)
        (record { down = h.down; set = ap some at }, omega (arith, before, at))
]
  where
    not_both : (b : Bool) → b ≡ true → b ≡ false → ⊥
    not_both b p q = cc (p, q)

set_continue-Goes :
    (t : ℕ) (i : TurnInput) (b : TurnBudget) (n : ℕ) (r : Driver × Verdict)
    → Goes t i r
    → Goes t i (set_continue i b n r)
unfolding set_continue
set_continue-Goes t i b n (d, running) (h, early) = (record { down = h.down; set = h.set }, early)
set_continue-Goes t i b n (d, drained) h = h
set_continue-Goes t i b n (d, leaked) h = h

rest-Goes :
    (t : ℕ) (i : TurnInput) (before : ℕ) (d : Driver) (b : TurnBudget)
    → Draining t d
    → Goes t i (rest i before (d, b))
rest-Goes t i before d b h =
    let h4 = submit_ring-Draining t i.after_reap d h in
    let h5 = update_cq_overflow-Draining t (submit_ring i.after_reap d).0 i.overflow h4 in
    set_continue-Goes t i b _ _ (exit-Goes t i _ h5)

some_end : (a b : Driver × Verdict) → some a ≡ some b → a ≡ b
some_end a b e = ground arith

turn-Goes :
    (t : ℕ) (i : TurnInput) (d : Driver) (r : Driver × Verdict)
    → Draining t d
    → turn i d ≡ some r
    → Goes t i r
unfolding turn
turn-Goes t i d r h e =
    let ((d1, b1), e1, f1) =
      >>=-some (intake i.pads i.senders_gone fresh_budget d (d.inbox ++ i.arrived)) _ r e in
    let ((d3, b3), e3, f3) =
      >>=-some (reap b1 (submit_ring i.before_reap d1).0 i.completions) _ r f1 in
    let h1 =
      intake-Draining t i.pads i.senders_gone fresh_budget d (d.inbox ++ i.arrived) (d1, b1) h e1 in
    let h2 = submit_ring-Draining t i.before_reap d1 h1 in
    let h3 = reap-Draining t b1 (submit_ring i.before_reap d1).0 i.completions (d3, b3) h2 e3 in
    let before = (submit_ring i.before_reap d1).1 in
    subst (Goes t i) (some_end (rest i before (d3, b3)) r f3) (rest-Goes t i before d3 b3 h3)

drive_next :
    (t : ℕ) (before after : List TurnInput) (i : TurnInput) (r last : Driver × Verdict)
    → Goes t i r
    → ((d : Driver) → Draining t d → i.later < t → drive after d ≡ some last → last.1 ≢ running)
    → elim r.1 [
      | running ↦ drive after r.0
      | drained ↦ some (r.0, drained)
      | leaked ↦ some (r.0, leaked)
    ]
      ≡ some last
    → last.1 ≢ running
drive_next t before after i (d, running) last (h, early) go e = go d h early e
drive_next t before after i (d, drained) last h go e = ground arith
drive_next t before after i (d, leaked) last h go e = ground arith

-- A driver that drains with the deadline `t` does not run on after a turn whose clock has reached `t`:
-- a run that contains such a turn, and does not panic, has ended, drained or leaked.
pub drive-ends :
    (t : ℕ) (before after : List TurnInput) (i : TurnInput) (d : Driver) (r : Driver × Verdict)
    → Draining t d
    → t ≤ i.later
    → drive (before ++ i ∷ after) d ≡ some r
    → r.1 ≢ running
unfolding drive
drive-ends t [] after i d r h past e =
    let (x, ex, e') = >>=-some (turn i d) _ r e in
    drive_next t [] after i x r (turn-Goes t i d x h ex)
      (λ d' h' early e2. absurd (omega (arith, early, past))) e'
drive-ends t (b ∷ before) after i d r h past e =
    let (x, ex, e') = >>=-some (turn b d) _ r e in
    drive_next t before (before ++ i ∷ after) b x r (turn-Goes t b d x h ex)
      (λ d' h' early e2. drive-ends t before after i d' r h' past e2) e'
