-- ===== src/Driver/Turn/Safety.antt =====
-- A turn of the driver, and a run of turns: no panic, and the invariant.
use uring.Prelude.{ℕ, ◌≡◌, refl, ◌==◌, some, List, [], ◌∷◌, ◌++◌, Bool-cases, inl, inr}
use uring.Prelude.Word.{saturating_add}
use uring.Budget.{TurnBudget, fresh_budget}
use uring.Driver.{Driver}
use uring.Driver.Inv.{Inv, Inv-frame}
use uring.Driver.Intake.{intake}
use uring.Driver.Intake.Keys.{Sound}
use uring.Driver.Intake.Safety.{intake-Inv}
use uring.Driver.Submit.{submit_ring, update_cq_overflow}
use uring.Driver.Submit.Failure.{submit_ring-Inv}
use uring.Driver.Reap.Safety.{FitsAll, reap-Inv}
use uring.Driver.Turn.{
  TurnInput, Verdict, running, drained, leaked, exit, set_continue, turn, drive,
}
use uring.Driver.Turn.Drain.{Outcome, exit-Outcome}

-- What a turn may meet: messages of the driver's handles, and completions of the kernel for the state
-- in which they are reaped.
pub record Meets (d : Driver) (i : TurnInput) : Type 0 where
  pub messages : Sound d (d.inbox ++ i.arrived)
  pub kernel :
      (x : Driver × TurnBudget)
      → intake i.pads i.senders_gone fresh_budget d (d.inbox ++ i.arrived) ≡ some x
      → FitsAll (submit_ring i.before_reap x.0).0 i.completions

update_cq_overflow-Inv : (d : Driver) (n : ℕ) → Inv d → Inv (update_cq_overflow d n).0
unfolding update_cq_overflow
update_cq_overflow-Inv d n i = elim (Bool-cases (n == d.previous_cq_overflow)) [
  | inl same ↦ simp same i
  | inr other ↦ simp other (Inv-frame d _ refl refl refl refl refl refl i)
]

set_continue-Outcome :
    (i : TurnInput) (b : TurnBudget) (n : ℕ) (r : Driver × Verdict)
    → Outcome r
    → Outcome (set_continue i b n r)
unfolding set_continue Outcome
set_continue-Outcome i b n (d, running) h = Inv-frame d _ refl refl refl refl refl refl h
set_continue-Outcome i b n (d, drained) h = h
set_continue-Outcome i b n (d, leaked) h = h

-- What a turn does after the reap phase.
abbrev pub rest : TurnInput → ℕ → Driver × TurnBudget → Driver × Verdict
rest i before (d, b) =
    set_continue i b (saturating_add before (submit_ring i.after_reap d).1)
      (exit (update_cq_overflow (submit_ring i.after_reap d).0 i.overflow).0 i.now i.later)

rest-Outcome :
    (i : TurnInput) (before : ℕ) (x : Driver × TurnBudget) → Inv x.0 → Outcome (rest i before x)
rest-Outcome i before (d, b) v =
    let v4 = submit_ring-Inv i.after_reap d v in
    let v5 = update_cq_overflow-Inv (submit_ring i.after_reap d).0 i.overflow v4 in
    set_continue-Outcome i b _ _ (exit-Outcome _ i.now i.later v5)

-- One turn of a driver with the invariant, with messages that the handles send and completions
-- that the kernel gives, never panics, and ends in a state that fits its verdict: the invariant
-- when the loop goes on; no entry, an empty backlog, none in flight and every accepted read
-- delivered or reclaimed after a clean drain; no caller waiting after a leak.
pub turn-Outcome :
    (i : TurnInput) (d : Driver)
    → Meets d i
    → Inv d
    → (r : Driver × Verdict) × (turn i d ≡ some r) × Outcome r
unfolding turn
turn-Outcome i d m v =
    let ((d1, b1), e1, v1, s1) =
      intake-Inv i.pads i.senders_gone fresh_budget d (d.inbox ++ i.arrived) m.messages v in
    let v2 = submit_ring-Inv i.before_reap d1 v1 in
    let ((d3, b3), e3, v3) =
      reap-Inv b1 (submit_ring i.before_reap d1).0 i.completions (m.kernel (d1, b1) e1) v2 in
    let before = (submit_ring i.before_reap d1).1 in
    (rest i before (d3, b3), rw (e1, e3) refl, rest-Outcome i before (d3, b3) v3)

-- The turns of a run, each of which meets what it may.
unfoldable pub MeetsAll : List TurnInput → Driver → Type 0
MeetsAll [] d = Unit {0}
MeetsAll (i ∷ is) d = Meets d i × ((d' : Driver) → turn i d ≡ some (d', running) → MeetsAll is d')

-- A run ends well.
abbrev pub EndsWell : List TurnInput → Driver → Type 0
EndsWell is d = (r : Driver × Verdict) × (drive is d ≡ some r) × Outcome r

drive_step :
    (i : TurnInput) (is : List TurnInput) (d : Driver) (r : Driver × Verdict)
    → turn i d ≡ some r
    → Outcome r
    → ((d' : Driver) → turn i d ≡ some (d', running) → Inv d' → EndsWell is d')
    → EndsWell (i ∷ is) d
unfolding drive Outcome
drive_step i is d (d', running) e o go = let (r, er, fin) = go d' e o in (r, rw e er, fin)
drive_step i is d (d', drained) e o go = ((d', drained), rw e refl, o)
drive_step i is d (d', leaked) e o go = ((d', leaked), rw e refl, o)

-- A run of any number of turns never panics, if the driver starts with the invariant and each
-- turn meets messages that the handles send and completions that the kernel gives. It ends in a
-- state that fits its last verdict: the invariant while the loop goes on; no entry, an empty
-- backlog, no read in flight and every accepted read delivered or reclaimed after a clean drain;
-- no caller waiting after a leak; and the semaphore closed after either exit.
pub drive-Outcome : (is : List TurnInput) (d : Driver) → MeetsAll is d → Inv d → EndsWell is d
unfolding drive MeetsAll Outcome
drive-Outcome [] d m v = ((d, running), refl, v)
drive-Outcome (i ∷ is) d m v =
    let (r, e, o) = turn-Outcome i d m.0 v in
    drive_step i is d r e o (λ d' e' v'. drive-Outcome is d' (m.1 d' e') v')
