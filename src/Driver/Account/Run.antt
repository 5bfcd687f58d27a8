-- ===== src/Driver/Account/Run.antt =====
-- A run of turns answers every caller once.
use uring.Prelude.{
  ℕ, ◌+◌, ◌≡◌, ◌≢◌, refl, sym, ap, subst, ◌∙◌, ◌==◌, if◌then◌else◌, none, some, List, [], ◌∷◌, ◌++◌,
  arith, inl, inr, Option-cases,
}
use uring.Prelude.Map.{total}
use uring.Admission.{ReadPermits}
use uring.Pending.{Pending}
use uring.Driver.{Driver, Msg, read, cancel, shutdown}
use uring.Driver.Inv.{Inv}
use uring.Driver.Turn.{TurnInput, Verdict, running, drained, leaked, turn, drive}
use uring.Driver.Turn.Drain.{Outcome, callers}
use uring.Driver.Turn.Safety.{MeetsAll, turn-Outcome, drive-Outcome}
use uring.Driver.Account.{
  caller_weight, entry_weight, inbox_weight, replies_weight, released_weight, taken,
}
use uring.Driver.Account.Turn.{turn-taken}

-- The messages that have arrived in a run until it ends.
unfoldable pub arrivals : List TurnInput → Driver → List Msg
arrivals [] d = []
arrivals (i ∷ is) d = i.arrived ++ elim (turn i d) [
  | none ↦ []
  | some (d', verdict) ↦ elim verdict [ running ↦ arrivals is d' | drained ↦ [] | leaked ↦ [] ]
]

some_end : (x r : Driver × Verdict) → some x ≡ some r → x ≡ r
some_end x r e = cc e

kept :
    (i : TurnInput) (d : Driver) (x : Driver × Verdict)
    → turn i d ≡ some x
    → Outcome x
    → (d' : Driver) → turn i d ≡ some (d', running)
    → Inv d'
unfolding Outcome
kept i d x e o d' e' = subst Outcome (some_end x (d', running) (sym e ∙ e')) o

module _ (w : ℕ → ℕ) (g : ReadPermits → ℕ) where
  inbox_weight-append :
      (ms ns : List Msg) → inbox_weight w g (ms ++ ns) ≡ inbox_weight w g ms + inbox_weight w g ns
  inbox_weight-append [] ns = omega arith
  inbox_weight-append (read m ∷ ms) ns = omega (arith, inbox_weight-append ms ns)
  inbox_weight-append (cancel id ∷ ms) ns = inbox_weight-append ms ns
  inbox_weight-append (shutdown ∷ ms) ns = inbox_weight-append ms ns

  ends_there :
      (x r : Driver × Verdict)
      → some x ≡ some r
      → inbox_weight w g r.0.inbox + taken w g r.0 ≡ inbox_weight w g x.0.inbox + taken w g x.0
  ends_there x r e =
      ap (λ (r : Driver × Verdict). inbox_weight w g r.0.inbox + taken w g r.0)
        (sym (some_end x r e))

  after_turn :
      (i : TurnInput) (is : List TurnInput) (d : Driver) (x r : Driver × Verdict)
      → turn i d ≡ some x
      → drive (i ∷ is) d ≡ some r
      → inbox_weight w g x.0.inbox + taken w g x.0
        ≡ inbox_weight w g (d.inbox ++ i.arrived) + taken w g d
      → ((d' : Driver)
          → turn i d ≡ some (d', running)
          → drive is d' ≡ some r
          → inbox_weight w g r.0.inbox + taken w g r.0
            ≡ inbox_weight w g (arrivals is d') + inbox_weight w g d'.inbox + taken w g d')
      → inbox_weight w g r.0.inbox + taken w g r.0
        ≡ inbox_weight w g (arrivals (i ∷ is) d) + inbox_weight w g d.inbox + taken w g d
  unfolding drive arrivals
  after_turn i is d (d', running) r e run t go =
      let rest = go d' e (rw e at run) in
      rw e (rw inbox_weight-append (omega (arith, rest, t, inbox_weight-append d.inbox i.arrived)))
  after_turn i is d (d', drained) r e run t go =
      let same = ends_there (d', drained) r (rw e at run) in
      rw e (rw inbox_weight-append (omega (arith, same, t, inbox_weight-append d.inbox i.arrived)))
  after_turn i is d (d', leaked) r e run t go =
      let same = ends_there (d', leaked) r (rw e at run) in
      rw e (rw inbox_weight-append (omega (arith, same, t, inbox_weight-append d.inbox i.arrived)))

  -- Over a run, nothing is lost or doubled.
  drive-taken :
      (is : List TurnInput) (d : Driver) (r : Driver × Verdict)
      → MeetsAll is d
      → Inv d
      → drive is d ≡ some r
      → inbox_weight w g r.0.inbox + taken w g r.0
        ≡ inbox_weight w g (arrivals is d) + inbox_weight w g d.inbox + taken w g d
  unfolding drive arrivals MeetsAll Outcome
  drive-taken [] d r m v run = let same = ends_there (d, running) r run in omega (arith, same)
  drive-taken (i ∷ is) d r m v run =
      let (x, e, o) = turn-Outcome i d m.0 v in
      after_turn i is d x r e run (turn-taken w g i d x m.0.messages e)
        (λ d' e' run'. drive-taken is d' r (m.1 d' e') (kept i d x e o d' e') run')

-- The account of one caller alone.
abbrev pub caller_is : ℕ → ℕ → ℕ
caller_is tx k = if k == tx then 1 else 0

abbrev pub no_permits : ReadPermits → ℕ
no_permits p = 0

-- How often a caller is answered, is asked for in messages, and waits in the table.
abbrev pub answers : ℕ → Driver → ℕ
answers tx d = replies_weight (caller_is tx) no_permits d.replies

abbrev pub requests : ℕ → List Msg → ℕ
requests tx ms = inbox_weight (caller_is tx) no_permits ms

abbrev pub waits : ℕ → Driver → ℕ
waits tx d = total (entry_weight (caller_is tx) no_permits) d.pending

released-none : (ps : List ReadPermits) → released_weight (caller_is 0) no_permits ps ≡ 0
released-none [] = refl
released-none (p ∷ ps) = omega (arith, released-none ps)

nobody_waits :
    (w : ℕ → ℕ) (m : List (ℕ × Pending)) → callers m ≡ [] → total (entry_weight w no_permits) m ≡ 0
unfolding total
nobody_waits w [] e = refl
nobody_waits w ((id, p) ∷ m) e = elim (Option-cases p.done) [
  | inl n ↦
      omega (arith, nobody_waits w m (rw (n, callers) at e), ap (caller_weight w no_permits) n)
  | inr (tx, s) ↦ absurd (cc (rw (s, callers) at e))
]

ended-nobody : (d : Driver) (v : Verdict) → Outcome (d, v) → v ≢ running → callers d.pending ≡ []
unfolding Outcome
ended-nobody d running o h = absurd (h refl)
ended-nobody d drained o h = ap callers o.2
ended-nobody d leaked o h = o.2

-- Whenever the loop ends, drained or leaked, a caller whose read was asked for once has been answered
-- exactly once, unless its message is still in the channel, which the thread's end drops: for a run
-- from the invariant, with messages that the handles send and completions that the kernel gives, in
-- which the caller stands once in all among the messages, the table and the answers given before.
pub drive-answers_once :
    (tx : ℕ) (is : List TurnInput) (d : Driver) (r : Driver × Verdict)
    → MeetsAll is d
    → Inv d
    → drive is d ≡ some r
    → r.1 ≢ running
    → requests tx (arrivals is d) + requests tx d.inbox + waits tx d + answers tx d ≡ 1
    → answers tx r.0 + requests tx r.0.inbox ≡ 1
drive-answers_once tx is d r m v run over once =
    let (x, e, o) = drive-Outcome is d m v in
    let same = some_end x r (sym e ∙ run) in
    let none_left = ended-nobody r.0 r.1 (subst Outcome same o) over in
    omega (
      arith,
      drive-taken (caller_is tx) no_permits is d r m v run,
      nobody_waits (caller_is tx) r.0.pending none_left,
      once,
      released-none d.released,
      released-none r.0.released,
    )
