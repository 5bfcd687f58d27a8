-- ===== src/Driver/Turn/Drain.antt =====
-- The exits of the driver thread: the clean drain, the bounded wait, and the leak.
use uring.Prelude.{
  ℕ, ◌+◌, ◌%◌, ◌≤◌, ◌<◌, ◌≡◌, refl, sym, ap, subst, ◌∙◌, ◌≢◌, inl, inr, true, false, ◌&&◌, leb,
  none, some, List, [], ◌∷◌, arith, length, Bool-cases, Option-cases,
}
use uring.Prelude.Word.{word}
use uring.Sys.{IoResult}
use uring.Pending.{Pending}
use uring.Driver.{Driver}
use uring.Driver.Inv.{Inv, Inv-frame}
use uring.Driver.Turn.{
  Verdict, running, drained, leaked, leak_error, answer, fail_stranded, deadline, leak, exit,
  is_empty,
}

-- The callers of the reads in the table.
abbrev pub callers : List (ℕ × Pending) → List ℕ
callers [] = []
callers ((id, p) ∷ m) = elim p.done [ none ↦ callers m | some tx ↦ tx ∷ callers m ]

-- The entries without their callers.
abbrev pub silenced : List (ℕ × Pending) → List (ℕ × Pending)
silenced [] = []
silenced ((id, p) ∷ m) = (id, record p { done = none }) ∷ silenced m

fail_stranded-pending :
    (m : List (ℕ × Pending)) (r : List (ℕ × IoResult (List ℕ))) → (fail_stranded m r).0 ≡ silenced m
unfolding fail_stranded
fail_stranded-pending [] r = refl
fail_stranded-pending ((id, p) ∷ m) r =
    ap (◌∷◌ (id, record p { done = none })) (fail_stranded-pending m (answer p.done r))

abbrev pub failures : List ℕ → List (ℕ × IoResult (List ℕ)) → List (ℕ × IoResult (List ℕ))
failures [] r = r
failures (tx ∷ ts) r = failures ts ((tx, leak_error) ∷ r)

fail_stranded-replies :
    (m : List (ℕ × Pending)) (r : List (ℕ × IoResult (List ℕ)))
    → (fail_stranded m r).1 ≡ failures (callers m) r
unfolding fail_stranded
fail_stranded-replies [] r = refl
fail_stranded-replies ((id, p) ∷ m) r = elim (Option-cases p.done) [
  | inl n ↦ rw (n, callers, answer) (fail_stranded-replies m r)
  | inr (tx, e) ↦ rw (e, callers, answer) (fail_stranded-replies m ((tx, leak_error) ∷ r))
]

-- The leak answers every caller that waits with an error, once; it keeps every entry with its buffer
-- and its permits, and drops no permit.
pub leak-answers :
    (d : Driver)
    → ((leak d).replies ≡ failures (callers d.pending) d.replies)
      × ((leak d).pending ≡ silenced d.pending)
      × ((leak d).released ≡ d.released)
unfolding leak
leak-answers d =
    (fail_stranded-replies d.pending d.replies, fail_stranded-pending d.pending d.replies, refl)

is_empty-nil {ℓ} : {A : Type ℓ} (xs : List A) → is_empty xs ≡ true → xs ≡ []
is_empty-nil [] h = refl
is_empty-nil (x ∷ xs) h = cc h

-- What is true of the state that a turn ends in.
unfoldable pub Outcome : Driver × Verdict → Type 0
Outcome (d, running) = Inv d
Outcome (d, drained) =
    (d.shutting_down ≡ true)
    × (d.sem_closed ≡ true)
    × (d.pending ≡ [])
    × (d.backlog ≡ [])
    × (d.stats.in_flight ≡ 0)
    × (d.stats.submitted ≡ (d.stats.delivered + d.stats.orphan_reclaimed) % word)
Outcome (d, leaked) = (d.shutting_down ≡ true) × (d.sem_closed ≡ true) × (callers d.pending ≡ [])

silenced-callers : (m : List (ℕ × Pending)) → callers (silenced m) ≡ []
silenced-callers [] = refl
silenced-callers ((id, p) ∷ m) = silenced-callers m

-- The four ways out of the exit's tests.
pub data Exit (d : Driver) (now later : ℕ) (r : Driver × Verdict) : Type 0 where
  serving : d.shutting_down ≡ false → r ≡ (d, running) → Exit d now later r
  clean :
      d.shutting_down ≡ true
      → d.pending ≡ []
      → d.backlog ≡ []
      → r ≡ (record d { sem_closed = true }, drained)
      → Exit d now later r
  late :
      d.shutting_down ≡ true
      → deadline d now ≤ later
      → r ≡ (leak (record d { drain_deadline = some (deadline d now) }), leaked)
      → Exit d now later r
  waiting :
      d.shutting_down ≡ true
      → later < deadline d now
      → r ≡ (record d { drain_deadline = some (deadline d now) }, running)
      → Exit d now later r

pub exit-cases : (d : Driver) (now later : ℕ) → Exit d now later (exit d now later)
unfolding exit
exit-cases d now later = elim (Bool-cases d.shutting_down) [
  | inr up ↦ serving up (simp up)
  | inl down ↦ elim (Bool-cases (is_empty d.pending && is_empty d.backlog)) [
    | inl empty ↦
        clean down (is_empty-nil d.pending (ground arith)) (is_empty-nil d.backlog (ground arith))
          (simp (down, empty))
    | inr busy ↦ elim (Bool-cases (leb (deadline d now) later)) [
      | inl past ↦ late down (ground arith) (simp (down, busy, past))
      | inr before ↦ waiting down (ground arith) (simp (down, busy, before))
    ]
  ]
]

-- What the exit decides, for a driver that keeps the invariant.
pub exit-Outcome : (d : Driver) (now later : ℕ) → Inv d → Outcome (exit d now later)
unfolding Outcome leak
exit-Outcome d now later i = elim (exit-cases d now later) [
  | serving up e ↦ subst Outcome (sym e) i
  | clean down ep eb e ↦
      let none_left : d.stats.in_flight ≡ 0 =
        i.in_flight ∙ ap (λ (m : List (ℕ × Pending)). length m % word) ep in
      subst Outcome (sym e) (down, refl, ep, eb, none_left, omega (arith, i.conserved, none_left))
  | late down past e ↦ subst Outcome (sym e) (
    down,
    refl,
    ap callers (fail_stranded-pending d.pending d.replies) ∙ silenced-callers d.pending,
  )
  | waiting down before e ↦ subst Outcome (sym e) (Inv-frame d _ refl refl refl refl refl refl i)
]

drained-running : drained ≢ running
drained-running e = ground arith

leaked-running : leaked ≢ running
leaked-running e = ground arith

-- The drain is bounded: when a driver that shuts down is to run on, the deadline is set, to what
-- it was or else to `drain_timeout` after now, and the clock has not reached it.
pub exit-bounded :
    (d : Driver) (now later : ℕ)
    → d.shutting_down ≡ true
    → ((exit d now later).1 ≡ running)
    → ((exit d now later).0.drain_deadline ≡ some (deadline d now)) × (later < deadline d now)
exit-bounded d now later down h = elim (exit-cases d now later) [
  | serving up e ↦ cc (down, up)
  | clean _ ep eb e ↦ absurd (drained-running (sym (ap (λ (r : Driver × Verdict). r.1) e) ∙ h))
  | late _ past e ↦ absurd (leaked-running (sym (ap (λ (r : Driver × Verdict). r.1) e) ∙ h))
  | waiting _ before e ↦ (ap (λ (r : Driver × Verdict). r.0.drain_deadline) e, before)
]
