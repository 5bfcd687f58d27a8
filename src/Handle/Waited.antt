-- ===== src/Handle/Waited.antt =====
-- What one poll of a handle does.
use uring.Prelude.{
  ℕ, ◌≡◌, refl, subst, ◌⊎◌, inl, inr, true, false, Option, some, none, List, [], ◌∷◌, Bool-cases,
}
use uring.Sys.{IoResult, err, custom, other}
use uring.Admission.{ReadPermits}
use uring.Driver.{Msg}
use uring.Front.{Waiting, HandleState, waiting_permit, submitted, ReadHandle}
use uring.Handle.{
  Poll, pending, ready, PollInput, Effect, sends, wakes, drops_permits, Polled, received_result,
  receive, read_msg, hand_over, poll_waiting, poll,
}

abbrev pub IsWaiting : PollInput → Type 0
IsWaiting i = i.acquire ≡ pending

Poll-cases {ℓ} : {A : Type ℓ} (p : Poll A) → (p ≡ pending) ⊎ ((a : A) × (p ≡ ready a))
Poll-cases pending = inl refl
Poll-cases (ready a) = inr (a, refl)

abbrev pub with : ReadHandle → HandleState → ReadHandle
with h state = record h { state = state }

abbrev pub polled : ReadHandle → List Effect → Poll (IoResult (List ℕ)) → Polled
polled h effects result = record { handle = h; effects = effects; result = result }

abbrev pub over : ReadHandle → ReadHandle
over h = record h { finished = true }

pub receive-cases :
    (i : PollInput) (h : ReadHandle) (es : List Effect)
    → ((i.received ≡ pending) × (receive i h es ≡ polled h es pending))
      ⊎ ((a : Option (IoResult (List ℕ))) × (i.received ≡ ready a)
          × (receive i h es ≡ polled (over h) es (ready (received_result a))))
unfolding receive
receive-cases i h es = elim (Poll-cases i.received) [
  | inl e ↦ inl (e, rw (e, receive) refl)
  | inr (r, e) ↦ inr (r, e, rw (e, receive) refl)
]

abbrev pub handed : ReadHandle → Waiting → ReadPermits → List Effect
handed h w permit = sends h.tx (Msg.read (read_msg h w permit)) ∷ wakes w.shard ∷ []

abbrev gone_result : IoResult (List ℕ)
gone_result = err (custom other "uring driver shut down")

-- The five ways of a poll of a waiting handle.
pub data Waited (i : PollInput) (h : ReadHandle) (w : Waiting) (p : Polled) : Type 0 where
  waits : IsWaiting i → p ≡ polled (with h (waiting_permit w)) [] pending → Waited i h w p
  refused :
      (r : IoResult (List ℕ))
      → i.acquire ≡ ready none
      → p ≡ polled (over (with h (waiting_permit w))) [] (ready r)
      → Waited i h w p
  lost :
      (permit : ReadPermits) (r : IoResult (List ℕ))
      → i.acquire ≡ ready (some permit)
      → i.alive ≡ false
      → p ≡ polled (over (with h (submitted w.shard))) (drops_permits permit ∷ []) (ready r)
      → Waited i h w p
  given :
      (permit : ReadPermits)
      → i.acquire ≡ ready (some permit)
      → i.alive ≡ true
      → i.received ≡ pending
      → p ≡ polled (with h (submitted w.shard)) (handed h w permit) pending
      → Waited i h w p
  done :
      (permit : ReadPermits) (a : Option (IoResult (List ℕ)))
      → i.acquire ≡ ready (some permit)
      → i.alive ≡ true
      → i.received ≡ ready a
      → p
        ≡ polled (over (with h (submitted w.shard))) (handed h w permit) (ready (received_result a))
      → Waited i h w p

hand_over-Waited :
    (i : PollInput) (h : ReadHandle) (w : Waiting) (permit : ReadPermits)
    → i.acquire ≡ ready (some permit)
    → Waited i h w (hand_over i (with h (waiting_permit w)) w permit)
unfolding hand_over
hand_over-Waited i h w permit got = elim (Bool-cases i.alive) [
  | inr gone ↦ lost permit gone_result got gone (simp (gone, hand_over))
  | inl alive ↦ elim (receive-cases i (with h (submitted w.shard)) (handed h w permit)) [
    | inl (pends, e) ↦ given permit got alive pends (simp (alive, hand_over, e))
    | inr (a, came, e) ↦ done permit a got alive came (simp (alive, hand_over, e))
  ]
]

pub poll-Waited :
    (i : PollInput) (h : ReadHandle) (w : Waiting)
    → Waited i h w (poll i (with h (waiting_permit w)))
unfolding poll poll_waiting
poll-Waited i h w = elim (Poll-cases i.acquire) [
  | inl e ↦ waits e (simp (e, poll_waiting))
  | inr (none, e) ↦ refused gone_result e (simp (e, poll_waiting))
  | inr (some permit, e) ↦
      let same : hand_over i (with h (waiting_permit w)) w permit
          ≡ poll i (with h (waiting_permit w)) =
        simp (e, poll_waiting) in
      subst (λ p. Waited i h w p) same (hand_over-Waited i h w permit e)
]
