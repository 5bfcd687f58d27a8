-- ===== src/Ordered/Chain.antt =====
-- The slots of the ordered reader hold consecutive ranges, with their handles or their results.
use mathlib.Core.Option
use uring.Prelude.{
  ℕ, suc, ◌+◌, ◌-◌, ◌<◌, ◌≡◌, refl, ap, sym, ◌∙◌, ◌⊎◌, inl, inr, min, Bool, true, false, Option,
  none, some, List, [], ◌∷◌, ◌++◌, take, Bool-cases,
}
use uring.Sys.{IoResult}
use uring.Handle.{Poll}
use uring.Ordered.{
  State, Slot, Source, checked_result, is_terminal, poll_state, poll_slot, poll_slots,
}
use uring.Ordered.Bounds.{State-cases}
use uring.Ordered.Sequential.{Serves}

pub Poll-cases : {A : Type 0} (p : Poll A) → (p ≡ Poll.pending) ⊎ ((x : A) × (p ≡ Poll.ready x))
Poll-cases Poll.pending = inl refl
Poll-cases (Poll.ready x) = inr (x, refl)

module _ {F S E : Type 0} {src : Source F S E} {answer : ℕ → ℕ → IoResult (List ℕ)}
    (a : Serves src answer) (end chunk : ℕ) where
  open a use {For, kept, given}

  -- What a slot may hold that reads `len` bytes from `offset`.
  abbrev pub Holds : ℕ → ℕ → State F → Type 0
  Holds offset len (State.pending f) = For f offset len
  Holds offset len (State.ready result) = result ≡ checked_result len (answer offset len)

  pub record IsGood (offset : ℕ) (s : Slot F) : Type 0 where
    pub at : s.offset ≡ offset
    pub len : s.len ≡ min (end - offset) chunk
    pub inside : offset < end
    pub holds : Holds offset s.len s.state

  -- Consecutive slots from `offset` on, the last terminal if no more are scheduled, and no other.
  abbrev pub Chain : Bool → ℕ → ℕ → List (Slot F) → Type 0
  Chain stop next offset [] = (stop ≡ false) × (offset ≡ next)
  Chain stop next offset (s ∷ ss) =
      IsGood offset s
      × (((is_terminal s ≡ false) × Chain stop next (offset + s.len) ss)
          ⊎ ((is_terminal s ≡ true) × (stop ≡ true) × (ss ≡ [])))

  pub Chain-push :
      (next offset : ℕ) (ss : List (Slot F)) (s : Slot F)
      → Chain false next offset ss
      → IsGood next s
      → is_terminal s ≡ false
      → Chain false (next + s.len) offset (ss ++ s ∷ [])
  Chain-push next offset [] s (go, e) g t = (rw e g, inl (t, (refl, rw e (refl))))
  Chain-push next offset (s' ∷ ss) s (g', inl (t', c)) g t =
      (g', inl (t', Chain-push next (offset + s'.len) ss s c g t))
  Chain-push next offset (s' ∷ ss) s (g', inr (t', e, n)) g t = absurd (cc)

  poll_state-Holds :
      (e : E) (offset len : ℕ) (st : State F)
      → Holds offset len st
      → Holds offset len (poll_state src e len st)
  unfolding poll_state
  poll_state-Holds e offset len (State.ready result) h = h
  poll_state-Holds e offset len (State.pending f) h = elim (Poll-cases (src.poll e f).0) [
    | inl waits ↦ rw (waits, poll_state) (kept e f offset len h waits)
    | inr (result, arrived) ↦
        rw (arrived, poll_state) (ap (checked_result len) (given e f offset len result h arrived))
  ]

  poll_slot-IsGood :
      (e : E) (offset : ℕ) (s : Slot F) → IsGood offset s → IsGood offset (poll_slot src e s)
  poll_slot-IsGood e offset s g = record {
    at = g.at;
    len = g.len;
    inside = g.inside;
    holds = poll_state-Holds e offset s.len s.state g.holds;
  }

  -- A terminal slot is not polled.
  poll_slot-is_terminal : (e : E) (s : Slot F) → is_terminal s ≡ true → poll_slot src e s ≡ s
  unfolding poll_state is_terminal
  poll_slot-is_terminal e s t = elim (State-cases s.state) [
    | inl (f, w) ↦ absurd (cc (sym t, w))
    | inr (result, w) ↦
        ap (λ (st : State F). record s { state = st }) (ap (poll_state src e s.len) w ∙ sym w)
  ]

  abbrev pub Cut : Bool → ℕ → ℕ → List (Slot F) → Option ℕ → Type 0
  Cut stop next offset ss none = Chain stop next offset ss
  Cut stop next offset ss (some index) = Chain true next offset (take (suc index) ss)

  Cut-cons :
      (stop : Bool) (next offset : ℕ) (s : Slot F) (ss : List (Slot F)) (at : Option ℕ)
      → IsGood offset s
      → is_terminal s ≡ false
      → Cut stop next (offset + s.len) ss at
      → Cut stop next offset (s ∷ ss) (Option.map suc at)
  Cut-cons stop next offset s ss none g t c = (g, inl (t, c))
  Cut-cons stop next offset s ss (some index) g t c = (g, inl (t, c))

  pub poll_slots-Cut :
      (e : E) (stop : Bool) (next offset : ℕ) (ss : List (Slot F))
      → Chain stop next offset ss
      → Cut stop next offset (poll_slots src e ss).0 (poll_slots src e ss).1
  unfolding poll_slots
  poll_slots-Cut e stop next offset [] c = c
  poll_slots-Cut e stop next offset (s ∷ ss) (g, rest) =
      let g' = poll_slot-IsGood e offset s g in
      elim (Bool-cases (is_terminal (poll_slot src e s))) [
        | inl t ↦ rw t (g', inr (t, refl, refl))
        | inr t ↦ elim rest [
          | inl (t', c) ↦ rw t (
              Cut-cons stop next offset (poll_slot src e s) _ _ g' t
                (poll_slots-Cut e stop next (offset + s.len) ss c))
          | inr (t', _, _) ↦
              absurd (cc (ap (λ (s : Slot F). is_terminal s) (poll_slot-is_terminal e s t'), t, t'))
        ]
      ]
