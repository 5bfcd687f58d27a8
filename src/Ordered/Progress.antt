-- ===== src/Ordered/Progress.antt =====
-- A consumer of the ordered reader that is woken often enough gets everything.
use uring.Prelude.{
  ℕ, zero, suc, ◌+◌, ◌≡◌, ◌≢◌, refl, ap, sym, ◌∙◌, subst, ◌⊎◌, inl, inr, Option, none, some, List,
  [], ◌∷◌, arith, length, Bool-cases, if-elim,
}
use uring.Sys.{IoResult, ok, err}
use uring.Handle.{Poll}
use uring.Ordered.{
  Config, Chunk, State, Slot, OrderedReader, Source, new, is_terminal, poll_state, poll_slot,
  poll_slots, fill_window, cut, take_front, poll_next, running, Outcome, and_then, collected,
  consume,
}
use uring.Ordered.Made.{new_lem}
use uring.Ordered.Sequential.{Serves, sequential_ends, whole_range}
use uring.Ordered.Deliver.{Refines, Matches, poll_next-Matches}
use uring.Ordered.Chain.{Poll-cases}
use uring.Ordered.Refines.{new-Refines}

module _ {F S E : Type 0} (src : Source F S E) where
  -- Surroundings in which every handle is ready.
  abbrev pub IsPrompt : E → Type 0
  IsPrompt e = (f : F) → (src.poll e f).0 ≢ Poll.pending

  -- At least `n` of the polls meet such surroundings.
  abbrev pub Prompts : ℕ → List E → Type 0
  Prompts zero es = Unit
  Prompts (suc n) [] = ⊥
  Prompts (suc n) (e ∷ es) = (IsPrompt e × Prompts n es) ⊎ Prompts (suc n) es

  Prompts-le : (n : ℕ) (es : List E) → Prompts (suc n) es → Prompts n es
  Prompts-le zero es h = tt
  Prompts-le (suc n) [] h = h
  Prompts-le (suc n) (e ∷ es) (inl (now, h)) = inr h
  Prompts-le (suc n) (e ∷ es) (inr h) = inr (Prompts-le (suc n) es h)

  abbrev Front : List (Slot F) → Type 0
  Front [] = Unit
  Front (s ∷ ss) = (result : IoResult (List ℕ)) × (s.state ≡ State.ready result)

  poll_state-ready :
      (e : E) (len : ℕ) (st : State F)
      → IsPrompt e
      → (result : IoResult (List ℕ)) × (poll_state src e len st ≡ State.ready result)
  unfolding poll_state
  poll_state-ready e len (State.ready result) h = (result, refl)
  poll_state-ready e len (State.pending f) h = elim (Poll-cases (src.poll e f).0) [
    | inl waits ↦ absurd (h f waits)
    | inr (result, arrived) ↦ rw (arrived, poll_state) (_, refl)
  ]

  poll_slots-Front : (e : E) (ss : List (Slot F)) → IsPrompt e → Front (poll_slots src e ss).0
  unfolding poll_slots
  poll_slots-Front e [] h = tt
  poll_slots-Front e (s ∷ ss) h = elim (Bool-cases (is_terminal (poll_slot src e s))) [
    | inl t ↦ rw t (poll_state-ready e s.len s.state h)
    | inr t ↦ rw t (poll_state-ready e s.len s.state h)
  ]

  cut-Front :
      (r : OrderedReader F S) (ss : List (Slot F)) (at : Option ℕ)
      → Front ss
      → Front (cut r ss at).slots
  cut-Front r ss none h = h
  cut-Front r [] (some index) h = h
  cut-Front r (s ∷ ss) (some index) h = h

  take_front-ready :
      (r : OrderedReader F S) (ss : List (Slot F)) → Front ss → (take_front r ss).1 ≢ Poll.pending
  unfolding take_front
  take_front-ready r [] h = cc
  take_front-ready r (s ∷ ss) (err x, arrived) = rw (arrived, take_front) (cc)
  take_front-ready r (s ∷ ss) (ok bytes, arrived) = rw (arrived, take_front) (cc)

  poll_next-ready :
      (e : E) (r : OrderedReader F S) → IsPrompt e → (poll_next src e r).1 ≢ Poll.pending
  unfolding poll_next
  poll_next-ready e r h =
      if-elim {A = OrderedReader F S × Poll (IoResult (Option Chunk))} (λ p. p.1 ≢ Poll.pending)
        r.finished _ _ (λ _. cc)
        (λ _.
          take_front-ready _ _
            (cut-Front (fill_window src r) _ _ (poll_slots-Front e (fill_window src r).slots h)))

module _ {F S E : Type 0} {src : Source F S E} {answer : ℕ → ℕ → IoResult (List ℕ)}
    (a : Serves src answer) (end : ℕ) (c : Config) where
  collected_all :
      (r : OrderedReader F S) (p : Poll (IoResult (Option Chunk))) (rest out : Outcome) (e : E)
      (es : List E)
      → Matches a end c r p out
      → out.1 ≢ running
      → Prompts src (suc (length out.0)) (e ∷ es)
      → (IsPrompt src e → p ≢ Poll.pending)
      → ((out : Outcome)
          → Refines a end c r out
          → out.1 ≢ running
          → Prompts src (suc (length out.0)) es
          → rest ≡ out)
      → collected p rest ≡ out
  collected_all r Poll.pending rest out e es m over (inl (now, h)) ready ih =
      absurd (ready now refl)
  collected_all r Poll.pending rest out e es m over (inr h) ready ih = ih out m over h
  collected_all r (Poll.ready (err x)) rest out e es m over h ready ih = sym m
  collected_all r (Poll.ready (ok none)) rest out e es m over h ready ih = sym m
  collected_all r (Poll.ready (ok (some chunk))) rest out e es (out', is, m) over h ready ih =
      let counted : length out.0 ≡ suc (length out'.0) = ap (λ (o : Outcome). length o.0) is in
      let left : Prompts src (suc (length out'.0)) es =
        elim (subst (λ (n : ℕ). Prompts src (suc n) (e ∷ es)) counted h) [
          | inl (now, h') ↦ h'
          | inr h' ↦ Prompts-le src (suc (length out'.0)) es h'
        ] in
      ap (and_then chunk) (ih out' m (λ q. over (ap (λ (o : Outcome). o.1) is ∙ q)) left) ∙ sym is

  consume_all :
      (es : List E) (r : OrderedReader F S) (out : Outcome)
      → Refines a end c r out
      → out.1 ≢ running
      → Prompts src (suc (length out.0)) es
      → consume src es r ≡ out
  unfolding consume
  consume_all [] r out v over h = absurd h
  consume_all (e ∷ es) r out v over h =
      collected_all (poll_next src e r).0 (poll_next src e r).1
        (consume src es (poll_next src e r).0) out e es (poll_next-Matches a end c e r out v) over h
        (poll_next-ready src e r) (consume_all es (poll_next src e r).0)

-- For a source whose handles, once they are ready, have what `answer` says of their ranges: a consumer
-- that is polled when every handle is ready at least once more than there are chunks, whatever other
-- polls come between, gets exactly the chunks of one read after another, and their end or their error;
-- and the reads do come to an end or an error.
pub consume-eq-sequential :
    {F S E : Type 0} {src : Source F S E} (answer : ℕ → ℕ → IoResult (List ℕ))
    → Serves src answer
    → (c : Config) (source : S) (r : OrderedReader F S) (es : List E) → new c source ≡ ok r
    → Prompts src (suc (length (whole_range answer c).0)) es
    → (consume src es r ≡ whole_range answer c) × ((whole_range answer c).1 ≢ running)
consume-eq-sequential answer a c source r es made enough =
    let (e, is, valid, sum, fits) = new_lem c source r made in
    let over =
      sequential_ends answer (c.offset + c.length) c.chunk (suc c.length) c.offset valid.some_chunk
        (omega arith) in
    (
      consume_all a (c.offset + c.length) c es r _
          (new-Refines a (c.offset + c.length) c source r made refl) over enough,
      over,
    )
