-- ===== src/Ordered/Deliver.antt =====
-- What a poll of the ordered reader answers is the next of the sequential reads.
use uring.Prelude.{
  ℕ, zero, suc, ◌+◌, ◌≤◌, ◌≡◌, refl, ap, sym, ◌∙◌, subst, ◌⊎◌, inl, inr, Bool, true, false, not,
  Option, none, some, List, [], ◌∷◌, ltb, leb, ◌||◌, arith, length, Bool-cases, if-elim,
}
use uring.Prelude.Word.{fetch_sub}
use uring.Sys.{IoResult, ok, err}
use uring.Handle.{Poll}
use uring.Ordered.{
  Config, Chunk, State, Slot, OrderedReader, Source, is_terminal, is_full, checked_result,
  poll_slots, fill_window, cut, conclude, take_front, poll_next, ended, failed, Outcome, and_then,
}
use uring.Ordered.Bounds.{
  IsBounded, State-cases, finished-IsBounded, cut-poll_slots-IsBounded, poll_slots-length,
  pop-IsBounded,
}
use uring.Ordered.Sequential.{Serves, sequential, followed}
use uring.Ordered.Chain.{IsGood, Holds, Chain, Cut, poll_slots-Cut}
use uring.Ordered.Window.{IsGoing, fill-IsGoing, fill_nothing}

module _ {F S E : Type 0} {src : Source F S E} {answer : ℕ → ℕ → IoResult (List ℕ)}
    (a : Serves src answer) (end : ℕ) (c : Config) where
  cut-IsGoing :
      (n offset : ℕ) (r : OrderedReader F S) (ss : List (Slot F)) (at : Option ℕ)
      → IsBounded c (cut r ss at)
      → Cut a end c.chunk r.stop_scheduling r.next_offset offset ss at
      → IsGoing a end c n offset r
      → IsGoing a end c n offset (cut r ss at)
  cut-IsGoing n offset r ss none b k v = record {
    bounded = b;
    ends = v.ends;
    going = v.going;
    chain = k;
    rounds = v.rounds;
  }
  cut-IsGoing n offset r ss (some index) b k v = record {
    bounded = b;
    ends = v.ends;
    going = v.going;
    chain = k;
    rounds = v.rounds;
  }

  scanned : E → OrderedReader F S → OrderedReader F S
  scanned e r = cut r (poll_slots src e r.slots).0 (poll_slots src e r.slots).1

  scanned-IsGoing :
      (n offset : ℕ) (e : E) (r : OrderedReader F S)
      → IsGoing a end c n offset r
      → IsGoing a end c n offset (scanned e r)
  unfolding scanned
  scanned-IsGoing n offset e r v =
      cut-IsGoing n offset r _ _ (cut-poll_slots-IsBounded src e r v.bounded)
        (poll_slots-Cut a end c.chunk e r.stop_scheduling r.next_offset offset r.slots v.chain) v

  -- What a poll leaves and answers, as the first of what is to come.
  abbrev pub Refines : OrderedReader F S → Outcome → Type 0
  Refines r out =
      ((r.finished ≡ true) × (out ≡ ([], ended)))
      ⊎ ((n : ℕ) × (offset : ℕ) × IsGoing a end c n offset r
          × (out ≡ sequential answer end c.chunk n offset))

  abbrev pub Matches : OrderedReader F S → Poll (IoResult (Option Chunk)) → Outcome → Type 0
  Matches r Poll.pending out = Refines r out
  Matches r (Poll.ready (err x)) out = out ≡ ([], failed x)
  Matches r (Poll.ready (ok none)) out = out ≡ ([], ended)
  Matches r (Poll.ready (ok (some chunk))) out =
      (rest : Outcome) × (out ≡ and_then chunk rest) × Refines r rest

  first_read :
      (n offset : ℕ) (s : Slot F) (result : IoResult (List ℕ))
      → IsGood a end c.chunk offset s
      → s.state ≡ State.ready result
      → (sequential answer end c.chunk (suc n) offset
          ≡ followed offset s.len result (sequential answer end c.chunk n (offset + s.len)))
        × (result ≡ checked_result s.len (answer offset s.len))
  unfolding sequential
  first_read n offset s result g arrived =
      let has : result ≡ checked_result s.len (answer offset s.len) =
        subst (λ (st : State F). Holds a end c.chunk offset s.len st) arrived g.holds in
      let more : leb end offset ≡ false = let inside = g.inside in ground arith in
      (rw more (rw (← g.len) (rw has refl)), has)

  checked_length :
      (len : ℕ) (bytes : List ℕ) (result : IoResult (List ℕ))
      → ok bytes ≡ checked_result len result
      → length bytes ≤ len
  unfolding checked_result
  checked_length len bytes (err x) h = cc
  checked_length len bytes (ok bs) h = ground arith

  module _ (n offset : ℕ) (r : OrderedReader F S) (s : Slot F) (ss : List (Slot F))
      (result : IoResult (List ℕ)) (e : r.slots ≡ s ∷ ss) (arrived : s.state ≡ State.ready result)
      (v : IsGoing a end c (suc n) offset r) where
    front : Chain a end c.chunk r.stop_scheduling r.next_offset offset (s ∷ ss)
    front =
        subst
          (λ (ss : List (Slot F)). Chain a end c.chunk r.stop_scheduling r.next_offset offset ss) e
          v.chain

    popped : OrderedReader F S
    popped = record r { slots = ss; reserved = fetch_sub r.reserved s.len }

    terminal : is_terminal s ≡ not (is_full s.len result)
    unfolding is_terminal
    terminal = rw (arrived, is_terminal)

    popped-IsGoing :
        is_full s.len result ≡ true
        → (b : Bool) → b ≡ false
        → IsGoing a end c n (offset + s.len) (record popped { finished = b })
    unfolding popped
    popped-IsGoing full b no_end = record {
      bounded = finished-IsBounded popped b (pop-IsBounded r s ss e v.bounded);
      ends = v.ends;
      going = no_end;
      chain = elim front.1 [
        | inl (_, rest) ↦ rest
        | inr (last, _, _) ↦ absurd (cc (last, terminal, ap not full))
      ];
      rounds =
          let g = front.0 in
          let b = v.bounded in
          let k = b.config in
          let same = ap (λ (g : Config). g.chunk) b.same in
          omega (arith, g.len, g.inside, v.rounds, k.some_chunk, same);
    }

  conclude-Matches :
      (n offset : ℕ) (r : OrderedReader F S) (s : Slot F) (ss : List (Slot F))
      (result : IoResult (List ℕ))
      → r.slots ≡ s ∷ ss
      → s.state ≡ State.ready result
      → IsGoing a end c (suc n) offset r
      → Matches
          (conclude
            (record r { slots = ss; reserved = fetch_sub r.reserved s.len })
            s.offset
            s.len
            result).0
          (conclude
            (record r { slots = ss; reserved = fetch_sub r.reserved s.len })
            s.offset
            s.len
            result).1
          (sequential answer end c.chunk (suc n) offset)
  unfolding popped
  conclude-Matches n offset r s ss (err x) e arrived v =
      (first_read n offset s (err x) (front n offset r s ss (err x) e arrived v).0 arrived).0
  conclude-Matches n offset r s ss (ok []) e arrived v =
      let g = (front n offset r s ss (ok []) e arrived v).0 in
      let some_len : is_full s.len (ok []) ≡ false =
        let b = v.bounded in
        let k = b.config in
        let same = ap (λ (g : Config). g.chunk) b.same in
        ground (arith, g.len, g.inside, k.some_chunk, same) in
      (first_read n offset s (ok []) g arrived).0 ∙ (rw some_len refl)
  conclude-Matches n offset r s ss (ok (b ∷ bs)) e arrived v =
      let g = (front n offset r s ss (ok (b ∷ bs)) e arrived v).0 in
      let (is, checked) = first_read n offset s (ok (b ∷ bs)) g arrived in
      let fits = checked_length s.len (b ∷ bs) _ checked in
      elim (Bool-cases (is_full s.len (ok (b ∷ bs)))) [
        | inl full ↦ (
          sequential answer end c.chunk n (offset + s.len),
          is ∙ rw full (rw g.at refl),
          inr (
            n,
            offset + s.len,
            popped-IsGoing n offset r s ss (ok (b ∷ bs)) e arrived v full
                (ltb (length (b ∷ bs)) s.len || r.finished) (ground (arith, full, v.going)),
            refl,
          ),
        )
        | inr less ↦
            (([], ended), is ∙ rw less (rw g.at refl), inl (ground (arith, fits, less), refl))
      ]

  take_front-Matches :
      (n offset : ℕ) (r : OrderedReader F S) (ss : List (Slot F))
      → r.slots ≡ ss
      → IsGoing a end c n offset r
      → (length ss ≡ 0 → end ≤ offset)
      → Matches (take_front r ss).0 (take_front r ss).1 (sequential answer end c.chunk n offset)
  unfolding take_front sequential
  take_front-Matches zero offset r ss e v over = absurd (omega (arith, v.rounds))
  take_front-Matches (suc n) offset r [] e v over =
      let past : leb end offset ≡ true = let beyond = over refl in ground arith in rw past refl
  take_front-Matches (suc n) offset r (s ∷ ss) e v over = elim (State-cases s.state) [
    | inl (f, waits) ↦ rw (waits, take_front) (inr (suc n, offset, v, refl))
    | inr (result, arrived) ↦
        rw (arrived, take_front) (conclude-Matches n offset r s ss result e arrived v)
  ]

  cut_none :
      (r : OrderedReader F S) (ss : List (Slot F)) (at : Option ℕ)
      → length (cut r ss at).slots ≡ 0
      → length ss ≡ 0
  cut_none r ss none h = h
  cut_none r [] (some index) h = refl
  cut_none r (s ∷ ss) (some index) h = absurd (omega (arith, h))

  fill_window_nothing :
      (n offset : ℕ) (r : OrderedReader F S)
      → IsGoing a end c n offset r
      → length (fill_window src r).slots ≡ 0
      → end ≤ offset
  unfolding fill_window
  fill_window_nothing n offset r v h =
      let b = v.bounded in
      let g = b.config in fill_nothing a end c n offset r.config.window r g.some_window v h

  fill_window-IsGoing :
      (n offset : ℕ) (r : OrderedReader F S)
      → IsGoing a end c n offset r
      → IsGoing a end c n offset (fill_window src r)
  unfolding fill_window
  fill_window-IsGoing n offset r v = fill-IsGoing a end c n offset r.config.window r v

  pub poll_next-Matches :
      (e : E) (r : OrderedReader F S) (out : Outcome)
      → Refines r out
      → Matches (poll_next src e r).0 (poll_next src e r).1 out
  unfolding poll_next scanned
  poll_next-Matches e r out (inl (over, is)) =
      if-elim {A = OrderedReader F S × Poll (IoResult (Option Chunk))} (λ p. Matches p.0 p.1 out)
        r.finished _ _ (λ _. is) (λ going. absurd (cc (over, going)))
  poll_next-Matches e r out (inr (n, offset, v, is)) =
      let filled = fill_window-IsGoing n offset r v in
      let empty = λ (h : length (scanned e (fill_window src r)).slots ≡ 0).
        fill_window_nothing n offset r v
          (sym (poll_slots-length src e _) ∙ cut_none (fill_window src r) _ _ h) in
      if-elim {A = OrderedReader F S × Poll (IoResult (Option Chunk))} (λ p. Matches p.0 p.1 out)
        r.finished _ _ (λ over. absurd (cc (over, v.going)))
        (λ _. rw is (
          take_front-Matches n offset (scanned e (fill_window src r)) _ refl
            (scanned-IsGoing n offset e _ filled) empty))
