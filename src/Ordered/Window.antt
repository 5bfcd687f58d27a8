-- ===== src/Ordered/Window.antt =====
-- A poll of the ordered reader keeps its slots a chain, and a reader that has nothing to wait for is at
-- the end of its range.
use uring.Prelude.{
  ℕ, zero, suc, ◌+◌, ◌-◌, ◌≤◌, ◌<◌, ◌≡◌, refl, ap, sym, ◌∙◌, subst, ◌⊎◌, inl, inr, Bool, true,
  false, List, [], ◌∷◌, ◌++◌, ltb, arith, length, Bool-cases, length-append,
}
use uring.Prelude.Word.{fetch_sub}
use uring.Sys.{IoResult}
use uring.Ordered.{
  Config, State, Slot, OrderedReader, Source, is_terminal, wants_more, next_len, push, fill,
}
use uring.Ordered.Bounds.{IsBounded, total_len, wanted, moves, push-IsBounded}
use uring.Ordered.Sequential.{Serves}
use uring.Ordered.Chain.{IsGood, Chain, Chain-push}

pub List-cases : {A : Type 0} (xs : List A) → (xs ≡ []) ⊎ (0 < length xs)
List-cases [] = inl refl
List-cases (x ∷ xs) = inr (omega arith)

module _ {F S E : Type 0} {src : Source F S E} {answer : ℕ → ℕ → IoResult (List ℕ)}
    (a : Serves src answer) (end : ℕ) (c : Config) where
  -- A reader that has delivered what is before `offset` and can go on for `n` rounds.
  pub record IsGoing (n offset : ℕ) (r : OrderedReader F S) : Type 0 where
    pub bounded : IsBounded c r
    pub ends : r.end ≡ end
    pub going : r.finished ≡ false
    pub chain : Chain a end c.chunk r.stop_scheduling r.next_offset offset r.slots
    pub rounds : end - offset < n

  module _ (n offset : ℕ) (r : OrderedReader F S) (v : IsGoing n offset r)
      (more : wants_more r ≡ true)
      (room : ltb (fetch_sub r.config.max_bytes r.reserved) (next_len r) ≡ false) where
    scheduling : r.stop_scheduling ≡ false
    scheduling = ground arith

    new_slot : Slot F
    new_slot = record {
      offset = r.next_offset;
      len = next_len r;
      state = State.pending (src.call r.source r.next_offset (next_len r)).0;
    }

    new_slot-IsGood : IsGood a end c.chunk r.next_offset new_slot
    unfolding new_slot
    new_slot-IsGood =
        let b = v.bounded in
        record {
          at = refl;
          len = omega (arith, v.ends, ap (λ (g : Config). g.chunk) b.same);
          inside = omega (arith, v.ends, wanted src r b more room);
          holds = a.made r.source r.next_offset (next_len r);
        }

    push-IsGoing : IsGoing n offset (push src r)
    unfolding new_slot is_terminal
    push-IsGoing = record {
      bounded = push-IsBounded src r v.bounded more room;
      ends = v.ends;
      going = v.going;
      chain =
          let b = v.bounded in
          let chain : Chain a end c.chunk false r.next_offset offset r.slots =
            subst (λ (stop : Bool). Chain a end c.chunk stop r.next_offset offset r.slots)
              scheduling v.chain in
          rw (moves src r b more room) (
            subst
              (λ (stop : Bool).
                Chain a end c.chunk stop (r.next_offset + next_len r) offset
                  (r.slots ++ new_slot ∷ []))
              (sym scheduling)
              (Chain-push a end c.chunk r.next_offset offset r.slots new_slot chain new_slot-IsGood
                refl));
      rounds = v.rounds;
    }

  pub fill-IsGoing :
      (n offset k : ℕ) (r : OrderedReader F S)
      → IsGoing n offset r
      → IsGoing n offset (fill src k r)
  unfolding fill
  fill-IsGoing n offset zero r v = v
  fill-IsGoing n offset (suc k) r v = elim (Bool-cases (wants_more r)) [
    | inr enough ↦ rw (enough, fill) v
    | inl more ↦ elim (Bool-cases (ltb (fetch_sub r.config.max_bytes r.reserved) (next_len r))) [
      | inl full ↦ rw (more, full, fill) v
      | inr room ↦
          rw (more, room, fill)
            (fill-IsGoing n offset k (push src r) (push-IsGoing n offset r v more room))
    ]
  ]

  -- The window is never left empty before the end of the range.
  fill_some : (k : ℕ) (r : OrderedReader F S) → 0 < length r.slots → 0 < length (fill src k r).slots
  unfolding fill
  fill_some zero r h = h
  fill_some (suc k) r h = elim (Bool-cases (wants_more r)) [
    | inr enough ↦ rw (enough, fill) h
    | inl more ↦ elim (Bool-cases (ltb (fetch_sub r.config.max_bytes r.reserved) (next_len r))) [
      | inl full ↦ rw (more, full, fill) h
      | inr room ↦ rw (more, room, fill) (fill_some k (push src r) (rw length-append (omega arith)))
    ]
  ]

  fill_nothing_suc :
      (n offset k : ℕ) (r : OrderedReader F S)
      → IsGoing n offset r
      → length (fill src (suc k) r).slots ≡ 0
      → end ≤ offset
  unfolding fill
  fill_nothing_suc n offset k r v none_left = elim (List-cases r.slots) [
    | inr some_left ↦ absurd (omega (arith, fill_some (suc k) r some_left, none_left))
    | inl empty ↦
        let b = v.bounded in
        let g = b.config in
        let (go, at) =
          subst
            (λ (ss : List (Slot F)). Chain a end c.chunk r.stop_scheduling r.next_offset offset ss)
            empty v.chain in
        let none_there : length r.slots ≡ 0 = ap length empty in
        let nothing : r.reserved ≡ 0 = b.reserved ∙ ap total_len empty in
        elim (Bool-cases (wants_more r)) [
          | inr enough ↦ ground (arith, enough, go, at, none_there, g.some_window, v.ends)
          | inl more ↦
              elim (Bool-cases (ltb (fetch_sub r.config.max_bytes r.reserved) (next_len r))) [
                | inl full ↦ absurd (ground (arith, full, nothing, g.chunk, g.bytes))
                | inr room ↦ absurd (
                    omega (
                      arith,
                      fill_some k (push src r) (rw length-append (omega arith)),
                      rw (more, room, fill) at none_left,
                    ))
              ]
        ]
  ]

  pub fill_nothing :
      (n offset k : ℕ) (r : OrderedReader F S)
      → 0 < k
      → IsGoing n offset r
      → length (fill src k r).slots ≡ 0
      → end ≤ offset
  fill_nothing n offset zero r h v none_left = absurd (omega (arith, h))
  fill_nothing n offset (suc k) r h v none_left = fill_nothing_suc n offset k r v none_left
