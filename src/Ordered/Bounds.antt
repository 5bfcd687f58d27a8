-- ===== src/Ordered/Bounds.antt =====
-- How many reads the ordered reader keeps outstanding, and how many bytes they reserve.
use uring.Prelude.{
  ℕ, zero, suc, ◌+◌, ◌-◌, ◌≤◌, ◌<◌, ◌≡◌, refl, ap, sym, ◌∙◌, ◌⊎◌, inl, inr, Bool, true, false,
  Option, none, some, List, [], ◌∷◌, ◌++◌, ltb, length, take, drop, arith, Bool-cases, if-elim,
  length-append, length-take,
}
use uring.Prelude.Word.{word, i64_max, fetch_add, fetch_sub}
use uring.Sys.{IoResult, ok, err}
use uring.Handle.{Poll}
use uring.Ordered.{
  Config, Chunk, State, Slot, OrderedReader, Source, start, wants_more, next_len, is_terminal,
  pop_backs, push, fill, fill_window, poll_slot, poll_slots, cut, conclude, take_front, poll_next,
  poll_many, new,
}
use uring.Ordered.Made.{IsValidConfig, new_lem}

abbrev pub total_len : {F : Type 0} → List (Slot F) → ℕ
total_len [] = 0
total_len (s ∷ ss) = s.len + total_len ss

pub record IsBounded {F S : Type 0} (c : Config) (r : OrderedReader F S) : Type 0 where
  pub config : IsValidConfig r.config
  pub same : r.config ≡ c
  pub reserved : r.reserved ≡ total_len r.slots
  pub bytes : r.reserved ≤ r.config.max_bytes
  pub count : length r.slots ≤ r.config.window
  pub next : r.next_offset ≤ r.end
  pub end : r.end ≤ i64_max

total_len-append :
    {F : Type 0} (ss ts : List (Slot F)) → total_len (ss ++ ts) ≡ total_len ss + total_len ts
total_len-append [] ts = omega arith
total_len-append (s ∷ ss) ts = omega (arith, total_len-append ss ts)

total_len-take :
    {F : Type 0} (k : ℕ) (ss : List (Slot F))
    → total_len (take k ss) + total_len (drop k ss) ≡ total_len ss
total_len-take zero ss = omega arith
total_len-take (suc k) [] = omega arith
total_len-take (suc k) (s ∷ ss) = omega (arith, total_len-take k ss)

pop_backs-total_len :
    {F : Type 0} (ss : List (Slot F)) (a reserved : ℕ)
    → reserved ≡ a + total_len ss
    → reserved < word
    → pop_backs ss reserved ≡ a
unfolding pop_backs
pop_backs-total_len [] a reserved e h = omega (arith, e)
pop_backs-total_len (s ∷ ss) a reserved e h =
    let rest = pop_backs-total_len ss (a + s.len) reserved (omega (arith, e)) h in
    omega (arith, rest)

cut-IsBounded :
    {F S : Type 0} {c : Config} (r : OrderedReader F S) (ss : List (Slot F)) (at : Option ℕ)
    → total_len ss ≡ total_len r.slots
    → length ss ≡ length r.slots
    → IsBounded c r
    → IsBounded c (cut r ss at)
cut-IsBounded r ss none e l v = record {
  config = v.config;
  same = v.same;
  reserved = v.reserved ∙ sym e;
  bytes = v.bytes;
  count = omega (arith, l, v.count);
  next = v.next;
  end = v.end;
}
cut-IsBounded r ss (some index) e l v =
    let g = v.config in
    let split = total_len-take (suc index) ss in
    let kept =
      pop_backs-total_len (drop (suc index) ss) (total_len (take (suc index) ss)) r.reserved
        (omega (arith, split, e, v.reserved)) (omega (arith, g.bytes, v.bytes)) in
    record {
      config = v.config;
      same = v.same;
      reserved = kept;
      bytes = rw kept (omega (arith, split, e, v.reserved, v.bytes));
      count = rw length-take (omega (arith, l, v.count));
      next = v.next;
      end = v.end;
    }

pub finished-IsBounded :
    {F S : Type 0} {c : Config} (r : OrderedReader F S) (b : Bool)
    → IsBounded c r
    → IsBounded c (record r { finished = b })
finished-IsBounded r b v = record {
  config = v.config;
  same = v.same;
  reserved = v.reserved;
  bytes = v.bytes;
  count = v.count;
  next = v.next;
  end = v.end;
}

conclude-IsBounded :
    {F S : Type 0} {c : Config} (r : OrderedReader F S) (offset len : ℕ)
    (result : IoResult (List ℕ))
    → IsBounded c r
    → IsBounded c (conclude r offset len result).0
conclude-IsBounded r offset len (err x) v = finished-IsBounded r _ v
conclude-IsBounded r offset len (ok bytes) v = finished-IsBounded r _ v

pub pop-IsBounded :
    {F S : Type 0} {c : Config} (r : OrderedReader F S) (s : Slot F) (ss : List (Slot F))
    → r.slots ≡ s ∷ ss
    → IsBounded c r
    → IsBounded c (record r { slots = ss; reserved = fetch_sub r.reserved s.len })
pop-IsBounded r s ss e v =
    let g = v.config in
    let total : r.reserved ≡ s.len + total_len ss = v.reserved ∙ ap total_len e in
    let counted : length r.slots ≡ suc (length ss) = ap length e in
    let left : fetch_sub r.reserved s.len ≡ total_len ss = omega (arith, total, g.bytes, v.bytes) in
    record {
      config = v.config;
      same = v.same;
      reserved = left;
      bytes = rw left (omega (arith, total, v.bytes));
      count = omega (arith, counted, v.count);
      next = v.next;
      end = v.end;
    }

pub State-cases :
    {F : Type 0} (st : State F)
    → ((f : F) × (st ≡ State.pending f))
      ⊎ ((result : IoResult (List ℕ)) × (st ≡ State.ready result))
State-cases (State.pending f) = inl (f, refl)
State-cases (State.ready result) = inr (result, refl)

pub take_front-IsBounded :
    {F S : Type 0} {c : Config} (r : OrderedReader F S) (ss : List (Slot F))
    → r.slots ≡ ss
    → IsBounded c r
    → IsBounded c (take_front r ss).0
unfolding take_front
take_front-IsBounded r [] e v = finished-IsBounded r true v
take_front-IsBounded r (s ∷ ss) e v = elim (State-cases s.state) [
  | inl (f, waits) ↦ rw (waits, take_front) v
  | inr (result, arrived) ↦
      rw (arrived, take_front)
        (conclude-IsBounded _ s.offset s.len result (pop-IsBounded r s ss e v))
]

module _ {F S E : Type 0} (src : Source F S E) where
  poll_slots-total_len :
      (e : E) (ss : List (Slot F)) → total_len (poll_slots src e ss).0 ≡ total_len ss
  unfolding poll_slots
  poll_slots-total_len e [] = refl
  poll_slots-total_len e (s ∷ ss) = elim (Bool-cases (is_terminal (poll_slot src e s))) [
    | inl yes' ↦ rw yes' (refl)
    | inr no' ↦ rw no' (omega (arith, poll_slots-total_len e ss))
  ]

  pub poll_slots-length : (e : E) (ss : List (Slot F)) → length (poll_slots src e ss).0 ≡ length ss
  unfolding poll_slots
  poll_slots-length e [] = refl
  poll_slots-length e (s ∷ ss) = elim (Bool-cases (is_terminal (poll_slot src e s))) [
    | inl yes' ↦ rw yes' (refl)
    | inr no' ↦ rw no' (omega (arith, poll_slots-length e ss))
  ]

  module _ {c : Config} (r : OrderedReader F S) (v : IsBounded c r) (more : wants_more r ≡ true)
      (room : ltb (fetch_sub r.config.max_bytes r.reserved) (next_len r) ≡ false) where
    pub room_of : next_len r ≤ r.config.max_bytes - r.reserved
    room_of = let g = v.config in ground (arith, g.bytes, v.bytes)

    pub wanted : (r.next_offset < r.end) × (length r.slots < r.config.window)
    wanted = ground arith

    pub fits : fetch_add r.reserved (next_len r) ≡ r.reserved + next_len r
    fits = let g = v.config in omega (arith, room_of, g.bytes, v.bytes)

    pub moves : fetch_add r.next_offset (next_len r) ≡ r.next_offset + next_len r
    moves = omega (arith, wanted, v.end)

    pub push-IsBounded : IsBounded c (push src r)
    push-IsBounded = record {
      config = v.config;
      same = v.same;
      reserved = rw fits (rw total_len-append (omega (arith, v.reserved)));
      bytes = rw fits (omega (arith, room_of, v.bytes));
      count = rw length-append (omega (arith, wanted));
      next = rw moves (omega (arith, wanted));
      end = v.end;
    }

  pub fill-IsBounded :
      {c : Config} (n : ℕ) (r : OrderedReader F S) → IsBounded c r → IsBounded c (fill src n r)
  unfolding fill
  fill-IsBounded zero r v = v
  fill-IsBounded (suc n) r v = elim (Bool-cases (wants_more r)) [
    | inr enough ↦ rw (enough, fill) v
    | inl more ↦ elim (Bool-cases (ltb (fetch_sub r.config.max_bytes r.reserved) (next_len r))) [
      | inl full ↦ rw (more, full, fill) v
      | inr room ↦
          rw (more, room, fill) (fill-IsBounded n (push src r) (push-IsBounded r v more room))
    ]
  ]

  pub cut-poll_slots-IsBounded :
      {c : Config} (e : E) (r : OrderedReader F S)
      → IsBounded c r
      → IsBounded c (cut r (poll_slots src e r.slots).0 (poll_slots src e r.slots).1)
  cut-poll_slots-IsBounded e r v =
      cut-IsBounded r (poll_slots src e r.slots).0 (poll_slots src e r.slots).1
        (poll_slots-total_len e r.slots) (poll_slots-length e r.slots) v

  poll_next-IsBounded :
      {c : Config} (e : E) (r : OrderedReader F S)
      → IsBounded c r
      → IsBounded c (poll_next src e r).0
  unfolding poll_next fill_window
  poll_next-IsBounded {c} e r v =
      if-elim {A = OrderedReader F S × Poll (IoResult (Option Chunk))} (λ p. IsBounded c p.0)
        r.finished _ _ (λ _. v)
        (λ _.
          take_front-IsBounded _ _ refl
            (cut-poll_slots-IsBounded e (fill_window src r) (fill-IsBounded r.config.window r v)))

start-IsBounded :
    {F S : Type 0} (c : Config) (source : S) (e : ℕ)
    → IsValidConfig c
    → c.offset ≤ e
    → e ≤ i64_max
    → IsBounded c (start {F = F} {S = S} c source e)
start-IsBounded c source e v below fits = record {
  config = v;
  same = refl;
  reserved = refl;
  bytes = omega arith;
  count = omega arith;
  next = below;
  end = fits;
}

pub new-IsBounded :
    {F S : Type 0} (c : Config) (source : S) (r : OrderedReader F S)
    → new c source ≡ ok r
    → IsBounded c r
new-IsBounded c source r h =
    let (e, is, valid, sum, fits) = new_lem c source r h in
    rw is (start-IsBounded c source e valid (omega (arith, sum)) fits)

module _ {F S E : Type 0} (src : Source F S E) where
  pub poll_many-IsBounded :
      {c : Config} (es : List E) (r : OrderedReader F S)
      → IsBounded c r
      → IsBounded c (poll_many src es r)
  unfolding poll_many
  poll_many-IsBounded [] r v = v
  poll_many-IsBounded (e ∷ es) r v =
      poll_many-IsBounded es (poll_next src e r).0 (poll_next-IsBounded src e r v)

  -- A reader that `new` accepts has, after any polls, and with its window filled again, at most `window`
  -- reads outstanding, no more than `max_bytes` bytes in all, and `reserved` is what they ask for.
  pub fill_window-bounded :
      (c : Config) (source : S) (r : OrderedReader F S) (es : List E)
      → new c source ≡ ok r
      → let full = fill_window src (poll_many src es r) in
        (length full.slots ≤ c.window)
        × (total_len full.slots ≤ c.max_bytes)
        × (full.reserved ≡ total_len full.slots)
  unfolding fill_window
  fill_window-bounded c source r es h =
      let v =
        fill-IsBounded src _ (poll_many src es r)
          (poll_many-IsBounded es r (new-IsBounded c source r h)) in
      let window : (fill src _ (poll_many src es r)).config.window ≡ c.window =
        ap (λ g. g.window) v.same in
      let max_bytes : (fill src _ (poll_many src es r)).config.max_bytes ≡ c.max_bytes =
        ap (λ g. g.max_bytes) v.same in
      (omega (arith, v.count, window), omega (arith, v.bytes, v.reserved, max_bytes), v.reserved)
