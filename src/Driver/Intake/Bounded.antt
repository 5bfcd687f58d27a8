-- ===== src/Driver/Intake/Bounded.antt =====
-- The intake phase takes a bounded number of messages, in order, and loses none.
use uring.Prelude.{
  ℕ, ◌+◌, ◌-◌, ◌≤◌, ◌≡◌, refl, sym, inl, inr, Bool, true, ◌&&◌, ◌||◌, some, List, [], ◌∷◌, arith,
  length, if-cases, Option-cases,
}
use uring.Prelude.Word.{checked_add}
use uring.Geometry.{Geometry, aligned_geometry}
use uring.Budget.{TurnBudget, can_take_message, turn_messages}
use uring.Driver.{ReadMsg, Msg, read, cancel, shutdown, Driver, >>=-some}
use uring.Driver.Intake.{allocate, on_read, on_message, count_message, intake}

allocate-messages :
    (pad : ℕ) (b : TurnBudget) (d : Driver) (m : ReadMsg) (g : Geometry)
    → (allocate pad b d m g).1.messages ≡ b.messages
unfolding allocate
allocate-messages pad b d m g = elim (Option-cases (checked_add g.region_len (m.align - 1))) [
  | inl e ↦ rw (e, allocate) refl
  | inr (size, e) ↦ rw (e, allocate) refl
]

on_message-messages :
    (pads : ℕ → ℕ) (b : TurnBudget) (d : Driver) (m : Msg) (x : Driver × TurnBudget)
    → on_message pads b d m ≡ some x
    → x.1.messages ≡ b.messages
unfolding on_message on_read
on_message-messages pads b d (read m) x e = elim (if-cases d.shutting_down _ _ (some x) e) [
  | inl (down, e') ↦ ground arith
  | inr (up, e') ↦
      let (g, eg, some_x) = >>=-some (aligned_geometry m.offset m.len m.align) _ x e' in
      let same : allocate (pads m.id) b d m g ≡ x = ground arith in
      rw (sym same) (allocate-messages (pads m.id) b d m g)
]
on_message-messages pads b d (cancel id) x e = ground arith
on_message-messages pads b d shutdown x e = ground arith

taking : (b : TurnBudget) → can_take_message b ≡ true → b.messages + 1 ≤ turn_messages
unfolding can_take_message
taking b e = ground arith

-- The messages that an intake phase without a panic takes and those that it leaves are all of them;
-- it takes no more than `turn_messages`, from a budget that has taken no more.
pub intake-bounded :
    (pads : ℕ → ℕ) (gone : Bool) (b : TurnBudget) (d : Driver) (ms : List Msg)
    (x : Driver × TurnBudget)
    → b.messages ≤ turn_messages
    → intake pads gone b d ms ≡ some x
    → (length ms + b.messages ≡ length x.0.inbox + x.1.messages) × (x.1.messages ≤ turn_messages)
unfolding intake
intake-bounded pads gone b d [] x h e =
    let same : (
      record d { inbox = []; shutting_down = d.shutting_down || can_take_message b && gone },
      b,
    )
        ≡ x =
      ground arith in
    rw (sym same) (refl, h)
intake-bounded pads gone b d (m ∷ ms) x h e = elim (if-cases (can_take_message b) _ _ (some x) e) [
  | inl (more, e') ↦
      let ((d', b'), step, e2) = >>=-some (on_message pads (count_message b) d m) _ x e' in
      let same = on_message-messages pads (count_message b) d m (d', b') step in
      let room = taking b more in
      let (all, few) = intake-bounded pads gone b' d' ms x (omega (arith, same, room)) e2 in
      (omega (arith, all, same), few)
  | inr (full, e') ↦
      let same : (record d { inbox = m ∷ ms }, b) ≡ x = ground arith in rw (sym same) (refl, h)
]
