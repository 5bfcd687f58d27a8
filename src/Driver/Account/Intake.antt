-- ===== src/Driver/Account/Intake.antt =====
-- The intake phase loses no read and no permit.
use uring.Prelude.{
  ℕ, ◌+◌, ◌-◌, ◌≡◌, refl, sym, ap, ◌∙◌, inl, inr, Bool, true, false, ◌&&◌, ◌||◌, some, List, [],
  ◌∷◌, arith, Bool-cases, Option-cases, if-cases,
}
use uring.Prelude.Word.{checked_add}
use uring.Prelude.Map.{contains, keys, lookup, insert, total-insert_new, total-insert_old}
use uring.Sys.{IoError, custom, other}
use uring.Geometry.{Geometry, aligned_geometry}
use uring.Admission.{ReadPermits}
use uring.Pending.{Pending}
use uring.Budget.{TurnBudget, can_take_message}
use uring.Driver.{ReadMsg, Msg, read, cancel, shutdown, Driver, queue_cancel, queue_all, >>=-some}
use uring.Driver.Intake.{
  misplaced, turn_away, new_pending, accept, place, allocate, on_read, on_cancel, on_shutdown,
  on_message, count_message, intake,
}
use uring.Driver.Intake.Keys.{read_ids, Unknown, Sound, Sound-next, Unknown-first}
use uring.Driver.Account.{
  entry_weight, read_weight, inbox_weight, taken, Frame, same_Frame, Frame-trans, Frame-taken,
}

some-0 : (y x : Driver × TurnBudget) → some y ≡ some x → y.0 ≡ x.0
some-0 y x e = ground arith

queue_cancel-Frame : (d : Driver) (id : ℕ) → Frame d (queue_cancel d id)
unfolding queue_cancel
queue_cancel-Frame d id = elim (Bool-cases (contains id d.queued_cancels)) [
  | inl old ↦ simp old (same_Frame d _ refl refl refl refl)
  | inr new ↦ simp new (same_Frame d _ refl refl refl refl)
]

pub queue_all-Frame : (d : Driver) (ids : List ℕ) → Frame d (queue_all d ids)
unfolding queue_all
queue_all-Frame d [] = same_Frame d _ refl refl refl refl
queue_all-Frame d (id ∷ ids) =
    Frame-trans d (queue_cancel d id) _ (queue_cancel-Frame d id)
      (queue_all-Frame (queue_cancel d id) ids)

module _ (w : ℕ → ℕ) (g : ReadPermits → ℕ) where
  turn_away-taken :
      (d : Driver) (m : ReadMsg) (e : IoError)
      → taken w g (turn_away d m e) ≡ taken w g d + read_weight w g m
  unfolding turn_away
  turn_away-taken d m e = omega arith

  accept-taken :
      (d : Driver) (m : ReadMsg) (p : Pending)
      → contains m.id (keys d.pending) ≡ false
      → taken w g (accept d m p) ≡ taken w g d + entry_weight w g p
  unfolding accept
  accept-taken d m p new = omega (arith, total-insert_new (entry_weight w g) m.id p d.pending new)

  new_pending-weight :
      (m : ReadMsg) (geometry : Geometry) (size pad : ℕ)
      → entry_weight w g (new_pending m geometry size pad) ≡ read_weight w g m
  unfolding new_pending
  new_pending-weight m geometry size pad = refl

  place-taken :
      (d : Driver) (m : ReadMsg) (geometry : Geometry) (size pad : ℕ)
      → contains m.id (keys d.pending) ≡ false
      → taken w g (place d m geometry size pad) ≡ taken w g d + read_weight w g m
  unfolding place
  place-taken d m geometry size pad new =
      elim (Bool-cases (misplaced pad geometry.region_len size)) [
        | inl bad ↦ simp bad (turn_away-taken d m _)
        | inr good ↦ simp good (
            accept-taken d m (new_pending m geometry size pad) new
            ∙ ap (λ (t : ℕ). taken w g d + t) (new_pending-weight m geometry size pad))
      ]

  allocate-taken :
      (pad : ℕ) (b : TurnBudget) (d : Driver) (m : ReadMsg) (geometry : Geometry)
      → contains m.id (keys d.pending) ≡ false
      → taken w g (allocate pad b d m geometry).0 ≡ taken w g d + read_weight w g m
  unfolding allocate
  allocate-taken pad b d m geometry new =
      elim (Option-cases (checked_add geometry.region_len (m.align - 1))) [
        | inl e ↦ rw (e, allocate) (turn_away-taken d m _)
        | inr (size, e) ↦ rw (e, allocate) (place-taken d m geometry size pad new)
      ]

  on_read-taken :
      (pad : ℕ) (b : TurnBudget) (d : Driver) (m : ReadMsg) (x : Driver × TurnBudget)
      → contains m.id (keys d.pending) ≡ false
      → on_read pad b d m ≡ some x
      → taken w g x.0 ≡ taken w g d + read_weight w g m
  unfolding on_read
  on_read-taken pad b d m x new e = elim (if-cases d.shutting_down _ _ (some x) e) [
    | inl (down, e') ↦
        let same : turn_away d m (custom other "uring driver shutting down") ≡ x.0 = ground arith in
        rw (sym same) (turn_away-taken d m _)
    | inr (up, e') ↦
        let (geometry, eg, some_x) = >>=-some (aligned_geometry m.offset m.len m.align) _ x e' in
        let same : allocate pad b d m geometry ≡ x = ground arith in
        rw (sym same) (allocate-taken pad b d m geometry new)
  ]

  on_cancel-taken : (d : Driver) (id : ℕ) → taken w g (on_cancel d id) ≡ taken w g d
  unfolding on_cancel
  on_cancel-taken d id = elim (Option-cases (lookup id d.pending)) [
    | inl e ↦ rw (e, on_cancel) refl
    | inr (p, e) ↦
        let q : Pending = record p { cancel_requested = true } in
        rw (e, on_cancel)
          (Frame-taken w g (record d { pending = insert id q d.pending }) _
              (queue_cancel-Frame _ id)
            ∙ omega (arith, total-insert_old (entry_weight w g) id q p d.pending e))
  ]

  on_shutdown-taken : (d : Driver) → taken w g (on_shutdown d) ≡ taken w g d
  unfolding on_shutdown
  on_shutdown-taken d =
      Frame-taken w g (record d { shutting_down = true }) _ (queue_all-Frame _ (keys d.pending))

  on_message-taken :
      (pads : ℕ → ℕ) (b : TurnBudget) (d : Driver) (m : Msg) (x : Driver × TurnBudget)
      → Unknown (read_ids (m ∷ [])) d
      → on_message pads b d m ≡ some x
      → taken w g x.0 ≡ taken w g d + inbox_weight w g (m ∷ [])
  unfolding on_message
  on_message-taken pads b d (read m) x new e =
      omega (arith, on_read-taken (pads m.id) b d m x (new m.id (ground arith)) e)
  on_message-taken pads b d (cancel id) x new e =
      let same : on_cancel d id ≡ x.0 = ground arith in
      rw (sym same) (omega (arith, on_cancel-taken d id))
  on_message-taken pads b d shutdown x new e =
      let same : on_shutdown d ≡ x.0 = ground arith in
      rw (sym same) (omega (arith, on_shutdown-taken d))

  inbox_weight_cons :
      (m : Msg) (ms : List Msg)
      → inbox_weight w g (m ∷ ms) ≡ inbox_weight w g (m ∷ []) + inbox_weight w g ms
  inbox_weight_cons (read m) ms = omega arith
  inbox_weight_cons (cancel id) ms = omega arith
  inbox_weight_cons shutdown ms = omega arith

  -- What is taken from the channel is in the table or answered afterwards, the rest in the inbox.
  pub intake-taken :
      (pads : ℕ → ℕ) (gone : Bool) (b : TurnBudget) (d : Driver) (ms : List Msg)
      (x : Driver × TurnBudget)
      → Sound d ms
      → intake pads gone b d ms ≡ some x
      → inbox_weight w g x.0.inbox + taken w g x.0 ≡ inbox_weight w g ms + taken w g d
  unfolding intake
  intake-taken pads gone b d [] x s e =
      let same : record d {
        inbox = [];
        shutting_down = d.shutting_down || can_take_message b && gone;
      }
          ≡ x.0 =
        some-0 _ x e in
      rw (sym same) refl
  intake-taken pads gone b d (m ∷ ms) x s e = elim (if-cases (can_take_message b) _ _ (some x) e) [
    | inl (more, e') ↦
        let ((d', b'), step, e2) = >>=-some (on_message pads (count_message b) d m) _ x e' in
        let new = Unknown-first d m ms s in
        let s' = Sound-next pads (count_message b) d m ms (d', b') step s in
        omega (
          arith,
          inbox_weight_cons m ms,
          on_message-taken pads (count_message b) d m (d', b') new step,
          intake-taken pads gone b' d' ms x s' e2,
        )
    | inr (full, e') ↦
        let same : record d { inbox = m ∷ ms } ≡ x.0 = some-0 _ x e' in rw (sym same) refl
  ]
