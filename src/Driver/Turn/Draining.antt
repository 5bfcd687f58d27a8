-- ===== src/Driver/Turn/Draining.antt =====
-- A driver that drains keeps draining, with its deadline, through the phases of a turn.
use Prim.Native.Nat.{bit_and}
use uring.Prelude.{
  ℕ, ◌+◌, ◌%◌, ◌^◌, ◌≡◌, refl, subst, inl, inr, Bool, true, false, not, ◌&&◌, ◌||◌, leb, ◌==◌, some,
  List, [], ◌∷◌, ◌++◌, arith, Bool-cases, Option-cases, if-cases,
}
use uring.Prelude.Map.{contains, keys, lookup, insert}
use uring.Sys.{IoResult, ok, err, errno_is, ebusy, eintr, custom, other}
use uring.Pending.{Pending, Completion, ReapStep, finish, resubmit}
use uring.Budget.{TurnBudget, can_take_message, can_reap}
use uring.Driver.{
  Driver, Msg, ReadMsg, read, cancel, shutdown, cancel_bit, >>=-some, queue_cancel, queue_all,
  max_consecutive_submit_errors,
}
use uring.Driver.Intake.{
  turn_away, on_read, on_cancel, on_shutdown, on_message, count_message, intake,
}
use uring.Driver.Submit.{
  Enter, flushed, submit_if_needed, count_submit_error, handle_submit_result, submit_ring,
  update_cq_overflow,
}
use uring.Driver.Reap.{
  Cqe, count_cancel, on_finish, on_step, on_read_cqe, on_cqe, count_completion, reap,
}

-- A driver that drains, with the deadline `t` set.
pub record Draining (t : ℕ) (d : Driver) : Type 0 where
  pub down : d.shutting_down ≡ true
  pub set : d.drain_deadline ≡ some t

queue_cancel-Draining :
    (t : ℕ) (d : Driver) (id : ℕ) → Draining t d → Draining t (queue_cancel d id)
unfolding queue_cancel
queue_cancel-Draining t d id h = elim (Bool-cases (contains id d.queued_cancels)) [
  | inl old ↦ simp old h
  | inr new ↦ simp new (record { down = h.down; set = h.set })
]

queue_all-Draining :
    (t : ℕ) (d : Driver) (ids : List ℕ) → Draining t d → Draining t (queue_all d ids)
unfolding queue_all
queue_all-Draining t d [] h = h
queue_all-Draining t d (id ∷ ids) h =
    queue_all-Draining t (queue_cancel d id) ids (queue_cancel-Draining t d id h)

-- While it drains, a driver turns every read away.
on_read-Draining :
    (t pad : ℕ) (b : TurnBudget) (d : Driver) (m : ReadMsg) (x : Driver × TurnBudget)
    → Draining t d
    → on_read pad b d m ≡ some x
    → Draining t x.0
unfolding on_read turn_away
on_read-Draining t pad b d m x h e = elim (if-cases d.shutting_down _ _ (some x) e) [
  | inl (down, e') ↦
      let same : turn_away d m (custom other "uring driver shutting down") ≡ x.0 = ground arith in
      subst (Draining t) same (record { down = h.down; set = h.set })
  | inr (up, e') ↦ absurd (not_both d.shutting_down h.down up)
]
  where
    not_both : (b : Bool) → b ≡ true → b ≡ false → ⊥
    not_both b p q = cc (p, q)

on_cancel-Draining : (t : ℕ) (d : Driver) (id : ℕ) → Draining t d → Draining t (on_cancel d id)
unfolding on_cancel
on_cancel-Draining t d id h = elim (Option-cases (lookup id d.pending)) [
  | inl e ↦ rw (e, on_cancel) h
  | inr (p, e) ↦
      rw (e, on_cancel)
        (queue_cancel-Draining t
          (record d { pending = insert id (record p { cancel_requested = true }) d.pending }) id
          (record { down = h.down; set = h.set }))
]

on_message-Draining :
    (t : ℕ) (pads : ℕ → ℕ) (b : TurnBudget) (d : Driver) (m : Msg) (x : Driver × TurnBudget)
    → Draining t d
    → on_message pads b d m ≡ some x
    → Draining t x.0
unfolding on_message on_shutdown
on_message-Draining t pads b d (read m) x h e = on_read-Draining t (pads m.id) b d m x h e
on_message-Draining t pads b d (cancel id) x h e =
    let same : on_cancel d id ≡ x.0 = ground arith in
    subst (Draining t) same (on_cancel-Draining t d id h)
on_message-Draining t pads b d shutdown x h e =
    let same : on_shutdown d ≡ x.0 = ground arith in
    subst (Draining t) same (
      queue_all-Draining t (record d { shutting_down = true }) (keys d.pending)
        (record { down = refl; set = h.set }))

pub intake-Draining :
    (t : ℕ) (pads : ℕ → ℕ) (gone : Bool) (b : TurnBudget) (d : Driver) (ms : List Msg)
    (x : Driver × TurnBudget)
    → Draining t d
    → intake pads gone b d ms ≡ some x
    → Draining t x.0
unfolding intake
intake-Draining t pads gone b d [] x h e =
    let same : record d {
      inbox = [];
      shutting_down = d.shutting_down || can_take_message b && gone;
    }
        ≡ x.0 =
      ground arith in
    subst (Draining t) same (record { down = ground (arith, h.down); set = h.set })
intake-Draining t pads gone b d (m ∷ ms) x h e =
    elim (if-cases (can_take_message b) _ _ (some x) e) [
      | inl (more, e') ↦
          let ((d', b'), step, e2) = >>=-some (on_message pads (count_message b) d m) _ x e' in
          intake-Draining t pads gone b' d' ms x
            (on_message-Draining t pads (count_message b) d m (d', b') h step) e2
      | inr (full, e') ↦
          let same : record d { inbox = m ∷ ms } ≡ x.0 = ground arith in
          subst (Draining t) same (record { down = h.down; set = h.set })
    ]

count_submit_error-Draining :
    (t : ℕ) (d : Driver) → Draining t d → Draining t (count_submit_error d)
unfolding count_submit_error
count_submit_error-Draining t d h =
    elim (Bool-cases (
      not d.shutting_down
      && leb max_consecutive_submit_errors ((d.consecutive_submit_errors + 1) % 2 ^ 32))) [
        | inl broken ↦
            simp broken
              (queue_all-Draining t _ (keys d.pending) (record { down = refl; set = h.set }))
        | inr kept ↦ simp kept (record { down = h.down; set = h.set })
      ]

handle_submit_result-Draining :
    (t : ℕ) (r : IoResult ℕ) (d : Driver) → Draining t d → Draining t (handle_submit_result r d).0
unfolding handle_submit_result
handle_submit_result-Draining t (ok n) d h = record { down = h.down; set = h.set }
handle_submit_result-Draining t (err e) d h =
    elim (Bool-cases (errno_is e ebusy || errno_is e eintr)) [
      | inl passing ↦ simp passing (record { down = h.down; set = h.set })
      | inr hard ↦ simp hard (count_submit_error-Draining t d h)
    ]

pub submit_ring-Draining :
    (t : ℕ) (e : Enter) (d : Driver) → Draining t d → Draining t (submit_ring e d).0
unfolding submit_ring
submit_ring-Draining t e d h =
    let h' : Draining t (flushed e d) = record { down = h.down; set = h.set } in
    elim (Option-cases (submit_if_needed e)) [
      | inl n ↦ rw (n, submit_ring) h'
      | inr (r, s) ↦ rw (s, submit_ring) (handle_submit_result-Draining t r (flushed e d) h')
    ]

on_step-Draining :
    (t : ℕ) (d : Driver) (id : ℕ) (send_ok : Bool) (y : Pending × ReapStep) (d' : Driver)
    → Draining t d
    → on_step d id send_ok y ≡ some d'
    → Draining t d'
unfolding on_step on_finish
on_step-Draining t d id send_ok (q, finish outcome) d' h e =
    let (tx, et, e') = >>=-some q.done _ d' e in
    subst (Draining t) (some_driver _ d' e') (record { down = h.down; set = h.set })
  where
    some_driver : (a b : Driver) → some a ≡ some b → a ≡ b
    some_driver a b e = ground arith
on_step-Draining t d id send_ok (q, resubmit s) d' h e =
    let here : record d { pending = insert id q d.pending; backlog = d.backlog ++ s ∷ [] } ≡ d' =
      ground arith in
    subst (Draining t) here (record { down = h.down; set = h.set })

on_read_cqe-Draining :
    (t : ℕ) (d : Driver) (id : ℕ) (c : Completion) (send_ok : Bool) (d' : Driver)
    → Draining t d
    → on_read_cqe d id c send_ok ≡ some d'
    → Draining t d'
unfolding on_read_cqe
on_read_cqe-Draining t d id c send_ok d' h e = elim (Option-cases (lookup id d.pending)) [
  | inl n ↦
      let e' : some d ≡ some d' = rw (n, on_read_cqe) at e in
      let here : d ≡ d' = ground arith in subst (Draining t) here h
  | inr (p, found) ↦ on_step-Draining t d id send_ok _ d' h (rw (found, on_read_cqe) at e)
]

on_cqe-Draining :
    (t : ℕ) (d : Driver) (c : Cqe) (d' : Driver)
    → Draining t d
    → on_cqe d c ≡ some d'
    → Draining t d'
unfolding on_cqe
on_cqe-Draining t d c d' h e =
    elim (if-cases (bit_and c.user_data cancel_bit == 0) _ _ (some d') e) [
      | inl (is_read, e') ↦ on_read_cqe-Draining t d c.user_data c.completion c.send_ok d' h e'
      | inr (is_cancel, e') ↦
          let here : record d { stats = count_cancel c.completion.result d.stats } ≡ d' =
            ground arith in
          subst (Draining t) here (record { down = h.down; set = h.set })
    ]

pub reap-Draining :
    (t : ℕ) (b : TurnBudget) (d : Driver) (cs : List Cqe) (x : Driver × TurnBudget)
    → Draining t d
    → reap b d cs ≡ some x
    → Draining t x.0
unfolding reap
reap-Draining t b d [] x h e = let here : d ≡ x.0 = ground arith in subst (Draining t) here h
reap-Draining t b d (c ∷ cs) x h e = elim (if-cases (can_reap b) _ _ (some x) e) [
  | inl (more, e') ↦
      let (d', step, e2) = >>=-some (on_cqe d c) _ x e' in
      reap-Draining t (count_completion b) d' cs x (on_cqe-Draining t d c d' h step) e2
  | inr (full, e') ↦ let here : d ≡ x.0 = ground arith in subst (Draining t) here h
]

pub update_cq_overflow-Draining :
    (t : ℕ) (d : Driver) (n : ℕ) → Draining t d → Draining t (update_cq_overflow d n).0
unfolding update_cq_overflow
update_cq_overflow-Draining t d n h = elim (Bool-cases (n == d.previous_cq_overflow)) [
  | inl same ↦ simp same h
  | inr other_count ↦ simp other_count (record { down = h.down; set = h.set })
]
