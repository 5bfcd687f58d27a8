-- ===== src/Driver/Intake/Safety.antt =====
-- The intake phase keeps the invariant.
use uring.Prelude.{
  ℕ, ◌+◌, ◌-◌, ◌≤◌, ◌≡◌, refl, ◌∙◌, inl, inr, Bool, true, false, Option, some, List, [], ◌∷◌, arith,
  Bool-cases, Option-cases,
}
use uring.Prelude.Word.{checked_add}
use uring.Prelude.Map.{
  contains, keys, lookup, insert-IsUnique, insert-All, contains-insert, length-insert_new,
  keys-insert_old, lookup-contains, All-lookup,
}
use uring.Sys.{IoError, custom, other}
use uring.Pending.{Pending}
use uring.Budget.{TurnBudget, can_take_message}
use uring.Driver.{ReadMsg, Msg, read, cancel, shutdown, Driver}
use uring.Driver.Inv.{
  IsEntry, Inv, Inv-frame, update-Inv, queue_cancel-Inv, queue_all-Inv, Known-keys,
}
use uring.Driver.Intake.{
  misplaced, turn_away, accept, place, allocate, on_read, on_cancel, on_shutdown, on_message,
  count_message, intake,
}
use uring.Driver.Intake.Keys.{read_ids, IsValidMsg, Unknown, Sound, Sound-next, Unknown-first}
use uring.Driver.Intake.Entry.{IsValidRead, new_pending-IsEntry}

turn_away-Inv : (d : Driver) (m : ReadMsg) (e : IoError) → Inv d → Inv (turn_away d m e)
unfolding turn_away
turn_away-Inv d m e v = Inv-frame d _ refl refl refl refl refl refl v

accept-Inv :
    (d : Driver) (m : ReadMsg) (p : Pending)
    → contains m.id (keys d.pending) ≡ false
    → IsEntry p
    → Inv d
    → Inv (accept d m p)
unfolding accept
accept-Inv d m p new entry v = record {
  unique = insert-IsUnique m.id p d.pending v.unique;
  entries = insert-All IsEntry m.id d.pending p v.entries entry;
  in_flight = omega (arith, v.in_flight, length-insert_new m.id p d.pending new);
  conserved = omega (arith, v.conserved);
  cancels_once = v.cancels_once;
  cancels_pending =
      λ j h. contains-insert j m.id p d.pending ∙ ground (arith, v.cancels_pending j h);
}

misplaced-fits : (pad r size : ℕ) → misplaced pad r size ≡ false → pad + r ≤ size
unfolding misplaced
misplaced-fits pad r size h = ground arith

place-Inv :
    (d : Driver) (m : ReadMsg) (v : IsValidRead m) (size pad : ℕ)
    → contains m.id (keys d.pending) ≡ false
    → Inv d
    → Inv (place d m v.geometry size pad)
unfolding place
place-Inv d m v size pad new i = elim (Bool-cases (misplaced pad v.geometry.region_len size)) [
  | inl bad ↦ rw bad (turn_away-Inv d m _ i)
  | inr good ↦
      rw good
        (accept-Inv d m _ new (new_pending-IsEntry m v size pad (misplaced-fits pad _ size good)) i)
]

allocate-Inv :
    (d : Driver) (m : ReadMsg) (v : IsValidRead m) (pad : ℕ) (b : TurnBudget)
    → contains m.id (keys d.pending) ≡ false
    → Inv d
    → Inv (allocate pad b d m v.geometry).0
unfolding allocate
allocate-Inv d m v pad b new i =
    elim (Option-cases (checked_add v.geometry.region_len (m.align - 1))) [
      | inl e ↦ rw (e, allocate) (turn_away-Inv d m _ i)
      | inr (size, e) ↦ rw (e, allocate) (place-Inv d m v size pad new i)
    ]

-- The thread does not panic, and what comes out of a message.
Kept : Option (Driver × TurnBudget) → Type 0
Kept r = (x : Driver × TurnBudget) × (r ≡ some x) × Inv x.0

on_read-Inv :
    (d : Driver) (m : ReadMsg) (pad : ℕ) (b : TurnBudget)
    → IsValidRead m
    → contains m.id (keys d.pending) ≡ false
    → Inv d
    → Kept (on_read pad b d m)
unfolding on_read Kept
on_read-Inv d m pad b v new i = elim (Bool-cases d.shutting_down) [
  | inl down ↦ (
    (turn_away d m (custom other "uring driver shutting down"), b),
    rw down refl,
    turn_away-Inv d m _ i,
  )
  | inr up ↦
      (allocate pad b d m v.geometry, rw (up, v.accepted) refl, allocate-Inv d m v pad b new i)
]

cancelled-IsEntry : (p : Pending) → IsEntry p → IsEntry (record p { cancel_requested = true })
cancelled-IsEntry p e = record { well = ground arith; caller = e.caller }

on_cancel-Inv : (d : Driver) (id : ℕ) → Inv d → Inv (on_cancel d id)
unfolding on_cancel
on_cancel-Inv d id i = elim (Option-cases (lookup id d.pending)) [
  | inl e ↦ rw (e, on_cancel) i
  | inr (p, e) ↦
      let there = lookup-contains id d.pending p e in
      rw (e, on_cancel)
        (queue_cancel-Inv _ id (rw (keys-insert_old id _ d.pending there) there) (
          update-Inv d id p _ e
            (cancelled-IsEntry p (All-lookup IsEntry id d.pending p i.entries e)) i))
]

on_shutdown-Inv : (d : Driver) → Inv d → Inv (on_shutdown d)
unfolding on_shutdown
on_shutdown-Inv d i =
    queue_all-Inv _ (keys d.pending) (Known-keys d.pending)
      (Inv-frame d _ refl refl refl refl refl refl i)

on_message-Inv :
    (pads : ℕ → ℕ) (b : TurnBudget) (d : Driver) (m : Msg)
    → IsValidMsg m
    → Unknown (read_ids (m ∷ [])) d
    → Inv d
    → Kept (on_message pads b d m)
unfolding on_message Kept
on_message-Inv pads b d (read m) v new i =
    on_read-Inv d m (pads m.id) b v (new m.id (ground arith)) i
on_message-Inv pads b d (cancel id) v new i = ((on_cancel d id, b), refl, on_cancel-Inv d id i)
on_message-Inv pads b d shutdown v new i = ((on_shutdown d, b), refl, on_shutdown-Inv d i)

-- With messages that the handles send, valid and each read under a new id, the intake phase never
-- panics and keeps the invariant; the messages that it leaves in the inbox are again valid and
-- new.
pub intake-Inv :
    (pads : ℕ → ℕ) (gone : Bool) (b : TurnBudget) (d : Driver) (ms : List Msg)
    → Sound d ms
    → Inv d
    → (x : Driver × TurnBudget) × (intake pads gone b d ms ≡ some x) × Inv x.0 × Sound x.0 x.0.inbox
unfolding intake Kept
intake-Inv pads gone b d [] s i = (
  _,
  refl,
  Inv-frame d _ refl refl refl refl refl refl i,
  record { valid = tt; ids_unique = tt; ids_new = λ j h. cc h },
)
intake-Inv pads gone b d (m ∷ ms) s i = elim (Bool-cases (can_take_message b)) [
  | inl more ↦
      let ((d', b'), e, i') =
        on_message-Inv pads (count_message b) d m s.valid.0 (Unknown-first d m ms s) i in
      let s' = Sound-next pads (count_message b) d m ms (d', b') e s in
      let (x, ex, i2, s2) = intake-Inv pads gone b' d' ms s' i' in (x, rw (more, e) ex, i2, s2)
  | inr full ↦ (
    (record d { inbox = m ∷ ms }, b),
    rw full refl,
    Inv-frame d _ refl refl refl refl refl refl i,
    record { valid = s.valid; ids_unique = s.ids_unique; ids_new = s.ids_new },
  )
]
