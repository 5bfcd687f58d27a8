-- ===== src/Driver/Intake/Keys.antt =====
-- The ids of the table through the intake phase.
use uring.Prelude.{
  ℕ, ◌-◌, ◌≡◌, refl, sym, ap, subst, ◌∙◌, ◌⊎◌, inl, inr, true, false, some, List, [], ◌∷◌, arith,
  All, Bool-cases, if-cases, Option-cases,
}
use uring.Prelude.Word.{checked_add}
use uring.Prelude.Map.{
  contains, keys, lookup, insert, IsUnique, contains-insert, keys-insert_old, lookup-contains,
}
use uring.Sys.{IoError, custom, other}
use uring.Geometry.{Geometry, aligned_geometry}
use uring.Budget.{TurnBudget}
use uring.Driver.{ReadMsg, Msg, read, cancel, shutdown, Driver, >>=-some}
use uring.Driver.Inv.{queue_cancel-pending, queue_all-pending}
use uring.Driver.Intake.{
  misplaced, turn_away, new_pending, accept, place, allocate, on_read, on_cancel, on_shutdown,
  on_message,
}
use uring.Driver.Intake.Entry.{IsValidRead}

-- The ids of the reads among the messages.
abbrev pub read_ids : List Msg → List ℕ
read_ids [] = []
read_ids (read m ∷ ms) = m.id ∷ read_ids ms
read_ids (cancel id ∷ ms) = read_ids ms
read_ids (shutdown ∷ ms) = read_ids ms

abbrev pub IsValidMsg : Msg → Type 0
IsValidMsg (read m) = IsValidRead m
IsValidMsg (cancel id) = Unit {0}
IsValidMsg shutdown = Unit {0}

-- Ids that are in no entry of the table.
abbrev pub Unknown : List ℕ → Driver → Type 0
Unknown ids d = (j : ℕ) → contains j ids ≡ true → contains j (keys d.pending) ≡ false

-- Messages as the handles of the driver send them: validated, every read under an id of its own.
pub record Sound (d : Driver) (ms : List Msg) : Type 0 where
  pub valid : All IsValidMsg ms
  pub ids_unique : IsUnique (read_ids ms)
  pub ids_new : Unknown (read_ids ms) d

-- The keys of a later table are old ones or among `ids`.
abbrev pub KeysFrom : List ℕ → Driver → Driver → Type 0
KeysFrom ids d d' =
    (j : ℕ)
    → contains j (keys d'.pending) ≡ true
    → (contains j (keys d.pending) ≡ true) ⊎ (contains j ids ≡ true)

turn_away-pending : (d : Driver) (m : ReadMsg) (e : IoError) → (turn_away d m e).pending ≡ d.pending
unfolding turn_away
turn_away-pending d m e = refl

place-keys :
    (d : Driver) (m : ReadMsg) (g : Geometry) (size pad : ℕ)
    → KeysFrom (m.id ∷ []) d (place d m g size pad)
unfolding place turn_away accept
place-keys d m g size pad j h = elim (Bool-cases (misplaced pad g.region_len size)) [
  | inl bad ↦ inl (rw bad at h)
  | inr good ↦
      let h' : contains j (keys (insert m.id (new_pending m g size pad) d.pending)) ≡ true =
        rw good at h in
      ground (arith, contains-insert j m.id (new_pending m g size pad) d.pending)
]

allocate-keys :
    (d : Driver) (m : ReadMsg) (g : Geometry) (pad : ℕ) (b : TurnBudget)
    → KeysFrom (m.id ∷ []) d (allocate pad b d m g).0
unfolding allocate turn_away
allocate-keys d m g pad b j h = elim (Option-cases (checked_add g.region_len (m.align - 1))) [
  | inl e ↦ inl (rw (e, allocate) at h)
  | inr (size, e) ↦ place-keys d m g size pad j (rw (e, allocate) at h)
]

on_read-keys :
    (pad : ℕ) (b : TurnBudget) (d : Driver) (m : ReadMsg) (x : Driver × TurnBudget)
    → on_read pad b d m ≡ some x
    → KeysFrom (m.id ∷ []) d x.0
unfolding on_read
on_read-keys pad b d m x e j h = elim (if-cases d.shutting_down _ _ (some x) e) [
  | inl (down, e') ↦
      let same : turn_away d m (custom other "uring driver shutting down") ≡ x.0 = ground arith in
      inl (rw (sym (turn_away-pending d m (custom other "uring driver shutting down")), same) h)
  | inr (up, e') ↦
      let (g, eg, some_x) = >>=-some (aligned_geometry m.offset m.len m.align) _ x e' in
      let same : allocate pad b d m g ≡ x = ground arith in allocate-keys d m g pad b j (rw same h)
]

on_cancel-keys : (d : Driver) (id : ℕ) → keys (on_cancel d id).pending ≡ keys d.pending
unfolding on_cancel
on_cancel-keys d id = elim (Option-cases (lookup id d.pending)) [
  | inl e ↦ rw (e, on_cancel) refl
  | inr (p, e) ↦
      rw (e, on_cancel)
        (ap keys (queue_cancel-pending _ id)
          ∙ keys-insert_old id _ d.pending (lookup-contains id d.pending p e))
]

on_shutdown-keys : (d : Driver) → keys (on_shutdown d).pending ≡ keys d.pending
unfolding on_shutdown
on_shutdown-keys d = ap keys (queue_all-pending _ (keys d.pending))

on_message-keys :
    (pads : ℕ → ℕ) (b : TurnBudget) (d : Driver) (m : Msg) (x : Driver × TurnBudget)
    → on_message pads b d m ≡ some x
    → KeysFrom (read_ids (m ∷ [])) d x.0
unfolding on_message
on_message-keys pads b d (read m) x e j h = on_read-keys (pads m.id) b d m x e j h
on_message-keys pads b d (cancel id) x e j h =
    let same : on_cancel d id ≡ x.0 = ground arith in
    inl (ap (contains j) (sym (on_cancel-keys d id)) ∙ rw same h)
on_message-keys pads b d shutdown x e j h =
    let same : on_shutdown d ≡ x.0 = ground arith in
    inl (ap (contains j) (sym (on_shutdown-keys d)) ∙ rw same h)

KeysFrom-new :
    (ids : List ℕ) (d d' : Driver) (j : ℕ)
    → KeysFrom ids d d'
    → contains j (keys d.pending) ≡ false
    → contains j ids ≡ false
    → contains j (keys d'.pending) ≡ false
KeysFrom-new ids d d' j from old others = elim (Bool-cases (contains j (keys d'.pending))) [
  | inl held ↦ elim (from j held) [ inl a ↦ cc (a, old) | inr a ↦ cc (a, others) ]
  | inr out ↦ out
]

contains_other :
    (i j : ℕ) (is : List ℕ)
    → contains i is ≡ false
    → contains j is ≡ true
    → contains j (i ∷ []) ≡ false
contains_other i j is h e = ground arith

contains_later : (j i : ℕ) (is : List ℕ) → contains j is ≡ true → contains j (i ∷ is) ≡ true
contains_later j i is h = ground arith

contains_one : (j i : ℕ) → contains j (i ∷ []) ≡ true → i ≡ j
contains_one j i h = ground arith

contains_first : (i : ℕ) (is : List ℕ) → contains i (i ∷ is) ≡ true
contains_first i is = ground arith

-- The first message's ids are new.
pub Unknown-first :
    (d : Driver) (m : Msg) (ms : List Msg) → Sound d (m ∷ ms) → Unknown (read_ids (m ∷ [])) d
Unknown-first d (read m) ms s j h =
    subst (λ i. contains i (keys d.pending) ≡ false) (contains_one j m.id h)
      (s.ids_new m.id (contains_first m.id (read_ids ms)))
Unknown-first d (cancel id) ms s j h = cc h
Unknown-first d shutdown ms s j h = cc h

pub Sound-next :
    (pads : ℕ → ℕ) (b : TurnBudget) (d : Driver) (m : Msg) (ms : List Msg) (x : Driver × TurnBudget)
    → on_message pads b d m ≡ some x
    → Sound d (m ∷ ms)
    → Sound x.0 ms
Sound-next pads b d (read m) ms x e s = record {
  valid = s.valid.1;
  ids_unique = s.ids_unique.1;
  ids_new = λ j h.
      KeysFrom-new (m.id ∷ []) d x.0 j (on_message-keys pads b d (read m) x e)
        (s.ids_new j (contains_later j m.id (read_ids ms) h))
        (contains_other m.id j (read_ids ms) s.ids_unique.0 h);
}
Sound-next pads b d (cancel id) ms x e s = record {
  valid = s.valid.1;
  ids_unique = s.ids_unique;
  ids_new = λ j h.
      KeysFrom-new [] d x.0 j (on_message-keys pads b d (cancel id) x e) (s.ids_new j h) refl;
}
Sound-next pads b d shutdown ms x e s = record {
  valid = s.valid.1;
  ids_unique = s.ids_unique;
  ids_new =
      λ j h. KeysFrom-new [] d x.0 j (on_message-keys pads b d shutdown x e) (s.ids_new j h) refl;
}
