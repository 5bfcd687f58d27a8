-- ===== src/Driver/Submit/Cancels.antt =====
-- The cancels that `queue_all` queues behind the backlog.
use uring.Prelude.{
  ℕ, ◌≡◌, refl, sym, subst, ◌∙◌, ◌⊎◌, inl, inr, true, false, List, [], ◌∷◌, ◌++◌, map, arith, All,
  Bool-cases,
}
use uring.Prelude.Map.{contains, All-contains}
use uring.Pending.{Sqe, async_cancel}
use uring.Driver.{Driver, queue_cancel, queue_all, cancel_bit}
use Prim.Native.Nat.{bit_or}
use mathlib.Core.List.{append-nil, append_assoc}

-- The request to the kernel that cancels a read.
abbrev pub cancel_of : ℕ → Sqe
cancel_of id = async_cancel id (bit_or id cancel_bit)

-- From `d` to `d'`, the cancels of `new` were queued behind the backlog: one for each of the reads `ids`
-- that had none, and none for a read that had one. Each of `ids` is marked, so that it gets no second.
pub record Cancels (ids : List ℕ) (d d' : Driver) : Type 0 where
  pub new : List ℕ
  pub backlog : d'.backlog ≡ d.backlog ++ map cancel_of new
  pub covered : All (λ j. (contains j d.queued_cancels ≡ true) ⊎ (contains j new ≡ true)) ids
  pub marked : All (λ j. contains j d'.queued_cancels ≡ true) ids
  pub fresh : All (λ j. contains j d.queued_cancels ≡ false) new

contains_head :
    (i j : ℕ) (is : List ℕ) → contains j (i ∷ is) ≡ true → (i ≡ j) ⊎ (contains j is ≡ true)
contains_head i j is h = ground arith

contains_here : (i j : ℕ) (is : List ℕ) → i ≡ j → contains j (i ∷ is) ≡ true
contains_here i j is h = ground arith

contains_later : (i j : ℕ) (is : List ℕ) → contains j is ≡ true → contains j (i ∷ is) ≡ true
contains_later i j is h = ground arith

missing_later : (i j : ℕ) (is : List ℕ) → contains j (i ∷ is) ≡ false → contains j is ≡ false
missing_later i j is h = ground arith

-- What was queued for `ids`, as functions of the read.
New : List ℕ → Driver → Driver → Type 0
New ids d d' =
    (new : List ℕ) × (d'.backlog ≡ d.backlog ++ map cancel_of new)
    × ((j : ℕ)
        → contains j ids ≡ true
        → (contains j d.queued_cancels ≡ true) ⊎ (contains j new ≡ true))
    × ((j : ℕ) → contains j new ≡ true → contains j d.queued_cancels ≡ false)

abbrev one_more : Driver → ℕ → Driver
one_more d id = record d {
  queued_cancels = id ∷ d.queued_cancels;
  backlog = d.backlog ++ cancel_of id ∷ [];
}

queue_cancel-cases :
    (d : Driver) (id : ℕ)
    → ((contains id d.queued_cancels ≡ true) × (queue_cancel d id ≡ d))
      ⊎ ((contains id d.queued_cancels ≡ false) × (queue_cancel d id ≡ one_more d id))
unfolding queue_cancel
queue_cancel-cases d id = elim (Bool-cases (contains id d.queued_cancels)) [
  | inl had ↦ inl (had, rw had refl)
  | inr new ↦ inr (new, rw new refl)
]

skip-New :
    (d d' : Driver) (id : ℕ) (ids : List ℕ)
    → contains id d.queued_cancels ≡ true
    → New ids d d'
    → New (id ∷ ids) d d'
unfolding New
skip-New d d' id ids had (new, backlog, covered, fresh) = (
  new,
  backlog,
  (λ j h. elim (contains_head id j ids h) [
    | inl e ↦ inl (subst (λ i. contains i d.queued_cancels ≡ true) e had)
    | inr later ↦ covered j later
  ]),
  fresh,
)

add-New :
    (d d' : Driver) (id : ℕ) (ids : List ℕ)
    → contains id d.queued_cancels ≡ false
    → New ids (one_more d id) d'
    → New (id ∷ ids) d d'
unfolding New
add-New d d' id ids none_yet (new, backlog, covered, fresh) = (
  id ∷ new,
  backlog ∙ append_assoc d.backlog (cancel_of id ∷ []) (map cancel_of new),
  (λ j h. elim (contains_head id j ids h) [
    | inl e ↦ inr (contains_here id j new e)
    | inr later ↦ elim (covered j later) [
      | inl had ↦ elim (contains_head id j d.queued_cancels had) [
        | inl e ↦ inr (contains_here id j new e)
        | inr before ↦ inl before
      ]
      | inr queued ↦ inr (contains_later id j new queued)
    ]
  ]),
  (λ j h. elim (contains_head id j new h) [
    | inl e ↦ subst (λ i. contains i d.queued_cancels ≡ false) e none_yet
    | inr later ↦ missing_later id j d.queued_cancels (fresh j later)
  ]),
)

nothing-New : (d : Driver) → New [] d d
unfolding New
nothing-New d = ([], sym (append-nil d.backlog), (λ j h. absurd (cc h)), (λ j h. absurd (cc h)))

queue_all-New : (d : Driver) (ids : List ℕ) → New ids d (queue_all d ids)
unfolding queue_all
queue_all-New d [] = nothing-New d
queue_all-New d (id ∷ ids) =
    let ih = queue_all-New (queue_cancel d id) ids in
    elim (queue_cancel-cases d id) [
      | inl (had, same) ↦
          skip-New d _ id ids had
            (subst (λ e. New ids e (queue_all (queue_cancel d id) ids)) same ih)
      | inr (none_yet, queued) ↦
          add-New d _ id ids none_yet
            (subst (λ e. New ids e (queue_all (queue_cancel d id) ids)) queued ih)
    ]

pub queue_all-Cancels :
    (d : Driver) (ids : List ℕ)
    → All (λ j. contains j (queue_all d ids).queued_cancels ≡ true) ids
    → Cancels ids d (queue_all d ids)
unfolding New
queue_all-Cancels d ids marked =
    let (new, backlog, covered, fresh) = queue_all-New d ids in
    record {
      new = new;
      backlog = backlog;
      covered = All-contains _ ids covered;
      marked = marked;
      fresh = All-contains _ new fresh;
    }

-- A step before that leaves the backlog and the marks alone.
pub Cancels-frame :
    (ids : List ℕ) (d e d' : Driver)
    → d.backlog ≡ e.backlog
    → d.queued_cancels ≡ e.queued_cancels
    → Cancels ids e d'
    → Cancels ids d d'
Cancels-frame ids d e d' b q c = record {
  new = c.new;
  backlog = rw b c.backlog;
  covered = rw q c.covered;
  marked = c.marked;
  fresh = rw q c.fresh;
}
