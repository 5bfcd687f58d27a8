-- ===== src/Driver/Inv.antt =====
-- What holds of the driver thread between two steps, and the steps that only touch its cancels.
use uring.Prelude.{
  ℕ, ◌+◌, ◌%◌, ◌≡◌, refl, sym, ap, ◌∙◌, subst, inl, inr, true, some, List, [], ◌∷◌, arith, length,
  All, Bool-cases,
}
use uring.Prelude.Word.{word}
use uring.Prelude.Map.{
  contains, keys, lookup, insert, IsUnique, insert-IsUnique, insert-All, keys-insert_old,
  length-insert_old, lookup-contains,
}
use uring.Pending.{Pending}
use uring.Pending.Resubmit.{IsPending}
use uring.Driver.{Driver, queue_cancel, queue_all}

-- An entry of the table is well formed, and its caller has not been answered.
pub record IsEntry (p : Pending) : Type 0 where
  pub well : IsPending p
  pub caller : (tx : ℕ) × (p.done ≡ some tx)

abbrev pub Entries : List (ℕ × Pending) → Type 0
Entries m = All (λ (e : ℕ × Pending). IsEntry e.1) m

-- One entry for an id; the counters account for every read that was accepted; cancels are queued
-- once, and only for reads in the table.
pub record Inv (d : Driver) : Type 0 where
  pub unique : IsUnique (keys d.pending)
  pub entries : Entries d.pending
  pub in_flight : d.stats.in_flight ≡ length d.pending % word
  pub conserved :
      d.stats.submitted ≡ (d.stats.delivered + d.stats.orphan_reclaimed + d.stats.in_flight) % word
  pub cancels_once : IsUnique d.queued_cancels
  pub cancels_pending :
      (j : ℕ) → contains j d.queued_cancels ≡ true → contains j (keys d.pending) ≡ true

cancels_cons :
    (id : ℕ) (qs ks : List ℕ)
    → contains id ks ≡ true
    → ((j : ℕ) → contains j qs ≡ true → contains j ks ≡ true)
    → (j : ℕ) → contains j (id ∷ qs) ≡ true
    → contains j ks ≡ true
cancels_cons id qs ks h covered j e = ground (arith, covered j)

pub queue_cancel-Inv :
    (d : Driver) (id : ℕ) → contains id (keys d.pending) ≡ true → Inv d → Inv (queue_cancel d id)
unfolding queue_cancel
queue_cancel-Inv d id h v = elim (Bool-cases (contains id d.queued_cancels)) [
  | inl old ↦ rw old v
  | inr new ↦ rw new (record {
    unique = v.unique;
    entries = v.entries;
    in_flight = v.in_flight;
    conserved = v.conserved;
    cancels_once = (new, v.cancels_once);
    cancels_pending = cancels_cons id d.queued_cancels (keys d.pending) h v.cancels_pending;
  })
]

pub queue_cancel-pending : (d : Driver) (id : ℕ) → (queue_cancel d id).pending ≡ d.pending
unfolding queue_cancel
queue_cancel-pending d id = ground arith

pub queue_all-pending : (d : Driver) (ids : List ℕ) → (queue_all d ids).pending ≡ d.pending
unfolding queue_all
queue_all-pending d [] = refl
queue_all-pending d (id ∷ ids) =
    queue_all-pending (queue_cancel d id) ids ∙ queue_cancel-pending d id

-- Every id of a list of keys.
abbrev pub Known : List ℕ → List (ℕ × Pending) → Type 0
Known ids m = All (λ i. contains i (keys m) ≡ true) ids

pub queue_all-Inv :
    (d : Driver) (ids : List ℕ) → Known ids d.pending → Inv d → Inv (queue_all d ids)
unfolding queue_all
queue_all-Inv d [] h v = v
queue_all-Inv d (id ∷ ids) h v =
    queue_all-Inv (queue_cancel d id) ids (rw (queue_cancel-pending d id) h.1)
      (queue_cancel-Inv d id h.0 v)

Known-weaken :
    (i : ℕ) (p : Pending) (ids : List ℕ) (m : List (ℕ × Pending))
    → Known ids m
    → Known ids ((i, p) ∷ m)
Known-weaken i p [] m h = tt
Known-weaken i p (j ∷ ids) m h = (ground arith, Known-weaken i p ids m h.1)

pub Known-keys : (m : List (ℕ × Pending)) → Known (keys m) m
Known-keys [] = tt
Known-keys ((i, p) ∷ m) = (ground arith, Known-weaken i p (keys m) m (Known-keys m))

-- A step that leaves the table, the queued cancels and the four read counters alone.
pub Inv-frame :
    (d d' : Driver)
    → d'.pending ≡ d.pending
    → d'.queued_cancels ≡ d.queued_cancels
    → d'.stats.submitted ≡ d.stats.submitted
    → d'.stats.delivered ≡ d.stats.delivered
    → d'.stats.orphan_reclaimed ≡ d.stats.orphan_reclaimed
    → d'.stats.in_flight ≡ d.stats.in_flight
    → Inv d
    → Inv d'
Inv-frame d d' ep eq es ed eo ei v = record {
  unique = subst (λ m. IsUnique (keys m)) (sym ep) v.unique;
  entries = subst Entries (sym ep) v.entries;
  in_flight = ei ∙ v.in_flight ∙ ap (λ (m : List (ℕ × Pending)). length m % word) (sym ep);
  conserved = es ∙ v.conserved ∙ sym (ap₃ ed eo ei);
  cancels_once = subst IsUnique (sym eq) v.cancels_once;
  cancels_pending = λ j h.
      subst (λ m. contains j (keys m) ≡ true) (sym ep)
        (v.cancels_pending j (subst (λ q. contains j q ≡ true) eq h));
}
  where
    ap₃ :
        {a b c a' b' c' : ℕ} → a ≡ a' → b ≡ b' → c ≡ c' → (a + b + c) % word ≡ (a' + b' + c') % word
    ap₃ p q r = omega arith

-- A new value for an entry that is there.
pub update-Inv :
    (d : Driver) (id : ℕ) (p q : Pending)
    → lookup id d.pending ≡ some p
    → IsEntry q
    → Inv d
    → Inv (record d { pending = insert id q d.pending })
update-Inv d id p q found entry v =
    let there = lookup-contains id d.pending p found in
    record {
      unique = insert-IsUnique id q d.pending v.unique;
      entries = insert-All IsEntry id d.pending q v.entries entry;
      in_flight = omega (arith, v.in_flight, length-insert_old id q d.pending there);
      conserved = v.conserved;
      cancels_once = v.cancels_once;
      cancels_pending = λ j h. rw (keys-insert_old id q d.pending there) (v.cancels_pending j h);
    }
