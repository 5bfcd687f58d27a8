-- ===== src/Reservation/Conserved.antt =====
-- The pool is conserved by every interleaving of reservations, clones and drops.
use uring.Prelude.{
  ℕ, ◌+◌, ◌<◌, ◌≡◌, refl, sym, ap, ◌∙◌, inl, inr, true, false, some, arith, Bool-cases,
  Option-cases, ◌==◌,
}
use uring.Prelude.Word.{word}
use uring.Prelude.Map.{
  lookup, insert, keys, contains, total, total-insert_new, total-insert_old, total-remove,
  contains-insert, contains-remove, IsUnique, insert-IsUnique, remove-IsUnique, keys-insert_old,
  lookup-contains,
}
use uring.Sys.{IoResult-cases, ok}
use uring.Reservation.{
  SharedReadBudget, reserve, refund, Receipt, Shares, Step, reserves, clones, drops, issue,
  drop_owner, step,
}

abbrev pub reserved : Shares → ℕ
reserved s = total (λ (r : Receipt). r.bytes) s.receipts

-- Free and reserved bytes are the capacity.
pub record Inv (s : Shares) : Type 0 where
  pub word_sized : s.pool.capacity < word
  pub conserved : s.pool.available + reserved s ≡ s.pool.capacity
  pub unique : IsUnique (keys s.receipts)
  pub named : (j : ℕ) → contains j (keys s.receipts) ≡ true → j < s.next

pub reserve-exact :
    (p q : SharedReadBudget) (bytes : ℕ)
    → reserve p bytes ≡ ok q
    → (q.capacity ≡ p.capacity) × (q.available + bytes ≡ p.available)
unfolding reserve
reserve-exact p q bytes e = ground arith

unnamed : (s : Shares) → Inv s → contains s.next (keys s.receipts) ≡ false
unnamed s i = elim (Bool-cases (contains s.next (keys s.receipts))) [
  | inl held ↦ absurd (omega (arith, i.named s.next held))
  | inr free ↦ free
]

-- An update of a receipt that keeps its bytes.
update-Inv :
    (s : Shares) (id : ℕ) (r q : Receipt)
    → lookup id s.receipts ≡ some r
    → q.bytes ≡ r.bytes
    → Inv s
    → Inv (record s { receipts = insert id q s.receipts })
update-Inv s id r q found same i =
    let there = lookup-contains id s.receipts r found in
    record {
      word_sized = i.word_sized;
      conserved =
          omega (
            arith,
            i.conserved,
            total-insert_old (λ (r : Receipt). r.bytes) id q r s.receipts found,
          );
      unique = insert-IsUnique id q s.receipts i.unique;
      named = λ j h. i.named j (ap (contains j) (sym (keys-insert_old id q s.receipts there)) ∙ h);
    }

issue-Inv : (s : Shares) (bytes : ℕ) → Inv s → Inv (issue s bytes (reserve s.pool bytes))
issue-Inv s bytes i = elim (IoResult-cases (reserve s.pool bytes)) [
  | inr (x, e) ↦ simp e i
  | inl (q, e) ↦
      let (same, taken) = reserve-exact s.pool q bytes e in
      let receipt : Receipt = record { bytes = bytes; owners = 1 } in
      simp e (record {
        word_sized = omega (arith, i.word_sized);
        conserved = omega (
          arith,
          i.conserved,
          total-insert_new (λ (r : Receipt). r.bytes) s.next receipt s.receipts (unnamed s i),
        );
        unique = insert-IsUnique s.next receipt s.receipts i.unique;
        named = λ j h. ground (arith, contains-insert j s.next receipt s.receipts, i.named j);
      })
]

drop_owner-Inv :
    (s : Shares) (id : ℕ) (r : Receipt)
    → lookup id s.receipts ≡ some r
    → Inv s
    → Inv (drop_owner s id r)
unfolding refund
drop_owner-Inv s id r found i = elim (Bool-cases (r.owners == 1)) [
  | inl last ↦ simp last (record {
    word_sized = i.word_sized;
    conserved = omega (
      arith,
      i.conserved,
      i.word_sized,
      total-remove (λ (r : Receipt). r.bytes) id r s.receipts found,
    );
    unique = remove-IsUnique id s.receipts i.unique;
    named = λ j h. ground (arith, contains-remove j id s.receipts i.unique, i.named j);
  })
  | inr more ↦ simp more (update-Inv s id r _ found refl i)
]

-- Every reservation, clone and drop of a receipt, in any order, keeps the account of a pool whose
-- capacity is a word: the free bytes and the bytes of the receipts that are alive are the
-- capacity, so that nothing is refunded twice or lost, and no addition wraps around.
pub step-Inv : (t : Step) (s : Shares) → Inv s → Inv (step t s)
unfolding step
step-Inv (reserves bytes) s i = issue-Inv s bytes i
step-Inv (clones id) s i = elim (Option-cases (lookup id s.receipts)) [
  | inl n ↦ rw (n, step) i
  | inr (r, e) ↦ rw (e, step) (update-Inv s id r _ e refl i)
]
step-Inv (drops id) s i = elim (Option-cases (lookup id s.receipts)) [
  | inl n ↦ rw (n, step) i
  | inr (r, e) ↦ rw (e, step) (drop_owner-Inv s id r e i)
]
