-- ===== src/Pending/Whole.antt =====
-- A logical read from its submission to its end: the completions that it takes, one after another.
use uring.Prelude.{
  ℕ, ◌<◌, ◌≡◌, refl, ◌∙◌, ◌⊎◌, inl, inr, Bool, false, Option, none, some, List, [], ◌∷◌, arith,
  length,
}
use uring.Prelude.Int.{ℤ, pos, negsuc}
use uring.Sys.{IoResult, ok, err}
use uring.Pending.{Pending, Completion, seen, Sqe, ReapStep, finish, resubmit, reap_read}
use uring.Pending.Resubmit.{IsPending, submissions_left, reap_read-resubmit, IsHonest}
use uring.Pending.Content.{Kernel, Ends, reap_read-finish}

abbrev on_step {ℓ} : {A : Type ℓ} → Pending × ReapStep → (IoResult (List ℕ) → A) → (Pending → A) → A
on_step (q, finish r) done next = done r
on_step (q, resubmit s) done next = next q

-- The completions of one read, until one finishes it; `none` if they run out before.
unfoldable pub serve : List Completion → ℕ → Bool → Pending → Option (IoResult (List ℕ))
serve [] id down p = none
serve (c ∷ cs) id down p =
    on_step (reap_read c.answers (seen p c) id c.result down) some (λ q. serve cs id down q)

-- Every completion that the read sees is one of the kernel's, and the caller is still waiting.
unfoldable pub History : (ℕ → ℕ) → ℕ → List Completion → ℕ → Bool → Pending → Type 0
History f size [] id down p = Unit {0}
History f size (c ∷ cs) id down p =
    Kernel f size p c
    × (c.answers.receiver_closed ≡ false)
    × on_step (reap_read c.answers (seen p c) id c.result down) (λ r. Unit {0})
        (λ q. History f size cs id down q)

-- What a read ends with.
abbrev pub Result : (ℕ → ℕ) → ℕ → Pending → IoResult (List ℕ) → Type 0
Result f size p (ok bytes) = Ends f size p bytes
Result f size p (err e) = Unit {0}

step_cases :
    (x : Pending × ReapStep)
    → ((q : Pending) × (r : IoResult (List ℕ)) × (x ≡ (q, finish r)))
      ⊎ ((q : Pending) × (s : Sqe) × (x ≡ (q, resubmit s)))
step_cases (q, finish r) = inl (q, r, refl)
step_cases (q, resubmit s) = inr (q, s, refl)

-- The result of a continuation is one of the read that it continues.
Result-Keeps :
    (f : ℕ → ℕ) (size : ℕ) (p q : Pending) (r : IoResult (List ℕ))
    → q.offset ≡ p.offset
    → q.head ≡ p.head
    → q.want ≡ p.want
    → Result f size q r
    → Result f size p r
Result-Keeps f size p q (ok bytes) eo eh ew h = rw (eo, eh, ew) at h
Result-Keeps f size p q (err e) eo eh ew h = tt

finish-Result :
    (f : ℕ → ℕ) (size : ℕ) (c : Completion) (id tx : ℕ) (down : Bool) (p q : Pending)
    (r : IoResult (List ℕ))
    → IsPending p
    → p.done ≡ some tx
    → Kernel f size p c
    → c.answers.receiver_closed ≡ false
    → reap_read c.answers (seen p c) id c.result down ≡ (q, finish r)
    → Result f size p r
finish-Result f size c id tx down p q (ok bytes) v hd k up e =
    reap_read-finish f size p c id tx down q bytes v k hd up e
finish-Result f size c id tx down p q (err x) v hd k up e = tt

seen-IsPending :
    (p : Pending) (c : Completion)
    → IsPending p
    → length c.memory ≡ length p.buf
    → IsPending (seen p c)
seen-IsPending p c v e = ground arith

IsHonest-buf :
    (p : Pending) (memory : List ℕ) (res : ℤ)
    → IsHonest p res
    → IsHonest (record p { buf = memory }) res
IsHonest-buf p memory (pos n) h = h
IsHonest-buf p memory (negsuc n) h = tt

-- A read with a well-formed entry and a waiting caller, whose completions are the kernel's, ends
-- within one more completion than `submissions_left`, with an error or with the bytes of the
-- requested range.
pub serve_total :
    (f : ℕ → ℕ) (size : ℕ) (cs : List Completion) (id : ℕ) (down : Bool) (p : Pending) (tx : ℕ)
    → IsPending p
    → p.done ≡ some tx
    → History f size cs id down p
    → submissions_left p < length cs
    → (r : IoResult (List ℕ)) × (serve cs id down p ≡ some r) × Result f size p r
unfolding serve History
serve_total f size [] id down p tx v hd h n = absurd (omega arith)
serve_total f size (c ∷ cs) id down p tx v hd h n =
    elim (step_cases (reap_read c.answers (seen p c) id c.result down)) [
      | inl (q, r, e) ↦ (r, rw e refl, finish-Result f size c id tx down p q r v hd h.0 h.1 e)
      | inr (q, s, e) ↦
          let step =
            reap_read-resubmit c.answers (seen p c) id c.result down q s
              (seen-IsPending p c v h.0.same_length) (IsHonest-buf p c.memory c.result h.0.honest)
              e in
          let keeps = step.1 in
          let (r, es, fin) =
            serve_total f size cs id down q tx step.0 (keeps.done ∙ hd) (rw e at h.2)
              (omega (arith, step.2)) in
          (r, rw e es, Result-Keeps f size p q r keeps.offset keeps.head keeps.want fin)
    ]
