-- ===== src/Front/Submit.antt =====
-- `submit`: what the driver's thread gets to see.
use Prim.Native.Nat.{bit_and}
use uring.Prelude.{
  none-some, ℕ, ◌-◌, ◌%◌, ◌^◌, ◌<◌, ◌≡◌, refl, subst, inl, inr, Bool, true, not, ◌||◌, ◌==◌, some,
  List, ◌∷◌, arith, length, if-cases, Bool-cases,
}
use native.Mathlib.Decide.{dec_lt}
use uring.Prelude.Word.{word, fetch_add}
use uring.Prelude.Bits.{bit_and_set}
use uring.Sys.{IoError, IoResult, ok, err}
use uring.Admission.{
  ReadPermits, Semaphore, Tried, granted, full, shut, Semaphores, select_read_shard, >>=-some,
}
use uring.Driver.{ReadMsg, Msg, cancel_bit}
use uring.Driver.Intake.Entry.{IsValidRead}
use uring.Front.{
  Request, validate, Waiting, inert, waiting_permit, submitted, ReadHandle, inert_handle, Front,
  reject, send_read, admit, submit_checked, submit,
}
use uring.Front.Validate.{IsOf, validate-IsValidRead}

small_id : (a : ℕ) → a < word → bit_and a cancel_bit ≡ 0 → a < 2 ^ 63
small_id a h e = elim (dec_lt a (2 ^ 63)) [
  | yes small ↦ small
  | no large ↦ absurd (omega (arith, e, bit_and_set 63 (a - 2 ^ 63) a (omega arith) (omega arith)))
]

module _ {S : Type 0} (sem : Semaphore S) where
  -- The three ends of a call.
  pub data Outcome (r : Request) (before : List (ℕ × Msg)) (replies : List (ℕ × IoResult (List ℕ)))
      (f' : Front S) (h : ReadHandle) : Type 0 where
    refused :
        (e : IoError)
        → h.state ≡ inert
        → f'.sent ≡ before
        → f'.replies ≡ (h.id, err e) ∷ replies
        → Outcome r before replies f' h
    waits :
        (w : Waiting)
        → h.state ≡ waiting_permit w
        → f'.sent ≡ before
        → f'.replies ≡ replies
        → Outcome r before replies f' h
    sent :
        (shard : ℕ) (m : ReadMsg)
        → h.state ≡ submitted shard
        → f'.sent ≡ (shard, Msg.read m) ∷ before
        → f'.replies ≡ replies
        → m.id ≡ h.id
        → m.file ≡ r.file
        → IsOf r m
        → IsValidRead m
        → Outcome r before replies f' h

  send_read-Outcome :
      (alive : ℕ → Bool) (f : Front S) (r : Request) (id shard : ℕ) (p : ReadPermits)
      → ((m : ReadMsg)
          → m.offset ≡ r.offset
          → m.len ≡ r.len
          → m.align ≡ r.align
          → m.id ≡ id
          → IsValidRead m)
      → Outcome r f.sent f.replies
          (send_read sem alive f r id shard p).0
          (send_read sem alive f r id shard p).1
  unfolding send_read reject
  send_read-Outcome alive f r id shard p valid = elim (Bool-cases (alive shard)) [
    | inl up ↦
        simp up
          (sent shard _ refl refl refl refl refl (refl, refl, refl) (valid _ refl refl refl refl))
    | inr gone ↦ simp gone (refused _ refl refl refl)
  ]

  admit-Outcome :
      (alive : ℕ → Bool) (f : Front S) (r : Request) (id charge : ℕ) (c : ℕ × Tried × Semaphores S)
      → ((m : ReadMsg)
          → m.offset ≡ r.offset
          → m.len ≡ r.len
          → m.align ≡ r.align
          → m.id ≡ id
          → IsValidRead m)
      → Outcome r f.sent f.replies
          (admit sem alive f r id charge c).0
          (admit sem alive f r id charge c).1
  unfolding admit reject
  admit-Outcome alive f r id charge (shard, granted p, s) valid =
      send_read-Outcome alive (record f { semaphores = s }) r id shard p valid
  admit-Outcome alive f r id charge (shard, full, s) valid = waits _ refl refl refl
  admit-Outcome alive f r id charge (shard, shut, s) valid = refused _ refl refl refl

  submit_checked-Outcome :
      (alive : ℕ → Bool) (f : Front S) (r : Request) (id start : ℕ) (v : IoResult ℕ)
      (x : Front S × ReadHandle)
      → ((n : ℕ)
          → v ≡ ok n
          → (m : ReadMsg) → m.offset ≡ r.offset
          → m.len ≡ r.len
          → m.align ≡ r.align
          → m.id ≡ id
          → IsValidRead m)
      → submit_checked sem alive f r id start v ≡ some x
      → Outcome r f.sent f.replies x.0 x.1
  unfolding submit_checked reject
  submit_checked-Outcome alive f r id start (err e) x valid eq =
      let same : (record f { replies = (id, err e) ∷ f.replies }, inert_handle id start) ≡ x =
        ground arith in
      subst (λ (x : Front S × ReadHandle). Outcome r f.sent f.replies x.0 x.1) same
        (refused e refl refl refl)
  submit_checked-Outcome alive f r id start (ok n) x valid eq =
      let (c, ec, some_x) = >>=-some (select_read_shard sem start _ _ f.semaphores) _ x eq in
      let same : admit sem alive f r id (n % 2 ^ 32) c ≡ x = ground arith in
      subst (λ (x : Front S × ReadHandle). Outcome r f.sent f.replies x.0 x.1) same
        (admit-Outcome alive f r id (n % 2 ^ 32) c (valid n refl))

  -- A call of `submit` that does not panic, whatever the semaphores and channels answer, ends
  -- in one of three ways: refused, with one error sent and no message; waiting for permits,
  -- with nothing sent; or sent, once, as a message for the request that the driver's thread
  -- accepts as valid. Offsets and the next id are words, and a read at the current position has
  -- no alignment.
  pub submit-Outcome :
      (alive : ℕ → Bool) (f : Front S) (r : Request) (x : Front S × ReadHandle)
      → r.offset < word
      → f.next_id < word
      → (r.allow_current_position ≡ true → r.align ≡ 1)
      → submit sem alive f r ≡ some x
      → Outcome r f.sent f.replies x.0 x.1
  unfolding submit
  submit-Outcome alive f r x ho hi stream e =
      elim (if-cases (not (bit_and f.next_id cancel_bit == 0) || length f.semaphores.counts == 0) _
        _ (some x) e) [
          | inl (panics, e') ↦ absurd (none-some x e')
          | inr (runs, e') ↦
              let clear : bit_and f.next_id cancel_bit ≡ 0 = ground arith in
              let small = small_id f.next_id hi clear in
              submit_checked-Outcome alive
                (record f { next_id = fetch_add f.next_id 1; rr = fetch_add f.rr 1 }) r f.next_id
                (f.rr % length f.semaphores.counts) (validate f.limits r) x
                (λ n ev m eo el ea ei.
                  (validate-IsValidRead f.limits r n m ho stream ev (eo, el, ea)
                    (omega (arith, ei, small))).0)
                e'
        ]
