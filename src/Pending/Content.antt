-- ===== src/Pending/Content.antt =====
-- The bytes that a finished read hands out are the file's bytes of the requested range.
use uring.Prelude.{
  ℕ, zero, suc, ◌+◌, ◌-◌, ◌%◌, ◌≤◌, ◌<◌, ◌≡◌, refl, sym, ap, ◌∙◌, ◌⊎◌, inl, inr, Bool, false, some,
  List, [], ◌∷◌, ◌++◌, min, arith, length, get_elem?, take, drop, length-drop,
}
use native.Mathlib.Nat.{add_assoc, zero-add, suc-add, add-suc, add-zero}
use native.Mathlib.Decide.{dec_lt}
use uring.Prelude.Int.{ℤ, pos, negsuc}
use uring.Prelude.Word.{word}
use uring.Sys.{ok}
use uring.Geometry.{current_position}
use uring.Pending.Resubmit.{IsPending, IsHonest, advance}
use uring.Pending.{
  Pending, Completion, seen, Answers, copy_to_front, moved, deliver, finish, finish_ok,
  finish_direct_short_read, reap_error, reap_progress, reap_read,
}

-- The bytes `o`, `o + 1`, … of a file.
abbrev pub slice : (ℕ → ℕ) → ℕ → ℕ → List ℕ
slice f o zero = []
slice f o (suc n) = f o ∷ slice f (suc o) n

-- From index `s` on, the buffer holds `n` bytes of the file from offset `o` on.
abbrev pub Holds : (ℕ → ℕ) → ℕ → ℕ → List ℕ → ℕ → Type 0
Holds f o n buf s = (i : ℕ) → i < n → get_elem? buf (s + i) ≡ some (f (o + i))

get_elem?-drop : (s i : ℕ) (l : List ℕ) → get_elem? (drop s l) i ≡ get_elem? l (s + i)
get_elem?-drop zero i l = rw (zero-add i) refl
get_elem?-drop (suc s) i [] = refl
get_elem?-drop (suc s) i (x ∷ l) = rw (suc-add s i) (get_elem?-drop s i l)

take-slice :
    (f : ℕ → ℕ) (o n : ℕ) (l : List ℕ)
    → ((i : ℕ) → i < n → get_elem? l i ≡ some (f (o + i)))
    → take n l ≡ slice f o n
take-slice f o zero l h = refl
take-slice f o (suc n) [] h = cc (h 0 (omega arith))
take-slice f o (suc n) (x ∷ l) h =
    let first : some x ≡ some (f o) = h 0 (omega arith) ∙ ap (λ (t : ℕ). some (f t)) (add-zero o) in
    let rest = take-slice f (suc o) n l (λ i lt.
      h (suc i) (omega arith) ∙ ap (λ (t : ℕ). some (f t)) (add-suc o i ∙ sym (suc-add o i))) in
    cc (first, rest)

-- Moving a range to the front and cutting there is cutting the range out.
take_prefix : (n : ℕ) (x r : List ℕ) → n ≤ length x → take n (take n x ++ r) ≡ take n x
take_prefix zero x r h = refl
take_prefix (suc n) [] r h = elim h [ ]
take_prefix (suc n) (y ∷ x) r h = ap (◌∷◌ y) (take_prefix n x r (omega arith))

take-copy_to_front :
    (s n : ℕ) (buf : List ℕ)
    → s + n ≤ length buf
    → take n (copy_to_front buf s (s + n)) ≡ take n (drop s buf)
take-copy_to_front s n buf h =
    let e : s + n - s ≡ n = omega arith in
    rw e (take_prefix n (drop s buf) _ (omega (arith, length-drop s buf)))

take-moved :
    (n s : ℕ) (buf : List ℕ) → s + n ≤ length buf → take n (moved buf s n) ≡ take n (drop s buf)
take-moved zero s buf h = refl
take-moved (suc n) zero buf h = refl
take-moved (suc n) (suc s) buf h = ground (arith, take-copy_to_front (suc s) (suc n) buf h)

-- What `deliver` gives an open receiver.
abbrev avail : Pending → ℕ
avail p = min (p.nread - p.head) p.want

deliver-take :
    (a : Answers) (p : Pending) (tx : ℕ)
    → p.done ≡ some tx
    → a.receiver_closed ≡ false
    → p.pad + p.head + avail p ≤ length p.buf
    → (deliver a p).1 ≡ take (avail p) (drop (p.pad + p.head) p.buf)
unfolding deliver
deliver-take a p tx hd hc hb = rw (hd, hc) (take-moved (avail p) (p.pad + p.head) p.buf hb)

Holds-drop :
    (f : ℕ → ℕ) (o n s k : ℕ) (buf : List ℕ)
    → Holds f o n buf s
    → (i : ℕ) → k + i < n
    → get_elem? (drop (s + k) buf) i ≡ some (f (o + k + i))
Holds-drop f o n s k buf h i lt =
    get_elem?-drop (s + k) i buf
    ∙ ap (λ (t : ℕ). get_elem? buf t) (add_assoc s k i)
    ∙ h (k + i) lt
    ∙ ap (λ (t : ℕ). some (f t)) (sym (add_assoc o k i))

deliver-slice :
    (f : ℕ → ℕ) (a : Answers) (p : Pending) (tx : ℕ)
    → p.done ≡ some tx
    → a.receiver_closed ≡ false
    → p.pad + p.nread ≤ length p.buf
    → p.pad + p.head ≤ length p.buf
    → Holds f p.offset p.nread p.buf p.pad
    → (deliver a p).1 ≡ slice f (p.offset + p.head) (avail p)
deliver-slice f a p tx hd hc hb hh h =
    deliver-take a p tx hd hc (omega arith)
    ∙ take-slice f (p.offset + p.head) (avail p) _
        (λ i lt. Holds-drop f p.offset p.nread p.pad p.head p.buf h i (omega arith))

-- When a positive completion ends the read with success.
reap_progress-finish :
    (a : Answers) (p : Pending) (id : ℕ) (stop : Bool) (q : Pending) (bytes : List ℕ)
    → reap_progress a p id stop ≡ (q, finish (ok bytes))
    → (bytes ≡ (deliver a p).1)
      × ((p.offset ≡ current_position)
          ⊎ (p.head + p.want ≤ p.nread)
          ⊎ (p.region_len ≤ p.nread)
          ⊎ ((n : ℕ) × (a.file_len ≡ ok n) × (n ≤ (p.offset + p.nread) % word)))
unfolding reap_progress finish_direct_short_read
reap_progress-finish a p id stop q bytes e = ground arith

abbrev pub received : ℤ → ℕ
received (pos n) = n
received (negsuc n) = 0

-- What is asked of the kernel and the file system over a file of `size` bytes `f`: a completion
-- reports no more than was asked for, so much of the file is in the buffer, a read of zero bytes
-- means the end of the file, and the metadata give the size.
pub record Kernel (f : ℕ → ℕ) (size : ℕ) (p : Pending) (c : Completion) : Type 0 where
  pub honest : IsHonest p c.result
  pub same_length : length c.memory ≡ length p.buf
  pub holds : Holds f p.offset (p.nread + received c.result) c.memory p.pad
  pub eof : c.result ≡ pos 0 → p.nread < p.region_len → size ≤ p.offset + p.nread
  pub metadata : (n : ℕ) → c.answers.file_len ≡ ok n → n ≡ size

-- What a success may be: the file's bytes from the requested offset on, all that were wanted unless
-- the file ends there or the read is of a stream.
abbrev pub Ends : (ℕ → ℕ) → ℕ → Pending → List ℕ → Type 0
Ends f size p bytes =
    (n : ℕ) × (bytes ≡ slice f (p.offset + p.head) n)
    × (n ≤ p.want)
    × ((n ≡ p.want) ⊎ (size ≤ p.offset + p.head + n) ⊎ (p.offset ≡ current_position))

reap_error-fails :
    (p : Pending) (id errno : ℕ) (stop : Bool) (q : Pending) (bytes : List ℕ)
    → ¬ (reap_error p id errno stop ≡ (q, finish (ok bytes)))
unfolding reap_error
reap_error-fails p id errno stop q bytes e = ground arith

finish_ok-bytes :
    (r : Pending × List ℕ) (q : Pending) (bytes : List ℕ)
    → finish_ok r ≡ (q, finish (ok bytes))
    → bytes ≡ r.1
finish_ok-bytes r q bytes e = ground arith

-- The three kinds of results, for what the completion is made of.
finish_at :
    (f : ℕ → ℕ) (size : ℕ) (p : Pending) (a : Answers) (memory : List ℕ) (res : ℤ) (id tx : ℕ)
    (down : Bool) (q : Pending) (bytes : List ℕ)
    → let c : Completion = record { answers = a; result = res; memory = memory } in
      IsPending p
      → Kernel f size p c
      → p.done ≡ some tx
      → a.receiver_closed ≡ false
      → reap_read a (seen p c) id res down ≡ (q, finish (ok bytes))
      → Ends f size p bytes
unfolding reap_read
finish_at f size p a memory (negsuc n) id tx down q bytes v k hd hc e =
    absurd (reap_error-fails (record p { buf = memory }) id (suc n) _ q bytes e)
finish_at f size p a memory (pos zero) id tx down q bytes v k hd hc e = (
  min (p.nread - p.head) p.want,
  finish_ok-bytes _ q bytes e
      ∙ deliver-slice f a (record p { buf = memory }) tx hd hc (omega arith) (omega arith)
          (λ i lt. k.holds i (omega arith)),
  omega arith,
  elim (dec_lt (p.nread - p.head) p.want) [
    | yes left ↦ inr (inl (omega (arith, k.eof refl (omega arith))))
    | no full ↦ inl (omega arith)
  ],
)
finish_at f size p a memory (pos (suc n)) id tx down q bytes v k hd hc e =
    let (eb, why) = reap_progress-finish a _ id _ q bytes e in
    (
      min ((p.nread + suc n) % word - p.head) p.want,
      eb
          ∙ deliver-slice f a (advance (record p { buf = memory }) (suc n)) tx hd hc (omega arith)
              (omega arith) (λ i lt. k.holds i (omega arith)),
      omega arith,
      elim why [
        | inl stream ↦ inr (inr stream)
        | inr (inl covered) ↦ inl (omega arith)
        | inr (inr (inl full)) ↦ inl (omega arith)
        | inr (inr (inr (m, em, le))) ↦ elim (dec_lt ((p.nread + suc n) % word - p.head) p.want) [
          | yes short ↦ inr (inl (omega (arith, k.metadata m em)))
          | no full ↦ inl (omega arith)
        ]
      ],
    )

-- A well-formed read that a completion of the kernel ends with success hands its open receiver
-- the bytes of the requested range of the file, from its first one on: all of them, unless the
-- file ends before or the read is of a stream.
pub reap_read-finish :
    (f : ℕ → ℕ) (size : ℕ) (p : Pending) (c : Completion) (id tx : ℕ) (down : Bool) (q : Pending)
    (bytes : List ℕ)
    → IsPending p
    → Kernel f size p c
    → p.done ≡ some tx
    → c.answers.receiver_closed ≡ false
    → reap_read c.answers (seen p c) id c.result down ≡ (q, finish (ok bytes))
    → Ends f size p bytes
reap_read-finish f size p c id tx down q bytes v k hd hc e =
    finish_at f size p c.answers c.memory c.result id tx down q bytes v k hd hc e
