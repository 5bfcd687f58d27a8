-- ===== src/Prefetch/Reference.antt =====
-- The reference read gives what the file holds, however its calls are cut short.
use uring.Prelude.{
  ℕ, ◌+◌, ◌-◌, ◌≤◌, ◌<◌, ◌⊎◌, ◌≡◌, ◌==◌, ap, sym, ◌∙◌, true, ◌||◌, inl, inr, some, List, [], ◌∷◌,
  ◌++◌, leb, arith, length, take, drop, length-take, length-drop, drop-drop, take-add, take_all,
  Bool-cases,
}
use uring.Sys.{IoResult, ok, err, errno_is, eintr}
use uring.Prefetch.{reference_read}

module _ (file : List ℕ) (offset len : ℕ) where
  -- What `pread` may answer after `got` bytes: an interruption, or a count within what was asked for and
  -- what the file has, of 0 only at the end of the file.
  abbrev pub IsAnswer : ℕ → IoResult ℕ → Type 0
  IsAnswer got (err e) = errno_is e eintr ≡ true
  IsAnswer got (ok count) =
      (got + count ≤ len)
      × (count ≤ length file - (offset + got))
      × (count ≡ 0 → length file ≤ offset + got)

  -- The answers as long as the loop goes on, with at least `n` of them counts.
  abbrev pub Answer : ℕ → ℕ → List (IoResult ℕ) → Type 0
  Answer n got [] = (n ≡ 0) ⊎ (len ≤ got)
  Answer n got (ok count ∷ rest) =
      (len ≤ got) ⊎ (IsAnswer got (ok count) × Answer (n - 1) (got + count) rest)
  Answer n got (err e ∷ rest) = (len ≤ got) ⊎ (IsAnswer got (err e) × Answer n got rest)

  got_so_far : ℕ → List ℕ
  got_so_far got = take got (drop offset file)

  length-got_so_far : (got : ℕ) → got ≤ length file - offset → length (got_so_far got) ≡ got
  unfolding got_so_far
  length-got_so_far got h = rw length-take (rw length-drop (omega (arith, h)))

  -- Nothing more is there to be had.
  got_all :
      (got : ℕ)
      → got ≤ len
      → (len ≤ got) ⊎ (length file ≤ offset + got)
      → got_so_far got ≡ got_so_far len
  unfolding got_so_far
  got_all got below (inl full) =
      ap (λ (n : ℕ). take n (drop offset file)) {x = got} {y = len} (omega (arith, below, full))
  got_all got below (inr over) =
      take_all got (drop offset file) (rw length-drop (omega (arith, over)))
      ∙ sym (take_all len (drop offset file) (rw length-drop (omega (arith, over, below))))

  got_more_at :
      (got count : ℕ)
      → got_so_far got ++ take count (drop (offset + got) file) ≡ got_so_far (got + count)
  unfolding got_so_far
  got_more_at got count = rw (← drop-drop offset got file) (take-add got count (drop offset file))

  got_more :
      (got count : ℕ)
      → got ≤ length file - offset
      → got_so_far got ++ take count (drop (offset + length (got_so_far got)) file)
        ≡ got_so_far (got + count)
  got_more got count h = rw (length-got_so_far got h) (got_more_at got count)

  at_stop :
      (n got count : ℕ) (rest : List (IoResult ℕ))
      → length (got_so_far got) ≡ got
      → (leb len (length (got_so_far got)) || count == 0) ≡ true
      → Answer n got (ok count ∷ rest)
      → (len ≤ got) ⊎ (length file ≤ offset + got)
  at_stop n got count rest size over (inl full) = inl full
  at_stop n got count rest size over (inr (answer, _)) =
      elim (Bool-cases (leb len (length (got_so_far got)))) [
        | inl full ↦ inl (ground (arith, full, size))
        | inr early ↦ inr (answer.2 (ground (arith, over, early)))
      ]

  reference_read-take :
      (n got : ℕ) (answers : List (IoResult ℕ))
      → got ≤ len
      → got ≤ length file - offset
      → len - got < n
      → Answer n got answers
      → reference_read file offset len answers (got_so_far got) ≡ some (ok (got_so_far len))
  unfolding reference_read
  reference_read-take n got [] below there enough (inl none_left) =
      absurd (omega (arith, none_left, enough))
  reference_read-take n got [] below there enough (inr full) =
      let size = length-got_so_far got there in
      let over : leb len (length (got_so_far got)) ≡ true = ground (arith, full, size) in
      rw over (ap (λ (bs : List ℕ). some (ok bs)) (got_all got below (inl full)))
  reference_read-take n got (ok count ∷ rest) below there enough a =
      let size = length-got_so_far got there in
      elim (Bool-cases (leb len (length (got_so_far got)) || count == 0)) [
        | inl over ↦ rw over (
            ap (λ (bs : List ℕ). some (ok bs))
              (got_all got below (at_stop n got count rest size over a)))
        | inr more ↦ rw more (
            rw (got_more got count there) (elim a [
              | inl full ↦ absurd (ground (arith, more, full, size))
              | inr ((within, left, _), more_answers) ↦
                  let some_bytes : 0 < count = ground (arith, more) in
                  reference_read-take (n - 1) (got + count) rest within (omega (arith, left, there))
                    (omega (arith, enough, some_bytes, within)) more_answers
            ]))
      ]
  reference_read-take n got (err e ∷ rest) below there enough a =
      let size = length-got_so_far got there in
      elim (Bool-cases (leb len (length (got_so_far got)))) [
        | inl over ↦ rw over (
            ap (λ (bs : List ℕ). some (ok bs))
              (got_all got below (inl (ground (arith, over, size)))))
        | inr more ↦ elim a [
          | inl full ↦ absurd (ground (arith, more, full, size))
          | inr (interrupted, more_answers) ↦
              rw (more, interrupted)
                (reference_read-take n got rest below there enough more_answers)
        ]
      ]

  -- Whatever `pread` answers, interruptions and counts that are cut short, each within what was asked for
  -- and what the file has, and 0 only at its end: with more counts than bytes to read, the loop ends, with
  -- the bytes of the file from the offset on, as many as were asked for or as there are.
  pub reference_read_lem :
      (n : ℕ) (answers : List (IoResult ℕ))
      → len < n
      → Answer n 0 answers
      → reference_read file offset len answers [] ≡ some (ok (take len (drop offset file)))
  unfolding got_so_far
  reference_read_lem n answers enough a =
      reference_read-take n 0 answers (omega arith) (omega arith) (omega (arith, enough)) a
