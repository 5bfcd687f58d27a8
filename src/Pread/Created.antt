-- ===== src/Pread/Created.antt =====
-- A created file holds the pattern, and every range of it passes the check.
use uring.Prelude.{
  ℕ, zero, suc, ◌+◌, ◌-◌, ◌*◌, ◌%◌, ◌≤◌, ◌≡◌, ◌≢◌, ◌==◌, refl, ap, sym, ◌∙◌, ◌⊎◌, inl, inr, min,
  true, Option, some, List, [], ◌∷◌, leb, arith, length, take, drop, replicate, length-replicate,
  Bool-cases,
}
use uring.Prelude.Word.{word}
use uring.Sys.{IoResult, ok, err, IoError}
use uring.Pread.{
  Checked, verify_range, write_loop, buffer_words, create_file, Stat, Left, synced_file, or_remove,
  ensure_file,
}
use uring.Pread.Content.{content, verify_range-content}
use uring.Pread.Fill.{cong_content, length-content, take-content, drop-content, grow}

-- The loop has written the whole file, or an error of `write_all` ended it.
abbrev Failing : List (IoResult (Unit {0})) → Type 0
Failing [] = ⊥
Failing (ok u ∷ rest) = Failing rest
Failing (err e ∷ rest) = Unit

Ends : ℕ → List (IoResult (Unit {0})) → Option (IoResult (List ℕ)) → Type 0
Ends size answers r =
    (r ≡ some (ok (content 0 size))) ⊎ ((e : IoError) × (r ≡ some (err e)) × Failing answers)

write_loop-Ends :
    (words size : ℕ) (answers : List (IoResult (Unit {0}))) (k : ℕ)
    → k ≤ size
    → (k % 8 ≡ 0) ⊎ (k ≡ size)
    → size ≤ k + length answers * (words * 8)
    → Ends size answers (write_loop words size answers (content 0 k))
unfolding write_loop Ends
write_loop-Ends words size [] k below aligned enough = rw (length-content 0 k) (
    let over : leb size k ≡ true = ground (arith, enough) in
    rw over
      (inl (ap (λ (bs : List ℕ). some (ok bs)) (cong_content refl (omega (arith, below, enough))))))
write_loop-Ends words size (ok u ∷ rest) k below aligned enough =
    rw (length-content 0 k) (elim (Bool-cases (leb size k)) [
      | inl over ↦ rw over (
          inl
            (ap (λ (bs : List ℕ). some (ok bs)) (cong_content refl (ground (arith, below, over)))))
      | inr more ↦
          let aligned_now : k % 8 ≡ 0 = elim aligned [
            | inl a ↦ a
            | inr full ↦ absurd (ground (arith, more, full))
          ] in
          rw more (
            rw (grow words size k aligned_now) (
              write_loop-Ends words size rest (k + min (size - k) (words * 8))
                (omega (arith, below)) (omega (arith, aligned_now)) (omega (arith, below, enough))))
    ])
write_loop-Ends words size (err e ∷ rest) k below aligned enough =
    rw (length-content 0 k) (elim (Bool-cases (leb size k)) [
      | inl over ↦ rw over (
          inl
            (ap (λ (bs : List ℕ). some (ok bs)) (cong_content refl (ground (arith, below, over)))))
      | inr more ↦ rw more (inr (e, refl, tt))
    ])

-- What may be left of the path, for what `symlink_metadata` found there.
abbrev pub IsEnsured : ℕ → Stat → IoResult (Unit {0}) × Left → Type 0
IsEnsured size stat (ok u, Left.untouched) = stat ≡ Stat.regular size
IsEnsured size stat (ok u, Left.created bytes) = (stat ≡ Stat.not_found) × (bytes ≡ content 0 size)
IsEnsured size stat (ok u, Left.removed) = ⊥
IsEnsured size stat (err e, Left.untouched) = stat ≢ Stat.not_found
IsEnsured size stat (err e, Left.created bytes) = ⊥
IsEnsured size stat (err e, Left.removed) = stat ≡ Stat.not_found

Ensures : ℕ → Stat → Option (IoResult (Unit {0}) × Left) → Type 0
Ensures size stat r = (out : IoResult (Unit {0}) × Left) × (r ≡ some out) × IsEnsured size stat out

created-Ensures :
    (size : ℕ) (answers : List (IoResult (Unit {0}))) (synced : IoResult (Unit {0}))
    (r : Option (IoResult (List ℕ)))
    → Ends size answers r
    → Ensures size Stat.not_found (or_remove (synced_file synced r))
unfolding Ends Ensures
created-Ensures size answers (ok u) r (inl is) =
    rw (is, synced_file, or_remove) (_, refl, (refl, refl))
created-Ensures size answers (err e) r (inl is) = rw (is, synced_file, or_remove) (_, refl, refl)
created-Ensures size answers synced r (inr (e, is, fails)) =
    rw (is, synced_file, or_remove) (_, refl, refl)

-- Whatever is found at the path and whatever `open`, `write_all` and `sync_all` answer, with an answer for each MiB of the file or part of one:
-- `ensure_file` returns. It succeeds without a write only on a regular file of the size asked for, and with one only when nothing was there,
-- and then the file holds the pattern, of that size. It fails without a change when something was there or the path could not be examined,
-- and it removes the path only when nothing was found there.
pub ensure_file-IsEnsured :
    (stat : Stat) (opened : IoResult (Unit {0})) (size : ℕ) (answers : List (IoResult (Unit {0})))
    (synced : IoResult (Unit {0}))
    → size ≤ length answers * 1048576
    → (out : IoResult (Unit {0}) × Left) × (ensure_file stat opened size answers synced ≡ some out)
      × IsEnsured size stat out
unfolding Ensures
ensure_file-IsEnsured Stat.special opened size answers synced enough = (_, refl, cc)
ensure_file-IsEnsured (Stat.failed e) opened size answers synced enough = (_, refl, cc)
ensure_file-IsEnsured (Stat.regular len) opened size answers synced enough =
    elim (Bool-cases (len == size)) [
      | inl same ↦ rw same (_, refl, ap Stat.regular (ground (arith, same)))
      | inr other ↦ rw other (_, refl, cc)
    ]
ensure_file-IsEnsured Stat.not_found (err e) size answers synced enough = (_, refl, refl)
ensure_file-IsEnsured Stat.not_found (ok u) size answers synced enough =
    created-Ensures size answers synced (write_loop buffer_words size answers [])
      (write_loop-Ends buffer_words size answers 0 (omega arith) (inl refl) (omega (arith, enough)))

abbrev pub success : IoResult (Unit {0})
success = ok tt

no-Failing : (n : ℕ) → Failing (replicate n success) → ⊥
no-Failing zero h = h
no-Failing (suc n) h = no-Failing n h

all_written :
    (size : ℕ) (answers : List (IoResult (Unit {0}))) (r : Option (IoResult (List ℕ)))
    → Ends size answers r
    → (Failing answers → ⊥)
    → r ≡ some (ok (content 0 size))
unfolding Ends
all_written size answers r (inl is) h = is
all_written size answers r (inr (e, is, fails)) h = absurd (h fails)

-- `create_file`, whose `n` writes succeed: with a write for each MiB or part of one, it has written as many bytes as
-- were asked for, and `verify_range` accepts each range of them, when it is given its offset.
pub create_file-verify_range :
    (size n offset len : ℕ)
    → size ≤ n * 1048576
    → offset + len ≤ size
    → size ≤ word
    → (bytes : List ℕ) × (create_file success size (replicate n success) success ≡ some (ok bytes))
      × (length bytes ≡ size)
      × (verify_range offset (take len (drop offset bytes)) ≡ Checked.matches)
create_file-verify_range size n offset len enough below fits =
    let part : take len (drop offset (content 0 size)) ≡ content offset len =
      ap (take len) (drop-content 0 offset size)
      ∙ take-content (0 + offset) len (size - offset)
      ∙ cong_content (omega arith) (omega (arith, below)) in
    let size' = ap length part ∙ length-content offset len in
    let answers = replicate n success in
    let counted = length-replicate n success in
    let written =
      all_written size answers (write_loop buffer_words size answers [])
        (write_loop-Ends buffer_words size answers 0 (omega arith) (inl refl)
          (omega (arith, enough, counted)))
        (no-Failing n) in
    (
      content 0 size,
      rw (written, synced_file) refl,
      length-content 0 size,
      (verify_range-content offset (take len (drop offset (content 0 size)))
            (omega (arith, size', below, fits))).1
          (part ∙ ap (content offset) (sym size')),
    )
