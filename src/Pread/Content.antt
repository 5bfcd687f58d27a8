-- ===== src/Pread/Content.antt =====
-- What `verify_range` checks, and that a created file passes it.
use uring.Prelude.{
  ℕ, zero, suc, ◌+◌, ◌/◌, ◌%◌, ◌≤◌, ◌<◌, ◌≡◌, ◌↔◌, ◌==◌, refl, ap, sym, ◌∙◌, ◌⊎◌, inl, inr, false,
  not, List, [], ◌∷◌, if◌then◌else◌, arith, length, Bool-cases, if-elim,
}
use uring.Prelude.Word.{word, u64_max}
use uring.Pread.{Checked, expected_word, verify_from, verify_range}

-- The byte of the file at a position.
abbrev pub content_at : ℕ → ℕ
content_at pos = expected_word (pos / 8) (pos % 8)

abbrev pub content : ℕ → ℕ → List ℕ
content offset zero = []
content offset (suc n) = content_at offset ∷ content (offset + 1) n

-- The check of a range without a kept word.
abbrev pub first_mismatch : ℕ → List ℕ → Checked
first_mismatch pos [] = Checked.matches
first_mismatch pos (got ∷ rest) =
    let later = first_mismatch (pos + 1) rest in
    if not (got == content_at pos) then Checked.mismatch pos got (content_at pos) else later

kept_word :
    (idx cached : ℕ) (kept : ℕ → ℕ)
    → (cached ≡ u64_max) ⊎ (kept ≡ expected_word cached)
    → idx < u64_max
    → (if idx == cached then kept else expected_word idx) ≡ expected_word idx
kept_word idx cached kept v below = elim (Bool-cases (idx == cached)) [
  | inl same ↦ rw same (elim v [
    | inl fresh ↦ absurd (ground (arith, same, fresh, below))
    | inr is ↦ is ∙ ap expected_word {x = cached} {y = idx} (ground (arith, same))
  ])
  | inr other ↦ rw other refl
]

verify_from-first_mismatch :
    (offset i cached : ℕ) (kept : ℕ → ℕ) (data' : List ℕ)
    → (cached ≡ u64_max) ⊎ (kept ≡ expected_word cached)
    → offset + i + length data' ≤ word
    → verify_from offset i cached kept data' ≡ first_mismatch (offset + i) data'
unfolding verify_from
verify_from-first_mismatch offset i cached kept [] v fits = refl
verify_from-first_mismatch offset i cached kept (got ∷ rest) v fits =
    let pos = offset + i in
    let now = kept_word (pos / 8) cached kept v (omega (arith, fits)) in
    let next : offset + (i + 1) ≡ pos + 1 = omega arith in
    let ih =
      verify_from-first_mismatch offset (i + 1) (pos / 8) (expected_word (pos / 8)) rest (inr refl)
        (omega (arith, fits)) in
    rw now (rw (ih, next) refl)

first_mismatch-content : (o n : ℕ) → first_mismatch o (content o n) ≡ Checked.matches
first_mismatch-content o zero = refl
first_mismatch-content o (suc n) =
    let same : not (content_at o == content_at o) ≡ false = ground arith in
    rw same (first_mismatch-content (o + 1) n)

pub cons_eq : {x y : ℕ} {xs ys : List ℕ} → x ≡ y → xs ≡ ys → x ∷ xs ≡ y ∷ ys
cons_eq h t = cc

first_mismatch_sound :
    (o : ℕ) (data' : List ℕ)
    → first_mismatch o data' ≡ Checked.matches
    → data' ≡ content o (length data')
first_mismatch_sound o [] h = refl
first_mismatch_sound o (got ∷ rest) h =
    if-elim {A = Checked}
      (λ v. v ≡ Checked.matches → got ∷ rest ≡ content_at o ∷ content (o + 1) (length rest))
      (not (got == content_at o)) _ _ (λ differ h'. absurd (cc h'))
      (λ same h'.
        let here : got ≡ content_at o = ground (arith, same) in
        cons_eq here (first_mismatch_sound (o + 1) rest h'))
      h

-- For a range that ends within the words: `verify_range`, which keeps a word while it stays in it, accepts
-- exactly the bytes of the file's pattern at that offset.
pub verify_range-content :
    (offset : ℕ) (data' : List ℕ)
    → offset + length data' ≤ word
    → (verify_range offset data' ≡ Checked.matches) ↔ (data' ≡ content offset (length data'))
verify_range-content offset data' fits =
    let plain : verify_range offset data' ≡ first_mismatch offset data' =
      verify_from-first_mismatch offset 0 u64_max (λ k. 0) data' (inl refl) (omega (arith, fits))
      ∙ ap (λ (o : ℕ). first_mismatch o data') {x = offset + 0} {y = offset} (omega arith) in
    (
      λ h. first_mismatch_sound offset data' (sym plain ∙ h),
      λ e. plain ∙ ap (first_mismatch offset) e ∙ first_mismatch-content offset (length data'),
    )
