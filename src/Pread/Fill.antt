-- ===== src/Pread/Fill.antt =====
-- The buffers of `create_file` are parts of the pattern.
use uring.Prelude.{
  ℕ, zero, suc, ◌+◌, ◌-◌, ◌*◌, ◌/◌, ◌%◌, ◌<◌, ◌≡◌, refl, ap, sym, ◌∙◌, min, List, ◌∷◌, ◌++◌, arith,
  length, take, drop,
}
use uring.Pread.{expected_word, word_bytes, fill_words}
use uring.Pread.Content.{content_at, content, cons_eq}

content_add : (o a b : ℕ) → content o a ++ content (o + a) b ≡ content o (a + b)
content_add o zero b =
    ap (λ (k : ℕ). content k b) {x = o + 0} {y = o} (omega arith)
    ∙ ap (content o) {x = b} {y = 0 + b} (omega arith)
content_add o (suc a) b =
    ap (λ (k : ℕ). content_at o ∷ content (o + 1) a ++ content k b) {x = o + suc a} {y = o + 1 + a}
      (omega arith)
    ∙ ap (λ (bs : List ℕ). content_at o ∷ bs) (content_add (o + 1) a b)
    ∙ ap (content o) {x = suc (a + b)} {y = suc a + b} (omega arith)

content_at_word :
    (base pos k : ℕ) → pos ≡ base * 8 + k → k < 8 → content_at pos ≡ expected_word base k
content_at_word base pos k e below =
    let idx : pos / 8 ≡ base = omega (arith, e, below) in
    let in_word : pos % 8 ≡ k = omega (arith, e, below) in rw (idx, in_word) refl

content-word : (base : ℕ) → content (base * 8) 8 ≡ word_bytes (expected_word base)
content-word base =
    let at = content_at_word base in
    cons_eq (at _ 0 (omega arith) (omega arith)) (
      cons_eq (at _ 1 (omega arith) (omega arith)) (
        cons_eq (at _ 2 (omega arith) (omega arith)) (
          cons_eq (at _ 3 (omega arith) (omega arith)) (
            cons_eq (at _ 4 (omega arith) (omega arith)) (
              cons_eq (at _ 5 (omega arith) (omega arith)) (
                cons_eq (at _ 6 (omega arith) (omega arith))
                  (cons_eq (at _ 7 (omega arith) (omega arith)) refl)))))))

fill_words-content : (base n : ℕ) → fill_words base n ≡ content (base * 8) (n * 8)
unfolding fill_words
fill_words-content base zero = refl
fill_words-content base (suc n) =
    let next : (base + 1) * 8 ≡ base * 8 + 8 = omega arith in
    ap (λ (bs : List ℕ). word_bytes (expected_word base) ++ bs) (fill_words-content (base + 1) n)
    ∙ ap (λ (bs : List ℕ). bs ++ content ((base + 1) * 8) (n * 8)) (sym (content-word base))
    ∙ ap (λ (k : ℕ). content (base * 8) 8 ++ content k (n * 8)) next
    ∙ content_add (base * 8) 8 (n * 8)
    ∙ ap (content (base * 8)) {x = 8 + n * 8} {y = suc n * 8} (omega arith)

pub cong_content : {o o' n n' : ℕ} → o ≡ o' → n ≡ n' → content o n ≡ content o' n'
cong_content h k = cc

pub length-content : (o n : ℕ) → length (content o n) ≡ n
length-content o zero = refl
length-content o (suc n) = ap suc (length-content (o + 1) n)

pub take-content : (o n m : ℕ) → take n (content o m) ≡ content o (min n m)
take-content o zero m = ap (content o) {x = 0} {y = min 0 m} (omega arith)
take-content o (suc n) zero = ap (content o) {x = 0} {y = min (suc n) 0} (omega arith)
take-content o (suc n) (suc m) =
    ap (λ (bs : List ℕ). content_at o ∷ bs) (take-content (o + 1) n m)
    ∙ ap (content o) {x = suc (min n m)} {y = min (suc n) (suc m)} (omega arith)

pub drop-content : (o n m : ℕ) → drop n (content o m) ≡ content (o + n) (m - n)
drop-content o zero m = cong_content (omega arith) (omega arith)
drop-content o (suc n) zero = ap (content (o + suc n)) {x = 0} {y = 0 - suc n} (omega arith)
drop-content o (suc n) (suc m) = drop-content (o + 1) n m ∙ cong_content (omega arith) (omega arith)

-- One buffer more.
pub grow :
    (words size k : ℕ)
    → k % 8 ≡ 0
    → content 0 k ++ take (min (size - k) (words * 8)) (fill_words (k / 8) words)
      ≡ content 0 (k + min (size - k) (words * 8))
grow words size k aligned =
    let n = min (size - k) (words * 8) in
    let here : k / 8 * 8 ≡ k = omega (arith, aligned) in
    let fits : min n (words * 8) ≡ n = omega arith in
    ap (λ (bs : List ℕ). content 0 k ++ take n bs) (fill_words-content (k / 8) words)
    ∙ ap (λ (bs : List ℕ). content 0 k ++ bs) (take-content (k / 8 * 8) n (words * 8))
    ∙ ap (λ (bs : List ℕ). content 0 k ++ bs) (cong_content (here ∙ omega arith) fits)
    ∙ content_add 0 k n
