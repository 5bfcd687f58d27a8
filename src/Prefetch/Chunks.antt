-- ===== src/Prefetch/Chunks.antt =====
-- What the loop over the chunks has checked when it accepts.
use uring.Prelude.{
  ℕ, zero, suc, ◌+◌, ◌-◌, ◌≤◌, ◌≡◌, ◌==◌, refl, ap, sym, ◌∙◌, subst, ◌⊎◌, min, Bool, true, false,
  not, inl, inr, Option, some, List, [], ◌∷◌, ◌++◌, ltb, arith, if◌then◌else◌, length, take, drop,
  length-append, length-take, length-drop, drop-drop, take-add, if-elim,
}
use uring.Sys.{IoResult, ok, err, IoError}
use uring.Probe.{same_bytes}
use uring.Probe.Safety.{same_bytes-eq}
use uring.Ordered.{Config, Chunk, Ending, running, ended, failed}
use uring.Prefetch.{is_nil, at_end, stop, verify_chunks}
use uring.Prefetch.Verified.{file_range, accepted}

-- The bytes of the chunks, one after another.
abbrev pub joined : List Chunk → List ℕ
joined [] = []
joined (chunk ∷ cs) = chunk.bytes ++ joined cs

-- Each chunk starts where the one before it ended.
abbrev pub Contiguous : ℕ → List Chunk → Type 0
Contiguous offset [] = Unit
Contiguous offset (chunk ∷ cs) =
    (chunk.offset ≡ offset) × Contiguous (offset + length chunk.bytes) cs

is_nil-length : (xs : List ℕ) → is_nil xs ≡ true → length xs ≡ 0
is_nil-length [] h = refl
is_nil-length (x ∷ xs) h = cc

take_own_length : (n : ℕ) (xs : List ℕ) → take n xs ≡ take (length (take n xs)) xs
take_own_length zero xs = refl
take_own_length (suc n) [] = refl
take_own_length (suc n) (x ∷ xs) = ap (λ (ys : List ℕ). x ∷ ys) (take_own_length n xs)

passed :
    (b : Bool) (e : IoError) (rest : Option (IoResult (ℕ × ℕ))) (d n : ℕ)
    → (if not b then some (err e) else rest) ≡ accepted d n
    → (b ≡ true) × (rest ≡ accepted d n)
passed true e rest d n h = (refl, h)
passed false e rest d n h = absurd (cc h)

same_numbers : (d d' n n' : ℕ) → accepted d n ≡ accepted d' n' → (d ≡ d') × (n ≡ n')
same_numbers d d' n n' h = (cc, cc)

-- A chunk that is what the file holds, before others that go on where it ends.
join_next :
    (file : List ℕ) (o o' len : ℕ) (bytes later : List ℕ)
    → bytes ≡ take len (drop o file)
    → o' ≡ o + length bytes
    → later ≡ take (length later) (drop o' file)
    → bytes ++ later ≡ take (length (bytes ++ later)) (drop o file)
join_next file o o' len bytes later here next there =
    let own : bytes ≡ take (length bytes) (drop o file) =
      here
      ∙ take_own_length len (drop o file)
      ∙ ap (λ (bs : List ℕ). take (length bs) (drop o file)) (sym here) in
    let rest : later ≡ take (length later) (drop (length bytes) (drop o file)) =
      there
      ∙ ap (λ (xs : List ℕ). take (length later) xs)
          (ap (λ (n : ℕ). drop n file) next ∙ sym (drop-drop o (length bytes) file)) in
    ap (λ (bs : List ℕ). bs ++ later) own
    ∙ ap (λ (bs : List ℕ). take (length bytes) (drop o file) ++ bs) rest
    ∙ take-add (length bytes) (length later) (drop o file)
    ∙ ap (λ (n : ℕ). take n (drop o file)) (sym (length-append bytes later))

module _ (file : List ℕ) (c : Config) (end : ℕ) where
  -- All that the program has seen of the chunks and their end.
  pub record Checked (cs : List Chunk) (ending : Ending) (delivered chunks d n : ℕ) : Type 0 where
    pub over : ending ≡ ended
    pub bytes : d ≡ delivered + length (joined cs)
    pub number : n ≡ chunks + length cs
    pub contiguous : Contiguous (c.offset + delivered) cs
    pub same : joined cs ≡ take (length (joined cs)) (drop (c.offset + delivered) file)
    pub within : c.offset + delivered ≤ end → c.offset + d ≤ end
    pub all : (end ≤ c.offset + d) ⊎ (length file ≤ c.offset + d)

  at_eof : (o : ℕ) → is_nil (take 1 (drop o file)) ≡ true → length file ≤ o
  at_eof o h =
      let none_left : min 1 (length file - o) ≡ 0 =
        sym (length-take 1 (drop o file) ∙ ap (λ (n : ℕ). min 1 n) (length-drop o file))
        ∙ is_nil-length _ h in
      omega (arith, none_left)

  nothing_more :
      (delivered chunks d n : ℕ)
      → (end ≤ c.offset + delivered) ⊎ (length file ≤ c.offset + delivered)
      → accepted delivered chunks ≡ accepted d n
      → Checked [] ended delivered chunks d n
  nothing_more delivered chunks d n stop h =
      let (bytes, number) = same_numbers delivered d chunks n h in
      record {
        over = refl;
        bytes = omega (arith, bytes);
        number = omega (arith, number);
        contiguous = tt;
        same = refl;
        within = λ below. omega (arith, below, bytes);
        all = subst (λ (k : ℕ). (end ≤ c.offset + k) ⊎ (length file ≤ c.offset + k)) bytes stop;
      }

  at_end-Checked :
      (bytes : List ℕ) (delivered chunks d n : ℕ)
      → (is_nil bytes ≡ true → (end ≤ c.offset + delivered) ⊎ (length file ≤ c.offset + delivered))
      → some (at_end (file_range file) c end delivered chunks (ok bytes)) ≡ accepted d n
      → Checked [] ended delivered chunks d n
  at_end-Checked [] delivered chunks d n stop h = nothing_more delivered chunks d n (stop refl) h
  at_end-Checked (b ∷ bs) delivered chunks d n stop h = absurd (cc h)

  stop-Checked :
      (ending : Ending) (delivered chunks d n : ℕ)
      → stop (file_range file) c end ending delivered chunks ≡ accepted d n
      → Checked [] ending delivered chunks d n
  stop-Checked running delivered chunks d n h = cc h
  stop-Checked (failed e) delivered chunks d n h = cc h
  stop-Checked ended delivered chunks d n h =
      if-elim {A = Option (IoResult (ℕ × ℕ))}
        (λ v. v ≡ accepted d n → Checked [] ended delivered chunks d n)
        (ltb (c.offset + delivered) end) _ _
        (λ before.
          at_end-Checked (take 1 (drop (c.offset + delivered) file)) delivered chunks d n
            (λ empty. inr (at_eof (c.offset + delivered) empty)))
        (λ past. nothing_more delivered chunks d n (inl (ground (arith, past)))) h

  pub verify_chunks-Checked :
      (cs : List Chunk) (ending : Ending) (delivered chunks d n : ℕ)
      → verify_chunks (file_range file) c end cs ending delivered chunks ≡ accepted d n
      → Checked cs ending delivered chunks d n
  unfolding verify_chunks
  verify_chunks-Checked [] ending delivered chunks d n h =
      stop-Checked ending delivered chunks d n h
  verify_chunks-Checked (chunk ∷ cs) ending delivered chunks d n h =
      let off = c.offset + delivered in
      let len = min (end - off) c.chunk in
      let (at, h') = passed (chunk.offset == off) _ _ d n h in
      let (equal, h'') = passed (same_bytes chunk.bytes (take len (drop off file))) _ _ d n h' in
      let same = same_bytes-eq chunk.bytes (take len (drop off file)) equal in
      let size = ap length same ∙ length-take len (drop off file) in
      let v =
        verify_chunks-Checked cs ending (delivered + length chunk.bytes) (chunks + 1) d n h'' in
      let next : c.offset + (delivered + length chunk.bytes) ≡ off + length chunk.bytes =
        omega arith in
      record {
        over = v.over;
        bytes = v.bytes ∙ rw length-append (omega arith);
        number = v.number ∙ omega arith;
        contiguous = (ground (arith, at), subst (λ (o : ℕ). Contiguous o cs) next v.contiguous);
        same = join_next file off _ len chunk.bytes (joined cs) same next v.same;
        within = λ below. v.within (omega (arith, below, next, size));
        all = v.all;
      }
