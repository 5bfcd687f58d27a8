-- ===== src/Prefetch/Verified.antt =====
-- The program accepts what the ordered reader delivers of a file.
use uring.Prelude.{
  ℕ, zero, suc, ◌+◌, ◌-◌, ◌≤◌, ◌<◌, ◌≡◌, ◌==◌, refl, ap, sym, ◌∙◌, subst, ◌⊎◌, min, true, false,
  not, inl, inr, Option, some, List, [], ◌∷◌, ltb, leb, arith, length, take, drop, length-take,
  length-drop, Bool-cases,
}
use uring.Sys.{IoResult, ok}
use uring.Driver.{DriverStats}
use uring.Closing.{add}
use uring.Probe.{same_bytes}
use uring.Ordered.{
  Config, Chunk, validate, OrderedReader, Source, new, Ending, ended, Outcome, checked_result,
  is_full, consume,
}
use uring.Ordered.Made.{validate_lem, started}
use uring.Ordered.Sequential.{Serves, sequential, followed, short, whole_range}
use uring.Ordered.Progress.{Prompts, consume-eq-sequential}
use uring.Prefetch.{is_nil, stop, verify_chunks, with_stats, run}

-- What a file answers for a range.
abbrev pub file_range : List ℕ → ℕ → ℕ → IoResult (List ℕ)
file_range file offset len = ok (take len (drop offset file))

same_bytes_refl : (xs : List ℕ) → same_bytes xs xs ≡ true
same_bytes_refl [] = refl
same_bytes_refl (x ∷ xs) = ground (arith, same_bytes_refl xs)

is_nil_empty : (xs : List ℕ) → length xs ≡ 0 → is_nil xs ≡ true
is_nil_empty [] h = refl
is_nil_empty (x ∷ xs) h = absurd (omega (arith, h))

checked_result_fits :
    (len : ℕ) (bytes : List ℕ) → length bytes ≤ len → checked_result len (ok bytes) ≡ ok bytes
unfolding checked_result
checked_result_fits len bytes h = ground (arith, h)

-- The result with the bytes and the chunks of a whole run.
abbrev pub accepted : ℕ → ℕ → Option (IoResult (ℕ × ℕ))
accepted delivered chunks = some (ok (delivered, chunks))

counted : {d d' n n' : ℕ} → d ≡ d' → n ≡ n' → accepted d n ≡ accepted d' n'
counted hd hn = cc

module _ (file : List ℕ) (c : Config) (end : ℕ) where
  length-range :
      (offset len : ℕ) → length (take len (drop offset file)) ≡ min len (length file - offset)
  length-range offset len = rw length-take (rw length-drop refl)

  at_stop :
      (delivered chunks : ℕ)
      → (end ≤ c.offset + delivered) ⊎ (length file ≤ c.offset + delivered)
      → stop (file_range file) c end ended delivered chunks ≡ some (ok (delivered, chunks))
  at_stop delivered chunks (inl over) =
      let past : ltb (c.offset + delivered) end ≡ false = ground (arith, over) in rw past refl
  at_stop delivered chunks (inr over) =
      let empty : is_nil (take 1 (drop (c.offset + delivered) file)) ≡ true =
        is_nil_empty _ (length-range (c.offset + delivered) 1 ∙ omega (arith, over)) in
      rw empty (ground arith)

  accept_chunk :
      (delivered chunks : ℕ) (cs : List Chunk) (ending : Ending) (bytes : List ℕ)
      → bytes ≡ take (min (end - (c.offset + delivered)) c.chunk) (drop (c.offset + delivered) file)
      → verify_chunks
          (file_range file)
          c
          end
          (record { offset = c.offset + delivered; bytes = bytes } ∷ cs)
          ending
          delivered
          chunks
        ≡ verify_chunks (file_range file) c end cs ending (delivered + length bytes) (chunks + 1)
  unfolding verify_chunks
  accept_chunk delivered chunks cs ending bytes e =
      let there : not (c.offset + delivered == c.offset + delivered) ≡ false = ground arith in
      let same : same_bytes bytes
            (take (min (end - (c.offset + delivered)) c.chunk) (drop (c.offset + delivered) file))
          ≡ true =
        subst (λ (bs : List ℕ). same_bytes bytes bs ≡ true) e (same_bytes_refl bytes) in
      rw there (rw same refl)

  -- The program accepts the chunks, and counts what there is from here on.
  Accepts : Outcome → ℕ → ℕ → Type 0
  Accepts out delivered chunks =
      verify_chunks (file_range file) c end out.0 out.1 delivered chunks
      ≡ accepted
          (delivered + min (end - (c.offset + delivered)) (length file - (c.offset + delivered)))
          (chunks + length out.0)

  accept_nothing :
      (delivered chunks : ℕ)
      → (end ≤ c.offset + delivered) ⊎ (length file ≤ c.offset + delivered)
      → Accepts ([], ended) delivered chunks
  unfolding Accepts verify_chunks
  accept_nothing delivered chunks h =
      at_stop delivered chunks h ∙ counted (omega (arith, h)) (omega arith)

  -- A chunk that gives all that the file has left is the last.
  accept_last :
      (delivered chunks : ℕ) (bytes : List ℕ)
      → bytes ≡ take (min (end - (c.offset + delivered)) c.chunk) (drop (c.offset + delivered) file)
      → length bytes ≡ length file - (c.offset + delivered)
      → length bytes ≤ end - (c.offset + delivered)
      → Accepts (short (c.offset + delivered) bytes, ended) delivered chunks
  unfolding Accepts
  accept_last delivered chunks [] e all below =
      accept_nothing delivered chunks (inr (omega (arith, all)))
  accept_last delivered chunks (b ∷ bs) e all below =
      accept_chunk delivered chunks [] ended (b ∷ bs) e
      ∙ accept_nothing (delivered + length (b ∷ bs)) (chunks + 1) (inr (omega (arith, all)))
      ∙ counted (omega (arith, all, below)) (omega arith)

  accept_followed :
      (delivered chunks : ℕ) (bytes : List ℕ) (rest : Outcome)
      → bytes ≡ take (min (end - (c.offset + delivered)) c.chunk) (drop (c.offset + delivered) file)
      → (length bytes ≡ min (end - (c.offset + delivered)) c.chunk
          → Accepts rest (delivered + length bytes) (chunks + 1))
      → Accepts
          (followed
            (c.offset + delivered)
            (min (end - (c.offset + delivered)) c.chunk)
            (ok bytes)
            rest)
          delivered
          chunks
  unfolding Accepts
  accept_followed delivered chunks bytes rest e ih =
      let size =
        ap length e
        ∙ length-range (c.offset + delivered) (min (end - (c.offset + delivered)) c.chunk) in
      elim (Bool-cases (is_full (min (end - (c.offset + delivered)) c.chunk) (ok bytes))) [
        | inl full ↦ rw full (
            accept_chunk delivered chunks rest.0 rest.1 bytes e
            ∙ ih (ground (arith, full))
            ∙ counted (ground (arith, size, full)) (omega arith))
        | inr less ↦ rw less (
            accept_last delivered chunks bytes e (ground (arith, size, less)) (omega (arith, size)))
      ]

  sequential-Accepts :
      (n delivered chunks : ℕ)
      → 0 < c.chunk
      → end - (c.offset + delivered) < n
      → Accepts (sequential (file_range file) end c.chunk n (c.offset + delivered)) delivered chunks
  unfolding sequential
  sequential-Accepts zero delivered chunks pos enough = absurd (omega (arith, enough))
  sequential-Accepts (suc n) delivered chunks pos enough =
      let len = min (end - (c.offset + delivered)) c.chunk in
      let bytes = take len (drop (c.offset + delivered) file) in
      let size = length-range (c.offset + delivered) len in
      let checked = checked_result_fits len bytes (omega (arith, size)) in
      elim (Bool-cases (leb end (c.offset + delivered))) [
        | inl over ↦ rw over (accept_nothing delivered chunks (inl (ground (arith, over))))
        | inr more ↦ rw more (
            rw checked (
              accept_followed delivered chunks bytes _ refl (λ full.
                subst
                  (λ (o : ℕ).
                    Accepts (sequential (file_range file) end c.chunk n o)
                      (delivered + length bytes) (chunks + 1))
                  {x = c.offset + (delivered + length bytes)} {y = c.offset + delivered + len}
                  (omega (arith, full))
                  (sequential-Accepts n (delivered + length bytes) (chunks + 1) pos
                    (ground (arith, full, more, enough, pos))))))
      ]

module _ {F S E : Type 0} {src : Source F S E} (file : List ℕ)
    (a : Serves src (file_range file)) where
  drained :
      (s : DriverStats) (d n : ℕ)
      → s.in_flight ≡ 0
      → s.submitted ≡ add s.delivered s.orphan_reclaimed
      → with_stats s (accepted d n) ≡ accepted d n
  drained s d n idle sum =
      let none_left : (s.in_flight == 0) ≡ true = ground (arith, idle) in
      let all : (s.submitted == add s.delivered s.orphan_reclaimed) ≡ true = ground (arith, sum) in
      rw none_left (rw all refl)

  whole_range-accepted :
      (c : Config)
      → 0 < c.chunk
      → verify_chunks
          (file_range file)
          c
          (c.offset + c.length)
          (whole_range (file_range file) c).0
          (whole_range (file_range file) c).1
          0
          0
        ≡ accepted
            (min c.length (length file - c.offset))
            (length (whole_range (file_range file) c).0)
  unfolding Accepts
  whole_range-accepted c pos =
      let end = c.offset + c.length in
      let reads = sequential (file_range file) end c.chunk (suc c.length) in
      subst
        (λ (o : ℕ).
          verify_chunks (file_range file) c end (reads o).0 (reads o).1 0 0
          ≡ accepted (min (end - o) (length file - o)) (length (reads o).0))
        {x = c.offset + 0} {y = c.offset} (omega arith)
        (sequential-Accepts file c end (suc c.length) 0 0 pos (omega arith)
          ∙ counted (omega arith) (omega arith))
      ∙ counted (omega arith) refl

  run_valid :
      (c : Config) (end : ℕ) (out : Outcome) (s : DriverStats)
      → validate c ≡ ok end
      → run (file_range file) c out s
        ≡ with_stats s (verify_chunks (file_range file) c end out.0 out.1 0 0)
  unfolding run
  run_valid c end out s valid = rw (valid, run) refl

  -- Over a source whose handles, once ready, have what the file holds of their ranges, with a reference
  -- read that gives the same, a driver that drained with its counters in balance, and a consumer woken
  -- often enough: the program accepts the reader's chunks, in order and byte for byte, and reports exactly
  -- the bytes of the range that the file has, in as many chunks as one read after another gives.
  pub run-accepts_sequential :
      (c : Config) (source : S) (r : OrderedReader F S) (es : List E) (s : DriverStats)
      → new c source ≡ ok r
      → Prompts src (suc (length (whole_range (file_range file) c).0)) es
      → s.in_flight ≡ 0
      → s.submitted ≡ add s.delivered s.orphan_reclaimed
      → run (file_range file) c (consume src es r) s
        ≡ accepted
            (min c.length (length file - c.offset))
            (length (whole_range (file_range file) c).0)
  unfolding new Accepts
  run-accepts_sequential c source r es s made enough idle sum =
      let (end, valid, is) = started c source (validate c) r made in
      let (config, range, fits) = validate_lem c end valid in
      let out = whole_range (file_range file) c in
      rw ((consume-eq-sequential (file_range file) a c source r es made enough).0) (
        run_valid c end out s valid
        ∙ ap (with_stats s) (
            subst
              (λ (e : ℕ).
                verify_chunks (file_range file) c e out.0 out.1 0 0
                ≡ accepted (min c.length (length file - c.offset)) (length out.0))
              (sym range) (whole_range-accepted c config.some_chunk))
        ∙ drained s _ _ idle sum)
