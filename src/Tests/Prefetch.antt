-- ===== src/Tests/Prefetch.antt =====
-- The ordered reader over a file of ten bytes whose later ranges are there first.
use uring.Prelude.{
  ℕ, suc, ◌-◌, ◌≤◌, ◌≡◌, ◌≢◌, refl, ◌∙◌, inl, inr, Bool, true, false, List, [], ◌∷◌, leb,
  if◌then◌else◌, arith, length, take, drop, ap,
}
use uring.Sys.{IoResult, ok}
use uring.Handle.{Poll}
use uring.Ordered.{
  Config, Source, OrderedReader, start, new, validate, consume, poll_next, take_front, poll_slots,
  fill, is_terminal, poll_state, checked_result, ended, running, fill_window, poll_many,
}
use uring.Ordered.Bounds.{fill_window-bounded, total_len}
use uring.Ordered.Sequential.{Serves, sequential, whole_range}
use uring.Ordered.Refines.{IsPrefix, consume-IsPrefix_sequential}
use uring.Ordered.Progress.{Prompts, consume-eq-sequential}
use uring.Driver.{DriverStats}
use uring.Sys.{err, os, eintr}
use uring.Prelude.{some}
use uring.Prefetch.{reference_read, verify_chunks, run}
use uring.Prefetch.Reference.{reference_read_lem}
use uring.Prefetch.Verified.{file_range, accepted, run-accepts_sequential}
use uring.Prefetch.Sound.{Verified, run-Verified}

abbrev file_bytes : List ℕ
file_bytes = 10 ∷ 11 ∷ 12 ∷ 13 ∷ 14 ∷ 15 ∷ 16 ∷ 17 ∷ 18 ∷ 19 ∷ []

abbrev file_answer : ℕ → ℕ → IoResult (List ℕ)
file_answer offset len = ok (take len (drop offset file_bytes))

-- At time `t` the handles of the last `t` bytes are ready.
abbrev file_source : Source (ℕ × ℕ) (Unit {0}) ℕ
file_source = record {
  call = λ s offset len. ((offset, len), tt);
  poll = λ t f. (if leb (10 - f.0) t then Poll.ready (file_answer f.0 f.1) else Poll.pending, f);
}

abbrev prefetch : Config
prefetch = record { offset = 1; length = 8; chunk = 3; window = 2; max_bytes = 6 }

abbrev times : List ℕ
times = 0 ∷ 6 ∷ 10 ∷ 10 ∷ 10 ∷ 10 ∷ []

abbrev file_reader : OrderedReader (ℕ × ℕ) (Unit {0})
file_reader = start prefetch tt 9

file_reader_made : new prefetch tt ≡ ok file_reader
unfolding new validate
file_reader_made = refl

file_ready :
    (b : Bool) (r result : IoResult (List ℕ))
    → (if b then Poll.ready r else Poll.pending) ≡ Poll.ready result
    → result ≡ r
file_ready true r result h = cc
file_ready false r result h = cc

file_answers : Serves file_source file_answer
file_answers = record {
  For = λ f offset len. f ≡ (offset, len);
  made = λ s offset len. refl;
  kept = λ t f offset len h waits. h;
  given = λ t f offset len result h arrived.
      file_ready (leb (10 - f.0) t) (file_answer f.0 f.1) result arrived
      ∙ ap (λ (g : ℕ × ℕ). file_answer g.0 g.1) h;
}

prompt : (f : ℕ × ℕ) → (file_source.poll 10 f).0 ≢ Poll.pending
prompt f = ground arith

three_chunks : Prompts file_source (suc (length (whole_range file_answer prefetch).0)) times
unfolding sequential checked_result
three_chunks = inr (inr (inl (prompt, inl (prompt, inl (prompt, inl (prompt, tt))))))

chunks : consume file_source times file_reader ≡ (
  record { offset = 1; bytes = 11 ∷ 12 ∷ 13 ∷ [] }
      ∷ record { offset = 4; bytes = 14 ∷ 15 ∷ 16 ∷ [] }
      ∷ record { offset = 7; bytes = 17 ∷ 18 ∷ [] }
      ∷ [],
  ended,
)
unfolding consume poll_next take_front poll_slots fill_window fill is_terminal poll_state
    checked_result
chunks = refl

consume-IsPrefix_sequential_example :
    IsPrefix
      (consume file_source (0 ∷ 9 ∷ []) file_reader).0
      (consume file_source (0 ∷ 9 ∷ []) file_reader).1
      (whole_range file_answer prefetch)
consume-IsPrefix_sequential_example =
    consume-IsPrefix_sequential file_answer file_answers prefetch tt file_reader (0 ∷ 9 ∷ [])
      file_reader_made

consume-eq-sequential_example :
    (consume file_source times file_reader ≡ whole_range file_answer prefetch)
    × ((whole_range file_answer prefetch).1 ≢ running)
consume-eq-sequential_example =
    consume-eq-sequential file_answer file_answers prefetch tt file_reader times file_reader_made
      three_chunks

fill_window-bounded_example :
    (length (fill_window file_source (poll_many file_source times file_reader)).slots ≤ 2)
    × (total_len (fill_window file_source (poll_many file_source times file_reader)).slots ≤ 6)
    × ((fill_window file_source (poll_many file_source times file_reader)).reserved
        ≡ total_len (fill_window file_source (poll_many file_source times file_reader)).slots)
fill_window-bounded_example =
    fill_window-bounded file_source prefetch tt file_reader times file_reader_made

abbrev after_three_reads : DriverStats
after_three_reads = record {
  submitted = 5;
  delivered = 3;
  orphan_reclaimed = 2;
  in_flight = 0;
  cancel_succeeded = 0;
  cancel_not_found = 0;
  cancel_already = 0;
  cq_overflow = 0;
  submit_errors = 0;
}

-- An interruption, and a count that is cut short.
abbrev pread_answers : List (IoResult ℕ)
pread_answers = ok 3 ∷ err (os eintr) ∷ ok 5 ∷ []

reference_read_lem_example :
    reference_read file_bytes 1 8 pread_answers []
    ≡ some (ok (11 ∷ 12 ∷ 13 ∷ 14 ∷ 15 ∷ 16 ∷ 17 ∷ 18 ∷ []))
reference_read_lem_example = reference_read_lem file_bytes 1 8 9 pread_answers (omega arith) (
    inr (
      (omega arith, omega arith, λ h. absurd (omega (arith, h))),
      inr (
        refl,
        inr ((omega arith, omega arith, λ h. absurd (omega (arith, h))), inr (omega arith)),
      ),
    ))

run-accepts_sequential_example :
    run (file_range file_bytes) prefetch (consume file_source times file_reader) after_three_reads
    ≡ accepted 8 3
unfolding sequential checked_result
run-accepts_sequential_example =
    run-accepts_sequential file_bytes file_answers prefetch tt file_reader times after_three_reads
      file_reader_made three_chunks refl refl

run_accepted :
    run (file_range file_bytes) prefetch (whole_range file_answer prefetch) after_three_reads
    ≡ accepted 8 3
unfolding sequential checked_result run verify_chunks validate
run_accepted = refl

run-Verified_example :
    Verified file_bytes prefetch (whole_range file_answer prefetch) after_three_reads 8 3
run-Verified_example =
    run-Verified file_bytes prefetch (whole_range file_answer prefetch) after_three_reads 8 3
      run_accepted
