-- ===== src/Tests/Reads.antt =====
-- One read: an O_DIRECT read of bytes 5, 6 and 7 of a file of eight, with blocks of eight bytes.
use uring.Prelude.{
  ℕ, zero, suc, ◌+◌, ◌≡◌, ◌↔◌, refl, inr, false, none, some, List, [], ◌∷◌, arith, replicate,
}
use uring.Prelude.Int.{pos, negsuc}
use uring.Prelude.Word.{is_power_of_two}
use uring.Sys.{IoResult, ok}
use uring.Geometry.{Geometry, aligned_geometry, superset}
use uring.Geometry.Superset.{Covers, aligned_geometry-Covers, IsLegalAlign, aligned_geometry_total}
use uring.Admission.{ReadPermits}
use uring.Pending.{
  Pending, read_sqe, Answers, Completion, seen, reap_read, finish, resubmit, deliver, reap_progress,
  reap_error,
}
use uring.Pending.Resubmit.{IsPending, Continues, reap_read-resubmit}
use uring.Pending.Content.{Kernel, Ends, Holds, reap_read-finish}
use uring.Pending.Whole.{serve, History, Result, serve_total}

abbrev pub block_geometry : Geometry
block_geometry = record { kernel_offset = 0; head = 5; region_len = 8 }

pub block-accepted : aligned_geometry 5 3 8 ≡ some block_geometry
unfolding aligned_geometry superset is_power_of_two
block-accepted = refl

aligned_geometry-Covers_example : Covers 5 3 8 block_geometry
aligned_geometry-Covers_example =
    aligned_geometry-Covers 5 3 8 block_geometry (omega arith) block-accepted

aligned_geometry_total_example :
    ((g : Geometry) × (aligned_geometry 5 3 8 ≡ some g)) ↔ IsLegalAlign 8
aligned_geometry_total_example = aligned_geometry_total 5 3 8 (omega arith) (omega arith)

abbrev pub permits : ReadPermits
permits = record { count = 0; bytes = some 8; shared_reservation = none }

abbrev file : ℕ → ℕ
file i = i + 10

abbrev fresh : Pending
fresh = record {
  buf = 0 ∷ 0 ∷ 0 ∷ 0 ∷ 0 ∷ 0 ∷ 0 ∷ 0 ∷ 0 ∷ [];
  file = 3;
  done = some 7;
  offset = 0;
  nread = 0;
  permit = permits;
  pad = 1;
  head = 5;
  want = 3;
  region_len = 8;
  align = 8;
  transient_retries = 0;
  cancel_requested = false;
}

abbrev open_receiver : Answers
open_receiver = record { receiver_closed = false; file_len = ok 8 }

fresh-IsPending : IsPending fresh
fresh-IsPending = record {
  read_within = omega arith;
  buffer_holds = omega arith;
  range_within = omega arith;
  capped = omega arith;
  positioned = inr (omega arith);
  retries_capped = omega arith;
  block = omega arith;
  aligned_offset = inr refl;
  aligned_len = refl;
  aligned_read = refl;
}

-- The kernel is interrupted, and then reads the block.
abbrev interrupted : Completion
interrupted = record { answers = open_receiver; result = negsuc 3; memory = fresh.buf }

abbrev filled : List ℕ
filled = 0 ∷ 10 ∷ 11 ∷ 12 ∷ 13 ∷ 14 ∷ 15 ∷ 16 ∷ 17 ∷ []

abbrev complete : Completion
complete = record { answers = open_receiver; result = pos 8; memory = filled }

abbrev again : Pending
again = record fresh { transient_retries = 1 }

interrupted-resubmits :
    reap_read open_receiver fresh 1 (negsuc 3) false ≡ (again, resubmit (read_sqe again 1))
unfolding reap_read reap_error
interrupted-resubmits = refl

reap_read-resubmit_example : Continues fresh 1 again (read_sqe again 1)
reap_read-resubmit_example =
    reap_read-resubmit open_receiver fresh 1 (negsuc 3) false again (read_sqe again 1)
      fresh-IsPending tt interrupted-resubmits

nothing_read : (n : ℕ) (l : List ℕ) → Holds file 0 0 l n
nothing_read n l i lt = absurd (omega arith)

filled-Holds : Holds file 0 8 filled 1
filled-Holds zero lt = refl
filled-Holds (suc zero) lt = refl
filled-Holds (suc (suc zero)) lt = refl
filled-Holds (suc (suc (suc zero))) lt = refl
filled-Holds (suc (suc (suc (suc zero)))) lt = refl
filled-Holds (suc (suc (suc (suc (suc zero))))) lt = refl
filled-Holds (suc (suc (suc (suc (suc (suc zero)))))) lt = refl
filled-Holds (suc (suc (suc (suc (suc (suc (suc zero))))))) lt = refl
filled-Holds (suc (suc (suc (suc (suc (suc (suc (suc i)))))))) lt = absurd (omega arith)

interrupted-Kernel : Kernel file 8 fresh interrupted
interrupted-Kernel = record {
  honest = tt;
  same_length = refl;
  holds = nothing_read 1 fresh.buf;
  eof = λ e lt. ground arith;
  metadata = λ n e. ground arith;
}

complete-Kernel : Kernel file 8 again complete
complete-Kernel = record {
  honest = omega arith;
  same_length = refl;
  holds = filled-Holds;
  eof = λ e lt. ground arith;
  metadata = λ n e. ground arith;
}

abbrev completions : List Completion
completions = interrupted ∷ complete ∷ replicate 151 complete

history : History file 8 completions 1 false fresh
unfolding History reap_read reap_error reap_progress
history = (interrupted-Kernel, refl, (complete-Kernel, refl, tt))

serve_total_example :
    (r : IoResult (List ℕ)) × (serve completions 1 false fresh ≡ some r) × Result file 8 fresh r
serve_total_example =
    serve_total file 8 completions 1 false fresh 7 fresh-IsPending refl history (omega arith)

abbrev done : Pending
done = record fresh { buf = []; nread = 8 }

again-IsPending : IsPending again
again-IsPending = record {
  read_within = omega arith;
  buffer_holds = omega arith;
  range_within = omega arith;
  capped = omega arith;
  positioned = inr (omega arith);
  retries_capped = omega arith;
  block = omega arith;
  aligned_offset = inr refl;
  aligned_len = refl;
  aligned_read = refl;
}

complete-finishes :
    reap_read open_receiver (seen again complete) 1 (pos 8) false
    ≡ (done, finish (ok (15 ∷ 16 ∷ 17 ∷ [])))
unfolding reap_read reap_progress deliver
complete-finishes = refl

reap_read-finish_example : Ends file 8 again (15 ∷ 16 ∷ 17 ∷ [])
reap_read-finish_example =
    reap_read-finish file 8 again complete 1 7 false done (15 ∷ 16 ∷ 17 ∷ []) again-IsPending
      complete-Kernel refl refl complete-finishes
