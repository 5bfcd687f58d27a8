-- ===== src/Tests/Loop.antt =====
-- The driver's loop: a read of a block that is accepted, submitted and completed in one turn.
use uring.Prelude.{
  ◌≡◌, refl, sym, subst, ◌∙◌, inr, true, false, none, some, [], ◌∷◌, arith, replicate,
}
use uring.Prelude.Int.{pos}
use uring.Sys.{ok}
use uring.Pending.{Pending, read_sqe, Completion}
use uring.Budget.{TurnBudget, fresh_budget, can_take_message}
use uring.Driver.{DriverStats, ReadMsg, Msg, Driver}
use uring.Driver.Inv.{Inv}
use uring.Driver.Intake.{
  new_pending, accept, misplaced, place, allocate, on_read, on_message, intake,
}
use uring.Driver.Intake.Entry.{IsValidRead}
use uring.Driver.Intake.Keys.{Sound}
use uring.Driver.Intake.Safety.{intake-Inv}
use uring.Driver.Submit.{Enter, submit_if_needed, submit_ring, handle_submit_result}
use uring.Driver.Reap.{Cqe, reap}
use uring.Driver.Reap.Safety.{FitsAll, Fits, reap-Inv}
use uring.Driver.Turn.{TurnInput, Verdict, turn}
use uring.Driver.Turn.Drain.{Outcome}
use uring.Driver.Turn.Safety.{Meets, MeetsAll, turn-Outcome, EndsWell, drive-Outcome}
use uring.Tests.Reads.{block_geometry, block-accepted, permits}

abbrev pub no_stats : DriverStats
no_stats = record {
  submitted = 0;
  delivered = 0;
  orphan_reclaimed = 0;
  in_flight = 0;
  cancel_succeeded = 0;
  cancel_not_found = 0;
  cancel_already = 0;
  cq_overflow = 0;
  submit_errors = 0;
}

abbrev pub idle : Driver
idle = record {
  pending = [];
  backlog = [];
  queued_cancels = [];
  stats = no_stats;
  shutting_down = false;
  drain_deadline = none;
  consecutive_submit_errors = 0;
  submit_error_logged = false;
  previous_cq_overflow = 0;
  continue_now = false;
  inbox = [];
  ring = [];
  replies = [];
  released = [];
  sem_closed = false;
}

pub idle-Inv : Inv idle
idle-Inv = record {
  unique = tt;
  entries = tt;
  in_flight = refl;
  conserved = refl;
  cancels_once = tt;
  cancels_pending = λ j h. cc h;
}

abbrev pub block_read : ReadMsg
block_read = record { id = 1; file = 3; offset = 5; len = 3; done = 7; permit = permits; align = 8 }

pub block_read-IsValid : IsValidRead block_read
block_read-IsValid = record {
  id_small = omega arith;
  offset_word = omega arith;
  len_capped = omega arith;
  geometry = block_geometry;
  accepted = block-accepted;
  region_capped = omega arith;
  end_signed = inr (omega arith);
}

pub block-Sound : Sound idle (Msg.read block_read ∷ [])
block-Sound = record {
  valid = (block_read-IsValid, tt);
  ids_unique = (refl, tt);
  ids_new = λ j h. refl;
}

intake-Inv_example :
    (x : Driver × TurnBudget) × (intake (λ i. 1) false fresh_budget idle (Msg.read block_read ∷ [])
      ≡ some x)
    × Inv x.0
    × Sound x.0 x.0.inbox
intake-Inv_example =
    intake-Inv (λ i. 1) false fresh_budget idle (Msg.read block_read ∷ []) block-Sound idle-Inv

abbrev pub entry : Pending
entry = record {
  buf = replicate 15 0;
  file = 3;
  done = some 7;
  offset = 0;
  nread = 0;
  permit = permits;
  pad = 1;
  head = 5;
  want = 3;
  region_len = 8;
  align = 8;
  transient_retries = 0;
  cancel_requested = false;
}

-- The driver after the intake of the block read.
abbrev pub loaded : Driver
loaded = record idle {
  pending = (1, entry) ∷ [];
  backlog = read_sqe entry 1 ∷ [];
  stats = record no_stats { submitted = 1; in_flight = 1 };
}

pub intake-loaded :
    intake (λ i. 1) false fresh_budget idle (Msg.read block_read ∷ [])
    ≡ some (loaded, record { messages = 1; completions = 0; allocation_bytes = 15 })
unfolding intake can_take_message on_message on_read allocate place misplaced accept new_pending
intake-loaded = rw block-accepted refl

some_same : (x y : Driver × TurnBudget) → some x ≡ some y → x ≡ y
some_same x y e = ground arith

loaded-Inv : Inv loaded
loaded-Inv =
    let (x, e, v, s) =
      intake-Inv (λ i. 1) false fresh_budget idle (Msg.read block_read ∷ []) block-Sound idle-Inv in
    let same = some_same _ x (sym intake-loaded ∙ e) in
    subst (λ (x : Driver × TurnBudget). Inv x.0) (sym same) v

abbrev filled : Completion
filled = record {
  answers = record { receiver_closed = false; file_len = ok 8 };
  result = pos 8;
  memory = 0 ∷ 10 ∷ 11 ∷ 12 ∷ 13 ∷ 14 ∷ 15 ∷ 16 ∷ 17 ∷ replicate 6 0;
}

abbrev pub read_done : Cqe
read_done = record { user_data = 1; completion = filled; send_ok = true }

read_done-Fits : (p : Pending) → some entry ≡ some p → Fits p filled
read_done-Fits p e =
    let same : entry ≡ p = ground arith in
    subst (λ (q : Pending). Fits q filled) same
      (record { same_length = refl; honest = omega arith })

loaded-fits : FitsAll loaded (read_done ∷ [])
unfolding FitsAll
loaded-fits = (read_done-Fits, λ d' e. tt)

reap-Inv_example :
    (x : Driver × TurnBudget) × (reap fresh_budget loaded (read_done ∷ []) ≡ some x) × Inv x.0
reap-Inv_example = reap-Inv fresh_budget loaded (read_done ∷ []) loaded-fits loaded-Inv

abbrev pub took : Enter
took = record { room = 8; sq_is_empty = false; cq_overflow = false; taskrun = false; result = ok 1 }

abbrev pub quiet : Enter
quiet = record { room = 7; sq_is_empty = true; cq_overflow = false; taskrun = false; result = ok 0 }

-- The handle is dropped right after the read is sent.
abbrev pub one_turn : TurnInput
one_turn = record {
  arrived = Msg.read block_read ∷ [];
  senders_gone = true;
  pads = λ i. 1;
  before_reap = took;
  completions = read_done ∷ [];
  after_reap = quiet;
  overflow = 0;
  now = 100;
  later = 101;
  ready_cqe = false;
  sq_is_empty = true;
}

pub intake-closing :
    intake (λ i. 1) true fresh_budget idle (Msg.read block_read ∷ [])
    ≡ some (
      record loaded { shutting_down = true },
      record { messages = 1; completions = 0; allocation_bytes = 15 },
    )
unfolding intake can_take_message on_message on_read allocate place misplaced accept new_pending
intake-closing = rw block-accepted refl

fits_closing :
    FitsAll (submit_ring took (record loaded { shutting_down = true })).0 (read_done ∷ [])
unfolding FitsAll submit_ring submit_if_needed handle_submit_result
fits_closing = (read_done-Fits, λ d' e. tt)

pub one_turn-Meets : Meets idle one_turn
one_turn-Meets = record {
  messages = block-Sound;
  kernel = λ x e.
      subst (λ (x : Driver × TurnBudget). FitsAll (submit_ring took x.0).0 (read_done ∷ []))
        (some_same _ x (sym intake-closing ∙ e)) fits_closing;
}

turn-Outcome_example : (r : Driver × Verdict) × (turn one_turn idle ≡ some r) × Outcome r
turn-Outcome_example = turn-Outcome one_turn idle one_turn-Meets idle-Inv

pub one_turn-MeetsAll : MeetsAll (one_turn ∷ []) idle
unfolding MeetsAll
one_turn-MeetsAll = (one_turn-Meets, λ d' e. tt)

drive-Outcome_example : EndsWell (one_turn ∷ []) idle
drive-Outcome_example = drive-Outcome (one_turn ∷ []) idle one_turn-MeetsAll idle-Inv
