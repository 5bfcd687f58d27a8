-- ===== src/Budget.antt =====
-- src/driver.rs: `TurnBudget`, which bounds the phases of one turn of the driver's loop.
use uring.Prelude.{ℕ, ◌*◌, Bool, not, ◌&&◌, ◌||◌, ltb}

abbrev pub turn_messages : ℕ
turn_messages = 64

abbrev pub turn_completions : ℕ
turn_completions = 64

abbrev pub turn_allocation_bytes : ℕ
turn_allocation_bytes = 8 * 1024 * 1024

pub record TurnBudget : Type 0 where
  pub messages : ℕ
  pub completions : ℕ
  pub allocation_bytes : ℕ

abbrev pub fresh_budget : TurnBudget
fresh_budget = record { messages = 0; completions = 0; allocation_bytes = 0 }

unfoldable pub can_take_message : TurnBudget → Bool
can_take_message b = ltb b.messages turn_messages && ltb b.allocation_bytes turn_allocation_bytes

unfoldable pub can_reap : TurnBudget → Bool
can_reap b = ltb b.completions turn_completions

unfoldable pub continue_without_wait : TurnBudget → Bool → Bool → ℕ → Bool
unfolding can_take_message can_reap
continue_without_wait b ready_cqe queued_submission submitted =
    not (can_take_message b)
    || not (can_reap b)
    || ready_cqe
    || queued_submission && ltb 0 submitted
