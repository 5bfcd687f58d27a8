-- ===== src/Driver/Account.antt =====
-- Every read that reaches the driver is in one place: in the inbox, in the table, or answered; and so
-- are its permits. The count is by weights, one on the callers and one on the permits.
pub mod Intake
pub mod Phases
pub mod Turn
pub mod Run
use uring.Prelude.{ℕ, ◌+◌, ◌≡◌, Option, none, some, List, [], ◌∷◌, arith, ap, refl, ◌∙◌}
use uring.Prelude.Map.{total}
use uring.Sys.{IoResult}
use uring.Admission.{ReadPermits}
use uring.Pending.{Pending}
use uring.Driver.{ReadMsg, Msg, read, cancel, shutdown, Driver}

module _ (w : ℕ → ℕ) (g : ReadPermits → ℕ) where
  abbrev pub caller_weight : Option ℕ → ℕ
  caller_weight none = 0
  caller_weight (some tx) = w tx

  abbrev pub entry_weight : Pending → ℕ
  entry_weight p = caller_weight p.done + g p.permit

  abbrev pub read_weight : ReadMsg → ℕ
  read_weight m = w m.done + g m.permit

  abbrev pub inbox_weight : List Msg → ℕ
  inbox_weight [] = 0
  inbox_weight (read m ∷ ms) = read_weight m + inbox_weight ms
  inbox_weight (cancel id ∷ ms) = inbox_weight ms
  inbox_weight (shutdown ∷ ms) = inbox_weight ms

  abbrev pub replies_weight : List (ℕ × IoResult (List ℕ)) → ℕ
  replies_weight [] = 0
  replies_weight ((tx, r) ∷ rs) = w tx + replies_weight rs

  abbrev pub released_weight : List ReadPermits → ℕ
  released_weight [] = 0
  released_weight (p ∷ ps) = g p + released_weight ps

  -- The reads that have left the channel.
  abbrev pub taken : Driver → ℕ
  taken d = total entry_weight d.pending + replies_weight d.replies + released_weight d.released

-- A step that touches none of what is counted, nor the inbox.
pub record Frame (d d' : Driver) : Type 0 where
  pub pending : d'.pending ≡ d.pending
  pub inbox : d'.inbox ≡ d.inbox
  pub replies : d'.replies ≡ d.replies
  pub released : d'.released ≡ d.released

pub same_Frame :
    (d d' : Driver)
    → d'.pending ≡ d.pending
    → d'.inbox ≡ d.inbox
    → d'.replies ≡ d.replies
    → d'.released ≡ d.released
    → Frame d d'
same_Frame d d' p i r l = record { pending = p; inbox = i; replies = r; released = l }

pub Frame-trans : (a b c : Driver) → Frame a b → Frame b c → Frame a c
Frame-trans a b c f h = record {
  pending = h.pending ∙ f.pending;
  inbox = h.inbox ∙ f.inbox;
  replies = h.replies ∙ f.replies;
  released = h.released ∙ f.released;
}

pub Frame-taken :
    (w : ℕ → ℕ) (g : ReadPermits → ℕ) (d d' : Driver) → Frame d d' → taken w g d' ≡ taken w g d
Frame-taken w g d d' f = omega (
  arith,
  ap (total (entry_weight w g)) f.pending,
  ap (replies_weight w g) f.replies,
  ap (released_weight w g) f.released,
)
