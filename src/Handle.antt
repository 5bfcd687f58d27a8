-- ===== src/Handle.antt =====
-- src/driver.rs: `ReadHandle`, the future of a read: its poll and its drop. What the acquire future,
-- the channels and the driver's end of them answer is an argument.
pub mod Waited
pub mod Life
use uring.Prelude.{
  ℕ, Bool, true, false, not, ◌&&◌, Option, none, some, List, [], ◌∷◌, ◌++◌, if◌then◌else◌,
}
use uring.Sys.{IoResult, err, custom, other}
use uring.Admission.{ReadPermits}
use uring.Driver.{ReadMsg, Msg}
use uring.Front.{Waiting, HandleState, inert, waiting_permit, submitted, ReadHandle}

pub data Poll {ℓ} (A : Type ℓ) : Type ℓ where
  pending : Poll A
  ready : A → Poll A

-- The acquire future's answer, `none` when the semaphore is closed; whether the channel to the driver
-- still has its receiver; the result channel's answer, `none` when its sender was dropped.
pub record PollInput : Type 0 where
  pub acquire : Poll (Option ReadPermits)
  pub alive : Bool
  pub received : Poll (Option (IoResult (List ℕ)))

-- What the handle does to its surroundings.
pub data Effect : Type 0 where
  sends : ℕ → Msg → Effect
  wakes : ℕ → Effect
  closes_receiver : Effect
  drops_permits : ReadPermits → Effect

pub record Polled : Type 0 where
  pub handle : ReadHandle
  pub effects : List Effect
  pub result : Poll (IoResult (List ℕ))

abbrev pub received_result : Option (IoResult (List ℕ)) → IoResult (List ℕ)
received_result none = err (custom other "uring driver shut down before completion")
received_result (some inner) = inner

unfoldable pub without_cancel_on_drop : ReadHandle → ReadHandle
without_cancel_on_drop h = record h { cancel_on_drop = false }

abbrev pub driver_gone : ReadHandle → List Effect → Polled
driver_gone h effects = record {
  handle = record h { finished = true };
  effects = effects;
  result = ready (err (custom other "uring driver shut down"));
}

-- The poll of the result channel.
unfoldable pub receive : PollInput → ReadHandle → List Effect → Polled
receive i h effects = elim i.received [
  | pending ↦ record { handle = h; effects = effects; result = pending }
  | ready r ↦ record {
    handle = record h { finished = true };
    effects = effects;
    result = ready (received_result r);
  }
]

abbrev pub read_msg : ReadHandle → Waiting → ReadPermits → ReadMsg
read_msg h w permit = record {
  id = h.id;
  file = w.file;
  offset = w.offset;
  len = w.len;
  done = w.done;
  permit = permit;
  align = w.align;
}

-- The permits are there: the read is handed to the driver.
unfoldable pub hand_over : PollInput → ReadHandle → Waiting → ReadPermits → Polled
hand_over i h w permit =
    let h' : ReadHandle = record h { state = submitted w.shard } in
    if i.alive
    then receive i h' (sends h.tx (Msg.read (read_msg h w permit)) ∷ wakes w.shard ∷ [])
    else driver_gone h' (drops_permits permit ∷ [])

unfoldable pub poll_waiting : PollInput → ReadHandle → Waiting → Polled
poll_waiting i h w = elim i.acquire [
  | pending ↦ record { handle = h; effects = []; result = pending }
  | ready none ↦ driver_gone h []
  | ready (some permit) ↦ hand_over i h w permit
]

unfoldable pub poll : PollInput → ReadHandle → Polled
poll i h = elim h.state [
  | inert ↦ receive i h []
  | waiting_permit w ↦ poll_waiting i h w
  | submitted shard ↦ receive i h []
]

abbrev pub cancel_effects : ReadHandle → ℕ → List Effect
cancel_effects h shard = closes_receiver ∷ sends h.tx (Msg.cancel h.id) ∷ wakes shard ∷ []

-- The drop of the handle.
unfoldable pub drop : ReadHandle → List Effect
drop h = elim h.state [
  | inert ↦ []
  | waiting_permit w ↦ []
  | submitted shard ↦ if not h.finished && h.cancel_on_drop then cancel_effects h shard else []
]

-- Polls until the first result, and then the drop.
unfoldable pub life : List PollInput → ReadHandle → List Effect
life [] h = drop h
life (i ∷ is) h =
    let p = poll i h in
    p.effects ++ elim p.result [ pending ↦ life is p.handle | ready r ↦ drop p.handle ]
