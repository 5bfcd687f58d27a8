-- ===== src/Ordered.antt =====
-- examples/ordered_prefetch/reader.rs: `OrderedReader`, a window of outstanding reads whose results are
-- delivered in order. The source of the reads is a parameter: what it is asked, and what its handles
-- answer when they are polled. An arithmetic overflow wraps, as in a release build.
pub mod Made
pub mod Bounds
pub mod Sequential
pub mod Chain
pub mod Window
pub mod Deliver
pub mod Refines
pub mod Progress
use uring.Prelude.{
  ℕ, zero, suc, ◌+◌, ◌-◌, ◌*◌, ◌%◌, ◌^◌, min, Bool, true, false, not, ◌&&◌, ◌||◌, Option, none,
  some, List, [], ◌∷◌, ◌++◌, ltb, leb, ◌==◌, if◌then◌else◌, length, take, drop,
}
use uring.Prelude.Word.{word, i64_max, checked_add, fetch_add, fetch_sub}
use uring.Sys.{IoResult, ok, err, IoError, custom, invalid_input, invalid_data}
use mathlib.Core.Option
use uring.Handle.{Poll}

abbrev pub max_window : ℕ
max_window = 64

abbrev pub max_chunk : ℕ
max_chunk = 8 * 1024 * 1024

pub record Config : Type 0 where
  pub offset : ℕ
  pub length : ℕ
  pub chunk : ℕ
  pub window : ℕ
  pub max_bytes : ℕ

abbrev pub range_end : Option ℕ → IoResult ℕ
range_end none = err (custom invalid_input "range end must fit signed file offsets")
range_end (some e) =
    if leb e i64_max
    then ok e
    else err (custom invalid_input "range end must fit signed file offsets")

unfoldable pub validate : Config → IoResult ℕ
validate c =
    if c.chunk == 0 || ltb max_chunk c.chunk || c.window == 0 || ltb max_window c.window
    then err (custom invalid_input "chunk must be 1..=8 MiB and window 1..=64")
    else if ltb c.max_bytes c.chunk || ltb (max_window * max_chunk) c.max_bytes
    then err (custom invalid_input "max_bytes must be at least chunk and at most 512 MiB")
    else range_end (checked_add c.offset c.length)

pub record Chunk : Type 0 where
  pub offset : ℕ
  pub bytes : List ℕ

pub data State (F : Type 0) : Type 0 where
  pending : F → State F
  ready : IoResult (List ℕ) → State F

pub record Slot (F : Type 0) : Type 0 where
  pub offset : ℕ
  pub len : ℕ
  pub state : State F

pub record OrderedReader (F S : Type 0) : Type 0 where
  pub config : Config
  pub end : ℕ
  pub next_offset : ℕ
  pub reserved : ℕ
  pub slots : List (Slot F)
  pub source : S
  pub stop_scheduling : Bool
  pub finished : Bool

-- The closure that starts a read, with its state, and the poll of a handle, which depends on what its
-- surroundings `E` have got to.
pub record Source (F S E : Type 0) : Type 0 where
  pub call : S → ℕ → ℕ → F × S
  pub poll : E → F → Poll (IoResult (List ℕ)) × F

abbrev pub start : {F S : Type 0} → Config → S → ℕ → OrderedReader F S
start c source e = record {
  config = c;
  end = e;
  next_offset = c.offset;
  reserved = 0;
  slots = [];
  source = source;
  stop_scheduling = false;
  finished = false;
}

unfoldable pub new : {F S : Type 0} → Config → S → IoResult (OrderedReader F S)
new c source = elim (validate c) [ ok e ↦ ok (start c source e) | err x ↦ err x ]

-- The condition of the loop of `fill_window`, and the length of the next read.
abbrev pub wants_more : {F S : Type 0} → OrderedReader F S → Bool
wants_more r =
    not r.stop_scheduling && ltb r.next_offset r.end && ltb (length r.slots) r.config.window

abbrev pub next_len : {F S : Type 0} → OrderedReader F S → ℕ
next_len r = min (r.end - r.next_offset) r.config.chunk

-- `result.as_ref().is_ok_and(|bytes| bytes.len() > len)` replaces the result by an error.
unfoldable pub checked_result : ℕ → IoResult (List ℕ) → IoResult (List ℕ)
checked_result len (err x) = err x
checked_result len (ok bytes) =
    if ltb len (length bytes)
    then err (custom invalid_data "source returned more bytes than requested")
    else ok bytes

abbrev pub is_full : ℕ → IoResult (List ℕ) → Bool
is_full len (err x) = false
is_full len (ok bytes) = length bytes == len

-- A result after which no later read contributes.
unfoldable pub is_terminal : {F : Type 0} → Slot F → Bool
is_terminal s = elim s.state [
  | State.pending f ↦ false
  | State.ready result ↦ not (is_full s.len result)
]

-- `pop_back`s, the last slot first.
unfoldable pub pop_backs : {F : Type 0} → List (Slot F) → ℕ → ℕ
pop_backs [] reserved = reserved
pop_backs (s ∷ ss) reserved = fetch_sub (pop_backs ss reserved) s.len

abbrev pub chunk_of : ℕ → List ℕ → Option Chunk
chunk_of offset [] = none
chunk_of offset (b ∷ bs) = some (record { offset = offset; bytes = b ∷ bs })

abbrev pub cut : {F S : Type 0} → OrderedReader F S → List (Slot F) → Option ℕ → OrderedReader F S
cut r ss none = record r { slots = ss }
cut r ss (some index) = record r {
  slots = take (suc index) ss;
  reserved = pop_backs (drop (suc index) ss) r.reserved;
  stop_scheduling = true;
}

abbrev pub conclude :
    {F S : Type 0}
    → OrderedReader F S
    → ℕ
    → ℕ
    → IoResult (List ℕ)
    → OrderedReader F S × Poll (IoResult (Option Chunk))
conclude r offset len (err x) = (record r { finished = true }, Poll.ready (err x))
conclude r offset len (ok bytes) = (
  record r { finished = ltb (length bytes) len || r.finished },
  Poll.ready (ok (chunk_of offset bytes)),
)

unfoldable pub take_front :
    {F S : Type 0}
    → OrderedReader F S
    → List (Slot F)
    → OrderedReader F S × Poll (IoResult (Option Chunk))
take_front r [] = (record r { finished = true }, Poll.ready (ok none))
take_front r (s ∷ ss) = elim s.state [
  | State.pending f ↦ (r, Poll.pending)
  | State.ready result ↦
      conclude (record r { slots = ss; reserved = fetch_sub r.reserved s.len }) s.offset s.len
        result
]

-- What a consumer has got: the chunks, and how the sequence of them ends.
pub data Ending : Type 0 where
  running ended : Ending
  failed : IoError → Ending

abbrev pub Outcome : Type 0
Outcome = List Chunk × Ending

abbrev pub and_then : Chunk → Outcome → Outcome
and_then c (cs, ending) = (c ∷ cs, ending)

abbrev pub collected : Poll (IoResult (Option Chunk)) → Outcome → Outcome
collected Poll.pending rest = rest
collected (Poll.ready (ok none)) rest = ([], ended)
collected (Poll.ready (ok (some c))) rest = and_then c rest
collected (Poll.ready (err x)) rest = ([], failed x)

module _ {F S E : Type 0} (src : Source F S E) where
  abbrev pub push : OrderedReader F S → OrderedReader F S
  push r =
      let (handle, source') = src.call r.source r.next_offset (next_len r) in
      record r {
        source = source';
        slots =
            r.slots
            ++ (record { offset = r.next_offset; len = next_len r; state = State.pending handle }
                ∷ []);
        reserved = fetch_add r.reserved (next_len r);
        next_offset = fetch_add r.next_offset (next_len r);
      }

  -- The loop of `fill_window`, with the rounds that it may still take: each adds a slot.
  unfoldable pub fill : ℕ → OrderedReader F S → OrderedReader F S
  fill zero r = r
  fill (suc n) r = elim (wants_more r) [
    | false ↦ r
    | true ↦ elim (ltb (fetch_sub r.config.max_bytes r.reserved) (next_len r)) [
      | true ↦ r
      | false ↦ fill n (push r)
    ]
  ]

  unfoldable pub fill_window : OrderedReader F S → OrderedReader F S
  fill_window r = fill r.config.window r

  unfoldable pub poll_state : E → ℕ → State F → State F
  poll_state e len (State.ready result) = State.ready result
  poll_state e len (State.pending handle) =
      let (p, handle') = src.poll e handle in
      elim p [
        | Poll.pending ↦ State.pending handle'
        | Poll.ready result ↦ State.ready (checked_result len result)
      ]

  abbrev pub poll_slot : E → Slot F → Slot F
  poll_slot e s = record s { state = poll_state e s.len s.state }

  -- The loop over the slots: it stops at the first terminal result, and gives its index.
  unfoldable pub poll_slots : E → List (Slot F) → List (Slot F) × Option ℕ
  poll_slots e [] = ([], none)
  poll_slots e (s ∷ ss) =
      let s' = poll_slot e s in
      let (ss', at) = poll_slots e ss in
      if is_terminal s' then (s' ∷ ss, some 0) else (s' ∷ ss', Option.map suc at)

  unfoldable pub poll_next :
      E → OrderedReader F S → OrderedReader F S × Poll (IoResult (Option Chunk))
  poll_next e r =
      if r.finished
      then (r, Poll.ready (ok none))
      else let r' = fill_window r in
        let (ss, at) = poll_slots e r'.slots in let r'' = cut r' ss at in take_front r'' r''.slots

  -- The reader after the polls of some calls of `next`.
  unfoldable pub poll_many : List E → OrderedReader F S → OrderedReader F S
  poll_many [] r = r
  poll_many (e ∷ es) r = poll_many es (poll_next e r).0

  -- A consumer that awaits `next` until there is no chunk, over the polls of its futures.
  unfoldable pub consume : List E → OrderedReader F S → Outcome
  consume [] r = ([], running)
  consume (e ∷ es) r = let (r', p) = poll_next e r in let rest = consume es r' in collected p rest
