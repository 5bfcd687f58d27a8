-- ===== src/Reservation.antt =====
-- src/driver.rs: `SharedReadBudget`, the pool from which drivers reserve their whole byte budget, and
-- its receipts (`SharedReadReservation`), each shared by counted owners (`Arc`).
pub mod Conserved
use uring.Prelude.{
  ℕ, ◌+◌, ◌-◌, Bool, ◌||◌, Option, none, some, List, [], ◌∷◌, ltb, ◌==◌, if◌then◌else◌,
}
use uring.Prelude.Word.{fetch_add, checked_sub}
use uring.Prelude.Map.{lookup, insert, remove}
use uring.Sys.{custom, invalid_input, would_block, IoResult, ok, err}

pub record SharedReadBudget : Type 0 where
  pub capacity : ℕ
  pub available : ℕ

unfoldable pub new : ℕ → IoResult SharedReadBudget
new total =
    if total == 0
    then err (custom invalid_input "shared read budget must be nonzero")
    else ok (record { capacity = total; available = total })

-- The pool after the reservation of `bytes`.
unfoldable pub reserve : SharedReadBudget → ℕ → IoResult SharedReadBudget
reserve pool bytes =
    if bytes == 0 || ltb pool.capacity bytes
    then err (custom invalid_input "driver read limit must fit the shared read budget")
    else elim (checked_sub pool.available bytes) [
      | none ↦ err (custom would_block "shared read budget has insufficient unreserved capacity")
      | some rest ↦ ok (record pool { available = rest })
    ]

unfoldable pub refund : SharedReadBudget → ℕ → SharedReadBudget
refund pool bytes = record pool { available = fetch_add pool.available bytes }

pub record Receipt : Type 0 where
  pub bytes : ℕ
  pub owners : ℕ

-- A pool and the receipts that are alive, named by the order of their reservation.
pub record Shares : Type 0 where
  pub pool : SharedReadBudget
  pub receipts : List (ℕ × Receipt)
  pub next : ℕ

pub data Step : Type 0 where
  reserves : ℕ → Step
  clones : ℕ → Step
  drops : ℕ → Step

abbrev pub issue : Shares → ℕ → IoResult SharedReadBudget → Shares
issue s bytes (err e) = s
issue s bytes (ok pool) = record {
  pool = pool;
  receipts = insert s.next (record { bytes = bytes; owners = 1 }) s.receipts;
  next = s.next + 1;
}

-- The last owner's drop refunds the receipt.
abbrev pub drop_owner : Shares → ℕ → Receipt → Shares
drop_owner s id r =
    if r.owners == 1
    then record s { pool = refund s.pool r.bytes; receipts = remove id s.receipts }
    else record s { receipts = insert id (record r { owners = r.owners - 1 }) s.receipts }

unfoldable pub step : Step → Shares → Shares
step (reserves bytes) s = issue s bytes (reserve s.pool bytes)
step (clones id) s = elim (lookup id s.receipts) [
  | none ↦ s
  | some r ↦ record s { receipts = insert id (record r { owners = r.owners + 1 }) s.receipts }
]
step (drops id) s = elim (lookup id s.receipts) [ none ↦ s | some r ↦ drop_owner s id r ]
