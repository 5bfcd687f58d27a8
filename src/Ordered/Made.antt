-- ===== src/Ordered/Made.antt =====
-- What the validation of a configuration gives, and the reader that it makes.
use uring.Prelude.{ℕ, ◌+◌, ◌*◌, ◌≤◌, ◌<◌, ◌≡◌, refl, arith}
use uring.Prelude.Word.{i64_max, checked_add}
use uring.Sys.{IoResult, ok, err}
use uring.Ordered.{Config, OrderedReader, start, max_window, max_chunk, validate, range_end, new}

-- What `validate` lets through.
pub record IsValidConfig (c : Config) : Type 0 where
  pub some_chunk : 0 < c.chunk
  pub some_window : 0 < c.window
  pub window : c.window ≤ max_window
  pub chunk : c.chunk ≤ c.max_bytes
  pub bytes : c.max_bytes ≤ max_window * max_chunk

range_end_lem : (o l e : ℕ) → range_end (checked_add o l) ≡ ok e → (e ≡ o + l) × (e ≤ i64_max)
range_end_lem o l e h = ground arith

pub validate_lem :
    (c : Config) (e : ℕ)
    → validate c ≡ ok e
    → IsValidConfig c × (e ≡ c.offset + c.length) × (e ≤ i64_max)
unfolding validate
validate_lem c e h =
    let r = range_end_lem c.offset c.length e (ground arith) in
    (ground arith, ground arith, ground arith)

pub started :
    {F S : Type 0} (c : Config) (source : S) (v : IoResult ℕ) (r : OrderedReader F S)
    → (elim v [ ok e ↦ ok (start c source e) | err x ↦ err x ]) ≡ ok r
    → (e : ℕ) × (v ≡ ok e) × (r ≡ start c source e)
started c source (ok e) r h = (e, refl, cc)
started c source (err x) r h = cc

-- A reader that `new` makes is the start of a valid configuration.
pub new_lem :
    {F S : Type 0} (c : Config) (source : S) (r : OrderedReader F S)
    → new c source ≡ ok r
    → (e : ℕ) × (r ≡ start c source e) × IsValidConfig c × (e ≡ c.offset + c.length) × (e ≤ i64_max)
unfolding new
new_lem c source r h =
    let (e, valid, is) = started c source (validate c) r h in
    let (config, sum, fits) = validate_lem c e valid in (e, is, config, sum, fits)
