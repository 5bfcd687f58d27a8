-- ===== src/Prefetch/Sound.antt =====
-- What the program has checked when it reports success, whatever the reader delivered.
use uring.Prelude.{
  ℕ, ◌+◌, ◌-◌, ◌≤◌, ◌≡◌, ◌==◌, refl, ap, sym, ◌∙◌, subst, ◌⊎◌, min, Bool, true, false, not, ◌||◌,
  inl, inr, Option, none, some, List, arith, if◌then◌else◌, length, take, drop, length-take,
  length-drop, take_all,
}
use uring.Sys.{IoResult, ok, err, IoError}
use uring.Driver.{DriverStats}
use uring.Closing.{add}
use uring.Ordered.{Config, validate, ended, Outcome}
use uring.Ordered.Made.{validate_lem}
use uring.Prefetch.{verify_chunks, conserved, with_stats, run}
use uring.Prefetch.Verified.{file_range, accepted}
use uring.Prefetch.Chunks.{joined, Contiguous, verify_chunks-Checked}

both_passed :
    (a b : Bool) (e : IoError) (r : ℕ × ℕ) (d n : ℕ)
    → some (if not a || not b then err e else ok r) ≡ accepted d n
    → (a ≡ true) × (b ≡ true) × (some (ok r) ≡ accepted d n)
both_passed true true e r d n h = (refl, refl, h)
both_passed true false e r d n h = absurd (cc h)
both_passed false b e r d n h = absurd (cc h)

conserved-ok :
    (s : DriverStats) (r : ℕ × ℕ) (d n : ℕ)
    → some (conserved s r) ≡ accepted d n
    → (s.in_flight ≡ 0)
      × (s.submitted ≡ add s.delivered s.orphan_reclaimed)
      × (some (ok r) ≡ accepted d n)
conserved-ok s r d n h =
    let (none_left, all, is) =
      both_passed (s.in_flight == 0) (s.submitted == add s.delivered s.orphan_reclaimed) _ r d n
        h in
    (ground (arith, none_left), ground (arith, all), is)

drained_if_ok :
    (s : DriverStats) (r : Option (IoResult (ℕ × ℕ))) (d n : ℕ)
    → with_stats s r ≡ accepted d n
    → (r ≡ accepted d n) × (s.in_flight ≡ 0) × (s.submitted ≡ add s.delivered s.orphan_reclaimed)
drained_if_ok s none d n h = cc h
drained_if_ok s (some (err e)) d n h = cc h
drained_if_ok s (some (ok r)) d n h =
    let (idle, balance, is) = conserved-ok s r d n h in (is, idle, balance)

-- The range of the file was delivered, in order, by a driver that drained.
pub record Verified (file : List ℕ) (c : Config) (out : Outcome) (s : DriverStats) (d n : ℕ)
    : Type 0 where
  pub over : out.1 ≡ ended
  pub contiguous : Contiguous c.offset out.0
  pub bytes : joined out.0 ≡ take c.length (drop c.offset file)
  pub counted_bytes : d ≡ min c.length (length file - c.offset)
  pub counted_chunks : n ≡ length out.0
  pub idle : s.in_flight ≡ 0
  pub balance : s.submitted ≡ add s.delivered s.orphan_reclaimed

take_or_all :
    (file xs : List ℕ) (o d len : ℕ)
    → xs ≡ take (length xs) (drop o file)
    → d ≡ length xs
    → d ≤ len
    → (o + len ≤ o + d) ⊎ (length file ≤ o + d)
    → xs ≡ take len (drop o file)
take_or_all file xs o d len same size below (inl all) =
    same ∙ ap (λ (k : ℕ). take k (drop o file)) (omega (arith, size, below, all))
take_or_all file xs o d len same size below (inr eof) =
    same
    ∙ take_all (length xs) (drop o file) (rw length-drop (omega (arith, size, eof)))
    ∙ sym (take_all len (drop o file) (rw length-drop (omega (arith, below, eof))))

run_checked :
    (file : List ℕ) (c : Config) (out : Outcome) (s : DriverStats) (d n end : ℕ)
    → validate c ≡ ok end
    → with_stats s (verify_chunks (file_range file) c end out.0 out.1 0 0) ≡ accepted d n
    → Verified file c out s d n
run_checked file c out s d n end valid h =
    let (config, sum, fits) = validate_lem c end valid in
    let (accepts, idle, balance) = drained_if_ok s _ d n h in
    let v = verify_chunks-Checked file c end out.0 out.1 0 0 d n accepts in
    let start : c.offset + 0 ≡ c.offset = omega arith in
    let size : d ≡ length (joined out.0) = v.bytes ∙ omega arith in
    let bytes =
      take_or_all file (joined out.0) c.offset d c.length
        (subst (λ (o : ℕ). joined out.0 ≡ take (length (joined out.0)) (drop o file)) start v.same)
        size (let below = v.within (omega (arith, sum)) in omega (arith, below, sum))
        (subst (λ (e : ℕ). (e ≤ c.offset + d) ⊎ (length file ≤ c.offset + d)) sum v.all) in
    record {
      over = v.over;
      contiguous = subst (λ (o : ℕ). Contiguous o out.0) start v.contiguous;
      bytes = bytes;
      counted_bytes =
          size
          ∙ ap length bytes
          ∙ length-take c.length (drop c.offset file)
          ∙ ap (λ (k : ℕ). min c.length k) (length-drop c.offset file);
      counted_chunks = v.number ∙ omega arith;
      idle = idle;
      balance = balance;
    }

run_of :
    (file : List ℕ) (c : Config) (out : Outcome) (s : DriverStats) (d n : ℕ) (v : IoResult ℕ)
    → validate c ≡ v
    → (elim v [
      | err e ↦ some (err e)
      | ok end ↦ with_stats s (verify_chunks (file_range file) c end out.0 out.1 0 0)
    ])
      ≡ accepted d n
    → Verified file c out s d n
run_of file c out s d n (err e) valid h = absurd (cc h)
run_of file c out s d n (ok end) valid h = run_checked file c out s d n end valid h

-- With a reference read that gives what the file holds, whatever the reader delivered and however it
-- ended: when the program reports success, the chunks follow
-- each other from the offset on, and are byte for byte the range of the file, as far as the file goes; the
-- two numbers it reports count those bytes and chunks; the reader had come to its end without an error,
-- and the driver had drained with its counters in balance.
pub run-Verified :
    (file : List ℕ) (c : Config) (out : Outcome) (s : DriverStats) (d n : ℕ)
    → run (file_range file) c out s ≡ accepted d n
    → Verified file c out s d n
unfolding run
run-Verified file c out s d n h = run_of file c out s d n (validate c) refl h
