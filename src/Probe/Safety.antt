-- ===== src/Probe/Safety.antt =====
-- What a probe that returns has done.
use uring.Prelude.{
  ℕ, ◌≡◌, refl, ap, subst, Bool, true, false, not, ◌||◌, ◌==◌, inl, inr, some, List, [], ◌∷◌, arith,
  length, if◌then◌else◌, Option, none, ◌⊎◌, All, if-elim,
}
use uring.Prelude.Int.{ℤ, pos, negsuc}
use uring.Sys.{IoError, IoResult, ok, err}
use uring.Startup.{drain_probe_cqe}
use uring.Probe.Waits.{Completes, GivesUp, Passes, Meaning, drain_probe_cqe-Meaning}
use uring.Probe.{
  pattern, pattern_from, FileAnswers, open_probe_file, Fate, not_made, dropped, leaked, drain,
  Probed, same_bytes, judge, drained_to, RingAnswers, probe_opened, probe_real_read,
}

pub same_bytes-eq : (xs ys : List ℕ) → same_bytes xs ys ≡ true → xs ≡ ys
same_bytes-eq [] [] h = refl
same_bytes-eq [] (y ∷ ys) h = cc h
same_bytes-eq (x ∷ xs) [] h = cc h
same_bytes-eq (x ∷ xs) (y ∷ ys) h = ground (arith, same_bytes-eq xs ys)

abbrev pub IsError : IoResult ℕ → Type 0
IsError (ok fd) = ⊥
IsError (err e) = Unit

-- Why the buffer is what it is: no file to read; freed, as the read never went to the kernel, or its
-- completion was taken; leaked, as the read went to the kernel, and the probe gave up before any
-- completion was taken.
abbrev pub Fated : RingAnswers → IoResult ℕ → Fate → Type 0
Fated r o not_made = IsError o
Fated r o dropped = (r.room ≡ false) ⊎ ((x : ℤ) × Completes r.deadline r.waits x)
Fated r o leaked = (r.room ≡ true) × GivesUp r.deadline r.waits

-- What holds of a probe that has returned.
pub record IsSafe (r : RingAnswers) (o : IoResult ℕ) (p : Probed) : Type 0 where
  pub together : p.file ≡ p.buf
  pub fated : Fated r o p.buf
  pub sound :
      p.result ≡ ok tt
      → (p.buf ≡ dropped) × Completes r.deadline r.waits (pos 512) × (r.memory ≡ pattern)

-- It has returned, or it waits: the read is the kernel's, no wait has shown a completion, and none
-- started at or after the deadline.
abbrev pub Outcome : RingAnswers → IoResult ℕ → Option Probed → Type 0
Outcome r o none = (r.room ≡ true) × All (Passes r.deadline) r.waits
Outcome r o (some p) = IsSafe r o p

length-pattern : length pattern ≡ 512
unfolding pattern pattern_from
length-pattern = refl

abbrev done : IoResult (Unit {0})
done = ok tt

passed :
    (a b : Bool) (e : IoError)
    → (if not a || not b then err e else ok tt) ≡ done
    → (a ≡ true) × (b ≡ true)
passed true true e h = (refl, refl)
passed true false e h = absurd (cc h)
passed false b e h = absurd (cc h)

judge-ok : (res : ℤ) (buf : List ℕ) → judge res buf ≡ ok tt → (res ≡ pos 512) × (buf ≡ pattern)
judge-ok (negsuc n) buf h = absurd (cc h)
judge-ok (pos n) buf h =
    let (size, bytes) = passed (n == length pattern) (same_bytes buf pattern) _ h in
    (ap pos (ground (arith, size, length-pattern)), same_bytes-eq buf pattern bytes)

drained-IsSafe :
    (r : RingAnswers) (o : IoResult ℕ) (x : IoResult ℤ)
    → r.room ≡ true
    → Meaning r.deadline r.waits (some x)
    → IsSafe r o (drained_to r.memory x)
drained-IsSafe r o (err e) room m = record {
  together = refl;
  fated = (room, m);
  sound = λ h. absurd (cc h);
}
drained-IsSafe r o (ok res) room m = record {
  together = refl;
  fated = inr (res, m);
  sound = λ h.
      let (size, same) = judge-ok res r.memory h in
      (refl, subst (Completes r.deadline r.waits) size m, same);
}

drain-Outcome :
    (r : RingAnswers) (o : IoResult ℕ) (d : Option (IoResult ℤ))
    → r.room ≡ true
    → Meaning r.deadline r.waits d
    → Outcome r o (drain r d)
drain-Outcome r o none room m = (room, m)
drain-Outcome r o (some x) room m = drained-IsSafe r o x room m

opened-Outcome : (r : RingAnswers) (o : IoResult ℕ) → Outcome r o (probe_opened r o)
opened-Outcome r (err e) = record { together = refl; fated = tt; sound = λ h. absurd (cc h) }
opened-Outcome r (ok fd) =
    if-elim {A = Option Probed} (Outcome r (ok fd)) (not r.room) _ _
      (λ no_room. record {
        together = refl;
        fated = inl (ground (arith, no_room));
        sound = λ h. absurd (cc h);
      })
      (λ room.
        drain-Outcome r (ok fd) (drain_probe_cqe r.deadline r.waits) (ground (arith, room))
          (drain_probe_cqe-Meaning r.deadline r.waits))

-- A probe that was given these answers has returned, or it still waits, which it does only as long as the
-- read is the kernel's, every wait started before the deadline, and none showed a completion. When it
-- returns, the buffer and the file have the same fate. They are freed only if the read never went to the
-- kernel, for want of room, or if its completion was there after a wait that started before the deadline;
-- they are leaked only if the read went to the kernel and the deadline came, or a wait failed, before a
-- completion was taken; without a file there is neither. The probe reports success only if the completion
-- counts 512 bytes and the buffer holds the pattern.
pub probe_real_read-IsSafe :
    (f : FileAnswers) (seq : ℕ) (r : RingAnswers)
    → Outcome r (open_probe_file f seq).0.result (probe_real_read f seq r)
unfolding probe_real_read
probe_real_read-IsSafe f seq r = opened-Outcome r (open_probe_file f seq).0.result
