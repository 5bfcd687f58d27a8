-- ===== src/Probe/Waits.antt =====
-- What the waits of the probe say of its completion.
use uring.Prelude.{
  ℕ, ◌≤◌, ◌<◌, ◌≡◌, refl, ap, subst, sym, ◌⊎◌, false, ◌||◌, inl, inr, Option, none, some, List, [],
  ◌∷◌, ◌++◌, arith, leb, All, if-elim,
}
use uring.Prelude.Int.{ℤ}
use uring.Sys.{IoResult, ok, err, errno_is, eintr, etime}
use uring.Startup.{ProbeWait, taken, after_wait, drain_probe_cqe}

abbrev pub IsEmpty : ProbeWait → Type 0
IsEmpty w = w.cqe ≡ none

-- A wait that failed, neither interrupted nor timed out.
abbrev pub IsHardWait : IoResult ℕ → Type 0
IsHardWait (ok n) = ⊥
IsHardWait (err e) = (errno_is e eintr ≡ false) × (errno_is e etime ≡ false)

module _ (deadline : ℕ) where
  -- The completion is there, with `x`, after a wait that started before the deadline, and was not before.
  abbrev pub Completes : List ProbeWait → ℤ → Type 0
  Completes waits x =
      (before : List ProbeWait) × (w : ProbeWait) × (rest : List ProbeWait) × (waits
        ≡ before ++ w ∷ rest)
      × All IsEmpty before
      × (w.now < deadline)
      × (w.cqe ≡ some x)

  -- The deadline has come, or a wait has failed, and no wait before has shown a completion.
  abbrev pub GivesUp : List ProbeWait → Type 0
  GivesUp waits =
      (before : List ProbeWait) × (w : ProbeWait) × (rest : List ProbeWait) × (waits
        ≡ before ++ w ∷ rest)
      × All IsEmpty before
      × ((deadline ≤ w.now) ⊎ IsHardWait w.waited)

  -- A wait after which there is another.
  abbrev pub Passes : ProbeWait → Type 0
  Passes w = (w.now < deadline) × IsEmpty w

  abbrev pub Meaning : List ProbeWait → Option (IoResult ℤ) → Type 0
  Meaning waits none = All Passes waits
  Meaning waits (some (ok x)) = Completes waits x
  Meaning waits (some (err e)) = GivesUp waits

  later :
      (w : ProbeWait) (rest : List ProbeWait) (r : Option (IoResult ℤ))
      → w.now < deadline
      → IsEmpty w
      → Meaning rest r
      → Meaning (w ∷ rest) r
  later w rest none early empty m = ((early, empty), m)
  later w rest (some (ok x)) early empty (before, v, after, split, quiet, soon, there) = (
    w ∷ before,
    v,
    after,
    ap (λ (ws : List ProbeWait). w ∷ ws) split,
    (empty, quiet),
    soon,
    there,
  )
  later w rest (some (err e)) early empty (before, v, after, split, quiet, why) =
      (w ∷ before, v, after, ap (λ (ws : List ProbeWait). w ∷ ws) split, (empty, quiet), why)

  taken-Meaning :
      (w : ProbeWait) (rest : List ProbeWait) (r : Option (IoResult ℤ)) (cqe : Option ℤ)
      → w.cqe ≡ cqe
      → w.now < deadline
      → Meaning rest r
      → Meaning (w ∷ rest) (taken cqe r)
  taken-Meaning w rest r none empty early m = later w rest r early empty m
  taken-Meaning w rest r (some x) there early m = ([], w, rest, refl, tt, early, there)

  after_wait-Meaning :
      (w : ProbeWait) (rest : List ProbeWait) (r : Option (IoResult ℤ)) (waited : IoResult ℕ)
      → w.waited ≡ waited
      → w.now < deadline
      → Meaning rest r
      → Meaning (w ∷ rest) (after_wait waited w.cqe r)
  after_wait-Meaning w rest r (ok n) is early m = taken-Meaning w rest r w.cqe refl early m
  after_wait-Meaning w rest r (err e) is early m =
      if-elim {A = Option (IoResult ℤ)} (Meaning (w ∷ rest)) (errno_is e eintr || errno_is e etime)
        _ _ (λ again. taken-Meaning w rest r w.cqe refl early m)
        (λ hard. (
          [],
          w,
          rest,
          refl,
          tt,
          inr (subst IsHardWait (sym is) (ground (arith, hard), ground (arith, hard))),
        ))

  pub drain_probe_cqe-Meaning :
      (waits : List ProbeWait) → Meaning waits (drain_probe_cqe deadline waits)
  unfolding drain_probe_cqe
  drain_probe_cqe-Meaning [] = tt
  drain_probe_cqe-Meaning (w ∷ rest) =
      if-elim {A = Option (IoResult ℤ)} (Meaning (w ∷ rest)) (leb deadline w.now) _ _
        (λ late. ([], w, rest, refl, tt, inl (ground (arith, late))))
        (λ early.
          after_wait-Meaning w rest (drain_probe_cqe deadline rest) w.waited refl
            (ground (arith, early)) (drain_probe_cqe-Meaning rest))
