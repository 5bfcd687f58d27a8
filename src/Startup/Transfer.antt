-- ===== src/Startup/Transfer.antt =====
-- The loops of `eventfd_transfer` and `drain_probe_cqe`.
use uring.Prelude.{
  ℕ, zero, suc, ◌≤◌, ◌≡◌, ◌≢◌, refl, ◌⊎◌, inl, inr, true, false, ◌||◌, ◌==◌, Option, none, some,
  List, [], ◌∷◌, ◌++◌, arith, leb, replicate, Bool-cases,
}
use uring.Prelude.Int.{ℤ}
use uring.Sys.{os, custom, other, IoResult, ok, err, errno_is, eintr, eagain, etime}
use uring.Startup.{eventfd_transfer, ProbeWait, taken, after_wait, drain_probe_cqe}

abbrev pub interrupted : IoResult ℕ
interrupted = err (os eintr)

-- What a syscall result means for the transfer.
abbrev pub Means : IoResult ℕ → IoResult (Unit {0}) → Type 0
Means (ok n) r = ((n ≡ 8) × (r ≡ ok tt)) ⊎ ((n ≢ 8) × ¬ (r ≡ ok tt))
Means (err e) r =
    ((errno_is e eagain ≡ true) × (r ≡ ok tt)) ⊎ ((errno_is e eagain ≡ false) × (r ≡ err e))

abbrev pub IsLast : IoResult ℕ → Type 0
IsLast (ok n) = Unit {0}
IsLast (err e) = errno_is e eintr ≡ false

-- However often it is interrupted, the transfer ends with the first other result: eight bytes and a
-- counter that would block are a success, any other count and any other error are failures.
pub eventfd_transfer-ends :
    (n : ℕ) (r : IoResult ℕ) (rest : List (IoResult ℕ))
    → IsLast r
    → (x : IoResult (Unit {0})) × (eventfd_transfer (replicate n interrupted ++ r ∷ rest) ≡ some x)
      × Means r x
unfolding eventfd_transfer
eventfd_transfer-ends zero (ok n) rest l = elim (Bool-cases (n == 8)) [
  | inl eight ↦ simp eight (ok tt, refl, inl (ground arith, refl))
  | inr differs ↦ simp differs (
    err (custom other "eventfd transferred an unexpected byte count"),
    refl,
    inr ((λ h. ground arith), λ e. ground arith),
  )
]
eventfd_transfer-ends zero (err e) rest l = elim (Bool-cases (errno_is e eagain)) [
  | inl again ↦ simp (l, again) (ok tt, refl, inl (refl, refl))
  | inr hard ↦ simp (l, hard) (err e, refl, inr (refl, refl))
]
eventfd_transfer-ends (suc n) r rest l = eventfd_transfer-ends n r rest l

abbrev timed_out : IoResult ℤ
timed_out = err (custom other "probe: no CQE within the bounded wait")

taken-some :
    (cqe : Option ℤ) (again : Option (IoResult ℤ)) (x : IoResult ℤ)
    → again ≡ some x
    → (r : IoResult ℤ) × (taken cqe again ≡ some r)
taken-some none again x e = (x, e)
taken-some (some result) again x e = (ok result, refl)

after_wait-some :
    (waited : IoResult ℕ) (cqe : Option ℤ) (again : Option (IoResult ℤ)) (x : IoResult ℤ)
    → again ≡ some x
    → (r : IoResult ℤ) × (after_wait waited cqe again ≡ some r)
after_wait-some (ok n) cqe again x e = taken-some cqe again x e
after_wait-some (err y) cqe again x e = elim (Bool-cases (errno_is y eintr || errno_is y etime)) [
  | inl waits ↦ simp waits (taken-some cqe again x e)
  | inr fails ↦ (err y, simp fails)
]

-- The wait for the probe is bounded: if one of its turns starts at or after the deadline, there
-- is a result.
pub drain_probe_cqe-bounded :
    (deadline : ℕ) (before : List ProbeWait) (w : ProbeWait) (rest : List ProbeWait)
    → deadline ≤ w.now
    → (r : IoResult ℤ) × (drain_probe_cqe deadline (before ++ w ∷ rest) ≡ some r)
unfolding drain_probe_cqe
drain_probe_cqe-bounded deadline [] w rest h =
    let late : leb deadline w.now ≡ true = ground arith in (timed_out, simp late)
drain_probe_cqe-bounded deadline (b ∷ before) w rest h =
    let (r, e) = drain_probe_cqe-bounded deadline before w rest h in
    elim (Bool-cases (leb deadline b.now)) [
      | inl late ↦ (timed_out, simp late)
      | inr early ↦
          let (x, ex) =
            after_wait-some b.waited b.cqe (drain_probe_cqe deadline (before ++ w ∷ rest)) r e in
          (x, simp (early, ex))
    ]
