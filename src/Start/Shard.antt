-- ===== src/Start/Shard.antt =====
-- The outcomes of one shard's start.
use uring.Prelude.{
  ℕ, ◌≡◌, refl, ap, sym, ◌∙◌, Bool, true, false, ◌⊎◌, inl, inr, Option, if◌then◌else◌,
}
use uring.Sys.{IoError, os, IoResult, ok, err, enosys}
use uring.Closing.{ByteAdmission}
use uring.Startup.{ProbeFailure, setup, read_op}
use uring.Start.{◌>>◌, Try, up, down, or_fail, when, ShardAnswers, NewShard, open_ring, start_shard}

pub Try-cases :
    {A : Type 0} (t : Try A) → ((a : A) × (t ≡ up a)) ⊎ ((f : ProbeFailure) × (t ≡ down f))
Try-cases (up a) = inl (a, refl)
Try-cases (down f) = inr (f, refl)

-- A failure of the read itself is that of the probe.
or_fail-setup : (r : IoResult (Unit {0})) (e : IoError) → ¬ (or_fail setup r ≡ down (read_op e))
or_fail-setup (ok u) e h = cc h
or_fail-setup (err x) e h = cc h

past_setup :
    (r : IoResult (Unit {0})) (k : Try (Unit {0})) (e : IoError)
    → (or_fail setup r >> k) ≡ down (read_op e)
    → k ≡ down (read_op e)
past_setup (ok u) k e h = h
past_setup (err x) k e h = absurd (cc h)

past_nodrop :
    (b : Bool) (k : Try (Unit {0})) (e : IoError)
    → ((if b then up tt else down (setup (os enosys))) >> k) ≡ down (read_op e)
    → k ≡ down (read_op e)
past_nodrop true k e h = h
past_nodrop false k e h = absurd (cc h)

past_probe :
    (probe : Bool) (r : IoResult (Unit {0})) (k : Try (Unit {0})) (e : IoError)
    → (when probe (or_fail read_op r) >> k) ≡ down (read_op e)
    → ((probe ≡ true) × (r ≡ err e)) ⊎ (k ≡ down (read_op e))
past_probe true (ok u) k e h = inr h
past_probe true (err x) k e h = inl (refl, cc h)
past_probe false r k e h = inr h

open_ring-read_op :
    (a : ShardAnswers) (probe : Bool) (e : IoError)
    → open_ring a probe ≡ down (read_op e)
    → (probe ≡ true) × (a.probe ≡ err e)
unfolding open_ring
open_ring-read_op a probe e h =
    elim (past_probe probe a.probe _ e (past_nodrop a.nodrop _ e (past_setup a.ring _ e h))) [
      | inl found ↦ found
      | inr later ↦
          absurd (
            or_fail-setup a.wake_efd e
              (past_setup a.registered _ e (past_setup a.cq_efd _ e later)))
    ]

same_failure : (f g : ProbeFailure) → ◌≡◌ {A = Try NewShard} (down f) (down g) → f ≡ g
same_failure f g h = cc h

spawned-read_op :
    (r : IoResult (Unit {0})) (s : NewShard) (e : IoError)
    → ¬ ((or_fail setup r >> up s) ≡ down (read_op e))
spawned-read_op (ok u) s e h = cc h
spawned-read_op (err x) s e h = cc h

spawned-up :
    (r : IoResult (Unit {0})) (s s' : NewShard) → (or_fail setup r >> up s) ≡ up s' → s ≡ s'
spawned-up (ok u) s s' h = cc h
spawned-up (err x) s s' h = absurd (cc h)

pub start_shard-read_op :
    (entries i : ℕ) (probe : Bool) (a : ShardAnswers) (adm : Option ByteAdmission) (e : IoError)
    → (start_shard entries i probe a adm).0 ≡ down (read_op e)
    → (probe ≡ true) × (a.probe ≡ err e)
unfolding start_shard
start_shard-read_op entries i probe a adm e h = elim (Try-cases (open_ring a probe)) [
  | inr (f, fails) ↦ open_ring-read_op a probe e (
      fails
      ∙ ap (λ (f : ProbeFailure). down f)
          (same_failure f (read_op e) (rw (fails, start_shard) at h)))
  | inl (u, fine) ↦ absurd (spawned-read_op a.spawned _ e (rw (fine, start_shard) at h))
]

pub start_shard-up :
    (entries i : ℕ) (probe : Bool) (a : ShardAnswers) (adm : Option ByteAdmission) (s : NewShard)
    → (start_shard entries i probe a adm).0 ≡ up s
    → (s.sem ≡ i) × (s.permits ≡ entries)
unfolding start_shard
start_shard-up entries i probe a adm s h = elim (Try-cases (open_ring a probe)) [
  | inr (f, fails) ↦ absurd (cc (rw (fails, start_shard) at h))
  | inl (u, fine) ↦
      let same = spawned-up a.spawned _ s (rw (fine, start_shard) at h) in
      (ap (λ (s : NewShard). s.sem) (sym same), ap (λ (s : NewShard). s.permits) (sym same))
]
