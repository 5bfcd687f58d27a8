-- ===== src/Probe/Names.antt =====
-- What the probe leaves in the directory.
use uring.Prelude.{
  ℕ, ◌≡◌, ◌≢◌, refl, true, false, not, ◌⊎◌, inl, inr, ◌↔◌, Option, none, some, arith, Option-cases,
  Bool-cases,
}
use uring.Sys.{IoResult, ok, err, IoResult-cases}
use uring.Probe.{FileAnswers, seeded, created, open_probe_file, open_probe_file_exclusive}

-- The named file was created, and its write fails or its unlink does.
abbrev pub LeavesName : FileAnswers → Type 0
LeavesName f =
    (f.dir_has_nul ≡ false)
    × (f.tmpfile ≡ none)
    × (f.path_has_nul ≡ false)
    × ((fd : ℕ) × (f.exclusive ≡ some fd))
    × ((f.written ≢ ok tt) ⊎ (f.unlinked ≡ false))

Unfinished : FileAnswers → Type 0
Unfinished f = (f.written ≢ ok tt) ⊎ (f.unlinked ≡ false)

seeded-named :
    (f : FileAnswers) (fd : ℕ)
    → ((seeded fd f.written true (not f.unlinked)).named ≡ true) ↔ Unfinished f
unfolding Unfinished
seeded-named f fd = elim (IoResult-cases f.written) [
  | inl (u, fine) ↦
      rw (fine, seeded)
        (
          (λ h. inr (ground arith)),
          (λ h. elim h [ inl bad ↦ absurd (bad refl) | inr stays ↦ rw stays refl ]),
        )
  | inr (e, bad) ↦ rw (bad, seeded) ((λ h. inl (λ fine. absurd (cc fine))), (λ h. refl))
]

created-named :
    (f : FileAnswers) (o : Option ℕ)
    → ((created f o).named ≡ true) ↔ (((fd : ℕ) × (o ≡ some fd)) × Unfinished f)
created-named f none = ((λ h. absurd (cc h)), (λ h. absurd (cc h.0.1)))
created-named f (some fd) =
    ((λ h. ((fd, refl), (seeded-named f fd).0 h)), (λ h. (seeded-named f fd).1 h.1))

seeded-unnamed : (fd : ℕ) (r : IoResult (Unit {0})) → ¬ ((seeded fd r false false).named ≡ true)
seeded-unnamed fd (ok u) h = cc h
seeded-unnamed fd (err e) h = cc h

-- Opening the probe's file leaves a name in the directory in one case alone: there is no anonymous file
-- to be had, the named one was created, and its write fails, after which it is not unlinked, or the
-- unlink itself does.
pub open_probe_file-LeavesName :
    (f : FileAnswers) (seq : ℕ) → ((open_probe_file f seq).0.named ≡ true) ↔ LeavesName f
unfolding open_probe_file open_probe_file_exclusive Unfinished
open_probe_file-LeavesName f seq = elim (Bool-cases f.dir_has_nul) [
  | inl nul ↦ simp nul ((λ h. absurd (cc h)), (λ h. absurd (cc h.0)))
  | inr dir ↦ elim (Option-cases f.tmpfile) [
    | inr (fd, anon) ↦
        simp (dir, anon)
          ((λ h. absurd (seeded-unnamed fd f.tmpfile_written h)), (λ h. absurd (cc h.1)))
    | inl no_tmp ↦ elim (Bool-cases f.path_has_nul) [
      | inl nul ↦ simp (dir, no_tmp, nul) ((λ h. absurd (cc h)), (λ h. absurd (cc h.2)))
      | inr path ↦
          let (to, from) = created-named f f.exclusive in
          simp (dir, no_tmp, path)
            ((λ h. (refl, refl, refl, (to h).0, (to h).1)), (λ h. from (h.3, h.4)))
    ]
  ]
]
