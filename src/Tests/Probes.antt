-- ===== src/Tests/Probes.antt =====
-- A probe whose completion does not come, and a directory without anonymous files.
use uring.Prelude.{◌≡◌, ◌↔◌, refl, none, some, true, false, [], ◌∷◌}
use uring.Sys.{ok, err, os, eintr}
use uring.Startup.{ProbeWait, drain_probe_cqe}
use uring.Probe.{
  FileAnswers, RingAnswers, Probed, open_probe_file, open_probe_file_exclusive, probe_real_read,
  leaked,
}
use uring.Probe.Safety.{Outcome, probe_real_read-IsSafe}
use uring.Probe.Names.{LeavesName, open_probe_file-LeavesName}

abbrev disk_full : FileAnswers
disk_full = record {
  dir_has_nul = false;
  tmpfile = none;
  tmpfile_written = ok tt;
  path_has_nul = false;
  exclusive = some 5;
  errno = 0;
  written = err (os 28);
  unlinked = true;
}

abbrev last_wait : ProbeWait
last_wait = record { now = 2001; waited = ok 0; cqe = none }

abbrev silent : RingAnswers
silent = record {
  room = true;
  deadline = 2000;
  waits = record { now = 0; waited = err (os eintr); cqe = none } ∷ last_wait ∷ [];
  memory = [];
}

abbrev plain : FileAnswers
plain = record disk_full { tmpfile = some 4 }

probe_real_read-IsSafe_example :
    Outcome silent (open_probe_file plain 0).0.result (probe_real_read plain 0 silent)
probe_real_read-IsSafe_example = probe_real_read-IsSafe plain 0 silent

-- It gave up at the second wait.
silent-leaks :
    (p : Probed) × (probe_real_read plain 0 silent ≡ some p) × (p.buf ≡ leaked) × (p.file ≡ leaked)
unfolding probe_real_read open_probe_file drain_probe_cqe
silent-leaks = (_, refl, refl, refl)

open_probe_file-LeavesName_example :
    ((open_probe_file disk_full 0).0.named ≡ true) ↔ LeavesName disk_full
open_probe_file-LeavesName_example = open_probe_file-LeavesName disk_full 0

left_behind : (open_probe_file disk_full 0).0.named ≡ true
unfolding open_probe_file open_probe_file_exclusive
left_behind = refl
