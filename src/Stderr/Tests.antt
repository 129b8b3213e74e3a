-- ===== src/Stderr/Tests.antt =====
-- Descriptor 2 is a terminal's, 5 a copy of it, and 9 a request's; and two paths for logs.
use public_inbox.Stderr.{Std, stderr_set, stderr_restore, reopen_log, reopen_logs, LogFiles}
use public_inbox.Stderr.Restoring.{warns_to, interrupts, Same, stderr_restore-stderr_set}
use public_inbox.Stderr.Logs.{logs_work, LogsWork}
use public_inbox.Base.{◌==◌, if◌then◌else◌, ok, ◌≡◌, refl, true, false, none, some, [], ◌∷◌, arith}

abbrev std : Std
std = record {
  assignable = false;
  stderr = 0;
  orig_err = 0;
  orig_err_fd = 5;
  files = λ k. if k == 9 then 70 else 30;
}

stderr_restore-stderr_set_example :
    (r t : Std) × (stderr_set 1 (some 9) (interrupts 2) std ≡ ok (some r))
    × (warns_to r ≡ 70)
    × (stderr_restore true (interrupts 1) r ≡ ok (some t))
    × Same std t
stderr_restore-stderr_set_example =
    stderr_restore-stderr_set 1 9 2 1 std
      (record { variable = refl; other = omega arith; copy = refl })

-- An empty path is left alone.
abbrev pub log_files : LogFiles
log_files = record {
  stdout_path = some [];
  stderr_path = some (b'e' ∷ []);
  freopen = λ n path. true;
  linebuf = λ n. true;
}

reopened_run : reopen_logs log_files 0 ≡ ok (none, some (b'e' ∷ []))
unfolding reopen_logs reopen_log
reopened_run = refl

pub log_files-LogsWork : LogsWork log_files
unfolding logs_work
log_files-LogsWork n = refl
