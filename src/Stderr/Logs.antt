-- ===== src/Stderr/Logs.antt =====
-- When reopen_logs of lib/PublicInbox/xap_helper.h returns.
use public_inbox.Stderr.{LogFiles, reopen_log, reopen_logs}
use public_inbox.Base.{
  if◌then◌else◌, exits, ok, stop, ℕ, ◌≡◌, refl, Bool, true, false, not, ◌&&◌, ◌||◌, Option, none,
  some, [], ◌∷◌, arith,
}
use public_inbox.Args.{Bytes}

-- A path that is set and not empty.
abbrev pub named : Option Bytes → Bool
named (some (b ∷ path)) = true
named _ = false

abbrev pub path_of : Option Bytes → Bytes
path_of (some path) = path
path_of none = []

-- At the n-th call each log that has a name can be opened, and stderr be set to lines.
unfoldable pub logs_work : LogFiles → ℕ → Bool
logs_work l n =
    (not (named l.stdout_path) || l.freopen n (path_of l.stdout_path))
    && (not (named l.stderr_path) || (l.freopen n (path_of l.stderr_path) && l.linebuf n))

abbrev pub LogsWork : LogFiles → Type 0
LogsWork l = (n : ℕ) → logs_work l n ≡ true

-- Some call fails.
abbrev pub LogsFail : LogFiles → Type 0
LogsFail l = (n : ℕ) × (logs_work l n ≡ false)

pub reopen_log-named :
    (f : Bytes → Bool) (p : Option Bytes)
    → reopen_log f p ≡ (
        if not (named p) || f (path_of p)
        then ok (if named p then some (path_of p) else none)
        else stop (exits 1))
unfolding reopen_log
reopen_log-named f none = refl
reopen_log-named f (some []) = refl
reopen_log-named f (some (b ∷ path)) = ground arith

-- reopen_logs returns where each log with a name can be reopened, and ends the process with 1 where
-- one cannot.
pub reopen_logs-logs_work :
    (l : LogFiles) (n : ℕ)
    → reopen_logs l n ≡ (
        if logs_work l n
        then ok (
          if named l.stdout_path then some (path_of l.stdout_path) else none,
          if named l.stderr_path then some (path_of l.stderr_path) else none,
        )
        else stop (exits 1))
unfolding reopen_logs logs_work
reopen_logs-logs_work l n = ground (
  arith,
  reopen_log-named (l.freopen n) l.stdout_path,
  reopen_log-named (l.freopen n) l.stderr_path,
)
