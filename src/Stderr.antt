-- ===== src/Stderr.antt =====
-- stderr_set, stderr_restore and reopen_logs of lib/PublicInbox/xap_helper.h: while a request is
-- served, warnings go to its second stream. Where stderr can be assigned to, the variable is set;
-- elsewhere descriptor 2 is. The results of dup2 are a list, in order; whether fflush, freopen and
-- setvbuf work are parameters.
pub mod Restoring
pub mod Logs
pub mod Tests
use public_inbox.Base.{
  ◌==◌, if◌then◌else◌, Run, stop_if, ◌>>=◌, ◌>>◌, exits, ok, stop, ℕ, Bool, true, false, not,
  Option, none, some, List, [], ◌∷◌,
}
use public_inbox.Args.{Bytes}

-- STDERR_ASSIGNABLE; the streams that stderr and orig_err are; orig_err_fd; and the open file behind
-- each descriptor.
pub record Std : Type 0 where
  pub assignable : Bool
  pub stderr : ℕ
  pub orig_err : ℕ
  pub orig_err_fd : ℕ
  pub files : ℕ → ℕ

pub data Dup2 : Type 0 where
  dup_eintr dup_done dup_error : Dup2

-- STDERR_FILENO
abbrev pub stderr_fileno : ℕ
stderr_fileno = 2

-- `while (dup2(fd, STDERR_FILENO) < 0)`; `none` is a loop that still runs.
unfoldable pub dup2_loop : List Dup2 → ℕ → Std → Run (Option Std)
dup2_loop [] fd s = ok none
dup2_loop (dup_eintr ∷ ds) fd s = dup2_loop ds fd s
dup2_loop (dup_error ∷ ds) fd s = stop (exits 1)
dup2_loop (dup_done ∷ ds) fd s =
    ok (some (record s { files = λ k. if k == stderr_fileno then s.files fd else s.files k }))

-- For the stream `tmp_err` with its descriptor, if fileno has one.
unfoldable pub stderr_set : ℕ → Option ℕ → List Dup2 → Std → Run (Option Std)
unfolding dup2_loop
stderr_set tmp_err fileno ds s = elim s.assignable [
  | true ↦ ok (some (record s { stderr = tmp_err }))
  | false ↦ elim fileno [ none ↦ stop (exits 1) | some fd ↦ dup2_loop ds fd s ]
]

unfoldable pub stderr_restore : Bool → List Dup2 → Std → Run (Option Std)
unfolding dup2_loop
stderr_restore flushes ds s = elim s.assignable [
  | true ↦ ok (some (record s { stderr = s.orig_err }))
  | false ↦ stop_if (not flushes) (exits 1) >> dup2_loop ds s.orig_err_fd s
]

-- `path && *path && !freopen(path, "a", stream)`: the path that the stream is reopened with.
unfoldable pub reopen_log : (Bytes → Bool) → Option Bytes → Run (Option Bytes)
reopen_log freopen none = ok none
reopen_log freopen (some []) = ok none
reopen_log freopen (some (b ∷ path)) =
    if freopen (b ∷ path) then ok (some (b ∷ path)) else stop (exits 1)

-- The paths of the logs in the environment, and for the n-th call of reopen_logs whether freopen with
-- a path and setvbuf work.
pub record LogFiles : Type 0 where
  pub stdout_path : Option Bytes
  pub stderr_path : Option Bytes
  pub freopen : ℕ → Bytes → Bool
  pub linebuf : ℕ → Bool

-- The n-th call.
unfoldable pub reopen_logs : LogFiles → ℕ → Run (Option Bytes × Option Bytes)
unfolding reopen_log
reopen_logs l n = reopen_log (l.freopen n) l.stdout_path >>= λ out.
    reopen_log (l.freopen n) l.stderr_path >>= λ err. elim err [
      | none ↦ ok (out, none)
      | some path ↦ if l.linebuf n then ok (out, some path) else stop (exits 1)
    ]
