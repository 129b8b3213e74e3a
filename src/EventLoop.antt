-- ===== src/EventLoop.antt =====
-- The parent's signal handler and its two event loops, of lib/PublicInbox/xap_helper.h:
-- sigp, prefork_loop, dynfork_dispatch, dynfork_check_sigs and dynfork_loop. What read, waitpid
-- and poll return is a list of events, in order; a loop over an exhausted list shows the state it
-- waits in.
pub mod Ends
pub mod Safety
pub mod Dynfork
mod Tests
use public_inbox.Stderr.{reopen_logs}
use public_inbox.Base.{
  ◌==◌, if◌then◌else◌, replicate, Run, ◌>>=◌, ◌>>◌, exits, ok, stop, ℕ, ◌+◌, Bool, true, false, not,
  ◌||◌, Option, none, some, List, [], ◌∷◌,
}
use public_inbox.Workers.{
  Pool, living_workers, System, Signal, Wait, do_sigchld, do_sigttou, start_workers, do_sigttin,
  parent_reopen_logs, sigterm, sigusr1, sigchld, sigttin, sigttou, sigother,
}

-- What write(2) to the pipe returns in `sigp`.
pub data Wrote : Type 0 where
  written eagain zero_bytes write_error : Wrote

-- The byte written for a signal; any other signal is a bug.
unfoldable pub signal_byte : Signal → Option ℕ
signal_byte sigchld = some b'.'
signal_byte sigttou = some b'-'
signal_byte sigttin = some b'+'
signal_byte sigusr1 = some b'#'
signal_byte sigterm = none
signal_byte sigother = none

-- The byte that reaches the pipe, if any. EAGAIN drops the signal.
unfoldable pub sigp : Signal → Wrote → Run (Option ℕ)
unfolding signal_byte
sigp sig w = elim (signal_byte sig) [
  | none ↦ stop (exits 1)
  | some c ↦ elim w [
    | written ↦ ok (some c)
    | eagain ↦ ok none
    | zero_bytes ↦ stop (exits 1)
    | write_error ↦ stop (exits 1)
  ]
]

-- What read(2) from the pipe returns; with bytes come the results of the waitpid calls.
pub data Wake : Type 0 where
  read_eintr read_eagain read_error read_eof : Wake
  chunk : List ℕ → List Wait → Wake

-- The `switch` of prefork_loop on one byte.
unfoldable pub control : System → ℕ → Pool → Run Pool
control e c p =
    if c == b'.'
    then ok p
    else if c == b'-'
    then do_sigttou p
    else if c == b'+'
    then do_sigttin e p
    else if c == b'#'
    then parent_reopen_logs e p
    else stop (exits 1)

unfoldable pub controls : System → List ℕ → Pool → Run Pool
controls e [] p = ok p
controls e (c ∷ cs) p = control e c p >>= controls e cs

-- `alive || living_workers()`
unfoldable pub keep_going : Pool → Run Bool
keep_going p = if p.alive then ok true else living_workers p >>= λ n. ok (not (n == 0))

-- The body of prefork_loop's `while`.
unfoldable pub prefork_wake : System → Wake → Pool → Run Pool
prefork_wake e read_eintr p = ok p
prefork_wake e read_eagain p = stop (exits 1)
prefork_wake e read_error p = stop (exits 1)
prefork_wake e read_eof p = stop (exits 1)
prefork_wake e (chunk cs ws) p = do_sigchld e false ws p >>= controls e cs

-- Whether the loop has ended, and the state it ended or waits in.
unfoldable pub prefork_loop : System → List Wake → Pool → Run (Bool × Pool)
prefork_loop e [] p = keep_going p >>= λ more. ok (not more, p)
prefork_loop e (w ∷ ws) p = keep_going p >>= λ more. elim more [
  | true ↦ prefork_wake e w p >>= prefork_loop e ws
  | false ↦ ok (true, p)
]

-- What prefork_loop sets up before its loop, for `-j nworker`.
unfoldable pub prefork_start : System → ℕ → Run Pool
prefork_start e n = start_workers e (record {
  nworker = n;
  nworker_hwm = n;
  pids = replicate n 0;
  alive = true;
  forks = 0;
  signals = [];
  reopened = 0;
})

-- The parent's side of dynfork_dispatch.
unfoldable pub dynfork_dispatch : System → Pool → Run Pool
dynfork_dispatch e p = elim (e.fork p.forks) [
  | none ↦ stop (exits 1)
  | some pid ↦ ok (record p { forks = p.forks + 1 })
]

unfoldable pub dynfork_controls : System → List ℕ → Pool → Run Pool
dynfork_controls e [] p = ok p
dynfork_controls e (c ∷ cs) p =
    (if c == b'.' || c == b'-' || c == b'+'
      then ok p
      else if c == b'#'
      then reopen_logs e.logs p.reopened >> ok (record p { reopened = p.reopened + 1 })
      else stop (exits 1))
    >>= dynfork_controls e cs

unfoldable pub dynfork_check_sigs : System → Wake → Pool → Run Pool
dynfork_check_sigs e read_eintr p = stop (exits 1)
dynfork_check_sigs e read_eagain p = ok p
dynfork_check_sigs e read_error p = stop (exits 1)
dynfork_check_sigs e read_eof p = stop (exits 1)
dynfork_check_sigs e (chunk cs ws) p = do_sigchld e true ws p >>= dynfork_controls e cs

-- What poll(2) returns: an error, or whether the socket is ready and what the pipe then yields.
pub data Poll : Type 0 where
  poll_eintr poll_error : Poll
  ready : Bool → Option Wake → Poll

unfoldable pub dynfork_wake : System → Poll → Pool → Run Pool
dynfork_wake e poll_eintr p = ok p
dynfork_wake e poll_error p = stop (exits 1)
dynfork_wake e (ready sock pipe) p = do
  p' ← if sock then dynfork_dispatch e p else ok p
  elim pipe [ none ↦ ok p' | some w ↦ dynfork_check_sigs e w p' ]

unfoldable pub dynfork_loop : System → List Poll → Pool → Run (Bool × Pool)
dynfork_loop e [] p = ok (not p.alive, p)
dynfork_loop e (x ∷ xs) p = elim p.alive [
  | true ↦ dynfork_wake e x p >>= dynfork_loop e xs
  | false ↦ ok (true, p)
]
