-- ===== src/Workers.antt =====
-- The parent process of lib/PublicInbox/xap_helper.h: the `worker_pids` array, fork, reaping,
-- resizing by signals, and the two event loops. A read or write of `worker_pids` outside its
-- allocation is `stop faults`. Diagnostics on stderr are left out.
pub mod Spawn
pub mod Reap
pub mod Resize
pub mod Signals
pub mod Tests
use public_inbox.Stderr.{LogFiles, reopen_logs}
use public_inbox.Base.{
  ltb, leb, ◌==◌, if◌then◌else◌, length, get_elem?, set, Run, stop_if, or_fault, ◌>>=◌, ◌>>◌,
  aborts, exits, faults, ok, stop, ℕ, zero, suc, ◌+◌, ◌-◌, Bool, false, not, ◌&&◌, ◌||◌, Option,
  none, some, List, [], ◌∷◌, ◌++◌,
}

pub data Signal : Type 0 where
  sigterm sigusr1 sigchld sigttin sigttou sigother : Signal

-- The file's globals. `pids` is the allocation behind `worker_pids` (0 for a free slot), `forks`
-- counts the calls of fork, `signals` lists the calls of kill, oldest first.
pub record Pool : Type 0 where
  pub nworker : ℕ
  pub nworker_hwm : ℕ
  pub pids : List ℕ
  pub alive : Bool
  pub forks : ℕ
  pub signals : List (Signal × ℕ)
  pub reopened : ℕ

-- The system: the parent's result of the n-th fork (`none` for a failure), whether realloc can
-- give room for n pids, what fresh memory holds,
-- and the logs that reopen_logs opens.
pub record System : Type 0 where
  pub fork : ℕ → Option ℕ
  pub realloc : ℕ → Bool
  pub junk : ℕ
  pub logs : LogFiles

abbrev pub worker_max : ℕ
worker_max = 65535

-- EX_NOINPUT of sysexits.h
abbrev pub ex_noinput : ℕ
ex_noinput = 66

unfoldable pub read_pid : Pool → ℕ → Run ℕ
read_pid p nr = or_fault (get_elem? p.pids nr)

unfoldable pub write_pid : Pool → ℕ → ℕ → Run Pool
write_pid p nr pid =
    if ltb nr (length p.pids) then ok (record p { pids = set p.pids nr pid }) else stop faults

unfoldable pub insert_pid : ℕ → ℕ → Pool → Run Pool
unfolding read_pid write_pid
insert_pid pid nr p = do old ← read_pid p nr; stop_if (not (old == 0)) aborts; write_pid p nr pid

unfoldable pub start_worker : System → ℕ → Pool → Run Pool
unfolding insert_pid
start_worker e nr p =
    let p' = record p { forks = p.forks + 1 } in
    elim (e.fork p.forks) [ none ↦ ok p' | some pid ↦ insert_pid pid nr p' ]

-- `if (!worker_pids[nr]) start_worker(nr);`
unfoldable pub fill_slot : System → ℕ → Pool → Run Pool
unfolding start_worker
fill_slot e nr p = do pid ← read_pid p nr; if pid == 0 then start_worker e nr p else ok p

-- The `for` loop of `start_workers`, with n rounds left.
unfoldable pub fill_slots : System → ℕ → ℕ → Pool → Run Pool
fill_slots e zero nr p = ok p
fill_slots e (suc n) nr p = fill_slot e nr p >>= fill_slots e n (nr + 1)

unfoldable pub start_workers : System → Pool → Run Pool
start_workers e p = fill_slots e p.nworker 0 p

pub data Status : Type 0 where
  exited signaled : ℕ → Status

-- `st != 0`, and `WIFEXITED(st) && WEXITSTATUS(st) == EX_NOINPUT`
abbrev pub is_noinput : Status → Bool
is_noinput (exited c) = c == ex_noinput
is_noinput (signaled s) = false

-- The search loop of `reaped_prefork_worker`, with n rounds left: the slot of `pid`, or the bound.
unfoldable pub find_slot : ℕ → ℕ → ℕ → Pool → Run ℕ
find_slot pid zero nr p = ok nr
find_slot pid (suc n) nr p = do
  q ← read_pid p nr
  let rest = find_slot pid n (nr + 1) p
  if q == pid then ok nr else rest

unfoldable pub reaped_prefork_worker : System → ℕ → Status → Pool → Run Pool
reaped_prefork_worker e pid st p = do
  nr ← find_slot pid p.nworker_hwm 0 p
  if leb p.nworker_hwm nr
      then ok p
      else write_pid p nr 0 >>= λ p'.
          let p'' = record p' { alive = p'.alive && not (is_noinput st) } in
          if p''.alive then start_workers e p'' else ok p''

unfoldable pub reaped_dynfork_worker : Status → Pool → Pool
reaped_dynfork_worker st p = record p { alive = p.alive && not (is_noinput st) }

-- What waitpid(-1, &st, WNOHANG) returns: a child, 0 or ECHILD, EINTR, or another error.
pub data Wait : Type 0 where
  child : ℕ → Status → Wait
  no_child interrupted wait_error : Wait

-- The list holds the results of waitpid in order; past its end no child is ready.
unfoldable pub do_sigchld : System → Bool → List Wait → Pool → Run Pool
do_sigchld e lei [] p = ok p
do_sigchld e lei (child pid st ∷ ws) p =
    (if lei then ok (reaped_dynfork_worker st p) else reaped_prefork_worker e pid st p)
    >>= do_sigchld e lei ws
do_sigchld e lei (no_child ∷ ws) p = ok p
do_sigchld e lei (interrupted ∷ ws) p = do_sigchld e lei ws p
do_sigchld e lei (wait_error ∷ ws) p = stop (exits 1)

-- realloc: the new block has room for exactly n pids, keeps what fits and adds junk.
unfoldable pub resize : ℕ → ℕ → List ℕ → List ℕ
resize junk zero xs = []
resize junk (suc n) [] = junk ∷ resize junk n []
resize junk (suc n) (x ∷ xs) = x ∷ resize junk n xs

-- The state with one more slot, the last one free.
unfoldable pub add_slot : System → Pool → Run Pool
unfolding resize write_pid
add_slot e p = do
  p' ← write_pid (record p { pids = resize e.junk (p.nworker + 1) p.pids }) p.nworker 0
  let n = p.nworker + 1
  ok (record p' { nworker = n; nworker_hwm = if ltb p.nworker_hwm n then n else p.nworker_hwm })

unfoldable pub do_sigttin : System → Pool → Run Pool
do_sigttin e p =
    if not p.alive
    then ok p
    else if leb worker_max p.nworker
    then ok p
    else if not (e.realloc (p.nworker + 1))
    then ok p
    else add_slot e p >>= start_workers e

-- `if (pid != 0) kill(pid, sig);`
abbrev pub note_kill : Signal → ℕ → Pool → Pool
note_kill sig pid p = if pid == 0 then p else record p { signals = p.signals ++ ((sig, pid) ∷ []) }

-- The loop that signals the slots from nr on, with n rounds left.
unfoldable pub kill_slots : Signal → ℕ → ℕ → Pool → Run Pool
kill_slots sig zero nr p = ok p
kill_slots sig (suc n) nr p = do
  pid ← read_pid p nr
  kill_slots sig n (nr + 1) (note_kill sig pid p)

unfoldable pub do_sigttou : Pool → Run Pool
do_sigttou p =
    if not p.alive || leb p.nworker 1
    then ok p
    else kill_slots sigterm (p.nworker_hwm - (p.nworker - 1)) (p.nworker - 1)
        (record p { nworker = p.nworker - 1 })

-- `reopened` counts the calls of reopen_logs that have returned.
unfoldable pub parent_reopen_logs : System → Pool → Run Pool
parent_reopen_logs e p =
    reopen_logs e.logs p.reopened
    >> kill_slots sigusr1 (p.nworker_hwm - p.nworker) p.nworker
        (record p { reopened = p.reopened + 1 })

-- The counting loop, with n rounds left.
unfoldable pub count_living : ℕ → ℕ → ℕ → Pool → Run ℕ
count_living zero nr ret p = ok ret
count_living (suc n) nr ret p = do
  pid ← read_pid p nr
  count_living n (nr + 1) (if pid == 0 then ret else ret + 1) p

unfoldable pub living_workers : Pool → Run ℕ
living_workers p = count_living p.nworker_hwm 0 0 p
