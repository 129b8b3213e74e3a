-- ===== src/Workers/Signals.antt =====
-- Whom do_sigttou and parent_reopen_logs signal.
use public_inbox.Workers.Reap.{IsValid}
use public_inbox.Stderr.Logs.{logs_work, reopen_logs-logs_work}
use public_inbox.Base.{
  ltb, ◌==◌, if◌then◌else◌, length, get_elem?, drop, get_elem?_lt, exits, ok, stop, ℕ, zero, suc,
  ◌+◌, ◌-◌, ◌≤◌, ◌≡◌, refl, ◌∙◌, true, ◌&&◌, some, List, [], ◌∷◌, ◌++◌, append-nil, append_assoc,
  arith,
}
use public_inbox.Workers.{
  Pool, do_sigttou, kill_slots, parent_reopen_logs, Signal, read_pid, note_kill, sigusr1, sigterm,
  System,
}

-- The calls of kill for an array's slots: one for each slot that is not free.
unfoldable pub kills : Signal → List ℕ → List (Signal × ℕ)
kills sig [] = []
kills sig (pid ∷ pids) = if pid == 0 then kills sig pids else (sig, pid) ∷ kills sig pids

pub drop_get : (xs : List ℕ) (i v : ℕ) → get_elem? xs i ≡ some v → drop i xs ≡ v ∷ drop (i + 1) xs
drop_get [] i v e = cc
drop_get (x ∷ xs) zero v e = ground arith
drop_get (x ∷ xs) (suc i) v e =
    let s : suc i + 1 ≡ suc (i + 1) = omega arith in rw s (drop_get xs i v e)

pub drop_all : (xs : List ℕ) (i : ℕ) → length xs ≤ i → drop i xs ≡ []
drop_all [] zero h = refl
drop_all [] (suc i) h = refl
drop_all (x ∷ xs) zero h = absurd (omega arith)
drop_all (x ∷ xs) (suc i) h = drop_all xs i (omega arith)

kill_slots_lem :
    (sig : Signal) (n nr : ℕ) (p : Pool)
    → nr + n ≡ length p.pids
    → kill_slots sig n nr p ≡ ok (record p { signals = p.signals ++ kills sig (drop nr p.pids) })
unfolding kill_slots read_pid kills
kill_slots_lem sig zero nr p h = rw (drop_all p.pids nr (omega arith), append-nil)
kill_slots_lem sig (suc n) nr p h =
    let (v, a) = get_elem?_lt p.pids nr (omega arith) in
    rw (drop_get p.pids nr v a) (
      ground (
        arith,
        a,
        kill_slots_lem sig n (nr + 1) (note_kill sig v p),
        append_assoc p.signals ((sig, v) ∷ []) (kills sig (drop (nr + 1) p.pids)),
      ))

-- SIGTTOU in a valid pool: with one worker or none, or a pool that has ended, nothing happens;
-- otherwise nworker falls by one and SIGTERM goes to exactly the recorded workers of the slots
-- from the new nworker on, and the array is as it was.
pub do_sigttou_lem :
    (p : Pool)
    → IsValid p
    → do_sigttou p
      ≡ ok (
          if p.alive && ltb 1 p.nworker
          then record p {
            nworker = p.nworker - 1;
            signals = p.signals ++ kills sigterm (drop (p.nworker - 1) p.pids);
          }
          else p)
unfolding do_sigttou
do_sigttou_lem p v = ground (
  arith,
  kill_slots_lem sigterm (p.nworker_hwm - (p.nworker - 1)) (p.nworker - 1)
      (record p { nworker = p.nworker - 1 }),
  v.sized,
  v.within,
)

-- SIGUSR1 in a valid pool: where a log that is named cannot be reopened the process ends with 1;
-- otherwise the signal is passed on to exactly the recorded workers of the slots from nworker on:
-- none of the slots below nworker is looked at.
pub parent_reopen_logs_lem :
    (e : System) (p : Pool)
    → IsValid p
    → parent_reopen_logs e p ≡ (
        if logs_work e.logs p.reopened
        then ok (record p {
          reopened = p.reopened + 1;
          signals = p.signals ++ kills sigusr1 (drop p.nworker p.pids);
        })
        else stop (exits 1))
unfolding parent_reopen_logs
parent_reopen_logs_lem e p v = ground (
  arith,
  reopen_logs-logs_work e.logs p.reopened,
  kill_slots_lem sigusr1 (p.nworker_hwm - p.nworker) p.nworker
      (record p { reopened = p.reopened + 1 }) (omega (arith, v.sized, v.within)),
)

-- So in a valid pool that has not shrunk SIGUSR1 is passed on to no worker at all.
pub parent_reopen_logs-tells_nobody :
    (e : System) (p : Pool)
    → IsValid p
    → p.nworker ≡ p.nworker_hwm
    → logs_work e.logs p.reopened ≡ true
    → parent_reopen_logs e p ≡ ok (record p { reopened = p.reopened + 1 })
unfolding kills
parent_reopen_logs-tells_nobody e p v peak l =
    parent_reopen_logs_lem e p v
    ∙ rw (l, drop_all p.pids p.nworker (omega (arith, v.sized)), append-nil)
