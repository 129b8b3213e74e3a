-- ===== src/Workers/Tests.antt =====
-- Runs of the worker pool at concrete inputs.
use public_inbox.Workers.Reap.{IsValid, Holds, Reaped, reaped_prefork_worker_lem}
use public_inbox.Workers.Spawn.{Forks, Full}
use public_inbox.Workers.Signals.{kills, do_sigttou_lem, parent_reopen_logs_lem}
use public_inbox.Workers.Resize.{do_sigttin-overruns, do_sigttin-grows}
use public_inbox.Stderr.Logs.{LogsWork, logs_work}
use public_inbox.Stderr.Tests.{log_files, log_files-LogsWork}
use public_inbox.Base.{
  length, ◌>>=◌, faults, ok, stop, ℕ, ◌+◌, ◌<◌, ◌≡◌, refl, ◌≢◌, ◌⊎◌, true, some, [], ◌∷◌, ◌++◌,
  arith,
}
use public_inbox.Workers.{
  Pool, sigterm, sigusr1, exited, reaped_prefork_worker, do_sigttou, parent_reopen_logs, do_sigttin,
  System, living_workers, kill_slots, read_pid,
}

-- Every fork succeeds, with pids from 100 on, and there is memory.
abbrev pub always : System
always = record { fork = λ k. some (100 + k); realloc = λ n. true; junk = 999; logs = log_files }

pub always-Forks : Forks always
always-Forks k = (100 + k, refl, omega arith)

pub always-LogsWork : LogsWork always.logs
always-LogsWork = log_files-LogsWork

-- Four slots, the second of them free, nobody signalled.
abbrev pub four : Pool
four = record {
  nworker = 4;
  nworker_hwm = 4;
  pids = 11 ∷ 0 ∷ 13 ∷ 14 ∷ [];
  alive = true;
  forks = 0;
  signals = [];
  reopened = 0;
}

-- The same pool after two SIGTTOUs.
abbrev pub shrunk : Pool
shrunk = record four { nworker = 2; signals = (sigterm, 14) ∷ (sigterm, 13) ∷ (sigterm, 14) ∷ [] }

pub four-IsValid : IsValid four
four-IsValid = record { sized = refl; within = omega arith; bounded = omega arith }

pub shrunk-IsValid : IsValid shrunk
shrunk-IsValid = record { sized = refl; within = omega arith; bounded = omega arith }

reaped_prefork_worker_lem_example :
    (q : Pool) × (reaped_prefork_worker always 13 (exited 1) four ≡ ok q)
    × IsValid q
    × (((q ≡ four) × ((i : ℕ) → i < 4 → ¬ Holds four i 13))
        ⊎ (Reaped always 13 (exited 1) four q × (q.alive ≡ true → Full q)))
reaped_prefork_worker_lem_example =
    reaped_prefork_worker_lem always 13 (exited 1) four always-Forks four-IsValid

do_sigttin-grows_example :
    (q : Pool) × (do_sigttin always four ≡ ok q)
    × IsValid q
    × (q.nworker ≡ 5)
    × (q.nworker ≡ q.nworker_hwm)
    × (q.alive ≡ true)
    × (q.signals ≡ [])
    × ((i v : ℕ) → Holds four i v → v ≢ 0 → Holds q i v)
    × Full q
do_sigttin-grows_example =
    do_sigttin-grows always four always-Forks four-IsValid refl refl (omega arith) refl

-- Two SIGTTOUs bring a pool of four down to two, with the array as long as before.
two_sigttous : (do_sigttou four >>= do_sigttou) ≡ ok shrunk
unfolding do_sigttou kill_slots read_pid
two_sigttous = refl

do_sigttin-overruns_example :
    (q : Pool) × (do_sigttin always shrunk ≡ ok q)
    × (length q.pids < q.nworker_hwm)
    × (living_workers q ≡ stop faults)
do_sigttin-overruns_example =
    do_sigttin-overruns always shrunk shrunk-IsValid (omega arith) refl refl

do_sigttou_lem_example :
    do_sigttou four ≡ ok (record four { nworker = 3; signals = (sigterm, 14) ∷ [] })
unfolding kills
do_sigttou_lem_example = do_sigttou_lem four four-IsValid

parent_reopen_logs_lem_example :
    parent_reopen_logs always shrunk
    ≡ ok (record shrunk {
      reopened = 1;
      signals = shrunk.signals ++ (sigusr1, 13) ∷ (sigusr1, 14) ∷ [];
    })
unfolding kills logs_work
parent_reopen_logs_lem_example = parent_reopen_logs_lem always shrunk shrunk-IsValid
