-- ===== src/EventLoop/Tests.antt =====
-- Runs of the event loops at concrete inputs.
use public_inbox.EventLoop.{
  dynfork_loop, Poll, ready, read_eintr, chunk, prefork_loop, Wake, control, keep_going,
  prefork_wake, controls,
}
use public_inbox.EventLoop.Ends.{NoneLeft}
use public_inbox.EventLoop.Safety.{
  Keeps, Works, prefork_loop-NoneLeft, NoGrow, IsPeak, prefork_loop-NoShrink, prefork_loop-NoGrow,
}
use public_inbox.Workers.Tests.{always, four, four-IsValid, always-Forks, always-LogsWork}
use public_inbox.Workers.Reap.{IsValid}
use public_inbox.EventLoop.Dynfork.{dynfork_loop-after_polls, after_polls, hashes, has_noinput}
use public_inbox.Stderr.Logs.{LogsFail}
use public_inbox.Base.{
  All, ok, ◌+◌, ◌≡◌, refl, inl, inr, true, false, none, some, List, [], ◌∷◌, arith,
}
use public_inbox.Workers.{
  Pool, exited, child, no_child, interrupted, do_sigchld, reaped_prefork_worker, find_slot,
  read_pid, write_pid, living_workers, count_living,
}

abbrev shrinking : List Wake
shrinking = read_eintr ∷ chunk (b'-' ∷ b'.' ∷ []) (child 14 (exited 0) ∷ interrupted ∷ []) ∷ []

shrinking-Works : All (Works NoGrow) shrinking
shrinking-Works = (tt, (((inr (inl refl), (inl refl, tt)), ((λ e. cc), ((λ e. cc), tt))), tt))

prefork_loop-NoGrow_example :
    Keeps (LogsFail always.logs) (λ r. IsValid r.1) (prefork_loop always shrinking four)
prefork_loop-NoGrow_example = prefork_loop-NoGrow always shrinking four shrinking-Works four-IsValid

abbrev growing : List Wake
growing = chunk (b'+' ∷ b'#' ∷ []) (no_child ∷ []) ∷ []

prefork_loop-NoShrink_example :
    Keeps (LogsFail always.logs) (λ r. IsPeak r.1) (prefork_loop always growing four)
prefork_loop-NoShrink_example =
    prefork_loop-NoShrink always growing four
      (((inr (inl refl), (inr (inr refl), tt)), ((λ e. cc), tt)), tt)
      (record { valid = four-IsValid; peak = refl })

-- One worker, which exits with EX_NOINPUT.
abbrev one : Pool
one = record {
  nworker = 1;
  nworker_hwm = 1;
  pids = 11 ∷ [];
  alive = true;
  forks = 1;
  signals = [];
  reopened = 0;
}

abbrev ended : Pool
ended = record one { pids = 0 ∷ []; alive = false }

abbrev hangup : List Wake
hangup = chunk (b'.' ∷ []) (child 11 (exited 66) ∷ []) ∷ []

hangup_ends : prefork_loop always hangup one ≡ ok (true, ended)
unfolding prefork_loop keep_going prefork_wake do_sigchld controls control reaped_prefork_worker
    find_slot read_pid write_pid living_workers count_living
hangup_ends = refl

prefork_loop-NoneLeft_example : (false ≡ false) × NoneLeft (0 ∷ [])
prefork_loop-NoneLeft_example =
    prefork_loop-NoneLeft always hangup one ended (((inl refl, tt), ((λ e. cc), tt)), tt)
      (record { sized = refl; within = omega arith; bounded = omega arith }) hangup_ends

-- A request, then SIGUSR1 and the child's end, and a request that comes too late.
abbrev polls : List Poll
polls =
    ready true none
    ∷ ready false (some (chunk (b'.' ∷ b'#' ∷ []) (child 14 (exited 66) ∷ [])))
    ∷ ready true none
    ∷ []

dynfork_loop-after_polls_example :
    dynfork_loop always polls four
    ≡ ok (true, record four { forks = four.forks + 1; reopened = four.reopened + 1; alive = false })
unfolding after_polls hashes has_noinput
dynfork_loop-after_polls_example =
    dynfork_loop-after_polls always polls four always-Forks always-LogsWork
      (tt, (((inl refl, (inr (inr (inr refl)), tt)), ((λ e. cc), tt)), (tt, tt))) refl
