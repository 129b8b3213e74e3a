-- ===== src/Memory/Tests.antt =====
-- A worker that is asked twice for the same handle, with a lock file: its database opens at the second
-- try, and the second request finds the handle in the set.
use public_inbox.Memory.Lifetime.{
  Request, WorkerEnds, worker_life, started, dispatches, worker_life-WorkerEnds,
}
use public_inbox.Memory.Layout.{handles_of, Ordered, placed, blocks}
use public_inbox.Locks.{
  opened, locked, flock_eintr, lock_shared_maybe, Fds, lock_loop, lock_one, flock_loop,
}
use public_inbox.Options.Tests.{libc}
use public_inbox.Memory.{Proc}
use public_inbox.Memory.Opens.{Around}
use public_inbox.Dispatch.Tests.{mset_args, outside}
use public_inbox.Options.{
  Parsed, Switch, parse_request, fresh, parse_switches, parse_letter, letter_of, push, check_key,
}
use public_inbox.Cache.Tests.{empty}
use public_inbox.Memory.Answers.{LocksReturn, answered, dispatch_live_refines}
use public_inbox.Memory.Locked.{Lockable}
use public_inbox.Heap.Follows.{Follows}
use public_inbox.Memory.Frees.{Held}
use public_inbox.Dispatch.{dispatch}
use public_inbox.Memory.Serves.{dispatch_live}
use public_inbox.Base.{
  ok-injective, ok, ℕ, ◌≡◌, refl, sym, subst, ◌∙◌, true, some, List, [], ◌∷◌, arith,
}

abbrev switches : List Switch
switches =
    record { letter = b'l'; pad = 0; arg = b'k' ∷ [] }
    ∷ record { letter = b'd'; pad = 0; arg = b'a' ∷ [] }
    ∷ []

abbrev locking : Around
locking = record {
  outside = record (outside 4) { getopt = λ argv. (switches, (b'q' ∷ []) ∷ []) };
  lock_file = λ try name. record { open_result = opened 9; flocks = flock_eintr ∷ locked ∷ [] };
}

abbrev before : Fds
before = record { fds = 4 ∷ 3 ∷ []; held = [] }

abbrev at_fork : Proc
at_fork = record {
  next = 1;
  srchs = [];
  dbs = [];
  qps = [];
  pid_arrays = (0, 7 ∷ []) ∷ [];
  srch_cache = some [];
  worker_pids = some 0;
  shard_nfd = 0;
  fds = before;
}

abbrev locked_request : Parsed
locked_request = (
  record fresh { dirv = (b'a' ∷ []) ∷ []; lockv = (b'k' ∷ []) ∷ [] },
  b'-' ∷ b'd' ∷ 0 ∷ b'a' ∷ 0 ∷ [],
)

locked_request-accepted : parse_request libc switches ≡ ok locked_request
unfolding parse_request parse_switches parse_letter letter_of push check_key
locked_request-accepted = refl

locking-Lockable : (try : ℕ) → Lockable locking locked_request.0 before try
unfolding lock_shared_maybe lock_loop lock_one flock_loop
locking-Lockable try = record {
  fresh_fds = (((λ e. absurd (omega arith)), ((λ e. absurd (omega arith)), tt)), tt, tt);
  taken = some (some 9 ∷ []);
  within = record { fds = 9 ∷ 4 ∷ 3 ∷ []; held = 9 ∷ [] };
  locks = refl;
}

locking-LocksReturn : LocksReturn locking mset_args before
locking-LocksReturn p e try =
    subst (λ q. Lockable locking q.0 before try) (ok-injective (sym locked_request-accepted ∙ e))
      (locking-Lockable try)

abbrev asks : Request
asks = record { around = locking; argv = mset_args; has_err = true }

dispatch_live_refines_example :
    Follows Held
      (answered before)
      (dispatch locking.outside mset_args true empty)
      (dispatch_live locking mset_args true (placed (blocks []) at_fork))
unfolding handles_of Ordered
dispatch_live_refines_example =
    dispatch_live_refines locking before true mset_args empty [] at_fork locking-LocksReturn
      (record {
        handles = refl;
        counted = refl;
        ordered = tt;
        pids = (7 ∷ [], refl);
        same_fds = refl;
      })

worker_life-WorkerEnds_example :
    WorkerEnds
      (dispatches (asks ∷ asks ∷ []) empty)
      (worker_life (asks ∷ asks ∷ []) (started at_fork))
worker_life-WorkerEnds_example =
    worker_life-WorkerEnds (asks ∷ asks ∷ []) at_fork
      (locking-LocksReturn, (locking-LocksReturn, tt)) (7 ∷ [], refl)
