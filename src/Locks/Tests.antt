-- ===== src/Locks/Tests.antt =====
-- Two lock files: one is missing, the other is locked after an interrupted call.
use public_inbox.Locks.{
  opened, enoent, locked, flock_eintr, Fds, lock_shared_maybe, LockFile, unlock_ensure, lock_loop,
  lock_one,
}
use public_inbox.Locks.Balance.{unlock_ensure-lock_shared_maybe}
use public_inbox.Base.{ok, ◌≡◌, refl, none, some, List, [], ◌∷◌, arith}

abbrev files : List LockFile
files =
    record { open_result = enoent; flocks = [] }
    ∷ record { open_result = opened 9; flocks = flock_eintr ∷ locked ∷ [] }
    ∷ []

abbrev before : Fds
before = record { fds = 4 ∷ 3 ∷ []; held = [] }

abbrev within : Fds
within = record { fds = 9 ∷ 4 ∷ 3 ∷ []; held = 9 ∷ [] }

files_run : lock_shared_maybe ([] ∷ []) files before ≡ ok (some (some (none ∷ some 9 ∷ []), within))
unfolding lock_shared_maybe lock_loop lock_one
files_run = refl

files_closed : unlock_ensure (some (none ∷ some 9 ∷ [])) within ≡ before
files_closed =
    unlock_ensure-lock_shared_maybe ([] ∷ []) files before within (some (none ∷ some 9 ∷ []))
      ((omega arith, (omega arith, tt)), tt, tt) files_run
