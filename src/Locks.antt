-- ===== src/Locks.antt =====
-- lock_shared_maybe and unlock_ensure of lib/PublicInbox/xap_helper.h: the shared locks that are
-- held while a database is opened or reopened. What open(2) and flock(2) return is given for each
-- lock file; malloc does not fail. The descriptors that are open are a list.
pub mod Balance
mod Tests
use public_inbox.Args.{Bytes}
use public_inbox.Base.{
  ltb, ◌==◌, if◌then◌else◌, length, Run, aborts, ok, stop, ℕ, Bool, true, false, Option, none, some,
  List, [], ◌∷◌,
}

-- What happens to one lock file: open gives a descriptor, or fails (with ENOENT or otherwise), and
-- flock is tried until it gives something else than EINTR.
pub data Open : Type 0 where
  opened : ℕ → Open
  enoent open_error : Open

pub data Flock : Type 0 where
  locked flock_eintr flock_error : Flock

-- A result for each entry of req->lockv, and the results of the flock calls on it.
pub record LockFile : Type 0 where
  pub open_result : Open
  pub flocks : List Flock

-- The process's open descriptors, newest first, and the locks held.
pub record Fds : Type 0 where
  pub fds : List ℕ
  pub held : List ℕ

-- `while (flock(fd, LOCK_SH) < 0) …`: whether the lock was taken. A list that ends with EINTR is
-- a call that has not returned.
unfoldable pub flock_loop : List Flock → Option Bool
flock_loop [] = none
flock_loop (locked ∷ fs) = some true
flock_loop (flock_eintr ∷ fs) = flock_loop fs
flock_loop (flock_error ∷ fs) = some false

-- The descriptors once flock has returned.
abbrev pub with_lock : Option Bool → ℕ → Fds → Fds
with_lock (some true) fd s = record s { fds = fd ∷ s.fds; held = fd ∷ s.held }
with_lock _ fd s = record s { fds = fd ∷ s.fds }

-- The entry of lock_fd[] for one file (`none` is -1), or `none` while flock waits.
unfoldable pub lock_one : LockFile → Fds → Option (Option ℕ × Fds)
unfolding flock_loop
lock_one f s = elim f.open_result [
  | enoent ↦ some (none, s)
  | open_error ↦ some (none, s)
  | opened fd ↦ elim (flock_loop f.flocks) [
    | none ↦ none
    | some taken ↦ some (some fd, with_lock (some taken) fd s)
  ]
]

-- The loop over req->lockv: lock_fd[].
unfoldable pub lock_loop : List LockFile → Fds → Option (List (Option ℕ) × Fds)
lock_loop [] s = some ([], s)
lock_loop (f ∷ fs) s = elim (lock_one f s) [
  | none ↦ none
  | some (fd, s') ↦ elim (lock_loop fs s') [
    | none ↦ none
    | some (rest, s'') ↦ some (fd ∷ rest, s'')
  ]
]

-- The struct open_locks, if there is one. With no -l there is none, and the sizes cannot overflow
-- below MY_ARG_MAX, which is asserted.
unfoldable pub lock_shared_maybe :
    List Bytes → List LockFile → Fds → Run (Option (Option (List (Option ℕ)) × Fds))
lock_shared_maybe dirs files s = elim dirs [
  | [] ↦ stop aborts
  | d ∷ ds ↦ elim files [
    | [] ↦ ok (some (none, s))
    | f ∷ fs ↦ elim (ltb (length (f ∷ fs)) 256) [
      | false ↦ stop aborts
      | true ↦ elim (lock_loop (f ∷ fs) s) [
        | none ↦ ok none
        | some (lk, s') ↦ ok (some (some lk, s'))
      ]
    ]
  ]
]

-- close(2) frees the descriptor and drops its lock.
abbrev pub close : ℕ → List ℕ → List ℕ
close fd [] = []
close fd (x ∷ xs) = if x == fd then xs else x ∷ close fd xs

unfoldable pub xclose : ℕ → Fds → Fds
xclose fd s = record s { fds = close fd s.fds; held = close fd s.held }

unfoldable pub unlock_loop : List (Option ℕ) → Fds → Fds
unfolding xclose
unlock_loop [] s = s
unlock_loop (none ∷ lk) s = unlock_loop lk s
unlock_loop (some fd ∷ lk) s = unlock_loop lk (xclose fd s)

unfoldable pub unlock_ensure : Option (List (Option ℕ)) → Fds → Fds
unlock_ensure none s = s
unlock_ensure (some lk) s = unlock_loop lk s
