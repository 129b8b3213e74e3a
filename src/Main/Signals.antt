-- ===== src/Main/Signals.antt =====
-- Which signals the masks of main let in.
use public_inbox.Main.{masks, plain, delset}
use public_inbox.EventLoop.{signal_byte}
use public_inbox.Workers.{Signal, sigterm, sigusr1, sigchld, sigttin, sigttou, sigother}
use public_inbox.Base.{◌==◌, ℕ, zero, suc, ◌≡◌, refl, Bool, true, false, not, none, some, arith}

-- What reaches a worker that waits for a request: SIGUSR1, and if it has a parent SIGTERM and
-- SIGCHLD.
unfoldable pub for_worker : ℕ → Signal → Bool
for_worker nworker sigusr1 = true
for_worker nworker sigterm = not (nworker == 0)
for_worker nworker sigchld = not (nworker == 0)
for_worker nworker _ = false

abbrev pub has_byte : Signal → Bool
has_byte x = elim (signal_byte x) [ none ↦ false | some c ↦ true ]

pset-signal_byte : (n : ℕ) (x : Signal) → (masks n).pset (plain x) ≡ not (has_byte x)
unfolding masks delset signal_byte
pset-signal_byte n sigterm = refl
pset-signal_byte n sigusr1 = refl
pset-signal_byte n sigchld = refl
pset-signal_byte n sigttin = refl
pset-signal_byte n sigttou = refl
pset-signal_byte n sigother = refl

workerset-for_worker : (n : ℕ) (x : Signal) → (masks n).workerset (plain x) ≡ not (for_worker n x)
unfolding masks delset for_worker
workerset-for_worker zero sigterm = refl
workerset-for_worker zero sigusr1 = refl
workerset-for_worker zero sigchld = refl
workerset-for_worker zero sigttin = refl
workerset-for_worker zero sigttou = refl
workerset-for_worker zero sigother = refl
workerset-for_worker (suc n) sigterm = ground arith
workerset-for_worker (suc n) sigusr1 = ground arith
workerset-for_worker (suc n) sigchld = ground arith
workerset-for_worker (suc n) sigttin = ground arith
workerset-for_worker (suc n) sigttou = ground arith
workerset-for_worker (suc n) sigother = ground arith

fullset-blocks : (n : ℕ) (x : Signal) → (masks n).fullset (plain x) ≡ true
unfolding masks delset
fullset-blocks n sigterm = refl
fullset-blocks n sigusr1 = refl
fullset-blocks n sigchld = refl
fullset-blocks n sigttin = refl
fullset-blocks n sigttou = refl
fullset-blocks n sigother = refl

-- Of the signals that the handlers are for: the parent lets in just those for which sigp has a byte,
-- a worker that waits for a request SIGUSR1 and, if it has a parent, SIGTERM and SIGCHLD, and a
-- worker that serves a request none.
pub masks_lem :
    (n : ℕ) (x : Signal)
    → ((masks n).pset (plain x) ≡ not (has_byte x))
      × ((masks n).workerset (plain x) ≡ not (for_worker n x))
      × ((masks n).fullset (plain x) ≡ true)
masks_lem n x = (pset-signal_byte n x, workerset-for_worker n x, fullset-blocks n x)
