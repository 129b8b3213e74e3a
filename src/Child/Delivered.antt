-- ===== src/Child/Delivered.antt =====
-- Which signals reach which process, and what they do there.
use public_inbox.Child.{
  Action, by_default, to_sigp, to_sigw, delivered, parent_actions, worker_actions, dynfork_actions,
  loop_actions, no_actions,
}
use public_inbox.Main.{masks, delset}
use public_inbox.Main.Signals.{has_byte, masks_lem}
use public_inbox.EventLoop.{signal_byte}
use public_inbox.Workers.{Signal, sigterm, sigusr1, sigchld, sigttin, sigttou, sigother}
use public_inbox.Base.{if◌then◌else◌, ℕ, suc, ◌≡◌, refl, ap, Option, none, some, arith}

-- What a worker with a parent does while it waits.
unfoldable pub worker_does : Signal → Option Action
worker_does sigterm = some to_sigw
worker_does sigusr1 = some to_sigw
worker_does sigchld = some by_default
worker_does _ = none

unfoldable pub dynfork_does : Signal → Option Action
dynfork_does sigterm = some by_default
dynfork_does sigusr1 = some by_default
dynfork_does sigchld = some by_default
dynfork_does _ = none

unfoldable pub alone_does : Signal → Option Action
alone_does sigusr1 = some to_sigw
alone_does _ = none

parent-has_byte :
    (n : ℕ) (x : Signal)
    → delivered (masks n).pset parent_actions x ≡ (if has_byte x then some to_sigp else none)
unfolding masks delset signal_byte parent_actions
parent-has_byte n sigterm = refl
parent-has_byte n sigusr1 = refl
parent-has_byte n sigchld = refl
parent-has_byte n sigttin = refl
parent-has_byte n sigttou = refl
parent-has_byte n sigother = refl

worker-worker_does :
    (n : ℕ) (x : Signal) → delivered (masks (suc n)).workerset worker_actions x ≡ worker_does x
unfolding masks delset worker_actions worker_does
worker-worker_does n sigterm = ground arith
worker-worker_does n sigusr1 = ground arith
worker-worker_does n sigchld = ground arith
worker-worker_does n sigttin = ground arith
worker-worker_does n sigttou = ground arith
worker-worker_does n sigother = ground arith

dynfork-dynfork_does :
    (n : ℕ) (x : Signal) → delivered (masks (suc n)).workerset dynfork_actions x ≡ dynfork_does x
unfolding masks delset dynfork_actions dynfork_does
dynfork-dynfork_does n sigterm = ground arith
dynfork-dynfork_does n sigusr1 = ground arith
dynfork-dynfork_does n sigchld = ground arith
dynfork-dynfork_does n sigttin = ground arith
dynfork-dynfork_does n sigttou = ground arith
dynfork-dynfork_does n sigother = ground arith

alone-alone_does :
    (x : Signal) → delivered (masks 0).workerset (loop_actions no_actions) x ≡ alone_does x
unfolding masks delset loop_actions alone_does
alone-alone_does sigterm = refl
alone-alone_does sigusr1 = refl
alone-alone_does sigchld = refl
alone-alone_does sigttin = refl
alone-alone_does sigttou = refl
alone-alone_does sigother = refl

-- Of the signals that the handlers are for: the parent gets just those for which sigp has a byte,
-- and they go to sigp; a worker of the pool that waits for a request gets SIGTERM and SIGUSR1, which
-- go to sigw, and SIGCHLD with its default; a child for lei gets these three with their defaults; a
-- process with -j 0 gets SIGUSR1, which goes to sigw; and none of them gets any while it serves a
-- request.
pub delivered_lem :
    (n : ℕ) (x : Signal)
    → (delivered (masks (suc n)).pset parent_actions x
        ≡ (if has_byte x then some to_sigp else none))
      × (delivered (masks (suc n)).workerset worker_actions x ≡ worker_does x)
      × (delivered (masks (suc n)).workerset dynfork_actions x ≡ dynfork_does x)
      × (delivered (masks 0).workerset (loop_actions no_actions) x ≡ alone_does x)
      × (delivered (masks n).fullset worker_actions x ≡ none)
      × (delivered (masks n).fullset dynfork_actions x ≡ none)
delivered_lem n x =
    let f = (masks_lem n x).2 in
    (
      parent-has_byte (suc n) x,
      worker-worker_does n x,
      dynfork-dynfork_does n x,
      alone-alone_does x,
      ap (λ b. if b then none else some (worker_actions x)) f,
      ap (λ b. if b then none else some (dynfork_actions x)) f,
    )
