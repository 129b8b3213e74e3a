-- ===== src/Child/Tests.antt =====
-- SIGTERM and two workers.
use public_inbox.Child.{
  to_sigw, by_default, delivered, parent_actions, worker_actions, dynfork_actions, loop_actions,
  no_actions,
}
use public_inbox.Child.Delivered.{delivered_lem, worker_does, dynfork_does, alone_does}
use public_inbox.Main.{masks}
use public_inbox.EventLoop.{signal_byte}
use public_inbox.Workers.{sigterm}
use public_inbox.Base.{◌≡◌, none, some}

delivered_lem_example :
    (delivered (masks 2).pset parent_actions sigterm ≡ none)
    × (delivered (masks 2).workerset worker_actions sigterm ≡ some to_sigw)
    × (delivered (masks 2).workerset dynfork_actions sigterm ≡ some by_default)
    × (delivered (masks 0).workerset (loop_actions no_actions) sigterm ≡ none)
    × (delivered (masks 1).fullset worker_actions sigterm ≡ none)
    × (delivered (masks 1).fullset dynfork_actions sigterm ≡ none)
unfolding signal_byte worker_does dynfork_does alone_does
delivered_lem_example = delivered_lem 1 sigterm
