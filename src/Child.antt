-- ===== src/Child.antt =====
-- The processes that the parent of lib/PublicInbox/xap_helper.h forks: the child's side of
-- start_worker and dynfork_dispatch, and what every process does on a signal, from the calls of
-- sigaction and signal in main, recv_loop and these two. The calls work; closing the pipe and
-- giving memory back is left out.
pub mod Delivered
pub mod Serving
mod Tests
use public_inbox.Main.{MaskSignal, plain, same_signal, SignalSet, first_worker}
use public_inbox.Receive.{Event, Outsides, Packet, Worker, recv_loop, serve}
use public_inbox.Workers.{Signal, sigterm, sigusr1, sigchld, sigttin, sigttou}
use public_inbox.Base.{
  if◌then◌else◌, Run, ◌>>=◌, exits, ok, stop, true, false, Option, none, some, List, [],
}

-- What a signal does: SIG_DFL, SIG_IGN or a handler.
pub data Action : Type 0 where
  by_default ignored to_sigp to_sigw : Action

abbrev pub Actions : Type 0
Actions = Signal → Action

abbrev pub set_action : Signal → Action → Actions → Actions
set_action s a acts x = if same_signal (plain s) (plain x) then a else acts x

abbrev pub no_actions : Actions
no_actions x = by_default

-- main, in the parent.
unfoldable pub parent_actions : Actions
parent_actions = set_action sigchld to_sigp (
    set_action sigttou to_sigp (set_action sigttin to_sigp (set_action sigusr1 to_sigp no_actions)))

-- The beginning of recv_loop.
unfoldable pub loop_actions : Actions → Actions
loop_actions acts = set_action sigusr1 to_sigw (set_action sigterm to_sigw acts)

-- start_worker in the child, and the recv_loop that it calls.
unfoldable pub worker_actions : Actions
unfolding parent_actions loop_actions
worker_actions = loop_actions (
    set_action sigttou ignored
      (set_action sigttin ignored (set_action sigchld by_default parent_actions)))

-- dynfork_dispatch in the child.
unfoldable pub dynfork_actions : Actions
unfolding parent_actions
dynfork_actions = set_action sigterm by_default (
    set_action sigusr1 by_default (
      set_action sigttou ignored
        (set_action sigttin ignored (set_action sigchld by_default parent_actions))))

-- What a signal does to a process that runs with this mask: nothing while it is blocked.
abbrev pub delivered : SignalSet → Actions → Signal → Option Action
delivered mask acts x = if mask (plain x) then none else some (acts x)

-- start_worker in the child; the handles of its parent are none.
unfoldable pub worker_child : Outsides → List Event → Run Worker
worker_child outs es = recv_loop outs es first_worker

-- dynfork_dispatch in the child, once it has a packet: it serves that and exits. No signal has a
-- handler there. The value is a child whose command does not return.
unfoldable pub dynfork_child : Outsides → Packet → Run Worker
dynfork_child outs p = serve outs (record p { late = [] }) first_worker >>= λ w. elim w.in_command [
  | true ↦ ok w
  | false ↦ stop (exits 0)
]
