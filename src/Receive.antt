-- ===== src/Receive.antt =====
-- A worker's loop of lib/PublicInbox/xap_helper.h: sigw, recv_req, recv_once, recv_loop and
-- reopen_logs. What recvmsg(2) gives and which signals come is a list of events, in order; signals
-- are only let in while recv_req waits. dispatch is that of Dispatch, which says what comes
-- of the arguments of a request and whether the process survives. Opening and closing streams does not
-- fail; whether stderr_set, stderr_restore and reopen_logs return is part of what is outside.
pub mod Serving
pub mod Answers
pub mod Descriptors
pub mod Tests
use public_inbox.Dispatch.{Outside, Answer, dispatch}
use public_inbox.Cache.{Cache}
use public_inbox.DumpRoots.{Flow, waits}
use public_inbox.Workers.{sigusr1, ex_noinput, Signal}
use public_inbox.Stderr.{reopen_logs}
use public_inbox.Base.{
  ltb, ◌==◌, if◌then◌else◌, length, Run, stop_if, ◌>>=◌, ◌>>◌, aborts, exits, faults, ok, stop, ℕ,
  ◌+◌, Bool, true, false, not, ◌&&◌, ◌||◌, List, [], ◌∷◌, ◌++◌, map,
}
use public_inbox.Args.{Bytes, split2argv, cstr}

-- The access mode of a received descriptor, as F_GETFL tells it, or that it is invalid.
pub data FdMode : Type 0 where
  invalid_fd read_only write_only read_write : FdMode

-- A packet: its bytes, whether it or its descriptors were truncated, the descriptors, and the
-- signals that come after recvmsg has returned and before they are blocked.
pub record Packet : Type 0 where
  pub rbuf : Bytes
  pub truncated : Bool
  pub fds : List FdMode
  pub late : List Signal

-- A signal interrupts recvmsg; `would_block` is EAGAIN, and any other error is `recv_error`.
pub data Event : Type 0 where
  signal : Signal → Event
  end_of_file would_block recv_error : Event
  packet : Packet → Event

-- sock_fd is 0 (open) or -1, worker_needs_reopen, the number of times the logs were reopened,
-- whether stderr is that of a request, the arguments of the requests served and their answers, oldest
-- first, the set of search handles, and whether a command has been left that does not return.
pub record Worker : Type 0 where
  pub sock_open : Bool
  pub needs_reopen : Bool
  pub reopened : ℕ
  pub redirected : Bool
  pub served : List (List Bytes)
  pub answers : List Answer
  pub cache : Cache
  pub in_command : Bool

unfoldable pub sigw : Signal → Worker → Worker
sigw sigusr1 w = record w { needs_reopen = true }
sigw _ w = record w { sock_open = false }

unfoldable pub sigws : List Signal → Worker → Worker
sigws [] w = w
sigws (s ∷ ss) w = sigws ss (sigw s w)

-- The streams of a request: how many, and `has_input`.
pub record Streams : Type 0 where
  pub count : ℕ
  pub has_input : Bool

-- The `for` loop over the descriptors; req->fp has 2 entries.
unfoldable pub open_streams : List FdMode → Streams → Run Streams
open_streams [] r = ok r
open_streams (invalid_fd ∷ fds) r = stop (exits 1)
open_streams (read_only ∷ fds) r = stop (exits 1)
open_streams (write_only ∷ fds) r =
    let rest = open_streams fds (record r { count = r.count + 1 }) in
    if ltb r.count 2 then rest else stop faults
open_streams (read_write ∷ fds) r =
    let rest =
      open_streams fds
        (record { count = r.count + 1; has_input = r.has_input || (r.count == 0) }) in
    if ltb r.count 2 then rest else stop faults

-- What recv_req gives once a packet is there.
unfoldable pub take_packet : Packet → Run Streams
unfolding open_streams
take_packet p = if p.truncated then stop aborts else elim p.fds [
  | [] ↦ stop (exits 1)
  | fd ∷ fds ↦ open_streams (fd ∷ fds) (record { count = 0; has_input = false })
]

-- Whether the command comes back to recv_once.
abbrev pub comes_back : Flow → Bool
comes_back waits = false
comes_back _ = true

-- What is outside at the i-th request of the worker.
abbrev pub Outsides : Type 0
Outsides = ℕ → Outside

-- The rest of recv_once and of the round of recv_loop, behind dispatch.
unfoldable pub after_dispatch : Outside → List Bytes → Answer × Cache → Worker → Run Worker
after_dispatch o args (a, c) w =
    let w' = record w {
      served = w.served ++ (args ∷ []);
      answers = w.answers ++ (a ∷ []);
      cache = c;
    } in
    if comes_back a.flow
    then stop_if (w.redirected && not o.stderr_restore_works) (exits 1)
      >> (if w.needs_reopen
          then reopen_logs o.logs w.reopened
            >> ok
                (record w' { redirected = false; needs_reopen = false; reopened = w.reopened + 1 })
          else ok (record w' { redirected = false }))
    else ok (record w' { in_command = true })

-- The rest of recv_once and of the round of recv_loop, once a packet is there.
unfoldable pub serve : Outsides → Packet → Worker → Run Worker
unfolding take_packet sigws after_dispatch
serve outs p w = do
  streams ← take_packet p
  stop_if (ltb 1 streams.count && not (outs (length w.served)).stderr_set_works) (exits 1)
  let w1 = record (sigws p.late w) { redirected = ltb 1 streams.count }
  (argc, argv) ← split2argv p.rbuf 256
  done ← dispatch (outs (length w.served)) (map cstr argv) (ltb 1 streams.count) w.cache
  after_dispatch (outs (length w.served)) (map cstr argv) done w1

-- The loop; when the events are used up, the worker waits in the state that is returned. recvmsg on
-- the descriptor -1 fails with EBADF, which is a normal exit; if the socket is closed behind a
-- packet the `while` loop ends, after which start_worker exits with 0.
unfoldable pub recv_loop : Outsides → List Event → Worker → Run Worker
unfolding sigw serve
recv_loop outs [] w = if w.sock_open then ok w else stop (exits 0)
recv_loop outs (e ∷ es) w = elim w.sock_open [
  | false ↦ stop (exits 0)
  | true ↦ elim e [
    | end_of_file ↦ stop (exits ex_noinput)
    | would_block ↦ stop (exits 0)
    | recv_error ↦ stop (exits 1)
    | signal s ↦ recv_loop outs es (sigw s w)
    | packet p ↦
        serve outs p w >>= λ w'. elim w'.in_command [ true ↦ ok w' | false ↦ recv_loop outs es w' ]
  ]
]
