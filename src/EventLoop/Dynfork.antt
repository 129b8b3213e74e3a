-- ===== src/EventLoop/Dynfork.antt =====
-- What dynfork_loop of lib/PublicInbox/xap_helper.h, the loop for lei, makes of its events.
use public_inbox.EventLoop.{
  read_eintr, read_eagain, read_error, read_eof, chunk, Wake, Poll, poll_eintr, poll_error, ready,
  dynfork_loop, dynfork_wake, dynfork_dispatch, dynfork_check_sigs, dynfork_controls,
}
use public_inbox.EventLoop.Safety.{WaitWorks}
use public_inbox.Workers.{
  Pool, child, no_child, interrupted, wait_error, Wait, is_noinput, do_sigchld,
  reaped_dynfork_worker, System,
}
use public_inbox.Workers.Spawn.{Forks}
use public_inbox.Stderr.Logs.{LogsWork, reopen_logs-logs_work}
use public_inbox.Base.{
  ◌==◌, if◌then◌else◌, Bool-cases, All, ◌>>=◌, ok, ℕ, ◌+◌, ◌≡◌, refl, ap, ◌∙◌, ◌⊎◌, inl, inr, Bool,
  true, false, not, ◌&&◌, ◌||◌, none, some, List, [], ◌∷◌, arith,
}

-- A byte that sigp writes.
abbrev pub FromSigp : ℕ → Type 0
FromSigp c = (c ≡ b'.') ⊎ ((c ≡ b'-') ⊎ ((c ≡ b'+') ⊎ (c ≡ b'#')))

abbrev pub WakeWorks : Wake → Type 0
WakeWorks (chunk cs ws) = All FromSigp cs × All WaitWorks ws
WakeWorks read_eagain = Unit {0}
WakeWorks _ = ⊥

-- Nothing fails in poll, read and waitpid.
abbrev pub PollWorks : Poll → Type 0
PollWorks poll_eintr = Unit {0}
PollWorks poll_error = ⊥
PollWorks (ready sock none) = Unit {0}
PollWorks (ready sock (some w)) = WakeWorks w

-- Whether a child that is reaped has exited with EX_NOINPUT.
unfoldable pub has_noinput : List Wait → Bool
has_noinput [] = false
has_noinput (child pid st ∷ ws) = is_noinput st || has_noinput ws
has_noinput (no_child ∷ ws) = false
has_noinput (interrupted ∷ ws) = has_noinput ws
has_noinput (wait_error ∷ ws) = false

-- The requests to reopen the logs.
unfoldable pub hashes : List ℕ → ℕ
hashes [] = 0
hashes (c ∷ cs) = (if c == b'#' then 1 else 0) + hashes cs

-- What one return of poll is for: a request, logs to reopen, and the end.
abbrev pub asks_of : Poll → ℕ
asks_of (ready true w) = 1
asks_of _ = 0

abbrev pub hashes_of : Poll → ℕ
hashes_of (ready sock (some (chunk cs ws))) = hashes cs
hashes_of _ = 0

abbrev pub ends : Poll → Bool
ends (ready sock (some (chunk cs ws))) = has_noinput ws
ends _ = false

-- The state that a list of them leaves: those behind the first one that ends the loop are not read.
unfoldable pub after_polls : List Poll → Pool → Bool × Pool
after_polls [] p = (false, p)
after_polls (x ∷ xs) p =
    let q = record p {
      forks = p.forks + asks_of x;
      reopened = p.reopened + hashes_of x;
      alive = not (ends x);
    } in
    let rest = after_polls xs q in if ends x then (true, q) else rest

do_sigchld-has_noinput :
    (e : System) (ws : List Wait) (p : Pool)
    → All WaitWorks ws
    → do_sigchld e true ws p ≡ ok (record p { alive = p.alive && not (has_noinput ws) })
unfolding do_sigchld has_noinput reaped_dynfork_worker
do_sigchld-has_noinput e [] p w = ground arith
do_sigchld-has_noinput e (no_child ∷ ws) p w = ground arith
do_sigchld-has_noinput e (interrupted ∷ ws) p w = do_sigchld-has_noinput e ws p w.1
do_sigchld-has_noinput e (wait_error ∷ ws) p w = absurd (w.0 refl)
do_sigchld-has_noinput e (child pid st ∷ ws) p w =
    do_sigchld-has_noinput e ws (record p { alive = p.alive && not (is_noinput st) }) w.1
    ∙ ground arith

dynfork_controls-hashes :
    (e : System) (cs : List ℕ) (p : Pool)
    → LogsWork e.logs
    → All FromSigp cs
    → dynfork_controls e cs p ≡ ok (record p { reopened = p.reopened + hashes cs })
unfolding dynfork_controls hashes
dynfork_controls-hashes e [] p l w = ground arith
dynfork_controls-hashes e (c ∷ cs) p l w = elim (Bool-cases (c == b'#')) [
  | inl y ↦ ground (
    arith,
    y,
    dynfork_controls-hashes e cs (record p { reopened = p.reopened + 1 }) l w.1,
    reopen_logs-logs_work e.logs p.reopened,
    l p.reopened,
  )
  | inr n ↦ ground (arith, n, dynfork_controls-hashes e cs p l w.1, w.0)
]

dynfork_check_sigs_lem :
    (e : System) (cs : List ℕ) (ws : List Wait) (p : Pool)
    → LogsWork e.logs
    → All FromSigp cs
    → All WaitWorks ws
    → dynfork_check_sigs e (chunk cs ws) p
      ≡ ok (record p { alive = p.alive && not (has_noinput ws); reopened = p.reopened + hashes cs })
unfolding dynfork_check_sigs
dynfork_check_sigs_lem e cs ws p l a w =
    ap (λ m. m >>= dynfork_controls e cs) (do_sigchld-has_noinput e ws p w)
    ∙ dynfork_controls-hashes e cs (record p { alive = p.alive && not (has_noinput ws) }) l a

dynfork_wake_lem :
    (e : System) (x : Poll) (p : Pool)
    → Forks e
    → LogsWork e.logs
    → PollWorks x
    → p.alive ≡ true
    → dynfork_wake e x p
      ≡ ok (record p {
        forks = p.forks + asks_of x;
        reopened = p.reopened + hashes_of x;
        alive = not (ends x);
      })
unfolding dynfork_wake dynfork_dispatch dynfork_check_sigs
dynfork_wake_lem e poll_eintr p f l w y = ground (arith, y)
dynfork_wake_lem e poll_error p f l w y = absurd w
dynfork_wake_lem e (ready false none) p f l w y = ground (arith, y)
dynfork_wake_lem e (ready true none) p f l w y = let (pid, s, _) = f p.forks in ground (arith, s, y)
dynfork_wake_lem e (ready false (some read_eagain)) p f l w y = ground (arith, y)
dynfork_wake_lem e (ready false (some (chunk cs ws))) p f l w y =
    ground (arith, dynfork_check_sigs_lem e cs ws p l w.0 w.1, y)
dynfork_wake_lem e (ready true (some read_eagain)) p f l w y =
    let (pid, s, _) = f p.forks in ground (arith, s, y)
dynfork_wake_lem e (ready true (some (chunk cs ws))) p f l w y =
    let (pid, s, _) = f p.forks in
    ground
      (arith, s, y, dynfork_check_sigs_lem e cs ws (record p { forks = p.forks + 1 }) l w.0 w.1)
dynfork_wake_lem e (ready sock (some read_eintr)) p f l w y = absurd w
dynfork_wake_lem e (ready sock (some read_error)) p f l w y = absurd w
dynfork_wake_lem e (ready sock (some read_eof)) p f l w y = absurd w

ended :
    (e : System) (xs : List Poll) (p : Pool) → p.alive ≡ false → dynfork_loop e xs p ≡ ok (true, p)
unfolding dynfork_loop
ended e [] p n = ground (arith, n)
ended e (x ∷ xs) p n = ground (arith, n)

-- Where poll, read, waitpid and fork work and the logs can be reopened: dynfork_loop is never stopped; up to the first return of
-- poll with a child that has exited with EX_NOINPUT it forks once for every time that the socket is
-- ready and reopens the logs once for every SIGUSR1; and there, and only there, it ends.
pub dynfork_loop-after_polls :
    (e : System) (xs : List Poll) (p : Pool)
    → Forks e
    → LogsWork e.logs
    → All PollWorks xs
    → p.alive ≡ true
    → dynfork_loop e xs p ≡ ok (after_polls xs p)
unfolding dynfork_loop after_polls
dynfork_loop-after_polls e [] p f l w y = ground (arith, y)
dynfork_loop-after_polls e (x ∷ xs) p f l w y =
    let q : Pool = record p {
      forks = p.forks + asks_of x;
      reopened = p.reopened + hashes_of x;
      alive = not (ends x);
    } in
    let s = dynfork_wake_lem e x p f l w.0 y in
    elim (Bool-cases (ends x)) [
      | inl n ↦ ground (arith, y, s, n, ended e xs q)
      | inr n ↦ ground (arith, y, s, n, dynfork_loop-after_polls e xs q f l w.1)
    ]
