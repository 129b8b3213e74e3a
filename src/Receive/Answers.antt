-- ===== src/Receive/Answers.antt =====
-- The worker's loop of lib/PublicInbox/xap_helper.h, its dispatch and its cache together.
use public_inbox.Receive.{
  Event, signal, packet, recv_loop, FdMode, Outsides, Worker, Streams, take_packet, comes_back,
}
use public_inbox.Receive.Serving.{packet_of, after_request, recv_loop-serves}
use public_inbox.Dispatch.{Outside, Answer, dispatch}
use public_inbox.Dispatch.Refine.{answer, Ready, dispatch_refines}
use public_inbox.Cache.{World, Cache}
use public_inbox.Cache.Budget.{IsSound}
use public_inbox.Workers.{sigusr1}
use public_inbox.Args.{Bytes}
use public_inbox.Args.RoundTrip.{NoNul}
use public_inbox.Stderr.Logs.{LogsWork}
use public_inbox.Base.{
  ltb, length, replicate, All, length-append, ◌>>=◌, ok, ℕ, ◌+◌, ◌<◌, ◌≡◌, refl, sym, ap, subst,
  ◌∙◌, Bool, true, false, ◌||◌, List, [], ◌∷◌, ◌++◌, map, append-nil, append_assoc,
}

-- A request: SIGUSR1 `before` times, then its packet, with SIGUSR1 `after` times behind it.
pub record Ask : Type 0 where
  pub before : ℕ
  pub after : ℕ
  pub first : ℕ
  pub name : Bytes
  pub rest : List Bytes
  pub fds : List FdMode

-- The arguments; that the first is not empty is built in.
abbrev pub ask_args : Ask → List Bytes
ask_args r = (r.first ∷ r.name) ∷ r.rest

unfoldable pub asks : List (Ask × Answer) → List Event
asks [] = []
asks (x ∷ xs) =
    replicate x.0.before (signal sigusr1)
    ++ (packet (packet_of (ask_args x.0) x.0.fds x.0.after) ∷ asks xs)

-- By itself the request is answered with `a`, by a command that comes back; it is of fewer than 256
-- arguments, its streams are usable, databases that are open can be reopened and so can the logs, stderr can be set and restored, and
-- its switches are served (Ready).
pub record Answered (w : World) (code : List (Bool × Bytes) → Bool) (o : Outside) (r : Ask)
    (a : Answer) : Type 0 where
  pub clean : All NoNul (ask_args r)
  pub few : 1 + length r.rest < 256
  pub streams : Streams
  pub usable : take_packet (packet_of (ask_args r) r.fds r.after) ≡ ok streams
  pub same_world : o.world ≡ w
  pub reopens : o.reopen_works ≡ true
  pub logs_work : LogsWork o.logs
  pub sets_stderr : o.stderr_set_works ≡ true
  pub restores_stderr : o.stderr_restore_works ≡ true
  pub ready : Ready code o (ask_args r)
  pub answered : answer o (ask_args r) (ltb 1 streams.count) ≡ ok a
  pub back : comes_back a.flow ≡ true

-- The requests from the i-th of the worker on.
unfoldable pub AllAnswered :
    World → (List (Bool × Bytes) → Bool) → Outsides → ℕ → List (Ask × Answer) → Type 0
AllAnswered w code outs i [] = Unit
AllAnswered w code outs i (x ∷ xs) =
    Answered w code (outs i) x.0 x.1 × AllAnswered w code outs (i + 1) xs

append_one {ℓ} : {A : Type ℓ} (s t : List A) (x : A) → (s ++ (x ∷ [])) ++ t ≡ s ++ (x ∷ t)
append_one s t x = append_assoc s (x ∷ []) t

Answered-dispatch :
    (w : World) (code : List (Bool × Bytes) → Bool) (o : Outside) (r : Ask) (a : Answer) (c : Cache)
    (s : Answered w code o r a)
    → IsSound w code c
    → (c' : Cache) × IsSound w code c'
      × (dispatch o (ask_args r) (ltb 1 s.streams.count) c ≡ ok (a, c'))
Answered-dispatch w code o r a c s v =
    let v1 = subst (λ x. IsSound x code c) (sym s.same_world) v in
    let (c', v', e) =
      dispatch_refines o code (ask_args r) (ltb 1 s.streams.count) c v1 s.reopens s.ready in
    (
      c',
      subst (λ x. IsSound x code c') s.same_world v',
      e ∙ ap (λ m. m >>= λ b. ok (b, c')) s.answered,
    )

-- While the socket is open and the set of handles is valid: requests that by themselves get answers of
-- databases as they then are, from commands that come back, get these very answers from a worker, in
-- order, with any number of SIGUSR1 between them, and it goes on with the events behind them, a valid
-- set and an open socket; provided that open databases can be reopened, that the named logs can be
-- too, that stderr can be set and restored, that databases which are not open yet open at one of the
-- two tries, that there is no NUL in the switches and the prefixes of -Q are well-formed, and that -d
-- and -Q in order determine, by `code`, whether there is a -c.
pub recv_loop-answers :
    (w : World) (code : List (Bool × Bytes) → Bool) (outs : Outsides) (rs : List (Ask × Answer))
    (es : List Event) (v : Worker)
    → v.sock_open ≡ true
    → v.in_command ≡ false
    → IsSound w code v.cache
    → AllAnswered w code outs (length v.served) rs
    → (v' : Worker) × (recv_loop outs (asks rs ++ es) v ≡ recv_loop outs es v')
      × (v'.served ≡ v.served ++ map (λ x. ask_args x.0) rs)
      × (v'.answers ≡ v.answers ++ map (λ x. x.1) rs)
      × IsSound w code v'.cache
      × (v'.sock_open ≡ true)
unfolding asks AllAnswered
recv_loop-answers w code outs [] es v o i s a =
    (v, refl, sym (append-nil v.served), sym (append-nil v.answers), s, o)
recv_loop-answers w code outs ((r, b) ∷ rs) es v o i s (a, others) =
    let (c, s1, d) = Answered-dispatch w code (outs (length v.served)) r b v.cache a s in
    let e =
      recv_loop-serves outs r.before r.after r.first r.name r.rest r.fds a.streams (b, c)
        (asks rs ++ es) v o i a.logs_work a.sets_stderr a.restores_stderr a.clean a.few a.usable d
        a.back in
    let v1 = after_request (ltb 0 r.before || ltb 0 r.after) (ask_args r) (b, c) v in
    let n : length v.served + 1 ≡ length v1.served =
      sym (length-append v.served (ask_args r ∷ [])) in
    let (v2, e2, m, k, s2, o2) =
      recv_loop-answers w code outs rs es v1 o i s1
        (subst (λ j. AllAnswered w code outs j rs) n others) in
    (
      v2,
      ap (λ x. recv_loop outs x v)
            (append_assoc (replicate r.before (signal sigusr1))
              (packet (packet_of (ask_args r) r.fds r.after) ∷ asks rs) es)
          ∙ e
          ∙ e2,
      m ∙ append_one v.served (map (λ x. ask_args x.0) rs) (ask_args r),
      k ∙ append_one v.answers (map (λ x. x.1) rs) b,
      s2,
      o2,
    )
