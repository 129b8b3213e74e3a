-- ===== src/Receive/Serving.antt =====
-- What a worker does with its signals and packets.
use public_inbox.Receive.{
  signal, recv_loop, sigw, Outsides, Event, Worker, packet, sigws, serve, FdMode, Streams,
  take_packet, Packet, after_dispatch, comes_back,
}
use public_inbox.Workers.{sigterm, sigusr1}
use public_inbox.Args.RoundTrip.{NoNul, join, split2argv-join}
use public_inbox.Dispatch.{Outside, Answer, dispatch}
use public_inbox.Cache.{Cache}
use public_inbox.Stderr.Logs.{LogsWork, reopen_logs-logs_work}
use public_inbox.Base.{
  ltb, if◌then◌else◌, Bool-cases, or_assoc, length, replicate, All, exits, ok, stop, ℕ, zero, suc,
  ◌+◌, ◌<◌, ◌≡◌, refl, ap, ◌∙◌, inl, inr, Bool, true, false, ◌||◌, List, [], ◌∷◌, ◌++◌, arith,
}
use public_inbox.Args.{Bytes}

or_false_before : (b : Bool) → b ≡ b || false
or_false_before true = refl
or_false_before false = refl

or_true_before : (b c : Bool) → (true || b) ≡ (c || true)
or_true_before b true = refl
or_true_before b false = refl

signals_waited :
    (outs : Outsides) (n : ℕ) (es : List Event) (w : Worker)
    → w.sock_open ≡ true
    → recv_loop outs (replicate n (signal sigusr1) ++ es) w
      ≡ recv_loop outs es (record w { needs_reopen = w.needs_reopen || ltb 0 n })
unfolding recv_loop sigw
signals_waited outs zero es w o =
    ap (λ b. recv_loop outs es (record w { needs_reopen = b })) (or_false_before w.needs_reopen)
signals_waited outs (suc n) es w o = ground (
  arith,
  o,
  signals_waited outs n es (record w { needs_reopen = true }) o,
  or_true_before (ltb 0 n) w.needs_reopen,
)

closed_ends :
    (outs : Outsides) (es : List Event) (w : Worker)
    → w.sock_open ≡ false
    → recv_loop outs es w ≡ stop (exits 0)
unfolding recv_loop
closed_ends outs [] w c = ground (arith, c)
closed_ends outs (e ∷ es) w c = ground (arith, c)

-- SIGTERM in the wait for a request after any number of SIGUSR1 ends the
-- process with 0, and nothing that would come is served.
pub recv_loop-sigterm :
    (outs : Outsides) (n : ℕ) (es : List Event) (w : Worker)
    → w.sock_open ≡ true
    → recv_loop outs (replicate n (signal sigusr1) ++ (signal sigterm ∷ es)) w ≡ stop (exits 0)
unfolding recv_loop sigw
recv_loop-sigterm outs n es w o =
    signals_waited outs n (signal sigterm ∷ es) w o
    ∙ ground (
      arith,
      o,
      closed_ends outs es (record w { sock_open = false; needs_reopen = w.needs_reopen || ltb 0 n })
          refl,
    )

sigws-usr1 :
    (m : ℕ) (w : Worker)
    → sigws (replicate m sigusr1) w ≡ record w { needs_reopen = w.needs_reopen || ltb 0 m }
unfolding sigws sigw
sigws-usr1 zero w = ap (λ b. record w { needs_reopen = b }) (or_false_before w.needs_reopen)
sigws-usr1 (suc m) w = ground (
  arith,
  sigws-usr1 m (record w { needs_reopen = true }),
  or_true_before (ltb 0 m) w.needs_reopen,
)

-- A packet of joined arguments, with SIGUSR1 `after` times behind it.
abbrev pub packet_of : List Bytes → List FdMode → ℕ → Packet
packet_of args fds after = record {
  rbuf = join args;
  truncated = false;
  fds = fds;
  late = replicate after sigusr1;
}

-- The worker after a request whose command has come back: the arguments, the answer and the handles
-- are recorded, stderr is its own again, and the logs are reopened once if SIGUSR1 came.
abbrev pub after_request : Bool → List Bytes → Answer × Cache → Worker → Worker
after_request usr1 args (a, c) w = record w {
  needs_reopen = false;
  reopened = if w.needs_reopen || usr1 then w.reopened + 1 else w.reopened;
  redirected = false;
  served = w.served ++ (args ∷ []);
  answers = w.answers ++ (a ∷ []);
  cache = c;
}

after_dispatch_lem :
    (o : Outside) (args : List Bytes) (r : Answer × Cache) (w : Worker) (usr1 err : Bool)
    → LogsWork o.logs
    → o.stderr_restore_works ≡ true
    → comes_back r.0.flow ≡ true
    → w.in_command ≡ false
    → after_dispatch o args r (record w { needs_reopen = w.needs_reopen || usr1; redirected = err })
      ≡ ok (after_request usr1 args r w)
unfolding after_dispatch
after_dispatch_lem o args (a, c) w usr1 err l sr b i = elim (Bool-cases (w.needs_reopen || usr1)) [
  | inl y ↦ ground (arith, b, i, y, sr, reopen_logs-logs_work o.logs w.reopened, l w.reopened)
  | inr n ↦ ground (arith, b, i, n, sr)
]

serve_lem :
    (outs : Outsides) (m : ℕ) (b : ℕ) (a : Bytes) (rest : List Bytes) (fds : List FdMode)
    (streams : Streams) (r : Answer × Cache) (w : Worker)
    → LogsWork (outs (length w.served)).logs
    → (outs (length w.served)).stderr_set_works ≡ true
    → (outs (length w.served)).stderr_restore_works ≡ true
    → All NoNul ((b ∷ a) ∷ rest)
    → 1 + length rest < 256
    → take_packet (packet_of ((b ∷ a) ∷ rest) fds m) ≡ ok streams
    → dispatch (outs (length w.served)) ((b ∷ a) ∷ rest) (ltb 1 streams.count) w.cache ≡ ok r
    → comes_back r.0.flow ≡ true
    → w.in_command ≡ false
    → serve outs (packet_of ((b ∷ a) ∷ rest) fds m) w
      ≡ ok (after_request (ltb 0 m) ((b ∷ a) ∷ rest) r w)
unfolding serve
serve_lem outs m b a rest fds streams r w lw ss sr nn l t d f i =
    let (s, c) = split2argv-join b a rest 256 nn l (omega arith) in
    ground (
      arith,
      s,
      c,
      sigws-usr1 m w,
      ss,
      t,
      d,
      after_dispatch_lem (outs (length w.served)) ((b ∷ a) ∷ rest) r w (ltb 0 m)
          (ltb 1 streams.count) lw sr f i,
    )

-- SIGUSR1 n times before a packet and m times behind it, where the packet holds the joined arguments
-- b ∷ a and rest, fewer than 256, with usable streams, the logs can be reopened and stderr be set, the worker survives their dispatch, and the
-- command comes back: the worker serves exactly these arguments, with the answer and the handles of
-- dispatch, and waits on, with the logs reopened once if any SIGUSR1 came since the last request.
pub recv_loop-serves :
    (outs : Outsides) (n m : ℕ) (b : ℕ) (a : Bytes) (rest : List Bytes) (fds : List FdMode)
    (streams : Streams) (r : Answer × Cache) (es : List Event) (w : Worker)
    → w.sock_open ≡ true
    → w.in_command ≡ false
    → LogsWork (outs (length w.served)).logs
    → (outs (length w.served)).stderr_set_works ≡ true
    → (outs (length w.served)).stderr_restore_works ≡ true
    → All NoNul ((b ∷ a) ∷ rest)
    → 1 + length rest < 256
    → take_packet (packet_of ((b ∷ a) ∷ rest) fds m) ≡ ok streams
    → dispatch (outs (length w.served)) ((b ∷ a) ∷ rest) (ltb 1 streams.count) w.cache ≡ ok r
    → comes_back r.0.flow ≡ true
    → recv_loop outs
        (replicate n (signal sigusr1) ++ (packet (packet_of ((b ∷ a) ∷ rest) fds m) ∷ es))
        w
      ≡ recv_loop outs es (after_request (ltb 0 n || ltb 0 m) ((b ∷ a) ∷ rest) r w)
unfolding recv_loop
recv_loop-serves outs n m b a rest fds streams r es w o i lw ss sr nn l t d f =
    let args = (b ∷ a) ∷ rest in
    let p = packet_of args fds m in
    let v : Worker = record w { needs_reopen = w.needs_reopen || ltb 0 n } in
    let q = serve_lem outs m b a rest fds streams r v lw ss sr nn l t d f i in
    let step : recv_loop outs (packet p ∷ es) v
        ≡ recv_loop outs es (after_request (ltb 0 m) args r v) =
      ground (arith, o, q, i) in
    signals_waited outs n (packet p ∷ es) w o
    ∙ step
    ∙ ap
        (λ x. recv_loop outs es (record w {
          needs_reopen = false;
          reopened = if x then w.reopened + 1 else w.reopened;
          redirected = false;
          served = w.served ++ (args ∷ []);
          answers = w.answers ++ (r.0 ∷ []);
          cache = r.1;
        }))
        (or_assoc w.needs_reopen (ltb 0 n) (ltb 0 m))
