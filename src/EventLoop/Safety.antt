-- ===== src/EventLoop/Safety.antt =====
-- The prefork loop stays within `worker_pids`, whatever the order of its events.
use public_inbox.EventLoop.{
  read_eintr, read_eagain, read_error, read_eof, chunk, Wake, control, prefork_loop, controls,
  prefork_wake, keep_going,
}
use public_inbox.Workers.Reap.{IsValid, reaped_prefork_worker_steps}
use public_inbox.Workers.Signals.{parent_reopen_logs_lem, do_sigttou_lem, kills}
use public_inbox.Workers.Resize.{do_sigttin_steps}
use public_inbox.EventLoop.Ends.{NoneLeft, keep_going-false}
use public_inbox.Stderr.Logs.{LogsFail, logs_work}
use public_inbox.Base.{
  ltb, ◌==◌, if◌then◌else◌, Bool-cases, length, drop, All, get_elem?_lt, Run, ok-injective, exits,
  ok, stop, ℕ, zero, suc, ◌+◌, ◌-◌, ◌≤◌, ◌≡◌, refl, sym, subst, ◌∙◌, ◌≢◌, ◌⊎◌, inl, inr, Bool, true,
  false, not, ◌&&◌, List, [], ◌∷◌, ◌++◌, arith,
}
use public_inbox.Workers.{
  Pool, child, no_child, interrupted, wait_error, Wait, do_sigchld, living_workers, count_living,
  do_sigttin, read_pid, worker_max, sigterm, sigusr1, do_sigttou, parent_reopen_logs, System,
}

-- A byte other than SIGTTIN's, and one other than SIGTTOU's, that sigp may write.
abbrev pub NoGrow : ℕ → Type 0
NoGrow c = (c ≡ b'.') ⊎ ((c ≡ b'-') ⊎ (c ≡ b'#'))

abbrev pub NoShrink : ℕ → Type 0
NoShrink c = (c ≡ b'.') ⊎ ((c ≡ b'+') ⊎ (c ≡ b'#'))

abbrev pub WaitWorks : Wait → Type 0
WaitWorks w = w ≢ wait_error

-- Nothing fails in read and waitpid, and each byte is as P says.
abbrev pub Works : (ℕ → Type 0) → Wake → Type 0
Works P (chunk cs ws) = All P cs × All WaitWorks ws
Works P read_eintr = Unit {0}
Works P _ = ⊥

-- A valid pool that has not shrunk.
pub record IsPeak (p : Pool) : Type 0 where
  pub valid : IsValid p
  pub peak : p.nworker ≡ p.nworker_hwm

count_living_total :
    (n nr ret : ℕ) (p : Pool) → nr + n ≤ length p.pids → (m : ℕ) × (count_living n nr ret p ≡ ok m)
unfolding count_living read_pid
count_living_total zero nr ret p h = (ret, refl)
count_living_total (suc n) nr ret p h =
    let (v, a) = get_elem?_lt p.pids nr (omega arith) in
    rw a (count_living_total n (nr + 1) (if v == 0 then ret else ret + 1) p (omega arith))

keep_going_total : (p : Pool) → IsValid p → (more : Bool) × (keep_going p ≡ ok more)
unfolding keep_going living_workers
keep_going_total p v =
    let (m, a) = count_living_total p.nworker_hwm 0 0 p (omega (arith, v.sized)) in
    elim (Bool-cases p.alive) [
      | inl yes_alive ↦ (true, ground arith)
      | inr ended ↦ (not (m == 0), ground arith)
    ]

do_sigchld_steps :
    (e : System) (ws : List Wait) (p : Pool)
    → All WaitWorks ws
    → IsValid p
    → (q : Pool) × (do_sigchld e false ws p ≡ ok q)
      × IsValid q
      × (q.nworker ≡ p.nworker)
      × (q.nworker_hwm ≡ p.nworker_hwm)
unfolding do_sigchld
do_sigchld_steps e [] p w v = (p, refl, v, refl, refl)
do_sigchld_steps e (no_child ∷ ws) p w v = (p, refl, v, refl, refl)
do_sigchld_steps e (interrupted ∷ ws) p w v = do_sigchld_steps e ws p w.1 v
do_sigchld_steps e (wait_error ∷ ws) p w v = absurd (w.0 refl)
do_sigchld_steps e (child pid st ∷ ws) p w v =
    let (r, s, v', c) = reaped_prefork_worker_steps e pid st p v in
    let (q, t, u, n, h) = do_sigchld_steps e ws r w.1 v' in
    let same : (r.nworker ≡ p.nworker) × (r.nworker_hwm ≡ p.nworker_hwm) = elim c [
      | inl (z, _) ↦ rw z (refl, refl)
      | inr (k, _) ↦ (k.nworker, k.nworker_hwm)
    ] in
    (q, rw s t, u, n ∙ same.0, h ∙ same.1)

-- A run that gives a state with I, or one that ends the process with 1, which F tells the reason of.
abbrev pub Keeps : {A : Type 0} → Type 0 → (A → Type 0) → Run A → Type 0
Keeps {A} F I m = ((q : A) × (m ≡ ok q) × I q) ⊎ (F × (m ≡ stop (exits 1)))

-- The loop keeps an invariant, and is stopped for the reason F only, if the invariant gives a valid
-- pool and each part of the body keeps it.
module _ (e : System) (F : Type 0) (I : Pool → Type 0) (P : ℕ → Type 0)
    (valid : (p : Pool) → I p → IsValid p)
    (reaps : (ws : List Wait) (p : Pool)
      → All WaitWorks ws
      → I p
      → (q : Pool) × (do_sigchld e false ws p ≡ ok q) × I q)
    (obeys : (c : ℕ) (p : Pool) → P c → I p → Keeps F I (control e c p)) where
  controls_keep : (cs : List ℕ) (p : Pool) → All P cs → I p → Keeps F I (controls e cs p)
  unfolding controls
  controls_keep [] p g i = inl (p, refl, i)
  controls_keep (c ∷ cs) p g i = elim (obeys c p g.0 i) [
    | inl (r, s, j) ↦ rw s (controls_keep cs r g.1 j)
    | inr (f, s) ↦ inr (f, rw s)
  ]

  prefork_wake_keep : (w : Wake) (p : Pool) → Works P w → I p → Keeps F I (prefork_wake e w p)
  unfolding prefork_wake
  prefork_wake_keep read_eintr p g i = inl (p, refl, i)
  prefork_wake_keep read_eagain p g i = absurd g
  prefork_wake_keep read_error p g i = absurd g
  prefork_wake_keep read_eof p g i = absurd g
  prefork_wake_keep (chunk cs ws) p g i =
      let (r, s, j) = reaps ws p g.1 i in rw s (controls_keep cs r g.0 j)

  prefork_loop_keep :
      (ws : List Wake) (p : Pool)
      → All (Works P) ws
      → I p
      → Keeps F (λ r. I r.1 × (keep_going r.1 ≡ ok (not r.0))) (prefork_loop e ws p)
  unfolding prefork_loop
  prefork_loop_keep [] p g i =
      let (more, s) = keep_going_total p (valid p i) in
      inl ((not more, p), rw s, (i, s ∙ ground arith))
  prefork_loop_keep (w ∷ ws) p g i =
      let (more, s) = keep_going_total p (valid p i) in
      elim (Bool-cases more) [
        | inl m ↦ elim (prefork_wake_keep w p g.0 i) [
          | inl (r, a, j) ↦ rw (s, m, a) (prefork_loop_keep ws r g.1 j)
          | inr (f, a) ↦ inr (f, rw (s, m, a))
        ]
        | inr m ↦ inl ((true, p), rw (s, m), (i, s ∙ rw m))
      ]

-- Each part of the body keeps a pool valid as long as no SIGTTIN comes.
do_sigttou_total : (p : Pool) → IsValid p → (q : Pool) × (do_sigttou p ≡ ok q) × IsValid q
do_sigttou_total p v = elim (Bool-cases (p.alive && ltb 1 p.nworker)) [
  | inl go ↦ (
    record p {
      nworker = p.nworker - 1;
      signals = p.signals ++ kills sigterm (drop (p.nworker - 1) p.pids);
    },
    ground (arith, do_sigttou_lem p v),
    record { sized = v.sized; within = omega (arith, v.within); bounded = v.bounded },
  )
  | inr stay ↦ (p, ground (arith, do_sigttou_lem p v), v)
]

-- The pool after its logs have been reopened.
abbrev told : Pool → Pool
told p = record p {
  reopened = p.reopened + 1;
  signals = p.signals ++ kills sigusr1 (drop p.nworker p.pids);
}

parent_reopen_logs-Keeps :
    (e : System) (I : Pool → Type 0) (p : Pool)
    → IsValid p
    → I (told p)
    → Keeps (LogsFail e.logs) I (parent_reopen_logs e p)
parent_reopen_logs-Keeps e I p v i = elim (Bool-cases (logs_work e.logs p.reopened)) [
  | inl y ↦ inl (told p, parent_reopen_logs_lem e p v ∙ rw y, i)
  | inr n ↦ inr ((p.reopened, n), parent_reopen_logs_lem e p v ∙ rw n)
]

obeys-NoGrow :
    (e : System) (c : ℕ) (p : Pool)
    → NoGrow c
    → IsValid p
    → Keeps (LogsFail e.logs) IsValid (control e c p)
unfolding control
obeys-NoGrow e c p g v = elim g [
  | inl dot ↦ inl (p, rw dot, v)
  | inr (inl dash) ↦ let (q, s, w) = do_sigttou_total p v in inl (q, rw dash s, w)
  | inr (inr hash) ↦ rw hash (
      parent_reopen_logs-Keeps e IsValid p v
        (record { sized = v.sized; within = v.within; bounded = v.bounded }))
]

do_sigttin_total :
    (e : System) (p : Pool) → IsPeak p → (q : Pool) × (do_sigttin e p ≡ ok q) × IsPeak q
unfolding do_sigttin
do_sigttin_total e p v =
    elim (Bool-cases (p.alive && ltb p.nworker worker_max && e.realloc (p.nworker + 1))) [
      | inl go ↦
          let (q, s, w, n, peak, _, _, _, _) =
            do_sigttin_steps e p v.valid v.peak (ground arith) (ground arith) (ground arith) in
          (q, s, record { valid = w; peak = peak })
      | inr stay ↦ (p, ground arith, v)
    ]

obeys-NoShrink :
    (e : System) (c : ℕ) (p : Pool)
    → NoShrink c
    → IsPeak p
    → Keeps (LogsFail e.logs) IsPeak (control e c p)
unfolding control
obeys-NoShrink e c p g v = elim g [
  | inl dot ↦ inl (p, rw dot, v)
  | inr (inl plus) ↦ let (q, s, w) = do_sigttin_total e p v in inl (q, rw plus s, w)
  | inr (inr hash) ↦ rw hash (
      parent_reopen_logs-Keeps e IsPeak p v.valid (record {
        valid = record {
          sized = v.valid.sized;
          within = v.valid.within;
          bounded = v.valid.bounded;
        };
        peak = v.peak;
      }))
]

prefork_loop-Keeps :
    (e : System) (ws : List Wake) (p : Pool)
    → All (Works NoGrow) ws
    → IsValid p
    → Keeps
        (LogsFail e.logs)
        (λ r. IsValid r.1 × (keep_going r.1 ≡ ok (not r.0)))
        (prefork_loop e ws p)
prefork_loop-Keeps e =
    prefork_loop_keep e (LogsFail e.logs) IsValid NoGrow (λ q w. w)
      (λ ws q h w. let (r, a, u, _, _) = do_sigchld_steps e ws q h w in (r, a, u)) (obeys-NoGrow e)

-- While read and waitpid work and no SIGTTIN comes, the loop from a valid pool stays within the
-- array: either it ends or waits, and leaves the pool valid, or it ends the process with 1, and that
-- only where some call of reopen_logs cannot reopen a log.
pub prefork_loop-NoGrow :
    (e : System) (ws : List Wake) (p : Pool)
    → All (Works NoGrow) ws
    → IsValid p
    → Keeps (LogsFail e.logs) (λ r. IsValid r.1) (prefork_loop e ws p)
prefork_loop-NoGrow e ws p g v = elim (prefork_loop-Keeps e ws p g v) [
  | inl (r, a, (w, _)) ↦ inl (r, a, w)
  | inr x ↦ inr x
]

-- While read and waitpid work and no SIGTTOU comes, the loop from a valid pool that has not shrunk
-- stays within the array: either it ends or waits, and leaves such a pool, or it ends the process
-- with 1, and that only where some call of reopen_logs cannot reopen a log.
pub prefork_loop-NoShrink :
    (e : System) (ws : List Wake) (p : Pool)
    → All (Works NoShrink) ws
    → IsPeak p
    → Keeps (LogsFail e.logs) (λ r. IsPeak r.1) (prefork_loop e ws p)
prefork_loop-NoShrink e ws p g v =
    let kept =
      prefork_loop_keep e (LogsFail e.logs) IsPeak NoShrink (λ q w. w.valid)
        (λ ws q h w.
          let (r, a, u, n, m) = do_sigchld_steps e ws q h w.valid in
          (r, a, record { valid = u; peak = n ∙ w.peak ∙ sym m }))
        (obeys-NoShrink e) ws p g v in
    elim kept [ inl (r, a, (w, _)) ↦ inl (r, a, w) | inr x ↦ inr x ]

-- While read and waitpid work and no SIGTTIN comes, a loop that ends from a valid pool does so
-- only when the pool's life is over and every recorded pid is 0: no worker is left behind.
pub prefork_loop-NoneLeft :
    (e : System) (ws : List Wake) (p q : Pool)
    → All (Works NoGrow) ws
    → IsValid p
    → prefork_loop e ws p ≡ ok (true, q)
    → (q.alive ≡ false) × NoneLeft q.pids
prefork_loop-NoneLeft e ws p q g v h = elim (prefork_loop-Keeps e ws p g v) [
  | inr (f, a) ↦ absurd (ground arith)
  | inl (r, a, (w, c)) ↦
      let (w', c') : IsValid q × (keep_going q ≡ ok false) =
        subst (λ x. IsValid x.1 × (keep_going x.1 ≡ ok (not x.0))) (ok-injective (sym a ∙ h))
          (w, c) in
      keep_going-false q w'.sized c'
]
