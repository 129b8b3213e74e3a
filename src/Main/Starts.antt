-- ===== src/Main/Starts.antt =====
-- From main's switches to its loop.
use public_inbox.Main.{
  Host, Settings, Setup, main_switches, main_setup, choose_loop, alone, dynfork, prefork, main,
}
use public_inbox.Main.Switches.{main_switches-worker_max}
use public_inbox.Workers.{worker_max, Pool, System}
use public_inbox.Workers.Spawn.{start_workers_steps}
use public_inbox.Workers.Reap.{IsValid}
use public_inbox.EventLoop.{Wake, Poll, prefork_start}
use public_inbox.EventLoop.Ends.{NoneLeft}
use public_inbox.EventLoop.Safety.{
  Works, NoGrow, IsPeak, prefork_loop-NoGrow, prefork_loop-NoneLeft,
}
use public_inbox.Receive.{Event, Outsides}
use public_inbox.Options.{Switch}
use public_inbox.Stderr.Logs.{LogsFail}
use public_inbox.Base.{
  ◌==◌, Bool-cases, Option-cases, replicate, All, length-replicate, >>=-ok, exits, ok, stop, ℕ, ◌≤◌,
  ◌≡◌, sym, ap, subst, ◌∙◌, ◌≢◌, ◌⊎◌, inl, inr, Bool, true, false, List, [], arith,
}

abbrev pub default_settings : Settings
default_settings = record { nworker = 1; lei = false }

-- What choose_loop makes of the settings.
abbrev pub Chosen : Setup → Type 0
Chosen s =
    ((s.loop ≡ alone) × (s.settings.nworker ≡ 0) × (s.my_fd_max ≡ 0))
    ⊎ (((s.loop ≡ dynfork) × (s.settings.lei ≡ true) × (s.my_fd_max ≡ 128))
        ⊎ ((s.loop ≡ prefork) × (s.settings.nworker ≢ 0) × (s.settings.lei ≡ false)))

pub choose_loop-Chosen :
    (h : Host) (g : Settings) (s : Setup) → choose_loop h g ≡ ok s → (s.settings ≡ g) × Chosen s
unfolding choose_loop
choose_loop-Chosen h g s e = elim (Bool-cases (g.nworker == 0)) [
  | inl z ↦ (ground arith, inl (ground arith, ground arith, ground arith))
  | inr n ↦ elim (Bool-cases g.lei) [
    | inl l ↦ (ground arith, inr (inl (ground arith, ground arith, ground arith)))
    | inr l ↦ elim (Option-cases h.rlimit) [
      | inl r ↦ absurd (ground arith)
      | inr (cur, r) ↦ (ground arith, inr (inr (ground arith, λ z. ground arith, ground arith)))
    ]
  ]
]

pub main_setup-settings :
    (h : Host) (ss : List Switch) (s : Setup)
    → main_setup h ss ≡ ok s
    → (g : Settings) × (main_switches h ss default_settings ≡ ok g) × (choose_loop h g ≡ ok s)
unfolding main_setup
main_setup-settings h ss s e = elim (Option-cases h.seqpacket) [
  | inl n ↦ absurd (ground arith)
  | inr (b, n) ↦ >>=-ok (main_switches h ss default_settings) (choose_loop h) (ground arith)
]

prefork_start-IsPeak :
    (e : System) (n : ℕ) → n ≤ worker_max → (p : Pool) × (prefork_start e n ≡ ok p) × IsPeak p
unfolding prefork_start
prefork_start-IsPeak e n l =
    let p : Pool = record {
      nworker = n;
      nworker_hwm = n;
      pids = replicate n 0;
      alive = true;
      forks = 0;
      signals = [];
      reopened = 0;
    } in
    let (q, a, k, _) = start_workers_steps e p (omega (arith, length-replicate {A = ℕ} n 0)) in
    (
      q,
      a,
      record {
        valid = record {
          sized = k.sized ∙ length-replicate {A = ℕ} n 0 ∙ sym k.nworker_hwm;
          within = omega (arith, k.nworker, k.nworker_hwm);
          bounded = omega (arith, k.nworker_hwm);
        };
        peak = k.nworker ∙ sym k.nworker_hwm;
      },
    )

-- Where main is set up for the prefork loop, read and waitpid work and no SIGTTIN comes, whatever the
-- forks give and whatever the order of the events: main leaves a valid pool, and ends only when that
-- is no longer alive and records no worker; or it ends the process with 1, and that only where some
-- call of reopen_logs cannot reopen a log.
pub main-NoGrow :
    (h : Host) (sys : System) (outs : Outsides) (es : List Event) (ps : List Poll) (ws : List Wake)
    (ss : List Switch) (s : Setup)
    → main_setup h ss ≡ ok s
    → s.loop ≡ prefork
    → All (Works NoGrow) ws
    → ((done : Bool) × (q : Pool) × (main h sys outs es ps ws ss ≡ ok (inr (done, q)))
        × IsValid q
        × ((done ≡ false) ⊎ ((q.alive ≡ false) × NoneLeft q.pids)))
      ⊎ (LogsFail sys.logs × (main h sys outs es ps ws ss ≡ stop (exits 1)))
unfolding main
main-NoGrow h sys outs es ps ws ss s e l g =
    let (v, m, c) = main_setup-settings h ss s e in
    let (_, _, w) = main_switches-worker_max h ss default_settings v (omega arith) m in
    let (kept, _) = choose_loop-Chosen h v s c in
    let few = subst (λ x. x.nworker ≤ worker_max) (sym kept) w in
    let (p, a, peak) = prefork_start-IsPeak sys s.settings.nworker few in
    elim (prefork_loop-NoGrow sys ws p g peak.valid) [
      | inr (f, b) ↦ inr (f, ground (arith, e, l, a, b))
      | inl ((finished, q), b, valid) ↦ inl (
        finished,
        q,
        ground (arith, e, l, a, b),
        valid,
        elim (Bool-cases finished) [
          | inr n ↦ inl n
          | inl y ↦ inr (prefork_loop-NoneLeft sys ws p q g peak.valid (b ∙ ap (λ d. ok (d, q)) y))
        ],
      )
    ]
