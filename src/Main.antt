-- ===== src/Main.antt =====
-- main of lib/PublicInbox/xap_helper.h, xsetfl, and how prefork_loop and dynfork_loop begin: the
-- checks, the switches, the signal masks, and which loop runs, with the limit on descriptors. What
-- the calls of libc return and what getopt gives are parameters. The set-up of Xapian's processors,
-- whose code is generated, and sigaction are left out.
mod SignalSets
pub mod Switches
pub mod Starts
pub mod Signals
pub mod Alone
pub mod Serving
mod Tests
use public_inbox.Workers.{
  Pool, Signal, System, worker_max, sigterm, sigusr1, sigchld, sigttin, sigttou,
}
use public_inbox.EventLoop.{Wake, Poll, prefork_start, prefork_loop, dynfork_loop}
use public_inbox.Receive.{Event, Outsides, Worker, recv_loop}
use public_inbox.Cache.{World}
use public_inbox.Options.{Switch}
use public_inbox.Base.{
  ltb, ◌==◌, if◌then◌else◌, set, Run, stop_if, ◌>>=◌, ◌>>◌, exits, ok, stop, ℕ, ◌-◌, ◌*◌, ◌^◌, ◌⊎◌,
  inl, inr, Bool, true, false, not, ◌||◌, Option, none, some, List, [], ◌∷◌,
}
use public_inbox.Args.{Bytes}
unfoldable pub use SignalSets.*

-- What the calls return: getsockopt, `none` for an error, or whether the socket is SOCK_SEQPACKET;
-- whether stderr can be assigned to, and whether dup and setvbuf work; strtoul; pipe; for the i-th
-- call of xsetfl whether F_GETFL and F_SETFL work; and the limit of getrlimit.
pub record Host : Type 0 where
  pub seqpacket : Option Bool
  pub stderr_assignable : Bool
  pub dup_works : Bool
  pub linebuf_works : Bool
  pub strtoul : Bytes → ℕ × Bytes
  pub pipe_works : Bool
  pub fcntl : ℕ → Bool × Bool
  pub rlimit : Option ℕ

-- The static variables that the switches set.
pub record Settings : Type 0 where
  pub nworker : ℕ
  pub lei : Bool

-- `switch (c)`, for what getopt gives; ':' and '?' are for its errors.
unfoldable pub main_switch : Host → Switch → Settings → Run Settings
main_switch h s g =
    if s.letter == b'j'
    then (let (n, end) = h.strtoul s.arg in
        elim end [
          | b ∷ bs ↦ stop (exits 1)
          | [] ↦ if ltb worker_max n then stop (exits 1) else ok (record g { nworker = n })
        ])
    else if s.letter == b'l'
    then ok (record g { lei = true })
    else stop (exits 1)

unfoldable pub main_switches : Host → List Switch → Settings → Run Settings
unfolding main_switch
main_switches h [] g = ok g
main_switches h (s ∷ ss) g = main_switch h s g >>= main_switches h ss

unfoldable pub xsetfl : Host → ℕ → Run (Unit {0})
xsetfl h i =
    let (get, set) = h.fcntl i in stop_if (not get) (exits 1) >> stop_if (not set) (exits 1)

-- `my_fd_max = rl.rlim_cur; my_fd_max -= 64`, in a long. A negative limit stands as 0, which no
-- handle fits in either.
unfoldable pub fd_max : ℕ → ℕ
fd_max rlim_cur = if ltb rlim_cur (2 ^ 63) then rlim_cur - 64 else 0

-- Which loop runs.
pub data Loop : Type 0 where
  alone dynfork prefork : Loop

pub record Setup : Type 0 where
  pub settings : Settings
  pub masks : Masks
  pub loop : Loop
  pub my_fd_max : ℕ

-- The part behind the switches, up to the `while` of the loop.
unfoldable pub choose_loop : Host → Settings → Run Setup
unfolding masks xsetfl fd_max
choose_loop h g = elim (g.nworker == 0) [
  | true ↦ ok (record { settings = g; masks = masks g.nworker; loop = alone; my_fd_max = 0 })
  | false ↦ stop_if (not h.pipe_works) (exits 1) >> xsetfl h 0 >> elim g.lei [
    | true ↦
        xsetfl h 1
        >> xsetfl h 2
        >> ok (record { settings = g; masks = masks g.nworker; loop = dynfork; my_fd_max = 128 })
    | false ↦ elim h.rlimit [
      | none ↦ stop (exits 1)
      | some cur ↦
          ok (record {
            settings = g;
            masks = masks g.nworker;
            loop = prefork;
            my_fd_max = fd_max cur;
          })
    ]
  ]
]

unfoldable pub main_setup : Host → List Switch → Run Setup
unfolding main_switches choose_loop
main_setup h ss = elim h.seqpacket [
  | none ↦ stop (exits 1)
  | some seqpacket ↦
      stop_if (not seqpacket) (exits 1)
      >> stop_if (not (h.stderr_assignable || h.dup_works)) (exits 1)
      >> stop_if (not h.linebuf_works) (exits 1)
      >> (main_switches h ss (record { nworker = 1; lei = false }) >>= choose_loop h)
]

-- What the requests of the process see of it.
abbrev pub world_of : (Bytes → Bool) → Setup → World
world_of is_regular s = record {
  is_regular = is_regular;
  my_fd_max = s.my_fd_max;
  lei = s.settings.lei;
}

-- A process that has served nothing yet.
abbrev pub first_worker : Worker
first_worker = record {
  sock_open = true;
  needs_reopen = false;
  reopened = 0;
  redirected = false;
  served = [];
  answers = [];
  cache = record { handles = []; shard_nfd = 0 };
  in_command = false;
}

-- The static variables of the pool when dynfork_loop begins.
abbrev pub first_pool : ℕ → Pool
first_pool n = record {
  nworker = n;
  nworker_hwm = 0;
  pids = [];
  alive = true;
  forks = 0;
  signals = [];
  reopened = 0;
}

-- main: the worker that it has become, or whether its loop has ended, with the pool.
unfoldable pub main :
    Host
    → System
    → Outsides
    → List Event
    → List Poll
    → List Wake
    → List Switch
    → Run (Worker ⊎ (Bool × Pool))
unfolding main_setup
main h sys outs es ps ws ss = main_setup h ss >>= λ s. elim s.loop [
  | alone ↦ recv_loop outs es first_worker >>= λ w. ok (inl w)
  | dynfork ↦ dynfork_loop sys ps (first_pool s.settings.nworker) >>= λ r. ok (inr r)
  | prefork ↦
      prefork_start sys s.settings.nworker >>= λ p. prefork_loop sys ws p >>= λ r. ok (inr r)
]
