-- ===== src/Main/Tests.antt =====
-- -j 2, and -j 0 with the request of Cache.Tests.
use public_inbox.Main.{
  Host, Setup, main, main_setup, main_switches, main_switch, choose_loop, masks, fd_max, xsetfl,
  alone, prefork,
}
use public_inbox.Main.Switches.{main_switches_lem, all_accepted, last_number, has_lei}
use public_inbox.Main.Starts.{main-NoGrow, default_settings}
use public_inbox.EventLoop.{read_eintr, chunk, Wake}
use public_inbox.EventLoop.Ends.{NoneLeft}
use public_inbox.Workers.{Pool, no_child}
use public_inbox.Workers.Reap.{IsValid}
use public_inbox.Workers.Tests.{always}
use public_inbox.Dispatch.Tests.{outside, mset_args}
use public_inbox.Options.{Switch}
use public_inbox.Cache.{Cache, Handle, mail_parser}
use public_inbox.Cache.Tests.{asked, no_code}
use public_inbox.Prefix.Tests.{c_strtoull, read_digits}
use public_inbox.Receive.Answers.{AllAnswered, asks}
use public_inbox.Receive.{Worker}
use public_inbox.Receive.Tests.{asking, answered, asking-Answered}
use public_inbox.Main.Serving.{main-answers}
use public_inbox.Stderr.Logs.{LogsFail}
use public_inbox.Base.{
  exits, ok, stop, ◌≡◌, refl, ◌⊎◌, inl, inr, Bool, true, false, some, List, [], ◌∷◌,
}
use public_inbox.Args.{Bytes}

abbrev host : Host
host = record {
  seqpacket = some true;
  stderr_assignable = false;
  dup_works = true;
  linebuf_works = true;
  strtoul = c_strtoull;
  pipe_works = true;
  fcntl = λ i. (true, true);
  rlimit = some 1024;
}

abbrev j_switch : Bytes → List Switch
j_switch number = record { letter = b'j'; pad = 0; arg = number } ∷ []

abbrev two_workers : List Switch
two_workers = j_switch (b'2' ∷ [])

abbrev no_workers : List Switch
no_workers = j_switch (b'0' ∷ [])

main_switches_lem_example :
    main_switches host two_workers default_settings ≡ ok (record { nworker = 2; lei = false })
unfolding all_accepted last_number has_lei c_strtoull read_digits
main_switches_lem_example = main_switches_lem host two_workers default_settings

abbrev two_setup : Setup
two_setup = record {
  settings = record { nworker = 2; lei = false };
  masks = masks 2;
  loop = prefork;
  my_fd_max = 960;
}

two_workers-setup : main_setup host two_workers ≡ ok two_setup
unfolding main_setup main_switches main_switch choose_loop fd_max xsetfl c_strtoull read_digits
two_workers-setup = refl

abbrev wakes : List Wake
wakes = read_eintr ∷ chunk (b'-' ∷ []) (no_child ∷ []) ∷ []

main-NoGrow_example :
    ((done : Bool) × (q : Pool) × (main host always (λ i. outside 4) [] [] wakes two_workers
        ≡ ok (inr (done, q)))
      × IsValid q
      × ((done ≡ false) ⊎ ((q.alive ≡ false) × NoneLeft q.pids)))
    ⊎ (LogsFail always.logs
        × (main host always (λ i. outside 4) [] [] wakes two_workers ≡ stop (exits 1)))
main-NoGrow_example =
    main-NoGrow host always (λ i. outside 4) [] [] wakes two_workers two_setup two_workers-setup
      refl ((tt), (((inr (inl refl), tt), ((λ e. cc), tt)), tt))

abbrev no_setup : Setup
no_setup = record {
  settings = record { nworker = 0; lei = false };
  masks = masks 0;
  loop = alone;
  my_fd_max = 0;
}

no_workers-setup : main_setup host no_workers ≡ ok no_setup
unfolding main_setup main_switches main_switch choose_loop c_strtoull read_digits
no_workers-setup = refl

abbrev found : Handle
found = record {
  ckey = asked.1;
  shards = asked.0.dirv;
  phrase = true;
  parser = mail_parser;
  prefixes = [];
}

abbrev after_asked : Cache
after_asked = record { handles = found ∷ []; shard_nfd = 8 }

main-answers_example :
    (v : Worker) × (main host always
        (λ i. outside 0)
        (asks ((asking, answered) ∷ []))
        []
        []
        no_workers
      ≡ ok (inl v))
    × (v.served ≡ mset_args ∷ [])
    × (v.answers ≡ answered ∷ [])
unfolding AllAnswered
main-answers_example =
    main-answers host always (λ i. outside 0) ((asking, answered) ∷ []) [] [] no_workers no_setup
      (λ path. false) no_code no_workers-setup refl (asking-Answered 0, tt)
