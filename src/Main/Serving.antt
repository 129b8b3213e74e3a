-- ===== src/Main/Serving.antt =====
-- With -j 0 main is a worker itself: what it answers.
use public_inbox.Main.{Host, Setup, main, main_setup, alone, world_of, first_worker}
use public_inbox.Receive.{Outsides, Worker, recv_loop}
use public_inbox.Receive.Answers.{Ask, ask_args, asks, AllAnswered, recv_loop-answers}
use public_inbox.Dispatch.{Answer}
use public_inbox.Cache.{World}
use public_inbox.Cache.Budget.{IsSound, cost}
use public_inbox.EventLoop.{Wake, Poll}
use public_inbox.Workers.{System}
use public_inbox.Options.{Switch}
use public_inbox.Base.{
  ok, ◌≡◌, refl, sym, ap, ◌∙◌, inl, inr, Bool, List, [], map, append-nil, arith,
}
use public_inbox.Args.{Bytes}

first_worker-IsSound :
    (w : World) (code : List (Bool × Bytes) → Bool) → IsSound w code first_worker.cache
unfolding cost
first_worker-IsSound w code = record {
  counted = omega arith;
  within = inr (omega arith);
  keyed = tt;
}

-- A process that has served nothing yet.
pub first_worker-answers :
    (w : World) (code : List (Bool × Bytes) → Bool) (outs : Outsides) (rs : List (Ask × Answer))
    → AllAnswered w code outs 0 rs
    → (v : Worker) × (recv_loop outs (asks rs) first_worker ≡ ok v)
      × (v.served ≡ map (λ x. ask_args x.0) rs)
      × (v.answers ≡ map (λ x. x.1) rs)
unfolding recv_loop
first_worker-answers w code outs rs a =
    let (v, r, served, answers, _, o) =
      recv_loop-answers w code outs rs [] first_worker refl refl (first_worker-IsSound w code) a in
    (
      v,
      ap (λ es. recv_loop outs es first_worker) (sym (append-nil (asks rs)))
          ∙ r
          ∙ ground (arith, o),
      served,
      answers,
    )

-- Where main calls recv_loop itself, requests that by themselves, in the world that main has set up,
-- get answers of databases as they then are, from commands that come back, get these very answers from
-- main, in order, with any number of SIGUSR1 between them; and it waits for more; provided that open
-- databases can be reopened, that the named logs can be too, that stderr can be set and restored, that
-- databases which are not open yet open at one of the two tries, that there is no NUL in the switches
-- and the prefixes of -Q are well-formed, and that -d and -Q in order determine, by `code`, whether
-- there is a -c.
pub main-answers :
    (h : Host) (sys : System) (outs : Outsides) (rs : List (Ask × Answer)) (ps : List Poll)
    (ws : List Wake) (ss : List Switch) (s : Setup) (is_regular : Bytes → Bool)
    (code : List (Bool × Bytes) → Bool)
    → main_setup h ss ≡ ok s
    → s.loop ≡ alone
    → AllAnswered (world_of is_regular s) code outs 0 rs
    → (v : Worker) × (main h sys outs (asks rs) ps ws ss ≡ ok (inl v))
      × (v.served ≡ map (λ x. ask_args x.0) rs)
      × (v.answers ≡ map (λ x. x.1) rs)
unfolding main
main-answers h sys outs rs ps ws ss s is_regular code e l a =
    let (v, q, served, answers) = first_worker-answers (world_of is_regular s) code outs rs a in
    (v, ground (arith, e, l, q), served, answers)
