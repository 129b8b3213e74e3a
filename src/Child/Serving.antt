-- ===== src/Child/Serving.antt =====
-- What a worker of the pool answers.
use public_inbox.Child.{worker_child}
use public_inbox.Main.Serving.{first_worker-answers}
use public_inbox.Main.{Setup, world_of}
use public_inbox.Receive.{Outsides, Worker}
use public_inbox.Receive.Answers.{Ask, ask_args, asks, AllAnswered}
use public_inbox.Dispatch.{Answer}
use public_inbox.Base.{ok, ◌≡◌, Bool, List, map}
use public_inbox.Args.{Bytes}

-- Requests that by themselves, in the world that main has set up, get answers, from commands that
-- come back, get these very answers from a new worker, in order, with any number of SIGUSR1 between
-- them; and it waits for more.
pub worker_child-answers :
    (s : Setup) (outs : Outsides) (rs : List (Ask × Answer)) (is_regular : Bytes → Bool)
    (code : List (Bool × Bytes) → Bool)
    → AllAnswered (world_of is_regular s) code outs 0 rs
    → (v : Worker) × (worker_child outs (asks rs) ≡ ok v)
      × (v.served ≡ map (λ x. ask_args x.0) rs)
      × (v.answers ≡ map (λ x. x.1) rs)
unfolding worker_child
worker_child-answers s outs rs is_regular code a =
    first_worker-answers (world_of is_regular s) code outs rs a
