-- ===== src/Memory/Lifetime.antt =====
-- The memory of a worker of lib/PublicInbox/xap_helper.h from its start to its end: the child of
-- start_worker, which calls cleanup_pids, serves requests and calls exit, whose handler is
-- cleanup_all.
use public_inbox.Memory.Gets.{Remembers}
use public_inbox.Memory.Answers.{answered, dispatch_live_refines, LocksReturn}
use public_inbox.Memory.Layout.{Place, placed, blocks, handles_of, Ordered}
use public_inbox.Heap.{
  exited, killed, invalid, Cmd, Outcome, and_then, pure, ◌>>◌, ◌>>=◌, and_then-done,
}
use public_inbox.Locks.{Fds}
use public_inbox.Cache.{Cache}
use public_inbox.Memory.Opens.{Around}
use public_inbox.Dispatch.{Answer, dispatch}
use public_inbox.Memory.{Proc, cleanup_pids, cleanup_all}
use public_inbox.Memory.Frees.{
  emptied, Held, PidsLive, cleanup_pids-PidsLive, cleanup_all-placed, cleanup_all-Held,
}
use public_inbox.Heap.Follows.{and_run, Follows, bind}
use public_inbox.Args.{Bytes}
use public_inbox.Memory.Serves.{dispatch_live}
use public_inbox.Base.{
  All, Run, aborts, exits, faults, ok, stop, ◌≡◌, refl, sym, ap, subst, ◌∙◌, Bool, none, List, [],
  ◌∷◌,
}

-- What recv_once gives to dispatch: the arguments, and whether there is a second stream.
pub record Request : Type 0 where
  pub around : Around
  pub argv : List Bytes
  pub has_err : Bool

unfoldable pub dispatches : List Request → Cache → Run (List Answer × Cache)
dispatches [] c = ok ([], c)
dispatches (r ∷ rs) c =
    and_run (dispatch r.around.outside r.argv r.has_err c)
      (λ a. and_run (dispatches rs a.1) (λ b. ok (a.0 ∷ b.0, b.1)))

unfoldable pub dispatches_live : List Request → Cmd Proc (List Answer)
dispatches_live [] = pure []
dispatches_live (r ∷ rs) = do
  a ← dispatch_live r.around r.argv r.has_err
  more ← dispatches_live rs
  pure (a ∷ more)

-- exit runs the handler that main has given to atexit.
abbrev pub at_exit : {A : Type 0} → Outcome Proc A → Outcome Proc A
at_exit (exited code s) = and_then (cleanup_all s) (λ u. exited code)
at_exit o = o

unfoldable pub worker_life : List Request → Proc → Outcome Proc (Unit {0})
unfolding dispatches_live
worker_life rs s = at_exit ((cleanup_pids >> (dispatches_live rs >> exited 0)) s)

-- The process after fork, where srch_cache is still as main has made it.
abbrev pub started : Proc → Proc
started s = placed [] s

-- The end of a worker that serves requests, by what dispatch gives for them without memory.
abbrev pub WorkerEnds : Run (List Answer × Cache) → Outcome Proc (Unit {0}) → Type 0
WorkerEnds (ok r) o = (s : Proc) × (o ≡ exited 0 (emptied s))
WorkerEnds (stop (exits code)) o = (s : Proc) × (o ≡ exited code (emptied s))
WorkerEnds (stop aborts) o = o ≡ killed
WorkerEnds (stop faults) o = o ≡ invalid

pub dispatches_live-answered :
    (fds : Fds) (rs : List Request) (c : Cache) (ps : List Place) (s : Proc)
    → All (λ r. LocksReturn r.around r.argv fds) rs
    → Remembers fds c ps s
    → Follows Held (answered fds) (dispatches rs c) (dispatches_live rs (placed (blocks ps) s))
unfolding dispatches dispatches_live
dispatches_live-answered fds [] c ps s l r = ((ps, s, r), refl)
dispatches_live-answered fds (q ∷ rs) c ps s l r =
    bind Held (answered fds) (answered fds) (dispatch q.around.outside q.argv q.has_err c)
      (dispatch_live q.around q.argv q.has_err (placed (blocks ps) s))
      (λ a. and_run (dispatches rs a.1) (λ b. ok (a.0 ∷ b.0, b.1)))
      (λ a. dispatches_live rs >>= λ more. pure (a ∷ more))
      (dispatch_live_refines q.around fds q.has_err q.argv c ps s l.0 r)
      λ a w.
        bind Held (answered fds) (answered fds) (dispatches rs a.1)
          (dispatches_live rs (placed (blocks w.0) w.1)) (λ b. ok (a.0 ∷ b.0, b.1))
          (λ more. pure (a.0 ∷ more)) (dispatches_live-answered fds rs a.1 w.0 w.1 l.1 w.2)
          λ b v. (v, refl)

Follows-WorkerEnds :
    (fds : Fds) (m : Run (List Answer × Cache)) (o : Outcome Proc (List Answer))
    → Follows Held (answered fds) m o
    → WorkerEnds m (at_exit (and_then o (λ answers. exited 0)))
Follows-WorkerEnds fds (ok r) o ((ps, s, h), e) = (
  s,
  ap (λ x. at_exit (and_then x (λ answers. exited 0))) e
      ∙ and_then-done (λ u. exited 0) (cleanup_all-placed (blocks ps) s h.pids),
)
Follows-WorkerEnds fds (stop (exits code)) o (s, e, h) =
    let (t, f) = cleanup_all-Held s h in
    (t, ap (λ x. at_exit (and_then x (λ answers. exited 0))) e ∙ and_then-done (λ u. exited code) f)
Follows-WorkerEnds fds (stop aborts) o e = ap (λ x. at_exit (and_then x (λ answers. exited 0))) e
Follows-WorkerEnds fds (stop faults) o e = ap (λ x. at_exit (and_then x (λ answers. exited 0))) e

no_handles :
    (fds : Fds) (s : Proc)
    → s.fds ≡ fds
    → PidsLive s
    → Remembers fds (record { handles = []; shard_nfd = s.shard_nfd }) [] s
unfolding handles_of Ordered
no_handles fds s f h = record {
  handles = refl;
  counted = refl;
  ordered = tt;
  pids = h;
  same_fds = f;
}

-- A worker whose array of pids is live or NULL, and whose locks come back, ends as dispatch without
-- memory says for its requests in order. Wherever exit is called, the handlers find every object
-- live that they free; then nothing is live: no handle, database, query parser, or array of pids.
pub worker_life-WorkerEnds :
    (rs : List Request) (s : Proc)
    → All (λ r. LocksReturn r.around r.argv s.fds) rs
    → PidsLive s
    → WorkerEnds
        (dispatches rs (record { handles = []; shard_nfd = s.shard_nfd }))
        (worker_life rs (started s))
unfolding worker_life blocks
worker_life-WorkerEnds rs s l h =
    let c : Cache = record { handles = []; shard_nfd = s.shard_nfd } in
    let t : Proc = record s { worker_pids = none; pid_arrays = [] } in
    let r : Remembers s.fds c [] t = no_handles s.fds t refl ([], refl) in
    subst
      (λ o.
        WorkerEnds (dispatches rs c) (at_exit (and_then o (λ u. dispatches_live rs >> exited 0))))
      (sym (cleanup_pids-PidsLive (started s) h))
      (Follows-WorkerEnds s.fds (dispatches rs c) (dispatches_live rs (placed [] t))
        (dispatches_live-answered s.fds rs c [] t l r))
