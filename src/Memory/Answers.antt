-- ===== src/Memory/Answers.antt =====
-- The whole of dispatch of lib/PublicInbox/xap_helper.h, with memory and without.
use public_inbox.Memory.Gets.{Gotten, Remembers, SeenIn, gotten}
use public_inbox.Memory.Refine.{got_handle, get_srch-Remembers}
use public_inbox.Memory.Layout.{Place, placed, blocks}
use public_inbox.Heap.{done, ◌>>=◌, lift, Cmd, abort}
use public_inbox.Locks.{Fds}
use public_inbox.Heap.Follows.{
  and_run, Shape, Follows, run_first, Follows-and_run, in_state, Follows-lift, bind, bind-lift,
  then_run,
}
use public_inbox.Memory.Serves.{handle_at, dispatch_live, get_srch}
use public_inbox.Memory.Opens.{Around}
use public_inbox.Memory.{read_srch, Proc, read_db, read_qp}
use public_inbox.Options.{Command, Parsed, parse_request, find_command}
use public_inbox.Args.{Bytes}
use public_inbox.Cache.{Cache, Handle, find_handle}
use public_inbox.Dispatch.Refine.{reopen_cached-current}
use public_inbox.Dispatch.{current, Answer, run_timed, reopen_cached, dispatch, cmds}
use public_inbox.Memory.Locked.{Lockable}
use public_inbox.Memory.Frees.{Held}
use public_inbox.Base.{
  Run, aborts, ok, stop, ℕ, ◌≡◌, refl, sym, subst, ◌∙◌, Bool, Option, none, some, List, [], ◌∷◌,
}

-- The answer, and handles that are those of the cache.
abbrev pub answered : {A : Type 0} → Fds → Shape Proc (A × Cache) A
answered fds = record {
  Ways = λ r. (ps : List Place) × (s : Proc) × Remembers fds r.1 ps s;
  gives = λ r w. r.0;
  leaves = λ r w. placed (blocks w.0) w.1;
}

handle_at-Seen :
    (ps : List Place) (s : Proc) (p : Place)
    → SeenIn ps s p
    → handle_at p.at (placed (blocks ps) s) ≡ done p.handle (placed (blocks ps) s)
unfolding handle_at read_srch read_db read_qp
handle_at-Seen ps s p h = rw (h.sees_srch, h.sees_db, h.sees_qp) refl

-- Where the locks of the request that the switches make come back.
abbrev pub LocksReturn : Around → List Bytes → Fds → Type 0
LocksReturn o argv fds =
    (p : Parsed)
    → parse_request o.outside.libc (o.outside.getopt argv).0 ≡ ok p
    → (try : ℕ) → Lockable o p.0 fds try

and_run_assoc :
    {A B C : Type 0} (m : Run A) (n : Run B) (k : B → Run C)
    → and_run (and_run m (λ a. n)) k ≡ then_run m (and_run n k)
and_run_assoc (stop why) n k = refl
and_run_assoc (ok a) n k = refl

module _ (o : Around) (fds : Fds) (has_err : Bool) where
  request_spec : Command → List Bytes → Cache → Parsed → Run (Answer × Cache)
  request_spec cmd rest c p =
      and_run (got_handle o.outside p c)
        (λ f. and_run (run_timed o.outside current cmd f.0 p.0 rest has_err) (λ a. ok (a, f.1)))

  timed-answered :
      (cmd : Command) (rest : List Bytes) (p : Parsed) (r : Handle × Cache) (w : Gotten fds r)
      → Follows Held
          (answered fds)
          (and_run (run_timed o.outside current cmd r.0 p.0 rest has_err) (λ a. ok (a, r.1)))
          ((handle_at w.place.at >>= λ h. lift (run_timed o.outside current cmd h p.0 rest has_err))
            (placed (blocks w.places) w.rest))
  timed-answered cmd rest p r w =
      let s = placed (blocks w.places) w.rest in
      let m : Handle → Run Answer = λ h. run_timed o.outside current cmd h p.0 rest has_err in
      run_first Held (answered fds) (and_run (m r.0) (λ a. ok (a, r.1))) (λ h. lift (m h))
        (handle_at-Seen w.places w.rest w.place w.seen)
        (Follows-and_run Held (in_state s) (answered fds) (m r.0) (lift (m w.place.handle) s)
          (λ a. ok (a, r.1))
          (subst (λ h. Follows Held (in_state s) (m r.0) (lift (m h) s)) (sym w.means)
            (Follows-lift Held (m r.0) s (blocks w.places, w.rest, refl, w.remembers.pids)))
          λ a u. ((w.places, w.rest, w.remembers), refl))

  request-answered :
      (cmd : Command) (rest : List Bytes) (c : Cache) (p : Parsed) (ps : List Place) (s : Proc)
      → ((try : ℕ) → Lockable o p.0 fds try)
      → Remembers fds c ps s
      → Follows Held (answered fds) (request_spec cmd rest c p) (
          (get_srch o p >>= λ ptr.
          handle_at ptr >>= λ h. lift (run_timed o.outside current cmd h p.0 rest has_err))
            (placed (blocks ps) s))
  unfolding request_spec
  request-answered cmd rest c p ps s l r =
      bind Held (gotten fds) (answered fds) (got_handle o.outside p c)
        (get_srch o p (placed (blocks ps) s))
        (λ f. and_run (run_timed o.outside current cmd f.0 p.0 rest has_err) (λ a. ok (a, f.1)))
        (λ ptr. handle_at ptr >>= λ h. lift (run_timed o.outside current cmd h p.0 rest has_err))
        (get_srch-Remembers o p fds c ps s l r) (timed-answered cmd rest p)

  request_spec-eq :
      (cmd : Command) (rest : List Bytes) (c : Cache) (p : Parsed)
      → request_spec cmd rest c p
        ≡ and_run (reopen_cached o.outside p c) (λ see.
          and_run
            (find_handle o.outside.world o.outside.opens p c)
            (λ f. and_run (run_timed o.outside see cmd f.0 p.0 rest has_err) (λ a. ok (a, f.1))))
  unfolding request_spec
  request_spec-eq cmd rest c p =
      and_run_assoc (reopen_cached o.outside p c) (find_handle o.outside.world o.outside.opens p c)
        (λ f. and_run (run_timed o.outside current cmd f.0 p.0 rest has_err) (λ a. ok (a, f.1)))
      ∙ sym (
          reopen_cached-current o.outside p c (λ see.
            and_run (find_handle o.outside.world o.outside.opens p c)
              (λ f. and_run (run_timed o.outside see cmd f.0 p.0 rest has_err) (λ a. ok (a, f.1)))))

  command_spec : List Bytes → Cache → Option Command → Run (Answer × Cache)
  command_spec argv c none = stop aborts
  command_spec argv c (some cmd) =
      let (switches, rest) = o.outside.getopt argv in
      and_run (parse_request o.outside.libc switches) (λ p.
        and_run (reopen_cached o.outside p c) (λ see.
          and_run (find_handle o.outside.world o.outside.opens p c)
            (λ f. and_run (run_timed o.outside see cmd f.0 p.0 rest has_err) (λ a. ok (a, f.1)))))

  abbrev command_live : List Bytes → Option Command → Cmd Proc Answer
  command_live argv none = abort
  command_live argv (some cmd) =
      let (switches, rest) = o.outside.getopt argv in
      lift (parse_request o.outside.libc switches) >>= λ p. get_srch o p >>= λ ptr.
      handle_at ptr >>= λ h. lift (run_timed o.outside current cmd h p.0 rest has_err)

  commanded :
      (argv : List Bytes) (c : Cache) (ps : List Place) (s : Proc)
      → LocksReturn o argv fds
      → Remembers fds c ps s
      → (there : Option Command)
      → Follows Held
          (answered fds)
          (command_spec argv c there)
          (command_live argv there (placed (blocks ps) s))
  unfolding command_spec
  commanded argv c ps s l r none = refl
  commanded argv c ps s l r (some cmd) =
      let (switches, rest) = o.outside.getopt argv in
      let t = placed (blocks ps) s in
      let after_parse : Parsed → Cmd Proc Answer = λ p. get_srch o p >>= λ ptr.
      handle_at ptr >>= λ h. lift (run_timed o.outside current cmd h p.0 rest has_err) in
      bind-lift Held (answered fds) (parse_request o.outside.libc switches) t
        (λ p. and_run (reopen_cached o.outside p c) (λ see.
          and_run (find_handle o.outside.world o.outside.opens p c)
            (λ f. and_run (run_timed o.outside see cmd f.0 p.0 rest has_err) (λ a. ok (a, f.1)))))
        after_parse (blocks ps, s, refl, r.pids)
        λ p e.
          subst (λ m. Follows Held (answered fds) m (after_parse p t))
            (request_spec-eq cmd rest c p) (request-answered cmd rest c p ps s (l p e) r)

  -- From a state that holds the handles of a cache and nothing else, where the locks of the request
  -- come back: dispatch with memory ends as dispatch without does, and with the same answer. It then
  -- holds the handles of the cache that dispatch leaves and nothing else, with the descriptors and
  -- locks from before; and when exit is called, nothing is live but handles and the array of pids.
  pub dispatch_live_refines :
      (argv : List Bytes) (c : Cache) (ps : List Place) (s : Proc)
      → LocksReturn o argv fds
      → Remembers fds c ps s
      → Follows Held
          (answered fds)
          (dispatch o.outside argv has_err c)
          (dispatch_live o argv has_err (placed (blocks ps) s))
  unfolding dispatch_live dispatch command_spec
  dispatch_live_refines [] c ps s l r = refl
  dispatch_live_refines (name ∷ args) c ps s l r =
      commanded (name ∷ args) c ps s l r (find_command cmds name)
