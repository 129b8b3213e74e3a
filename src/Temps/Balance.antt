-- ===== src/Temps/Balance.antt =====
-- cmd_dump_roots of lib/PublicInbox/xh_cidx.h gives back what it takes, whichever way it ends.
use public_inbox.Heap.{◌>>=◌, ◌>>◌, done, Cmd, pure, and_then-done, lift}
use public_inbox.Temps.{
  System, Store, Tmp, calloc, req_cleanup, dump_roots_ensure, free_lenv, fbuf_ensure, free_buffer,
  xcalloc_lenv, Fbuf, fbuf_init, no_fbuf,
}
use public_inbox.Query.{got, modified, thrown, Got}
use public_inbox.DumpRoots.{
  goes_on, returns_false, raises, waits, Flow, RootsEnv, RootsDump, finish_roots,
}
use public_inbox.Heap.Follows.{Shape, Follows, run_first, Follows-map, in_state, Follows-lift}
use public_inbox.Args.{Bytes}
use public_inbox.DumpIbx.{Reply, DocRef}
use public_inbox.RootIds.{Table}
use public_inbox.Prefix.{term_length_extract}
use public_inbox.Temps.Ensure.{tmp, taken, ensure-taken, fbuf_ensure-head, free_lenv-head}
use public_inbox.Temps.Roots.{unless_waiting}
use public_inbox.Base.{
  length, Run, ok, ℕ, ◌+◌, ◌*◌, ◌^◌, ◌<◌, ◌≡◌, refl, ◌∙◌, true, false, none, some, List, [], ◌∷◌,
  arith,
}

-- Nothing is claimed of the state in which a process ends, since the system takes back the rest.
abbrev pub AnyStore : Store → Type 0
AnyStore s = Unit

-- Only the next address has changed, and no request is at work any more, unless a call waits.
abbrev pub GivenWays : Flow × Reply → Type 0
GivenWays (waits, r) = Store
GivenWays (goes_on, r) = ℕ
GivenWays (returns_false, r) = ℕ
GivenWays (raises, r) = ℕ

abbrev pub given_leaves : Store → (r : Flow × Reply) → GivenWays r → Store
given_leaves s (waits, r) t = t
given_leaves s (goes_on, r) n = record s { next = n; cur_req = false }
given_leaves s (returns_false, r) n = record s { next = n; cur_req = false }
given_leaves s (raises, r) n = record s { next = n; cur_req = false }

abbrev pub given_back : Store → Shape Store (Flow × Reply) (Flow × Reply)
given_back s = record { Ways = GivenWays; gives = λ r w. r; leaves = given_leaves s }

-- An exception of commit_mset.
abbrev raised_reply : Flow × Reply
raised_reply = (raises, record { out = []; err = []; returned = none })

module _ (y : System) (v : RootsEnv) (pfxv : List Bytes) where
  abbrev pub roots_dump : Table → RootsDump
  roots_dump table = record {
    skip_to = v.env.skip_to;
    reopens = v.env.reopens;
    table = table;
    prefixes = term_length_extract v.env.strtoull pfxv;
    locks = v.locks;
    unlocks = v.unlocks;
    calls = v.calls;
  }

  abbrev pub query_run : Table → Got (List DocRef) → Run (Flow × Reply)
  query_run table modified = ok raised_reply
  query_run table thrown = ok raised_reply
  query_run table (got docs) = finish_roots v (roots_dump table) docs

  abbrev pub query_live : Table → Tmp → Got (List DocRef) → Cmd Store (Flow × Reply)
  query_live table t modified = dump_roots_ensure y t >> (req_cleanup none >> pure raised_reply)
  query_live table t thrown = dump_roots_ensure y t >> (req_cleanup none >> pure raised_reply)
  query_live table t (got docs) = xcalloc_lenv y (length pfxv) >>= λ lenv.
      fbuf_init t.wbuf >>= λ wbuf. lift (finish_roots v (roots_dump table) docs) >>= λ r.
      unless_waiting r (dump_roots_ensure y (record t { wbuf = wbuf }) >> req_cleanup (some lenv))

module _ (y : System) (v : RootsEnv) (pfxv : List Bytes) (works : y.fclose_works ≡ true)
    (memory : (n size : ℕ) → y.calloc_works n size ≡ true) where
  pub calloc_lem : (n : ℕ) → n * 8 < 2 ^ 64 → calloc y n 8 ≡ true
  unfolding calloc
  calloc_lem n h = ground (arith, memory n 8)

  module _ (m e t size asize : ℕ) (table : Table) (s : Store) (lt : size < 2 ^ 64) where
    -- With nothing in wbuf and no lenv.
    raised-given_back : Follows AnyStore (given_back s) (ok raised_reply) (
        (dump_roots_ensure y (tmp y m e t size asize table s no_fbuf)
            >> (req_cleanup none >> pure raised_reply))
          (taken y m e t size asize table s))
    unfolding req_cleanup free_lenv fbuf_ensure free_buffer
    raised-given_back = (
      s.next,
      and_then-done (λ u. req_cleanup none >> pure raised_reply)
          (ensure-taken y m e t size asize table s no_fbuf lt),
    )

    -- With both.
    cleans :
        (n : ℕ) (k : ℕ)
        → (dump_roots_ensure y
                (tmp y m e t size asize table s (record { fp = some (n + 1); ptr = none }))
              >> req_cleanup (some n))
            (record (taken y m e t size asize table s) {
              next = n + 1 + 2;
              lenvs = (n, k) ∷ s.lenvs;
              streams = (n + 1, n + 1 + 1) ∷ s.streams;
              buffers = (n + 1 + 1, []) ∷ s.buffers;
            })
          ≡ done tt (record s { next = n + 1 + 2; cur_req = false })
    unfolding req_cleanup
    cleans n k =
        let w : Fbuf = record { fp = some (n + 1); ptr = none } in
        let s1 = record s {
          next = n + 1 + 2;
          lenvs = (n, k) ∷ s.lenvs;
          streams = (n + 1, n + 1 + 1) ∷ s.streams;
          buffers = (n + 1 + 1, []) ∷ s.buffers;
        } in
        let s2 = record s { next = n + 1 + 2; lenvs = (n, k) ∷ s.lenvs } in
        and_then-done (λ u. req_cleanup (some n))
          (ensure-taken y m e t size asize table s1 w lt
            ∙ fbuf_ensure-head (n + 1) s2 y works (n + 1 + 1) [] s.streams s.buffers)
        ∙ and_then-done (λ u z. done tt (record z { cur_req = false }))
            (free_lenv-head n s2 k s.lenvs)

    unless_waiting-given_back :
        (n k : ℕ) (r : Flow × Reply)
        → (w : GivenWays r) × (unless_waiting r
              (dump_roots_ensure y
                  (tmp y m e t size asize table s (record { fp = some (n + 1); ptr = none }))
                >> req_cleanup (some n))
              (record (taken y m e t size asize table s) {
                next = n + 1 + 2;
                lenvs = (n, k) ∷ s.lenvs;
                streams = (n + 1, n + 1 + 1) ∷ s.streams;
                buffers = (n + 1 + 1, []) ∷ s.buffers;
              })
            ≡ done r (given_leaves s r w))
    unless_waiting-given_back n k (waits, r) = (_, refl)
    unless_waiting-given_back n k (goes_on, r) =
        (n + 1 + 2, and_then-done (λ u. pure (goes_on, r)) (cleans n k))
    unless_waiting-given_back n k (returns_false, r) =
        (n + 1 + 2, and_then-done (λ u. pure (returns_false, r)) (cleans n k))
    unless_waiting-given_back n k (raises, r) =
        (n + 1 + 2, and_then-done (λ u. pure (raises, r)) (cleans n k))

    xcalloc_lenv_lem :
        (k : ℕ) (z : Store)
        → k * 8 < 2 ^ 64
        → xcalloc_lenv y k z
          ≡ done z.next (record z { next = z.next + 1; lenvs = (z.next, k) ∷ z.lenvs })
    unfolding xcalloc_lenv
    xcalloc_lenv_lem k z h = rw (xcalloc_lenv, calloc_lem k h) refl

    got-given_back :
        (docs : List DocRef)
        → length pfxv * 8 < 2 ^ 64
        → Follows AnyStore (given_back s) (finish_roots v (roots_dump y v pfxv table) docs) (
            query_live y v pfxv table
              (tmp y m e t size asize table s no_fbuf)
              (got docs)
              (taken y m e t size asize table s))
    unfolding fbuf_init
    got-given_back docs h =
        let k = length pfxv in
        let n = s.next in
        let m1 = finish_roots v (roots_dump y v pfxv table) docs in
        let z = taken y m e t size asize table s in
        let z1 = record z {
          next = n + 1 + 2;
          lenvs = (n, k) ∷ s.lenvs;
          streams = (n + 1, n + 1 + 1) ∷ s.streams;
          buffers = (n + 1 + 1, []) ∷ s.buffers;
        } in
        let clean : ℕ → Fbuf → Cmd Store (Unit {0}) = λ lenv w.
          dump_roots_ensure y (tmp y m e t size asize table s w) >> req_cleanup (some lenv) in
        run_first AnyStore (given_back s) m1
          (λ lenv.
            fbuf_init no_fbuf >>= λ wbuf. lift m1 >>= λ r. unless_waiting r (clean lenv wbuf))
          (xcalloc_lenv_lem k z h)
          (Follows-map AnyStore (in_state z1) (given_back s) m1 (lift m1 z1)
            (λ r. unless_waiting r (clean n (record { fp = some (n + 1); ptr = none })))
            (Follows-lift AnyStore m1 z1 tt) λ r u. unless_waiting-given_back n k r)

    pub query-given_back :
        (g : Got (List DocRef))
        → length pfxv * 8 < 2 ^ 64
        → Follows AnyStore (given_back s) (query_run y v pfxv table g) (
            query_live y v pfxv table
              (tmp y m e t size asize table s no_fbuf)
              g
              (taken y m e t size asize table s))
    query-given_back modified h = raised-given_back
    query-given_back thrown h = raised-given_back
    query-given_back (got docs) h = got-given_back docs h
