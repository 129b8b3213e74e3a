-- ===== src/Memory/Refine.antt =====
-- dispatch of lib/PublicInbox/xap_helper.h with memory does what dispatch without memory does, for any
-- set of handles.
use public_inbox.Memory.Gets.{
  gotten, Remembers, SeenIn, spec_found, new_block, on_found, placed_new, absent-gotten,
  present-gotten,
}
use public_inbox.Memory.Layout.{
  Place, Ordered, placed, handles_of, blocks, srch_cells, addresses, db_cells, qp_cells,
  Ordered-Seen,
}
use public_inbox.Memory.Opens.{Around}
use public_inbox.Dispatch.{reopen_cached, Outside}
use public_inbox.Options.{Req, Parsed}
use public_inbox.Cache.{find_handle, Cache, Handle, find_key, new_handle}
use public_inbox.Locks.{Fds}
use public_inbox.Args.{Bytes}
use public_inbox.Memory.{Proc, new_srch, read_set}
use public_inbox.Memory.Locked.{Lockable}
use public_inbox.Heap.Follows.{Follows, and_run, run_first}
use public_inbox.Memory.Finds.{
  find_place, handle_of, ptr_of, find_ptr-find_place, Seen-new, find_place-All, find_key-handles_of,
}
use public_inbox.Memory.Serves.{get_srch}
use public_inbox.Memory.Frees.{PidsLive, Held}
use public_inbox.Base.{
  Option-cases, Run, ℕ, ◌≡◌, refl, sym, ap₂, subst, inl, inr, Option, none, some, List, arith,
}

module _ (o : Around) (req : Req) (ckey : Bytes) (fds : Fds)
    (l : (try : ℕ) → Lockable o req fds try) where
  found-gotten :
      (ps : List Place) (s : Proc) (there : Option Place)
      → find_place ckey ps ≡ there
      → PidsLive s
      → Ordered s.next ps
      → Follows Held (gotten fds) (spec_found o req ckey fds l ps s.shard_nfd (handle_of there)) (
          on_found o req ckey fds l s.next
            (addresses (blocks ps))
            (ptr_of there)
            (placed_new o req ckey fds l ps s))
  found-gotten ps s none e h q = absent-gotten o req ckey fds l ps s h q
  found-gotten ps s (some p) e h q =
      present-gotten o req ckey fds l ps s p h q
        (find_place-All (SeenIn ps s) ckey ps p (Ordered-Seen s.next ps q) e)

  get_srch-gotten :
      (ps : List Place) (s : Proc)
      → PidsLive s
      → Ordered s.next ps
      → Follows Held
          (gotten fds)
          (spec_found o req ckey fds l ps s.shard_nfd (find_key (new_handle ckey) (handles_of ps)))
          (get_srch o (req, ckey) (placed (blocks ps) (record s { fds = fds })))
  unfolding get_srch new_srch read_set srch_cells new_block
  get_srch-gotten ps s h q =
      let m =
        spec_found o req ckey fds l ps s.shard_nfd (find_key (new_handle ckey) (handles_of ps)) in
      run_first Held (gotten fds) m (on_found o req ckey fds l s.next (addresses (blocks ps)))
        (find_ptr-find_place ckey ps (placed_new o req ckey fds l ps s) (
          Seen-new s.next (new_block o req ckey fds l s.next).srch (srch_cells (blocks ps))
            (db_cells (blocks ps)) (qp_cells (blocks ps)) ps (Ordered-Seen s.next ps q)))
        (subst
          (λ f. Follows Held (gotten fds) (spec_found o req ckey fds l ps s.shard_nfd f) (
            on_found o req ckey fds l s.next (addresses (blocks ps)) (ptr_of (find_place ckey ps))
              (placed_new o req ckey fds l ps s)))
          (sym (find_key-handles_of ckey ps)) (found-gotten ps s (find_place ckey ps) refl h q))

-- reopen_cached and find_handle, as dispatch calls them.
abbrev pub got_handle : Outside → Parsed → Cache → Run (Handle × Cache)
got_handle o p c = and_run (reopen_cached o p c) (λ u. find_handle o.world o.opens p c)

got_handle-spec_found :
    (o : Around) (req : Req) (ckey : Bytes) (fds : Fds) (l : (try : ℕ) → Lockable o req fds try)
    (ps : List Place) (n : ℕ)
    → spec_found o req ckey fds l ps n (find_key (new_handle ckey) (handles_of ps))
      ≡ got_handle o.outside (req, ckey) (record { handles = handles_of ps; shard_nfd = n })
unfolding spec_found reopen_cached find_handle
got_handle-spec_found o req ckey fds l ps n =
    elim (Option-cases (find_key (new_handle ckey) (handles_of ps))) [
      | inl e ↦ ground (arith, e)
      | inr (h, e) ↦ ground (arith, e)
    ]

-- From a state that holds the handles of a cache and nothing else, where lock_shared_maybe comes
-- back: get_srch ends as reopen_cached and find_handle do. When it gives a pointer, every pointer
-- behind it is live and leads to what they give; the state again holds the handles of the cache that
-- they leave and nothing else, and the descriptors and locks are those from before. When exit is
-- called, nothing is live but handles and the array of pids.
pub get_srch-Remembers :
    (o : Around) (p : Parsed) (fds : Fds) (c : Cache) (ps : List Place) (s : Proc)
    → ((try : ℕ) → Lockable o p.0 fds try)
    → Remembers fds c ps s
    → Follows Held (gotten fds) (got_handle o.outside p c) (get_srch o p (placed (blocks ps) s))
get_srch-Remembers o (req, ckey) fds c ps s l r =
    let cache : List Handle → ℕ → Cache = λ hs n. record { handles = hs; shard_nfd = n } in
    let goal : Cache → Fds → Type 0 = λ d f.
      Follows Held (gotten fds) (got_handle o.outside (req, ckey) d)
        (get_srch o (req, ckey) (placed (blocks ps) (record s { fds = f }))) in
    subst (λ f. goal c f) (sym r.same_fds)
      (subst (λ d. goal d fds) (sym (ap₂ cache r.handles r.counted))
        (subst
          (λ m.
            Follows Held (gotten fds) m
              (get_srch o (req, ckey) (placed (blocks ps) (record s { fds = fds }))))
          (got_handle-spec_found o req ckey fds l ps s.shard_nfd)
          (get_srch-gotten o req ckey fds l ps s r.pids r.ordered)))
