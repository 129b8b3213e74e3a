-- ===== src/Memory/Frees.antt =====
-- srch_free, srch_cache_renew and cleanup_all of lib/PublicInbox/xap_helper.h free each object once.
use public_inbox.Heap.{◌>>◌, Ptr, Live, done, remove, invalid, and_then-done, or_invalid}
use public_inbox.Memory.{
  Srch, QueryParser, Proc, srch_free, delete_db, delete_qp, read_srch, free_srch, renew_loop, renew,
  cleanup_all, cleanup_pids, read_set, write_set,
}
use public_inbox.Memory.Layout.{
  with_object, srch_cells, db_cells, qp_cells, Block, addresses, placed, blank,
}
use public_inbox.Args.{Bytes}
use public_inbox.Heap.Objects.{lookup-append, remove-append}
use public_inbox.Base.{
  ◌==◌, ==_refl, All, ℕ, ◌<◌, ◌≡◌, refl, ap, ◌∙◌, ◌≢◌, false, none, some, List, [], ◌∷◌, ◌++◌,
  arith,
}

pub delete_db-object :
    (p : Ptr) (v : List Bytes) (dbs : Live (List Bytes)) (s : Proc)
    → delete_db p (record s { dbs = with_object p v dbs }) ≡ done tt (record s { dbs = dbs })
unfolding delete_db remove
delete_db-object none v dbs s = refl
delete_db-object (some p) v dbs s = rw (delete_db, ==_refl p)

delete_qp-object :
    (p : Ptr) (v : QueryParser) (qps : Live QueryParser) (s : Proc)
    → delete_qp p (record s { qps = with_object p v qps }) ≡ done tt (record s { qps = qps })
unfolding delete_qp remove
delete_qp-object none v qps s = refl
delete_qp-object (some p) v qps s = rw (delete_qp, ==_refl p)

-- The block behind other structs.
pub srch_free-block :
    (x : Block) (front : Live Srch) (xs : List Block) (s : Proc)
    → All (λ c. c.0 ≢ x.at) front
    → srch_free x.at (record s {
      srchs = front ++ srch_cells (x ∷ xs);
      dbs = db_cells (x ∷ xs);
      qps = qp_cells (x ∷ xs);
    })
      ≡ done tt (record s { srchs = front ++ srch_cells xs; dbs = db_cells xs; qps = qp_cells xs })
unfolding srch_free srch_cells db_cells qp_cells read_srch free_srch
srch_free-block x front xs s h =
    let free = free_srch x.at in
    and_then-done (λ a. delete_qp a.qp >> (delete_db a.db >> free))
      (ap
        (λ o. or_invalid o (record s {
          srchs = front ++ srch_cells (x ∷ xs);
          dbs = db_cells (x ∷ xs);
          qps = qp_cells (x ∷ xs);
        }))
        (lookup-append x.at x.srch front (srch_cells xs) h))
    ∙ and_then-done (λ t. delete_db x.srch.db >> free)
        (delete_qp-object x.srch.qp x.parsing (qp_cells xs)
          (record s { srchs = front ++ srch_cells (x ∷ xs); dbs = db_cells (x ∷ xs) }))
    ∙ and_then-done (λ t. free)
        (delete_db-object x.srch.db x.shards (db_cells xs)
          (record s { srchs = front ++ srch_cells (x ∷ xs); qps = qp_cells xs }))
    ∙ ap
        (λ o. elim o [
          | none ↦ invalid
          | some srchs ↦ done tt (record s { srchs = srchs; dbs = db_cells xs; qps = qp_cells xs })
        ])
        (remove-append x.at x.srch front (srch_cells xs) h)

-- srch_cache_renew frees every handle but the one that it keeps, which has no objects yet.
renew_loop-kept :
    (p : ℕ) (a : Srch) (xs : List Block) (s : Proc)
    → All (λ x. x.at < p) xs
    → renew_loop
        (some p)
        (addresses xs)
        (record s { srchs = (p, a) ∷ srch_cells xs; dbs = db_cells xs; qps = qp_cells xs })
      ≡ done tt (record s { srchs = (p, a) ∷ []; dbs = []; qps = [] })
unfolding renew_loop addresses srch_cells db_cells qp_cells
renew_loop-kept p a [] s h = refl
renew_loop-kept p a (x ∷ xs) s h =
    let lt : x.at < p = h.0 in
    let ne : (p == x.at) ≡ false = ground arith in
    rw ne (
      and_then-done (λ t. renew_loop (some p) (addresses xs))
        (srch_free-block x ((p, a) ∷ []) xs s (omega arith, tt))
      ∙ renew_loop-kept p a xs s h.1)

renew_loop-all :
    (xs : List Block) (s : Proc)
    → renew_loop none
        (addresses xs)
        (record s { srchs = srch_cells xs; dbs = db_cells xs; qps = qp_cells xs })
      ≡ done tt (record s { srchs = []; dbs = []; qps = [] })
unfolding renew_loop addresses srch_cells db_cells qp_cells
renew_loop-all [] s = refl
renew_loop-all (x ∷ xs) s =
    and_then-done (λ t. renew_loop none (addresses xs)) (srch_free-block x [] xs s tt)
    ∙ renew_loop-all xs s

-- srch_cache_renew frees each handle but the new one that it keeps, which has no objects yet, and
-- leaves that one in the set.
pub renew-blank :
    (x : Block) (xs : List Block) (s : Proc)
    → All (λ y. y.at < x.at) xs
    → renew (some x.at) (placed (blank x ∷ xs) s) ≡ done tt (placed (blank x ∷ []) s)
unfolding renew read_set write_set renew_loop addresses srch_cells db_cells qp_cells
renew-blank x xs s h = rw (==_refl x.at) (
    and_then-done (λ t. write_set (x.at ∷ []))
      (renew_loop-kept x.at (blank x).srch xs (record s { srch_cache = some (x.at ∷ addresses xs) })
        h))

-- There is no array of pids, or the one that worker_pids points to.
abbrev pub PidsLive : Proc → Type 0
PidsLive s = (a : List ℕ) × (s.pid_arrays ≡ with_object s.worker_pids a [])

cleanup_pids-object :
    (p : Ptr) (a : List ℕ) (s : Proc)
    → cleanup_pids (record s { worker_pids = p; pid_arrays = with_object p a [] })
      ≡ done tt (record s { worker_pids = none; pid_arrays = [] })
unfolding cleanup_pids remove
cleanup_pids-object none a s = refl
cleanup_pids-object (some p) a s = rw (cleanup_pids, ==_refl p)

pub cleanup_pids-PidsLive :
    (s : Proc)
    → PidsLive s
    → cleanup_pids s ≡ done tt (record s { worker_pids = none; pid_arrays = [] })
cleanup_pids-PidsLive s (a, e) =
    ap (λ x. cleanup_pids (record s { pid_arrays = x })) e ∙ cleanup_pids-object s.worker_pids a s

-- The process when nothing is live.
abbrev pub emptied : Proc → Proc
emptied s = record s {
  srchs = [];
  dbs = [];
  qps = [];
  pid_arrays = [];
  srch_cache = none;
  worker_pids = none;
}

-- cleanup_all frees every handle, each object once, and the array of pids.
pub cleanup_all-placed :
    (xs : List Block) (s : Proc) → PidsLive s → cleanup_all (placed xs s) ≡ done tt (emptied s)
unfolding cleanup_all renew read_set write_set
cleanup_all-placed xs s h =
    let t : Proc = record s { pid_arrays = []; worker_pids = none } in
    and_then-done
      (λ u v. elim v.srch_cache [
        | none ↦ done tt v
        | some ptrs ↦ (renew none >> λ w. done tt (record w { srch_cache = none })) v
      ])
      (cleanup_pids-PidsLive (placed xs s) h)
    ∙ and_then-done (λ u w. done tt (record w { srch_cache = none }))
        (and_then-done (λ u. write_set []) (renew_loop-all xs (placed xs t)))

-- A state in which nothing is live but the handles of the set and the array of pids.
abbrev pub Held : Proc → Type 0
Held s = (xs : List Block) × (t : Proc) × (s ≡ placed xs t) × PidsLive t

pub cleanup_all-Held : (s : Proc) → Held s → (t : Proc) × (cleanup_all s ≡ done tt (emptied t))
cleanup_all-Held s (xs, t, e, h) = (t, ap cleanup_all e ∙ cleanup_all-placed xs t h)
