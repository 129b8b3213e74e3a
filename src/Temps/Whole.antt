-- ===== src/Temps/Whole.antt =====
-- cmd_dump_roots of lib/PublicInbox/xh_cidx.h from its start: with what it takes, and without.
use public_inbox.Heap.{◌>>=◌, done, lift, Cmd, and_then-done}
use public_inbox.Temps.{System, Store, xcalloc_entries, off2size, no_fbuf}
use public_inbox.DumpRoots.{RootsEnv, Flow, read_table}
use public_inbox.Temps.Roots.{entries_size, roots_file, open_file, map_file, new_table, roots_query}
use public_inbox.Heap.Follows.{and_run, Follows, run_first, bind-lift}
use public_inbox.Options.{Req}
use public_inbox.Args.{Bytes, split2argv, cstr}
use public_inbox.Temps.Balance.{calloc_lem, query_run, AnyStore, given_back, query-given_back}
use public_inbox.Query.{Got, commit_mset}
use public_inbox.DumpIbx.{DocRef, Reply, by_docid}
use public_inbox.RootIds.{Table, put_entries}
use public_inbox.Temps.Ensure.{tmp}
use public_inbox.Base.{
  ◌==◌, Bool-cases, length, Run, ok, stop, pos, ℕ, ◌+◌, ◌*◌, ◌/◌, ◌^◌, ◌<◌, ◌≡◌, refl, sym, ap,
  subst, ◌∙◌, inl, inr, true, false, List, [], ◌∷◌, map, arith,
}

put_first :
    {A B C : Type 0} (m : Run A) (n : A → Run B) (k : B → Run C)
    → and_run (and_run m n) k ≡ and_run m (λ a. and_run (n a) k)
put_first (stop why) n k = refl
put_first (ok a) n k = refl

entries_size_lem :
    (size : ℕ) → size < 2 ^ 63 → entries_size (size / 32 + 1) ≡ ok ((size / 32 + 1) * 2)
unfolding entries_size
entries_size_lem size h = ground arith

entries_size_live :
    (size : ℕ) (z : Store)
    → size < 2 ^ 63
    → lift (entries_size (size / 32 + 1)) z ≡ done ((size / 32 + 1) * 2) z
unfolding lift
entries_size_live size z h = ap (λ m. lift m z) (entries_size_lem size h)

off2size_lem : (size : ℕ) (z : Store) → size < 2 ^ 64 → lift (off2size (pos size)) z ≡ done size z
unfolding lift off2size
off2size_lem size z lt = ground arith

map_file_lem :
    (size : ℕ) (z : Store)
    → (size == 0) ≡ false
    → map_file size z ≡ done z.next (record z { next = z.next + 1; maps = (z.next, size) ∷ z.maps })
unfolding map_file
map_file_lem size z ne = rw (map_file, ne) refl

abbrev pub queried : RootsEnv → Req → Bytes → Got (List DocRef)
queried v req qry = commit_mset v.env.answers v.postings (by_docid req) v.env.qp_flags qry 0

abbrev pub file_run : System → RootsEnv → Req → Bytes → List Bytes → Bytes → Run (Flow × Reply)
file_run y v req qry pfxv contents =
    and_run (read_table contents) (λ table. query_run y v pfxv table (queried v req qry))

module _ (y : System) (v : RootsEnv) (req : Req) (qry : Bytes) (pfxv : List Bytes)
    (works : y.fclose_works ≡ true) (memory : (n size : ℕ) → y.calloc_works n size ≡ true)
    (few : length pfxv * 8 < 2 ^ 64) where
  xcalloc_entries_lem :
      (k : ℕ) (z : Store)
      → k * 8 < 2 ^ 64
      → xcalloc_entries y k z
        ≡ done z.next (record z { next = z.next + 1; arrays = (z.next, k) ∷ z.arrays })
  unfolding xcalloc_entries
  xcalloc_entries_lem k z h = rw (xcalloc_entries, calloc_lem y v pfxv works memory k h) refl

  file_run-nonempty :
      (contents : Bytes)
      → (length contents == 0) ≡ false
      → file_run y v req qry pfxv contents
        ≡ and_run (split2argv contents ((length contents / 32 + 1) * 2)) (λ r.
          and_run
            (put_entries (map cstr r.1) [])
            (λ table. query_run y v pfxv table (queried v req qry)))
  unfolding read_table
  file_run-nonempty contents ne = rw ne (
      put_first (split2argv contents ((length contents / 32 + 1) * 2))
        (λ r. put_entries (map cstr r.1) [])
        (λ table. query_run y v pfxv table (queried v req qry)))

  file_mapped :
      (contents : Bytes) (s : Store)
      → length contents < 2 ^ 63
      → (length contents == 0) ≡ false
      → Follows AnyStore
          (given_back s)
          (file_run y v req qry pfxv contents)
          (roots_file y v req qry pfxv contents s)
  unfolding roots_file read_table open_file map_file new_table roots_query
  file_mapped contents s h ne =
      let size = length contents in
      let asize = (size / 32 + 1) * 2 in
      let n = s.next in
      let g = given_back s in
      let lt : size < 2 ^ 64 = omega arith in
      let z0 = record s { fds = y.fd ∷ s.fds } in
      let z1 = record z0 { next = n + 1; maps = (n, size) ∷ s.maps } in
      let z2 = record z1 { next = n + 1 + 1; arrays = (n + 1, asize) ∷ s.arrays } in
      let asked : Table → Run (Flow × Reply) =
        λ table. query_run y v pfxv table (queried v req qry) in
      let put_all : ℕ × List Bytes → Run Table = λ r. put_entries (map cstr r.1) [] in
      let m = and_run (split2argv contents asize) (λ r. and_run (put_all r) asked) in
      let spec : Follows AnyStore g m (roots_file y v req qry pfxv contents s)
          → Follows AnyStore g (file_run y v req qry pfxv contents)
              (roots_file y v req qry pfxv contents s) =
        subst (λ x. Follows AnyStore g x (roots_file y v req qry pfxv contents s))
          (sym (file_run-nonempty contents ne)) in
      let query : Table → ℕ → Cmd Store (Flow × Reply) = λ table root2id.
        roots_query y v req qry pfxv table (tmp y n (n + 1) root2id size asize table s no_fbuf) in
      let fill : ℕ × List Bytes → Cmd Store (Flow × Reply) =
        λ r. lift (put_all r) >>= λ table. new_table table >>= query table in
      let rest : ℕ → ℕ → ℕ → Cmd Store (Flow × Reply) = λ mm a entries.
        lift (split2argv contents a) >>= λ r. lift (put_all r) >>= λ table.
        new_table table >>= λ root2id.
        roots_query y v req qry pfxv table
          (record (tmp y mm entries root2id size a table s no_fbuf) { st_size = pos size }) in
      spec (
        run_first AnyStore g m
          (λ k. map_file k >>= λ mm. lift (entries_size (k / 32 + 1)) >>= λ a.
            xcalloc_entries y a >>= λ entries. rest mm a entries)
          (off2size_lem size z0 lt)
          (run_first AnyStore g m
            (λ mm. lift (entries_size (size / 32 + 1)) >>= λ a.
              xcalloc_entries y a >>= λ entries. rest mm a entries)
            (map_file_lem size z0 ne)
            (run_first AnyStore g m (λ a. xcalloc_entries y a >>= λ entries. rest n a entries)
              (entries_size_live size z1 h)
              (run_first AnyStore g m (λ entries. rest n asize entries)
                (xcalloc_entries_lem asize z1 (omega arith))
                (bind-lift AnyStore g (split2argv contents asize) z2
                  (λ r. and_run (put_all r) asked) fill tt
                  λ r e.
                    bind-lift AnyStore g (put_all r) z2 asked
                      (λ table. new_table table >>= query table) tt
                      λ table f.
                        query-given_back y v pfxv works memory n (n + 1) (n + 1 + 1) size asize
                          table (record s { next = n + 1 + 1 + 1 }) lt (queried v req qry) few)))))

  -- An empty file cannot be mapped.
  file_empty :
      (contents : Bytes) (s : Store)
      → length contents < 2 ^ 63
      → (length contents == 0) ≡ true
      → Follows AnyStore
          (given_back s)
          (file_run y v req qry pfxv contents)
          (roots_file y v req qry pfxv contents s)
  unfolding roots_file read_table open_file map_file
  file_empty contents s h e =
      let size = length contents in
      let z0 = record s { fds = y.fd ∷ s.fds } in
      let lt : size < 2 ^ 64 = omega arith in
      rw e (z0, and_then-done _ (off2size_lem size z0 lt) ∙ rw e refl, tt)

  pub file-given_back :
      (contents : Bytes) (s : Store)
      → length contents < 2 ^ 63
      → Follows AnyStore
          (given_back s)
          (file_run y v req qry pfxv contents)
          (roots_file y v req qry pfxv contents s)
  file-given_back contents s h = elim (Bool-cases (length contents == 0)) [
    | inl e ↦ file_empty contents s h e
    | inr ne ↦ file_mapped contents s h ne
  ]
