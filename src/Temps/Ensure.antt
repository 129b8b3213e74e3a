-- ===== src/Temps/Ensure.antt =====
-- dump_roots_ensure of lib/PublicInbox/xh_cidx.h gives back all that a struct dump_roots_tmp has.
use public_inbox.Heap.{
  ◌>>=◌, done, exited, Live, and_then-done, Cmd, or_invalid, fault, remove, lift, ◌>>◌,
}
use public_inbox.Temps.{
  System, Store, unmap, free_lenv, fbuf_ensure, destroy_table, free_entries, fclose, free_buffer,
  close_fd, dump_roots_ensure, Fbuf, off2size, Tmp,
}
use public_inbox.RootIds.{Table}
use public_inbox.Args.{Bytes}
use public_inbox.Heap.Objects.{remove-head, lookup-head}
use public_inbox.Base.{
  ◌==◌, if◌then◌else◌, ==_refl, pos, ℕ, ◌^◌, ◌<◌, ◌≡◌, refl, ap, ◌∙◌, true, none, some, ◌∷◌, arith,
}

-- Each part gives back the newest of its kind.
module _ (p : ℕ) (s : Store) where
  destroy_table-head :
      (a : Table) (l : Live Table)
      → destroy_table (some p) (record s { tables = (p, a) ∷ l })
        ≡ done tt (record s { tables = l })
  unfolding destroy_table
  destroy_table-head a l =
      and_then-done (λ k t. done tt (record t { tables = k }))
        (ap (λ o. or_invalid o (record s { tables = (p, a) ∷ l })) (remove-head p a l))

  free_entries-head :
      (a : ℕ) (l : Live ℕ)
      → free_entries (some p) (record s { arrays = (p, a) ∷ l }) ≡ done tt (record s { arrays = l })
  unfolding free_entries
  free_entries-head a l =
      and_then-done (λ k t. done tt (record t { arrays = k }))
        (ap (λ o. or_invalid o (record s { arrays = (p, a) ∷ l })) (remove-head p a l))

  pub free_lenv-head :
      (a : ℕ) (l : Live ℕ)
      → free_lenv (some p) (record s { lenvs = (p, a) ∷ l }) ≡ done tt (record s { lenvs = l })
  unfolding free_lenv
  free_lenv-head a l =
      and_then-done (λ k t. done tt (record t { lenvs = k }))
        (ap (λ o. or_invalid o (record s { lenvs = (p, a) ∷ l })) (remove-head p a l))

  unmap-head :
      (size : ℕ) (l : Live ℕ)
      → unmap (some p) size (record s { maps = (p, size) ∷ l }) ≡ done tt (record s { maps = l })
  unfolding unmap
  unmap-head size l =
      let t = record s { maps = (p, size) ∷ l } in
      let checked : ℕ → Live ℕ → Cmd Store (Unit {0}) =
        λ n k. if n == size then (λ u. done tt (record u { maps = k })) else fault in
      and_then-done (λ n. (λ u. or_invalid (remove p u.maps) u) >>= checked n)
        (ap (λ o. or_invalid o t) (lookup-head p size l))
      ∙ and_then-done (checked size) (ap (λ o. or_invalid o t) (remove-head p size l))
      ∙ rw (==_refl size) refl

  pub fbuf_ensure-head :
      (y : System)
      → y.fclose_works ≡ true
      → (b : ℕ) (text : Bytes) (streams : Live ℕ) (buffers : Live Bytes)
      → fbuf_ensure y
          (record { fp = some p; ptr = none })
          (record s { streams = (p, b) ∷ streams; buffers = (b, text) ∷ buffers })
        ≡ done tt (record s { streams = streams; buffers = buffers })
  unfolding fbuf_ensure fclose free_buffer
  fbuf_ensure-head y w b text streams buffers =
      let t = record s { streams = (p, b) ∷ streams; buffers = (b, text) ∷ buffers } in
      let u = record s { streams = streams; buffers = (b, text) ∷ buffers } in
      let ended : ℕ → Live ℕ → Cmd Store ℕ =
        λ c l v. if y.fclose_works then done c (record v { streams = l }) else exited 1 v in
      and_then-done (λ c. free_buffer (some c))
        (and_then-done (λ c. (λ v. or_invalid (remove p v.streams) v) >>= ended c)
            (ap (λ o. or_invalid o t) (lookup-head p b streams))
          ∙ and_then-done (ended b) (ap (λ o. or_invalid o t) (remove-head p b streams))
          ∙ rw w refl)
      ∙ and_then-done (λ l v. done tt (record v { buffers = l }))
          (ap (λ o. or_invalid o u) (remove-head b text buffers))

-- What has been taken when the query starts.
module _ (y : System) (m e t size asize : ℕ) (table : Table) (s : Store) where
  abbrev pub taken : Store
  taken = record s {
    fds = y.fd ∷ s.fds;
    maps = (m, size) ∷ s.maps;
    arrays = (e, asize) ∷ s.arrays;
    tables = (t, table) ∷ s.tables;
  }

  abbrev pub tmp : Fbuf → Tmp
  tmp w = record {
    st_size = pos size;
    mm_ptr = some m;
    entries = some e;
    wbuf = w;
    root2id = some t;
    root2off_fd = some y.fd;
  }

  closes : close_fd (some y.fd) taken ≡ done tt (record taken { fds = s.fds })
  unfolding close_fd
  closes = rw (==_refl y.fd) refl

  sized : (u : Store) → size < 2 ^ 64 → lift (off2size (pos size)) u ≡ done size u
  unfolding lift off2size
  sized u lt = ground arith

  -- All goes back but the buffer, which fbuf_ensure has to give back.
  pub ensure-taken :
      (w : Fbuf) → size < 2 ^ 64 → dump_roots_ensure y (tmp w) taken ≡ fbuf_ensure y w s
  unfolding dump_roots_ensure
  ensure-taken w lt =
      let s1 = record s { maps = (m, size) ∷ s.maps; arrays = (e, asize) ∷ s.arrays } in
      let s2 = record s { arrays = (e, asize) ∷ s.arrays } in
      let last : Cmd Store (Unit {0}) = fbuf_ensure y w in
      let rest : ℕ → Cmd Store (Unit {0}) =
        λ n. unmap (some m) n >> (free_entries (some e) >> last) in
      and_then-done (λ u. destroy_table (some t) >> (lift (off2size (pos size)) >>= rest)) closes
      ∙ and_then-done (λ u. lift (off2size (pos size)) >>= rest)
          (destroy_table-head t s1 table s.tables)
      ∙ and_then-done rest (sized s1 lt)
      ∙ and_then-done (λ u. free_entries (some e) >> last) (unmap-head m s2 size s.maps)
      ∙ and_then-done (λ u. last) (free_entries-head e s asize s.arrays)
