-- ===== src/Memory/Heads.antt =====
-- What the commands of srch_init in lib/PublicInbox/xap_helper.h do to the newest handle.
use public_inbox.Memory.{Srch, Proc, read_srch, write_srch, read_db}
use public_inbox.Memory.Layout.{Block, addresses, placed, db_cells, qp_cells, srch_cells}
use public_inbox.Heap.{
  done, invalid, Ptr, lookup, put, and_then-done, lift, ◌>>=◌, or_invalid, Live,
}
use public_inbox.Memory.Opens.{flag_phrase, add_database}
use public_inbox.Args.{Bytes}
use public_inbox.Heap.Follows.{Shape, Follows, run_first, Follows-map, in_state, Follows-lift}
use public_inbox.Cache.{World, unset_phrase}
use public_inbox.Memory.Frees.{PidsLive, Held}
use public_inbox.Heap.Objects.{lookup-head, put-head}
use public_inbox.Base.{ℕ, ◌≡◌, refl, ap, ◌∙◌, Bool, none, some, List, [], ◌∷◌, ◌++◌}

-- The handle with its flag and its database.
abbrev pub opened_as : Block → Bool → Ptr → List Bytes → Block
opened_as x phrase db shards = record x {
  srch = record x.srch { phrase = phrase; db = db };
  shards = shards;
}

-- The newest struct.
module _ (p : ℕ) (a : Srch) (srchs : Live Srch) (s : Proc) where
  pub read_srch-head :
      read_srch p (record s { srchs = (p, a) ∷ srchs })
      ≡ done a (record s { srchs = (p, a) ∷ srchs })
  unfolding read_srch
  read_srch-head =
      ap (λ o. or_invalid o (record s { srchs = (p, a) ∷ srchs })) (lookup-head p a srchs)

  pub write_srch-head :
      (b : Srch)
      → write_srch p b (record s { srchs = (p, a) ∷ srchs })
        ≡ done tt (record s { srchs = (p, b) ∷ srchs })
  unfolding write_srch
  write_srch-head b = ap (λ l. done tt (record s { srchs = l })) (put-head p a b srchs)

module _ (x : Block) (phrase : Bool) (d : ℕ) (shards : List Bytes) (xs : List Block)
    (s : Proc) where
  pub add_database-head :
      (dir : Bytes)
      → add_database x.at dir (placed (opened_as x phrase (some d) shards ∷ xs) s)
        ≡ done tt (placed (opened_as x phrase (some d) (shards ++ (dir ∷ [])) ∷ xs) s)
  unfolding add_database read_db db_cells put lookup addresses qp_cells srch_cells
  add_database-head dir =
      let y = opened_as x phrase (some d) shards in
      and_then-done
        (λ a. read_db a.db >>= λ dirs t. elim a.db [
          | none ↦ invalid
          | some e ↦ done tt (record t { dbs = put e (dirs ++ (dir ∷ [])) t.dbs })
        ])
        (read_srch-head x.at y.srch (srch_cells xs) (placed (y ∷ xs) s))
      ∙ and_then-done (λ dirs t. done tt (record t { dbs = put d (dirs ++ (dir ∷ [])) t.dbs }))
          (ap (λ o. or_invalid o (placed (y ∷ xs) s)) (lookup-head d shards (db_cells xs)))
      ∙ ap (λ l. done tt (record (placed (y ∷ xs) s) { dbs = l }))
          (put-head d shards (shards ++ (dir ∷ [])) (db_cells xs))

-- FLAG_PHRASE becomes what unset_phrase gives.
abbrev pub flagged : Block → List Block → Proc → Shape Proc Bool (Unit {0})
flagged x xs s = record {
  Ways = λ b. Unit {0};
  gives = λ b w. tt;
  leaves = λ b w. placed (opened_as x b x.srch.db x.shards ∷ xs) s;
}

pub flag_phrase-head :
    (w : World) (dir : Bytes) (x : Block) (xs : List Block) (s : Proc)
    → PidsLive s
    → Follows Held
        (flagged x xs s)
        (unset_phrase w dir x.srch.phrase)
        (flag_phrase w dir x.at (placed (x ∷ xs) s))
unfolding flag_phrase addresses srch_cells db_cells qp_cells
flag_phrase-head w dir x xs s h =
    let here = placed (x ∷ xs) s in
    let m = unset_phrase w dir x.srch.phrase in
    run_first Held (flagged x xs s) m
      (λ a. lift (unset_phrase w dir a.phrase) >>= λ b. write_srch x.at (record a { phrase = b }))
      (read_srch-head x.at x.srch (srch_cells xs) here)
      (Follows-map Held (in_state here) (flagged x xs s) m (lift m here)
        (λ b. write_srch x.at (record x.srch { phrase = b }))
        (Follows-lift Held m here (x ∷ xs, s, refl, h))
        λ b u.
          (tt, write_srch-head x.at x.srch (srch_cells xs) here (record x.srch { phrase = b })))
