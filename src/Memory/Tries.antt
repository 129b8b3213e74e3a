-- ===== src/Memory/Tries.antt =====
-- A try of srch_init in lib/PublicInbox/xap_helper.h to open a handle's database does with memory what
-- open_shards of Cache does without.
use public_inbox.Memory.{Proc, new_db, write_srch}
use public_inbox.Memory.Heads.{
  opened_as, flagged, flag_phrase-head, add_database-head, read_srch-head, write_srch-head,
}
use public_inbox.Memory.Layout.{Block, placed, srch_cells, db_cells, qp_cells, addresses}
use public_inbox.Heap.{done, Ptr, ◌>>◌, pure, Cmd}
use public_inbox.Args.{Bytes}
use public_inbox.Cache.{World, Opening, add_shards, unset_phrase, open_shards}
use public_inbox.Heap.Follows.{Shape, Follows, bind, run_first, Follows-reshape}
use public_inbox.Memory.Opens.{add_databases, flag_phrase, add_database, open_database}
use public_inbox.Memory.Frees.{PidsLive, Held}
use public_inbox.Base.{
  if◌then◌else◌, Bool-cases, ok, ℕ, ◌+◌, ◌≤◌, ◌≡◌, refl, sym, ap, ◌∙◌, inl, inr, Bool, true, false,
  Option, none, some, List, [], ◌∷◌, ◌++◌, append-nil, append_assoc, arith,
}

abbrev pub is_some : {A : Type 0} → Option A → Bool
is_some none = false
is_some (some a) = true

-- The database is of all the directories, or of some when an exception came.
module _ (x : Block) (xs : List Block) (s : Proc) (d : ℕ) (whole : List Bytes) where
  abbrev pub AddingWays : Option Bool → Type 0
  AddingWays none = Bool × List Bytes
  AddingWays (some phrase) = Unit

  abbrev pub adding_leaves : (r : Option Bool) → AddingWays r → Proc
  adding_leaves none (phrase, shards) = placed (opened_as x phrase (some d) shards ∷ xs) s
  adding_leaves (some phrase) w = placed (opened_as x phrase (some d) whole ∷ xs) s

  abbrev pub adding : Shape Proc (Option Bool) Bool
  adding = record { Ways = AddingWays; gives = λ r w. is_some r; leaves = adding_leaves }

module _ (w : World) (opens : Opening) (try : ℕ) where
  add_databases-adding :
      (x : Block) (xs : List Block) (s : Proc) (d : ℕ) (whole dirs shards : List Bytes)
      (phrase : Bool)
      → PidsLive s
      → shards ++ dirs ≡ whole
      → Follows Held
          (adding x xs s d whole)
          (add_shards w opens try dirs phrase)
          (add_databases w opens try x.at dirs (placed (opened_as x phrase (some d) shards ∷ xs) s))
  unfolding add_shards add_databases
  add_databases-adding x xs s d whole [] shards phrase h e = (
    tt,
    ap (λ l. done true (placed (opened_as x phrase (some d) l ∷ xs) s))
        (sym (append-nil shards) ∙ e),
  )
  add_databases-adding x xs s d whole (dir ∷ dirs) shards phrase h e =
      let y = opened_as x phrase (some d) shards in
      bind Held (flagged y xs s) (adding x xs s d whole) (unset_phrase w dir phrase)
        (flag_phrase w dir x.at (placed (y ∷ xs) s))
        (λ b. if opens try dir then add_shards w opens try dirs b else ok none)
        (λ u.
          if opens try dir
          then (add_database x.at dir >> add_databases w opens try x.at dirs)
          else pure false)
        (flag_phrase-head w dir y xs s h)
        λ b u. elim (Bool-cases (opens try dir)) [
          | inl t ↦ rw t (
              run_first Held (adding x xs s d whole) (add_shards w opens try dirs b)
                (λ v. add_databases w opens try x.at dirs) (add_database-head x b d shards xs s dir)
                (add_databases-adding x xs s d whole dirs (shards ++ (dir ∷ [])) b h
                  (append_assoc shards (dir ∷ []) dirs ∙ e)))
          | inr f ↦ rw f ((b, shards), refl)
        ]

-- The database of a try is new, and may be there when an exception came.
module _ (x : Block) (xs : List Block) (s : Proc) (dirs : List Bytes) where
  abbrev pub OpeningWays : Option Bool → Type 0
  OpeningWays none = Bool × Ptr × List Bytes × ((n : ℕ) × (s.next ≤ n))
  OpeningWays (some phrase) = Unit

  abbrev pub opening_leaves : (r : Option Bool) → OpeningWays r → Proc
  opening_leaves none (phrase, db, shards, (n, l)) =
      placed (opened_as x phrase db shards ∷ xs) (record s { next = n })
  opening_leaves (some phrase) w =
      placed (opened_as x phrase (some s.next) dirs ∷ xs) (record s { next = s.next + 1 })

  abbrev pub opening : Shape Proc (Option Bool) Bool
  opening = record { Ways = OpeningWays; gives = λ r w. is_some r; leaves = opening_leaves }

adding-opening :
    (x : Block) (xs : List Block) (s : Proc) (dirs : List Bytes) (r : Option Bool)
    (w : AddingWays x xs (record s { next = s.next + 1 }) s.next dirs r)
    → (v : OpeningWays x xs s dirs r) × (done
          (is_some r)
          (adding_leaves x xs (record s { next = s.next + 1 }) s.next dirs r w)
        ≡ done (is_some r) (opening_leaves x xs s dirs r v))
adding-opening x xs s dirs none w = ((w.0, some s.next, w.1, (s.next + 1, omega arith)), refl)
adding-opening x xs s dirs (some phrase) w = (tt, refl)

module _ (w : World) (opens : Opening) (try : ℕ) where
  pub open_database-opening :
      (x : Block) (xs : List Block) (s : Proc) (dirs shards : List Bytes)
      → PidsLive s
      → Follows Held
          (opening x xs s dirs)
          (open_shards w opens try dirs)
          (open_database w opens try x.at dirs (placed (opened_as x true none shards ∷ xs) s))
  unfolding open_shards open_database new_db srch_cells db_cells qp_cells addresses
  open_database-opening x xs s [] shards h = refl
  open_database-opening x xs s (dir ∷ dirs) shards h =
      let y = opened_as x true (some s.next) (dir ∷ []) in
      let t : Proc = record s { next = s.next + 1 } in
      elim (Bool-cases (opens try dir)) [
        | inr f ↦ rw f ((true, none, shards, (s.next, omega arith)), refl)
        | inl o ↦
            let a = (opened_as x true none shards).srch in
            let u = record (placed (opened_as x true none shards ∷ xs) t) {
              dbs = (s.next, dir ∷ []) ∷ db_cells xs;
            } in
            let rest : Cmd Proc Bool =
              flag_phrase w dir x.at >> add_databases w opens try x.at dirs in
            rw o (
              run_first Held (opening x xs s (dir ∷ dirs)) _
                (λ b. write_srch x.at (record b { db = some s.next }) >> rest)
                (read_srch-head x.at a (srch_cells xs) u)
                (run_first Held (opening x xs s (dir ∷ dirs)) _ (λ v. rest)
                  (write_srch-head x.at a (srch_cells xs) u y.srch)
                  (bind Held (flagged y xs t) (opening x xs s (dir ∷ dirs))
                    (unset_phrase w dir true) (flag_phrase w dir x.at (placed (y ∷ xs) t))
                    (add_shards w opens try dirs) (λ u. add_databases w opens try x.at dirs)
                    (flag_phrase-head w dir y xs t h)
                    λ b u.
                      Follows-reshape Held (adding x xs t s.next (dir ∷ dirs))
                        (opening x xs s (dir ∷ dirs)) (add_shards w opens try dirs b) _
                        (add_databases-adding w opens try x xs t s.next (dir ∷ dirs) dirs (dir ∷ [])
                          b h refl)
                        (adding-opening x xs s (dir ∷ dirs)))))
      ]
