-- ===== src/Cache/Budget.antt =====
-- The descriptors that the handles take, and whose handle a request gets.
use public_inbox.Cache.{
  World, find_key, take_budget, Handle, Cache, shard_cost, srch_cache_renew, srch_eq, srch_init,
  find_handle, UserPrefix, srch_init_extra, parser_of, Opening, new_handle,
}
use public_inbox.Cache.Opened.{Opens, has_phrase, open_tries-Opens}
use public_inbox.Options.{same_bytes, Parsed}
use public_inbox.Args.RoundTrip.{NoNul}
use public_inbox.Options.Key.{key_bytes, args_of, key_bytes-injective}
use public_inbox.Base.{
  ltb, Bool-cases, Option-cases, length, drop, All, ◌>>=◌, ok-injective, ok, ℕ, ◌+◌, ◌*◌, ◌≤◌, ◌≡◌,
  refl, sym, ap, subst, ◌∙◌, ◌⊎◌, inl, inr, Bool, true, false, false≢true, some, List, [], ◌∷◌,
  arith,
}
use public_inbox.Args.{Bytes}

-- What srch_init counts for the shards of the handles.
unfoldable pub cost : List Handle → ℕ
cost [] = 0
cost (h ∷ hs) = length h.shards * shard_cost + cost hs

-- The handle that is opened from scratch for -d and -Q switches, -c as `code` says, and the prefixes
-- that the -Q switches mean.
abbrev pub handle_for :
    World → (List (Bool × Bytes) → Bool) → List (Bool × Bytes) → List UserPrefix → Handle
handle_for w code xs ps = record {
  ckey = key_bytes xs;
  shards = args_of true xs;
  phrase = has_phrase w (args_of true xs);
  parser = parser_of w (code xs);
  prefixes = ps;
}

-- A handle is what its key's switches give from scratch.
abbrev pub Keyed : World → (List (Bool × Bytes) → Bool) → Handle → Type 0
Keyed w code h =
    (xs : List (Bool × Bytes)) × (ps : List UserPrefix) × All (λ x. NoNul x.1) xs
    × (srch_init_extra (args_of false xs) ≡ ok ps)
    × (h ≡ handle_for w code xs ps)

-- The handles are counted, within the limit unless there is only one, and what their keys give.
pub record IsSound (w : World) (code : List (Bool × Bytes) → Bool) (c : Cache) : Type 0 where
  pub counted : cost c.handles ≤ c.shard_nfd
  pub within : (c.shard_nfd ≤ w.my_fd_max) ⊎ (length c.handles ≤ 1)
  pub keyed : All (Keyed w code) c.handles

pub same_bytes_lem : (a b : Bytes) → same_bytes a b ≡ true → a ≡ b
unfolding same_bytes
same_bytes_lem [] [] e = refl
same_bytes_lem [] (b ∷ t) e = absurd (false≢true e)
same_bytes_lem (a ∷ s) [] e = absurd (false≢true e)
same_bytes_lem (a ∷ s) (b ∷ t) e = ground (arith, same_bytes_lem s t)

find_key-Keyed :
    (w : World) (code : List (Bool × Bytes) → Bool) (srch : Handle) (hs : List Handle) (h : Handle)
    → find_key srch hs ≡ some h
    → All (Keyed w code) hs
    → Keyed w code h × (h.ckey ≡ srch.ckey)
unfolding find_key srch_eq
find_key-Keyed w code srch [] h e k = absurd cc
find_key-Keyed w code srch (g ∷ hs) h e k = elim (Bool-cases (same_bytes g.ckey srch.ckey)) [
  | inl y ↦
      let s : g ≡ h = ground arith in
      (subst (Keyed w code) s k.0, ap (λ x. x.ckey) (sym s) ∙ same_bytes_lem g.ckey srch.ckey y)
  | inr n ↦ find_key-Keyed w code srch hs h (ground arith) k.1
]

-- What the new handle's budget leaves in the set, which had `hs` besides.
pub record Left (w : World) (nfd : ℕ) (srch : Handle) (hs : List Handle) (old : ℕ) (c : Cache)
    : Type 0 where
  pub front : (rest : List Handle) × (c.handles ≡ srch ∷ rest) × ((rest ≡ hs) ⊎ (rest ≡ []))
  pub fits :
      ((c.shard_nfd ≡ old + nfd) × (old + nfd ≤ w.my_fd_max))
      ⊎ ((c.shard_nfd ≡ nfd) × (c.handles ≡ srch ∷ []))

pub take_budget-Left :
    (w : World) (nfd : ℕ) (srch : Handle) (hs : List Handle) (old : ℕ)
    → Left w nfd srch hs old
        (take_budget w nfd srch (record { handles = srch ∷ hs; shard_nfd = old }))
unfolding take_budget srch_cache_renew
take_budget-Left w nfd srch hs old = elim (Bool-cases (ltb w.my_fd_max (old + nfd))) [
  | inl y ↦
      let r : Left w nfd srch hs old (record { handles = srch ∷ []; shard_nfd = nfd }) = record {
        front = ([], refl, inr refl);
        fits = inr (refl, refl);
      } in
      subst (Left w nfd srch hs old) (ground arith) r
  | inr n ↦
      let r : Left w nfd srch hs old (record { handles = srch ∷ hs; shard_nfd = old + nfd }) =
        record { front = (hs, refl, inl refl); fits = inl (refl, ground arith) } in
      subst (Left w nfd srch hs old) (ground arith) r
]

-- The set with the new handle filled in, and those that are left behind it.
filled-IsSound :
    (w : World) (code : List (Bool × Bytes) → Bool) (h : Handle) (t hs : List Handle) (old n : ℕ)
    → Keyed w code h
    → All (Keyed w code) hs
    → cost hs ≤ old
    → (t ≡ hs) ⊎ (t ≡ [])
    → ((n ≡ old + length h.shards * shard_cost)
        × (old + length h.shards * shard_cost ≤ w.my_fd_max))
      ⊎ ((n ≡ length h.shards * shard_cost) × (t ≡ []))
    → IsSound w code (record { handles = h ∷ t; shard_nfd = n })
unfolding cost
filled-IsSound w code h t hs old n k a l left fits =
    let keys : All (Keyed w code) t = elim left [
      | inl e ↦ subst (All (Keyed w code)) (sym e) a
      | inr e ↦ subst (All (Keyed w code)) (sym e) tt
    ] in
    let small : (cost t ≡ cost hs) ⊎ (cost t ≡ 0) = elim left [
      | inl e ↦ inl (ap cost e)
      | inr e ↦ inr (ap cost e)
    ] in
    elim fits [
      | inl (e, f) ↦ record {
        counted = ground arith;
        within = inl (omega arith);
        keyed = (k, keys);
      }
      | inr (e, z) ↦
          let single : cost t ≡ 0 = ap cost z in
          let one : length t ≡ 0 = ap length z in
          record { counted = omega arith; within = inr (omega arith); keyed = (k, keys) }
    ]

-- A request whose key stands for the switches xs, with well-formed prefixes ps.
pub record IsRequest (code : List (Bool × Bytes) → Bool) (xs : List (Bool × Bytes))
    (ps : List UserPrefix) (p : Parsed) : Type 0 where
  pub clean : All (λ x. NoNul x.1) xs
  pub key : p.1 ≡ key_bytes xs
  pub dirs : p.0.dirv ≡ args_of true xs
  pub prefixes : srch_init_extra p.0.qpfxv ≡ ok ps
  pub qpfxs : p.0.qpfxv ≡ args_of false xs
  pub coded : p.0.code_search ≡ code xs

srch_init_lem :
    (w : World) (code : List (Bool × Bytes) → Bool) (opens : Opening) (xs : List (Bool × Bytes))
    (ps : List UserPrefix) (p : Parsed) (srch : Handle) (hs : List Handle) (old : ℕ)
    → IsRequest code xs ps p
    → srch.ckey ≡ p.1
    → Opens w opens p.0.dirv
    → All (Keyed w code) hs
    → cost hs ≤ old
    → (c : Cache) × (srch_init w opens p.0 srch (record { handles = srch ∷ hs; shard_nfd = old })
        ≡ ok (handle_for w code xs ps, c))
      × IsSound w code c
unfolding srch_init
srch_init_lem w code opens xs ps p srch hs old q key op ks l =
    let nfd = length p.0.dirv * shard_cost in
    let c = take_budget w nfd srch (record { handles = srch ∷ hs; shard_nfd = old }) in
    let left = take_budget-Left w nfd srch hs old in
    let (rest, front, kept) = left.front in
    let (o, oe, phrase, stays) = open_tries-Opens w opens p.0.dirv srch c.handles op in
    let h : Handle = record srch {
      shards = p.0.dirv;
      phrase = o.0;
      parser = parser_of w p.0.code_search;
      prefixes = ps;
    } in
    let made : h ≡ handle_for w code xs ps =
      ground (arith, q.dirs, q.coded, q.key, phrase, ap (has_phrase w) q.dirs) in
    let behind : (drop 1 o.1 ≡ rest) ⊎ (drop 1 o.1 ≡ []) = elim stays [
      | inl e ↦ inl (ap (drop 1) (e ∙ front))
      | inr e ↦ inr (ap (drop 1) e)
    ] in
    let t : (drop 1 o.1 ≡ hs) ⊎ (drop 1 o.1 ≡ []) = elim behind [
      | inr e ↦ inr e
      | inl e ↦ elim kept [ inl f ↦ inl (e ∙ f) | inr f ↦ inr (e ∙ f) ]
    ] in
    let fits : ((c.shard_nfd ≡ old + nfd) × (old + nfd ≤ w.my_fd_max))
        ⊎ ((c.shard_nfd ≡ nfd) × (drop 1 o.1 ≡ [])) =
      elim left.fits [
        | inl e ↦ inl e
        | inr (e, single) ↦
            inr (e, elim behind [ inr f ↦ f | inl f ↦ f ∙ ap (drop 1) (sym front ∙ single) ])
      ] in
    let keyed : Keyed w code h =
      (xs, ps, q.clean, ap srch_init_extra (sym q.qpfxs) ∙ q.prefixes, made) in
    (
      record c { handles = h ∷ drop 1 o.1 },
      ap
            (λ m. m >>= λ a. srch_init_extra p.0.qpfxv >>= λ b.
              let g : Handle = record srch {
                shards = p.0.dirv;
                phrase = a.0;
                parser = parser_of w p.0.code_search;
                prefixes = b;
              } in
              ok (g, record c { handles = g ∷ drop 1 a.1 }))
            oe
          ∙ ap
              (λ m. m >>= λ b.
                let g : Handle = record srch {
                  shards = p.0.dirv;
                  phrase = o.0;
                  parser = parser_of w p.0.code_search;
                  prefixes = b;
                } in
                ok (g, record c { handles = g ∷ drop 1 o.1 }))
              q.prefixes
          ∙ ap (λ g. ok (g, record c { handles = h ∷ drop 1 o.1 })) made,
      filled-IsSound w code h (drop 1 o.1) hs old c.shard_nfd keyed ks l t fits,
    )

-- For an accepted request with no NUL in its switches and well-formed -Q prefixes, if the databases
-- open at one of the two tries and the same switches always come with the same -c: the request gets
-- the very handle that opening it from scratch gives, whatever was asked for before, and the set
-- stays valid: what its handles take is counted and within the limit on descriptors, unless the new
-- handle is alone.
pub find_handle-IsSound :
    (w : World) (code : List (Bool × Bytes) → Bool) (opens : Opening) (xs : List (Bool × Bytes))
    (ps : List UserPrefix) (p : Parsed) (c : Cache)
    → IsSound w code c
    → IsRequest code xs ps p
    → Opens w opens p.0.dirv
    → (c' : Cache) × (find_handle w opens p c ≡ ok (handle_for w code xs ps, c'))
      × IsSound w code c'
unfolding find_handle
find_handle-IsSound w code opens xs ps p c v q op =
    let srch = new_handle p.1 in
    elim (Option-cases (find_key srch c.handles)) [
      | inl n ↦
          let (c', e, i) =
            srch_init_lem w code opens xs ps p srch c.handles c.shard_nfd q refl op v.keyed
              v.counted in
          (c', ground (arith, n, e), i)
      | inr (h, f) ↦
          let ((ys, qs, ny, k, s), e) = find_key-Keyed w code srch c.handles h f v.keyed in
          let z : ys ≡ xs =
            key_bytes-injective ys xs ny q.clean (ap (λ g. g.ckey) (sym s) ∙ e ∙ q.key) in
          let r : qs ≡ ps = ok-injective (
            sym k
            ∙ ap (λ y. srch_init_extra (args_of false y)) z
            ∙ ap srch_init_extra (sym q.qpfxs)
            ∙ q.prefixes) in
          (c, ground (arith, f, s, z, r), v)
    ]
