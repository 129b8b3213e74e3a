-- ===== src/Cache/Opened.antt =====
-- The two tries to open the shards of a request, in srch_init of lib/PublicInbox/xap_helper.h.
use public_inbox.Cache.{
  Cache, UserPrefix, srch_init, take_budget, shard_cost, srch_init_extra, parser_of, World, Opening,
  Handle, is_chert, chert_name, path_max, unset_phrase, add_shards, open_shards, open_tries,
  srch_cache_renew,
}
use public_inbox.Base.{
  leb, if◌then◌else◌, Bool-cases, Option-cases, length, drop, Run, ◌>>=◌, >>=-ok, Run-cases, ok, ℕ,
  ◌*◌, ◌≡◌, refl, ◌⊎◌, inl, inr, Bool, true, not, ◌&&◌, ◌||◌, none, some, List, [], ◌∷◌, ◌++◌,
  arith,
}
use public_inbox.Options.{Req}
use public_inbox.Args.{Bytes}

-- FLAG_PHRASE is for lei and for handles none of whose shards is a chert database.
unfoldable pub has_phrase : World → List Bytes → Bool
has_phrase w [] = true
has_phrase w (dir ∷ dirs) = (w.lei || not (w.is_regular (dir ++ chert_name))) && has_phrase w dirs

unset_phrase_lem :
    (w : World) (dir : Bytes) (phrase p : Bool)
    → unset_phrase w dir phrase ≡ ok p
    → p ≡ (w.lei || not (w.is_regular (dir ++ chert_name))) && phrase
unfolding unset_phrase is_chert
unset_phrase_lem w dir phrase p e = elim (Bool-cases (leb path_max (length (dir ++ chert_name)))) [
  | inl y ↦ ground (arith, y)
  | inr n ↦ ground (arith, n)
]

add_shards-has_phrase :
    (w : World) (opens : Opening) (try : ℕ) (dirs : List Bytes) (phrase p : Bool)
    → add_shards w opens try dirs phrase ≡ ok (some p)
    → p ≡ phrase && has_phrase w dirs
unfolding add_shards has_phrase
add_shards-has_phrase w opens try [] phrase p e = ground arith
add_shards-has_phrase w opens try (d ∷ dirs) phrase p e =
    let (q, u, f) =
      >>=-ok (unset_phrase w d phrase)
        (λ x. if opens try d then add_shards w opens try dirs x else ok none) e in
    ground (arith, unset_phrase_lem w d phrase q u, f, add_shards-has_phrase w opens try dirs q p)

open_shards-has_phrase :
    (w : World) (opens : Opening) (try : ℕ) (dirs : List Bytes) (p : Bool)
    → open_shards w opens try dirs ≡ ok (some p)
    → p ≡ has_phrase w dirs
unfolding open_shards has_phrase
open_shards-has_phrase w opens try [] p e = absurd cc
open_shards-has_phrase w opens try (d ∷ dirs) p e =
    let t : (unset_phrase w d true >>= add_shards w opens try dirs) ≡ ok (some p) = ground arith in
    let (q, u, f) = >>=-ok (unset_phrase w d true) (add_shards w opens try dirs) t in
    ground (arith, unset_phrase_lem w d true q u, add_shards-has_phrase w opens try dirs q p f)

-- The tries work if the databases open at one of them.
abbrev pub Opens : World → Opening → List Bytes → Type 0
Opens w opens dirs =
    ((p : Bool) × (open_shards w opens 0 dirs ≡ ok (some p)))
    ⊎ ((open_shards w opens 0 dirs ≡ ok none)
        × (p : Bool) × (open_shards w opens 1 dirs ≡ ok (some p)))

-- What the tries leave: the handles as they are, or only the new one.
pub open_tries-Opens :
    (w : World) (opens : Opening) (dirs : List Bytes) (srch : Handle) (hs : List Handle)
    → Opens w opens dirs
    → (r : Bool × List Handle) × (open_tries w opens dirs srch hs ≡ ok r)
      × (r.0 ≡ has_phrase w dirs)
      × ((r.1 ≡ hs) ⊎ (r.1 ≡ srch ∷ []))
unfolding open_tries srch_cache_renew
open_tries-Opens w opens dirs srch hs op = elim op [
  | inl (p, a) ↦ ((p, hs), ground (arith, a), open_shards-has_phrase w opens 0 dirs p a, inl refl)
  | inr (n, p, a) ↦
      ((p, srch ∷ []), ground (arith, n, a), open_shards-has_phrase w opens 1 dirs p a, inr refl)
]

-- Tries that work leave the handles as they are, or only the new one.
pub open_tries-left :
    (w : World) (opens : Opening) (dirs : List Bytes) (srch : Handle) (hs : List Handle)
    (o : Bool × List Handle)
    → open_tries w opens dirs srch hs ≡ ok o
    → (o.1 ≡ hs) ⊎ (o.1 ≡ srch ∷ [])
unfolding open_tries srch_cache_renew
open_tries-left w opens dirs srch hs o e = elim (Run-cases (open_shards w opens 0 dirs)) [
  | inl (s, a) ↦ absurd (ground arith)
  | inr (q, a) ↦ elim (Option-cases q) [
    | inr (r, b) ↦ inl (ground arith)
    | inl b ↦ elim (Run-cases (open_shards w opens 1 dirs)) [
      | inl (s, c) ↦ absurd (ground arith)
      | inr (r, c) ↦ elim (Option-cases r) [
        | inr (p, d) ↦ inr (ground arith)
        | inl d ↦ absurd (ground arith)
      ]
    ]
  ]
]

-- The handle and the set that srch_init gives in the end.
abbrev filled_in :
    World → Req → Handle → Cache → List UserPrefix → Bool × List Handle → Run (Handle × Cache)
filled_in w req srch c ps o =
    let h : Handle = record srch {
      shards = req.dirv;
      phrase = o.0;
      parser = parser_of w req.code_search;
      prefixes = ps;
    } in
    ok (h, record c { handles = h ∷ drop 1 o.1 })

-- What has happened when srch_init works: the tries have, and the handle is in front of what they
-- leave.
pub srch_init-opened :
    (w : World) (opens : Opening) (req : Req) (srch : Handle) (c c' : Cache) (r : Handle)
    → srch_init w opens req srch c ≡ ok (r, c')
    → (o : Bool × List Handle) × (open_tries w opens req.dirv srch
          (take_budget w (length req.dirv * shard_cost) srch c).handles
        ≡ ok o)
      × (c'.handles ≡ r ∷ drop 1 o.1)
      × (r.ckey ≡ srch.ckey)
unfolding srch_init
srch_init-opened w opens req srch c c' r e =
    let t = take_budget w (length req.dirv * shard_cost) srch c in
    let (o, oe, f) =
      >>=-ok (open_tries w opens req.dirv srch t.handles)
        (λ o. srch_init_extra req.qpfxv >>= λ ps. filled_in w req srch t ps o) e in
    let (ps, pe, g) = >>=-ok (srch_init_extra req.qpfxv) (λ ps. filled_in w req srch t ps o) f in
    (o, oe, ground (arith, g), ground (arith, g))
