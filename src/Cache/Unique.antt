-- ===== src/Cache/Unique.antt =====
-- The handles of the set of lib/PublicInbox/xap_helper.h have different keys.
use public_inbox.Cache.{
  World, Opening, Handle, Cache, find_handle, find_key, new_handle, srch_init, take_budget, srch_eq,
  shard_cost,
}
use public_inbox.Cache.Budget.{take_budget-Left, same_bytes_lem}
use public_inbox.Cache.Opened.{open_tries-left, srch_init-opened}
use public_inbox.Options.{Req, Parsed, same_bytes}
use public_inbox.Base.{
  Bool-cases, Option-cases, length, drop, All, ok, ℕ, ◌*◌, ◌≡◌, refl, sym, ap, subst, ◌∙◌, ◌≢◌, ◌⊎◌,
  inl, inr, true, none, some, List, [], ◌∷◌, arith,
}
use public_inbox.Args.{Bytes}

-- No handle has the key, and no two have the same.
abbrev pub Absent : Bytes → List Handle → Type 0
Absent key = All (λ h. h.ckey ≢ key)

unfoldable pub Distinct : List Handle → Type 0
Distinct [] = Unit
Distinct (h ∷ hs) = Absent h.ckey hs × Distinct hs

same_bytes_refl : (a : Bytes) → same_bytes a a ≡ true
unfolding same_bytes
same_bytes_refl [] = refl
same_bytes_refl (b ∷ a) = ground (arith, same_bytes_refl a)

find_key-Absent : (srch : Handle) (hs : List Handle) → find_key srch hs ≡ none → Absent srch.ckey hs
unfolding find_key srch_eq
find_key-Absent srch [] e = tt
find_key-Absent srch (h ∷ hs) e = elim (Bool-cases (same_bytes h.ckey srch.ckey)) [
  | inl y ↦ absurd (ground arith)
  | inr n ↦ (
    λ s. absurd (ground (arith, same_bytes_refl srch.ckey, ap (λ k. same_bytes k srch.ckey) s)),
    find_key-Absent srch hs (ground arith),
  )
]

-- A new key in front.
in_front :
    (h srch : Handle) (hs t : List Handle)
    → h.ckey ≡ srch.ckey
    → Absent srch.ckey hs
    → Distinct hs
    → (t ≡ hs) ⊎ (t ≡ [])
    → Distinct (h ∷ t)
unfolding Distinct
in_front h srch hs t k a d left = elim left [
  | inl e ↦ (
    subst (λ x. Absent h.ckey x) (sym e) (subst (λ x. Absent x hs) (sym k) a),
    subst Distinct (sym e) d,
  )
  | inr e ↦ (subst (λ x. Absent h.ckey x) (sym e) tt, subst Distinct (sym e) tt)
]

srch_init-Distinct :
    (w : World) (opens : Opening) (req : Req) (srch : Handle) (hs : List Handle) (old : ℕ)
    (r : Handle) (c' : Cache)
    → Absent srch.ckey hs
    → Distinct hs
    → srch_init w opens req srch (record { handles = srch ∷ hs; shard_nfd = old }) ≡ ok (r, c')
    → Distinct c'.handles × (r.ckey ≡ srch.ckey)
srch_init-Distinct w opens req srch hs old r c' a d e =
    let c : Cache = record { handles = srch ∷ hs; shard_nfd = old } in
    let nfd = length req.dirv * shard_cost in
    let t = take_budget w nfd srch c in
    let (rest, front, kept) = (take_budget-Left w nfd srch hs old).front in
    let (o, oe, h, k) = srch_init-opened w opens req srch c c' r e in
    let behind : (drop 1 o.1 ≡ rest) ⊎ (drop 1 o.1 ≡ []) =
      elim (open_tries-left w opens req.dirv srch t.handles o oe) [
        | inl y ↦ inl (ap (drop 1) (y ∙ front))
        | inr y ↦ inr (ap (drop 1) y)
      ] in
    let left : (drop 1 o.1 ≡ hs) ⊎ (drop 1 o.1 ≡ []) = elim behind [
      | inr y ↦ inr y
      | inl y ↦ elim kept [ inl z ↦ inl (y ∙ z) | inr z ↦ inr (y ∙ z) ]
    ] in
    (subst Distinct (sym h) (in_front r srch hs (drop 1 o.1) k a d left), k)

same_key :
    (srch : Handle) (hs : List Handle) (h : Handle) → find_key srch hs ≡ some h → h.ckey ≡ srch.ckey
unfolding find_key srch_eq
same_key srch [] h e = absurd (ground arith)
same_key srch (g ∷ hs) h e = elim (Bool-cases (same_bytes g.ckey srch.ckey)) [
  | inl y ↦
      let s : g ≡ h = ground arith in ap (λ x. x.ckey) (sym s) ∙ same_bytes_lem g.ckey srch.ckey y
  | inr n ↦ same_key srch hs h (ground arith)
]

-- Whenever a request gets a handle, from a set whose handles have different keys: the handle has the
-- request's key, and the handles of the set that is left have different keys.
pub find_handle-Distinct :
    (w : World) (opens : Opening) (p : Parsed) (c c' : Cache) (r : Handle)
    → Distinct c.handles
    → find_handle w opens p c ≡ ok (r, c')
    → Distinct c'.handles × (r.ckey ≡ p.1)
unfolding find_handle
find_handle-Distinct w opens p c c' r d e =
    elim (Option-cases (find_key (new_handle p.1) c.handles)) [
      | inr (h, f) ↦
          let s : h ≡ r = ground arith in
          let t : c ≡ c' = ground arith in
          (
            subst (λ x. Distinct x.handles) t d,
            subst (λ x. x.ckey ≡ p.1) s (same_key (new_handle p.1) c.handles h f),
          )
      | inl n ↦
          srch_init-Distinct w opens p.0 (new_handle p.1) c.handles c.shard_nfd r c'
            (find_key-Absent (new_handle p.1) c.handles n) d (ground (arith, n, e))
    ]
