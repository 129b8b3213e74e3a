-- ===== src/Memory/Finds.antt =====
-- How dispatch of lib/PublicInbox/xap_helper.h finds a handle in the set, by its pointer.
use public_inbox.Memory.Layout.{Place, handles_of, addresses, blocks, Seen, block_of}
use public_inbox.Heap.{done, lookup, Ptr, Live, and_then-done, pure, or_invalid}
use public_inbox.Cache.{find_key, Handle, srch_eq, new_handle}
use public_inbox.Args.{Bytes}
use public_inbox.Memory.Serves.{find_ptr}
use public_inbox.Options.{same_bytes}
use public_inbox.Memory.{Srch, QueryParser, read_srch, Proc}
use public_inbox.Base.{
  if◌then◌else◌, Bool-cases, All, ℕ, ◌<◌, ◌≡◌, refl, ap, subst, ◌∙◌, inl, inr, Option, none, some,
  List, [], ◌∷◌, arith,
}

unfoldable pub find_place : Bytes → List Place → Option Place
find_place ckey [] = none
find_place ckey (p ∷ ps) =
    let rest = find_place ckey ps in if same_bytes p.handle.ckey ckey then some p else rest

abbrev pub handle_of : Option Place → Option Handle
handle_of none = none
handle_of (some p) = some p.handle

abbrev pub ptr_of : Option Place → Ptr
ptr_of none = none
ptr_of (some p) = some p.at

pub find_key-handles_of :
    (ckey : Bytes) (ps : List Place)
    → find_key (new_handle ckey) (handles_of ps) ≡ handle_of (find_place ckey ps)
unfolding find_key find_place handles_of srch_eq
find_key-handles_of ckey [] = refl
find_key-handles_of ckey (p ∷ ps) = ground (arith, find_key-handles_of ckey ps)

pub find_place-All :
    (P : Place → Type 0) (ckey : Bytes) (ps : List Place) (p : Place)
    → All P ps
    → find_place ckey ps ≡ some p
    → P p
unfolding find_place
find_place-All P ckey [] p h e = absurd (ground arith)
find_place-All P ckey (q ∷ ps) p h e = elim (Bool-cases (same_bytes q.handle.ckey ckey)) [
  | inl t ↦ let s : q ≡ p = ground arith in subst P s h.0
  | inr f ↦ find_place-All P ckey ps p h.1 (ground arith)
]

pub find_ptr-find_place :
    (ckey : Bytes) (ps : List Place) (s : Proc)
    → All (λ p. lookup p.at s.srchs ≡ some (block_of p).srch) ps
    → find_ptr ckey (addresses (blocks ps)) s ≡ done (ptr_of (find_place ckey ps)) s
unfolding find_ptr find_place addresses blocks read_srch
find_ptr-find_place ckey [] s h = refl
find_ptr-find_place ckey (p ∷ ps) s h =
    let rest = find_ptr ckey (addresses (blocks ps)) in
    and_then-done (λ a. if same_bytes a.ckey ckey then pure (some p.at) else rest)
      (ap (λ o. or_invalid o s) h.0)
    ∙ elim (Bool-cases (same_bytes p.handle.ckey ckey)) [
      | inl t ↦ rw t refl
      | inr f ↦ rw f (find_ptr-find_place ckey ps s h.1)
    ]

-- A handle that is new is not among those of the set.
pub Seen-new :
    (n : ℕ) (a : Srch) (srchs : Live Srch) (dbs : Live (List Bytes)) (qps : Live QueryParser)
    (ps : List Place)
    → All (Seen n srchs dbs qps) ps
    → All (λ p. lookup p.at ((n, a) ∷ srchs) ≡ some (block_of p).srch) ps
unfolding lookup
Seen-new n a srchs dbs qps [] h = tt
Seen-new n a srchs dbs qps (p ∷ ps) h =
    let s = h.0 in
    let l : p.at < n = s.at_lt in (ground (arith, s.sees_srch), Seen-new n a srchs dbs qps ps h.1)
