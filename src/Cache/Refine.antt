-- ===== src/Cache/Refine.antt =====
-- The cached handles of lib/PublicInbox/xap_helper.h against a process without a cache.
use public_inbox.Cache.{
  World, Opening, Cache, Handle, UserPrefix, srch_init_extra, find_handle, parser_of,
}
use public_inbox.Options.{Parsed, Libc, Switch, parse_request}
use public_inbox.Cache.Budget.{handle_for, IsRequest, IsSound, find_handle-IsSound}
use public_inbox.Cache.Opened.{has_phrase, Opens}
use public_inbox.Options.Key.{keyed, parse_request-keyed}
use public_inbox.Args.RoundTrip.{NoNul}
use public_inbox.Base.{All, Run, ◌>>=◌, ok, ◌≡◌, refl, ap, Bool, List, [], ◌∷◌, arith}
use public_inbox.Args.{Bytes}

-- The requests in order, each with what opening its databases would give.
pub find_handles : World → List (Opening × Parsed) → Cache → Run (List Handle × Cache)
find_handles w [] c = ok ([], c)
find_handles w ((o, p) ∷ rs) c =
    find_handle w o p c >>= λ r. find_handles w rs r.1 >>= λ q. ok (r.0 ∷ q.0, q.1)

-- The specification: a handle of its own for every request.
unfoldable pub fresh_handle : World → Parsed → Run Handle
fresh_handle w (req, ckey) = srch_init_extra req.qpfxv >>= λ ps. ok (record {
  ckey = ckey;
  shards = req.dirv;
  phrase = has_phrase w req.dirv;
  parser = parser_of w req.code_search;
  prefixes = ps;
})

pub fresh_handles : World → List (Opening × Parsed) → Run (List Handle)
fresh_handles w [] = ok []
fresh_handles w ((o, p) ∷ rs) = fresh_handle w p >>= λ h. fresh_handles w rs >>= λ hs. ok (h ∷ hs)

-- A request that parse_request accepts, with no NUL in its switches, well-formed -Q prefixes,
-- databases that open at one of the two tries, and -c just when `code` says so of its switches.
pub record Served (w : World) (lc : Libc) (code : List (Bool × Bytes) → Bool) (r : Opening × Parsed)
    : Type 0 where
  pub switches : List Switch
  pub prefixes : List UserPrefix
  pub accepted : parse_request lc switches ≡ ok r.1
  pub clean : All (λ x. NoNul x.1) (keyed switches)
  pub coded : r.1.0.code_search ≡ code (keyed switches)
  pub formed : srch_init_extra r.1.0.qpfxv ≡ ok prefixes
  pub opens : Opens w r.0 r.1.0.dirv

module _ (w : World) (lc : Libc) (code : List (Bool × Bytes) → Bool) where
  pub Served-IsRequest :
      (r : Opening × Parsed) (s : Served w lc code r)
      → IsRequest code (keyed s.switches) s.prefixes r.1
  Served-IsRequest r s =
      let (k, d, q) = parse_request-keyed lc s.switches r.1 s.accepted in
      record { clean = s.clean; key = k; dirs = d; prefixes = s.formed; qpfxs = q; coded = s.coded }

  pub fresh_handle-eq :
      (r : Opening × Parsed) (s : Served w lc code r)
      → fresh_handle w r.1 ≡ ok (handle_for w code (keyed s.switches) s.prefixes)
  unfolding fresh_handle
  fresh_handle-eq r s =
      let q = Served-IsRequest r s in
      ground (arith, s.formed, q.key, q.dirs, q.coded, ap (has_phrase w) q.dirs)

  -- From any valid set of handles, requests that are served get the handles that opening each from
  -- scratch gives, in order, and leave a valid set: what its handles take is counted and within the
  -- limit on descriptors, unless there is only one.
  pub find_handles_refines :
      (rs : List (Opening × Parsed)) (c : Cache)
      → IsSound w code c
      → All (Served w lc code) rs
      → (hs : List Handle) × (c' : Cache) × (find_handles w rs c ≡ ok (hs, c'))
        × (fresh_handles w rs ≡ ok hs)
        × IsSound w code c'
  unfolding find_handles fresh_handles
  find_handles_refines [] c v a = ([], c, refl, refl, v)
  find_handles_refines ((o, p) ∷ rs) c v a =
      let q = Served-IsRequest (o, p) a.0 in
      let f = fresh_handle-eq (o, p) a.0 in
      let (c1, e, v1) =
        find_handle-IsSound w code o (keyed a.0.switches) a.0.prefixes p c v q a.0.opens in
      let (hs, c2, e2, f2, v2) = find_handles_refines rs c1 v1 a.1 in
      (
        handle_for w code (keyed a.0.switches) a.0.prefixes ∷ hs,
        c2,
        ground (arith, e, e2),
        ground (arith, f, f2),
        v2,
      )
