-- ===== src/Dispatch/Refine.antt =====
-- dispatch of lib/PublicInbox/xap_helper.h against a process without a cache.
use public_inbox.Dispatch.{
  Outside, Answer, dispatch, run_timed, cmds, reopen_cached, current, reopen_db, Sight,
}
use public_inbox.Cache.{Cache, find_key, new_handle}
use public_inbox.Cache.Budget.{IsSound, find_handle-IsSound}
use public_inbox.Cache.Refine.{Served, Served-IsRequest, fresh_handle, fresh_handle-eq}
use public_inbox.Options.Key.{keyed}
use public_inbox.Options.{Parsed, parse_request, find_command}
use public_inbox.Base.{
  Option-cases, Run, ◌>>=◌, ◌>>◌, Run-cases, aborts, faults, ok, stop, ◌≡◌, refl, inl, inr, Bool,
  true, none, some, List, [], ◌∷◌, arith,
}
use public_inbox.Args.{Bytes}

-- The specification: what a request gives by itself, of databases as they are now.
unfoldable pub answer : Outside → List Bytes → Bool → Run Answer
answer o [] has_err = stop faults
answer o (name ∷ args) has_err = elim (find_command cmds name) [
  | none ↦ stop aborts
  | some cmd ↦
      let (switches, rest) = o.getopt (name ∷ args) in
      parse_request o.libc switches >>= λ p.
      fresh_handle o.world p >>= λ h. run_timed o current cmd h p.0 rest has_err
]

-- Whatever request parse_request accepts of these arguments is served.
abbrev pub Ready : (List (Bool × Bytes) → Bool) → Outside → List Bytes → Type 0
Ready code o argv =
    (p : Parsed)
    → parse_request o.libc (o.getopt argv).0 ≡ ok p
    → Served o.world o.libc code (o.opens, p)

reopen_cached-works :
    (o : Outside) (p : Parsed) (c : Cache)
    → o.reopen_works ≡ true
    → reopen_cached o p c ≡ ok current
unfolding reopen_cached reopen_db
reopen_cached-works o p c e = elim (Option-cases (find_key (new_handle p.1) c.handles)) [
  | inl n ↦ ground (arith, n)
  | inr (h, f) ↦ ground (arith, f, e)
]

-- Whatever comes after it gets databases as they are now.
pub reopen_cached-current :
    {A : Type 0} (o : Outside) (p : Parsed) (c : Cache) (next : Sight → Run A)
    → (reopen_cached o p c >>= next) ≡ (reopen_cached o p c >> next current)
unfolding reopen_cached reopen_db
reopen_cached-current o p c next = elim (Option-cases (find_key (new_handle p.1) c.handles)) [
  | inl n ↦ ground (arith, n)
  | inr (h, f) ↦ ground (arith, f)
]

-- If an open database can be reopened and whatever request the switches make is served, that is, the
-- databases open at one of the two tries, there is no NUL in the switches, the prefixes of -Q are
-- well-formed, and -d and -Q in order determine, by `code`, whether there is a -c: from any valid set of
-- handles, dispatch ends as it does for a process that opens the databases of every request anew and
-- sees them as they are now, whichever way that is, and the set that it leaves is valid.
pub dispatch_refines :
    (o : Outside) (code : List (Bool × Bytes) → Bool) (argv : List Bytes) (has_err : Bool)
    (c : Cache)
    → IsSound o.world code c
    → o.reopen_works ≡ true
    → Ready code o argv
    → (c' : Cache) × IsSound o.world code c'
      × (dispatch o argv has_err c ≡ (answer o argv has_err >>= λ a. ok (a, c')))
unfolding dispatch answer
dispatch_refines o code [] has_err c v e r = (c, v, refl)
dispatch_refines o code (name ∷ args) has_err c v e r =
    elim (Option-cases (find_command cmds name)) [
      | inl n ↦ (c, v, ground (arith, n))
      | inr (cmd, f) ↦ elim (Run-cases (parse_request o.libc (o.getopt (name ∷ args)).0)) [
        | inl (why, s) ↦ (c, v, ground (arith, f, s))
        | inr (p, s) ↦
            let q = r p s in
            let rq = Served-IsRequest o.world o.libc code (o.opens, p) q in
            let (c', g, v') =
              find_handle-IsSound o.world code o.opens (keyed q.switches) q.prefixes p c v rq
                q.opens in
            let h = fresh_handle-eq o.world o.libc code (o.opens, p) q in
            let w = reopen_cached-works o p c e in (c', v', ground (arith, f, s, g, h, w))
      ]
    ]
