-- ===== src/Query/Retry.antt =====
-- When a database changes under a query.
use public_inbox.Query.{got, modified, enquire_mset, Database, mset_loop, at_most_results}
use public_inbox.Options.{Req}
use public_inbox.Base.{ℕ, zero, suc, ◌+◌, ◌-◌, ◌≤◌, ◌<◌, ◌≡◌, ap, ap₂, subst, ◌∙◌, true, arith}

module _ {M : Type 0} (db : Database M) (off max : ℕ) where
  mset_loop-after :
      (k n rev : ℕ)
      → ((i : ℕ) → i < k → db.get_mset (rev + i) off max ≡ modified)
      → ((i : ℕ) → i < k → db.reopens (rev + i) ≡ true)
      → mset_loop db off max (k + n) rev ≡ mset_loop db off max n (rev + k)
  unfolding mset_loop
  mset_loop-after zero n rev h r =
      let a : 0 + n ≡ n = omega arith in
      let b : rev ≡ rev + 0 = omega arith in ap₂ (mset_loop db off max) a b
  mset_loop-after (suc k) n rev h r =
      let a : db.get_mset rev off max ≡ modified =
        subst (λ x. db.get_mset x off max ≡ modified) (omega arith) (h 0 (omega arith)) in
      let b : db.reopens rev ≡ true =
        subst (λ x. db.reopens x ≡ true) (omega arith) (r 0 (omega arith)) in
      let c =
        mset_loop-after k n (rev + 1)
          (λ i l.
            subst (λ x. db.get_mset x off max ≡ modified) (omega arith) (h (suc i) (omega arith)))
          (λ i l. subst (λ x. db.reopens x ≡ true) (omega arith) (r (suc i) (omega arith))) in
      let d : suc k + n ≡ suc (k + n) = omega arith in
      let e : rev + 1 + k ≡ rev + suc k = omega arith in
      ap (λ x. mset_loop db off max x rev) d
      ∙ ground (arith, a, b)
      ∙ c
      ∙ ap (mset_loop db off max n) e

  mset_loop-got :
      (n rev : ℕ) (m : M) → db.get_mset rev off max ≡ got m → mset_loop db off max n rev ≡ got m
  unfolding mset_loop
  mset_loop-got zero rev m e = e
  mset_loop-got (suc n) rev m e = ground (arith, e)

-- If the database changes k ≤ 9 times before get_mset gives results, and is reopened each time,
-- enquire_mset gives these results, which get_mset was asked for with the request's offset and
-- limit, of which 0 means UINT_MAX.
pub enquire_mset-retries :
    {M : Type 0} (db : Database M) (req : Req) (rev k : ℕ) (m : M)
    → k ≤ 9
    → ((i : ℕ) → i < k → db.get_mset (rev + i) req.off (at_most_results req.max) ≡ modified)
    → ((i : ℕ) → i < k → db.reopens (rev + i) ≡ true)
    → db.get_mset (rev + k) req.off (at_most_results req.max) ≡ got m
    → enquire_mset db req rev ≡ got m
unfolding enquire_mset
enquire_mset-retries db req rev k m l h r e =
    let off = req.off in
    let max = at_most_results req.max in
    let settled = mset_loop-got db off max (9 - k) (rev + k) m e in
    let nine : 9 ≡ k + (9 - k) = omega arith in
    ap (λ n. mset_loop db off max n rev) nine
    ∙ mset_loop-after db off max k (9 - k) rev h r
    ∙ settled

-- After ten changes it gives up.
pub enquire_mset-gives_up :
    {M : Type 0} (db : Database M) (req : Req) (rev : ℕ)
    → ((i : ℕ) → i < 10 → db.get_mset (rev + i) req.off (at_most_results req.max) ≡ modified)
    → ((i : ℕ) → i < 10 → db.reopens (rev + i) ≡ true)
    → enquire_mset db req rev ≡ modified
unfolding enquire_mset mset_loop
enquire_mset-gives_up db req rev h r =
    mset_loop-after db req.off (at_most_results req.max) 9 0 rev (λ i l. h i (omega arith))
      (λ i l. r i (omega arith))
    ∙ h 9 (omega arith)
