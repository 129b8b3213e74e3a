-- ===== src/Lg2/Calls.antt =====
-- What a call to lib/PublicInbox/lg2.h leaves.
use public_inbox.Heap.{
  Live, done, blocked, Cmd, pure, and_then, and_then-done, Outcome, or_invalid, put,
}
use public_inbox.Lg2.Odb.{
  signal_handler, Library, LibGit, Self, Perl, bad_length, snprintf_error, writev_error, gave, died,
  adds, cats, added, sent, free_object, Result, cat_sends, call, after_writev, cat_oid_live,
  cat_found, cat_named, add_alternate, Call, Why, croak_if_err, alternate_name,
}
use public_inbox.Lg2.{
  thrown_out, finished, croaked, waiting, Object, Ended, Writev, make_vec, writev_loop,
  my_oid_fromstrn,
}
use public_inbox.Args.{Bytes}
use public_inbox.Heap.Objects.{remove-head, lookup-head, put-head}
use public_inbox.Base.{
  Option-cases, length, Run, ok, stop, ℕ, ◌+◌, ◌≡◌, refl, sym, ap, subst, ◌∙◌, ◌⊎◌, inl, inr, Bool,
  true, false, Option, none, some, List, [], ◌∷◌, ◌++◌,
}

-- The database with its alternates is live, besides what was before.
abbrev pub with_odb : ℕ → List Bytes → Library → Library
with_odb p alternates s = record s { odbs = (p, alternates) ∷ s.odbs }

abbrev pub self_at : ℕ → Self
self_at p = record { iv = p }

-- Some vectors that these calls of writev do not get written.
abbrev pub Unfinished : List Writev → Type 0
Unfinished rs = (vec : List Bytes) × ((writev_loop vec rs []).0 ≡ waiting)

-- Some vectors that these calls of writev leave by a signal handler.
abbrev pub Thrown : List Writev → Type 0
Thrown rs = (vec : List Bytes) × ((writev_loop vec rs []).0 ≡ thrown_out)

-- A call of cat_oid in which writev has not returned.
abbrev pub Hangs : Call → Type 0
Hangs c = (oid : Bytes) × (rs : List Writev) × (c ≡ cats oid rs) × Unfinished rs

-- A call of cat_oid that a signal handler leaves.
abbrev pub Dies : Call → Type 0
Dies c = (oid : Bytes) × (rs : List Writev) × (c ≡ cats oid rs) × Thrown rs

-- A call that returns leaves this database, maybe with one alternate more, and nothing else but what
-- a call that a signal handler leaves has read.
pub record Leaves (p : ℕ) (c : Call) (s : Library) (o : Outcome Library Result) : Type 0 where
  pub result : Result
  pub alternates : List Bytes
  pub later : ℕ
  pub lost : Live Object
  pub runs :
      o
      ≡ done result (record (with_odb p alternates s) { next = later; objects = lost ++ s.objects })
  pub none_lost : (lost ≡ []) ⊎ Dies c

free_object-head :
    (p : ℕ) (a : Object) (s : Library)
    → free_object p (record s { objects = (p, a) ∷ s.objects }) ≡ done tt s
unfolding free_object
free_object-head p a s =
    and_then-done (λ l t. done tt (record t { objects = l }))
      (ap (λ o. or_invalid o (record s { objects = (p, a) ∷ s.objects }))
        (remove-head p a s.objects))

module _ (g : LibGit) (p : ℕ) (alternates : List Bytes) (s : Library) where
  add-Leaves :
      (path : Bytes)
      → Leaves p (adds path) s (call g (self_at p) (adds path) (with_odb p alternates s))
  unfolding call add_alternate
  add-Leaves path =
      let h = with_odb p alternates s in
      let tried : List Bytes → Option Why → Cmd Library (Perl (Unit {0})) = λ k there. elim there [
        | some why ↦ pure (died why)
        | none ↦ λ t. done (gave tt) (record t { odbs = put p (k ++ (path ∷ [])) t.odbs })
      ] in
      let found = croak_if_err g (g.add_disk_alternate alternates path) alternate_name in
      let seen =
        and_then-done (λ l. (tried l (croak_if_err g (g.add_disk_alternate l path) alternate_name)))
          (ap (λ o. or_invalid o h) (lookup-head p alternates s.odbs)) in
      elim (Option-cases found) [
        | inr (why, e) ↦ record {
          result = added (died why);
          alternates = alternates;
          later = s.next;
          lost = [];
          none_lost = inl refl;
          runs = and_then-done (λ r. pure (added r)) (seen ∙ ap (λ x. tried alternates x h) e);
        }
        | inl e ↦ record {
          result = added (gave tt);
          alternates = alternates ++ (path ∷ []);
          later = s.next;
          lost = [];
          none_lost = inl refl;
          runs =
              and_then-done (λ r. pure (added r))
                (seen
                  ∙ ap (λ x. tried alternates x h) e
                  ∙ ap (λ l. done (gave tt) (record h { odbs = l }))
                      (put-head p alternates (alternates ++ (path ∷ [])) s.odbs));
        }
      ]

  -- A call of cat_oid waits, or leaves everything but the next address as it was.
  record Cats (D : Type 0) (o : Outcome Library (Perl (Bool × Bytes))) : Type 0 where
    answer : Perl (Bool × Bytes)
    later : ℕ
    lost : Live Object
    runs :
        o
        ≡ done answer
            (record (with_odb p alternates s) { next = later; objects = lost ++ s.objects })
    none_lost : (lost ≡ []) ⊎ D

  writev-Cats :
      (o : Object) (e : Ended) (out : Bytes)
      → Cats (e ≡ thrown_out) (
          after_writev s.next
            (e, out)
            (record (with_odb p alternates s) {
              next = s.next + 1;
              objects = (s.next, o) ∷ s.objects;
            }))
        ⊎ ((after_writev s.next
                (e, out)
                (record (with_odb p alternates s) {
                  next = s.next + 1;
                  objects = (s.next, o) ∷ s.objects;
                })
              ≡ blocked)
            × (e ≡ waiting))
  unfolding after_writev
  writev-Cats o waiting out = inr (refl, refl)
  writev-Cats o finished out = inl (record {
    answer = gave (true, out);
    later = s.next + 1;
    lost = [];
    none_lost = inl refl;
    runs =
        and_then-done (λ u. pure (gave (true, out)))
          (free_object-head s.next o (record (with_odb p alternates s) { next = s.next + 1 }));
  })
  writev-Cats o thrown_out out = inl (record {
    answer = died signal_handler;
    later = s.next + 1;
    lost = (s.next, o) ∷ [];
    none_lost = inr refl;
    runs = refl;
  })
  writev-Cats o croaked out = inl (record {
    answer = died writev_error;
    later = s.next + 1;
    lost = [];
    none_lost = inl refl;
    runs =
        and_then-done (λ u. pure (died writev_error))
          (free_object-head s.next o (record (with_odb p alternates s) { next = s.next + 1 }));
  })

  made-Cats :
      (o : Object) (rs : List Writev) (m : Run (List Bytes))
      → Cats (Thrown rs) (
          cat_sends rs s.next m (record (with_odb p alternates s) {
            next = s.next + 1;
            objects = (s.next, o) ∷ s.objects;
          }))
        ⊎ ((cat_sends rs s.next m (record (with_odb p alternates s) {
          next = s.next + 1;
          objects = (s.next, o) ∷ s.objects;
        })
              ≡ blocked)
            × Unfinished rs)
  unfolding cat_sends
  made-Cats o rs (stop why) = inl (record {
    answer = died snprintf_error;
    later = s.next + 1;
    lost = [];
    none_lost = inl refl;
    runs =
        and_then-done (λ u. pure (died snprintf_error))
          (free_object-head s.next o (record (with_odb p alternates s) { next = s.next + 1 }));
  })
  made-Cats o rs (ok vec) =
      elim (writev-Cats o (writev_loop vec rs []).0 (writev_loop vec rs []).1) [
        | inl c ↦ inl (record {
          answer = c.answer;
          later = c.later;
          lost = c.lost;
          runs = c.runs;
          none_lost = elim c.none_lost [ inl n ↦ inl n | inr t ↦ inr (vec, t) ];
        })
        | inr (e, w) ↦ inr (e, (vec, w))
      ]

  found-Cats :
      (rs : List Writev) (n : ℕ) (there : Option Object)
      → Cats (Thrown rs) (cat_found g rs n there (with_odb p alternates s))
        ⊎ ((cat_found g rs n there (with_odb p alternates s) ≡ blocked) × Unfinished rs)
  unfolding cat_found
  found-Cats rs n none = inl (record {
    answer = gave (false, []);
    later = s.next;
    lost = [];
    none_lost = inl refl;
    runs = refl;
  })
  found-Cats rs n (some o) = made-Cats o rs (make_vec g.zu g.experimental n o)

  named-Cats :
      (oid : Bytes) (rs : List Writev) (n : Option ℕ)
      → Cats (Thrown rs) (cat_named g alternates oid rs n (with_odb p alternates s))
        ⊎ ((cat_named g alternates oid rs n (with_odb p alternates s) ≡ blocked) × Unfinished rs)
  unfolding cat_named
  named-Cats oid rs none = inl (record {
    answer = died bad_length;
    later = s.next;
    lost = [];
    none_lost = inl refl;
    runs = refl;
  })
  named-Cats oid rs (some n) = found-Cats rs n (g.odb_read alternates oid)

  cat-Cats :
      (oid : Bytes) (rs : List Writev)
      → Cats (Thrown rs) (cat_oid_live g (self_at p) oid rs (with_odb p alternates s))
        ⊎ ((cat_oid_live g (self_at p) oid rs (with_odb p alternates s) ≡ blocked) × Unfinished rs)
  unfolding cat_oid_live
  cat-Cats oid rs =
      let h = with_odb p alternates s in
      let n = my_oid_fromstrn g.experimental (length oid) in
      subst (λ o. Cats (Thrown rs) o ⊎ ((o ≡ blocked) × Unfinished rs))
        (sym (
          and_then-done (λ l. cat_named g l oid rs (my_oid_fromstrn g.experimental (length oid)))
            (ap (λ o. or_invalid o h) (lookup-head p alternates s.odbs))))
        (named-Cats oid rs n)

  pub call-Leaves :
      (c : Call)
      → Leaves p c s (call g (self_at p) c (with_odb p alternates s))
        ⊎ ((call g (self_at p) c (with_odb p alternates s) ≡ blocked) × Hangs c)
  unfolding call
  call-Leaves (adds path) = inl (add-Leaves path)
  call-Leaves (cats oid rs) = elim (cat-Cats oid rs) [
    | inr (e, u) ↦ inr (ap (λ o. and_then o (λ r. pure (sent r))) e, (oid, rs, refl, u))
    | inl c ↦ inl (record {
      result = sent c.answer;
      alternates = alternates;
      later = c.later;
      lost = c.lost;
      none_lost = elim c.none_lost [ inl n ↦ inl n | inr t ↦ inr (oid, rs, refl, t) ];
      runs = and_then-done (λ r. pure (sent r)) c.runs;
    })
  ]
