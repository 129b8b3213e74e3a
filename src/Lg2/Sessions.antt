-- ===== src/Lg2/Sessions.antt =====
-- A database handle of lib/PublicInbox/lg2.h from new to DESTROY.
use public_inbox.Heap.{
  Live, done, blocked, Cmd, pure, ◌>>=◌, ◌>>◌, and_then, and_then-done, Outcome, or_invalid,
}
use public_inbox.Lg2.{Object}
use public_inbox.Lg2.Odb.{
  Library, LibGit, Self, Perl, session, calls, gave, died, destroy, Call, new, Result, Why,
  croak_if_err, odb_new_name,
}
use public_inbox.Args.{Bytes}
use public_inbox.Lg2.Calls.{self_at, with_odb, call-Leaves, Hangs, Dies}
use public_inbox.Heap.Objects.{remove-head}
use public_inbox.Base.{
  Option-cases, ℕ, ◌+◌, ◌≡◌, refl, sym, ap, ◌∙◌, ◌⊎◌, inl, inr, List, [], ◌∷◌, ◌++◌, append_assoc,
}

-- One of the calls hangs.
abbrev pub AnyHangs : List Call → Type 0
AnyHangs cs =
    (before : List Call) × (c : Call) × (later : List Call) × (cs ≡ before ++ (c ∷ later)) × Hangs c

-- A signal handler leaves one of the calls.
abbrev pub AnyDies : List Call → Type 0
AnyDies cs =
    (before : List Call) × (c : Call) × (later : List Call) × (cs ≡ before ++ (c ∷ later)) × Dies c

-- What calls that return leave.
record AllLeave (p : ℕ) (cs : List Call) (s : Library) (o : Outcome Library (List Result))
    : Type 0 where
  results : List Result
  alternates : List Bytes
  later : ℕ
  lost : Live Object
  runs :
      o
      ≡ done results
          (record (with_odb p alternates s) { next = later; objects = lost ++ s.objects })
  none_lost : (lost ≡ []) ⊎ AnyDies cs

any_first : (c : Call) (cs : List Call) → Dies c → AnyDies (c ∷ cs)
any_first c cs d = ([], c, cs, refl, d)

any_later : (c : Call) (cs : List Call) → AnyDies cs → AnyDies (c ∷ cs)
any_later c cs (before, d, more, q, h) = (c ∷ before, d, more, ap (λ ds. c ∷ ds) q, h)

-- Nothing is lost by two parts of which neither loses anything.
both_none :
    (c : Call) (cs : List Call) (a b : Live Object)
    → (a ≡ []) ⊎ Dies c
    → (b ≡ []) ⊎ AnyDies cs
    → (b ++ a ≡ []) ⊎ AnyDies (c ∷ cs)
both_none c cs a b (inr d) k = inr (any_first c cs d)
both_none c cs a b (inl n) (inr h) = inr (any_later c cs h)
both_none c cs a b (inl n) (inl m) = inl (ap (λ x. x ++ a) m ∙ n)

calls-AllLeave :
    (g : LibGit) (p : ℕ) (cs : List Call) (alternates : List Bytes) (s : Library)
    → AllLeave p cs s (calls g (self_at p) cs (with_odb p alternates s))
      ⊎ ((calls g (self_at p) cs (with_odb p alternates s) ≡ blocked) × AnyHangs cs)
unfolding calls
calls-AllLeave g p [] alternates s = inl (record {
  results = [];
  alternates = alternates;
  later = s.next;
  lost = [];
  none_lost = inl refl;
  runs = refl;
})
calls-AllLeave g p (c ∷ cs) alternates s =
    let self = self_at p in
    let rest : Result → Cmd Library (List Result) = λ r. calls g self cs >>= λ rs. pure (r ∷ rs) in
    elim (call-Leaves g p alternates s c) [
      | inr (e, h) ↦ inr (ap (λ o. and_then o rest) e, ([], c, cs, refl, h))
      | inl l ↦
          elim (calls-AllLeave g p cs l.alternates
            (record s { next = l.later; objects = l.lost ++ s.objects })) [
              | inr (e, (before, d, more, q, h)) ↦ inr (
                and_then-done rest l.runs ∙ ap (λ o. and_then o (λ rs. pure (l.result ∷ rs))) e,
                (c ∷ before, d, more, ap (λ ds. c ∷ ds) q, h),
              )
              | inl k ↦ inl (record {
                results = l.result ∷ k.results;
                alternates = k.alternates;
                later = k.later;
                lost = k.lost ++ l.lost;
                none_lost = both_none c cs l.lost k.lost l.none_lost k.none_lost;
                runs =
                    and_then-done rest l.runs
                    ∙ and_then-done (λ rs. pure (l.result ∷ rs)) k.runs
                    ∙ ap
                        (λ os.
                          done (l.result ∷ k.results)
                            (record (with_odb p k.alternates s) { next = k.later; objects = os }))
                        (sym (append_assoc k.lost l.lost s.objects));
              })
            ]
    ]

destroy-head :
    (p : ℕ) (alternates : List Bytes) (s : Library)
    → destroy (self_at p) (with_odb p alternates s) ≡ done tt s
unfolding destroy
destroy-head p alternates s =
    and_then-done (λ l t. done tt (record t { odbs = l }))
      (ap (λ o. or_invalid o (with_odb p alternates s)) (remove-head p alternates s.odbs))

new-cases :
    (g : LibGit) (s : Library)
    → ((why : Why) × (new g s ≡ done (died why) s))
      ⊎ (new g s
          ≡ done (gave (self_at s.next)) (with_odb s.next [] (record s { next = s.next + 1 })))
unfolding new
new-cases g s = elim (Option-cases (croak_if_err g g.odb_new odb_new_name)) [
  | inr (why, e) ↦ inl (why, rw (new, e) refl)
  | inl e ↦ inr (rw (new, e) refl)
]

-- Whatever Perl calls between new and DESTROY, whether the calls croak or not: all that they use is
-- live, and after DESTROY just that is live which was before, and objects that are lost, of which there
-- are none unless a signal handler has died in one of the calls; unless one of them is a cat_oid whose
-- writev has not returned.
pub session-Kept :
    (g : LibGit) (cs : List Call) (s : Library)
    → ((r : Perl (List Result)) × (n : ℕ) × (lost : Live Object) × (session g cs s
          ≡ done r (record s { next = n; objects = lost ++ s.objects }))
        × ((lost ≡ []) ⊎ AnyDies cs))
      ⊎ ((session g cs s ≡ blocked) × AnyHangs cs)
unfolding session
session-Kept g cs s =
    let on_new : Perl Self → Cmd Library (Perl (List Result)) = λ made. elim made [
      | died why ↦ pure (died why)
      | gave self ↦ calls g self cs >>= λ rs. destroy self >> pure (gave rs)
    ] in
    let end : List Result → Cmd Library (Perl (List Result)) =
      λ rs. destroy (self_at s.next) >> pure (gave rs) in
    elim (new-cases g s) [
      | inl (why, e) ↦ inl (died why, s.next, [], and_then-done on_new e, inl refl)
      | inr e ↦ elim (calls-AllLeave g s.next cs [] (record s { next = s.next + 1 })) [
        | inr (b, h) ↦ inr (and_then-done on_new e ∙ ap (λ o. and_then o end) b, h)
        | inl k ↦ inl (
          gave k.results,
          k.later,
          k.lost,
          and_then-done on_new e
              ∙ and_then-done end k.runs
              ∙ and_then-done (λ u. pure (gave k.results))
                  (destroy-head s.next k.alternates
                    (record s { next = k.later; objects = k.lost ++ s.objects })),
          k.none_lost,
        )
      ]
    ]
