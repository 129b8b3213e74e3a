-- ===== src/Terms/Scan.antt =====
-- The scans write a line for exactly the terms with the prefix and the wanted length.
use public_inbox.Terms.{
  starts_with, term_loop, wrong_length, dump_roots_term, Skip, dump_ibx_term, ibx_line,
}
use public_inbox.Terms.Order.{IsSorted, before, starts_with-after, SkipsTo, starts_with-before}
use public_inbox.Base.{
  if◌then◌else◌, Bool-cases, length, drop, All, ℕ, ◌+◌, ◌≡◌, refl, sym, ap, subst, ◌∙◌, inl, inr,
  false, not, ◌&&◌, List, [], ◌∷◌, ◌++◌, append-nil, append_assoc, arith,
}
use public_inbox.Args.{Bytes, cstr}

-- The terms that start with the prefix and have the wanted length behind it (0 for any length),
-- in order, without the prefix.
unfoldable pub matching : Bytes → ℕ → List Bytes → List Bytes
matching pfx term_len [] = []
matching pfx term_len (tn ∷ ts) =
    if starts_with tn pfx && not (wrong_length term_len pfx tn)
    then cstr (drop (length pfx) tn) ∷ matching pfx term_len ts
    else matching pfx term_len ts

unfoldable pub lines : (Bytes → Bytes) → List Bytes → Bytes
lines line [] = []
lines line (s ∷ ss) = line s ++ lines line ss

matching-append :
    (pfx : Bytes) (n : ℕ) (ts us : List Bytes)
    → matching pfx n (ts ++ us) ≡ matching pfx n ts ++ matching pfx n us
unfolding matching
matching-append pfx n [] us = refl
matching-append pfx n (t ∷ ts) us = ground (arith, matching-append pfx n ts us)

pub matching-none :
    (pfx : Bytes) (n : ℕ) (ts : List Bytes)
    → All (λ t. starts_with t pfx ≡ false) ts
    → matching pfx n ts ≡ []
unfolding matching
matching-none pfx n [] h = refl
matching-none pfx n (t ∷ ts) h = ground (arith, matching-none pfx n ts h.1)

pub All-map {ℓ κ} :
    {A : Type ℓ} {P Q : A → Type κ} (xs : List A) → ((x : A) → P x → Q x) → All P xs → All Q xs
All-map [] f h = tt
All-map (x ∷ xs) f h = (f x h.0, All-map xs f h.1)

term_loop_lem :
    (line : Bytes → Bytes) (pfx : Bytes) (n : ℕ) (ts : List Bytes) (out : Bytes) (nr : ℕ)
    → IsSorted ts
    → All (λ u. before u pfx ≡ false) ts
    → term_loop line pfx n ts out nr
      ≡ (out ++ lines line (matching pfx n ts), nr + length (matching pfx n ts))
unfolding term_loop matching lines
term_loop_lem line pfx n [] out nr s h = ground (arith, append-nil out)
term_loop_lem line pfx n (t ∷ ts) out nr s h = elim (Bool-cases (starts_with t pfx)) [
  | inl y ↦ ground (
    arith,
    term_loop_lem line pfx n ts out nr s.1 h.1,
    term_loop_lem line pfx n ts (out ++ line (cstr (drop (length pfx) t))) (nr + 1) s.1 h.1,
    append_assoc out (line (cstr (drop (length pfx) t))) (lines line (matching pfx n ts)),
  )
  | inr m ↦
      let later : All (λ u. starts_with u pfx ≡ false) ts =
        All-map ts (λ u o. starts_with-after pfx t u h.0 m o) s.0 in
      ground (arith, matching-none pfx n ts later, append-nil out)
]

-- Skipping to the prefix loses no line.
pub matching-skip :
    (skip_to : Skip) (pfx : Bytes) (n : ℕ) (ts : List Bytes)
    → SkipsTo skip_to
    → IsSorted ts
    → matching pfx n (skip_to pfx ts) ≡ matching pfx n ts
matching-skip skip_to pfx n ts k s =
    let (skipped, e, less, more) = k pfx ts s in
    let none_skipped : All (λ u. starts_with u pfx ≡ false) skipped =
      All-map skipped (λ u. starts_with-before u pfx) less in
    sym (
      ap (matching pfx n) e
      ∙ matching-append pfx n skipped (skip_to pfx ts)
      ∙ ap (λ x. x ++ matching pfx n (skip_to pfx ts)) (matching-none pfx n skipped none_skipped))

pub IsSorted-drop : (xs ys : List Bytes) → IsSorted (xs ++ ys) → IsSorted ys
IsSorted-drop [] ys s = s
IsSorted-drop (x ∷ xs) ys s = IsSorted-drop xs ys s.1

scan_lem :
    (skip_to : Skip) (line : Bytes → Bytes) (pfx : Bytes) (n : ℕ) (ts : List Bytes) (out : Bytes)
    (nr : ℕ)
    → SkipsTo skip_to
    → IsSorted ts
    → term_loop line pfx n (skip_to pfx ts) out nr
      ≡ (out ++ lines line (matching pfx n ts), nr + length (matching pfx n ts))
scan_lem skip_to line pfx n ts out nr k s =
    let (skipped, e, less, more) = k pfx ts s in
    rw (← matching-skip skip_to pfx n ts k s) (
      term_loop_lem line pfx n (skip_to pfx ts) out nr
        (IsSorted-drop skipped (skip_to pfx ts) (subst IsSorted e s)) more)

-- On a sorted term list dump_ibx_term, which skips to the prefix and stops at the first term
-- without it, writes a line for exactly the terms with the prefix and the wanted length, in order,
-- each with the inbox id, and counts them.
pub dump_ibx_term-matching :
    (skip_to : Skip) (ibx_id pfx : Bytes) (n : ℕ) (ts : List Bytes) (out : Bytes) (nr : ℕ)
    → SkipsTo skip_to
    → IsSorted ts
    → dump_ibx_term skip_to ibx_id pfx n ts out nr
      ≡ (out ++ lines (ibx_line ibx_id) (matching pfx n ts), nr + length (matching pfx n ts))
unfolding dump_ibx_term
dump_ibx_term-matching skip_to ibx_id pfx n ts out nr k s =
    scan_lem skip_to (ibx_line ibx_id) pfx n ts out nr k s

-- The same of dump_roots_term, whose lines end with the root offsets.
pub dump_roots_term-matching :
    (skip_to : Skip) (root_offs pfx : Bytes) (n : ℕ) (ts : List Bytes) (out : Bytes) (nr : ℕ)
    → SkipsTo skip_to
    → IsSorted ts
    → dump_roots_term skip_to root_offs pfx n ts out nr
      ≡ (out ++ lines (λ s. s ++ root_offs) (matching pfx n ts), nr + length (matching pfx n ts))
unfolding dump_roots_term
dump_roots_term-matching skip_to root_offs pfx n ts out nr k s =
    scan_lem skip_to (λ x. x ++ root_offs) pfx n ts out nr k s
