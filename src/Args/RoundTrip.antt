-- ===== src/Args/RoundTrip.antt =====
-- Splitting a request undoes joining its arguments, and accepts nothing but joined arguments.
use public_inbox.Base.{
  ◌==◌, ==_iff, Bool-cases, length, All, length-append, aborts, ok, stop, ℕ, ◌+◌, ◌^◌, ◌≤◌, ◌<◌,
  ◌≡◌, refl, sym, ◌∙◌, ◌≢◌, inl, inr, true, false, List, [], ◌∷◌, ◌++◌, map, append-nil,
  append_assoc, arith,
}
use public_inbox.Args.{Bytes, cstr, split_loop, split2argv, ends_nul}

-- What the client sends: every argument followed by a NUL.
unfoldable pub join : List Bytes → Bytes
join [] = []
join (a ∷ rest) = a ++ (0 ∷ join rest)

-- Where each argument of a joined buffer starts.
unfoldable pub starts : List Bytes → List Bytes
starts [] = []
starts (a ∷ rest) = join (a ∷ rest) ∷ starts rest

abbrev pub NoNul : Bytes → Type 0
NoNul = All (λ b. b ≢ 0)

pub cstr_prefix : (a rest : Bytes) → NoNul a → cstr (a ++ (0 ∷ rest)) ≡ a
unfolding cstr
cstr_prefix [] rest h = refl
cstr_prefix (b ∷ a) rest h = ground (arith, cstr_prefix a rest h.1)

pub map-cstr-starts : (args : List Bytes) → All NoNul args → map cstr (starts args) ≡ args
unfolding starts join
map-cstr-starts [] h = refl
map-cstr-starts (a ∷ rest) h = cc (cstr_prefix a (join rest) h.0, map-cstr-starts rest h.1)

-- Bytes of an argument move the scan and nothing else.
split_loop-scan :
    (limit : ℕ) (a bs c : Bytes) (nr : ℕ) (dst : List Bytes)
    → NoNul a
    → nr < limit
    → split_loop limit (a ++ bs) c nr dst ≡ split_loop limit bs c nr dst
unfolding split_loop
split_loop-scan limit [] bs c nr dst h l = refl
split_loop-scan limit (b ∷ a) bs c nr dst h l =
    ground (arith, split_loop-scan limit a bs c nr dst h.1)

split_loop-join :
    (limit : ℕ) (args : List Bytes) (c : Bytes) (nr : ℕ) (dst : List Bytes)
    → All NoNul args
    → nr + 1 + length args < limit
    → split_loop limit (0 ∷ join args) c nr dst
      ≡ ok (nr + 1 + length args, dst ++ (c ∷ starts args))
unfolding split_loop join starts
split_loop-join limit [] c nr dst h l = ground arith
split_loop-join limit (a ∷ args) c nr dst h l = ground (
  arith,
  split_loop-scan limit a (0 ∷ join args) (a ++ (0 ∷ join args)) (nr + 1) (dst ++ (c ∷ [])) h.0,
  split_loop-join limit args (a ++ (0 ∷ join args)) (nr + 1) (dst ++ (c ∷ [])) h.1,
  append_assoc dst (c ∷ []) ((a ++ (0 ∷ join args)) ∷ starts args),
)

split_loop-abort :
    (limit : ℕ) (args : List Bytes) (c : Bytes) (nr : ℕ) (dst : List Bytes)
    → All NoNul args
    → nr < limit
    → limit ≤ nr + 1 + length args
    → split_loop limit (0 ∷ join args) c nr dst ≡ stop aborts
unfolding split_loop join
split_loop-abort limit [] c nr dst h l m = ground arith
split_loop-abort limit (a ∷ args) c nr dst h l m = ground (
  arith,
  split_loop-scan limit a (0 ∷ join args) (a ++ (0 ∷ join args)) (nr + 1) (dst ++ (c ∷ [])) h.0,
  split_loop-abort limit args (a ++ (0 ∷ join args)) (nr + 1) (dst ++ (c ∷ [])) h.1,
)

ends_nul-append : (a bs : Bytes) → ends_nul bs ≡ true → ends_nul (a ++ bs) ≡ true
ends_nul-append [] bs h = h
ends_nul-append (b ∷ []) [] h = cc
ends_nul-append (b ∷ []) (c ∷ bs) h = h
ends_nul-append (b ∷ c ∷ a) bs h = ends_nul-append (c ∷ a) bs h

ends_nul-join : (rest : List Bytes) → ends_nul (0 ∷ join rest) ≡ true
unfolding join
ends_nul-join [] = refl
ends_nul-join (a ∷ rest) = ends_nul-append (0 ∷ a) (0 ∷ join rest) (ends_nul-join rest)

-- Arguments without NULs, the first of them not empty, and fewer than the limit, come back from
-- the buffer that joins them: the count is theirs, and the pointers denote them in order.
pub split2argv-join :
    (b : ℕ) (a : Bytes) (rest : List Bytes) (limit : ℕ)
    → All NoNul ((b ∷ a) ∷ rest)
    → 1 + length rest < limit
    → limit ≤ 2 ^ 63
    → (split2argv (join ((b ∷ a) ∷ rest)) limit ≡ ok (1 + length rest, starts ((b ∷ a) ∷ rest)))
      × (map cstr (starts ((b ∷ a) ∷ rest)) ≡ (b ∷ a) ∷ rest)
unfolding split2argv join starts
split2argv-join b a rest limit h l m = (
  ground (
    arith,
    ends_nul-append (b ∷ a) (0 ∷ join rest) (ends_nul-join rest),
    split_loop-scan limit a (0 ∷ join rest) (b ∷ (a ++ (0 ∷ join rest))) 0 [] h.0.1,
    split_loop-join limit rest (b ∷ (a ++ (0 ∷ join rest))) 0 [] h.1,
  ),
  map-cstr-starts _ h,
)

-- Arguments without NULs, the first of them not empty, that reach the limit end the process.
pub split2argv-join_limit :
    (b : ℕ) (a : Bytes) (rest : List Bytes) (limit : ℕ)
    → All NoNul ((b ∷ a) ∷ rest)
    → 0 < limit
    → limit ≤ 1 + length rest
    → split2argv (join ((b ∷ a) ∷ rest)) limit ≡ stop aborts
unfolding split2argv join
split2argv-join_limit b a rest limit h l m = ground (
  arith,
  ends_nul-append (b ∷ a) (0 ∷ join rest) (ends_nul-join rest),
  split_loop-scan limit a (0 ∷ join rest) (b ∷ (a ++ (0 ∷ join rest))) 0 [] h.0.1,
  split_loop-abort limit rest (b ∷ (a ++ (0 ∷ join rest))) 0 [] h.1,
)

-- What the scan has collected, with the bytes `pre` of the argument it is in.
record Split (buf : Bytes) (nr : ℕ) (dst : List Bytes) : Type 0 where
  rest : Bytes
  rest_NoNul : NoNul rest
  joined : join (map cstr dst) ++ rest ≡ buf
  counted : nr ≡ length dst

join-snoc :
    (dst : List Bytes) (pre bs : Bytes)
    → NoNul pre
    → join (map cstr (dst ++ ((pre ++ (0 ∷ bs)) ∷ []))) ++ bs
      ≡ join (map cstr dst) ++ (pre ++ (0 ∷ bs))
unfolding join
join-snoc [] pre bs h = rw (cstr_prefix pre bs h) (append_assoc pre (0 ∷ []) bs)
join-snoc (x ∷ dst) pre bs h = simp (append_assoc, join-snoc dst pre bs h)

NoNul-append : (xs ys : Bytes) → NoNul xs → NoNul ys → NoNul (xs ++ ys)
NoNul-append [] ys h k = k
NoNul-append (x ∷ xs) ys h k = (h.0, NoNul-append xs ys h.1 k)

split_loop_zero :
    (limit b : ℕ) (bs c : Bytes) (nr : ℕ) (dst : List Bytes) (r : ℕ × List Bytes)
    → (b == 0) ≡ true
    → split_loop limit (b ∷ bs) c nr dst ≡ ok r
    → split_loop limit bs bs (nr + 1) (dst ++ (c ∷ [])) ≡ ok r
unfolding split_loop
split_loop_zero limit b bs c nr dst r z e = ground arith

split_loop_byte :
    (limit b : ℕ) (bs c : Bytes) (nr : ℕ) (dst : List Bytes) (r : ℕ × List Bytes)
    → (b == 0) ≡ false
    → split_loop limit (b ∷ bs) c nr dst ≡ ok r
    → split_loop limit bs c nr dst ≡ ok r
unfolding split_loop
split_loop_byte limit b bs c nr dst r z e = ground arith

split_loop-Split :
    (limit : ℕ) (bs pre : Bytes) (nr : ℕ) (dst : List Bytes) (r : ℕ × List Bytes)
    → split_loop limit bs (pre ++ bs) nr dst ≡ ok r
    → NoNul pre
    → nr ≡ length dst
    → Split (join (map cstr dst) ++ (pre ++ bs)) r.0 r.1
unfolding split_loop
split_loop-Split limit [] pre nr dst r e h en = record {
  rest = pre;
  rest_NoNul = h;
  joined = ground (arith, append-nil pre);
  counted = ground arith;
}
split_loop-Split limit (b ∷ bs) pre nr dst r e h en = elim (Bool-cases (b == 0)) [
  | inl z ↦
      let b0 : b ≡ 0 = (==_iff b 0).0 z in
      rw (b0, ← join-snoc dst pre bs h)
        (split_loop-Split limit bs [] (nr + 1) (dst ++ ((pre ++ (0 ∷ bs)) ∷ [])) r
          (rw b0 at (split_loop_zero limit b bs (pre ++ (b ∷ bs)) nr dst r z e)) tt
          (omega (arith, length-append {0} dst ((pre ++ (0 ∷ bs)) ∷ []))))
  | inr nz ↦ rw (← append_assoc pre (b ∷ []) bs) (
      split_loop-Split limit bs (pre ++ (b ∷ [])) nr dst r
        (rw append_assoc (split_loop_byte limit b bs (pre ++ (b ∷ bs)) nr dst r nz e))
        (NoNul-append pre (b ∷ []) h (ground arith, tt)) en)
]

split_loop_lt :
    (limit : ℕ) (bs c : Bytes) (nr : ℕ) (dst : List Bytes) (r : ℕ × List Bytes)
    → nr < limit
    → split_loop limit bs c nr dst ≡ ok r
    → r.0 < limit
unfolding split_loop
split_loop_lt limit [] c nr dst r l e = ground arith
split_loop_lt limit (b ∷ bs) c nr dst r l e = ground (
  arith,
  split_loop_lt limit bs bs (nr + 1) (dst ++ (c ∷ [])) r,
  split_loop_lt limit bs c nr dst r,
)

NoNul-ends : (b : ℕ) (bs : Bytes) → NoNul (b ∷ bs) → ends_nul (b ∷ bs) ≡ true → ⊥
NoNul-ends b [] h e = h.0 ((==_iff b 0).0 e)
NoNul-ends b (c ∷ bs) h e = NoNul-ends c bs h.1 e

ends_nul-append_cons :
    (a : Bytes) (b : ℕ) (bs : Bytes) → ends_nul (a ++ (b ∷ bs)) ≡ ends_nul (b ∷ bs)
ends_nul-append_cons [] b bs = refl
ends_nul-append_cons (x ∷ []) b bs = refl
ends_nul-append_cons (x ∷ y ∷ a) b bs = ends_nul-append_cons (y ∷ a) b bs

no_rest : (a rest : Bytes) → NoNul rest → ends_nul (a ++ rest) ≡ true → a ++ rest ≡ a
no_rest a [] h e = append-nil a
no_rest a (b ∷ rest) h e = absurd (NoNul-ends b rest h (rw ends_nul-append_cons at e))

-- The `for` loop's part of an accepted request.
split2argv-eq-ok :
    (b : ℕ) (bs : Bytes) (limit n : ℕ) (d : List Bytes)
    → split2argv (b ∷ bs) limit ≡ ok (n, d)
    → (split_loop limit bs (b ∷ bs) 0 [] ≡ ok (n, d))
      × (b ≢ 0)
      × (ends_nul (b ∷ bs) ≡ true)
      × (0 < n)
unfolding split2argv
split2argv-eq-ok b bs limit n d e = ground arith

split2argv-nil : (limit : ℕ) (r : ℕ × List Bytes) → split2argv [] limit ≢ ok r
unfolding split2argv
split2argv-nil limit r e = cc

-- Whatever is accepted is nothing but joined arguments: the pointers denote strings that join to
-- the whole buffer, the count is their number, and it is positive and below a positive limit.
pub join-split2argv :
    (buf : Bytes) (limit n : ℕ) (d : List Bytes)
    → 0 < limit
    → split2argv buf limit ≡ ok (n, d)
    → (join (map cstr d) ≡ buf) × (n ≡ length d) × (0 < n) × (n < limit)
unfolding join
join-split2argv [] limit n d l e = absurd (split2argv-nil limit (n, d) e)
join-split2argv (b ∷ bs) limit n d l e =
    let p = split2argv-eq-ok b bs limit n d e in
    let s = split_loop-Split limit bs (b ∷ []) 0 [] (n, d) p.0 (p.1, tt) refl in
    (
      sym (no_rest (join (map cstr d)) s.rest s.rest_NoNul (rw s.joined p.2)) ∙ s.joined,
      s.counted,
      p.3,
      split_loop_lt limit bs (b ∷ bs) 0 [] (n, d) l p.0,
    )
