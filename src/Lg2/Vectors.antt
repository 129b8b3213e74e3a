-- ===== src/Lg2/Vectors.antt =====
-- What reaches the descriptor, and when the header fits.
use public_inbox.Lg2.{
  handler_dies, eintr, finished, row, writev_loop, Ended, Writev, advance, wrote, eagain,
  write_error, cat_oid, Object, my_oid_fromstrn, make_vec, max_hexsize, header_tail, croaked,
}
use public_inbox.Base.{
  leb, ◌==◌, Bool-cases, length, take, drop, length-append, take-append-drop, length-drop, ok, ℕ,
  zero, suc, ◌+◌, ◌-◌, ◌≤◌, ◌<◌, ◌≡◌, refl, ap, subst, ◌∙◌, ◌≢◌, ◌⊎◌, inl, inr, Bool, true, Option,
  some, List, [], ◌∷◌, ◌++◌, append_assoc, arith,
}
use public_inbox.Args.{Bytes}

take-append_le :
    (w : ℕ) (xs ys : Bytes) → length xs ≤ w → take w (xs ++ ys) ≡ xs ++ take (w - length xs) ys
take-append_le w [] ys h = ap (λ n. take n ys) (omega arith)
take-append_le zero (x ∷ xs) ys h = absurd (omega arith)
take-append_le (suc w) (x ∷ xs) ys h =
    ap (◌∷◌ x) (take-append_le w xs ys (omega arith) ∙ ap (λ n. xs ++ take n ys) (omega arith))

take-append_lt : (w : ℕ) (xs ys : Bytes) → w < length xs → take w (xs ++ ys) ≡ take w xs
take-append_lt w [] ys h = absurd (omega arith)
take-append_lt zero (x ∷ xs) ys h = refl
take-append_lt (suc w) (x ∷ xs) ys h = ap (◌∷◌ x) (take-append_lt w xs ys (omega arith))

-- What is sent, and then what is left, make up what there was.
take-row-advance : (w : ℕ) (vs : List Bytes) → take w (row vs) ++ row (advance w vs) ≡ row vs
unfolding row advance
take-row-advance zero [] = refl
take-row-advance (suc w) [] = refl
take-row-advance w (v ∷ vs) = elim (Bool-cases (leb (length v) w)) [
  | inl y ↦ ground (
    arith,
    take-append_le w v (row vs),
    append_assoc v (take (w - length v) (row vs)) (row (advance (w - length v) vs)),
    take-row-advance (w - length v) vs,
  )
  | inr m ↦ ground (
    arith,
    take-append_lt w v (row vs),
    append_assoc (take w v) (drop w v) (row vs),
    take-append-drop w v,
  )
]

-- The bytes sent are the first ones of the row, and all of them if the loop has finished.
pub record Sent (vs : List Bytes) (out : Bytes) (r : Ended × Bytes) : Type 0 where
  pub rest : Bytes
  pub split : r.1 ++ rest ≡ out ++ row vs
  pub complete : (r.0 ≢ finished) ⊎ (rest ≡ [])

writev_loop-Sent :
    (rs : List Writev) (vs : List Bytes) (out : Bytes) → Sent vs out (writev_loop vs rs out)
unfolding writev_loop row
writev_loop-Sent [] [] out = record { rest = []; split = refl; complete = inr refl }
writev_loop-Sent (r ∷ rs) [] out = record { rest = []; split = refl; complete = inr refl }
writev_loop-Sent [] (v ∷ vs) out = record {
  rest = row (v ∷ vs);
  split = refl;
  complete = inl (λ e. cc);
}
writev_loop-Sent (eagain ∷ rs) (v ∷ vs) out = writev_loop-Sent rs (v ∷ vs) out
writev_loop-Sent (eintr ∷ rs) (v ∷ vs) out = writev_loop-Sent rs (v ∷ vs) out
writev_loop-Sent (write_error ∷ rs) (v ∷ vs) out = record {
  rest = row (v ∷ vs);
  split = refl;
  complete = inl (λ e. cc);
}
writev_loop-Sent (handler_dies ∷ rs) (v ∷ vs) out = record {
  rest = row (v ∷ vs);
  split = refl;
  complete = inl (λ e. cc);
}
writev_loop-Sent (wrote w ∷ rs) (v ∷ vs) out = elim (Bool-cases (w == 0)) [
  | inl z ↦
      let r : Sent (v ∷ vs) out (croaked, out) = record {
        rest = row (v ∷ vs);
        split = refl;
        complete = inl (λ e. cc);
      } in
      subst (Sent (v ∷ vs) out) (ground arith) r
  | inr nz ↦
      let r = writev_loop-Sent rs (advance w (v ∷ vs)) (out ++ take w (row (v ∷ vs))) in
      subst (Sent (v ∷ vs) out) (ground arith) (record {
        rest = r.rest;
        split =
            r.split
            ∙ append_assoc out (take w (row (v ∷ vs))) (row (advance w (v ∷ vs)))
            ∙ ap (λ x. out ++ x) (take-row-advance w (v ∷ vs));
        complete = r.complete;
      })
]

-- What `git cat-file --batch` writes for an object.
abbrev pub batch : (ℕ → Bytes) → Object → Bytes
batch zu o = o.hex ++ (header_tail zu o ++ (o.contents ++ (10 ∷ [])))

make_vec-row :
    (zu : ℕ → Bytes) (ex : Bool) (n : ℕ) (o : Object)
    → length o.kind + length (zu (length o.contents)) ≤ 25
    → n ≤ max_hexsize ex
    → (vs : List Bytes) × (make_vec zu ex n o ≡ ok vs) × (row vs ≡ batch zu o)
unfolding make_vec row
make_vec-row zu ex n o h l = (
  (o.hex ++ header_tail zu o) ∷ o.contents ∷ (10 ∷ []) ∷ [],
  ground (
    arith,
    length-append o.kind (b' ' ∷ (zu (length o.contents) ++ (10 ∷ []))),
    length-append (zu (length o.contents)) (10 ∷ []),
  ),
  append_assoc o.hex (header_tail zu o) (o.contents ++ (10 ∷ [])),
)

my_oid_fromstrn-le : (ex : Bool) (len n : ℕ) → my_oid_fromstrn ex len ≡ some n → n ≤ max_hexsize ex
unfolding my_oid_fromstrn
my_oid_fromstrn-le ex len n e = ground arith

-- For a name of a supported length and an object whose type and printed size have 25 bytes at
-- most together, the header fits; what is written, however writev splits it and whatever EAGAIN and
-- EINTR come between, is the beginning of the batch output of the object, and the whole of it
-- unless an error or a signal handler that dies ended the loop or it still waits.
pub cat_oid-batch :
    (zu : ℕ → Bytes) (ex : Bool) (oid : Bytes) (read : Bytes → Option Object) (rs : List Writev)
    (n : ℕ) (o : Object)
    → my_oid_fromstrn ex (length oid) ≡ some n
    → read oid ≡ some o
    → length o.kind + length (zu (length o.contents)) ≤ 25
    → (e : Ended) × (out rest : Bytes) × (cat_oid zu ex oid read rs ≡ ok (true, e, out))
      × (out ++ rest ≡ batch zu o)
      × ((e ≢ finished) ⊎ (rest ≡ []))
unfolding cat_oid
cat_oid-batch zu ex oid read rs n o a b h =
    let (vs, c, d) = make_vec-row zu ex n o h (my_oid_fromstrn-le ex (length oid) n a) in
    let s = writev_loop-Sent rs vs [] in
    (
      (writev_loop vs rs []).0,
      (writev_loop vs rs []).1,
      s.rest,
      ground arith,
      s.split ∙ d,
      s.complete,
    )

-- Every call that takes at least one byte shortens the row, so the loop ends.
length-row-advance : (w : ℕ) (vs : List Bytes) → length (row (advance w vs)) ≡ length (row vs) - w
unfolding row advance
length-row-advance w [] = omega arith
length-row-advance w (v ∷ vs) = elim (Bool-cases (leb (length v) w)) [
  | inl y ↦ ground (arith, length-row-advance (w - length v) vs, length-append v (row vs))
  | inr m ↦
      ground (arith, length-append v (row vs), length-append (drop w v) (row vs), length-drop w v)
]
