-- ===== src/Output/Writes.antt =====
-- What write_all sends, and when it succeeds.
use public_inbox.Output.{wrote, failed, write_loop, Write, write_all, sub_size}
use public_inbox.Base.{
  ltb, ◌==◌, if◌then◌else◌, Bool-cases, length, take, drop, All, aborts, ok, stop, ℕ, zero, suc,
  ◌+◌, ◌-◌, ◌^◌, ◌≤◌, ◌<◌, ◌≡◌, refl, sym, ap, subst, ◌∙◌, ◌↔◌, inl, inr, Bool, true, false, Option,
  some, List, [], ◌∷◌, ◌++◌, append-nil, append_assoc, arith,
}
use public_inbox.Args.{Bytes}

-- write(2) takes no more than it is given.
abbrev pub Accepts : List Write → ℕ → Type 0
Accepts [] len = Unit {0}
Accepts (failed ∷ ws) len = Unit {0}
Accepts (wrote n ∷ ws) len = (n ≤ len) × Accepts ws (len - n)

-- Every call takes at least one byte.
abbrev pub Progress : List Write → Type 0
Progress = All (λ w. (n : ℕ) × (w ≡ wrote (suc n)))

take_nil : (m : ℕ) → take {A = ℕ} m [] ≡ []
take_nil zero = refl
take_nil (suc m) = refl

take-add : (n k : ℕ) (p : Bytes) → take n p ++ take k (drop n p) ≡ take (n + k) p
take-add zero k p = ap (λ m. take m p) (omega arith)
take-add (suc n) k [] = take_nil k ∙ sym (take_nil (suc n + k))
take-add (suc n) k (x ∷ p) =
    let s : suc n + k ≡ suc (n + k) = omega arith in rw s (ap (◌∷◌ x) (take-add n k p))

-- k bytes of the buffer were sent: all of `len` exactly if the loop returned true.
pub record Sent (p out : Bytes) (len : ℕ) (r : Option Bool × Bytes) : Type 0 where
  pub count : ℕ
  pub within : count ≤ len
  pub sent : r.1 ≡ out ++ take count p
  pub complete : (r.0 ≡ some true) ↔ ((count ≡ len) × (0 < len))

module _ (p : Bytes) (len n : ℕ) (ws : List Write) (out : Bytes) where
  step_refused : (n == 0) ≡ true → write_loop p len (wrote n ∷ ws) out ≡ (some false, out)
  unfolding write_loop
  step_refused z = ground arith

  step_last :
      (n == 0) ≡ false
      → (sub_size len n == 0) ≡ true
      → write_loop p len (wrote n ∷ ws) out ≡ (some true, out ++ take n p)
  unfolding write_loop
  step_last nz all = ground arith

  step_more :
      (n == 0) ≡ false
      → (sub_size len n == 0) ≡ false
      → n ≤ len
      → len < 2 ^ 64
      → write_loop p len (wrote n ∷ ws) out ≡ write_loop (drop n p) (len - n) ws (out ++ take n p)
  unfolding write_loop
  step_more nz more a h = let left : sub_size len n ≡ len - n = omega arith in ground (arith, left)

write_loop-Sent :
    (p : Bytes) (len : ℕ) (ws : List Write) (out : Bytes)
    → len < 2 ^ 64
    → Accepts ws len
    → Sent p out len (write_loop p len ws out)
unfolding write_loop
write_loop-Sent p len [] out h a = record {
  count = 0;
  within = omega arith;
  sent = ground (arith, append-nil out);
  complete = ground arith;
}
write_loop-Sent p len (failed ∷ ws) out h a = record {
  count = 0;
  within = omega arith;
  sent = ground (arith, append-nil out);
  complete = ground arith;
}
write_loop-Sent p len (wrote n ∷ ws) out h a = elim (Bool-cases (n == 0)) [
  | inl z ↦ subst (Sent p out len) (sym (step_refused p len n ws out z)) (record {
    count = 0;
    within = omega arith;
    sent = sym (append-nil out);
    complete = ground arith;
  })
  | inr nz ↦ elim (Bool-cases (sub_size len n == 0)) [
    | inl all ↦
        subst (Sent p out len) (sym (step_last p len n ws out nz all))
          (record { count = n; within = a.0; sent = refl; complete = ground arith })
    | inr more ↦
        let r = write_loop-Sent (drop n p) (len - n) ws (out ++ take n p) (omega arith) a.1 in
        subst (Sent p out len) (sym (step_more p len n ws out nz more a.0 h)) (record {
          count = n + r.count;
          within = omega (arith, r.within, a.0);
          sent =
              r.sent
              ∙ append_assoc out (take n p) (take r.count (drop n p))
              ∙ ap (λ x. out ++ x) (take-add n r.count p);
          complete = ground (arith, r.complete, r.within);
        })
  ]
]

-- A length beyond the buffer ends the process. Otherwise the loop, however the calls split the
-- writes, sends the first bytes of the buffer in order and no others; it returns true just when
-- they are the `len` bytes asked for and `len` is not 0.
pub write_all_lem :
    (wbuf : Bytes) (len : ℕ) (ws : List Write)
    → len < 2 ^ 64
    → Accepts ws len
    → (r : Option Bool × Bytes) × (write_all wbuf len ws
        ≡ (if ltb (length wbuf) len then stop aborts else ok r))
      × Sent wbuf [] len r
unfolding write_all
write_all_lem wbuf len ws h a =
    (write_loop wbuf len ws [], ground arith, write_loop-Sent wbuf len ws [] h a)

write_loop-Progress :
    (p : Bytes) (len : ℕ) (ws : List Write) (out : Bytes)
    → 0 < len
    → len < 2 ^ 64
    → len ≤ length ws
    → Accepts ws len
    → Progress ws
    → (write_loop p len ws out).0 ≡ some true
unfolding write_loop
write_loop-Progress p len [] out z h l a g = absurd (omega arith)
write_loop-Progress p len (failed ∷ ws) out z h l a g = let (n, e) = g.0 in cc
write_loop-Progress p len (wrote n ∷ ws) out z h l a g =
    let (k, e) = g.0 in
    let nz : (n == 0) ≡ false = ground arith in
    elim (Bool-cases (sub_size len n == 0)) [
      | inl all ↦ ap (λ x. x.0) (step_last p len n ws out nz all)
      | inr more ↦
          ap (λ x. x.0) (step_more p len n ws out nz more a.0 h)
          ∙ write_loop-Progress (drop n p) (len - n) ws (out ++ take n p) (ground arith)
              (omega arith) (ground arith) a.1 g.1
    ]

-- If each call takes at least one byte and at most what it is given, as many calls as there are
-- bytes are enough: a positive length is sent whole, and the function returns true.
pub write_all-Progress :
    (wbuf : Bytes) (len : ℕ) (ws : List Write)
    → 0 < len
    → len < 2 ^ 64
    → len ≤ length wbuf
    → len ≤ length ws
    → Accepts ws len
    → Progress ws
    → write_all wbuf len ws ≡ ok (some true, take len wbuf)
unfolding write_all
write_all-Progress wbuf len ws z h b l a g =
    let s = write_loop-Sent wbuf len ws [] h a in
    let d = write_loop-Progress wbuf len ws [] z h l a g in
    let c : s.count ≡ len = (s.complete.0 d).0 in
    let e : (write_loop wbuf len ws []).1 ≡ take len wbuf = s.sent ∙ ap (λ k. take k wbuf) c in
    ground arith
