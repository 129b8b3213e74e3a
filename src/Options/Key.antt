-- ===== src/Options/Key.antt =====
-- The key of the cached search handle stands for the -d and -Q switches, in their order.
use public_inbox.Options.{
  opt_dir, opt_qpfx, parse_letter, Parsed, Letter, Switch, key_part, push, letter_of, Libc,
  parse_request, parse_switches, fresh, check_key,
}
use public_inbox.Args.RoundTrip.{NoNul}
use public_inbox.Options.Bounds.{check_key-eq-ok}
use public_inbox.Base.{
  drop, All, >>=-ok, ok-injective, ok, ℕ, ◌≡◌, refl, sym, ap, subst, ◌∙◌, ◌↔◌, Bool, true, false,
  List, [], ◌∷◌, ◌++◌, append-nil, append_assoc, arith,
}
use public_inbox.Args.{Bytes}

-- What the key is made of: `true` with the argument of a -d, `false` with that of a -Q.
abbrev pub keyed_one : Letter → Bytes → List (Bool × Bytes)
keyed_one opt_dir a = (true, a) ∷ []
keyed_one opt_qpfx a = (false, a) ∷ []
keyed_one _ a = []

unfoldable pub keyed : List Switch → List (Bool × Bytes)
keyed [] = []
keyed (s ∷ ss) = keyed_one (letter_of s.letter) s.arg ++ keyed ss

abbrev pub letter_byte : Bool → ℕ
letter_byte true = b'd'
letter_byte false = b'Q'

letter_byte-injective : (b c : Bool) → letter_byte b ≡ letter_byte c → b ≡ c
letter_byte-injective b c e = ground arith

abbrev second : Bytes → ℕ
second (a ∷ b ∷ s) = b
second _ = 0

unfoldable pub key_bytes : List (Bool × Bytes) → Bytes
key_bytes [] = []
key_bytes ((b, a) ∷ xs) = key_part (letter_byte b) a ++ key_bytes xs

-- The arguments of one of the two switches.
unfoldable pub args_of : Bool → List (Bool × Bytes) → List Bytes
args_of b [] = []
args_of true ((true, a) ∷ xs) = a ∷ args_of true xs
args_of true ((false, a) ∷ xs) = args_of true xs
args_of false ((true, a) ∷ xs) = args_of false xs
args_of false ((false, a) ∷ xs) = a ∷ args_of false xs

-- What the switches `xs` have added to a request and its key.
pub record Added (xs : List (Bool × Bytes)) (p q : Parsed) : Type 0 where
  pub key : q.1 ≡ p.1 ++ key_bytes xs
  pub dirs : q.0.dirv ≡ p.0.dirv ++ args_of true xs
  pub qpfxs : q.0.qpfxv ≡ p.0.qpfxv ++ args_of false xs

parse_letter-Added :
    (lc : Libc) (l : Letter) (s : Switch) (p q : Parsed)
    → parse_letter lc l s p ≡ ok q
    → Added (keyed_one l s.arg) p q
unfolding parse_letter key_bytes args_of push
parse_letter-Added lc opt_dir s (r, k) q e =
    ground (arith, append-nil (key_part b'd' s.arg), append-nil r.qpfxv)
parse_letter-Added lc opt_qpfx s (r, k) q e =
    ground (arith, append-nil (key_part b'Q' s.arg), append-nil r.dirv)
parse_letter-Added lc _ s (r, k) q e =
    ground (arith, append-nil k, append-nil r.dirv, append-nil r.qpfxv)

key_bytes-append :
    (xs ys : List (Bool × Bytes)) → key_bytes (xs ++ ys) ≡ key_bytes xs ++ key_bytes ys
unfolding key_bytes
key_bytes-append [] ys = refl
key_bytes-append ((b, a) ∷ xs) ys =
    ap (λ t. key_part (letter_byte b) a ++ t) (key_bytes-append xs ys)
    ∙ sym (append_assoc (key_part (letter_byte b) a) (key_bytes xs) (key_bytes ys))

args_of-append :
    (b : Bool) (xs ys : List (Bool × Bytes)) → args_of b (xs ++ ys) ≡ args_of b xs ++ args_of b ys
unfolding args_of
args_of-append true [] ys = refl
args_of-append false [] ys = refl
args_of-append true ((true, a) ∷ xs) ys = ap (◌∷◌ a) (args_of-append true xs ys)
args_of-append true ((false, a) ∷ xs) ys = args_of-append true xs ys
args_of-append false ((true, a) ∷ xs) ys = args_of-append false xs ys
args_of-append false ((false, a) ∷ xs) ys = ap (◌∷◌ a) (args_of-append false xs ys)

Added-append :
    (xs ys : List (Bool × Bytes)) (p q r : Parsed)
    → Added xs p q
    → Added ys q r
    → Added (xs ++ ys) p r
Added-append xs ys p q r a b = record {
  key =
      ground (
        arith,
        a.key,
        b.key,
        key_bytes-append xs ys,
        append_assoc p.1 (key_bytes xs) (key_bytes ys),
      );
  dirs = ground (
    arith,
    a.dirs,
    b.dirs,
    args_of-append true xs ys,
    append_assoc p.0.dirv (args_of true xs) (args_of true ys),
  );
  qpfxs = ground (
    arith,
    a.qpfxs,
    b.qpfxs,
    args_of-append false xs ys,
    append_assoc p.0.qpfxv (args_of false xs) (args_of false ys),
  );
}

parse_switches-Added :
    (lc : Libc) (ss : List Switch) (p q : Parsed)
    → parse_switches lc ss p ≡ ok q
    → Added (keyed ss) p q
unfolding parse_switches keyed key_bytes args_of
parse_switches-Added lc [] p q e = subst (Added [] p) (ok-injective e) (record {
  key = sym (append-nil p.1);
  dirs = sym (append-nil p.0.dirv);
  qpfxs = sym (append-nil p.0.qpfxv);
})
parse_switches-Added lc (s ∷ ss) p q e =
    let (r, a, b) = >>=-ok (parse_letter lc (letter_of s.letter) s p) (parse_switches lc ss) e in
    Added-append (keyed_one (letter_of s.letter) s.arg) (keyed ss) p r q
      (parse_letter-Added lc (letter_of s.letter) s p r a) (parse_switches-Added lc ss r q b)

-- An accepted request's key is made of its -d and -Q switches in order, and these, each in order,
-- are its shards and its query prefixes.
pub parse_request-keyed :
    (lc : Libc) (ss : List Switch) (q : Parsed)
    → parse_request lc ss ≡ ok q
    → (q.1 ≡ key_bytes (keyed ss))
      × (q.0.dirv ≡ args_of true (keyed ss))
      × (q.0.qpfxv ≡ args_of false (keyed ss))
unfolding parse_request
parse_request-keyed lc ss q e =
    let (p, a, b) = >>=-ok (parse_switches lc ss (fresh, [])) check_key e in
    let (s, d, k) = check_key-eq-ok p q b in
    let r = subst (Added (keyed ss) (fresh, [])) s (parse_switches-Added lc ss (fresh, []) p a) in
    (r.key, r.dirs, r.qpfxs)

-- Where the first NUL stands is determined.
append_nul_injective :
    (a b x y : Bytes) → NoNul a → NoNul b → a ++ (0 ∷ x) ≡ b ++ (0 ∷ y) → (a ≡ b) × (x ≡ y)
append_nul_injective [] [] x y h k e = (refl, ground arith)
append_nul_injective [] (c ∷ b) x y h k e = absurd (k.0 (ground arith))
append_nul_injective (c ∷ a) [] x y h k e = absurd (h.0 (ground arith))
append_nul_injective (c ∷ a) (d ∷ b) x y h k e =
    let r = append_nul_injective a b x y h.1 k.1 (ground arith) in (ground (arith, r.0), r.1)

pub key_bytes-injective :
    (xs ys : List (Bool × Bytes))
    → All (λ x. NoNul x.1) xs
    → All (λ x. NoNul x.1) ys
    → key_bytes xs ≡ key_bytes ys
    → xs ≡ ys
unfolding key_bytes
key_bytes-injective [] [] h k e = refl
key_bytes-injective [] (y ∷ ys) h k e = cc
key_bytes-injective (x ∷ xs) [] h k e = cc
key_bytes-injective ((b, s) ∷ xs) ((c, t) ∷ ys) h k e =
    let after : s ++ (0 ∷ key_bytes xs) ≡ t ++ (0 ∷ key_bytes ys) =
      sym (append_assoc s (0 ∷ []) (key_bytes xs))
      ∙ ap (drop 3) e
      ∙ append_assoc t (0 ∷ []) (key_bytes ys) in
    let (same, rest) = append_nul_injective s t (key_bytes xs) (key_bytes ys) h.0 k.0 after in
    let letters : b ≡ c = letter_byte-injective b c (ap second e) in
    let tails : xs ≡ ys = key_bytes-injective xs ys h.1 k.1 rest in ground arith

-- Two accepted requests, with no NUL in the arguments of their -d and -Q switches, have the same
-- key just when they have the same such switches in the same order; so they share a cached handle
-- only if their shards and their query prefixes are the same.
pub parse_request-share :
    (lc : Libc) (ss ss' : List Switch) (p q : Parsed)
    → parse_request lc ss ≡ ok p
    → parse_request lc ss' ≡ ok q
    → All (λ x. NoNul x.1) (keyed ss)
    → All (λ x. NoNul x.1) (keyed ss')
    → ((p.1 ≡ q.1) ↔ (keyed ss ≡ keyed ss'))
parse_request-share lc ss ss' p q a b h k =
    let x = (parse_request-keyed lc ss p a).0 in
    let y = (parse_request-keyed lc ss' q b).0 in
    (
      λ e. key_bytes-injective (keyed ss) (keyed ss') h k (sym x ∙ e ∙ y),
      λ e. x ∙ ap key_bytes e ∙ sym y,
    )
