-- ===== src/Options/Bounds.antt =====
-- Which requests the switches can make.
use public_inbox.Options.{
  opt_dir, opt_lock, opt_max, opt_off, opt_pfx, opt_timeout, opt_qpfx, parse_letter, push, Req,
  opt_u, my_arg_max, Libc, ullong_max, Letter, Switch, Parsed, check_key, parse_request, fresh,
  parse_switches, letter_of, opt_col, opt_uid_min, opt_threadid, opt_uid_max, long_max, opt_k,
  long_min,
}
use public_inbox.Base.{
  or_false, or_assoc, length, length-append, ℤ, >>=-ok, ok-injective, ok, ℕ, ◌<◌, ◌≡◌, sym, subst,
  ◌≢◌, Bool, true, false, ◌||◌, List, [], ◌∷◌, arith,
}
use public_inbox.Args.{Bytes}

-- The arrays of MY_ARG_MAX entries have room to spare, and no number is the one that strto* gives
-- on overflow; for the ids, which start as that number, IdsInBounds says so.
pub record InBounds (r : Req) : Type 0 where
  pub dirs : length r.dirv < my_arg_max
  pub locks : length r.lockv < my_arg_max
  pub pfxs : length r.pfxv < my_arg_max
  pub qpfxs : length r.qpfxv < my_arg_max
  pub max : r.max ≢ ullong_max
  pub off : r.off ≢ ullong_max
  pub timeout : r.timeout_sec ≢ ullong_max
  pub col_max : r.sort_col ≢ long_max
  pub col_min : r.sort_col ≢ long_min

-- Whether a switch with that letter has come.
unfoldable pub seen : (Letter → Bool) → List Switch → Bool
seen is [] = false
seen is (s ∷ ss) = is (letter_of s.letter) || seen is ss

abbrev pub is_uid_min : Letter → Bool
is_uid_min opt_uid_min = true
is_uid_min _ = false

abbrev pub is_uid_max : Letter → Bool
is_uid_max opt_uid_max = true
is_uid_max _ = false

abbrev pub is_threadid : Letter → Bool
is_threadid opt_threadid = true
is_threadid _ = false

-- An id of which the switch has come is not the number that stands for an overflow.
pub record IdsInBounds (u m t : Bool) (r : Req) : Type 0 where
  pub uid_min : u ≡ true → r.uid_min ≢ ullong_max
  pub uid_max : m ≡ true → r.uid_max ≢ ullong_max
  pub threadid : t ≡ true → r.threadid ≢ ullong_max

fresh-InBounds : InBounds fresh
fresh-InBounds = record {
  dirs = omega arith;
  locks = omega arith;
  pfxs = omega arith;
  qpfxs = omega arith;
  max = omega arith;
  off = omega arith;
  timeout = omega arith;
  col_max = λ e. cc;
  col_min = λ e. cc;
}

fresh-IdsInBounds : IdsInBounds false false false fresh
fresh-IdsInBounds = record { uid_min = λ e. cc; uid_max = λ e. cc; threadid = λ e. cc }

push-lt :
    (v : List Bytes) (a : Bytes) (w : List Bytes)
    → length v < my_arg_max
    → push v a ≡ ok w
    → length w < my_arg_max
unfolding push
push-lt v a w h e = ground (arith, length-append v (a ∷ []))

opt_u-ne : (fn : Bytes → ℕ × Bytes) (m v : ℕ) (a : Bytes) → opt_u fn m a ≡ ok v → v ≢ m
unfolding opt_u
opt_u-ne fn m v a e = ground arith

opt_k-ne :
    (fn : Bytes → ℤ × Bytes) (v : ℤ) (a : Bytes)
    → opt_k fn a ≡ ok v
    → (v ≢ long_max) × (v ≢ long_min)
unfolding opt_k
opt_k-ne fn v a e = (λ n. ground arith, λ n. ground arith)

parse_letter-IdsInBounds :
    (lc : Libc) (l : Letter) (s : Switch) (p q : Parsed) (u m t : Bool)
    → IdsInBounds u m t p.0
    → parse_letter lc l s p ≡ ok q
    → IdsInBounds (u || is_uid_min l) (m || is_uid_max l) (t || is_threadid l) q.0
unfolding parse_letter
parse_letter-IdsInBounds lc opt_uid_min s (r, k) q u m t h e =
    ground (arith, h.uid_max, h.threadid, opt_u-ne lc.strtoull ullong_max q.0.uid_min s.arg)
parse_letter-IdsInBounds lc opt_uid_max s (r, k) q u m t h e =
    ground (arith, h.uid_min, h.threadid, opt_u-ne lc.strtoull ullong_max q.0.uid_max s.arg)
parse_letter-IdsInBounds lc opt_threadid s (r, k) q u m t h e =
    ground (arith, h.uid_min, h.uid_max, opt_u-ne lc.strtoull ullong_max q.0.threadid s.arg)
parse_letter-IdsInBounds lc _ s (r, k) q u m t h e =
    ground (arith, h.uid_min, h.uid_max, h.threadid)

parse_switches-IdsInBounds :
    (lc : Libc) (ss : List Switch) (p q : Parsed) (u m t : Bool)
    → IdsInBounds u m t p.0
    → parse_switches lc ss p ≡ ok q
    → IdsInBounds (u || seen is_uid_min ss) (m || seen is_uid_max ss) (t || seen is_threadid ss) q.0
unfolding parse_switches seen
parse_switches-IdsInBounds lc [] p q u m t h e =
    subst (λ x. IdsInBounds (u || false) (m || false) (t || false) x.0) (ok-injective e)
      (rw (sym (or_false u), sym (or_false m), sym (or_false t)) h)
parse_switches-IdsInBounds lc (s ∷ ss) p q u m t h e =
    let l = letter_of s.letter in
    let (r, a, b) = >>=-ok (parse_letter lc l s p) (parse_switches lc ss) e in
    rw
      (
        sym (or_assoc u (is_uid_min l) (seen is_uid_min ss)),
        sym (or_assoc m (is_uid_max l) (seen is_uid_max ss)),
        sym (or_assoc t (is_threadid l) (seen is_threadid ss)),
      )
      (parse_switches-IdsInBounds lc ss r q (u || is_uid_min l) (m || is_uid_max l)
        (t || is_threadid l) (parse_letter-IdsInBounds lc l s p r u m t h a) b)

parse_letter-InBounds :
    (lc : Libc) (l : Letter) (s : Switch) (p q : Parsed)
    → InBounds p.0
    → parse_letter lc l s p ≡ ok q
    → InBounds q.0
unfolding parse_letter
parse_letter-InBounds lc opt_dir s (r, k) q h e = ground (arith, push-lt r.dirv s.arg q.0.dirv)
parse_letter-InBounds lc opt_lock s (r, k) q h e = ground (arith, push-lt r.lockv s.arg q.0.lockv)
parse_letter-InBounds lc opt_pfx s (r, k) q h e = ground (arith, push-lt r.pfxv s.arg q.0.pfxv)
parse_letter-InBounds lc opt_qpfx s (r, k) q h e = ground (arith, push-lt r.qpfxv s.arg q.0.qpfxv)
parse_letter-InBounds lc opt_max s (r, k) q h e =
    ground (arith, opt_u-ne lc.strtoull ullong_max q.0.max s.arg)
parse_letter-InBounds lc opt_off s (r, k) q h e =
    ground (arith, opt_u-ne lc.strtoull ullong_max q.0.off s.arg)
parse_letter-InBounds lc opt_timeout s (r, k) q h e =
    ground (arith, opt_u-ne lc.strtoul ullong_max q.0.timeout_sec s.arg)
parse_letter-InBounds lc opt_col s (r, k) q h e =
    ground (arith, opt_k-ne lc.strtol q.0.sort_col s.arg)
parse_letter-InBounds lc _ s (r, k) q h e = ground arith

parse_switches-InBounds :
    (lc : Libc) (ss : List Switch) (p q : Parsed)
    → InBounds p.0
    → parse_switches lc ss p ≡ ok q
    → InBounds q.0
unfolding parse_switches
parse_switches-InBounds lc [] p q h e = subst (λ x. InBounds x.0) (ok-injective e) h
parse_switches-InBounds lc (s ∷ ss) p q h e =
    let (r, a, b) = >>=-ok (parse_letter lc (letter_of s.letter) s p) (parse_switches lc ss) e in
    parse_switches-InBounds lc ss r q (parse_letter-InBounds lc (letter_of s.letter) s p r h a) b

pub check_key-eq-ok : (p q : Parsed) → check_key p ≡ ok q → (p ≡ q) × (q.0.dirv ≢ []) × (q.1 ≢ [])
unfolding check_key
check_key-eq-ok (r, k) q e = ground arith

-- Every accepted request has fewer than MY_ARG_MAX entries in each array and at least one shard;
-- no number of it is one that strto* gives on overflow: not the limits and the timeout, not the
-- column, and of the ids not those of which the switch has come.
pub parse_request-InBounds :
    (lc : Libc) (ss : List Switch) (q : Parsed)
    → parse_request lc ss ≡ ok q
    → InBounds q.0
      × (q.0.dirv ≢ [])
      × IdsInBounds (seen is_uid_min ss) (seen is_uid_max ss) (seen is_threadid ss) q.0
unfolding parse_request
parse_request-InBounds lc ss q e =
    let (p, a, b) = >>=-ok (parse_switches lc ss (fresh, [])) check_key e in
    let (s, d, k) = check_key-eq-ok p q b in
    (
      subst (λ x. InBounds x.0) s (parse_switches-InBounds lc ss (fresh, []) p fresh-InBounds a),
      d,
      subst (λ x. IdsInBounds (seen is_uid_min ss) (seen is_uid_max ss) (seen is_threadid ss) x.0) s
          (parse_switches-IdsInBounds lc ss (fresh, []) p false false false fresh-IdsInBounds a),
    )
