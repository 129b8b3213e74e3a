-- ===== src/Cache/Prefixes.antt =====
-- What -Q switches mean.
use public_inbox.Cache.{boolean_prefix, text_prefix, split_at, user_prefix}
use public_inbox.Base.{
  ◌==◌, ==_refl, All, exits, ok, stop, ℕ, ◌≡◌, refl, false, none, some, [], ◌∷◌, ◌++◌, arith,
}
use public_inbox.Args.{Bytes}

abbrev pub Without : ℕ → Bytes → Type 0
Without c = All (λ b. (b == c) ≡ false)

split_at-append :
    (c : ℕ) (name rest : Bytes)
    → Without c name
    → split_at c (name ++ (c ∷ rest)) ≡ some (name, rest)
unfolding split_at
split_at-append c [] rest h = ground (arith, ==_refl c)
split_at-append c (b ∷ name) rest h = ground (arith, split_at-append c name rest h.1, h.0)

split_at-Without : (c : ℕ) (s : Bytes) → Without c s → split_at c s ≡ none
unfolding split_at
split_at-Without c [] h = refl
split_at-Without c (b ∷ s) h = ground (arith, split_at-Without c s h.1, h.0)

Without-append : (c : ℕ) (s t : Bytes) → Without c s → Without c t → Without c (s ++ t)
Without-append c [] t h k = k
Without-append c (b ∷ s) t h k = (h.0, Without-append c s t h.1 k)

-- A name without "=", a "=" and the rest are a boolean prefix; a name without ":" and a rest, both
-- without "=", with a ":" between them are a text prefix; and a string with neither character ends
-- the process.
pub user_prefix_lem :
    (name rest : Bytes)
    → Without b'=' name
    → Without b':' name
    → Without b'=' rest
    → (user_prefix (name ++ (b'=' ∷ rest)) ≡ ok (boolean_prefix name rest))
      × (user_prefix (name ++ (b':' ∷ rest)) ≡ ok (text_prefix name rest))
      × (user_prefix name ≡ stop (exits 1))
unfolding user_prefix
user_prefix_lem name rest h k l = (
  ground (arith, split_at-append b'=' name rest h),
  ground (
    arith,
    split_at-append b':' name rest k,
    split_at-Without b'=' (name ++ (b':' ∷ rest))
        (Without-append b'=' name (b':' ∷ rest) h (refl, l)),
  ),
  ground (arith, split_at-Without b'=' name h, split_at-Without b':' name k),
)
