-- ===== src/Args.antt =====
-- split2argv of lib/PublicInbox/xap_helper.h: a request is one buffer of NUL-terminated arguments.
-- A `char *` into the buffer is the list of the bytes from it to the buffer's end.
pub mod RoundTrip
mod Tests
use public_inbox.Base.{
  leb, ◌==◌, if◌then◌else◌, Run, stop_if, ◌>>=◌, ◌>>◌, aborts, ok, stop, ℕ, ◌+◌, ◌^◌, Bool, true,
  false, not, ◌||◌, List, [], ◌∷◌, ◌++◌,
}

abbrev pub Bytes : Type 0
Bytes = List ℕ

-- The C string that a pointer denotes.
unfoldable pub cstr : Bytes → Bytes
cstr [] = []
cstr (b ∷ bs) = if b == 0 then [] else b ∷ cstr bs

-- `buf[0] == 0`; an empty list has `len == 0`, for which the caller is refused as well.
abbrev pub starts_nul : Bytes → Bool
starts_nul [] = true
starts_nul (b ∷ bs) = b == 0

-- `buf[len - 1] == 0`
abbrev pub ends_nul : Bytes → Bool
ends_nul [] = false
ends_nul (b ∷ []) = b == 0
ends_nul (b ∷ c ∷ bs) = ends_nul (c ∷ bs)

abbrev pub tail : Bytes → Bytes
tail [] = []
tail (b ∷ bs) = bs

-- The `for` loop: the bytes from `buf + i`, the start `c` of the argument, and `dst[0..nr)`.
pub split_loop : ℕ → Bytes → Bytes → ℕ → List Bytes → Run (ℕ × List Bytes)
split_loop limit [] c nr dst = ok (nr, dst)
split_loop limit (b ∷ bs) c nr dst = elim (b == 0) [
  | true ↦ elim (nr + 1 == limit) [
    | true ↦ stop aborts
    | false ↦ split_loop limit bs bs (nr + 1) (dst ++ (c ∷ []))
  ]
  | false ↦ elim (nr == limit) [ true ↦ stop aborts | false ↦ split_loop limit bs c nr dst ]
]

-- The count and the pointers left in `dst`.
unfoldable pub split2argv : Bytes → ℕ → Run (ℕ × List Bytes)
unfolding split_loop
split2argv buf limit = do
  stop_if (starts_nul buf || not (ends_nul buf)) aborts
  (nr, dst) ← split_loop limit (tail buf) buf 0 []
  stop_if (nr == 0) aborts
  stop_if (leb (2 ^ 63) nr) aborts
  ok (nr, dst)
