-- ===== src/Terms.antt =====
-- The term scans of lib/PublicInbox/xh_cidx.h (dump_ibx_term and dump_roots_term) and starts_with
-- of lib/PublicInbox/xap_helper.h. A Xapian term list is the list of its terms, and skip_to, which
-- is Xapian's, is a parameter: a function from a term and a list to the terms from there on.
pub mod Order
pub mod Scan
pub mod Tests
use public_inbox.Base.{
  ltb, ◌==◌, length, drop, ℕ, ◌+◌, ◌-◌, Bool, true, false, not, ◌&&◌, List, [], ◌∷◌, ◌++◌,
}
use public_inbox.Args.{Bytes, cstr}

abbrev pub Skip : Type 0
Skip = Bytes → List Bytes → List Bytes

-- memcmp(pfx, s, pfx_len) == 0 with s->size() >= pfx_len
unfoldable pub starts_with : Bytes → Bytes → Bool
starts_with s [] = true
starts_with [] (b ∷ pfx) = false
starts_with (a ∷ s) (b ∷ pfx) = (a == b) && starts_with s pfx

-- `term_len > 0 && (tn.length() - pfx_len) != term_len`
abbrev pub wrong_length : ℕ → Bytes → Bytes → Bool
wrong_length term_len pfx tn = ltb 0 term_len && not (length tn - length pfx == term_len)

-- The loop over the terms from the cursor on: what is written, and `req->nr_out`. `line` is the
-- text for what follows the prefix.
unfoldable pub term_loop : (Bytes → Bytes) → Bytes → ℕ → List Bytes → Bytes → ℕ → Bytes × ℕ
term_loop line pfx term_len [] out nr_out = (out, nr_out)
term_loop line pfx term_len (tn ∷ ts) out nr_out = elim (starts_with tn pfx) [
  | false ↦ (out, nr_out)
  | true ↦ elim (wrong_length term_len pfx tn) [
    | true ↦ term_loop line pfx term_len ts out nr_out
    | false ↦
        term_loop line pfx term_len ts (out ++ line (cstr (drop (length pfx) tn))) (nr_out + 1)
  ]
]

-- "%s %s\n"
abbrev pub ibx_line : Bytes → Bytes → Bytes
ibx_line ibx_id s = s ++ (b' ' ∷ (ibx_id ++ (10 ∷ [])))

unfoldable pub dump_ibx_term : Skip → Bytes → Bytes → ℕ → List Bytes → Bytes → ℕ → Bytes × ℕ
dump_ibx_term skip_to ibx_id pfx term_len terms out nr_out =
    term_loop (ibx_line ibx_id) pfx term_len (skip_to pfx terms) out nr_out

unfoldable pub dump_roots_term : Skip → Bytes → Bytes → ℕ → List Bytes → Bytes → ℕ → Bytes × ℕ
dump_roots_term skip_to root_offs pfx term_len terms out nr_out =
    term_loop (λ s. s ++ root_offs) pfx term_len (skip_to pfx terms) out nr_out
