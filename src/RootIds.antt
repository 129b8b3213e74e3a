-- ===== src/RootIds.antt =====
-- The root commit ids of lib/PublicInbox/xh_cidx.h: hex2uint, sha_hex_hash, the root2id table of
-- cmd_dump_roots and root2offs_str. The table itself is khashl.h's: here it is the list of its
-- pairs, which are compared by the whole key (kh_eq_str). unsigned int is 32 bits wide.
pub mod Hex
pub mod Offsets
mod Tests
use public_inbox.Options.{same_bytes}
use public_inbox.Terms.{Skip, starts_with}
use public_inbox.Base.{
  leb, if◌then◌else◌, drop, Run, aborts, exits, faults, ok, stop, bit_or, ℕ, zero, suc, ◌+◌, ◌-◌,
  ◌*◌, ◌%◌, ◌^◌, true, false, ◌&&◌, Option, none, some, List, [], ◌∷◌, ◌++◌,
}
use public_inbox.Args.{Bytes, cstr}

unfoldable pub hex2uint : ℕ → ℕ
hex2uint c =
    if leb b'0' c && leb c b'9'
    then c - b'0'
    else if leb b'a' c && leb c b'f'
    then c - b'a' + 10
    else 0xff

-- The loop from `shift` down in steps of 4, over the bytes from `hex` on, with n rounds left:
-- `ret |= hex2uint(*hex++) << (shift -= 4)`.
unfoldable pub hash_loop : ℕ → Bytes → ℕ → Run ℕ
unfolding hex2uint
hash_loop zero hex ret = ok ret
hash_loop (suc n) [] ret = stop faults
hash_loop (suc n) (c ∷ hex) ret = hash_loop n hex (bit_or ret (hex2uint c * 2 ^ (4 * n) % 2 ^ 32))

-- `shift` starts at 32, which makes 8 rounds.
unfoldable pub sha_hex_hash : Bytes → Run ℕ
unfolding hash_loop
sha_hex_hash hex = hash_loop 8 hex 0

-- The values are pointers: `none` is the NULL behind an odd number of entries.
abbrev pub Table : Type 0
Table = List (Bytes × Option Bytes)

-- root2id_get
unfoldable pub root2id_get : Table → Bytes → Option (Option Bytes)
unfolding same_bytes
root2id_get [] key = none
root2id_get ((k, v) ∷ t) key =
    let rest = root2id_get t key in if same_bytes k key then some v else rest

-- The loop of cmd_dump_roots over the entries; a key that is there already ends the process.
unfoldable pub put_entries : List Bytes → Table → Run Table
unfolding root2id_get
put_entries [] t = ok t
put_entries (key ∷ []) t = elim (root2id_get t key) [
  | none ↦ ok ((key, none) ∷ t)
  | some v ↦ stop (exits 1)
]
put_entries (key ∷ val ∷ rest) t = elim (root2id_get t key) [
  | none ↦ put_entries rest ((key, some val) ∷ t)
  | some v ↦ stop (exits 1)
]

-- The loop of root2offs_str over the terms from "G" on, with the text so far.
unfoldable pub offs_loop : Table → List Bytes → Bytes → Run Bytes
offs_loop t [] out = ok (out ++ (10 ∷ []))
offs_loop t (tn ∷ ts) out = elim (starts_with tn (b'G' ∷ [])) [
  | false ↦ ok (out ++ (10 ∷ []))
  | true ↦ elim (root2id_get t (cstr (drop 1 tn))) [
    | none ↦ stop aborts
    | some id ↦ elim id [ none ↦ stop faults | some val ↦ offs_loop t ts (out ++ (b' ' ∷ val)) ]
  ]
]

unfoldable pub root2offs_str : Skip → Table → List Bytes → Run Bytes
unfolding offs_loop
root2offs_str skip_to t terms = offs_loop t (skip_to (b'G' ∷ []) terms) []
