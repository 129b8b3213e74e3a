-- ===== src/RootIds/Tests.antt =====
-- The first digits of a commit id, and a table of one.
use public_inbox.RootIds.Hex.{IsHex, sha_hex_hash-hexadecimal, hexadecimal}
use public_inbox.RootIds.{sha_hex_hash, hex2uint, Table, put_entries, root2id_get}
use public_inbox.Base.{All, ok, ◌≡◌, refl, inl, inr, some, [], ◌∷◌, ◌++◌, arith}
use public_inbox.Args.{Bytes}

-- "0badcafe"
abbrev id_hex : Bytes
id_hex = 48 ∷ 98 ∷ 97 ∷ 100 ∷ 99 ∷ 97 ∷ 102 ∷ 101 ∷ []

id_hex-All : All IsHex id_hex
id_hex-All = (
  inl (omega arith, omega arith),
  (
    inr (omega arith, omega arith),
    (
      inr (omega arith, omega arith),
      (
        inr (omega arith, omega arith),
        (
          inr (omega arith, omega arith),
          (
            inr (omega arith, omega arith),
            (inr (omega arith, omega arith), (inr (omega arith, omega arith), tt)),
          ),
        ),
      ),
    ),
  ),
)

id_hash : sha_hex_hash (id_hex ++ (48 ∷ [])) ≡ ok 0x0badcafe
unfolding hexadecimal hex2uint
id_hash = sha_hex_hash-hexadecimal id_hex (48 ∷ []) id_hex-All refl

abbrev one_root : Table
one_root = ((b'a' ∷ b'b' ∷ []), some (b'7' ∷ [])) ∷ []

put_one : put_entries ((b'a' ∷ b'b' ∷ []) ∷ (b'7' ∷ []) ∷ []) [] ≡ ok one_root
unfolding put_entries root2id_get
put_one = refl
