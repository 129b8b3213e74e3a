-- ===== src/Output.antt =====
-- write_all of lib/PublicInbox/xap_helper.h: a buffer goes to a descriptor by as many calls of
-- write(2) as it takes. The results of these calls are a list, in order.
pub mod Writes
mod Tests
use public_inbox.Base.{
  ltb, ◌==◌, length, take, drop, Run, stop_if, ◌>>=◌, ◌>>◌, aborts, ok, ℕ, ◌+◌, ◌-◌, ◌%◌, ◌^◌, Bool,
  true, false, Option, none, some, List, [], ◌∷◌, ◌++◌,
}
use public_inbox.Args.{Bytes}

-- The number of bytes that a call took, which may be 0, or its failure.
pub data Write : Type 0 where
  wrote : ℕ → Write
  failed : Write

-- `len -= n` on a size_t.
abbrev pub sub_size : ℕ → ℕ → ℕ
sub_size len n = (len + 2 ^ 64 - n) % 2 ^ 64

-- The loop, with `out` sent so far. The first part of the result is what the function returns, or
-- `none` while it waits for the next call to return.
unfoldable pub write_loop : Bytes → ℕ → List Write → Bytes → Option Bool × Bytes
write_loop p len [] out = (none, out)
write_loop p len (failed ∷ ws) out = (some false, out)
write_loop p len (wrote n ∷ ws) out = elim (n == 0) [
  | true ↦ (some false, out)
  | false ↦ elim (sub_size len n == 0) [
    | true ↦ (some true, out ++ take n p)
    | false ↦ write_loop (drop n p) (sub_size len n) ws (out ++ take n p)
  ]
]

-- What is returned, and what was sent. `wbuf` holds the buffer's bytes.
unfoldable pub write_all : Bytes → ℕ → List Write → Run (Option Bool × Bytes)
write_all wbuf len ws = do stop_if (ltb (length wbuf) len) aborts; ok (write_loop wbuf len ws [])
