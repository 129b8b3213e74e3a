-- ===== src/Lg2.antt =====
-- lib/PublicInbox/lg2.h: an object is written as `git cat-file --batch` does. libgit2 and snprintf
-- are parameters: the object that the database gives, and how "%zu" prints a number. The build
-- with LG2_EXPERIMENTAL has names of 40 or 64 hex digits, the other of 40. Lg2/Odb has the databases and
-- the objects as handles, with the calls that Perl makes.
pub mod Vectors
pub mod Odb
pub mod Calls
pub mod Sessions
mod Tests
use public_inbox.Base.{
  ltb, leb, ◌==◌, if◌then◌else◌, length, take, drop, Run, ◌>>=◌, aborts, ok, stop, ℕ, ◌+◌, ◌-◌,
  Bool, true, false, Option, none, some, List, [], ◌∷◌, ◌++◌,
}
use public_inbox.Args.{Bytes}

-- Which hash a name of that length is for, by its number of hex digits; `none` croaks.
unfoldable pub my_oid_fromstrn : Bool → ℕ → Option ℕ
my_oid_fromstrn false len = some 40
my_oid_fromstrn true len = if leb len 40 then some 40 else if len == 64 then some 64 else none

-- MY_OID_MAX_HEXSIZE
abbrev pub max_hexsize : Bool → ℕ
max_hexsize true = 64
max_hexsize false = 40

-- What git_odb_read and its kin give: the full name in hex, the type's name and the contents.
pub record Object : Type 0 where
  pub hex : Bytes
  pub kind : Bytes
  pub contents : Bytes

-- " %s %zu\n"
abbrev pub header_tail : (ℕ → Bytes) → Object → Bytes
header_tail zu o = b' ' ∷ (o.kind ++ (b' ' ∷ (zu (length o.contents) ++ (10 ∷ []))))

-- The three vectors, if the header fits into `hdr`, whose size is that of the longest name and of
-- " commit 18446744073709551615" with its NUL.
unfoldable pub make_vec : (ℕ → Bytes) → Bool → ℕ → Object → Run (List Bytes)
make_vec zu ex full_oidlen o =
    let remain = max_hexsize ex + 29 - full_oidlen in
    if ltb (length (header_tail zu o)) remain
    then ok ((o.hex ++ header_tail zu o) ∷ o.contents ∷ (10 ∷ []) ∷ [])
    else stop aborts

-- What writev(2) returns; after EAGAIN the loop polls, and any other error ends it. After EAGAIN and
-- EINTR PERL_ASYNC_CHECK runs the handlers of signals, which may die: `handler_dies`.
pub data Writev : Type 0 where
  wrote : ℕ → Writev
  eagain eintr write_error : Writev
  handler_dies : Writev

-- The inner `for` loop: what is left of the vectors after w more bytes.
unfoldable pub advance : ℕ → List Bytes → List Bytes
advance w [] = []
advance w (v ∷ vs) = elim (leb (length v) w) [
  | true ↦ advance (w - length v) vs
  | false ↦ drop w v ∷ vs
]

-- How the `while` loop ends: all written, an error (ENOSPC for 0 bytes), still waiting, or left by a
-- handler that dies.
pub data Ended : Type 0 where
  finished croaked waiting : Ended
  thrown_out : Ended

-- The bytes of the vectors in a row, as writev(2) takes them.
unfoldable pub row : List Bytes → Bytes
row [] = []
row (v ∷ vs) = v ++ row vs

-- The loop over the results, with what has been sent. `nvec` is 0 when no vector is left.
unfoldable pub writev_loop : List Bytes → List Writev → Bytes → Ended × Bytes
writev_loop [] rs out = (finished, out)
writev_loop (v ∷ vs) [] out = (waiting, out)
writev_loop (v ∷ vs) (eagain ∷ rs) out = writev_loop (v ∷ vs) rs out
writev_loop (v ∷ vs) (eintr ∷ rs) out = writev_loop (v ∷ vs) rs out
writev_loop (v ∷ vs) (write_error ∷ rs) out = (croaked, out)
writev_loop (v ∷ vs) (handler_dies ∷ rs) out = (thrown_out, out)
writev_loop (v ∷ vs) (wrote w ∷ rs) out = elim (w == 0) [
  | true ↦ (croaked, out)
  | false ↦ writev_loop (advance w (v ∷ vs)) rs (out ++ take w (row (v ∷ vs)))
]

-- The whole routine: `none` for a name that libgit2 refuses or an object that is not there, with
-- nothing written; the caller retries. The first part is the value returned.
unfoldable pub cat_oid :
    (ℕ → Bytes) → Bool → Bytes → (Bytes → Option Object) → List Writev → Run (Bool × Ended × Bytes)
cat_oid zu ex oid read rs = elim (my_oid_fromstrn ex (length oid)) [
  | none ↦ stop aborts
  | some full_oidlen ↦ elim (read oid) [
    | none ↦ ok (false, finished, [])
    | some o ↦ make_vec zu ex full_oidlen o >>= λ vec.
        let (e, out) = writev_loop vec rs [] in ok (true, e, out)
  ]
]
