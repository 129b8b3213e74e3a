-- ===== src/Options.antt =====
-- The first half of `dispatch` in lib/PublicInbox/xap_helper.h: the command's name, the switches
-- and the key of the cached search handle. getopt(3) and the strto* functions are the C library's:
-- getopt's results are a list of switches, and the others are functions from a string to the
-- number read and the string at `end`. malloc'ed streams do not fail.
pub mod Bounds
pub mod Key
pub mod Tests
use public_inbox.Base.{
  leb, ◌==◌, if◌then◌else◌, length, ℤ, Run, ◌>>=◌, aborts, ok, stop, pos, negsuc, ℕ, ◌+◌, ◌-◌, ◌%◌,
  ◌^◌, Bool, true, false, ◌&&◌, ◌||◌, Option, none, some, List, [], ◌∷◌, ◌++◌,
}
use public_inbox.Args.{Bytes}

-- A switch: its letter, the byte before `optarg` in the request, and `optarg`.
pub record Switch : Type 0 where
  pub letter : ℕ
  pub pad : ℕ
  pub arg : Bytes

pub record Libc : Type 0 where
  pub strtoull : Bytes → ℕ × Bytes
  pub strtoul : Bytes → ℕ × Bytes
  pub strtol : Bytes → ℤ × Bytes

abbrev pub my_arg_max : ℕ
my_arg_max = 256

abbrev pub ullong_max : ℕ
ullong_max = 2 ^ 64 - 1

abbrev pub long_max : ℤ
long_max = pos (2 ^ 63 - 1)

abbrev pub long_min : ℤ
long_min = negsuc (2 ^ 63 - 1)

-- The fields of `struct req` that dispatch sets. The arrays are the lists of their entries.
pub record Req : Type 0 where
  pub lockv : List Bytes
  pub pfxv : List Bytes
  pub qpfxv : List Bytes
  pub dirv : List Bytes
  pub git_dir : Option Bytes
  pub eidx_key : Option Bytes
  pub max : ℕ
  pub off : ℕ
  pub threadid : ℕ
  pub uid_min : ℕ
  pub uid_max : ℕ
  pub timeout_sec : ℕ
  pub sort_col : ℤ
  pub collapse_threads : Bool
  pub code_search : Bool
  pub relevance : Bool
  pub asc : Bool

-- A zeroed request, with the three ids set to ULLONG_MAX.
abbrev pub fresh : Req
fresh = record {
  lockv = [];
  pfxv = [];
  qpfxv = [];
  dirv = [];
  git_dir = none;
  eidx_key = none;
  max = 0;
  off = 0;
  threadid = ullong_max;
  uid_min = ullong_max;
  uid_max = ullong_max;
  timeout_sec = 0;
  sort_col = pos 0;
  collapse_threads = false;
  code_search = false;
  relevance = false;
  asc = false;
}

-- `v[c++] = optarg; if (MY_ARG_MAX == c) ABORT(...);`
unfoldable pub push : List Bytes → Bytes → Run (List Bytes)
push v arg = elim (length v + 1 == my_arg_max) [ true ↦ stop aborts | false ↦ ok (v ++ (arg ∷ [])) ]

-- OPT_U: refused on trailing bytes, and on the maximum, which stands for an overflow.
unfoldable pub opt_u : (Bytes → ℕ × Bytes) → ℕ → Bytes → Run ℕ
opt_u fn max arg =
    let (v, end) = fn arg in
    elim end [ [] ↦ elim (v == max) [ true ↦ stop aborts | false ↦ ok v ] | b ∷ bs ↦ stop aborts ]

abbrev pub eq_ℤ : ℤ → ℤ → Bool
eq_ℤ (pos a) (pos b) = a == b
eq_ℤ (negsuc a) (negsuc b) = a == b
eq_ℤ _ _ = false

unfoldable pub opt_k : (Bytes → ℤ × Bytes) → Bytes → Run ℤ
opt_k fn arg =
    let (v, end) = fn arg in
    elim end [
      | [] ↦ if eq_ℤ v long_max || eq_ℤ v long_min then stop aborts else ok v
      | b ∷ bs ↦ stop aborts
    ]

-- What "-%c%c%s%c" writes to the key: the switch and its argument, each with a NUL.
abbrev pub key_part : ℕ → Bytes → Bytes
key_part c arg = b'-' ∷ c ∷ 0 ∷ (arg ++ (0 ∷ []))

-- The request and the key so far.
abbrev pub Parsed : Type 0
Parsed = Req × Bytes

-- The letters of the `switch`.
pub data Letter : Type 0 where
  opt_asc opt_code opt_dir opt_git opt_col opt_lock opt_max opt_off opt_rel opt_threads : Letter
  opt_uid_min opt_pfx opt_timeout opt_eidx opt_threadid opt_uid_max opt_qpfx opt_bad : Letter

unfoldable pub letter_of : ℕ → Letter
letter_of c =
    if c == b'a'
    then opt_asc
    else if c == b'c'
    then opt_code
    else if c == b'd'
    then opt_dir
    else if c == b'g'
    then opt_git
    else if c == b'k'
    then opt_col
    else if c == b'l'
    then opt_lock
    else if c == b'm'
    then opt_max
    else if c == b'o'
    then opt_off
    else if c == b'r'
    then opt_rel
    else if c == b't'
    then opt_threads
    else if c == b'u'
    then opt_uid_min
    else if c == b'A'
    then opt_pfx
    else if c == b'K'
    then opt_timeout
    else if c == b'O'
    then opt_eidx
    else if c == b'T'
    then opt_threadid
    else if c == b'U'
    then opt_uid_max
    else if c == b'Q'
    then opt_qpfx
    else opt_bad

unfoldable pub parse_letter : Libc → Letter → Switch → Parsed → Run Parsed
parse_letter lc opt_asc s (r, k) = ok (record r { asc = true }, k)
parse_letter lc opt_code s (r, k) = ok (record r { code_search = true }, k)
parse_letter lc opt_dir s (r, k) =
    push r.dirv s.arg >>= λ v. ok (record r { dirv = v }, k ++ key_part b'd' s.arg)
parse_letter lc opt_git s (r, k) = ok (record r { git_dir = some (s.pad ∷ s.arg) }, k)
parse_letter lc opt_col s (r, k) = opt_k lc.strtol s.arg >>= λ v. ok (record r { sort_col = v }, k)
parse_letter lc opt_lock s (r, k) = push r.lockv s.arg >>= λ v. ok (record r { lockv = v }, k)
parse_letter lc opt_max s (r, k) =
    opt_u lc.strtoull ullong_max s.arg >>= λ v. ok (record r { max = v }, k)
parse_letter lc opt_off s (r, k) =
    opt_u lc.strtoull ullong_max s.arg >>= λ v. ok (record r { off = v }, k)
parse_letter lc opt_rel s (r, k) = ok (record r { relevance = true }, k)
parse_letter lc opt_threads s (r, k) = ok (record r { collapse_threads = true }, k)
parse_letter lc opt_uid_min s (r, k) =
    opt_u lc.strtoull ullong_max s.arg >>= λ v. ok (record r { uid_min = v }, k)
parse_letter lc opt_pfx s (r, k) = push r.pfxv s.arg >>= λ v. ok (record r { pfxv = v }, k)
parse_letter lc opt_timeout s (r, k) =
    opt_u lc.strtoul ullong_max s.arg >>= λ v. ok (record r { timeout_sec = v }, k)
parse_letter lc opt_eidx s (r, k) = ok (record r { eidx_key = some (s.pad ∷ s.arg) }, k)
parse_letter lc opt_threadid s (r, k) =
    opt_u lc.strtoull ullong_max s.arg >>= λ v. ok (record r { threadid = v }, k)
parse_letter lc opt_uid_max s (r, k) =
    opt_u lc.strtoull ullong_max s.arg >>= λ v. ok (record r { uid_max = v }, k)
parse_letter lc opt_qpfx s (r, k) =
    push r.qpfxv s.arg >>= λ v. ok (record r { qpfxv = v }, k ++ key_part b'Q' s.arg)
parse_letter lc opt_bad s (r, k) = stop aborts

-- The `while` loop over getopt.
unfoldable pub parse_switches : Libc → List Switch → Parsed → Run Parsed
parse_switches lc [] p = ok p
parse_switches lc (s ∷ ss) p = parse_letter lc (letter_of s.letter) s p >>= parse_switches lc ss

-- `ckey_len <= 0 || !req->dirc`: an int of 32 bits.
unfoldable pub check_key : Parsed → Run Parsed
check_key (r, k) = elim r.dirv [
  | [] ↦ stop aborts
  | d ∷ ds ↦ elim (leb (2 ^ 31) (length k % 2 ^ 32) || (length k % 2 ^ 32 == 0)) [
    | true ↦ stop aborts
    | false ↦ ok (r, k)
  ]
]

unfoldable pub parse_request : Libc → List Switch → Run Parsed
parse_request lc ss = parse_switches lc ss (fresh, []) >>= check_key

pub data Command : Type 0 where
  mset_cmd dump_ibx_cmd dump_roots_cmd test_inspect_cmd test_sleep_cmd : Command

unfoldable pub same_bytes : Bytes → Bytes → Bool
same_bytes [] [] = true
same_bytes (a ∷ s) (b ∷ t) = (a == b) && same_bytes s t
same_bytes _ _ = false

-- The table `cmds`: a name is compared by its length and its bytes.
unfoldable pub find_command : List (Bytes × Command) → Bytes → Option Command
find_command [] name = none
find_command ((n, c) ∷ rest) name = if same_bytes n name then some c else find_command rest name
