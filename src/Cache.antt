-- ===== src/Cache.antt =====
-- The cached search handles of lib/PublicInbox/xap_helper.h: srch_eq, srch_cache_renew,
-- srch_init_extra, is_chert, srch_init, and the part of dispatch that finds the handle of a request. The set
-- itself is khashl.h's; here it is the list of its handles, newest first. What opening a database
-- gives and which files there are are parameters; memory does not run out. The
-- objects in memory and the shared locks around opening and reopening are in Memory.
pub mod Opened
pub mod Budget
pub mod Unique
pub mod Refine
pub mod Prefixes
pub mod Tests
use public_inbox.Options.{same_bytes, Req, Parsed}
use public_inbox.Base.{
  ltb, leb, ◌==◌, if◌then◌else◌, length, drop, Run, ◌>>=◌, exits, faults, ok, stop, ℕ, ◌+◌, ◌*◌,
  Bool, true, false, not, ◌&&◌, Option, none, some, List, [], ◌∷◌, ◌++◌,
}
use public_inbox.Args.{Bytes, cstr}

-- What add_boolean_prefix and add_prefix add for -Q: the user's prefix and the internal one.
pub data UserPrefix : Type 0 where
  boolean_prefix : Bytes → Bytes → UserPrefix
  text_prefix : Bytes → Bytes → UserPrefix

-- The query parser's fixed prefixes: those of qp_init_code_search; those of qp_init_mail_search with
-- `thread`; or these with `kw` and `L` for lei.
pub data Parser : Type 0 where
  code_parser mail_parser lei_parser : Parser

-- struct srch: the key, the directories of the opened database (none before that, and `db` NULL),
-- whether FLAG_PHRASE is set, and the query parser with its -Q prefixes.
pub record Handle : Type 0 where
  pub ckey : Bytes
  pub shards : List Bytes
  pub phrase : Bool
  pub parser : Parser
  pub prefixes : List UserPrefix

-- The static variables.
pub record Cache : Type 0 where
  pub handles : List Handle
  pub shard_nfd : ℕ

-- srch_eq compares the lengths and the bytes.
unfoldable pub srch_eq : Handle → Handle → Bool
unfolding same_bytes
srch_eq a b = same_bytes a.ckey b.ckey

-- The handles that are left in the set, of which all others are freed.
unfoldable pub srch_cache_renew : Option Handle → List Handle
srch_cache_renew none = []
srch_cache_renew (some keep) = keep ∷ []

-- memchr(s, c, strlen(s)): the bytes before the character and those behind it.
unfoldable pub split_at : ℕ → Bytes → Option (Bytes × Bytes)
split_at c [] = none
split_at c (b ∷ s) =
    let rest = split_at c s in
    if b == c
    then some ([], s)
    else elim rest [ none ↦ none | some (before, behind) ↦ some (b ∷ before, behind) ]

-- One round of the loop of srch_init_extra.
unfoldable pub user_prefix : Bytes → Run UserPrefix
unfolding split_at
user_prefix s = elim (split_at b'=' s) [
  | some (name, xpfx) ↦ ok (boolean_prefix name xpfx)
  | none ↦ elim (split_at b':' s) [
    | some (name, xpfx) ↦ ok (text_prefix name xpfx)
    | none ↦ stop (exits 1)
  ]
]

unfoldable pub srch_init_extra : List Bytes → Run (List UserPrefix)
unfolding user_prefix
srch_init_extra [] = ok []
srch_init_extra (q ∷ qs) = user_prefix (cstr q) >>= λ p. srch_init_extra qs >>= λ ps. ok (p ∷ ps)

-- What does not change while the process runs: which paths are regular files, the limit on
-- descriptors, and whether this is for lei.
pub record World : Type 0 where
  pub is_regular : Bytes → Bool
  pub my_fd_max : ℕ
  pub lei : Bool

-- Whether a database opens at a try.
abbrev pub Opening : Type 0
Opening = ℕ → Bytes → Bool

abbrev pub shard_cost : ℕ
shard_cost = 8

-- "/iamchert", and PATH_MAX of limits.h.
abbrev pub chert_name : Bytes
chert_name = 47 ∷ 105 ∷ 97 ∷ 109 ∷ 99 ∷ 104 ∷ 101 ∷ 114 ∷ 116 ∷ []

abbrev pub path_max : ℕ
path_max = 4096

-- Whether a directory has a regular file of that name.
unfoldable pub is_chert : World → Bytes → Run Bool
is_chert w dir =
    if leb path_max (length (dir ++ chert_name))
    then stop (exits 1)
    else ok (w.is_regular (dir ++ chert_name))

-- `if (!lei && srch->qp_flags & FLAG_PHRASE && is_chert(dir))` and what follows.
unfoldable pub unset_phrase : World → Bytes → Bool → Run Bool
unfolding is_chert
unset_phrase w dir phrase =
    if not w.lei && phrase then (is_chert w dir >>= λ chert. ok (not chert)) else ok phrase

-- The loop over the directories behind the first. The inner `none` is an exception.
unfoldable pub add_shards : World → Opening → ℕ → List Bytes → Bool → Run (Option Bool)
unfolding unset_phrase
add_shards w opens try [] phrase = ok (some phrase)
add_shards w opens try (dir ∷ dirs) phrase = unset_phrase w dir phrase >>= λ phrase'.
    let rest = add_shards w opens try dirs phrase' in if opens try dir then rest else ok none

-- One try, which sets FLAG_PHRASE first.
unfoldable pub open_shards : World → Opening → ℕ → List Bytes → Run (Option Bool)
unfolding add_shards
open_shards w opens try [] = stop faults
open_shards w opens try (dir ∷ dirs) =
    let rest = unset_phrase w dir true >>= add_shards w opens try dirs in
    if opens try dir then rest else ok none

-- The `for` loop of two tries: FLAG_PHRASE and the handles that are left.
unfoldable pub open_tries :
    World → Opening → List Bytes → Handle → List Handle → Run (Bool × List Handle)
unfolding open_shards srch_cache_renew
open_tries w opens dirs srch handles = open_shards w opens 0 dirs >>= λ first. elim first [
  | some phrase ↦ ok (phrase, handles)
  | none ↦ open_shards w opens 1 dirs >>= λ second. elim second [
    | some phrase ↦ ok (phrase, srch_cache_renew (some srch))
    | none ↦ stop (exits 1)
  ]
]

-- `shard_nfd += nfd`, and the renewal if that is too much.
unfoldable pub take_budget : World → ℕ → Handle → Cache → Cache
unfolding srch_cache_renew
take_budget w nfd srch c =
    if ltb w.my_fd_max (c.shard_nfd + nfd)
    then record { handles = srch_cache_renew (some srch); shard_nfd = nfd }
    else record c { shard_nfd = c.shard_nfd + nfd }

abbrev pub parser_of : World → Bool → Parser
parser_of w code_search =
    if code_search then code_parser else if w.lei then lei_parser else mail_parser

-- For the new handle at the front of the set, which it fills in.
unfoldable pub srch_init : World → Opening → Req → Handle → Cache → Run (Handle × Cache)
unfolding take_budget open_tries srch_init_extra
srch_init w opens req srch c =
    let c' = take_budget w (length req.dirv * shard_cost) srch c in
    open_tries w opens req.dirv srch c'.handles >>= λ both. srch_init_extra req.qpfxv >>= λ ps.
    let srch' = record srch {
      shards = req.dirv;
      phrase = both.0;
      parser = parser_of w req.code_search;
      prefixes = ps;
    } in
    ok (srch', record c' { handles = srch' ∷ drop 1 both.1 })

-- What dispatch puts into the set: only the key is set. (A parser is created by srch_init; a new
-- handle has none, for which any value stands here.)
abbrev pub new_handle : Bytes → Handle
new_handle ckey = record {
  ckey = ckey;
  shards = [];
  phrase = false;
  parser = mail_parser;
  prefixes = [];
}

unfoldable pub find_key : Handle → List Handle → Option Handle
unfolding srch_eq
find_key srch [] = none
find_key srch (h ∷ hs) = let rest = find_key srch hs in if srch_eq h srch then some h else rest

-- dispatch, from srch_set_put on: the handle of a request's key, which is there or is opened now.
unfoldable pub find_handle : World → Opening → Parsed → Cache → Run (Handle × Cache)
unfolding find_key srch_init
find_handle w opens (req, ckey) c = elim (find_key (new_handle ckey) c.handles) [
  | some h ↦ ok (h, c)
  | none ↦
      srch_init w opens req (new_handle ckey) (record c { handles = new_handle ckey ∷ c.handles })
]
