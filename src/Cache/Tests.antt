-- ===== src/Cache/Tests.antt =====
-- An empty set, a limit that one shard exceeds, and a database that opens at the second try.
use public_inbox.Cache.{
  add_shards, unset_phrase, is_chert, Cache, World, open_shards, srch_init_extra, Handle, Opening,
  mail_parser, find_handle, find_key, srch_init, take_budget, srch_cache_renew, open_tries,
}
use public_inbox.Options.Key.{keyed}
use public_inbox.Cache.Budget.{cost, IsSound}
use public_inbox.Options.{
  parse_request, Parsed, letter_of, parse_switches, fresh, parse_letter, push, check_key,
}
use public_inbox.Cache.Unique.{Distinct, find_handle-Distinct}
use public_inbox.Cache.Refine.{Served}
use public_inbox.Args.{Bytes}
use public_inbox.Options.Tests.{libc}
use public_inbox.Base.{ltb, ok, ℕ, ◌≡◌, refl, inr, Bool, true, false, List, [], ◌∷◌, arith}

abbrev pub limited : ℕ → World
limited n = record { is_regular = λ path. false; my_fd_max = n; lei = false }

abbrev pub small : World
small = limited 4

abbrev pub second_try : Opening
second_try try dir = ltb 0 try

abbrev pub empty : Cache
empty = record { handles = []; shard_nfd = 0 }

abbrev pub no_code : List (Bool × Bytes) → Bool
no_code xs = false

pub empty-IsSound : IsSound small no_code empty
unfolding cost
empty-IsSound = record { counted = omega arith; within = inr (omega arith); keyed = tt }

abbrev pub asked : Parsed
asked = (record fresh { dirv = (b'a' ∷ []) ∷ [] }, b'-' ∷ b'd' ∷ 0 ∷ b'a' ∷ 0 ∷ [])

pub asked-accepted :
    parse_request libc (record { letter = b'd'; pad = 0; arg = b'a' ∷ [] } ∷ []) ≡ ok asked
unfolding parse_request parse_switches parse_letter letter_of push check_key
asked-accepted = refl

pub asked-Served : (n : ℕ) → Served (limited n) libc no_code (second_try, asked)
unfolding keyed letter_of srch_init_extra open_shards add_shards unset_phrase is_chert
asked-Served n = record {
  switches = record { letter = b'd'; pad = 0; arg = b'a' ∷ [] } ∷ [];
  prefixes = [];
  accepted = asked-accepted;
  clean = ((omega arith, tt), tt);
  coded = refl;
  formed = refl;
  opens = inr (refl, true, refl);
}

abbrev asked_handle : Handle
asked_handle = record {
  ckey = asked.1;
  shards = asked.0.dirv;
  phrase = true;
  parser = mail_parser;
  prefixes = [];
}

asked_run :
    find_handle small second_try asked empty
    ≡ ok (asked_handle, record { handles = asked_handle ∷ []; shard_nfd = 8 })
unfolding find_handle find_key srch_init take_budget srch_cache_renew open_tries open_shards
    add_shards unset_phrase is_chert srch_init_extra
asked_run = refl

find_handle-Distinct_example : Distinct (asked_handle ∷ []) × (asked_handle.ckey ≡ asked.1)
unfolding Distinct
find_handle-Distinct_example =
    find_handle-Distinct small second_try asked empty
      (record { handles = asked_handle ∷ []; shard_nfd = 8 }) asked_handle tt asked_run
