-- ===== src/Dispatch/Tests.antt =====
-- A request for one result, whose database opens at the second try.
use public_inbox.Dispatch.{Outside, dispatch, query_results, has_threadid}
use public_inbox.Dispatch.Refine.{answer, Ready, dispatch_refines}
use public_inbox.Dispatch.Commands.{mset_name, mset_answer, dispatch-mset, answer-mset}
use public_inbox.Cache.{Cache, Handle, srch_init_extra, parser_of}
use public_inbox.Cache.Budget.{IsSound}
use public_inbox.Cache.Opened.{has_phrase}
use public_inbox.Cache.Refine.{fresh_handle, Served}
use public_inbox.Cache.Tests.{
  small, second_try, empty, no_code, asked, empty-IsSound, asked-accepted, asked-Served, limited,
}
use public_inbox.Options.{same_bytes}
use public_inbox.Options.Tests.{libc}
use public_inbox.Locks.{locked}
use public_inbox.Mset.Sending.{row_lines}
use public_inbox.Mset.Tests.{one_hit, show_digit, bytewise, bytewise-Writes}
use public_inbox.DumpIbx.Tests.{answers}
use public_inbox.Terms.Tests.{skip_terms}
use public_inbox.Query.{got, mail_mset, Postings}
use public_inbox.Stderr.Tests.{log_files}
use public_inbox.Base.{
  ◌>>=◌, ok-injective, ok, ℕ, ◌≡◌, refl, sym, subst, ◌∙◌, inl, Bool, true, false, none, List, [],
  ◌∷◌, arith,
}
use public_inbox.Args.{Bytes}

abbrev no_postings : Postings
no_postings = record { terms_of = λ rev key. got none; skip_to = skip_terms; reopens = λ rev. true }

-- mset -d a q
abbrev pub outside : ℕ → Outside
outside n = record {
  libc = libc;
  getopt = λ argv. (record { letter = b'd'; pad = 0; arg = b'a' ∷ [] } ∷ [], (b'q' ∷ []) ∷ []);
  world = limited n;
  opens = second_try;
  reopen_works = true;
  show = show_digit;
  threshold = 40;
  skip_to = skip_terms;
  results = λ see h i e. record { get_mset = λ rev off max. got one_hit; reopens = λ rev. true };
  documents = λ see h. answers;
  postings = λ see h. no_postings;
  reopens = λ rev. true;
  metadata = λ see h. [];
  qp_flags = λ phrase. 7;
  file = λ name. none;
  locks = λ i. locked ∷ [];
  unlocks = λ i. locked ∷ [];
  calls = bytewise;
  pid = 5;
  logs = log_files;
  stderr_set_works = true;
  stderr_restore_works = true;
}

abbrev pub mset_args : List Bytes
mset_args = mset_name ∷ (b'-' ∷ b'd' ∷ []) ∷ (b'a' ∷ []) ∷ (b'q' ∷ []) ∷ []

pub mset_args-Ready : (n : ℕ) → Ready no_code (outside n) mset_args
mset_args-Ready n p e =
    subst (λ q. Served (limited n) libc no_code (second_try, q))
      (ok-injective (sym asked-accepted ∙ e)) (asked-Served n)

abbrev fresh_one : Handle
fresh_one = record {
  ckey = asked.1;
  shards = asked.0.dirv;
  phrase = true;
  parser = parser_of small false;
  prefixes = [];
}

dispatch_refines_example :
    (c' : Cache) × IsSound small no_code c'
    × (dispatch (outside 4) mset_args true empty
        ≡ (answer (outside 4) mset_args true >>= λ a. ok (a, c')))
dispatch_refines_example =
    dispatch_refines (outside 4) no_code mset_args true empty empty-IsSound refl (mset_args-Ready 4)

dispatch-mset_example :
    (c' : Cache) × IsSound small no_code c'
    × (dispatch (outside 4) mset_args true empty ≡ ok (mset_answer (outside 4) asked one_hit, c'))
unfolding row_lines query_results has_threadid mail_mset same_bytes fresh_handle has_phrase
    srch_init_extra
dispatch-mset_example =
    dispatch-mset (outside 4) no_code ((b'-' ∷ b'd' ∷ []) ∷ (b'a' ∷ []) ∷ (b'q' ∷ []) ∷ []) true
      empty asked fresh_one one_hit [] [] empty-IsSound refl (mset_args-Ready 4) asked-accepted refl
      refl bytewise-Writes tt (inl (omega arith)) (omega arith)

pub mset_args-answer :
    (n : ℕ) (has_err : Bool)
    → answer (outside n) mset_args has_err ≡ ok (mset_answer (outside n) asked one_hit)
unfolding row_lines query_results has_threadid mail_mset same_bytes fresh_handle has_phrase
    srch_init_extra
mset_args-answer n has_err =
    answer-mset (outside n) ((b'-' ∷ b'd' ∷ []) ∷ (b'a' ∷ []) ∷ (b'q' ∷ []) ∷ []) has_err asked
      fresh_one one_hit [] [] asked-accepted refl refl bytewise-Writes tt (inl (omega arith))
      (omega arith)
