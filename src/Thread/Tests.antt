-- ===== src/Thread/Tests.antt =====
-- A result whose document changes once.
use public_inbox.Query.{term, either, threadid_column, got}
use public_inbox.Thread.{
  value, changed, Value, thread_query, thread_operator, Searcher, qry_xpand_col, xpand_loop,
  xpand_tries, xpand_col_iter,
}
use public_inbox.Thread.Expand.{settled, thread_operator-among, found_values, values, Selects}
use public_inbox.Query.Meaning.{Doc}
use public_inbox.Base.{◌==◌, if◌then◌else◌, ℕ, ◌≡◌, refl, true, false, none, some, [], ◌∷◌}

abbrev changing : ℕ → Value
changing rev = if rev == 0 then changed else value (b'5' ∷ [])

abbrev reply : Doc
reply = record {
  matches = λ s flags. false;
  has_term = λ t. false;
  column = λ c. 5;
  stored = λ c. b'5' ∷ [];
}

abbrev searcher : Searcher
searcher = record { parses = λ s. true; get_mset = λ q. got (changing ∷ []); reopens = λ rev. true }

-- The same with a database that cannot be reopened.
throws_run :
    thread_operator (record searcher { reopens = λ rev. false }) 7 (b'a' ∷ b'@' ∷ b'b' ∷ []) 0
    ≡ none
unfolding thread_operator thread_query qry_xpand_col xpand_loop xpand_tries xpand_col_iter
throws_run = refl

thread_operator-among_example :
    Selects threadid_column reply false
      (thread_operator searcher 7 (b'a' ∷ b'@' ∷ b'b' ∷ []) 0)
      (some ((b'5' ∷ []) ∷ []))
unfolding found_values values settled thread_query
thread_operator-among_example =
    thread_operator-among searcher 7 (b'a' ∷ b'@' ∷ b'b' ∷ []) 0
      (either (term (b'Q' ∷ b'a' ∷ b'@' ∷ b'b' ∷ []))
        (term (b'X' ∷ b'R' ∷ b'F' ∷ b'a' ∷ b'@' ∷ b'b' ∷ [])))
      reply refl
