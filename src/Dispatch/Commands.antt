-- ===== src/Dispatch/Commands.antt =====
-- What dispatch sends for the command mset, from its arguments to the write calls.
use public_inbox.Dispatch.{
  Outside, Answer, dispatch, query_results, alarms_for, run_timed, run_command, current,
}
use public_inbox.Dispatch.Refine.{answer, Ready, dispatch_refines}
use public_inbox.Cache.{Cache, Handle}
use public_inbox.Cache.Budget.{IsSound}
use public_inbox.Cache.Refine.{fresh_handle}
use public_inbox.Options.{Parsed, parse_request, find_command, same_bytes}
use public_inbox.DumpRoots.{goes_on}
use public_inbox.Mset.{Results, mset_line}
use public_inbox.Mset.Sending.{Writes, IsFruitless, row_lines, cmd_mset_lem}
use public_inbox.Query.{Got, got}
use public_inbox.Base.{
  length, All, ◌>>=◌, ok, ◌+◌, ◌^◌, ◌<◌, ◌≡◌, ap, ◌∙◌, ◌⊎◌, Bool, true, some, List, [], ◌∷◌, ◌++◌,
  arith,
}
use public_inbox.Args.{Bytes}

-- "mset"
abbrev pub mset_name : Bytes
mset_name = 109 ∷ 115 ∷ 101 ∷ 116 ∷ []

-- The whole results, on the first stream, and an alarm that is taken back.
abbrev pub mset_answer : Outside → Parsed → Results → Answer
mset_answer o p r = record {
  flow = goes_on;
  reply = record {
    out = mset_line o.show r ++ row_lines o.show r.rows;
    err = [];
    returned = some true;
  };
  alarms = alarms_for p.0.timeout_sec goes_on;
}

pub answer-mset :
    (o : Outside) (args : List Bytes) (has_err : Bool) (p : Parsed) (h : Handle) (r : Results)
    (qs rest : List (Got Results))
    → parse_request o.libc (o.getopt (mset_name ∷ args)).0 ≡ ok p
    → fresh_handle o.world p ≡ ok h
    → query_results o current h p.0 0 (o.getopt (mset_name ∷ args)).1 ≡ qs ++ (got r ∷ rest)
    → Writes o.calls
    → All IsFruitless qs
    → (0 < length r.rows) ⊎ (rest ≡ [])
    → length (mset_line o.show r) + length (row_lines o.show r.rows) < 2 ^ 64
    → answer o (mset_name ∷ args) has_err ≡ ok (mset_answer o p r)
unfolding answer run_timed run_command find_command same_bytes
answer-mset o args has_err p h r qs rest a f q w z l n =
    ground (arith, a, f, q, cmd_mset_lem o.show o.calls o.threshold r qs rest w z l n)

-- For the command mset, where parse_request accepts the switches, the request is served, reopening
-- works and every write takes something: the results of the first query that has any, or of the last
-- one if none has, are written whole to the first stream, whatever handles are in the valid set,
-- which stays valid.
pub dispatch-mset :
    (o : Outside) (code : List (Bool × Bytes) → Bool) (args : List Bytes) (has_err : Bool)
    (c : Cache) (p : Parsed) (h : Handle) (r : Results) (qs rest : List (Got Results))
    → IsSound o.world code c
    → o.reopen_works ≡ true
    → Ready code o (mset_name ∷ args)
    → parse_request o.libc (o.getopt (mset_name ∷ args)).0 ≡ ok p
    → fresh_handle o.world p ≡ ok h
    → query_results o current h p.0 0 (o.getopt (mset_name ∷ args)).1 ≡ qs ++ (got r ∷ rest)
    → Writes o.calls
    → All IsFruitless qs
    → (0 < length r.rows) ⊎ (rest ≡ [])
    → length (mset_line o.show r) + length (row_lines o.show r.rows) < 2 ^ 64
    → (c' : Cache) × IsSound o.world code c'
      × (dispatch o (mset_name ∷ args) has_err c ≡ ok (mset_answer o p r, c'))
dispatch-mset o code args has_err c p h r qs rest v e y a f q w z l n =
    let (c', v', d) = dispatch_refines o code (mset_name ∷ args) has_err c v e y in
    let t = answer-mset o args has_err p h r qs rest a f q w z l n in
    (c', v', d ∙ ap (λ m. m >>= λ b. ok (b, c')) t)
