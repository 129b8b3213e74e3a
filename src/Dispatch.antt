-- ===== src/Dispatch.antt =====
-- dispatch of lib/PublicInbox/xap_helper.h, whole: the command is looked up, the switches are
-- parsed, the search handle is found or opened, and the command runs under an alarm, where its
-- exceptions are caught. Also has_threadid and the two commands for tests. Options, Cache, Query,
-- Mset, DumpIbx and DumpRoots have the parts.
pub mod Refine
pub mod Commands
pub mod Tests
use public_inbox.Options.{
  mset_cmd, dump_ibx_cmd, dump_roots_cmd, test_inspect_cmd, test_sleep_cmd, Libc, Parsed, Command,
  Req, find_command, Switch, same_bytes, parse_request,
}
use public_inbox.DumpRoots.{goes_on, returns_false, raises, waits, Flow, cmd_dump_roots}
use public_inbox.Cache.{Handle, Cache, find_key, World, new_handle, find_handle, Opening}
use public_inbox.DumpIbx.{Reply, DumpEnv, DocRef, cmd_dump_ibx}
use public_inbox.Query.{Got, commit_mset, mail_mset, Enquiry, Database, Postings}
use public_inbox.Mset.{cmd_mset, Results, Calls}
use public_inbox.Terms.{Skip}
use public_inbox.Locks.{Flock}
use public_inbox.Stderr.{LogFiles}
use public_inbox.Base.{
  ltb, ◌==◌, if◌then◌else◌, Run, ◌>>=◌, aborts, faults, ok, stop, ℕ, ◌+◌, ◌-◌, ◌^◌, Bool, true,
  false, Option, none, some, List, [], ◌∷◌, ◌++◌,
}
use public_inbox.Args.{Bytes}

-- What a handle's databases are seen as: as they were when they were last opened or reopened for an
-- earlier request, or as they are now.
pub data Sight : Type 0 where
  as_left current : Sight

-- All that is outside, at one request: libc with getopt, which gives the switches and the arguments
-- from argv[optind] on; the process's world; whether databases open, and whether one that is open
-- already can be reopened; Xapian's answers for a handle, by how it sees its databases (those of cmd_mset for its i-th query), the
-- metadata "has_threadid" and the flags of its parser; files, flock and write; the process
-- id; the logs that reopen_logs opens; and whether
-- stderr_set and stderr_restore return (see Stderr).
pub record Outside : Type 0 where
  pub libc : Libc
  pub getopt : List Bytes → List Switch × List Bytes
  pub world : World
  pub opens : Opening
  pub reopen_works : Bool
  pub show : ℕ → Bytes
  pub threshold : ℕ
  pub skip_to : Skip
  pub results : Sight → Handle → ℕ → Enquiry → Database Results
  pub documents : Sight → Handle → Enquiry → Database (List DocRef)
  pub postings : Sight → Handle → Postings
  pub reopens : ℕ → Bool
  pub metadata : Sight → Handle → Bytes
  pub qp_flags : Bool → ℕ
  pub file : Bytes → Option Bytes
  pub locks : ℕ → List Flock
  pub unlocks : ℕ → List Flock
  pub calls : Calls
  pub pid : ℕ
  pub logs : LogFiles
  pub stderr_set_works : Bool
  pub stderr_restore_works : Bool

-- get_metadata("has_threadid") == "1"
unfoldable pub has_threadid : Outside → Sight → Handle → Bool
has_threadid o see h = same_bytes (o.metadata see h) (b'1' ∷ [])

-- What each of the queries gives, from the i-th on.
unfoldable pub query_results : Outside → Sight → Handle → Req → ℕ → List Bytes → List (Got Results)
unfolding has_threadid
query_results o see h req i [] = []
query_results o see h req i (q ∷ qs) =
    (if req.code_search
      then commit_mset (o.results see h i) (o.postings see h) req (o.qp_flags h.phrase) q 0
      else mail_mset (o.results see h i) (has_threadid o see h) req (o.qp_flags h.phrase) q 0)
    ∷ query_results o see h req (i + 1) qs

unfoldable pub dump_env : Outside → Sight → Handle → Bool → DumpEnv DocRef
dump_env o see h has_err = record {
  show = o.show;
  strtoull = o.libc.strtoull;
  skip_to = o.skip_to;
  answers = o.documents see h;
  reopens = o.reopens;
  has_threadid = has_threadid o see h;
  qp_flags = o.qp_flags h.phrase;
  has_err = has_err;
}

-- A command's end: what cmd_mset and cmd_dump_ibx give, as a flow and a reply.
abbrev pub flow_of : Option Bool → Flow
flow_of none = raises
flow_of (some true) = goes_on
flow_of (some false) = returns_false

abbrev pub mset_reply : Option (Option Bool × Bytes) → Flow × Reply
mset_reply none = (raises, record { out = []; err = []; returned = none })
mset_reply (some (none, out)) = (waits, record { out = out; err = []; returned = none })
mset_reply (some (some b, out)) =
    (flow_of (some b), record { out = out; err = []; returned = some b })

-- "pid=" and " has_threadid="
abbrev pub inspect_pid : Bytes
inspect_pid = b'p' ∷ b'i' ∷ b'd' ∷ b'=' ∷ []

abbrev pub inspect_threadid : Bytes
inspect_threadid = 32 ∷ 104 ∷ 97 ∷ 115 ∷ 95 ∷ 116 ∷ 104 ∷ 114 ∷ 101 ∷ 97 ∷ 100 ∷ 105 ∷ 100 ∷ 61 ∷ []

-- cmd_test_inspect: the exception that it throws is caught, and inspect_ensure has written.
unfoldable pub cmd_test_inspect : Outside → Sight → Handle → Reply
cmd_test_inspect o see h = record {
  out =
      inspect_pid
      ++ (o.show o.pid
          ++ (inspect_threadid ++ ((if has_threadid o see h then b'1' else b'0') ∷ [])));
  err = [];
  returned = some true;
}

-- `req->fn(req)`, on the arguments from argv[optind] on; cmd_test_sleep polls for ever.
unfoldable pub run_command :
    Outside → Sight → Command → Handle → Req → List Bytes → Bool → Run (Flow × Reply)
unfolding query_results dump_env cmd_test_inspect
run_command o see mset_cmd h req args has_err =
    cmd_mset o.show o.calls o.threshold (query_results o see h req 0 args) >>= λ r.
    ok (mset_reply r)
run_command o see dump_ibx_cmd h req args has_err =
    cmd_dump_ibx (dump_env o see h has_err) req args >>= λ r. ok (flow_of r.returned, r)
run_command o see dump_roots_cmd h req args has_err =
    cmd_dump_roots
      (record {
        env = dump_env o see h has_err;
        file = o.file;
        postings = o.postings see h;
        locks = o.locks;
        unlocks = o.unlocks;
        calls = o.calls;
      })
      req args
run_command o see test_inspect_cmd h req args has_err = ok (goes_on, cmd_test_inspect o see h)
run_command o see test_sleep_cmd h req args has_err =
    ok (waits, record { out = []; err = []; returned = none })

-- What a request ends with, and the calls of alarm(2).
pub record Answer : Type 0 where
  pub flow : Flow
  pub reply : Reply
  pub alarms : List ℕ

-- `alarm(req->timeout_sec > UINT_MAX ? UINT_MAX : ...)` before the command and `alarm(0)` after it.
unfoldable pub alarms_for : ℕ → Flow → List ℕ
alarms_for timeout_sec flow = elim (timeout_sec == 0) [
  | true ↦ []
  | false ↦
      let first = if ltb (2 ^ 32 - 1) timeout_sec then 2 ^ 32 - 1 else timeout_sec in
      elim flow [
        | waits ↦ first ∷ []
        | goes_on ↦ first ∷ 0 ∷ []
        | returns_false ↦ first ∷ 0 ∷ []
        | raises ↦ first ∷ 0 ∷ []
      ]
]

-- The table `cmds`.
abbrev pub cmds : List (Bytes × Command)
cmds =
    (109 ∷ 115 ∷ 101 ∷ 116 ∷ [], mset_cmd)
    ∷ (100 ∷ 117 ∷ 109 ∷ 112 ∷ 95 ∷ 105 ∷ 98 ∷ 120 ∷ [], dump_ibx_cmd)
    ∷ (100 ∷ 117 ∷ 109 ∷ 112 ∷ 95 ∷ 114 ∷ 111 ∷ 111 ∷ 116 ∷ 115 ∷ [], dump_roots_cmd)
    ∷ (116 ∷ 101 ∷ 115 ∷ 116 ∷ 95 ∷ 105 ∷ 110 ∷ 115 ∷ 112 ∷ 101 ∷ 99 ∷ 116 ∷ [], test_inspect_cmd)
    ∷ (116 ∷ 101 ∷ 115 ∷ 116 ∷ 95 ∷ 115 ∷ 108 ∷ 101 ∷ 101 ∷ 112 ∷ [], test_sleep_cmd)
    ∷ []

-- `srch->db->reopen()` on databases that are seen in some way. An exception ends the process.
unfoldable pub reopen_db : Outside → Sight → Run Sight
reopen_db o see = if o.reopen_works then ok current else stop aborts

-- A handle that is in the set is reopened; one that is not is opened, after which it sees its databases
-- as they are.
unfoldable pub reopen_cached : Outside → Parsed → Cache → Run Sight
unfolding reopen_db
reopen_cached o (req, ckey) c = elim (find_key (new_handle ckey) c.handles) [
  | none ↦ ok current
  | some h ↦ reopen_db o as_left
]

-- The command under its alarm.
unfoldable pub run_timed : Outside → Sight → Command → Handle → Req → List Bytes → Bool → Run Answer
unfolding run_command alarms_for
run_timed o see cmd h req args has_err = run_command o see cmd h req args has_err >>= λ r.
    ok (record { flow = r.0; reply = r.1; alarms = alarms_for req.timeout_sec r.0 })

-- dispatch, on the arguments of a request and whether it has a second stream.
unfoldable pub dispatch : Outside → List Bytes → Bool → Cache → Run (Answer × Cache)
unfolding reopen_cached run_timed
dispatch o [] has_err c = stop faults
dispatch o (name ∷ args) has_err c = elim (find_command cmds name) [
  | none ↦ stop aborts
  | some cmd ↦
      let (switches, rest) = o.getopt (name ∷ args) in
      parse_request o.libc switches >>= λ p. reopen_cached o p c >>= λ see.
      find_handle o.world o.opens p c >>= λ f.
      run_timed o see cmd f.0 p.0 rest has_err >>= λ a. ok (a, f.1)
]
