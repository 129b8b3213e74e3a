-- ===== src/Lib.antt =====
-- The search helper of public-inbox: the process that answers Xapian queries for the Perl code. It
-- is lib/PublicInbox/xap_helper.h with the headers that it includes (lib/PublicInbox/xh_cidx.h,
-- xh_mset.h, xh_date.h, xh_thread_fp.h), and beside it the libgit2 code that Perl loads by
-- Inline::C (lib/PublicInbox/lg2.h and lg2_cfg.h).
--
-- A parent process keeps a pool of workers. Its signal handler writes a byte to a pipe, and its
-- loop reads the bytes, reaps workers, starts new ones, and grows or shrinks the pool. A worker
-- receives a request as one packet with file descriptors, cuts it into arguments, parses the
-- switches, finds or opens the search handle that they name, builds a query, and writes the
-- results. The parts and their files:
--
--   * Args: split2argv, which cuts a request.
--   * Options: the command table and the switches of dispatch, with the key of the handle.
--   * Cache: the handles of all requests so far (srch_init, is_chert, srch_cache_renew,
--     srch_init_extra, and the lookup of dispatch), and the limit on the descriptors that they hold;
--     Cache/Refine compares it with a process without a cache.
--   * Memory: the same handles as objects at addresses (srch_free, srch_cache_renew, srch_init, the lookup
--     and dispatch), with the locks around opening and reopening, and cleanup_pids and cleanup_all, which
--     run at the end; Memory/Answers compares it with Dispatch.
--   * Temps: the file, mapping, table, array and buffer of cmd_dump_roots with dump_roots_ensure, fbuf_init,
--     fbuf_ensure, off2size, xcalloc and req_cleanup; Temps/GivesBack compares it with DumpRoots.
--   * Heap: live objects at addresses, commands with a state, and Follows, which compares a command with
--     a function that has no memory.
--   * Locks: lock_shared_maybe and unlock_ensure, around the opening of a database.
--   * Query: the queries of mail_mset and commit_mset, prep_enquire and enquire_mset.
--   * Thread: xpand_col_iter, qry_xpand_col and ThreadFieldProcessor, the thread: operator.
--   * Date: to_column_fmt and the range and field processors of xh_date.h.
--   * Prefix, Terms, RootIds: term_length_extract, the term scans of dump_ibx_term and
--     dump_roots_term, and the table of root commit ids with root2offs_str, of xh_cidx.h.
--   * Mset, Output: cmd_mset of xh_mset.h, and write_all.
--   * DumpIbx, DumpRoots: cmd_dump_ibx and cmd_dump_roots of xh_cidx.h, with their iterations over
--     documents, retries and flushes, and emit_mset_stats.
--   * Dispatch: dispatch, which ties Options, Cache and the commands together, with its alarm, and
--     the commands for tests; Dispatch/Refine has its specification without a cache (answer). What
--     Xapian answers depends on whether a handle's databases were reopened for the request (Sight).
--   * Receive: sigw, recv_req, recv_once and recv_loop, the worker's side of a request, with
--     dispatch inside.
--   * Stderr: stderr_set, stderr_restore and reopen_logs, which Workers, EventLoop and Receive call;
--     Stderr/Logs says when it returns.
--   * Workers: the pool (start_workers, reaped_prefork_worker, do_sigttin, do_sigttou and so on).
--   * EventLoop: sigp, prefork_loop and dynfork_loop.
--   * Main: main with its switches and signal masks, which calls one of the three loops.
--   * Child: the children of start_worker and dynfork_dispatch, and what signals do where.
--   * Lg2, Config: lg2.h and cfgwr_commit of lg2_cfg.h, with what its entries mean in Config/Entries; Lg2/Odb has the memory of the handles and objects
--     that libgit2 gives out.
--   * Base: lists, numbers, and Run, which says how a C function can end.
--
-- The static variables of a part are a record, and a function that changes them takes the record
-- and returns it. What the system or a library returns (fork, read, waitpid, write, flock, get_mset
-- and so on) is a parameter: a list of results in order, or a function of the number of the call
-- or of the database's revision. A loop that waits for such a result is a recursion on that list,
-- so it needs no fuel; at the end of the list it waits, and the value says so. A loop over an array
-- has its number of rounds as an argument, and the bounded retries (10 for a document or a result
-- set, 9 for the roots, 2 for opening) are the source's. Reads and writes outside worker_pids and
-- outside the string of a commit id are `stop faults`, and calls of abort, errx and exit are
-- `stop aborts` and `stop (exits code)`. Numbers that can wrap are written with their modulus.
--
-- What one request sees of the outside is a record of Dispatch (Outside), and a worker has one for
-- each request in turn, so that databases, files and the results of calls may differ between them.
--
-- Not modelled: the code of the query parsers' prefixes, which a Perl module generates; diagnostics
-- on stderr; failing allocations, which end the process, except in do_sigttin; what only wraps calls
-- of libc; khashl.h and approxidate.h, which are copies of
-- other projects' code; and the Perl code. Exceptions of Xapian are results of its calls. Memory has
-- an address for every object and gives none twice, so that a use after the end of an object shows;
-- the memory of the commands' strings, and of C++ objects on the stack, is left out. The buffer of one
-- document's root numbers is not tied to the tries of DumpRoots.
pub mod Base
pub mod Args
pub mod Workers
pub mod EventLoop
pub mod Output
pub mod Terms
pub mod Prefix
pub mod RootIds
pub mod Options
pub mod Locks
pub mod Lg2
pub mod Date
pub mod Config
pub mod Query
pub mod Thread
pub mod Cache
pub mod Mset
pub mod Receive
pub mod DumpIbx
pub mod DumpRoots
pub mod Dispatch
pub mod Heap
pub mod Temps
pub mod Main
pub mod Memory
pub mod Child
pub mod Stderr
