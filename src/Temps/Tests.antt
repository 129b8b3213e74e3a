-- ===== src/Temps/Tests.antt =====
-- A file of one commit id, for which a query gives one commit.
use public_inbox.Temps.{System, Store}
use public_inbox.Heap.Follows.{Follows}
use public_inbox.Args.{Bytes}
use public_inbox.Temps.Balance.{AnyStore, given_back}
use public_inbox.DumpRoots.{cmd_dump_roots}
use public_inbox.DumpRoots.Tests.{roots_env}
use public_inbox.DumpIbx.Tests.{by_q}
use public_inbox.Temps.Roots.{serve_roots}
use public_inbox.Temps.GivesBack.{serve_roots-given_back}
use public_inbox.Base.{length, ◌^◌, ◌<◌, refl, subst, true, Option, none, some, [], ◌∷◌, arith}

abbrev plenty : System
plenty = record { fd = 9; calloc_works = λ n size. true; fclose_works = true }

abbrev before : Store
before = record {
  next = 1;
  fds = 3 ∷ [];
  maps = [];
  arrays = [];
  lenvs = [];
  tables = [];
  streams = [];
  buffers = [];
  cur_req = true;
}

abbrev text_of : Option Bytes → Bytes
text_of none = []
text_of (some c) = c

serve_roots-given_back_example :
    Follows AnyStore
      (given_back before)
      (cmd_dump_roots roots_env by_q ((b'f' ∷ []) ∷ (b'q' ∷ []) ∷ []))
      (serve_roots plenty roots_env by_q ((b'f' ∷ []) ∷ (b'q' ∷ []) ∷ []) before)
serve_roots-given_back_example =
    serve_roots-given_back plenty roots_env by_q refl (λ n size. refl) (omega arith)
      (λ name c e. subst (λ o. length (text_of o) < 2 ^ 63) e (omega arith))
      ((b'f' ∷ []) ∷ (b'q' ∷ []) ∷ []) before
