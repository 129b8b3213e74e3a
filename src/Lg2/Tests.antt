-- ===== src/Lg2/Tests.antt =====
-- An empty blob, written in two calls.
use public_inbox.Lg2.{
  advance, handler_dies, wrote, eagain, eintr, finished, Writev, Object, my_oid_fromstrn, Ended,
  cat_oid, make_vec, writev_loop,
}
use public_inbox.Lg2.Vectors.{batch, cat_oid-batch}
use public_inbox.Lg2.Odb.{
  cat_oid_live, cat_named, cat_found, cat_sends, after_writev, died, signal_handler, adds, cats,
  Perl, LibGit, Library, Call, Result, session,
}
use public_inbox.Heap.{lookup, Live, done, blocked}
use public_inbox.Config.{git_ok}
use public_inbox.Lg2.Sessions.{session-Kept, AnyHangs, AnyDies}
use public_inbox.Base.{
  replicate, ok, ℕ, ◌+◌, ◌≡◌, refl, ◌≢◌, ◌⊎◌, true, none, some, List, [], ◌∷◌, ◌++◌, arith,
}
use public_inbox.Args.{Bytes}

-- Prints one-digit numbers, which is enough here.
abbrev zu : ℕ → Bytes
zu n = (48 + n) ∷ []

abbrev blob : Object
blob = record { hex = replicate 40 97; kind = 98 ∷ 108 ∷ 111 ∷ 98 ∷ []; contents = [] }

abbrev calls : List Writev
calls = eintr ∷ wrote 41 ∷ eagain ∷ wrote 8 ∷ []

cat_oid-batch_example :
    (e : Ended) × (out rest : Bytes) × (cat_oid zu true (replicate 40 97) (λ _. some blob) calls
      ≡ ok (true, e, out))
    × (out ++ rest ≡ batch zu blob)
    × ((e ≢ finished) ⊎ (rest ≡ []))
unfolding my_oid_fromstrn
cat_oid-batch_example =
    cat_oid-batch zu true (replicate 40 97) (λ _. some blob) calls 40 blob refl refl (omega arith)

abbrev library : LibGit
library = record {
  odb_new = git_ok;
  add_disk_alternate = λ alternates path. git_ok;
  giterr_last = none;
  odb_read = λ alternates oid. some blob;
  zu = zu;
  experimental = true;
}

abbrev nothing_live : Library
nothing_live = record { next = 1; odbs = []; objects = [] }

abbrev two_calls : List Call
two_calls = adds (b'p' ∷ []) ∷ cats (replicate 40 97) calls ∷ []

session-Kept_example :
    ((r : Perl (List Result)) × (n : ℕ) × (lost : Live Object) × (session library two_calls
          nothing_live
        ≡ done r (record nothing_live { next = n; objects = lost ++ [] }))
      × ((lost ≡ []) ⊎ AnyDies two_calls))
    ⊎ ((session library two_calls nothing_live ≡ blocked) × AnyHangs two_calls)
session-Kept_example = session-Kept library two_calls nothing_live

-- After one byte SIGALRM's handler dies, and the object stays.
lost_run :
    cat_oid_live library
      (record { iv = 1 })
      (replicate 40 97)
      (wrote 1 ∷ handler_dies ∷ [])
      (record { next = 2; odbs = (1, []) ∷ []; objects = [] })
    ≡ done
        (died signal_handler)
        (record { next = 3; odbs = (1, []) ∷ []; objects = (2, blob) ∷ [] })
unfolding cat_oid_live cat_named cat_found cat_sends after_writev my_oid_fromstrn make_vec
    writev_loop lookup advance
lost_run = refl
