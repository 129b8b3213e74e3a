-- ===== src/Lg2/Odb.antt =====
-- The rest of lib/PublicInbox/lg2.h: croak_if_err, new, odb_ptr, DESTROY and add_alternate, and cat_oid
-- with the object that it reads and frees. libgit2's calls are parameters; what they allocate is live
-- until it is freed.
use public_inbox.Heap.{Live, lookup, remove, put, done, blocked, Cmd, pure, ◌>>=◌, ◌>>◌, or_invalid}
use public_inbox.Lg2.{
  thrown_out, Object, Writev, finished, croaked, waiting, my_oid_fromstrn, make_vec, writev_loop,
  Ended,
}
use public_inbox.Args.{Bytes}
use public_inbox.Options.{eq_ℤ}
use public_inbox.Config.{git_ok}
use public_inbox.Base.{
  if◌then◌else◌, length, ℤ, Run, ok, stop, ℕ, ◌+◌, Bool, true, false, Option, none, some, List, [],
  ◌∷◌, ◌++◌,
}

-- What libgit2 has given out: databases with their alternates, and objects.
pub record Library : Type 0 where
  pub next : ℕ
  pub odbs : Live (List Bytes)
  pub objects : Live Object

-- The return codes of git_odb_new and git_odb_add_disk_alternate, the message of giterr_last, what
-- git_odb_read and its kin find with some alternates, how "%zu" prints, and whether the build has
-- LG2_EXPERIMENTAL.
pub record LibGit : Type 0 where
  pub odb_new : ℤ
  pub add_disk_alternate : List Bytes → Bytes → ℤ
  pub giterr_last : Option Bytes
  pub odb_read : List Bytes → Bytes → Option Object
  pub zu : ℕ → Bytes
  pub experimental : Bool

-- Why a call croaks: with a return code, what it was for and a message; or from cat_oid,
-- where it may be a signal handler that dies.
pub data Why : Type 0 where
  git_error : ℤ → Bytes → Bytes → Why
  bad_length snprintf_error writev_error signal_handler : Why

-- What Perl gets.
pub data Perl (A : Type 0) : Type 0 where
  gave : A → Perl A
  died : Why → Perl A

-- "unknown", "git_odb_new" and "git_odb_add_disk_alternate"
abbrev pub unknown : Bytes
unknown = 117 ∷ 110 ∷ 107 ∷ 110 ∷ 111 ∷ 119 ∷ 110 ∷ []

abbrev pub odb_new_name : Bytes
odb_new_name = 103 ∷ 105 ∷ 116 ∷ 95 ∷ 111 ∷ 100 ∷ 98 ∷ 95 ∷ 110 ∷ 101 ∷ 119 ∷ []

abbrev pub alternate_name : Bytes
alternate_name =
    103 ∷ 105 ∷ 116 ∷ 95 ∷ 111 ∷ 100 ∷ 98 ∷ 95 ∷ 97 ∷ 100 ∷ 100 ∷ 95 ∷ 100 ∷ 105 ∷ 115 ∷ 107 ∷ 95
    ∷ 97 ∷ 108 ∷ 116 ∷ 101 ∷ 114 ∷ 110 ∷ 97 ∷ 116 ∷ 101 ∷ []

-- `rc != GIT_OK`: the reason to croak.
unfoldable pub croak_if_err : LibGit → ℤ → Bytes → Option Why
croak_if_err g rc msg =
    if eq_ℤ rc git_ok
    then none
    else some (git_error rc msg (elim g.giterr_last [ none ↦ unknown | some message ↦ message ]))

-- The read-only integer behind the reference that Perl has.
pub record Self : Type 0 where
  pub iv : ℕ

abbrev pub odb_ptr : Self → ℕ
odb_ptr self = self.iv

unfoldable pub new : LibGit → Cmd Library (Perl Self)
unfolding croak_if_err
new g s = elim (croak_if_err g g.odb_new odb_new_name) [
  | some why ↦ done (died why) s
  | none ↦
      done (gave (record { iv = s.next }))
        (record s { next = s.next + 1; odbs = (s.next, []) ∷ s.odbs })
]

unfoldable pub destroy : Self → Cmd Library (Unit {0})
destroy self = do
  l ← λ s. or_invalid (remove (odb_ptr self) s.odbs) s
  λ s. done tt (record s { odbs = l })

unfoldable pub add_alternate : LibGit → Self → Bytes → Cmd Library (Perl (Unit {0}))
unfolding croak_if_err
add_alternate g self path = do
  alternates ← λ s. or_invalid (lookup (odb_ptr self) s.odbs) s
  elim (croak_if_err g (g.add_disk_alternate alternates path) alternate_name) [
    | some why ↦ pure (died why)
    | none ↦ λ s.
        done (gave tt) (record s { odbs = put (odb_ptr self) (alternates ++ (path ∷ [])) s.odbs })
  ]

unfoldable pub free_object : ℕ → Cmd Library (Unit {0})
free_object p = do
  l ← λ s. or_invalid (remove p s.objects) s
  λ s. done tt (record s { objects = l })

-- The loop of writev has ended, or has not. A signal handler that dies leaves cat_oid at once, and the
-- object is not freed.
unfoldable pub after_writev : ℕ → Ended × Bytes → Cmd Library (Perl (Bool × Bytes))
unfolding free_object
after_writev p (waiting, out) = λ s. blocked
after_writev p (finished, out) = free_object p >> pure (gave (true, out))
after_writev p (thrown_out, out) = pure (died signal_handler)
after_writev p (croaked, out) = free_object p >> pure (died writev_error)

-- The header fits or does not.
unfoldable pub cat_sends : List Writev → ℕ → Run (List Bytes) → Cmd Library (Perl (Bool × Bytes))
unfolding free_object after_writev
cat_sends rs p (stop why) = free_object p >> pure (died snprintf_error)
cat_sends rs p (ok vec) = after_writev p (writev_loop vec rs [])

-- The object is there or is not.
unfoldable pub cat_found :
    LibGit → List Writev → ℕ → Option Object → Cmd Library (Perl (Bool × Bytes))
unfolding cat_sends
cat_found g rs full_oidlen none = pure (gave (false, []))
cat_found g rs full_oidlen (some o) = do
  p ← λ s. done s.next (record s { next = s.next + 1; objects = (s.next, o) ∷ s.objects })
  cat_sends rs p (make_vec g.zu g.experimental full_oidlen o)

-- The name has a supported length or has not.
unfoldable pub cat_named :
    LibGit → List Bytes → Bytes → List Writev → Option ℕ → Cmd Library (Perl (Bool × Bytes))
unfolding cat_found
cat_named g alternates oid rs none = pure (died bad_length)
cat_named g alternates oid rs (some full_oidlen) =
    cat_found g rs full_oidlen (g.odb_read alternates oid)

-- cat_oid: whether the object was there, and what was written.
unfoldable pub cat_oid_live :
    LibGit → Self → Bytes → List Writev → Cmd Library (Perl (Bool × Bytes))
unfolding cat_named
cat_oid_live g self oid rs = do
  alternates ← λ s. or_invalid (lookup (odb_ptr self) s.odbs) s
  cat_named g alternates oid rs (my_oid_fromstrn g.experimental (length oid))

-- What Perl calls, any of which may croak and be caught.
pub data Call : Type 0 where
  adds : Bytes → Call
  cats : Bytes → List Writev → Call

pub data Result : Type 0 where
  added : Perl (Unit {0}) → Result
  sent : Perl (Bool × Bytes) → Result

unfoldable pub call : LibGit → Self → Call → Cmd Library Result
call g self (adds path) = add_alternate g self path >>= λ r. pure (added r)
call g self (cats oid rs) = cat_oid_live g self oid rs >>= λ r. pure (sent r)

unfoldable pub calls : LibGit → Self → List Call → Cmd Library (List Result)
unfolding call
calls g self [] = pure []
calls g self (c ∷ cs) = do r ← call g self c; rs ← calls g self cs; pure (r ∷ rs)

-- new, the calls, and DESTROY when Perl drops the reference.
unfoldable pub session : LibGit → List Call → Cmd Library (Perl (List Result))
unfolding calls
session g cs = new g >>= λ made. elim made [
  | died why ↦ pure (died why)
  | gave self ↦ do rs ← calls g self cs; destroy self; pure (gave rs)
]
