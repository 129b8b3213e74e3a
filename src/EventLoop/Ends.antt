-- ===== src/EventLoop/Ends.antt =====
-- What the signal bytes mean, and when the prefork loop ends.
use public_inbox.EventLoop.{sigp, control, Wrote, keep_going}
use public_inbox.Workers.Signals.{drop_all, drop_get}
use public_inbox.Base.{
  ◌==◌, if◌then◌else◌, Bool-cases, length, drop, All, get_elem?_lt, Run, ok, ℕ, zero, suc, ◌+◌, ◌≡◌,
  inl, inr, false, some, List, arith,
}
use public_inbox.Workers.{
  Pool, sigterm, sigusr1, sigttin, sigttou, sigother, count_living, read_pid, Signal,
  living_workers, do_sigttou, do_sigttin, parent_reopen_logs, System,
}

-- What the parent is to do for a signal that it handles.
abbrev pub handler : System → Signal → Pool → Run Pool
handler e sigttou p = do_sigttou p
handler e sigttin p = do_sigttin e p
handler e sigusr1 p = parent_reopen_logs e p
handler e _ p = ok p

-- A signal is either refused by its handler, with the process, or written as a byte for which the
-- prefork loop's switch runs that signal's own routine; only a full pipe drops it.
pub sigp-control :
    (e : System) (sig : Signal) (w : Wrote) (p : Pool) (c : ℕ)
    → sigp sig w ≡ ok (some c)
    → control e c p ≡ handler e sig p
unfolding sigp control
sigp-control e sigterm w p c h = cc
sigp-control e sigother w p c h = cc
sigp-control e sig w p c h = ground arith

-- Every recorded pid is 0.
abbrev pub NoneLeft : List ℕ → Type 0
NoneLeft = All (λ pid. pid ≡ 0)

count_living-zero :
    (n nr ret : ℕ) (p : Pool)
    → nr + n ≡ length p.pids
    → count_living n nr ret p ≡ ok 0
    → NoneLeft (drop nr p.pids) × (ret ≡ 0)
unfolding count_living read_pid
count_living-zero zero nr ret p h e = (rw (drop_all p.pids nr (omega arith)) tt, ground arith)
count_living-zero (suc n) nr ret p h e =
    let (v, a) = get_elem?_lt p.pids nr (omega arith) in
    let rest : NoneLeft (drop (nr + 1) p.pids) × ((if v == 0 then ret else ret + 1) ≡ 0) =
      count_living-zero n (nr + 1) (if v == 0 then ret else ret + 1) p (omega arith) (rw a at e) in
    rw (drop_get p.pids nr v a) ((ground arith, rest.0), ground arith)

living_workers-zero :
    (p : Pool) → length p.pids ≡ p.nworker_hwm → living_workers p ≡ ok 0 → NoneLeft p.pids
unfolding living_workers
living_workers-zero p h e = (count_living-zero p.nworker_hwm 0 0 p (omega arith) e).0

pub keep_going-false :
    (p : Pool)
    → length p.pids ≡ p.nworker_hwm
    → keep_going p ≡ ok false
    → (p.alive ≡ false) × NoneLeft p.pids
unfolding keep_going
keep_going-false p h e = elim (Bool-cases p.alive) [
  | inl a ↦ cc
  | inr a ↦ (a, living_workers-zero p h (ground arith))
]
