-- ===== src/Workers/Resize.antt =====
-- do_sigttin, do_sigttou and parent_reopen_logs: growing, shrinking and signalling the pool.
use public_inbox.Workers.Reap.{IsValid, Holds}
use public_inbox.Workers.Spawn.{Forks, start_workers_steps, Full, lt_of_get_elem?}
use public_inbox.Base.{
  ltb, ◌==◌, if◌then◌else◌, length, get_elem?, set, length-set, get_elem?-set_ne, get_elem?_lt,
  get_elem?_le, faults, ok, stop, ℕ, zero, suc, ◌+◌, ◌≤◌, ◌<◌, ◌≡◌, refl, sym, ap, ◌∙◌, ◌≢◌, true,
  some, List, [], ◌∷◌, arith, dec_lt,
}
use public_inbox.Workers.{
  Pool, living_workers, do_sigttin, resize, count_living, System, read_pid, add_slot, worker_max,
  start_workers,
}

pub length-resize : (j n : ℕ) (xs : List ℕ) → length (resize j n xs) ≡ n
unfolding resize
length-resize j zero xs = refl
length-resize j (suc n) [] = ap suc (length-resize j n [])
length-resize j (suc n) (x ∷ xs) = ap suc (length-resize j n xs)

pub get_elem?-resize :
    (j n : ℕ) (xs : List ℕ) (i v : ℕ)
    → get_elem? xs i ≡ some v
    → i < n
    → get_elem? (resize j n xs) i ≡ some v
unfolding resize
get_elem?-resize j zero xs i v e l = absurd (omega arith)
get_elem?-resize j (suc n) [] i v e l = cc
get_elem?-resize j (suc n) (x ∷ xs) zero v e l = e
get_elem?-resize j (suc n) (x ∷ xs) (suc i) v e l = get_elem?-resize j n xs i v e (omega arith)

-- The pool with one more, free slot, in an array of exactly that length.
abbrev slotted : System → Pool → Pool
slotted e p = record p {
  pids = set (resize e.junk (p.nworker + 1) p.pids) p.nworker 0;
  nworker = p.nworker + 1;
  nworker_hwm = if ltb p.nworker_hwm (p.nworker + 1) then p.nworker + 1 else p.nworker_hwm;
}

length-slotted : (e : System) (p : Pool) → length (slotted e p).pids ≡ p.nworker + 1
length-slotted e p =
    length-set (resize e.junk (p.nworker + 1) p.pids) p.nworker 0
    ∙ length-resize e.junk (p.nworker + 1) p.pids

do_sigttin-eq :
    (e : System) (p : Pool)
    → p.alive ≡ true
    → p.nworker < worker_max
    → e.realloc (p.nworker + 1) ≡ true
    → do_sigttin e p ≡ start_workers e (slotted e p)
unfolding do_sigttin add_slot
do_sigttin-eq e p a b r = ground (arith, length-resize e.junk (p.nworker + 1) p.pids)

slotted-keeps :
    (e : System) (p : Pool) (i v : ℕ) → i < p.nworker → Holds p i v → Holds (slotted e p) i v
slotted-keeps e p i v l h =
    rw
      (get_elem?-set_ne (resize e.junk (p.nworker + 1) p.pids) 0
        (λ (s : p.nworker ≡ i). omega arith))
      (get_elem?-resize e.junk (p.nworker + 1) p.pids i v h (omega arith))

pub do_sigttin_steps :
    (e : System) (p : Pool)
    → IsValid p
    → p.nworker ≡ p.nworker_hwm
    → p.alive ≡ true
    → p.nworker < worker_max
    → e.realloc (p.nworker + 1) ≡ true
    → (q : Pool) × (do_sigttin e p ≡ ok q)
      × IsValid q
      × (q.nworker ≡ p.nworker + 1)
      × (q.nworker ≡ q.nworker_hwm)
      × (q.alive ≡ true)
      × (q.signals ≡ p.signals)
      × ((i v : ℕ) → Holds p i v → v ≢ 0 → Holds q i v)
      × (Forks e → Full q)
do_sigttin_steps e p v peak a b r =
    let (q, s, k, all) = start_workers_steps e (slotted e p) (omega (arith, length-slotted e p)) in
    let hwm : (slotted e p).nworker_hwm ≡ p.nworker + 1 = ground arith in
    (
      q,
      do_sigttin-eq e p a b r ∙ s,
      record {
        sized = k.sized ∙ length-slotted e p ∙ sym hwm ∙ sym k.nworker_hwm;
        within = omega (arith, k.nworker, k.nworker_hwm, hwm);
        bounded = omega (arith, k.nworker_hwm, hwm);
      },
      k.nworker,
      omega (arith, k.nworker, k.nworker_hwm, hwm),
      k.alive ∙ a,
      k.signals,
      λ i w h nz.
          k.busy i w
            (slotted-keeps e p i w (omega (arith, lt_of_get_elem? p.pids i w h, v.sized)) h) nz,
      all,
    )

-- SIGTTIN to a living pool that has not shrunk, with memory at hand, forks that
-- succeed and nworker below WORKER_MAX: one
-- worker more, the pool stays valid and unshrunk, every worker stays in its slot, nobody is
-- signalled, and every slot below nworker is filled.
pub do_sigttin-grows :
    (e : System) (p : Pool)
    → Forks e
    → IsValid p
    → p.nworker ≡ p.nworker_hwm
    → p.alive ≡ true
    → p.nworker < worker_max
    → e.realloc (p.nworker + 1) ≡ true
    → (q : Pool) × (do_sigttin e p ≡ ok q)
      × IsValid q
      × (q.nworker ≡ p.nworker + 1)
      × (q.nworker ≡ q.nworker_hwm)
      × (q.alive ≡ true)
      × (q.signals ≡ p.signals)
      × ((i v : ℕ) → Holds p i v → v ≢ 0 → Holds q i v)
      × Full q
do_sigttin-grows e p fs v peak a b r =
    let (q, s, w, n, peak', a', sent, keeps, all) = do_sigttin_steps e p v peak a b r in
    (q, s, w, n, peak', a', sent, keeps, all fs)

-- A loop that runs past the end of the array reads outside it.
count_living_faults :
    (n nr ret : ℕ) (p : Pool)
    → nr ≤ length p.pids
    → length p.pids < nr + n
    → count_living n nr ret p ≡ stop faults
unfolding count_living read_pid
count_living_faults zero nr ret p h l = absurd (omega arith)
count_living_faults (suc n) nr ret p h l = elim (dec_lt nr (length p.pids)) [
  | yes m ↦
      let (v, a) = get_elem?_lt p.pids nr m in
      rw a (
        count_living_faults n (nr + 1) (if v == 0 then ret else ret + 1) p (omega arith)
          (omega arith))
  | no m ↦ rw (get_elem?_le p.pids nr (omega arith))
]

-- SIGTTIN to a living, valid pool that has shrunk by two workers or more, with memory at hand:
-- realloc cuts the array below nworker_hwm, and the next count of the living workers reads
-- outside it.
pub do_sigttin-overruns :
    (e : System) (p : Pool)
    → IsValid p
    → p.nworker + 1 < p.nworker_hwm
    → p.alive ≡ true
    → e.realloc (p.nworker + 1) ≡ true
    → (q : Pool) × (do_sigttin e p ≡ ok q)
      × (length q.pids < q.nworker_hwm)
      × (living_workers q ≡ stop faults)
unfolding living_workers
do_sigttin-overruns e p v shrunk a r =
    let (q, s, k, all) = start_workers_steps e (slotted e p) (omega (arith, length-slotted e p)) in
    let hwm : (slotted e p).nworker_hwm ≡ p.nworker_hwm = ground arith in
    let short : length q.pids < q.nworker_hwm =
      omega (arith, k.sized, k.nworker_hwm, hwm, length-slotted e p) in
    (
      q,
      do_sigttin-eq e p a (omega (arith, v.bounded)) r ∙ s,
      short,
      count_living_faults q.nworker_hwm 0 0 q (omega arith) (omega arith),
    )
