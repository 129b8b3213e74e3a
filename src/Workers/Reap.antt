-- ===== src/Workers/Reap.antt =====
-- reaped_prefork_worker and do_sigchld.
use public_inbox.Workers.Spawn.{start_workers_steps, Kept, Forks, Full, Forked}
use public_inbox.Base.{
  ◌==◌, Bool-cases, length, get_elem?, set, length-set, get_elem?-set_self, get_elem?-set_ne,
  get_elem?_lt, ok, ℕ, zero, suc, ◌+◌, ◌≤◌, ◌<◌, ◌≡◌, refl, sym, ◌∙◌, ◌≢◌, ◌⊎◌, inl, inr, true,
  false, false≢true, not, ◌&&◌, some, List, arith, ℕ_discrete,
}
use public_inbox.Workers.{
  Pool, worker_max, read_pid, find_slot, Status, reaped_prefork_worker, System, is_noinput,
  write_pid, start_workers,
}

-- The array is as long as the loops over it assume.
pub record IsValid (p : Pool) : Type 0 where
  pub sized : length p.pids ≡ p.nworker_hwm
  pub within : p.nworker ≤ p.nworker_hwm
  pub bounded : p.nworker_hwm ≤ worker_max

abbrev pub Holds : Pool → ℕ → ℕ → Type 0
Holds p i pid = get_elem? p.pids i ≡ some pid

find_slot_lem :
    (pid n nr : ℕ) (p : Pool)
    → nr + n ≤ length p.pids
    → (j : ℕ) × (find_slot pid n nr p ≡ ok j)
      × (((j ≡ nr + n) × ((i : ℕ) → nr ≤ i → i < nr + n → ¬ Holds p i pid))
          ⊎ ((j < nr + n) × Holds p j pid))
unfolding find_slot read_pid
find_slot_lem pid zero nr p h = (nr, refl, inl (omega arith, λ i l m. absurd (omega arith)))
find_slot_lem pid (suc n) nr p h =
    let (v, a) = get_elem?_lt p.pids nr (omega arith) in
    let (j, b, c) = find_slot_lem pid n (nr + 1) p (omega arith) in
    elim (Bool-cases (v == pid)) [
      | inl hit ↦ (nr, rw (a, hit), inr (omega arith, ground arith))
      | inr miss ↦ (
        j,
        rw (a, miss) b,
        elim c [
          | inl (z, none_yet) ↦ inl (
            omega arith,
            λ i l m. elim (ℕ_discrete nr i) [
              | yes s ↦ λ y. ground arith
              | no ns ↦ none_yet i (omega arith) (omega arith)
            ],
          )
          | inr (l, y) ↦ inr (omega arith, y)
        ],
      )
    ]

-- The state q after the worker in some slot of p, with that pid, has been reaped.
pub record Reaped (e : System) (pid : ℕ) (st : Status) (p q : Pool) : Type 0 where
  pub slot : ℕ
  pub held : Holds p slot pid
  pub alive : q.alive ≡ (p.alive && not (is_noinput st))
  pub nworker : q.nworker ≡ p.nworker
  pub nworker_hwm : q.nworker_hwm ≡ p.nworker_hwm
  pub signals : q.signals ≡ p.signals
  pub others : (i v : ℕ) → slot ≢ i → Holds p i v → v ≢ 0 → Holds q i v
  pub left : (i v : ℕ) → Holds q i v → v ≢ 0 → ((slot ≢ i) × Holds p i v) ⊎ Forked e p q v
  pub idle : q.alive ≡ false → Holds q slot 0 × (q.forks ≡ p.forks)

-- The pool with the slot freed and the flag updated, before anything is forked.
abbrev freed : Status → ℕ → Pool → Pool
freed st j p = record p { pids = set p.pids j 0; alive = p.alive && not (is_noinput st) }

freed_left :
    (xs : List ℕ) (j i v : ℕ)
    → j < length xs
    → get_elem? (set xs j 0) i ≡ some v
    → v ≢ 0
    → (j ≢ i) × (get_elem? xs i ≡ some v)
freed_left xs j i v l a nz = elim (ℕ_discrete j i) [
  | yes s ↦ absurd (nz (ground (arith, get_elem?-set_self xs j 0 l)))
  | no ns ↦ (ns, rw (get_elem?-set_ne xs 0 ns) at a)
]

freed-Reaped :
    (e : System) (pid : ℕ) (st : Status) (p : Pool) (j : ℕ)
    → j < length p.pids
    → Holds p j pid
    → (p.alive && not (is_noinput st)) ≡ false
    → Reaped e pid st p (freed st j p)
freed-Reaped e pid st p j l h d = record {
  slot = j;
  held = h;
  alive = refl;
  nworker = refl;
  nworker_hwm = refl;
  signals = refl;
  others = λ i v ne a nz. rw (get_elem?-set_ne p.pids 0 ne) a;
  left = λ i v a nz. inl (freed_left p.pids j i v l a nz);
  idle = λ _. (get_elem?-set_self p.pids j 0 l, refl);
}

started-Reaped :
    (e : System) (pid : ℕ) (st : Status) (p q : Pool) (j : ℕ)
    → j < length p.pids
    → Holds p j pid
    → (p.alive && not (is_noinput st)) ≡ true
    → Kept e (freed st j p) q
    → Reaped e pid st p q
started-Reaped e pid st p q j l h d k = record {
  slot = j;
  held = h;
  alive = k.alive;
  nworker = k.nworker;
  nworker_hwm = k.nworker_hwm;
  signals = k.signals;
  others = λ i v ne a nz. k.busy i v (rw (get_elem?-set_ne p.pids 0 ne) a) nz;
  left = λ i v a nz. elim (k.came i v a) [
    | inl b ↦ inl (freed_left p.pids j i v l b nz)
    | inr b ↦ inr b
  ];
  idle = λ a. absurd (false≢true (sym a ∙ k.alive ∙ d));
}

module _ (e : System) (pid : ℕ) (st : Status) (p : Pool) (j : ℕ)
    (f : find_slot pid p.nworker_hwm 0 p ≡ ok j) (l : j < p.nworker_hwm)
    (m : j < length p.pids) where
  reaped-starts :
      (p.alive && not (is_noinput st)) ≡ true
      → reaped_prefork_worker e pid st p ≡ start_workers e (freed st j p)
  unfolding reaped_prefork_worker write_pid
  reaped-starts d = ground arith

  reaped-frees :
      (p.alive && not (is_noinput st)) ≡ false
      → reaped_prefork_worker e pid st p ≡ ok (freed st j p)
  unfolding reaped_prefork_worker write_pid
  reaped-frees d = ground arith

pub reaped_prefork_worker_steps :
    (e : System) (pid : ℕ) (st : Status) (p : Pool)
    → IsValid p
    → (q : Pool) × (reaped_prefork_worker e pid st p ≡ ok q)
      × IsValid q
      × (((q ≡ p) × ((i : ℕ) → i < p.nworker_hwm → ¬ Holds p i pid))
          ⊎ (Reaped e pid st p q × (Forks e → q.alive ≡ true → Full q)))
unfolding reaped_prefork_worker
reaped_prefork_worker_steps e pid st p v =
    let (j, f, c) = find_slot_lem pid p.nworker_hwm 0 p (omega (arith, v.sized)) in
    elim c [
      | inl (z, none_there) ↦
          (p, ground arith, v, inl (refl, λ i l. none_there i (omega arith) (omega arith)))
      | inr (l, h) ↦
          let m : j < length p.pids = omega (arith, v.sized) in
          elim (Bool-cases (p.alive && not (is_noinput st))) [
            | inl d ↦
                let (q, s, k, all) =
                  start_workers_steps e (freed st j p)
                    (omega (arith, v.sized, v.within, length-set p.pids j 0)) in
                (
                  q,
                  reaped-starts e pid st p j f (omega arith) m d ∙ s,
                  record {
                    sized = k.sized ∙ length-set p.pids j 0 ∙ v.sized ∙ sym k.nworker_hwm;
                    within = omega (arith, k.nworker, k.nworker_hwm, v.within);
                    bounded = omega (arith, k.nworker_hwm, v.bounded);
                  },
                  inr (started-Reaped e pid st p q j m h d k, λ fs _. all fs),
                )
            | inr d ↦ (
              freed st j p,
              reaped-frees e pid st p j f (omega arith) m d,
              record {
                sized = length-set p.pids j 0 ∙ v.sized;
                within = v.within;
                bounded = v.bounded;
              },
              inr (freed-Reaped e pid st p j m h d, λ fs a. absurd (false≢true (sym d ∙ a))),
            )
          ]
    ]

-- In a valid pool, with forks that succeed, reaping never leaves the array. A pid that no slot holds
-- changes nothing. Otherwise the worker of some slot that holds it is taken out: whatever pid the
-- array holds afterwards was in another slot before, or is that of a fork made now; exit status
-- EX_NOINPUT ends the pool's life, all other workers stay, a pool that is no longer alive forks
-- nothing and leaves the slot free, and one that lives on has every slot below nworker filled.
pub reaped_prefork_worker_lem :
    (e : System) (pid : ℕ) (st : Status) (p : Pool)
    → Forks e
    → IsValid p
    → (q : Pool) × (reaped_prefork_worker e pid st p ≡ ok q)
      × IsValid q
      × (((q ≡ p) × ((i : ℕ) → i < p.nworker_hwm → ¬ Holds p i pid))
          ⊎ (Reaped e pid st p q × (q.alive ≡ true → Full q)))
reaped_prefork_worker_lem e pid st p fs v =
    let (q, s, w, c) = reaped_prefork_worker_steps e pid st p v in
    (q, s, w, elim c [ inl a ↦ inl a | inr (r, full) ↦ inr (r, full fs) ])
