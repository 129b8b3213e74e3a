-- ===== src/Workers/Spawn.antt =====
-- start_worker and start_workers: which slots they fill, and what they leave alone.
use public_inbox.Base.{
  ◌==◌, if◌then◌else◌, Bool-cases, Option-cases, length, get_elem?, set, length-set,
  get_elem?-set_self, get_elem?-set_ne, get_elem?_lt, get_elem?_le, ok, ℕ, zero, suc, ◌+◌, ◌≤◌, ◌<◌,
  ◌≡◌, refl, sym, ap, subst, ◌∙◌, ◌≢◌, ◌⊎◌, inl, inr, none, some, List, arith, dec_lt, ℕ_discrete,
}
use public_inbox.Workers.{Pool, System, read_pid, fill_slot, fill_slots, start_workers}

-- Every fork succeeds, with a pid that is not 0.
abbrev pub Forks : System → Type 0
Forks e = (k : ℕ) → (pid : ℕ) × (e.fork k ≡ some pid) × (pid ≢ 0)

abbrev pub Busy : Pool → ℕ → Type 0
Busy p i = (v : ℕ) × (get_elem? p.pids i ≡ some v) × (v ≢ 0)

-- The pid of a fork that is made from the state p to the state q.
abbrev pub Forked : System → Pool → Pool → ℕ → Type 0
Forked e p q v = (k : ℕ) × (p.forks ≤ k) × (k < q.forks) × (e.fork k ≡ some v)

-- What forking leaves alone: all but the free slots and the count of forks. A pid in the array was
-- there before or is that of a fork made meanwhile.
pub record Kept (e : System) (p q : Pool) : Type 0 where
  pub nworker : q.nworker ≡ p.nworker
  pub nworker_hwm : q.nworker_hwm ≡ p.nworker_hwm
  pub alive : q.alive ≡ p.alive
  pub signals : q.signals ≡ p.signals
  pub reopened : q.reopened ≡ p.reopened
  pub sized : length q.pids ≡ length p.pids
  pub busy : (i v : ℕ) → get_elem? p.pids i ≡ some v → v ≢ 0 → get_elem? q.pids i ≡ some v
  pub more : p.forks ≤ q.forks
  pub came :
      (i v : ℕ) → get_elem? q.pids i ≡ some v → (get_elem? p.pids i ≡ some v) ⊎ Forked e p q v

pub Kept-refl : (e : System) (p : Pool) → Kept e p p
Kept-refl e p = record {
  nworker = refl;
  nworker_hwm = refl;
  alive = refl;
  signals = refl;
  reopened = refl;
  sized = refl;
  busy = λ i v e h. e;
  more = omega arith;
  came = λ i v h. inl h;
}

pub Kept-trans : {e : System} {p q r : Pool} → Kept e p q → Kept e q r → Kept e p r
Kept-trans a b = record {
  nworker = b.nworker ∙ a.nworker;
  nworker_hwm = b.nworker_hwm ∙ a.nworker_hwm;
  alive = b.alive ∙ a.alive;
  signals = b.signals ∙ a.signals;
  reopened = b.reopened ∙ a.reopened;
  sized = b.sized ∙ a.sized;
  busy = λ i v e h. b.busy i v (a.busy i v e h) h;
  more = omega (arith, a.more, b.more);
  came = λ i v h. elim (b.came i v h) [
    | inl h' ↦ elim (a.came i v h') [
      | inl h'' ↦ inl h''
      | inr (k, l, m, f) ↦ inr (k, l, omega (arith, b.more), f)
    ]
    | inr (k, l, m, f) ↦ inr (k, omega (arith, a.more), m, f)
  ];
}

-- The state after the slot nr, which holds v, has been looked at.
filled : System → ℕ → ℕ → Pool → Pool
filled e nr v p =
    if v == 0
    then elim (e.fork p.forks) [
      | none ↦ record p { forks = p.forks + 1 }
      | some pid ↦ record p { forks = p.forks + 1; pids = set p.pids nr pid }
    ]
    else p

pub lt_of_get_elem? : (xs : List ℕ) (i v : ℕ) → get_elem? xs i ≡ some v → i < length xs
lt_of_get_elem? xs i v e = elim (dec_lt i (length xs)) [
  | yes h ↦ h
  | no h ↦ cc (e, get_elem?_le xs i (omega arith))
]

fill_slot-eq :
    (e : System) (nr v : ℕ) (p : Pool)
    → get_elem? p.pids nr ≡ some v
    → fill_slot e nr p ≡ ok (filled e nr v p)
unfolding fill_slot read_pid filled
fill_slot-eq e nr v p h = ground (arith, lt_of_get_elem? p.pids nr v h)

set-keeps :
    (xs : List ℕ) (nr pid i v : ℕ)
    → get_elem? xs nr ≡ some 0
    → get_elem? xs i ≡ some v
    → v ≢ 0
    → get_elem? (set xs nr pid) i ≡ some v
set-keeps xs nr pid i v z h ne = elim (ℕ_discrete nr i) [
  | yes e ↦ absurd (ne (ground arith))
  | no e ↦ rw (get_elem?-set_ne xs pid e) h
]

set-came :
    (xs : List ℕ) (nr pid i v : ℕ)
    → nr < length xs
    → get_elem? (set xs nr pid) i ≡ some v
    → (get_elem? xs i ≡ some v) ⊎ (v ≡ pid)
set-came xs nr pid i v l h = elim (ℕ_discrete nr i) [
  | yes e ↦ inr (ground (arith, get_elem?-set_self xs nr pid l))
  | no e ↦ inl (rw (get_elem?-set_ne xs pid e) at h)
]

filled-came :
    (e : System) (nr v : ℕ) (p : Pool)
    → get_elem? p.pids nr ≡ some v
    → (i w : ℕ) → get_elem? (filled e nr v p).pids i ≡ some w
    → (get_elem? p.pids i ≡ some w) ⊎ Forked e p (filled e nr v p) w
unfolding filled
filled-came e nr v p h i w a = elim (Bool-cases (v == 0)) [
  | inr nz ↦ inl (ground arith)
  | inl z ↦ elim (Option-cases (e.fork p.forks)) [
    | inl n ↦ inl (ground arith)
    | inr (pid, s) ↦
        let l = lt_of_get_elem? p.pids nr v h in
        elim (set-came p.pids nr pid i w l (ground arith)) [
          | inl b ↦ inl b
          | inr b ↦
              let one : (filled e nr v p).forks ≡ p.forks + 1 = ground arith in
              inr (p.forks, omega arith, omega arith, s ∙ ap some (sym b))
        ]
  ]
]

filled-Kept :
    (e : System) (nr v : ℕ) (p : Pool) → get_elem? p.pids nr ≡ some v → Kept e p (filled e nr v p)
unfolding filled
filled-Kept e nr v p h = record {
  nworker = ground arith;
  nworker_hwm = ground arith;
  alive = ground arith;
  signals = ground arith;
  reopened = ground arith;
  sized = elim (Option-cases (e.fork p.forks)) [
    | inl n ↦ ground arith
    | inr (pid, s) ↦ ground (arith, length-set p.pids nr pid)
  ];
  busy = λ i w a ne. elim (Option-cases (e.fork p.forks)) [
    | inl n ↦ ground arith
    | inr (pid, s) ↦ ground (arith, set-keeps p.pids nr pid i w)
  ];
  more = elim (Option-cases (e.fork p.forks)) [
    | inl n ↦ ground arith
    | inr (pid, s) ↦ ground arith
  ];
  came = filled-came e nr v p h;
}

filled-Busy :
    (e : System) (nr v : ℕ) (p : Pool)
    → Forks e
    → get_elem? p.pids nr ≡ some v
    → Busy (filled e nr v p) nr
unfolding filled
filled-Busy e nr v p fs h = elim (Bool-cases (v == 0)) [
  | inl z ↦
      let (pid, s, ne) = fs p.forks in
      rw (z, s) (pid, get_elem?-set_self p.pids nr pid (lt_of_get_elem? p.pids nr v h), ne)
  | inr nz ↦ rw nz (v, h, λ z. ground arith)
]

-- The loop fills the slots from nr on, and is within the array if they are.
fill_slots_lem :
    (e : System) (n nr : ℕ) (p : Pool)
    → nr + n ≤ length p.pids
    → (q : Pool) × (fill_slots e n nr p ≡ ok q)
      × Kept e p q
      × (Forks e → (i : ℕ) → nr ≤ i → i < nr + n → Busy q i)
unfolding fill_slots
fill_slots_lem e zero nr p h = (p, refl, Kept-refl e p, λ fs i l m. absurd (omega arith))
fill_slots_lem e (suc n) nr p h =
    let (v, a) = get_elem?_lt p.pids nr (omega arith) in
    let k = filled-Kept e nr v p a in
    let (q, b, k', all) = fill_slots_lem e n (nr + 1) (filled e nr v p) (omega (arith, k.sized)) in
    (
      q,
      rw (fill_slot-eq e nr v p a) b,
      Kept-trans k k',
      λ fs i l m. elim (ℕ_discrete nr i) [
        | yes s ↦
            let (w, b', ne) = filled-Busy e nr v p fs a in
            subst (Busy q) s (w, k'.busy nr w b' ne, ne)
        | no ns ↦ all fs i (omega arith) (omega arith)
      ],
    )

-- Every slot that start_workers is to fill holds a pid.
abbrev pub Full : Pool → Type 0
Full p = (i : ℕ) → i < p.nworker → Busy p i

pub start_workers_steps :
    (e : System) (p : Pool)
    → p.nworker ≤ length p.pids
    → (q : Pool) × (start_workers e p ≡ ok q) × Kept e p q × (Forks e → Full q)
unfolding start_workers
start_workers_steps e p h =
    let (q, a, k, all) = fill_slots_lem e p.nworker 0 p (omega arith) in
    (q, a, k, λ fs i l. all fs i (omega arith) (omega (arith, k.nworker)))

-- With an array of at least nworker slots and forks that succeed, start_workers stays within the
-- array and never meets its assertion, keeps every pid that was there, changes nothing but free
-- slots and the count of forks, and leaves a pid in every slot below nworker.
pub start_workers_lem :
    (e : System) (p : Pool)
    → Forks e
    → p.nworker ≤ length p.pids
    → (q : Pool) × (start_workers e p ≡ ok q) × Kept e p q × Full q
start_workers_lem e p fs h = let (q, a, k, all) = start_workers_steps e p h in (q, a, k, all fs)
