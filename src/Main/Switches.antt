-- ===== src/Main/Switches.antt =====
-- The switches of main, and what follows from them.
use public_inbox.Main.{Host, Settings, main_switch, main_switches}
use public_inbox.Workers.{worker_max}
use public_inbox.Options.{Switch}
use public_inbox.Base.{
  ltb, leb, ◌==◌, if◌then◌else◌, Bool-cases, List-cases, ok-injective, exits, ok, stop, ℕ, ◌≤◌, ◌≡◌,
  refl, sym, ap, subst, ◌∙◌, inl, inr, Bool, true, false, ◌&&◌, ◌||◌, List, [], ◌∷◌, arith,
}
use public_inbox.Args.{Bytes}

abbrev is_empty : Bytes → Bool
is_empty [] = true
is_empty (b ∷ bs) = false

-- -l, or -j with a number that is not too large and nothing behind it.
unfoldable pub all_accepted : Host → List Switch → Bool
all_accepted h [] = true
all_accepted h (s ∷ ss) =
    ((s.letter == b'l')
      || ((s.letter == b'j')
          && (is_empty (h.strtoul s.arg).1 && leb (h.strtoul s.arg).0 worker_max)))
    && all_accepted h ss

-- The number of the last -j, or n without one.
unfoldable pub last_number : Host → List Switch → ℕ → ℕ
last_number h [] n = n
last_number h (s ∷ ss) n = last_number h ss (if s.letter == b'j' then (h.strtoul s.arg).0 else n)

unfoldable pub has_lei : List Switch → Bool → Bool
has_lei [] lei = lei
has_lei (s ∷ ss) lei = has_lei ss (lei || (s.letter == b'l'))

abbrev pub settings_of : Host → List Switch → Settings → Settings
settings_of h ss g = record { nworker = last_number h ss g.nworker; lei = has_lei ss g.lei }

main_switch-number :
    (h : Host) (s : Switch) (g : Settings)
    → (s.letter == b'j') ≡ true
    → main_switch h s g ≡ (
        if is_empty (h.strtoul s.arg).1 && leb (h.strtoul s.arg).0 worker_max
        then ok (record g { nworker = (h.strtoul s.arg).0 })
        else stop (exits 1))
unfolding main_switch
main_switch-number h s g j = elim (List-cases (h.strtoul s.arg).1) [
  | inl e ↦ elim (Bool-cases (ltb worker_max (h.strtoul s.arg).0)) [
    | inl m ↦ ground (arith, j, e, m)
    | inr m ↦ ground (arith, j, e, m)
  ]
  | inr (b, t, e) ↦ ground (arith, j, e)
]

main_switch-lei :
    (h : Host) (s : Switch) (g : Settings)
    → (s.letter == b'j') ≡ false
    → main_switch h s g
      ≡ (if s.letter == b'l' then ok (record g { lei = true }) else stop (exits 1))
unfolding main_switch
main_switch-lei h s g n = ground (arith, n)

-- main takes its switches just when each is -l, or -j with a number of at most WORKER_MAX and
-- nothing behind it; then nworker is the number of the last -j, or as before, and lei is set if -l
-- was given; otherwise the process ends with 1.
pub main_switches_lem :
    (h : Host) (ss : List Switch) (g : Settings)
    → main_switches h ss g ≡ (if all_accepted h ss then ok (settings_of h ss g) else stop (exits 1))
unfolding main_switches all_accepted last_number has_lei
main_switches_lem h [] g = refl
main_switches_lem h (s ∷ ss) g = elim (Bool-cases (s.letter == b'j')) [
  | inl j ↦
      let n = (h.strtoul s.arg).0 in
      let rest = main_switches_lem h ss (record g { nworker = n }) in
      elim (Bool-cases (is_empty (h.strtoul s.arg).1 && leb n worker_max)) [
        | inl y ↦ ground (arith, main_switch-number h s g j, j, y, rest)
        | inr y ↦ ground (arith, main_switch-number h s g j, j, y)
      ]
  | inr n ↦
      ground (arith, n, main_switch-lei h s g n, main_switches_lem h ss (record g { lei = true }))
]

pub last_number-worker_max :
    (h : Host) (ss : List Switch) (n : ℕ)
    → all_accepted h ss ≡ true
    → n ≤ worker_max
    → last_number h ss n ≤ worker_max
unfolding last_number all_accepted
last_number-worker_max h [] n a l = l
last_number-worker_max h (s ∷ ss) n a l = elim (Bool-cases (s.letter == b'j')) [
  | inl j ↦ ground (arith, j, last_number-worker_max h ss (h.strtoul s.arg).0)
  | inr i ↦ ground (arith, i, last_number-worker_max h ss n)
]

pub main_switches-worker_max :
    (h : Host) (ss : List Switch) (g g' : Settings)
    → g.nworker ≤ worker_max
    → main_switches h ss g ≡ ok g'
    → (all_accepted h ss ≡ true) × (g' ≡ settings_of h ss g) × (g'.nworker ≤ worker_max)
main_switches-worker_max h ss g g' l e = elim (Bool-cases (all_accepted h ss)) [
  | inl a ↦
      let s : settings_of h ss g ≡ g' = ok-injective (
        sym (
          main_switches_lem h ss g
          ∙ ap (λ b. if b then ok (settings_of h ss g) else stop (exits 1)) a)
        ∙ e) in
      (a, sym s, subst (λ x. x.nworker ≤ worker_max) s (last_number-worker_max h ss g.nworker a l))
  | inr a ↦ absurd (cc (e, main_switches_lem h ss g))
]
