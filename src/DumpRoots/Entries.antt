-- ===== src/DumpRoots/Entries.antt =====
-- The table that is read from a file of commit ids and numbers.
use public_inbox.Args.RoundTrip.{NoNul, join, split2argv-join}
use public_inbox.RootIds.{put_entries, Table, root2id_get}
use public_inbox.Options.{same_bytes}
use public_inbox.Cache.Budget.{same_bytes_lem}
use public_inbox.DumpRoots.{read_table}
use public_inbox.Base.{
  if◌then◌else◌, Bool-cases, length, All, length-append, ok, ℕ, ◌+◌, ◌*◌, ◌/◌, ◌^◌, ◌≤◌, ◌<◌, ◌≡◌,
  refl, subst, inl, inr, true, Option, none, some, List, [], ◌∷◌, ◌++◌, arith,
}
use public_inbox.Args.{Bytes}

-- What the client writes: every commit id and behind it its number.
unfoldable pub entries : List (Bytes × Bytes) → List Bytes
entries [] = []
entries ((id, n) ∷ ps) = id ∷ n ∷ entries ps

-- The number of an id.
unfoldable pub number_of : List (Bytes × Bytes) → Bytes → Option Bytes
number_of [] key = none
number_of ((id, n) ∷ ps) key = if same_bytes id key then some n else number_of ps key

-- No id twice, each of 40 bytes or more with a number of at least one, and none with a NUL.
abbrev pub IsRootFile : List (Bytes × Bytes) → Type 0
IsRootFile [] = Unit {0}
IsRootFile ((id, n) ∷ ps) =
    (number_of ps id ≡ none)
    × (40 ≤ length id)
    × (1 ≤ length n)
    × NoNul id
    × NoNul n
    × IsRootFile ps

stored : List (Bytes × Bytes) → Table → Table
stored [] t = t
stored ((id, n) ∷ ps) t = stored ps ((id, some n) ∷ t)

-- None of the ids is in the table.
Absent : List (Bytes × Bytes) → Table → Type 0
Absent ps t = (key : Bytes) (n : Bytes) → number_of ps key ≡ some n → root2id_get t key ≡ none

same_bytes_refl : (a : Bytes) → same_bytes a a ≡ true
unfolding same_bytes
same_bytes_refl [] = refl
same_bytes_refl (x ∷ a) = ground (arith, same_bytes_refl a)

none-ne-some {ℓ} : {A : Type ℓ} {a : A} {o : Option A} → o ≡ none → o ≡ some a → ⊥
none-ne-some e f = cc

stored-get :
    (ps : List (Bytes × Bytes)) (t : Table) (key : Bytes)
    → IsRootFile ps
    → root2id_get (stored ps t) key
      ≡ (elim (number_of ps key) [ some n ↦ some (some n) | none ↦ root2id_get t key ])
unfolding stored number_of root2id_get
stored-get [] t key h = refl
stored-get ((id, n) ∷ ps) t key h = elim (Bool-cases (same_bytes id key)) [
  | inl y ↦
      let e = same_bytes_lem id key y in
      let none_later : number_of ps key ≡ none = subst (λ k. number_of ps k ≡ none) e h.0 in
      ground (arith, stored-get ps ((id, some n) ∷ t) key h.5, y, none_later)
  | inr m ↦ ground (arith, stored-get ps ((id, some n) ∷ t) key h.5, m)
]

put_entries-stored :
    (ps : List (Bytes × Bytes)) (t : Table)
    → IsRootFile ps
    → Absent ps t
    → put_entries (entries ps) t ≡ ok (stored ps t)
unfolding put_entries entries stored Absent number_of root2id_get
put_entries-stored [] t h a = refl
put_entries-stored ((id, n) ∷ ps) t h a =
    let free : root2id_get t id ≡ none = a id n (ground (arith, same_bytes_refl id)) in
    let later : Absent ps ((id, some n) ∷ t) = λ key m e. elim (Bool-cases (same_bytes id key)) [
      | inl y ↦
          let same_id = same_bytes_lem id key y in
          absurd (none-ne-some (subst (λ k. number_of ps k ≡ none) same_id h.0) e)
      | inr x ↦ ground (arith, x, a key m (ground (arith, x, e)))
    ] in
    ground (arith, free, put_entries-stored ps ((id, some n) ∷ t) h.5 later)

length-entries :
    (ps : List (Bytes × Bytes))
    → IsRootFile ps
    → (43 * length ps ≤ length (join (entries ps))) × (length (entries ps) ≡ 2 * length ps)
unfolding entries join
length-entries [] h = (omega arith, refl)
length-entries ((id, n) ∷ ps) h =
    let (a, b) = length-entries ps h.5 in
    (
      omega (
        arith,
        a,
        length-append id (0 ∷ (n ++ (0 ∷ join (entries ps)))),
        length-append n (0 ∷ join (entries ps)),
      ),
      omega (arith, b),
    )

entries-NoNul : (ps : List (Bytes × Bytes)) → IsRootFile ps → All NoNul (entries ps)
unfolding entries
entries-NoNul [] h = tt
entries-NoNul ((id, n) ∷ ps) h = (h.3, (h.4, entries-NoNul ps h.5))

-- From a file of the commit ids and their numbers, each behind a NUL, where no id comes twice and
-- each has 40 bytes or more and a number of at least one: the array of entries, whose size is an
-- estimate from the size of the file, is large enough, and the table has exactly these numbers.
pub read_table-number_of :
    (b : ℕ) (id n : Bytes) (ps : List (Bytes × Bytes))
    → IsRootFile ((b ∷ id, n) ∷ ps)
    → length (join (entries ((b ∷ id, n) ∷ ps))) < 2 ^ 63
    → (t : Table) × (read_table (join (entries ((b ∷ id, n) ∷ ps))) ≡ ok t)
      × ((key : Bytes)
          → root2id_get t key
            ≡ (elim (number_of ((b ∷ id, n) ∷ ps) key) [ some m ↦ some (some m) | none ↦ none ]))
unfolding read_table entries Absent root2id_get
read_table-number_of b id n ps h l =
    let all : List (Bytes × Bytes) = (b ∷ id, n) ∷ ps in
    let buf = join (entries all) in
    let limit = (length buf / 32 + 1) * 2 in
    let (long, twice) = length-entries all h in
    let fits : 1 + length (n ∷ entries ps) < limit = omega (arith, long, twice) in
    let (split, args) =
      split2argv-join b id (n ∷ entries ps) limit (entries-NoNul all h) fits (omega arith) in
    let empty : Absent all [] = λ key m e. refl in
    (
      stored all [],
      ground (arith, long, split, args, put_entries-stored all [] h empty),
      λ key. stored-get all [] key h,
    )
