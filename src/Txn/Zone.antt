-- ===== src/Txn/Zone.antt =====
-- src/db/db_impl.cc: the conflict zone that `CommittedIntentionIndex::range` returns.
use cruzdb.Prelude.{
  ℕ, ◌+◌, ◌≤◌, ◌<◌, Bool, true, false, ◌&&◌, ◌||◌, List, [], ◌∷◌, some, ◌>>=◌, ◌≡◌, refl, sym, ap,
  ◌∙◌, ltb, leb, ◌==◌, length, All, All-imp, arith, Holds, if◌then◌else◌, Bool-cases, inl, inr,
  ltb→lt, lt→ltb, All-append, assert, ◌++◌, length-append,
}
use cruzdb.Txn.CommittedIndex.{limit, emplace_last, push, lower_bound, copy_to, range}

-- A set of positions, in ascending order.
abbrev pub IsAscending : List ℕ → Type 0
IsAscending [] = Unit
IsAscending (x ∷ xs) = All (λ y. x < y) xs × IsAscending xs

unfoldable pub contains : ℕ → List ℕ → Bool
contains p [] = false
contains p (x ∷ xs) = let rest = contains p xs in p == x || rest

-- The positions from `first` to `last`, both of them included.
unfoldable pub between : ℕ → ℕ → List ℕ → List ℕ
between first last [] = []
between first last (x ∷ xs) =
    let rest = between first last xs in if leb first x && leb x last then x ∷ rest else rest

pub not_contained : (p x : ℕ) (xs : List ℕ) → p ≤ x → All (λ y. x < y) xs → contains p xs ≡ false
unfolding contains
not_contained p x [] h a = refl
not_contained p x (y ∷ ys) h a = ground (arith, not_contained p x ys h a.1)

none_between :
    (first last x : ℕ) (xs : List ℕ) → last ≤ x → All (λ y. x < y) xs → between first last xs ≡ []
unfolding between
none_between first last x [] h a = refl
none_between first last x (y ∷ ys) h a = ground (arith, none_between first last x ys h a.1)

-- From the lower bound on, the copy gives the positions up to the last one.
copy_to-eq :
    (first last : ℕ) (xs : List ℕ)
    → IsAscending xs
    → All (λ y. first ≤ y) xs
    → contains last xs ≡ true
    → copy_to last xs ≡ some (between first last xs)
unfolding copy_to between contains
copy_to-eq first last [] s a h = cc
copy_to-eq first last (x ∷ xs) s a h = grind (
  arith,
  copy_to-eq first last xs s.1 a.1,
  none_between first last x xs,
  s.0,
  not_contained last x xs,
)

-- What lies from the lower bound on.
lower_bound-eq :
    (first last : ℕ) (xs : List ℕ)
    → IsAscending xs
    → first < last
    → contains last xs ≡ true
    → IsAscending (lower_bound first xs)
      × All (λ y. first ≤ y) (lower_bound first xs)
      × (contains last (lower_bound first xs) ≡ true)
      × (contains first (lower_bound first xs) ≡ contains first xs)
      × (between first last (lower_bound first xs) ≡ between first last xs)
unfolding lower_bound between contains
lower_bound-eq first last [] s h c = cc
lower_bound-eq first last (x ∷ xs) s h c = elim (Bool-cases (ltb x first)) [
  | inl e ↦
      let p : x < first = ltb→lt x first e in
      let c' : contains last xs ≡ true = ground arith in
      let (a, b, d, f, g) = lower_bound-eq first last xs s.1 h c' in
      rw (e, if◌then◌else◌) (a, b, d, ground (arith, f), ground (arith, g))
  | inr e ↦
      let p : first ≤ x = ground arith in
      rw (e, if◌then◌else◌) (s, (p, All-imp (λ y l. omega arith) xs s.0), c, refl, refl)
]

contains_none : (p : ℕ) → contains p [] ≡ true → ⊥
unfolding contains
contains_none p h = cc

contains_some :
    (p : ℕ) (xs : List ℕ) → contains p xs ≡ true → (y : ℕ) × (ys : List ℕ) × (xs ≡ y ∷ ys)
unfolding contains
contains_some p [] h = cc
contains_some p (x ∷ xs) h = (x, xs, refl)

-- The first of the positions from the lower bound on tells whether the bound is one of them.
starts_at :
    (first y : ℕ) (ys : List ℕ)
    → IsAscending (y ∷ ys)
    → first ≤ y
    → contains first (y ∷ ys) ≡ (y == first)
unfolding contains
starts_at first y ys s h = ground (arith, not_contained first y ys h s.0)

-- For a set of positions that holds `last`, and `first` below `last`, `range` succeeds and returns
-- the positions from `first` to `last`, both of them included; the result is called complete exactly
-- when `first` is one of the positions.
pub range-between :
    (first last : ℕ) (index : List ℕ)
    → IsAscending index
    → first < last
    → contains last index ≡ true
    → range first last index ≡ some (between first last index, contains first index)
unfolding range
range-between first last [] s h c = absurd (contains_none last c)
range-between first last (x ∷ xs) s h c =
    let (a, b, d, f, g) = lower_bound-eq first last (x ∷ xs) s h c in
    let (y, ys, e) = contains_some last (lower_bound first (x ∷ xs)) d in
    let q = copy_to-eq first last (lower_bound first (x ∷ xs)) a b d in
    let w =
      sym (starts_at first y ys (rw e at a) (rw e at b).0) ∙ ap (contains first) (sym e) ∙ f in
    rw (lt→ltb first last h, q, g, e, assert, ◌>>=◌)
      (ap (λ z. some (between first last (x ∷ xs), z)) w)

-- The index after a `push`: still a set within its limit, whose last position is the new one.
abbrev pub Pushed : ℕ → List ℕ → Type 0
Pushed pos index = IsAscending index × (length index ≤ limit) × (contains pos index ≡ true)

emplace_last-eq :
    (pos : ℕ) (xs : List ℕ) → All (λ x. x < pos) xs → emplace_last pos xs ≡ some (xs ++ pos ∷ [])
unfolding emplace_last
emplace_last-eq pos [] a = refl
emplace_last-eq pos (x ∷ xs) a = rw (emplace_last-eq pos xs a.1, lt→ltb x pos a.0) refl

IsAscending-append :
    (pos : ℕ) (xs : List ℕ) → IsAscending xs → All (λ x. x < pos) xs → IsAscending (xs ++ pos ∷ [])
IsAscending-append pos [] s a = (tt, tt)
IsAscending-append pos (x ∷ xs) s a =
    (All-append (λ y. x < y) xs (pos ∷ []) s.0 (a.0, tt), IsAscending-append pos xs s.1 a.1)

contains-append : (pos : ℕ) (xs : List ℕ) → contains pos (xs ++ pos ∷ []) ≡ true
unfolding contains
contains-append pos [] = ground arith
contains-append pos (x ∷ xs) = ground (arith, contains-append pos xs)

-- Pushing a position above all positions of the index succeeds; the index stays an ascending set of
-- at most `limit_` positions and holds the new one.
pub push-Pushed :
    (pos : ℕ) (index : List ℕ)
    → IsAscending index
    → length index ≤ limit
    → All (λ x. x < pos) index
    → Holds (Pushed pos) (push pos index)
unfolding push
push-Pushed pos [] s l a =
    rw (emplace_last-eq pos [] tt) ((tt, tt), omega arith, contains-append pos [])
push-Pushed pos (x ∷ xs) s l a =
    let n : length (xs ++ pos ∷ []) ≡ length xs + 1 = length-append xs (pos ∷ []) in
    let u = IsAscending-append pos (x ∷ xs) s a in
    rw (emplace_last-eq pos (x ∷ xs) a, ◌>>=◌)
      (elim (Bool-cases (ltb limit (length (x ∷ xs ++ pos ∷ [])))) [
        | inl e ↦ rw (e, if◌then◌else◌) (u.1, omega (arith, n), contains-append pos xs)
        | inr e ↦ rw (e, if◌then◌else◌) (u, ground arith, contains-append pos (x ∷ xs))
      ])
