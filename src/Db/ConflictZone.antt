-- ===== src/Db/ConflictZone.antt =====
-- src/db/db_impl.cc: the conflict zone of an intention, from the index alone and with the scan.
use cruzdb.Prelude.{
  ℕ, ◌^◌, ◌<◌, ◌≤◌, true, false, ◌&&◌, List, [], ◌∷◌, ◌++◌, All, All-imp, All-append, Holds, Option,
  some, ◌>>=◌, assert, leb, lt→ltb, ◌≡◌, refl, sym, ap, ◌∙◌, if◌then◌else◌, arith,
}
use mathlib.Core.Path.{subst}
use cruzdb.Slice.{Slice, SliceCompare}
use cruzdb.Dict.{Entry, IsSorted}
use cruzdb.Node.{Node}
use cruzdb.Tree.Entries.{entries}
use cruzdb.Txn.CommittedIndex.{range}
use cruzdb.Txn.Zone.{IsAscending, contains, between, range-between, not_contained}
use cruzdb.Txn.Keys.{committed_key}
use cruzdb.Db.Concurrent.{conflict_zone}
use cruzdb.Db.ZoneScan.{committed, all_committed, missing_zone-between}

-- What `range` has to go on: the index, or the last position where the index is empty.
abbrev pub known : ℕ → List ℕ → List ℕ
known root_snapshot [] = root_snapshot ∷ []
known root_snapshot (p ∷ ps) = p ∷ ps

-- The positions of the zone that the index must hold.
abbrev Inside : ℕ → ℕ → ℕ → Type 0
Inside snapshot root_snapshot p = (snapshot < p) × (p ≤ root_snapshot)

between_all :
    (first last : ℕ) (xs : List ℕ) → All (Inside first last) xs → between first last xs ≡ xs
unfolding between
between_all first last [] h = refl
between_all first last (x ∷ xs) h =
    let a = h.0.0 in
    let b = h.0.1 in
    let ok : (leb first x && leb x last) ≡ true = ground arith in
    rw (ok, if◌then◌else◌) (ap (λ ys. x ∷ ys) (between_all first last xs h.1))

range-known :
    (snapshot root_snapshot : ℕ) (index : List ℕ)
    → IsAscending index
    → snapshot < root_snapshot
    → All (Inside snapshot root_snapshot) (known root_snapshot index)
    → contains root_snapshot (known root_snapshot index) ≡ true
    → range snapshot root_snapshot index ≡ some (known root_snapshot index, false)
unfolding range contains
range-known snapshot root_snapshot [] s l h c =
    rw (lt→ltb snapshot root_snapshot l, assert, ◌>>=◌) refl
range-known snapshot root_snapshot (p ∷ ps) s l h c =
    let no : contains snapshot (p ∷ ps) ≡ false =
      let lt = h.0.0 in let rest = not_contained snapshot p ps (omega arith) s.0 in ground arith in
    range-between snapshot root_snapshot (p ∷ ps) s l c
    ∙ rw (no, between_all snapshot root_snapshot (p ∷ ps) h) refl

module _ ⦃o : SliceCompare⦄ (lexical_cast : Slice → Option ℕ) where
  -- Where the index holds the intention's snapshot, the conflict zone is the part of the index from
  -- that snapshot on, and the tree is not read.
  pub conflict_zone_indexed :
      (root : Node) (snapshot root_snapshot : ℕ) (index : List ℕ)
      → IsAscending index
      → snapshot < root_snapshot
      → contains root_snapshot index ≡ true
      → contains snapshot index ≡ true
      → conflict_zone lexical_cast root snapshot root_snapshot index
        ≡ some (between snapshot root_snapshot index)
  unfolding conflict_zone
  conflict_zone_indexed root snapshot root_snapshot index s l c d =
      rw (range-between snapshot root_snapshot index s l c, ◌>>=◌, d) refl

  -- Where the index has been lost up to a position `first` after the snapshot, or is empty, the zone is
  -- what the index holds, and then the committed positions between the snapshot and `first`, which are
  -- read from the tree. The snapshot itself is not in it. No assertion fails.
  pub conflict_zone_scanned :
      ((p : ℕ) → p < 2 ^ 64 → lexical_cast (committed_key p) ≡ some p)
      → (root : Node) (snapshot root_snapshot first : ℕ) (index rest mid : List ℕ)
        (xs ys : List Entry)
      → IsAscending index
      → snapshot < root_snapshot
      → root_snapshot < 2 ^ 64
      → known root_snapshot index ≡ first ∷ rest
      → All (λ p. (snapshot < p) × (p ≤ root_snapshot)) (first ∷ rest)
      → contains root_snapshot (first ∷ rest) ≡ true
      → IsSorted (entries root)
      → entries root ≡ xs ++ committed snapshot ∷ (all_committed mid ++ committed first ∷ ys)
      → All (λ p. p < first) mid
      → conflict_zone lexical_cast root snapshot root_snapshot index ≡ some ((first ∷ rest) ++ mid)
  unfolding conflict_zone
  conflict_zone_scanned casts root snapshot root_snapshot first index rest mid xs ys s l b k h c so
        e m =
      let r =
        range-known snapshot root_snapshot index s l
          (subst (All (Inside snapshot root_snapshot)) (sym k) h)
          (subst (λ z. contains root_snapshot z ≡ true) (sym k) c) in
      let fb : first ≤ root_snapshot = h.0.1 in
      let z =
        missing_zone-between lexical_cast casts root snapshot first mid xs ys so e (omega arith)
          (All-imp (λ p q. omega arith) mid m) (omega arith) (All-imp (λ p q. omega arith) mid m) in
      rw (r, ◌>>=◌, k, z) refl

  contains_above : (p : ℕ) (xs : List ℕ) → All (λ x. p < x) xs → contains p xs ≡ false
  unfolding contains
  contains_above p [] h = refl
  contains_above p (x ∷ xs) h = let a = h.0 in ground (arith, contains_above p xs h.1)

  contains-between :
      (first last : ℕ) (xs : List ℕ)
      → first ≤ last
      → contains first xs ≡ true
      → contains first (between first last xs) ≡ true
  unfolding contains between
  contains-between first last [] l h = cc
  contains-between first last (x ∷ xs) l h = ground (arith, contains-between first last xs l)

  -- Two databases with the same tree and snapshot give an intention different conflict zones, where one
  -- still has the intention's snapshot in its index and the other has not: the intention at the
  -- snapshot counts as a conflict with the former only.
  pub conflict_zone_differs :
      ((p : ℕ) → p < 2 ^ 64 → lexical_cast (committed_key p) ≡ some p)
      → (root : Node) (snapshot root_snapshot first : ℕ) (full index rest mid : List ℕ)
        (xs ys : List Entry)
      → IsAscending full
      → contains root_snapshot full ≡ true
      → contains snapshot full ≡ true
      → IsAscending index
      → snapshot < root_snapshot
      → root_snapshot < 2 ^ 64
      → known root_snapshot index ≡ first ∷ rest
      → All (λ p. (snapshot < p) × (p ≤ root_snapshot)) (first ∷ rest)
      → contains root_snapshot (first ∷ rest) ≡ true
      → IsSorted (entries root)
      → entries root ≡ xs ++ committed snapshot ∷ (all_committed mid ++ committed first ∷ ys)
      → All (λ p. (snapshot < p) × (p < first)) mid
      → Holds
          (λ zone. contains snapshot zone ≡ true)
          (conflict_zone lexical_cast root snapshot root_snapshot full)
        × Holds
            (λ zone. contains snapshot zone ≡ false)
            (conflict_zone lexical_cast root snapshot root_snapshot index)
  conflict_zone_differs casts root snapshot root_snapshot first full index rest mid xs ys sf cf ss s
        l b k h c so e m =
      (
        rw (conflict_zone_indexed root snapshot root_snapshot full sf l cf ss)
            (contains-between snapshot root_snapshot full (omega arith) ss),
        rw
            (conflict_zone_scanned casts root snapshot root_snapshot first index rest mid xs ys s l
              b k h c so e (All-imp (λ p q. q.1) mid m))
            (contains_above snapshot ((first ∷ rest) ++ mid) (
              All-append (λ x. snapshot < x) (first ∷ rest) mid
                (All-imp (λ p q. q.0) (first ∷ rest) h) (All-imp (λ p q. q.0) mid m))),
      )
