-- ===== src/Db/ZoneScan.antt =====
-- src/db/db_impl.cc: what the scan in `ProcessConcurrentIntention` finds.
use mathlib.Core.Path.{subst}
use cruzdb.Prelude.{
  ℕ, zero, suc, ◌^◌, ◌<◌, true, false, List, [], ◌∷◌, ◌++◌, map, length, All, Option, some, ◌>>=◌,
  assert, ◌==◌, ◌≡◌, ◌≢◌, refl, sym, ap, ◌∙◌, if◌then◌else◌, arith, Holds-some, inl, length-append,
}
use cruzdb.Slice.{Slice, SliceCompare, prefix_string, prefix_committed_intention}
use cruzdb.Dict.{Entry, IsSorted, Below, IsSorted-split}
use cruzdb.Node.{Node}
use cruzdb.Tree.Entries.{entries}
use cruzdb.Iterator.Raw.{RawIterator, next}
use cruzdb.Iterator.Stack.{from, from_at}
use cruzdb.Iterator.Moves.{Ahead}
use cruzdb.Iterator.Turns.{At-reads, seek-Ahead, next-Ahead}
use cruzdb.Iterator.Prefix.{prefix_valid, prefix_seek, prefix_valid-prefix_string}
use cruzdb.Txn.Keys.{committed_key}
use cruzdb.Db.Concurrent.{position_at, scan_zone, missing_zone, new_iterator}

-- The entry of a committed position.
abbrev pub committed : ℕ → Entry
committed p = (prefix_string prefix_committed_intention (committed_key p), [])

abbrev pub all_committed : List ℕ → List Entry
all_committed ps = map committed ps

module _ ⦃o : SliceCompare⦄ (lexical_cast : Slice → Option ℕ)
    (casts : (p : ℕ) → p < 2 ^ 64 → lexical_cast (committed_key p) ≡ some p) where
  -- At a committed position the prefix iterator is valid and reads the position.
  at_committed :
      (it : RawIterator) (xs : List Entry) (p : ℕ) (ys : List Entry)
      → p < 2 ^ 64
      → Ahead it xs (committed p ∷ ys)
      → (prefix_valid prefix_committed_intention it ≡ true) × (position_at lexical_cast it ≡ some p)
  unfolding position_at
  at_committed it xs p ys b a =
      let r = At-reads it xs (committed p) ys (inl a) in
      let (v, f) = prefix_valid-prefix_string prefix_committed_intention (committed_key p) it r.1 in
      (v, rw (v, assert, ◌>>=◌, f) (casts p b))

  abbrev Small : List ℕ → Type 0
  Small ps = All (λ p. p < 2 ^ 64) ps

  scan_zone-Ahead :
      (fuel first : ℕ) (it : RawIterator) (xs : List Entry) (mid : List ℕ) (ys : List Entry)
      → length mid < fuel
      → IsSorted (entries it.root)
      → Small mid
      → first < 2 ^ 64
      → All (λ p. p ≢ first) mid
      → Ahead it xs (all_committed mid ++ committed first ∷ ys)
      → scan_zone lexical_cast fuel first it ≡ some mid
  unfolding scan_zone
  scan_zone-Ahead zero first it xs mid ys f h s b n a = absurd (omega arith)
  scan_zone-Ahead (suc fuel) first it xs [] ys f h s b n a =
      let (v, r) = at_committed it xs first ys b a in
      let e : (first == first) ≡ true = ground arith in rw (v, if◌then◌else◌, r, ◌>>=◌, e) refl
  scan_zone-Ahead (suc fuel) first it xs (p ∷ mid) ys f h s b n a =
      let (v, r) = at_committed it xs p (all_committed mid ++ committed first ∷ ys) s.0 a in
      let ne : p ≢ first = n.0 in
      let e : (p == first) ≡ false = ground arith in
      let (it', g, k) =
        Holds-some
          (λ m.
            (m.root ≡ it.root)
            × Ahead m (xs ++ committed p ∷ []) (all_committed mid ++ committed first ∷ ys))
          (next it)
          (next-Ahead it xs (committed p) (all_committed mid ++ committed first ∷ ys) h (inl a)) in
      let rest =
        scan_zone-Ahead fuel first it' (xs ++ committed p ∷ []) mid ys (omega (arith, f))
          (rw (k.0) h) s.1 b n.1 k.1 in
      rw (v, if◌then◌else◌, r, ◌>>=◌, e, g, rest) refl

  length_all : (ps : List ℕ) → length (all_committed ps) ≡ length ps
  length_all [] = refl
  length_all (p ∷ ps) = ap suc (length_all ps)

  valid_next :
      (it : RawIterator) (xs : List Entry) (mid : List ℕ) (first : ℕ) (ys : List Entry)
      → Small mid
      → first < 2 ^ 64
      → Ahead it xs (all_committed mid ++ committed first ∷ ys)
      → prefix_valid prefix_committed_intention it ≡ true
  valid_next it xs [] first ys s c a = (at_committed it xs first ys c a).0
  valid_next it xs (p ∷ mid) first ys s c a =
      (at_committed it xs p (all_committed mid ++ committed first ∷ ys) s.0 a).0

  -- Over a tree with sorted entries, whose committed positions from the snapshot on are the snapshot,
  -- `mid`, and then `first`, the scan fails no assertion and returns `mid`. It ends at `first`, and as
  -- many rounds as the tree has entries, and one, are enough.
  pub missing_zone-between :
      (root : Node) (snapshot first : ℕ) (mid : List ℕ) (xs ys : List Entry)
      → IsSorted (entries root)
      → entries root ≡ xs ++ committed snapshot ∷ (all_committed mid ++ committed first ∷ ys)
      → snapshot < 2 ^ 64
      → All (λ p. p < 2 ^ 64) mid
      → first < 2 ^ 64
      → All (λ p. p ≢ first) mid
      → missing_zone lexical_cast root snapshot first ≡ some mid
  unfolding missing_zone prefix_seek
  missing_zone-between root snapshot first mid xs ys h e b s c n =
      let q = prefix_string prefix_committed_intention (committed_key snapshot) in
      let zs : List Entry = all_committed mid ++ committed first ∷ ys in
      let parts = IsSorted-split xs (committed snapshot) zs (rw e at h) in
      let f : from q (entries root) ≡ committed snapshot ∷ zs =
        ap (from q) e ∙ from_at q [] xs zs parts.1 in
      let (it, g, (r, (xs', _, a))) =
        Holds-some
          (λ it'.
            (it'.root ≡ root)
            × ((xs' : List Entry) × Below q xs' × Ahead it' xs' (from q (entries root))))
          _ (seek-Ahead q (new_iterator root) h) in
      let a' = subst (Ahead it xs') f a in
      let hit : IsSorted (entries it.root) = subst (λ z. IsSorted (entries z)) (sym r) h in
      let (v, p) = at_committed it xs' snapshot zs b a' in
      let same : (snapshot == snapshot) ≡ true = ground arith in
      let (it', g', (r', a'')) =
        Holds-some (λ m. (m.root ≡ it.root) × Ahead m (xs' ++ committed snapshot ∷ []) zs) (next it)
          (next-Ahead it xs' (committed snapshot) zs hit (inl a')) in
      let hit' : IsSorted (entries it'.root) = subst (λ z. IsSorted (entries z)) (sym r') hit in
      let v' = valid_next it' (xs' ++ committed snapshot ∷ []) mid first ys s c a'' in
      let n1 = ap length e ∙ length-append xs (committed snapshot ∷ zs) in
      let n2 = length-append (all_committed mid) (committed first ∷ ys) in
      let n3 = length_all mid in
      rw (g, ◌>>=◌, p, same, assert, g', v')
        (scan_zone-Ahead (suc (length (entries root))) first it' (xs' ++ committed snapshot ∷ [])
          mid ys (omega arith) hit' s c n a'')
