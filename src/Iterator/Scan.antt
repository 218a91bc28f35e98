-- ===== src/Iterator/Scan.antt =====
-- src/include/cruzdb/iterator.h: the loop of a client of the iterator,
-- `for (it->SeekToFirst(); it->Valid(); it->Next())`, which reads every key and value.
use cruzdb.Prelude.{
  ℕ, zero, suc, ◌<◌, false, List, [], ◌∷◌, ◌++◌, Option, none, some, ◌>>=◌, ◌≡◌, refl, inl,
  if◌then◌else◌, length, Holds-some, arith,
}
use cruzdb.Slice.{SliceCompare}
use cruzdb.Dict.{Entry, IsSorted}
use cruzdb.Node.{Node, nil, node}
use cruzdb.Tree.Entries.{entries}
use cruzdb.Iterator.Raw.{RawIterator, Direction, valid, key, value, seek_to_first, next}
use cruzdb.Iterator.Stack.{ahead, Nodes}
use cruzdb.Iterator.Moves.{Ahead, seek_to_first-Ahead}
use cruzdb.Iterator.Turns.{At-reads, next-Ahead}

invalid_at_end :
    (t : Node) (s : List Node) (d : Direction)
    → Nodes s
    → ahead s ≡ []
    → valid (record { root = t; stack = s; dir = d }) ≡ false
unfolding valid
invalid_at_end t [] d n h = refl
invalid_at_end t (nil ∷ s) d n h = cc
invalid_at_end t (node c i k v la l ra r ∷ s) d n h = cc

module _ ⦃o : SliceCompare⦄ where
  -- The loop, on fuel: `none` is a failed assertion, or the fuel has run out.
  unfoldable pub scan : ℕ → RawIterator → Option (List Entry)
  scan zero it = none
  scan (suc fuel) it =
      if valid it
      then (key it >>= λ k.
          value it >>= λ v. next it >>= λ it'. scan fuel it' >>= λ es. some ((k, v) ∷ es))
      else some []

  scan-Ahead :
      (fuel : ℕ) (it : RawIterator) (xs ys : List Entry)
      → length ys < fuel
      → IsSorted (entries it.root)
      → Ahead it xs ys
      → scan fuel it ≡ some ys
  unfolding scan
  scan-Ahead zero it xs ys f h a = absurd (omega (arith, f))
  scan-Ahead (suc fuel) it xs [] f h a =
      rw (invalid_at_end it.root it.stack it.dir a.nodes a.stack_ahead, if◌then◌else◌) refl
  scan-Ahead (suc fuel) it xs (e ∷ ys) f h a =
      let r = At-reads it xs e ys (inl a) in
      let (it', g, b) =
        Holds-some (λ m. (m.root ≡ it.root) × Ahead m (xs ++ e ∷ []) ys) (next it)
          (next-Ahead it xs e ys h (inl a)) in
      let rest = scan-Ahead fuel it' (xs ++ e ∷ []) ys (omega (arith, f)) (rw (b.0) h) b.1 in
      rw (r.0, if◌then◌else◌, r.1, r.2, ◌>>=◌, g, rest) refl

  -- Over a snapshot with sorted entries the loop ends without a failed assertion, and has read all
  -- the entries of the snapshot, in order. One round more than there are entries is enough fuel.
  pub scan-entries :
      (it : RawIterator)
      → IsSorted (entries it.root)
      → scan (suc (length (entries it.root))) (seek_to_first it) ≡ some (entries it.root)
  unfolding seek_to_first
  scan-entries it h =
      scan-Ahead (suc (length (entries it.root))) (seek_to_first it) [] (entries it.root)
        (omega arith) h (seek_to_first-Ahead it)
