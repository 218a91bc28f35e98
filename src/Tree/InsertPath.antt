-- ===== src/Tree/InsertPath.antt =====
-- src/db/persistent_tree.cc: the path that `insert_recursive` builds in a red-black tree.
use mathlib.Core.Path.{subst}
use cruzdb.Prelude.{
  ℕ, List, ◌++◌, some, ◌≡◌, sym, ◌∙◌, inl, inr, >>=-eq-some, some_injective, Ordering-cases,
}
use cruzdb.Prelude.Int.{ℤ}
use cruzdb.Slice.{Slice, SliceCompare}
use cruzdb.Node.{Node, nil, node, left, right}
use cruzdb.Tree.Path.{Frame}
use cruzdb.Tree.Insert.{insert_recursive}
use cruzdb.Tree.Lookup.{insert_recursive_left, insert_recursive_right, insert_recursive-eq}
use cruzdb.Tree.Balanced.{push_back-Fits, Balanced, Fits, RedBelowBlack, Fits-down}

module _ ⦃o : SliceCompare⦄ (rid : ℤ) (q w : Slice) where
  nil-Fits :
      (p : Node × List Frame) (path : List Frame) (h : ℕ)
      → Balanced nil h
      → Fits path h
      → RedBelowBlack nil path
      → insert_recursive rid q w nil ≡ some p
      → Fits (p.1 ++ path) 1
  unfolding insert_recursive
  nil-Fits p path h b fits red e =
      subst (λ (x : Node × List Frame). Fits (x.1 ++ path) 1) (some_injective e)
        (subst (Fits path) b fits)

  -- Below any path in which the tree fits, the path to the new node fits a red node.
  pub insert_recursive-Fits :
      (t : Node) (p : Node × List Frame) (path : List Frame) (h : ℕ)
      → Balanced t h
      → Fits path h
      → RedBelowBlack t path
      → insert_recursive rid q w t ≡ some p
      → Fits (p.1 ++ path) 1
  insert_recursive-Fits nil p path h b fits red e = nil-Fits p path h b fits red e
  insert_recursive-Fits (node c i k v la l ra r) p path h b fits red e =
      elim (Ordering-cases (o.compare q k)) [
        | inl less ↦
            let (p', e', g) =
              >>=-eq-some _ _ (sym (insert_recursive_left rid q w c i k v la l ra r less) ∙ e) in
            let (h', b', fits', red') =
              Fits-down left c i rid k v (record { address = la; ref = l })
                (record { address = ra; ref = r }) path h b fits red in
            push_back-Fits p p' _ path 1 g (insert_recursive-Fits l p' _ h' b' fits' red' e')
        | inr (inl same) ↦ cc (insert_recursive-eq rid q w c i k v la l ra r same)
        | inr (inr more) ↦
            let (p', e', g) =
              >>=-eq-some _ _ (sym (insert_recursive_right rid q w c i k v la l ra r more) ∙ e) in
            let (h', b', fits', red') =
              Fits-down right c i rid k v (record { address = ra; ref = r })
                (record { address = la; ref = l }) path h b fits red in
            push_back-Fits p p' _ path 1 g (insert_recursive-Fits r p' _ h' b' fits' red' e')
      ]
