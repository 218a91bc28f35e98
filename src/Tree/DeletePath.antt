-- ===== src/Tree/DeletePath.antt =====
-- src/db/persistent_tree.cc: the node and the path that `delete_recursive` finds.
use mathlib.Core.Path.{subst}
use Prim.Native.Nat.Ordering.{lt, eq, gt}
use cruzdb.Prelude.{
  ℕ, zero, suc, Bool, true, false, List, [], ◌∷◌, ◌++◌, Option, none, some, ◌>>=◌, ◌≡◌, refl, sym,
  ◌∙◌, inl, inr, append_assoc, >>=-eq-some, >>=-eq-none, some_injective, Ordering-cases,
}
use cruzdb.Prelude.Int.{ℤ}
use cruzdb.Slice.{Slice, SliceCompare}
use cruzdb.Node.{Node, nil, node, NodeAddress, left, right}
use cruzdb.Tree.Path.{Frame}
use cruzdb.Tree.Insert.{get}
use cruzdb.Tree.Delete.{delete_recursive}
use cruzdb.Tree.Entries.{
  entries, frame, before, after, before-append, after-append, own-node, entries_laws,
}
use cruzdb.Tree.Balanced.{Balanced, Fits, RedBelowBlack, Fits-down}

-- The node with key `q`, in a balanced tree below `path`: the entries around it and the balance.
abbrev pub Found : Slice → Node → List Frame → Node × List Frame → Type 0
Found q t path (nil, above) = ⊥
Found q t path (node c i k v la l ra r, above) =
    (k ≡ q)
    × (entries t ≡ before above ++ (entries l ++ (k, v) ∷ entries r) ++ after above)
    × (h : ℕ) × Balanced (node c i k v la l ra r) h
    × Fits (above ++ path) h
    × RedBelowBlack (node c i k v la l ra r) (above ++ path)

module _ ⦃o : SliceCompare⦄ (rid : ℤ) (q : Slice) where
  module _ (c : Bool) (i : ℤ) (k v : Slice) (la : Option NodeAddress) (l : Node)
      (ra : Option NodeAddress) (r : Node) where
    delete_recursive_left :
        o.compare q k ≡ lt
        → delete_recursive rid q (node c i k v la l ra r) ≡ (
            delete_recursive rid q l >>= λ p.
            some (p.0, p.1 ++ frame left c rid k v la (record { address = ra; ref = r }) ∷ []))
    unfolding delete_recursive
    delete_recursive_left h = rw (h, delete_recursive, own-node) refl

    delete_recursive_right :
        o.compare q k ≡ gt
        → delete_recursive rid q (node c i k v la l ra r) ≡ (
            delete_recursive rid q r >>= λ p.
            some (p.0, p.1 ++ frame right c rid k v ra (record { address = la; ref = l }) ∷ []))
    unfolding delete_recursive
    delete_recursive_right h = rw (h, delete_recursive, own-node) refl

    delete_recursive-eq :
        o.compare q k ≡ eq
        → delete_recursive rid q (node c i k v la l ra r) ≡ some (node c rid k v la l ra r, [])
    unfolding delete_recursive
    delete_recursive-eq h = rw (h, delete_recursive, own-node) refl

    Found-left :
        (p : Node × List Frame) (path : List Frame)
        → let f = frame left c rid k v la (record { address = ra; ref = r }) in
          Found q l (f ∷ path) p → Found q (node c i k v la l ra r) path (p.0, p.1 ++ f ∷ [])
    Found-left (nil, above) path h = absurd h
    Found-left (node pc pi pk pv pla pl pra pr, above) path (e, f, h, b, fits, red) = (
      e,
      simp (before-append, after-append, f, entries_laws),
      h,
      b,
      rw append_assoc fits,
      rw append_assoc red,
    )

    Found-right :
        (p : Node × List Frame) (path : List Frame)
        → let f = frame right c rid k v ra (record { address = la; ref = l }) in
          Found q r (f ∷ path) p → Found q (node c i k v la l ra r) path (p.0, p.1 ++ f ∷ [])
    Found-right (nil, above) path h = absurd h
    Found-right (node pc pi pk pv pla pl pra pr, above) path (e, f, h, b, fits, red) = (
      e,
      simp (before-append, after-append, f, entries_laws),
      h,
      b,
      rw append_assoc fits,
      rw append_assoc red,
    )

  delete_recursive_nil : (p : Node × List Frame) → delete_recursive rid q nil ≡ some p → ⊥
  unfolding delete_recursive
  delete_recursive_nil p e = cc

  same_rid :
      (c : Bool) (i j : ℤ) (k v : Slice) (la : Option NodeAddress) (l : Node)
      (ra : Option NodeAddress) (r : Node) (path : List Frame) (h : ℕ)
      → Balanced (node c i k v la l ra r) h
      → RedBelowBlack (node c i k v la l ra r) path
      → Balanced (node c j k v la l ra r) h × RedBelowBlack (node c j k v la l ra r) path
  same_rid true i j k v la l ra r path h b red = (b, red)
  same_rid false i j k v la l ra r path zero b red = absurd b
  same_rid false i j k v la l ra r path (suc h) b red = (b, red)

  pub delete_recursive-Found :
      (t : Node) (p : Node × List Frame) (path : List Frame) (h : ℕ)
      → Balanced t h
      → Fits path h
      → RedBelowBlack t path
      → delete_recursive rid q t ≡ some p
      → Found q t path p
  delete_recursive-Found nil p path h b fits red e = absurd (delete_recursive_nil p e)
  delete_recursive-Found (node c i k v la l ra r) p path h b fits red e =
      elim (Ordering-cases (o.compare q k)) [
        | inl less ↦
            let (p', e', g) =
              >>=-eq-some _ _ (sym (delete_recursive_left c i k v la l ra r less) ∙ e) in
            let (h', b', fits', red') =
              Fits-down left c i rid k v (record { address = la; ref = l })
                (record { address = ra; ref = r }) path h b fits red in
            subst (Found q (node c i k v la l ra r) path) (some_injective g) (
              Found-left c i k v la l ra r p' path
                (delete_recursive-Found l p' _ h' b' fits' red' e'))
        | inr (inl same) ↦
            let (b', red') = same_rid c i rid k v la l ra r path h b red in
            subst (Found q (node c i k v la l ra r) path)
              (some_injective (sym (delete_recursive-eq c i k v la l ra r same) ∙ e))
              (sym (o.eq_of_compare q k same), simp entries_laws, h, b', fits, red')
        | inr (inr more) ↦
            let (p', e', g) =
              >>=-eq-some _ _ (sym (delete_recursive_right c i k v la l ra r more) ∙ e) in
            let (h', b', fits', red') =
              Fits-down right c i rid k v (record { address = ra; ref = r })
                (record { address = la; ref = l }) path h b fits red in
            subst (Found q (node c i k v la l ra r) path) (some_injective g) (
              Found-right c i k v la l ra r p' path
                (delete_recursive-Found r p' _ h' b' fits' red' e'))
      ]

  -- A key that `Get` does not find is not found by `delete_recursive`.
  pub delete_recursive-none : (t : Node) → delete_recursive rid q t ≡ none → get q t ≡ none
  unfolding get
  delete_recursive-none nil e = refl
  delete_recursive-none (node c i k v la l ra r) e = elim (Ordering-cases (o.compare q k)) [
    | inl less ↦
        rw (less, get)
          (delete_recursive-none l
            (>>=-eq-none _ _ (sym (delete_recursive_left c i k v la l ra r less) ∙ e)))
    | inr (inl same) ↦ cc (delete_recursive-eq c i k v la l ra r same)
    | inr (inr more) ↦
        rw (more, get)
          (delete_recursive-none r
            (>>=-eq-none _ _ (sym (delete_recursive_right c i k v la l ra r more) ∙ e)))
  ]
