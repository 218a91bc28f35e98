-- ===== src/Validate.antt =====
-- src/db/db_impl.cc: `DBImpl::Validate`, the check that a tree is a red-black tree.
use Prim.Native.Nat.Ordering.{lt, gt}
use cruzdb.Prelude.{
  ℕ, zero, suc, ◌+◌, Bool, true, false, not, ◌&&◌, ◌||◌, ◌∷◌, ◌≡◌, ◌≢◌, refl, sym, arith,
  All-append_right, ◌==◌, if◌then◌else◌,
}
use cruzdb.Slice.{Slice, SliceCompare, ◌≺◌}
use cruzdb.Dict.{IsSorted, IsSorted-split, Below, Above}
use cruzdb.Node.{Node, nil, node, is_red}
use cruzdb.Tree.Entries.{entries}
use cruzdb.Tree.Balanced.{Balanced}
use cruzdb.Tree.DeleteMirror.{Balanced-pos}
use cruzdb.Tree.Correct.{IsValid}

module _ ⦃o : SliceCompare⦄ where
  -- `ln != Node::Nil() && ln->key().compare(root->key()) >= 0`, and the mirror test.
  unfoldable pub left_out_of_order : Node → Slice → Bool
  left_out_of_order nil k = false
  left_out_of_order (node c i lk v la l ra r) k = elim (o.compare lk k) [ lt ↦ false | _ ↦ true ]

  unfoldable pub right_out_of_order : Node → Slice → Bool
  right_out_of_order nil k = false
  right_out_of_order (node c i rk v la l ra r) k = elim (o.compare rk k) [ gt ↦ false | _ ↦ true ]

  -- The result for a node, from the heights of its subtrees.
  unfoldable pub validate_heights : Bool → Bool → ℕ → ℕ → ℕ
  validate_heights red out_of_order lh rh =
      if out_of_order
      then 0
      else if not (lh == 0) && not (rh == 0) && not (lh == rh)
      then 0
      else if not (lh == 0) && not (rh == 0)
      then (if red then lh else lh + 1)
      else 0

  -- `Validate`: the black height, or 0 for a tree that fails the check.
  unfoldable pub validate : Node → ℕ
  validate nil = 1
  validate (node c i k v la l ra r) =
      let rest =
        validate_heights c (left_out_of_order l k || right_out_of_order r k) (validate l)
          (validate r) in
      if c && (is_red l || is_red r) then 0 else rest

  -- What `Validate` accepts is balanced, with the black height that it returns.
  pub validate-Balanced : (t : Node) (h : ℕ) → validate t ≡ suc h → Balanced t (suc h)
  unfolding validate validate_heights
  validate-Balanced nil h e = omega arith
  validate-Balanced (node true i k v la l ra r) h e =
      ground (arith, validate-Balanced l h, validate-Balanced r h)
  validate-Balanced (node false i k v la l ra r) zero e = absurd (ground arith)
  validate-Balanced (node false i k v la l ra r) (suc h) e =
      ground (arith, validate-Balanced l h, validate-Balanced r h)

  left_in_order : (t : Node) (k : Slice) → Below k (entries t) → left_out_of_order t k ≡ false
  unfolding left_out_of_order
  left_in_order nil k b = refl
  left_in_order (node c i lk v la l ra r) k b =
      rw
        ((All-append_right (λ e. e.0 ≺ k) (entries l) ((lk, v) ∷ entries r) b).0, left_out_of_order)
        refl

  right_in_order : (t : Node) (k : Slice) → Above k (entries t) → right_out_of_order t k ≡ false
  unfolding right_out_of_order
  right_in_order nil k b = refl
  right_in_order (node c i rk v la l ra r) k b =
      rw
        (
          o.gt_of_lt k rk (All-append_right (λ e. k ≺ e.0) (entries l) ((rk, v) ∷ entries r) b).0,
          right_out_of_order,
        )
        refl

  -- `Validate` returns the black height of a balanced tree with sorted entries.
  pub validate-eq : (t : Node) (h : ℕ) → Balanced t h → IsSorted (entries t) → validate t ≡ h
  unfolding validate validate_heights
  validate-eq nil h b s = sym b
  validate-eq (node true i k v la l ra r) h b s =
      let (sl, bl, ar, sr) = IsSorted-split (entries l) (k, v) (entries r) s in
      ground (
        arith,
        validate-eq l h b.2 sl,
        validate-eq r h b.3 sr,
        left_in_order l k bl,
        right_in_order r k ar,
        Balanced-pos l h b.2,
      )
  validate-eq (node false i k v la l ra r) zero b s = absurd b
  validate-eq (node false i k v la l ra r) (suc h) b s =
      let (sl, bl, ar, sr) = IsSorted-split (entries l) (k, v) (entries r) s in
      ground (
        arith,
        validate-eq l h b.0 sl,
        validate-eq r h b.1 sr,
        left_in_order l k bl,
        right_in_order r k ar,
        Balanced-pos l h b.0,
      )

  -- On a red-black search tree with a black root `Validate` does not return 0.
  pub validate-IsValid : (t : Node) → IsValid t → validate t ≢ 0
  validate-IsValid t v =
      let (h, b) = v.balanced in omega (arith, validate-eq t h b v.sorted, Balanced-pos t h b)
