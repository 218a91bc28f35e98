-- ===== src/Tree/DeleteMirror.antt =====
-- src/db/persistent_tree.cc: `mirror_remove_balance` on a doubly black node of a red-black tree.
use cruzdb.Prelude.{
  ℕ, zero, suc, ◌<◌, Bool, true, false, List, ◌∷◌, Option, ◌≡◌, refl, ◌∙◌, inl, inr, Holds,
  Holds-imp, length, arith,
}
use cruzdb.Prelude.Int.{ℤ}
use cruzdb.Slice.{Slice}
use cruzdb.Node.{Node, nil, node, NodePtr, NodeAddress, Side, left, right, is_red, branch}
use cruzdb.Tree.Path.{Frame, rebuild, set_address}
use cruzdb.Tree.Delete.{
  Step, loop, done, rotate_red_brother, balance_black_brother, mirror_remove_balance,
}
use cruzdb.Tree.Entries.{entries, frame, entries_laws}
use cruzdb.Tree.Balanced.{Balanced, Fits, Fits-above, Fits-sibling, Fits-set_address}
use cruzdb.Tree.DeleteRound.{Left, black_brother-Left, raise_eq, rounds}

Left-congr : (t u : Node) (n : ℕ) (s : Step) → entries u ≡ entries t → Left u n s → Left t n s
Left-congr t u n (loop extra path) e (h, x, y, z) = (h, x, y ∙ e, z)
Left-congr t u n (done root) e x = (x.0, x.1 ∙ e)

pub Balanced-pos : (t : Node) (h : ℕ) → Balanced t h → 0 < h
Balanced-pos nil h b = omega arith
Balanced-pos (node true i k v la l ra r) h b = Balanced-pos l h b.2
Balanced-pos (node false i k v la l ra r) zero b = absurd b
Balanced-pos (node false i k v la l ra r) (suc h) b = omega arith

pub rounds-le : (c : Bool) (path : List Frame) → rounds c path < suc (length path)
rounds-le true path = omega arith
rounds-le false path = omega arith

module _ (rid : ℤ) (extra : Node) (path : List Frame) (h : ℕ) (pi : ℤ) (pk pv : Slice)
    (pa ba : Option NodeAddress) (bi : ℤ) (bk bv : Slice) (re : is_red extra ≡ false)
    (be : Balanced extra h) where
  mirror_red_eq :
      (s : Side) (a b : NodePtr)
      → let brother : NodePtr = record { address = ba; ref = branch s true bi bk bv a b } in
        mirror_remove_balance rid extra (frame s false pi pk pv pa brother) path
        ≡ balance_black_brother rid extra
            (frame s true pi pk pv pa a)
            (frame s false rid bk bv a.address b ∷ set_address ba path)
  unfolding mirror_remove_balance rotate_red_brother
  mirror_red_eq left a b = rw (raise_eq rid extra path h pi pk pv pa ba bi bk bv left a b) refl
  mirror_red_eq right a b = rw (raise_eq rid extra path h pi pk pv pa ba bi bk bv right a b) refl

  -- The black brother that a red one leaves behind is a node with two children.
  raised-Left :
      (s : Side) (na : Option NodeAddress) (near : Node) (far : NodePtr)
      → is_red near ≡ false
      → is_red far.ref ≡ false
      → Balanced near (suc h)
      → Balanced far.ref (suc h)
      → Fits path (suc (suc h))
      → let a : NodePtr = record { address = na; ref = near } in
        let brother : NodePtr = record { address = ba; ref = branch s true bi bk bv a far } in
        let parent = frame s false pi pk pv pa brother in
        Holds
          (Left (rebuild extra (parent ∷ path)) (suc (length path)))
          (mirror_remove_balance rid extra parent path)
  raised-Left left na (node false ni nk nv nla nl nra nr) far rn rf bn bf fits =
      let upper = frame left false rid bk bv na far in
      let a : NodePtr = record { address = na; ref = node false ni nk nv nla nl nra nr } in
      let brother : NodePtr = record { address = ba; ref = branch left true bi bk bv a far } in
      let t = rebuild extra (frame left false pi pk pv pa brother ∷ path) in
      let u = rebuild extra (frame left true pi pk pv pa a ∷ upper ∷ set_address ba path) in
      let e : entries u ≡ entries t = simp entries_laws in
      rw (mirror_red_eq left a far) (
        Holds-imp (Left u (suc (length path))) (Left t (suc (length path))) _
          (λ st. Left-congr t u (suc (length path)) st e)
          (black_brother-Left rid extra (upper ∷ set_address ba path) h pi pk pv pa na ni nk nv left
            true (record { address = nla; ref = nl }) (record { address = nra; ref = nr })
            (suc (length path)) re be bn.0 bn.1
            (refl, inr (refl, bf, Fits-set_address ba path (suc (suc h)) fits)) (omega arith)))
  raised-Left right na (node false ni nk nv nla nl nra nr) far rn rf bn bf fits =
      let upper = frame right false rid bk bv na far in
      let a : NodePtr = record { address = na; ref = node false ni nk nv nla nl nra nr } in
      let brother : NodePtr = record { address = ba; ref = branch right true bi bk bv a far } in
      let t = rebuild extra (frame right false pi pk pv pa brother ∷ path) in
      let u = rebuild extra (frame right true pi pk pv pa a ∷ upper ∷ set_address ba path) in
      let e : entries u ≡ entries t = simp entries_laws in
      rw (mirror_red_eq right a far) (
        Holds-imp (Left u (suc (length path))) (Left t (suc (length path))) _
          (λ st. Left-congr t u (suc (length path)) st e)
          (black_brother-Left rid extra (upper ∷ set_address ba path) h pi pk pv pa na ni nk nv
            right true (record { address = nra; ref = nr }) (record { address = nla; ref = nl })
            (suc (length path)) re be bn.1 bn.0
            (refl, inr (refl, bf, Fits-set_address ba path (suc (suc h)) fits)) (omega arith)))
  raised-Left s na nil far rn rf bn bf fits = absurd (omega (arith, Balanced-pos extra h be))
  raised-Left s na (node true ni nk nv nla nl nra nr) far rn rf bn bf fits = cc

module _ (rid : ℤ) (extra : Node) (path : List Frame) (h : ℕ) (pi : ℤ) (pk pv : Slice)
    (pa ba : Option NodeAddress) (re : is_red extra ≡ false) (be : Balanced extra h) where
  -- A brother of either colour.
  pub mirror-Left :
      (s : Side) (c : Bool) (u : Node)
      → let parent = frame s c pi pk pv pa (record { address = ba; ref = u }) in
        Fits (parent ∷ path) (suc h)
        → Holds
            (Left (rebuild extra (parent ∷ path)) (suc (length path)))
            (mirror_remove_balance rid extra parent path)
  unfolding mirror_remove_balance rotate_red_brother
  mirror-Left s c nil fits = absurd (
      omega (
        arith,
        Balanced-pos extra h be,
        Fits-sibling (frame s c pi pk pv pa (record { address = ba; ref = nil })) path (suc h) fits,
      ))
  mirror-Left left c (node false bi bk bv na near fa far) fits =
      let b : NodePtr = record { address = ba; ref = node false bi bk bv na near fa far } in
      let x = Fits-sibling (frame left c pi pk pv pa b) path (suc h) fits in
      black_brother-Left rid extra path h pi pk pv pa ba bi bk bv left c
        (record { address = na; ref = near }) (record { address = fa; ref = far })
        (suc (length path)) re be x.0 x.1
        (Fits-above (frame left c pi pk pv pa b) path (suc h) fits) (rounds-le c path)
  mirror-Left right c (node false bi bk bv fa far na near) fits =
      let b : NodePtr = record { address = ba; ref = node false bi bk bv fa far na near } in
      let x = Fits-sibling (frame right c pi pk pv pa b) path (suc h) fits in
      black_brother-Left rid extra path h pi pk pv pa ba bi bk bv right c
        (record { address = na; ref = near }) (record { address = fa; ref = far })
        (suc (length path)) re be x.1 x.0
        (Fits-above (frame right c pi pk pv pa b) path (suc h) fits) (rounds-le c path)
  mirror-Left s c (node true bi bk bv na near fa far) (inl x) = cc (x.1)
  mirror-Left s true (node true bi bk bv na near fa far) (inr x) = cc (x.0)
  mirror-Left left false (node true bi bk bv na near fa far) (inr x) =
      raised-Left rid extra path h pi pk pv pa ba bi bk bv re be left na near
        (record { address = fa; ref = far }) x.1.0 x.1.1 x.1.2 x.1.3 x.2
  mirror-Left right false (node true bi bk bv fa far na near) (inr x) =
      raised-Left rid extra path h pi pk pv pa ba bi bk bv re be right na near
        (record { address = fa; ref = far }) x.1.1 x.1.0 x.1.3 x.1.2 x.2
