-- ===== src/Tree/DeleteRound.antt =====
-- src/db/persistent_tree.cc: one round of `mirror_remove_balance` on a doubly black node.
use cruzdb.Prelude.{
  ℕ, suc, ◌<◌, Bool, true, false, not, ◌&&◌, List, ◌∷◌, Option, some, ◌≡◌, refl, ◌⊎◌, inl, inr,
  Holds, Holds-imp, Holds-else, length, if◌then◌else◌,
}
use cruzdb.Prelude.Int.{ℤ}
use cruzdb.Slice.{Slice}
use cruzdb.Node.{Node, nil, node, NodePtr, NodeAddress, Side, left, right, is_red, set_red, branch}
use cruzdb.Tree.Path.{Frame, rebuild, close, rotate, set_address}
use cruzdb.Tree.Delete.{
  Step, loop, done, paint_brother, balance_black_brother, raise_red_brother, rotate_nephews,
}
use cruzdb.Tree.Entries.{entries, frame, own-node, entries_laws}
use cruzdb.Tree.Balanced.{Balanced, Fits, FitsAbove}
use cruzdb.Tree.DeleteRotate.{Settled, Ends, far-Ends, near-Ends}

-- A subtree that is one black node short of its hole, or is made so by colouring it black.
abbrev pub Extra : Node → List Frame → ℕ → Type 0
Extra t path h =
    Fits path (suc h)
    × (((is_red t ≡ false) × Balanced t h)
        ⊎ ((is_red t ≡ true) × Balanced (set_red false t) (suc h)))

-- The rounds that may be left: none at a red node.
abbrev pub rounds : Bool → List Frame → ℕ
rounds true path = 0
rounds false path = length path

-- What a round leaves.
abbrev pub Left : Node → ℕ → Step → Type 0
Left t n (loop extra path) =
    (h : ℕ) × Extra extra path h
    × (entries (rebuild extra path) ≡ entries t)
    × (rounds (is_red extra) path < n)
Left t n (done root) = Settled t root

Ends-Left : (t : Node) (n : ℕ) (s : Step) → Ends t s → Left t n s
Ends-Left t n (loop extra path) e = absurd e
Ends-Left t n (done root) e = e

and_false : (b : Bool) → (b && false) ≡ false
and_false true = refl
and_false false = refl

module _ (rid : ℤ) (extra : Node) (path : List Frame) (h : ℕ) (pi : ℤ) (pk pv : Slice)
    (pa ba : Option NodeAddress) (bi : ℤ) (bk bv : Slice) where
  paint_eq :
      (s : Side) (c : Bool) (near far : NodePtr)
      → let brother : NodePtr = record { address = ba; ref = branch s false bi bk bv near far } in
        let red_brother : NodePtr = record {
          address = ba;
          ref = branch s true rid bk bv near far;
        } in
        paint_brother rid extra (frame s c pi pk pv pa brother) path
        ≡ loop (close (frame s c pi pk pv pa red_brother) extra) path
  unfolding paint_brother
  paint_eq left c near far = rw (own-node rid false bi bk bv) refl
  paint_eq right c near far = rw (own-node rid false bi bk bv) refl

  -- Two black nephews: the brother turns red, and the parent takes over the extra black.
  paint-Left :
      (s : Side) (c : Bool) (near far : NodePtr) (n : ℕ)
      → is_red extra ≡ false
      → Balanced extra h
      → is_red near.ref ≡ false
      → is_red far.ref ≡ false
      → Balanced near.ref h
      → Balanced far.ref h
      → FitsAbove c path (suc h)
      → rounds c path < n
      → let brother : NodePtr = record { address = ba; ref = branch s false bi bk bv near far } in
        let parent = frame s c pi pk pv pa brother in
        Left (rebuild extra (parent ∷ path)) n (paint_brother rid extra parent path)
  paint-Left left true near far n re be rn rf bn bf above lt =
      rw (paint_eq left true near far)
        (h, (above.1, inr (refl, (be, (rn, rf, bn, bf)))), simp entries_laws, lt)
  paint-Left right true near far n re be rn rf bn bf above lt =
      rw (paint_eq right true near far)
        (h, (above.1, inr (refl, ((rf, rn, bf, bn), be))), simp entries_laws, lt)
  paint-Left left false near far n re be rn rf bn bf above lt =
      rw (paint_eq left false near far)
        (suc h, (above, inl (refl, (be, (rn, rf, bn, bf)))), simp entries_laws, lt)
  paint-Left right false near far n re be rn rf bn bf above lt =
      rw (paint_eq right false near far)
        (suc h, (above, inl (refl, ((rf, rn, bf, bn), be))), simp entries_laws, lt)

  black_eq :
      (s : Side) (c : Bool) (near far : NodePtr)
      → let brother : NodePtr = record { address = ba; ref = branch s false bi bk bv near far } in
        let parent = frame s c pi pk pv pa brother in
        balance_black_brother rid extra parent path ≡ (
          if not (is_red near.ref) && not (is_red far.ref)
          then some (paint_brother rid extra parent path)
          else rotate_nephews rid extra parent far path)
  unfolding balance_black_brother
  black_eq left c near far = refl
  black_eq right c near far = refl

  -- The parent over the doubly black node, beside a black brother with the given children.
  abbrev pub parent_of : Side → Bool → NodePtr → NodePtr → Frame
  parent_of s c a b =
      frame s c pi pk pv pa (record { address = ba; ref = branch s false bi bk bv a b })

  abbrev pub whole : Side → Bool → NodePtr → NodePtr → Node
  whole s c a b = rebuild extra (parent_of s c a b ∷ path)

  -- The nephews decide: the round goes on, or ends the loop.
  nephews-Left :
      (s : Side) (c : Bool) (na : Option NodeAddress) (near : Node) (fa : Option NodeAddress)
      (far : Node) (n : ℕ)
      → is_red extra ≡ false
      → Balanced extra h
      → Balanced near h
      → Balanced far h
      → FitsAbove c path (suc h)
      → rounds c path < n
      → let a : NodePtr = record { address = na; ref = near } in
        let b : NodePtr = record { address = fa; ref = far } in
        Holds (Left (whole s c a b) n) (
          if not (is_red near) && not (is_red far)
          then some (paint_brother rid extra (parent_of s c a b) path)
          else rotate_nephews rid extra (parent_of s c a b) b path)
  nephews-Left s c na near fa (node true fi fk fv fla fl fra fr) n re be bn bf above lt =
      let a : NodePtr = record { address = na; ref = near } in
      let b : NodePtr = record { address = fa; ref = node true fi fk fv fla fl fra fr } in
      Holds-else (Left (whole s c a b) n) (not (is_red near) && false) _ _
        (and_false (not (is_red near)))
        (Holds-imp (Ends (whole s c a b)) (Left (whole s c a b) n) _ (Ends-Left (whole s c a b) n) (
          far-Ends rid extra path h c pi pk pv pa ba bi bk bv s a fa fi fk fv fla fra fl fr be bn
            bf.2 bf.3 above))
  nephews-Left s c na (node true ni nk nv nla nl nra nr) fa far n re be bn bf above lt =
      let a : NodePtr = record { address = na; ref = node true ni nk nv nla nl nra nr } in
      let b : NodePtr = record { address = fa; ref = far } in
      Holds-imp (Ends (whole s c a b)) (Left (whole s c a b) n) _ (Ends-Left (whole s c a b) n) (
        near-Ends rid extra path h c pi pk pv pa ba bi bk bv s na ni nk nv nla nra nl nr b be bn.2
          bn.3 bf bn.0 bn.1 refl above)
  nephews-Left s c na nil fa far n re be bn bf above lt =
      paint-Left s c (record { address = na; ref = nil }) (record { address = fa; ref = far }) n re
        be refl refl bn bf above lt
  nephews-Left s c na near fa far n re be bn bf above lt =
      paint-Left s c (record { address = na; ref = near }) (record { address = fa; ref = far }) n re
        be refl refl bn bf above lt

  pub black_brother-Left :
      (s : Side) (c : Bool) (a b : NodePtr) (n : ℕ)
      → is_red extra ≡ false
      → Balanced extra h
      → Balanced a.ref h
      → Balanced b.ref h
      → FitsAbove c path (suc h)
      → rounds c path < n
      → Holds (Left (whole s c a b) n) (balance_black_brother rid extra (parent_of s c a b) path)
  black_brother-Left s c a b n re be bn bf above lt =
      rw (black_eq s c a b)
        (nephews-Left s c a.address a.ref b.address b.ref n re be bn bf above lt)

-- A red brother goes up, and the doubly black node has a black brother below a red parent.
module _ (rid : ℤ) (extra : Node) (path : List Frame) (h : ℕ) (pi : ℤ) (pk pv : Slice)
    (pa ba : Option NodeAddress) (bi : ℤ) (bk bv : Slice) where
  pub raise_eq :
      (s : Side) (near far : NodePtr)
      → let brother : NodePtr = record { address = ba; ref = branch s true bi bk bv near far } in
        raise_red_brother rid extra (frame s false pi pk pv pa brother) path
        ≡ some (
          frame s true pi pk pv pa near,
          frame s false rid bk bv near.address far ∷ set_address ba path,
        )
  unfolding raise_red_brother rotate
  raise_eq left near far = rw (own-node rid true bi bk bv) refl
  raise_eq right near far = rw (own-node rid true bi bk bv) refl
