-- ===== src/Tree/DeleteRotate.antt =====
-- src/db/persistent_tree.cc: the last cases of `mirror_remove_balance`, where a nephew is red and
-- rotations end the loop.
use cruzdb.Prelude.{
  ℕ, suc, Bool, true, false, List, ◌∷◌, Option, some, ◌>>=◌, ◌≡◌, refl, ◌∙◌, Holds, Holds->>=,
}
use cruzdb.Prelude.Int.{ℤ}
use cruzdb.Slice.{Slice}
use cruzdb.Node.{Node, node, NodePtr, NodeAddress, Side, left, right, is_red, branch}
use cruzdb.Tree.Path.{Frame, rebuild, rotate}
use cruzdb.Tree.Delete.{Step, loop, done, rotate_brother, rotate_near_nephew, rotate_nephews}
use cruzdb.Tree.Entries.{entries, frame, own-node, entries_laws}
use cruzdb.Tree.Balanced.{Balanced, FitsAbove, Balanced-rebuild_above}

-- The result of the rotations: a balanced tree with the entries of a given one.
abbrev pub Settled : Node → Node → Type 0
Settled t root = ((h : ℕ) × Balanced root h) × (entries root ≡ entries t)

-- A black brother with a red far nephew goes up, takes the parent's colour and leaves black children.
pub rotate_brother-Settled :
    (rid : ℤ) (extra : Node) (path : List Frame) (h : ℕ) (s : Side) (c : Bool) (pi : ℤ)
    (pk pv : Slice) (pa : Option NodeAddress) (ps : NodePtr) (ba : Option NodeAddress) (bi : ℤ)
    (bk bv : Slice) (near : NodePtr) (fa : Option NodeAddress) (fi : ℤ) (fk fv : Slice)
    (fla fra : Option NodeAddress) (fl fr : Node)
    → Balanced extra h
    → Balanced near.ref h
    → Balanced fl h
    → Balanced fr h
    → FitsAbove c path (suc h)
    → let far : NodePtr = record { address = fa; ref = node true fi fk fv fla fl fra fr } in
      let brother : NodePtr = record { address = ba; ref = branch s false bi bk bv near far } in
      Holds
        (Settled (rebuild extra (frame s c pi pk pv pa brother ∷ path)))
        (rotate_brother rid extra (frame s c pi pk pv pa ps) brother path)
unfolding rotate_brother rotate
rotate_brother-Settled rid extra path h left c pi pk pv pa ps ba bi bk bv near fa fi fk fv fla fra
      fl fr be bn bl br above =
    rw (own-node rid false bi bk bv, own-node rid true fi fk fv)
      (
        Balanced-rebuild_above _ c rid bk bv _ _ _ _ path (suc h) refl refl (be, bn) (bl, br) above,
        simp entries_laws,
      )
rotate_brother-Settled rid extra path h right c pi pk pv pa ps ba bi bk bv near fa fi fk fv fla fra
      fl fr be bn bl br above =
    rw (own-node rid false bi bk bv, own-node rid true fi fk fv)
      (
        Balanced-rebuild_above _ c rid bk bv _ _ _ _ path (suc h) refl refl (bl, br) (bn, be) above,
        simp entries_laws,
      )

-- The near nephew, if it is the red one, goes up first: then the far nephew is red.
near_left :
    (rid : ℤ) (ba : Option NodeAddress) (bi : ℤ) (bk bv : Slice) (na : Option NodeAddress) (ni : ℤ)
    (nk nv : Slice) (nla nra : Option NodeAddress) (nl nr : Node) (far : NodePtr)
    → let near : NodePtr = record { address = na; ref = node true ni nk nv nla nl nra nr } in
      rotate_near_nephew rid left
        (record { address = ba; ref = branch left false bi bk bv near far })
      ≡ some (record {
        address = na;
        ref = node false rid nk nv nla nl nra (node true rid bk bv nra nr far.address far.ref);
      })
unfolding rotate_near_nephew rotate
near_left rid ba bi bk bv na ni nk nv nla nra nl nr far =
    rw (own-node rid false bi bk bv, own-node rid true ni nk nv) refl

near_right :
    (rid : ℤ) (ba : Option NodeAddress) (bi : ℤ) (bk bv : Slice) (na : Option NodeAddress) (ni : ℤ)
    (nk nv : Slice) (nla nra : Option NodeAddress) (nl nr : Node) (far : NodePtr)
    → let near : NodePtr = record { address = na; ref = node true ni nk nv nla nl nra nr } in
      rotate_near_nephew rid right
        (record { address = ba; ref = branch right false bi bk bv near far })
      ≡ some (record {
        address = na;
        ref = node false rid nk nv nla (node true rid bk bv far.address far.ref nla nl) nra nr;
      })
unfolding rotate_near_nephew rotate
near_right rid ba bi bk bv na ni nk nv nla nra nl nr far =
    rw (own-node rid false bi bk bv, own-node rid true ni nk nv) refl

-- What a step of the loop leaves when it ends the loop.
abbrev pub Ends : Node → Step → Type 0
Ends t (loop extra path) = ⊥
Ends t (done root) = Settled t root

done-Ends :
    (t u : Node) (m : Option Node)
    → entries u ≡ entries t
    → Holds (Settled u) m
    → Holds (Ends t) (m >>= λ root. some (done root))
done-Ends t u m e h =
    Holds->>= (Settled u) (Ends t) m (λ root. some (done root)) h (λ root x. (x.0, x.1 ∙ e))

-- Below a black brother with a red nephew the rotations end the loop with a balanced tree.
module _ (rid : ℤ) (extra : Node) (path : List Frame) (h : ℕ) (c : Bool) (pi : ℤ) (pk pv : Slice)
    (pa ba : Option NodeAddress) (bi : ℤ) (bk bv : Slice) where
  pub far-Ends :
      (s : Side) (near : NodePtr) (fa : Option NodeAddress) (fi : ℤ) (fk fv : Slice)
      (fla fra : Option NodeAddress) (fl fr : Node)
      → Balanced extra h
      → Balanced near.ref h
      → Balanced fl h
      → Balanced fr h
      → FitsAbove c path (suc h)
      → let far : NodePtr = record { address = fa; ref = node true fi fk fv fla fl fra fr } in
        let brother : NodePtr = record { address = ba; ref = branch s false bi bk bv near far } in
        let parent = frame s c pi pk pv pa brother in
        Holds (Ends (rebuild extra (parent ∷ path))) (rotate_nephews rid extra parent far path)
  unfolding rotate_nephews
  far-Ends s near fa fi fk fv fla fra fl fr be bn bl br above =
      let far : NodePtr = record { address = fa; ref = node true fi fk fv fla fl fra fr } in
      let brother : NodePtr = record { address = ba; ref = branch s false bi bk bv near far } in
      let t = rebuild extra (frame s c pi pk pv pa brother ∷ path) in
      done-Ends t t _ refl (
        rotate_brother-Settled rid extra path h s c pi pk pv pa _ ba bi bk bv near fa fi fk fv fla
          fra fl fr be bn bl br above)

  pub near-Ends :
      (s : Side) (na : Option NodeAddress) (ni : ℤ) (nk nv : Slice) (nla nra : Option NodeAddress)
      (nl nr : Node) (far : NodePtr)
      → Balanced extra h
      → Balanced nl h
      → Balanced nr h
      → Balanced far.ref h
      → is_red nl ≡ false
      → is_red nr ≡ false
      → is_red far.ref ≡ false
      → FitsAbove c path (suc h)
      → let near : NodePtr = record { address = na; ref = node true ni nk nv nla nl nra nr } in
        let brother : NodePtr = record { address = ba; ref = branch s false bi bk bv near far } in
        let parent = frame s c pi pk pv pa brother in
        Holds (Ends (rebuild extra (parent ∷ path))) (rotate_nephews rid extra parent far path)
  unfolding rotate_nephews
  near-Ends left na ni nk nv nla nra nl nr far be bl br bf rl rr rf above =
      let near : NodePtr = record { address = na; ref = node true ni nk nv nla nl nra nr } in
      let brother : NodePtr = record { address = ba; ref = branch left false bi bk bv near far } in
      let upper : NodePtr = record {
        address = na;
        ref = node false rid nk nv nla nl nra (node true rid bk bv nra nr far.address far.ref);
      } in
      rw (rf, near_left rid ba bi bk bv na ni nk nv nla nra nl nr far)
        (done-Ends (rebuild extra (frame left c pi pk pv pa brother ∷ path))
          (rebuild extra (frame left c pi pk pv pa upper ∷ path)) _ (simp entries_laws)
          (rotate_brother-Settled rid extra path h left c pi pk pv pa _ na rid nk nv
            (record { address = nla; ref = nl }) nra rid bk bv nra far.address nr far.ref be bl br
            bf above))
  near-Ends right na ni nk nv nla nra nl nr far be bl br bf rl rr rf above =
      let near : NodePtr = record { address = na; ref = node true ni nk nv nla nl nra nr } in
      let brother : NodePtr = record { address = ba; ref = branch right false bi bk bv near far } in
      let upper : NodePtr = record {
        address = na;
        ref = node false rid nk nv nla (node true rid bk bv far.address far.ref nla nl) nra nr;
      } in
      rw (rf, near_right rid ba bi bk bv na ni nk nv nla nra nl nr far)
        (done-Ends (rebuild extra (frame right c pi pk pv pa brother ∷ path))
          (rebuild extra (frame right c pi pk pv pa upper ∷ path)) _ (simp entries_laws)
          (rotate_brother-Settled rid extra path h right c pi pk pv pa _ na rid nk nv
            (record { address = nra; ref = nr }) nla rid bk bv far.address nla far.ref nl be br bf
            bl above))
