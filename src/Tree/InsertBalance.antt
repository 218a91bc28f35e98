-- ===== src/Tree/InsertBalance.antt =====
-- src/db/persistent_tree.cc: `insert_balance` on a red node below a red parent.
use cruzdb.Prelude.{
  ℕ, suc, ◌<◌, Bool, true, false, List, ◌∷◌, Option, ◌≡◌, refl, inl, inr, arith, length, Holds,
}
use cruzdb.Prelude.Int.{ℤ}
use cruzdb.Slice.{Slice}
use cruzdb.Node.{Node, nil, node, NodePtr, NodeAddress, Side, left, right, is_red}
use cruzdb.Tree.Path.{Frame, rebuild}
use cruzdb.Tree.Insert.{insert_balance}
use cruzdb.Tree.Entries.{entries, frame, own-node, entries_laws}
use cruzdb.Tree.Balanced.{Balanced, Fits, Fits-set_address, length-set_address}

-- The invariant of the loop: a red node, balanced, whose height fits in the hole; and what a round
-- keeps and lowers.
abbrev pub Round : Node → List Frame → ℕ → Node × List Frame → Type 0
Round t path n s =
    (h : ℕ) × Balanced s.0 h
    × (is_red s.0 ≡ true)
    × Fits s.1 h
    × (length s.1 < n)
    × (entries (rebuild s.0 s.1) ≡ entries (rebuild t path))

module _ (rid ni pi gi : ℤ) (nk nv pk pv gk gv : Slice) (nla nra pa ga : Option NodeAddress)
    (nl nr : Node) (ps gs : NodePtr) (path : List Frame) (h : ℕ) where
  -- Below a black uncle the rotations end with a black parent.
  Round-rotate :
      (s₁ s₂ : Side)
      → is_red nl ≡ false
      → is_red nr ≡ false
      → Balanced nl h
      → Balanced nr h
      → is_red ps.ref ≡ false
      → Balanced ps.ref h
      → is_red gs.ref ≡ false
      → Balanced gs.ref h
      → Fits path (suc h)
      → let nn = node true ni nk nv nla nl nra nr in
        let parent = frame s₁ true pi pk pv pa ps in
        let grand = frame s₂ false gi gk gv ga gs in
        Holds
          (Round nn (parent ∷ grand ∷ path) (suc (suc (length path))))
          (insert_balance rid nn parent grand path)
  unfolding insert_balance
  Round-rotate left left rl rr bl br rps bps rgs bgs fits = rw rgs (
    h,
    (rl, rr, bl, br),
    refl,
    inr (refl, (rps, rgs, bps, bgs), Fits-set_address ga path (suc h) fits),
    omega (arith, length-set_address ga path),
    simp entries_laws,
  )
  Round-rotate right left rl rr bl br rps bps rgs bgs fits = rw rgs (
    h,
    (rps, rl, bps, bl),
    refl,
    inr (refl, (rr, rgs, br, bgs), Fits-set_address pa path (suc h) fits),
    omega (arith, length-set_address pa path),
    simp entries_laws,
  )
  Round-rotate left right rl rr bl br rps bps rgs bgs fits = rw rgs (
    h,
    (rr, rps, br, bps),
    refl,
    inr (refl, (rgs, rl, bgs, bl), Fits-set_address pa path (suc h) fits),
    omega (arith, length-set_address pa path),
    simp entries_laws,
  )
  Round-rotate right right rl rr bl br rps bps rgs bgs fits = rw rgs (
    h,
    (rl, rr, bl, br),
    refl,
    inr (refl, (rgs, rps, bgs, bps), Fits-set_address ga path (suc h) fits),
    omega (arith, length-set_address ga path),
    simp entries_laws,
  )

  -- A red uncle takes the colour of the parent, and the red grandparent goes on.
  Round-paint :
      (s₁ s₂ : Side) (ua ula ura : Option NodeAddress) (ui : ℤ) (uk uv : Slice) (ul ur : Node)
      → is_red nl ≡ false
      → is_red nr ≡ false
      → Balanced nl h
      → Balanced nr h
      → is_red ps.ref ≡ false
      → Balanced ps.ref h
      → Balanced ul h
      → Balanced ur h
      → Fits path (suc h)
      → let nn = node true ni nk nv nla nl nra nr in
        let uncle : NodePtr = record { address = ua; ref = node true ui uk uv ula ul ura ur } in
        let parent = frame s₁ true pi pk pv pa ps in
        let grand = frame s₂ false gi gk gv ga uncle in
        Holds
          (Round nn (parent ∷ grand ∷ path) (suc (suc (length path))))
          (insert_balance rid nn parent grand path)
  unfolding insert_balance
  Round-paint left left ua ula ura ui uk uv ul ur rl rr bl br rps bps bul bur fits = rw own-node (
    suc h,
    (refl, refl, ((rl, rr, bl, br), bps), (bul, bur)),
    refl,
    fits,
    omega arith,
    simp entries_laws,
  )
  Round-paint left right ua ula ura ui uk uv ul ur rl rr bl br rps bps bul bur fits = rw own-node (
    suc h,
    (refl, refl, (bul, bur), ((rl, rr, bl, br), bps)),
    refl,
    fits,
    omega arith,
    simp entries_laws,
  )
  Round-paint right left ua ula ura ui uk uv ul ur rl rr bl br rps bps bul bur fits = rw own-node (
    suc h,
    (refl, refl, (bps, (rl, rr, bl, br)), (bul, bur)),
    refl,
    fits,
    omega arith,
    simp entries_laws,
  )
  Round-paint right right ua ula ura ui uk uv ul ur rl rr bl br rps bps bul bur fits = rw own-node (
    suc h,
    (refl, refl, (bul, bur), (bps, (rl, rr, bl, br))),
    refl,
    fits,
    omega arith,
    simp entries_laws,
  )

-- The invariant of the loop of `Put`: a red node, balanced, whose height fits in the hole.
abbrev pub Ready : Node → List Frame → ℕ → Type 0
Ready t path h = Balanced t h × (is_red t ≡ true) × Fits path h

Round-cases :
    (rid ni : ℤ) (nk nv : Slice) (nla : Option NodeAddress) (nl : Node) (nra : Option NodeAddress)
    (nr : Node) (h : ℕ)
    → Balanced (node true ni nk nv nla nl nra nr) h
    → (s₁ : Side) (c₁ : Bool) (pi : ℤ) (pk pv : Slice) (pa : Option NodeAddress) (ps : NodePtr)
    → (s₂ : Side) (c₂ : Bool) (gi : ℤ) (gk gv : Slice) (ga : Option NodeAddress)
    → (ua : Option NodeAddress) (u : Node) (path : List Frame) → c₁ ≡ true
    → let nn = node true ni nk nv nla nl nra nr in
      let parent = frame s₁ c₁ pi pk pv pa ps in
      let grand = frame s₂ c₂ gi gk gv ga (record { address = ua; ref = u }) in
      Fits (parent ∷ grand ∷ path) h
      → Holds
          (Round nn (parent ∷ grand ∷ path) (suc (suc (length path))))
          (insert_balance rid nn parent grand path)
Round-cases rid ni nk nv nla nl nra nr h b s₁ false pi pk pv pa ps s₂ c₂ gi gk gv ga ua u path e f =
    cc
Round-cases rid ni nk nv nla nl nra nr h b s₁ true pi pk pv pa ps s₂ c₂ gi gk gv ga ua u path e
      (inr x) =
    cc (x.0)
Round-cases rid ni nk nv nla nl nra nr h b s₁ true pi pk pv pa ps s₂ true gi gk gv ga ua u path e
      (inl x) =
    cc (x.3)
Round-cases rid ni nk nv nla nl nra nr h b s₁ true pi pk pv pa ps s₂ false gi gk gv ga ua u path e
      (inl (_, rps, bps, _, inl y)) =
    cc (y.0)
Round-cases rid ni nk nv nla nl nra nr h b s₁ true pi pk pv pa ps s₂ false gi gk gv ga ua nil path e
      (inl (_, rps, bps, _, inr y)) =
    Round-rotate rid ni pi gi nk nv pk pv gk gv nla nra pa ga nl nr ps
      (record { address = ua; ref = nil }) path h s₁ s₂ b.0 b.1 b.2 b.3 rps bps refl y.1 y.2
Round-cases rid ni nk nv nla nl nra nr h b s₁ true pi pk pv pa ps s₂ false gi gk gv ga ua
      (node false ui uk uv ula ul ura ur) path e (inl (_, rps, bps, _, inr y)) =
    Round-rotate rid ni pi gi nk nv pk pv gk gv nla nra pa ga nl nr ps
      (record { address = ua; ref = node false ui uk uv ula ul ura ur }) path h s₁ s₂ b.0 b.1 b.2
      b.3 rps bps refl y.1 y.2
Round-cases rid ni nk nv nla nl nra nr h b s₁ true pi pk pv pa ps s₂ false gi gk gv ga ua
      (node true ui uk uv ula ul ura ur) path e (inl (_, rps, bps, _, inr y)) =
    Round-paint rid ni pi gi nk nv pk pv gk gv nla nra pa ga nl nr ps
      (record { address = ua; ref = nil }) path h s₁ s₂ ua ula ura ui uk uv ul ur b.0 b.1 b.2 b.3
      rps bps y.1.2 y.1.3 y.2

-- A round of `insert_balance` below a red parent succeeds, keeps the invariant and the entries of
-- the tree, and shortens the path.
pub insert_balance-Round :
    (rid : ℤ) (nn : Node) (parent grand : Frame) (path : List Frame) (h : ℕ)
    → Ready nn (parent ∷ grand ∷ path) h
    → parent.red ≡ true
    → Holds
        (Round nn (parent ∷ grand ∷ path) (suc (suc (length path))))
        (insert_balance rid nn parent grand path)
insert_balance-Round rid nil parent grand path h (b, r, fits) e = cc
insert_balance-Round rid (node false ni nk nv nla nl nra nr) parent grand path h (b, r, fits) e = cc
insert_balance-Round rid (node true ni nk nv nla nl nra nr) parent grand path h (b, r, fits) e =
    Round-cases rid ni nk nv nla nl nra nr h b parent.side parent.red parent.rid parent.key
      parent.val parent.address parent.sibling grand.side grand.red grand.rid grand.key grand.val
      grand.address grand.sibling.address grand.sibling.ref path e fits
