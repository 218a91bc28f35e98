-- ===== src/Tree/Owned.antt =====
-- src/db/persistent_tree.cc: the nodes that an insertion creates, up to the root, have the tree's own
-- root identifier.
use cruzdb.Prelude.{
  ℕ, zero, suc, Bool, true, false, List, [], ◌∷◌, Option, none, some, ◌>>=◌, ◌≡◌, refl, sym, ◌∙◌,
  All, All-append, Holds, if◌then◌else◌, Bool-cases, Ordering-cases, Option-cases, inl, inr, ◌⊎◌,
  length, some_injective, >>=-eq-some, Holds-some,
}
use cruzdb.Prelude.Int.{ℤ, ◌==ℤ◌, ==ℤ_iff}
use cruzdb.Slice.{Slice, SliceCompare}
use cruzdb.Node.{
  Node, nil, node, NodePtr, NodeAddress, Side, left, right, is_red, set_red, has_rid, branch,
}
use cruzdb.Tree.Path.{Frame, close, rebuild, rotate, set_address}
use cruzdb.Tree.Insert.{insert_recursive, rotate_inner, insert_balance, insert_loop, balance_insert}
use cruzdb.Tree.State.{PersistentTree, base_root, put, delete}
use cruzdb.Tree.Entries.{own-node, frame}

if_true : {A : Type 0} (b : Bool) (x y : A) → b ≡ true → (if b then x else y) ≡ x
if_true true x y h = refl
if_true false x y h = cc

if_false : {A : Type 0} (b : Bool) (x y : A) → b ≡ false → (if b then x else y) ≡ y
if_false true x y h = cc
if_false false x y h = refl

module _ (rid : ℤ) where
  abbrev pub Own : Node → Type 0
  Own t = has_rid rid t ≡ true

  abbrev pub OwnPath : List Frame → Type 0
  OwnPath path = All (λ f. (f.rid ==ℤ rid) ≡ true) path

  close-Own : (f : Frame) (t : Node) → (f.rid ==ℤ rid) ≡ true → Own (close f t)
  unfolding has_rid
  close-Own f t h = go f.side
    where
      go :
          (s : Side)
          → Own
              (branch s f.red f.rid f.key f.val (record { address = f.address; ref = t }) f.sibling)
      go left = h
      go right = h

  rebuild-Own : (t : Node) (path : List Frame) → Own t → OwnPath path → Own (rebuild t path)
  rebuild-Own t [] h p = h
  rebuild-Own t (f ∷ path) h p = rebuild-Own (close f t) path (close-Own f t p.0) p.1

  set_address-OwnPath :
      (a : Option NodeAddress) (path : List Frame) → OwnPath path → OwnPath (set_address a path)
  set_address-OwnPath a [] p = p
  set_address-OwnPath a (f ∷ path) p = p

  -- Below a red uncle.
  paint-Own :
      (nn : Node) (parent grand : Frame) (path : List Frame)
      → OwnPath (parent ∷ grand ∷ path)
      → is_red grand.sibling.ref ≡ true
      → Holds (λ s. Own s.0 × OwnPath s.1) (insert_balance rid nn parent grand path)
  unfolding insert_balance
  paint-Own nn parent grand path p e = rw (e, if◌then◌else◌) (close-Own _ _ p.1.0, p.1.1)

  -- Below a black uncle, by the sides of the new node and of its parent.
  rotations-Own :
      (s₁ s₂ : Side) (c pc gc : Bool) (i pi gi : ℤ) (k v pk pv gk gv : Slice)
      (la ra pa ga : Option NodeAddress) (l r : Node) (pb gb : NodePtr) (path : List Frame)
      → (i ==ℤ rid) ≡ true
      → (pi ==ℤ rid) ≡ true
      → (gi ==ℤ rid) ≡ true
      → OwnPath path
      → is_red gb.ref ≡ false
      → Holds
          (λ s. Own s.0 × OwnPath s.1)
          (insert_balance rid
            (node c i k v la l ra r)
            (frame s₁ pc pi pk pv pa pb)
            (frame s₂ gc gi gk gv ga gb)
            path)
  unfolding has_rid insert_balance rotate_inner rotate
  rotations-Own left left c pc gc i pi gi k v pk pv gk gv la ra pa ga l r pb gb path h hp hg p e =
      rw (e, if◌then◌else◌) (h, (hp, set_address-OwnPath _ path p))
  rotations-Own left right c pc gc i pi gi k v pk pv gk gv la ra pa ga l r pb gb path h hp hg p e =
      rw (e, if◌then◌else◌) (hp, (h, set_address-OwnPath _ path p))
  rotations-Own right left c pc gc i pi gi k v pk pv gk gv la ra pa ga l r pb gb path h hp hg p e =
      rw (e, if◌then◌else◌) (hp, (h, set_address-OwnPath _ path p))
  rotations-Own right right c pc gc i pi gi k v pk pv gk gv la ra pa ga l r pb gb path h hp hg p e =
      rw (e, if◌then◌else◌) (h, (hp, set_address-OwnPath _ path p))

  -- One round of the balancing.
  insert_balance-Own :
      (nn : Node) (parent grand : Frame) (path : List Frame)
      → Own nn
      → OwnPath (parent ∷ grand ∷ path)
      → Holds (λ s. Own s.0 × OwnPath s.1) (insert_balance rid nn parent grand path)
  unfolding has_rid
  insert_balance-Own nil parent grand path h p = cc
  insert_balance-Own (node c i k v la l ra r) parent grand path h p =
      elim (Bool-cases (is_red grand.sibling.ref)) [
        | inl e ↦ paint-Own (node c i k v la l ra r) parent grand path p e
        | inr e ↦
            rotations-Own parent.side grand.side c parent.red grand.red i parent.rid grand.rid k v
              parent.key parent.val grand.key grand.val la ra parent.address grand.address l r
              parent.sibling grand.sibling path h p.0 p.1.0 p.1.1 e
      ]

  insert_loop-Own :
      (fuel : ℕ) (nn : Node) (path : List Frame) (root : Node)
      → Own nn
      → OwnPath path
      → insert_loop fuel rid nn path ≡ some root
      → Own root
  unfolding insert_loop
  insert_loop-Own zero nn path root h p e = cc
  insert_loop-Own (suc fuel) nn [] root h p e = rw (some_injective e) at h
  insert_loop-Own (suc fuel) nn (parent ∷ []) root h p e = elim (Bool-cases parent.red) [
    | inl f ↦ let w : none ≡ some root = rw (f, if◌then◌else◌) at e in cc
    | inr f ↦
        let w = sym (if_false parent.red none (some (rebuild nn (parent ∷ []))) f) ∙ e in
        rw (some_injective w) at (rebuild-Own nn (parent ∷ []) h p)
  ]
  insert_loop-Own (suc fuel) nn (parent ∷ grand ∷ path) root h p e = elim (Bool-cases parent.red) [
    | inl f ↦
        let w : (insert_balance rid nn parent grand path >>= λ s. insert_loop fuel rid s.0 s.1)
            ≡ some root =
          sym (
            if_true parent.red
              (insert_balance rid nn parent grand path >>= λ s. insert_loop fuel rid s.0 s.1)
              (some (rebuild nn (parent ∷ grand ∷ path))) f)
          ∙ e in
        let (s, g, o) =
          Holds-some (λ s. Own s.0 × OwnPath s.1) (insert_balance rid nn parent grand path)
            (insert_balance-Own nn parent grand path h p) in
        insert_loop-Own fuel s.0 s.1 root o.0 o.1 (rw (g, ◌>>=◌) at w)
    | inr f ↦
        let w =
          sym (
            if_false parent.red
              (insert_balance rid nn parent grand path >>= λ s. insert_loop fuel rid s.0 s.1)
              (some (rebuild nn (parent ∷ grand ∷ path))) f)
          ∙ e in
        rw (some_injective w) at (rebuild-Own nn (parent ∷ grand ∷ path) h p)
  ]

  set_red-Own : (c : Bool) (t : Node) → Own t → Own (set_red c t)
  unfolding has_rid
  set_red-Own c nil h = h
  set_red-Own c (node _ i k v la l ra r) h = h

  pub balance_insert-Own :
      (nn : Node) (path : List Frame) (root : Node)
      → Own nn
      → OwnPath path
      → balance_insert rid nn path ≡ some root
      → Own root
  unfolding balance_insert
  balance_insert-Own nn path root h p e =
      let (t, f, g) =
        >>=-eq-some (insert_loop (suc (length path)) rid nn path) (λ t. some (set_red false t)) e in
      rw (some_injective g) at
        (set_red-Own false t (insert_loop-Own (suc (length path)) nn path t h p f))

module _ ⦃o : SliceCompare⦄ (rid : ℤ) where
  -- The new node and the frames of the path.
  abbrev OwnInserted : Option (Node × List Frame) → Type 0
  OwnInserted none = Unit
  OwnInserted (some p) = Own rid p.0 × OwnPath rid p.1

  insert_recursive-Own : (q w : Slice) (t : Node) → OwnInserted (insert_recursive rid q w t)
  unfolding insert_recursive has_rid
  insert_recursive-Own q w nil = ((==ℤ_iff rid rid).1 refl, tt)
  insert_recursive-Own q w (node c i k v la l ra r) =
      let same = (==ℤ_iff rid rid).1 refl in
      elim (Ordering-cases (o.compare q k)) [
        | inr (inl e) ↦ rw (e, insert_recursive) tt
        | inl e ↦ elim (Option-cases (insert_recursive rid q w l)) [
          | inl n ↦ rw (e, insert_recursive, n, ◌>>=◌) tt
          | inr (p, n) ↦
              let x : OwnInserted (some p) = rw n at (insert_recursive-Own q w l) in
              rw (e, insert_recursive, n, ◌>>=◌, own-node rid c i k v la l ra r)
                (x.0, All-append _ p.1 _ x.1 (same, tt))
        ]
        | inr (inr e) ↦ elim (Option-cases (insert_recursive rid q w r)) [
          | inl n ↦ rw (e, insert_recursive, n, ◌>>=◌) tt
          | inr (p, n) ↦
              let x : OwnInserted (some p) = rw n at (insert_recursive-Own q w r) in
              rw (e, insert_recursive, n, ◌>>=◌, own-node rid c i k v la l ra r)
                (x.0, All-append _ p.1 _ x.1 (same, tt))
        ]
      ]

  insert-Own :
      (q w : Slice) (t : Node) (p : Node × List Frame) (root : Node)
      → insert_recursive rid q w t ≡ some p
      → balance_insert rid p.0 p.1 ≡ some root
      → Own rid root
  insert-Own q w t p root e f =
      let x : OwnInserted (some p) = rw e at (insert_recursive-Own q w t) in
      balance_insert-Own rid p.0 p.1 root x.0 x.1 f

  put_fresh-Own :
      (q w : Slice) (base : Node) (t : PersistentTree)
      → Holds
          (λ t'. (root : Node) × (t'.root ≡ some root) × Own rid root)
          (insert_recursive rid q w base >>= λ p.
            balance_insert rid p.0 p.1 >>= λ root. some (record t { root = some root }))
        ⊎ ((insert_recursive rid q w base >>= λ p.
              balance_insert rid p.0 p.1 >>= λ root. some (record t { root = some root }))
            ≡ none)
  put_fresh-Own q w base t = elim (Option-cases (insert_recursive rid q w base)) [
    | inl n ↦ inr (rw (n, ◌>>=◌) refl)
    | inr (p, n) ↦ elim (Option-cases (balance_insert rid p.0 p.1)) [
      | inl m ↦ inr (rw (n, ◌>>=◌, m) refl)
      | inr (root, m) ↦ inl (rw (n, ◌>>=◌, m) (root, refl, insert-Own q w base p root n m))
    ]
  ]

module _ ⦃o : SliceCompare⦄ where
  -- What a successful `Put` leaves as the root.
  abbrev pub OwnRoot : ℤ → PersistentTree → Type 0
  OwnRoot rid t = (root : Node) × (t.root ≡ some root) × Own rid root

  fresh_result :
      (rid : ℤ) (q w : Slice) (base : Node) (t t' : PersistentTree)
      → (insert_recursive rid q w base >>= λ p.
          balance_insert rid p.0 p.1 >>= λ root. some (record t { root = some root }))
        ≡ some t'
      → OwnRoot rid t'
  fresh_result rid q w base t t' e = elim (put_fresh-Own rid q w base t) [
    | inl h ↦ rw e at h
    | inr h ↦ cc
  ]

  -- The root that a `Put` leaves is a new node of the tree.
  pub put-OwnRoot : (q w : Slice) (t t' : PersistentTree) → put q w t ≡ some t' → OwnRoot t.rid t'
  unfolding put
  put-OwnRoot q w t t' e = elim (Option-cases (insert_recursive t.rid q w (base_root t))) [
    | inr (p, n) ↦ fresh_result t.rid q w (base_root t) t t' (rw (n, ◌>>=◌) (rw (n, put) at e))
    | inl n ↦
        let (t1, f, g) = >>=-eq-some (delete q t) _ (rw (n, put) at e) in
        fresh_result t.rid q w (base_root t1) t1 t' g
  ]
