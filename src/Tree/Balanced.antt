-- ===== src/Tree/Balanced.antt =====
-- src/db/persistent_tree.{h,cc}: the red-black invariant, of a tree and of a path with a hole. The
-- black height counts the sentinel as 1, as `DBImpl::Validate` does.
use mathlib.Core.Path.{subst}
use cruzdb.Prelude.{
  ℕ, zero, suc, Bool, true, false, List, [], ◌∷◌, Option, some, ◌≡◌, refl, ◌∙◌, ◌⊎◌, inl, inr,
  length, ◌++◌, append_assoc, some_injective,
}
use cruzdb.Prelude.Int.{ℤ}
use cruzdb.Slice.{Slice}
use cruzdb.Node.{Node, nil, node, NodePtr, NodeAddress, Side, left, right, is_red, set_red, branch}
use cruzdb.Tree.Path.{Frame, close, rebuild, set_address}

-- No red node has a red child, and every way down meets as many black nodes.
abbrev pub Balanced : Node → ℕ → Type 0
Balanced nil h = h ≡ 1
Balanced (node true i k v la l ra r) h =
    (is_red l ≡ false) × (is_red r ≡ false) × Balanced l h × Balanced r h
Balanced (node false i k v la l ra r) zero = ⊥
Balanced (node false i k v la l ra r) (suc h) = Balanced l h × Balanced r h

-- The topmost node of a path is black. (The path is not empty.)
abbrev pub BlackTop : List Frame → Type 0
BlackTop [] = ⊥
BlackTop (f ∷ path) = f.red ≡ false

-- A subtree of black height `h` fits in the hole, if its colour fits the frame above.
abbrev pub Fits : List Frame → ℕ → Type 0
Fits [] h = Unit
Fits (f ∷ path) h =
    ((f.red ≡ true)
      × (is_red f.sibling.ref ≡ false)
      × Balanced f.sibling.ref h
      × BlackTop path
      × Fits path h)
    ⊎ ((f.red ≡ false) × Balanced f.sibling.ref h × Fits path (suc h))

-- The colour of a subtree fits below a path.
abbrev pub ColourFits : Node → List Frame → Type 0
ColourFits t [] = Unit
ColourFits t (f ∷ path) = (is_red t ≡ false) ⊎ (f.red ≡ false)

pub close-black :
    (s : Side) (i : ℤ) (k v : Slice) (a b : NodePtr) (h : ℕ)
    → Balanced a.ref h
    → Balanced b.ref h
    → Balanced (branch s false i k v a b) (suc h)
close-black left i k v a b h x y = (x, y)
close-black right i k v a b h x y = (y, x)

pub close-red :
    (s : Side) (i : ℤ) (k v : Slice) (a b : NodePtr) (h : ℕ)
    → is_red a.ref ≡ false
    → is_red b.ref ≡ false
    → Balanced a.ref h
    → Balanced b.ref h
    → Balanced (branch s true i k v a b) h
close-red left i k v a b h ra rb x y = (ra, rb, x, y)
close-red right i k v a b h ra rb x y = (rb, ra, y, x)

pub Fits-set_address :
    (a : Option NodeAddress) (path : List Frame) (h : ℕ) → Fits path h → Fits (set_address a path) h
Fits-set_address a [] h x = x
Fits-set_address a (f ∷ path) h x = x

pub length-set_address :
    (a : Option NodeAddress) (path : List Frame) → length (set_address a path) ≡ length path
length-set_address a [] = refl
length-set_address a (f ∷ path) = refl

is_red-branch :
    (s : Side) (c : Bool) (i : ℤ) (k v : Slice) (a b : NodePtr) → is_red (branch s c i k v a b) ≡ c
is_red-branch left c i k v a b = refl
is_red-branch right c i k v a b = refl

ColourFits-BlackTop : (t : Node) (path : List Frame) → BlackTop path → ColourFits t path
ColourFits-BlackTop t [] b = tt
ColourFits-BlackTop t (f ∷ path) b = inr b

pub ColourFits-black : (t : Node) (path : List Frame) → is_red t ≡ false → ColourFits t path
ColourFits-black t [] b = tt
ColourFits-black t (f ∷ path) b = inl b

-- Closing a frame over a subtree that fits gives one that fits above.
Fits-close :
    (s : Side) (c : Bool) (i : ℤ) (k v : Slice) (a b : NodePtr) (path : List Frame) (h : ℕ)
    → Balanced a.ref h
    → Fits
        (record { side = s; red = c; rid = i; key = k; val = v; address = a.address; sibling = b }
          ∷ path)
        h
    → (is_red a.ref ≡ false) ⊎ (c ≡ false)
    → (h' : ℕ) × Balanced (branch s c i k v a b) h'
      × Fits path h'
      × ColourFits (branch s c i k v a b) path
Fits-close s false i k v a b path h bal (inl x) col = cc (x.0)
Fits-close s false i k v a b path h bal (inr x) col = (
  suc h,
  close-black s i k v a b h bal x.1,
  x.2,
  ColourFits-black (branch s false i k v a b) path (is_red-branch s false i k v a b),
)
Fits-close s true i k v a b path h bal (inl x) (inl col) = (
  h,
  close-red s i k v a b h col x.1 bal x.2,
  x.4,
  ColourFits-BlackTop (branch s true i k v a b) path x.3,
)
Fits-close s true i k v a b path h bal (inl x) (inr col) = cc
Fits-close s true i k v a b path h bal (inr x) col = cc (x.0)

-- A balanced subtree that fits in the hole of a path makes a balanced tree.
pub Balanced-rebuild :
    (t : Node) (path : List Frame) (h : ℕ)
    → Balanced t h
    → Fits path h
    → ColourFits t path
    → (h' : ℕ) × Balanced (rebuild t path) h'
Balanced-rebuild t [] h b fits col = (h, b)
Balanced-rebuild t (f ∷ path) h b fits col =
    let (h', b', fits', col') =
      Fits-close f.side f.red f.rid f.key f.val (record { address = f.address; ref = t }) f.sibling
        path h b fits col in
    Balanced-rebuild (close f t) path h' b' fits' col'

-- The root may always be coloured black.
pub Balanced-set_red : (t : Node) (h : ℕ) → Balanced t h → (h' : ℕ) × Balanced (set_red false t) h'
Balanced-set_red nil h b = (h, b)
Balanced-set_red (node true i k v la l ra r) h b = (suc h, (b.2, b.3))
Balanced-set_red (node false i k v la l ra r) h b = (h, b)

pub is_red-set_red : (t : Node) → is_red (set_red false t) ≡ false
is_red-set_red nil = refl
is_red-set_red (node c i k v la l ra r) = refl

-- A red subtree hangs below a black node.
abbrev pub RedBelowBlack : Node → List Frame → Type 0
RedBelowBlack t path = (is_red t ≡ false) ⊎ BlackTop path

-- Going down from a node to its child on one side extends the path by the frame of the node, with
-- any rid.
pub Fits-down :
    (s : Side) (c : Bool) (i j : ℤ) (k v : Slice) (a b : NodePtr) (path : List Frame) (h : ℕ)
    → Balanced (branch s c i k v a b) h
    → Fits path h
    → RedBelowBlack (branch s c i k v a b) path
    → let path' =
        record { side = s; red = c; rid = j; key = k; val = v; address = a.address; sibling = b }
        ∷ path in
      (h' : ℕ) × Balanced a.ref h' × Fits path' h' × RedBelowBlack a.ref path'
Fits-down left true i j k v a b path h bal fits (inl x) = cc
Fits-down right true i j k v a b path h bal fits (inl x) = cc
Fits-down left true i j k v a b path h bal fits (inr x) =
    (h, bal.2, inl (refl, bal.1, bal.3, x, fits), inl bal.0)
Fits-down right true i j k v a b path h bal fits (inr x) =
    (h, bal.3, inl (refl, bal.0, bal.2, x, fits), inl bal.1)
Fits-down left false i j k v a b path zero bal fits red = absurd bal
Fits-down right false i j k v a b path zero bal fits red = absurd bal
Fits-down left false i j k v a b path (suc h) bal fits red =
    (h, bal.0, inr (refl, bal.1, fits), inr refl)
Fits-down right false i j k v a b path (suc h) bal fits red =
    (h, bal.1, inr (refl, bal.0, fits), inr refl)

-- `path.push_back(copy)` of the frame that the path below was built for.
pub push_back-Fits :
    (p p' : Node × List Frame) (f : Frame) (path : List Frame) (h : ℕ)
    → some (p'.0, p'.1 ++ f ∷ []) ≡ some p
    → Fits (p'.1 ++ f ∷ path) h
    → Fits (p.1 ++ path) h
push_back-Fits p p' f path h e fits =
    subst (λ (x : Node × List Frame). Fits (x.1 ++ path) h) {x = (p'.0, p'.1 ++ f ∷ [])}
      (some_injective e) (rw append_assoc fits)

pub Fits-set_address_top :
    (a : Option NodeAddress) (path : List Frame) → BlackTop path → BlackTop (set_address a path)
Fits-set_address_top a [] b = b
Fits-set_address_top a (f ∷ path) b = b

-- The part of a path above a frame, for a subtree that takes the colour of the frame: `h` is the
-- height of the frame's children.
abbrev pub FitsAbove : Bool → List Frame → ℕ → Type 0
FitsAbove true path h = BlackTop path × Fits path h
FitsAbove false path h = Fits path (suc h)

pub Fits-above :
    (f : Frame) (path : List Frame) (h : ℕ) → Fits (f ∷ path) h → FitsAbove f.red path h
Fits-above f path h x = go f.red x
  where
    go :
        (c : Bool)
        → ((c ≡ true)
            × (is_red f.sibling.ref ≡ false)
            × Balanced f.sibling.ref h
            × BlackTop path
            × Fits path h)
          ⊎ ((c ≡ false) × Balanced f.sibling.ref h × Fits path (suc h))
        → FitsAbove c path h
    go true (inl y) = (y.3, y.4)
    go true (inr y) = cc (y.0)
    go false (inl y) = cc (y.0)
    go false (inr y) = y.2

-- Two black children below a node of the colour of a frame, in the place of that frame.
pub Balanced-rebuild_above :
    (a : Option NodeAddress) (c : Bool) (i : ℤ) (k v : Slice) (la : Option NodeAddress) (l : Node)
    (ra : Option NodeAddress) (r : Node) (path : List Frame) (h : ℕ)
    → is_red l ≡ false
    → is_red r ≡ false
    → Balanced l h
    → Balanced r h
    → FitsAbove c path h
    → (h' : ℕ) × Balanced (rebuild (node c i k v la l ra r) (set_address a path)) h'
Balanced-rebuild_above a true i k v la l ra r path h bl br l' r' (top, fits) =
    Balanced-rebuild (node true i k v la l ra r) (set_address a path) h (bl, br, l', r')
      (Fits-set_address a path h fits)
      (ColourFits-BlackTop (node true i k v la l ra r) (set_address a path)
        (Fits-set_address_top a path top))
Balanced-rebuild_above a false i k v la l ra r path h bl br l' r' fits =
    Balanced-rebuild (node false i k v la l ra r) (set_address a path) (suc h) (l', r')
      (Fits-set_address a path (suc h) fits)
      (ColourFits-black (node false i k v la l ra r) (set_address a path) refl)

pub Fits-sibling :
    (f : Frame) (path : List Frame) (h : ℕ) → Fits (f ∷ path) h → Balanced f.sibling.ref h
Fits-sibling f path h (inl x) = x.2
Fits-sibling f path h (inr x) = x.1

pub Balanced-red :
    (t : Node) (h : ℕ) → is_red t ≡ true → Balanced t h → Balanced (set_red false t) (suc h)
Balanced-red nil h r b = cc
Balanced-red (node true i k v la l ra r) h e b = (b.2, b.3)
Balanced-red (node false i k v la l ra r) h e b = cc

BlackTop-Fits :
    (t : Node) (f : Frame) (path : List Frame) (h : ℕ)
    → Fits (f ∷ path) h
    → is_red (rebuild t (f ∷ path)) ≡ false
BlackTop-Fits t f [] h (inl x) = absurd x.3
BlackTop-Fits t f [] h (inr x) =
    is_red-branch f.side f.red f.rid f.key f.val (record { address = f.address; ref = t }) f.sibling
    ∙ x.0
BlackTop-Fits t f (g ∷ path) h (inl x) = BlackTop-Fits (close f t) g path h x.4
BlackTop-Fits t f (g ∷ path) h (inr x) = BlackTop-Fits (close f t) g path (suc h) x.2

-- The root over a path that fits is black, if the subtree is where it is the root itself.
pub is_red-rebuild :
    (t : Node) (path : List Frame) (h : ℕ)
    → is_red t ≡ false
    → Fits path h
    → is_red (rebuild t path) ≡ false
is_red-rebuild t [] h r fits = r
is_red-rebuild t (f ∷ path) h r fits = BlackTop-Fits t f path h fits
