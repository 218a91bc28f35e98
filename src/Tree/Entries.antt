-- ===== src/Tree/Entries.antt =====
-- src/db/persistent_tree.{h,cc}: the entries of a tree in key order, which rotations keep.
use cruzdb.Prelude.{
  Bool, List, [], ◌∷◌, ◌++◌, Option, none, some, ◌>>=◌, ◌≡◌, refl, ap, sym, ◌∙◌, append-nil,
  append_assoc, arith, some_injective,
}
use cruzdb.Prelude.Int.{ℤ, ==ℤ_iff}
use cruzdb.Slice.{Slice}
use cruzdb.Node.{Node, nil, node, NodePtr, NodeAddress, Side, left, right, set_red, own, branch}
use cruzdb.Tree.Path.{Frame, close, rebuild, focus, set_address, rotate}

-- The key-value pairs from left to right.
abbrev pub entries : Node → List (Slice × Slice)
entries nil = []
entries (node c i k v la l ra r) = entries l ++ (k, v) ∷ entries r

-- A frame from its fields.
abbrev pub frame : Side → Bool → ℤ → Slice → Slice → Option NodeAddress → NodePtr → Frame
frame s c i k v a b = record {
  side = s;
  red = c;
  rid = i;
  key = k;
  val = v;
  address = a;
  sibling = b;
}

-- The entries on the left and on the right of the hole in a frame, and in a path.
abbrev pub before_frame : Side → Slice × Slice → Node → List (Slice × Slice)
before_frame left e t = []
before_frame right e t = entries t ++ e ∷ []

abbrev pub after_frame : Side → Slice × Slice → Node → List (Slice × Slice)
after_frame left e t = e ∷ entries t
after_frame right e t = []

abbrev pub before : List Frame → List (Slice × Slice)
before [] = []
before (f ∷ path) = before path ++ before_frame f.side (f.key, f.val) f.sibling.ref

abbrev pub after : List Frame → List (Slice × Slice)
after [] = []
after (f ∷ path) = after_frame f.side (f.key, f.val) f.sibling.ref ++ after path

pub ruleset list_laws = (append-nil, append_assoc)

pub entries-close :
    (f : Frame) (t : Node)
    → entries (close f t)
      ≡ before_frame f.side (f.key, f.val) f.sibling.ref
        ++ entries t
        ++ after_frame f.side (f.key, f.val) f.sibling.ref
entries-close f t = go f.side f.red f.rid f.key f.val f.address f.sibling
  where
    go :
        (s : Side) (c : Bool) (i : ℤ) (k v : Slice) (a : Option NodeAddress) (b : NodePtr)
        → entries (branch s c i k v (record { address = a; ref = t }) b)
          ≡ before_frame s (k, v) b.ref ++ entries t ++ after_frame s (k, v) b.ref
    go left c i k v a b = refl
    go right c i k v a b = simp list_laws

-- A root has the entries before the hole of its path, those of the node in the hole, and those after.
pub entries-rebuild :
    (t : Node) (path : List Frame)
    → entries (rebuild t path) ≡ before path ++ entries t ++ after path
entries-rebuild t [] = simp list_laws
entries-rebuild t (f ∷ path) = simp (entries-rebuild (close f t) path, entries-close f t, list_laws)

pub rebuild-append : (t : Node) (p q : List Frame) → rebuild t (p ++ q) ≡ rebuild (rebuild t p) q
rebuild-append t [] q = refl
rebuild-append t (f ∷ p) q = rebuild-append (close f t) p q

-- Two nodes with the same entries are exchangeable below any path.
pub entries-rebuild_congr :
    (t u : Node) (path : List Frame)
    → entries t ≡ entries u
    → entries (rebuild t path) ≡ entries (rebuild u path)
entries-rebuild_congr t u path h = simp (entries-rebuild, h)

pub before-set_address :
    (a : Option NodeAddress) (path : List Frame) → before (set_address a path) ≡ before path
before-set_address a [] = refl
before-set_address a (f ∷ path) = refl

pub after-set_address :
    (a : Option NodeAddress) (path : List Frame) → after (set_address a path) ≡ after path
after-set_address a [] = refl
after-set_address a (f ∷ path) = refl

pub before-append : (p q : List Frame) → before (p ++ q) ≡ before q ++ before p
before-append [] q = simp list_laws
before-append (f ∷ p) q = simp (before-append p q, append_assoc)

pub after-append : (p q : List Frame) → after (p ++ q) ≡ after p ++ after q
after-append [] q = refl
after-append (f ∷ p) q = simp (after-append p q, append_assoc)

-- What rewrites the entries of any root to those of its parts.
pub ruleset entries_laws =
    (entries-rebuild, before-set_address, after-set_address, append-nil, append_assoc)

pub entries-set_red : (c : Bool) (t : Node) → entries (set_red c t) ≡ entries t
entries-set_red c nil = refl
entries-set_red c (node _ i k v la l ra r) = refl

pub own-node :
    (rid : ℤ) (c : Bool) (i : ℤ) (k v : Slice) (la : Option NodeAddress) (l : Node)
    (ra : Option NodeAddress) (r : Node)
    → own rid (node c i k v la l ra r) ≡ node c rid k v la l ra r
unfolding own
own-node rid c i k v la l ra r = ground (arith, ==ℤ_iff i rid)

pub own-nil : (rid : ℤ) → own rid nil ≡ nil
unfolding own
own-nil rid = refl

pub entries-own : (rid : ℤ) (t : Node) → entries (own rid t) ≡ entries t
entries-own rid nil = ap entries (own-nil rid)
entries-own rid (node c i k v la l ra r) = ap entries (own-node rid c i k v la l ra r)

-- Focusing on a child and closing again gives the node back.
pub close-focus :
    (s : Side) (t : Node) {f : Frame} {u : Node} → focus s t ≡ some (f, u) → close f u ≡ t
close-focus s nil h = cc
close-focus left (node c i k v la l ra r) h = sym (ap (λ q. close q.0 q.1) (some_injective h))
close-focus right (node c i k v la l ra r) h = sym (ap (λ q. close q.0 q.1) (some_injective h))

pub entries-rotate :
    (a : Side) (t : Node) {p : NodePtr} → rotate a t ≡ some p → entries p.ref ≡ entries t
unfolding rotate
entries-rotate a nil h = ground arith
entries-rotate left (node c i k v la l ra nil) h = ground arith
entries-rotate left (node c i k v la l ra (node gc gi gk gv gla gl gra gr)) h =
    sym (ap (λ q. entries q.ref) (some_injective h)) ∙ simp list_laws
entries-rotate right (node c i k v la nil ra r) h = ground arith
entries-rotate right (node c i k v la (node gc gi gk gv gla gl gra gr) ra r) h =
    sym (ap (λ q. entries q.ref) (some_injective h)) ∙ simp list_laws
