-- ===== src/Tree/Path.antt =====
-- src/db/persistent_tree.{h,cc}: the deque `path` that insertion and deletion build, and rotation.
-- Every element of the deque is a node of the new tree whose child on one side is the element
-- before it. A frame is such a node without that child, and `root` is the node that the frames
-- close over. `pop_front` of the sentinel that ends the deque is the empty list of frames.
use cruzdb.Prelude.{Bool, List, [], ◌∷◌, Option, none, some}
use cruzdb.Prelude.Int.{ℤ}
use cruzdb.Slice.{Slice}
use cruzdb.Node.{Node, nil, node, NodePtr, NodeAddress, Side, left, right, branch}

-- `address` is that of the pointer to the child on the path; `sibling` is the other pointer.
pub record Frame : Type 0 where
  pub side : Side
  pub red : Bool
  pub rid : ℤ
  pub key : Slice
  pub val : Slice
  pub address : Option NodeAddress
  pub sibling : NodePtr

-- `set_ref` of the child on the path: the address stays as it is.
abbrev pub close : Frame → Node → Node
close f t =
    branch f.side f.red f.rid f.key f.val (record { address = f.address; ref = t }) f.sibling

-- The root over a path, nearest frame first.
abbrev pub rebuild : Node → List Frame → Node
rebuild t [] = t
rebuild t (f ∷ path) = rebuild (close f t) path

-- A node as the frame around its child on one side, and that child.
abbrev pub focus : Side → Node → Option (Frame × Node)
focus s nil = none
focus left (node c i k v la l ra r) = some (
  record {
    side = left;
    red = c;
    rid = i;
    key = k;
    val = v;
    address = la;
    sibling = record { address = ra; ref = r };
  },
  l,
)
focus right (node c i k v la l ra r) = some (
  record {
    side = right;
    red = c;
    rid = i;
    key = k;
    val = v;
    address = ra;
    sibling = record { address = la; ref = l };
  },
  r,
)

-- The pointer to the topmost node of the path is assigned: `child_a(parent) = grand_child` in
-- `rotate`. At the root only the reference counts.
abbrev pub set_address : Option NodeAddress → List Frame → List Frame
set_address a [] = []
set_address a (f ∷ path) = record f { address = a } ∷ path

-- `rotate` below a parent: `child_b(child)` goes up, and the result is the pointer to it. A missing
-- grandchild is dereferenced by the program, which stops at an assertion.
unfoldable pub rotate : Side → Node → Option NodePtr
rotate a nil = none
rotate left (node c i k v la l ra nil) = none
rotate left (node c i k v la l ra (node gc gi gk gv gla gl gra gr)) =
    some (record { address = ra; ref = node gc gi gk gv gla (node c i k v la l gla gl) gra gr })
rotate right (node c i k v la nil ra r) = none
rotate right (node c i k v la (node gc gi gk gv gla gl gra gr) ra r) =
    some (record { address = la; ref = node gc gi gk gv gla gl gra (node c i k v gra gr ra r) })
