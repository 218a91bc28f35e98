-- ===== src/Node.antt =====
-- src/db/node.h: the address of a node in the log, node pointers and nodes. Nodes are values: a
-- pointer holds the node that it refers to, beside its address, and the comparison of two node
-- references becomes a position in the tree. The locks, the weak references that a cache miss
-- reloads and the `read_only` flag leave no trace.
use cruzdb.Prelude.{ℕ, Bool, true, false, Option, ltb, if◌then◌else◌}
use cruzdb.Prelude.Int.{ℤ, ◌==ℤ◌}
use cruzdb.Slice.{Slice}

-- `NodeAddress`: a log position and the offset in the serialized after image.
pub record NodeAddress : Type 0 where
  pub position : ℕ
  pub offset : ℕ
  pub is_afterimage : Bool

-- `operator<` of node addresses
unfoldable pub address_lt : NodeAddress → NodeAddress → Bool
address_lt a b =
    if ltb a.position b.position
    then true
    else if ltb b.position a.position
    then false
    else ltb a.offset b.offset

-- `Node`: colour, rid, key, value, and the two node pointers, each an address and a reference.
-- `nil` is the sentinel `Node::Nil()`.
pub data Node : Type 0 where
  nil : Node
  node :
      (red : Bool) (rid : ℤ) (key val : Slice)
      → Option NodeAddress
      → Node
      → Option NodeAddress
      → Node
      → Node

pub record NodePtr : Type 0 where
  pub address : Option NodeAddress
  pub ref : Node

-- The template arguments `ChildA` and `ChildB` of the tree: `left` or `right`.
pub data Side : Type 0 where
  left right : Side

abbrev pub other : Side → Side
other left = right
other right = left

-- `Node::red()`: the sentinel is black.
abbrev pub is_red : Node → Bool
is_red nil = false
is_red (node c i k v la l ra r) = c

-- `set_red`; the program never colours the sentinel.
abbrev pub set_red : Bool → Node → Node
set_red c nil = nil
set_red c (node _ i k v la l ra r) = node c i k v la l ra r

-- `rid() == rid`; the sentinel's rid is the least 64-bit integer, which no tree has.
unfoldable pub has_rid : ℤ → Node → Bool
has_rid rid nil = false
has_rid rid (node c i k v la l ra r) = i ==ℤ rid

abbrev pub is_nil : Node → Bool
is_nil nil = true
is_nil (node c i k v la l ra r) = false

-- `Node::Copy`: the children's references and addresses are copied.
unfoldable pub copy : ℤ → Node → Node
copy rid nil = nil
copy rid (node c i k v la l ra r) = node c rid k v la l ra r

-- `if (n->rid() == rid_) n else Node::Copy(n, db_, rid_)`
unfoldable pub own : ℤ → Node → Node
unfolding has_rid copy
own rid n = if has_rid rid n then n else copy rid n

-- A node with its children on the two sides `a` and `other a`.
abbrev pub branch : Side → Bool → ℤ → Slice → Slice → NodePtr → NodePtr → Node
branch left c i k v a b = node c i k v a.address a.ref b.address b.ref
branch right c i k v a b = node c i k v b.address b.ref a.address a.ref
