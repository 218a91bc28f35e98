-- ===== src/Image/Stored.antt =====
-- src/db/persistent_tree.cc and src/db/node_cache.cc: the trees that the log holds at an address.
use cruzdb.Prelude.{ℕ, Bool, Option, none, some, ◌>>=◌, ◌≡◌}
use cruzdb.Slice.{Slice}
use cruzdb.Node.{Node, nil, node, NodeAddress}
use cruzdb.Image.Read.{LooseNode}

-- A tree without its addresses and identifiers.
pub data Plain : Type 0 where
  leaf : Plain
  bin : (red : Bool) (key val : Slice) → Plain → Plain → Plain

abbrev pub plain : Node → Plain
plain nil = leaf
plain (node c i k v la l ra r) = bin c k v (plain l) (plain r)

-- The tree that is read from an address on, node by node; without an address it is the sentinel.
pub data Stored (load : NodeAddress → Option LooseNode) : Option NodeAddress → Plain → Type 0 where
  stored_nil : Stored load none leaf
  stored_node :
      {a : NodeAddress} {n : LooseNode} {l r : Plain}
      → load a ≡ some n
      → Stored load n.left l
      → Stored load n.right r
      → Stored load (some a) (bin n.red n.key n.val l r)

-- The reading of a tree, on fuel for its height.
unfoldable pub read_tree : (NodeAddress → Option LooseNode) → ℕ → Option NodeAddress → Option Plain
read_tree load fuel none = some leaf
read_tree load ℕ.zero (some a) = none
read_tree load (ℕ.suc fuel) (some a) = load a >>= λ n. read_tree load fuel n.left >>= λ l.
    read_tree load fuel n.right >>= λ r. some (bin n.red n.key n.val l r)
