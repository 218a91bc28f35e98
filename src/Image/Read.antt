-- ===== src/Image/Read.antt =====
-- src/db/node_cache.cc: how a node comes back from the log. The cache of nodes, which keeps what
-- this reads, is in Cache/*.
use cruzdb.Prelude.{
  ℕ, Bool, true, false, Option, none, some, ◌>>=◌, ◌>>◌, assert, get_elem?, if◌then◌else◌,
}
use cruzdb.Prelude.Int.{ℤ, pos}
use cruzdb.Slice.{Slice}
use cruzdb.Node.{NodeAddress}
use cruzdb.Txn.Intention.{is_none}
use cruzdb.Image.Proto.{ProtoPtr, AfterImage}
use cruzdb.Image.Write.{to_u16}

-- A node whose children are not in memory: their addresses only, `none` for the sentinel.
pub record LooseNode : Type 0 where
  pub red : Bool
  pub rid : ℤ
  pub key : Slice
  pub val : Slice
  pub left : Option NodeAddress
  pub right : Option NodeAddress

-- One of the two halves of `deserialize_node`
unfoldable pub deserialize_node_ptr : ℕ → ProtoPtr → Option (Option NodeAddress)
deserialize_node_ptr position p =
    let offset = to_u16 (elim p.off [ none ↦ 0 | some o ↦ o ]) in
    if p.is_nil
    then some none
    else if p.self
    then some (some (record { position = position; offset = offset; is_afterimage = true }))
    else elim p.afterimage [
      | some a ↦
          assert (is_none p.intention)
          >> some (some (record { position = a; offset = offset; is_afterimage = true }))
      | none ↦ p.intention >>= λ i.
          some (some (record { position = i; offset = offset; is_afterimage = false }))
    ]

unfoldable pub deserialize_node : AfterImage → ℕ → ℕ → Option LooseNode
deserialize_node image position index = do
  n ← get_elem? image.tree index
  left ← deserialize_node_ptr position n.left
  right ← deserialize_node_ptr position n.right
  some (record {
    red = n.red;
    rid = pos image.intention;
    key = n.key;
    val = n.val;
    left = left;
    right = right;
  })

-- `findAfterImagePosition`; `primary` finds the after image of an intention, in the cached mapping or
-- by a scan of the log.
unfoldable pub find_after_image_position : (ℕ → Option ℕ) → NodeAddress → Option ℕ
find_after_image_position primary a =
    if a.is_afterimage then some a.position else primary a.position

-- `fetch` of a node that is not cached
unfoldable pub fetch : (ℕ → Option AfterImage) → (ℕ → Option ℕ) → NodeAddress → Option LooseNode
fetch read_after_image primary a = do
  p ← find_after_image_position primary a
  image ← read_after_image p
  deserialize_node image p a.offset
