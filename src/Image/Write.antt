-- ===== src/Image/Write.antt =====
-- src/db/persistent_tree.cc: the addresses of the new nodes of a tree, and their serialization. The
-- new nodes are those that have the tree's own root identifier.
use cruzdb.Prelude.{
  ℕ, ◌+◌, ◌-◌, ◌%◌, ◌^◌, Bool, true, false, not, ◌||◌, List, [], ◌∷◌, ◌++◌, Option, none, some,
  ◌>>=◌, ◌>>◌, assert, ◌==◌, ltb, if◌then◌else◌,
}
use cruzdb.Prelude.Int.{ℤ, pos, is_neg, ◌==ℤ◌}
use cruzdb.Node.{Node, nil, node, NodePtr, NodeAddress, has_rid, is_nil, copy}
use cruzdb.Tree.State.{PersistentTree}
use cruzdb.Image.Proto.{ProtoPtr, ProtoNode, AfterImage}

-- An offset as `uint16_t`
abbrev pub to_u16 : ℕ → ℕ
to_u16 n = n % 2 ^ 16

-- `infect_node_ptr` with `SetIntentionAddress`; the result is the new address of the pointer.
unfoldable pub infect_node_ptr : ℤ → ℕ → NodePtr → ℕ → Option NodeAddress
infect_node_ptr rid intention src maybe_offset =
    if has_rid rid src.ref
    then some (record { position = intention; offset = to_u16 maybe_offset; is_afterimage = false })
    else src.address

-- `infect_after_image`: the tree with its addresses, and the next field index. Where a child is not
-- new the offset before the index is not used, so that 0 stands for the program's -1.
unfoldable pub infect_after_image : ℤ → ℕ → Node → ℕ → Node × ℕ
infect_after_image rid intention nil index = (nil, index)
infect_after_image rid intention (node c i k v la l ra r) index =
    let p = infect_after_image rid intention l index in
    let q = infect_after_image rid intention r p.1 in
    let left_address = infect_node_ptr rid intention (record { address = la; ref = l }) (p.1 - 1) in
    let right_address =
      infect_node_ptr rid intention (record { address = ra; ref = r }) (q.1 - 1) in
    if has_rid rid (node c i k v la l ra r)
    then (node c i k v left_address p.0 right_address q.0, q.1 + 1)
    else (node c i k v la l ra r, index)

-- The loop over `fresh_nodes_` that gives them another identifier; the new nodes that the tree no
-- longer reaches are left out.
unfoldable pub set_rids : ℤ → ℤ → Node → Node
set_rids old new nil = nil
set_rids old new (node c i k v la l ra r) =
    let l' = set_rids old new l in
    let r' = set_rids old new r in
    if has_rid old (node c i k v la l ra r)
    then node c new k v la l' ra r'
    else node c i k v la l ra r

-- `infect_self_pointers`: the tree, and the offset of its root where it has changed anything.
unfoldable pub infect_self_pointers : ℕ → Bool → PersistentTree → Option (PersistentTree × Option ℕ)
infect_self_pointers intention expect_intention_rid tree = do
  assert (if expect_intention_rid then tree.rid ==ℤ pos intention else is_neg tree.rid)
  elim tree.root [
    | none ↦ some (
      record tree { root = some (copy (pos intention) tree.src_root.ref); rid = pos intention },
      none,
    )
    | some root ↦
        assert (is_nil root || has_rid tree.rid root)
        >> (let infected =
              infect_after_image (pos intention) intention (set_rids tree.rid (pos intention) root)
                0 in
            assert (ltb 0 infected.1)
            >> some (
              record tree { root = some infected.0; rid = pos intention },
              some (infected.1 - 1),
            ))
  ]

-- The position and offset of a node that is not new: `cached` is `IntentionToAfterImage`.
abbrev pub afterimage_ptr : ℕ → ℕ → ProtoPtr
afterimage_ptr position offset = record {
  is_nil = false;
  self = false;
  intention = none;
  afterimage = some position;
  off = some offset;
}

abbrev pub intention_ptr : ℕ → ℕ → Option ℕ → ProtoPtr
intention_ptr position offset (some p) = afterimage_ptr p offset
intention_ptr position offset none = record {
  is_nil = false;
  self = false;
  intention = some position;
  afterimage = none;
  off = some offset;
}

unfoldable pub serialize_address : (ℕ → Option ℕ) → NodeAddress → ProtoPtr
serialize_address cached a =
    if a.is_afterimage
    then afterimage_ptr a.position a.offset
    else intention_ptr a.position a.offset (cached a.position)

-- `serialize_node_ptr`
unfoldable pub serialize_node_ptr : ℤ → (ℕ → Option ℕ) → NodePtr → ℕ → Option ProtoPtr
serialize_node_ptr rid cached src maybe_offset =
    if is_nil src.ref
    then some
        (record { is_nil = true; self = false; intention = none; afterimage = none; off = none })
    else if has_rid rid src.ref
    then (src.address >>= λ a.
        assert (a.offset == maybe_offset)
        >> some (record {
          is_nil = false;
          self = true;
          intention = none;
          afterimage = none;
          off = some maybe_offset;
        }))
    else (src.address >>= λ a. some (serialize_address cached a))

-- `serialize_node`
unfoldable pub serialize_node : ℤ → (ℕ → Option ℕ) → Node → ℕ → ℕ → Option ProtoNode
serialize_node rid cached nil left_offset right_offset = none
serialize_node rid cached (node c i k v la l ra r) left_offset right_offset = do
  left ← serialize_node_ptr rid cached (record { address = la; ref = l }) left_offset
  right ← serialize_node_ptr rid cached (record { address = ra; ref = r }) right_offset
  some (record { red = c; key = k; val = v; left = left; right = right })

-- `serialize_intention`: the nodes that it adds to the image, and the next field index.
unfoldable pub serialize_intention : ℤ → (ℕ → Option ℕ) → Node → ℕ → Option (List ProtoNode × ℕ)
serialize_intention rid cached nil index = some ([], index)
serialize_intention rid cached (node c i k v la l ra r) index =
    let rest = serialize_intention rid cached l index >>= λ p.
    serialize_intention rid cached r p.1 >>= λ q.
    serialize_node rid cached (node c i k v la l ra r) (p.1 - 1) (q.1 - 1) >>= λ n.
    some ((p.0 ++ q.0) ++ n ∷ [], q.1 + 1) in
    if has_rid rid (node c i k v la l ra r) then rest else some ([], index)

-- `SerializeAfterImage`
unfoldable pub serialize_after_image : (ℕ → Option ℕ) → PersistentTree → ℕ → Option AfterImage
serialize_after_image cached tree intention = do
  root ← tree.root
  assert (is_nil root || has_rid tree.rid root)
  p ← serialize_intention tree.rid cached root 0
  some (record { intention = intention; tree = p.0 })

-- `ConvertToAfterImage` on the pointer to a new node
unfoldable pub convert_to_after_image : ℕ → Option NodeAddress → Option NodeAddress
convert_to_after_image position address = do
  a ← address
  assert (not a.is_afterimage)
  assert (ltb a.position position)
  some (record { position = position; offset = a.offset; is_afterimage = true })

unfoldable pub convert_pointer : ℤ → ℕ → NodePtr → Option (Option NodeAddress)
convert_pointer rid position p =
    if has_rid rid p.ref
    then (convert_to_after_image position p.address >>= λ a. some (some a))
    else some p.address

-- `SetDeltaPosition`, over the new nodes of the tree
unfoldable pub set_delta_position : ℤ → ℕ → Node → Option Node
set_delta_position rid position nil = some nil
set_delta_position rid position (node c i k v la l ra r) =
    let rest = set_delta_position rid position l >>= λ l'.
    set_delta_position rid position r >>= λ r'.
    convert_pointer rid position (record { address = la; ref = l }) >>= λ la'.
    convert_pointer rid position (record { address = ra; ref = r }) >>= λ ra'.
    some (node c i k v la' l' ra' r') in
    if has_rid rid (node c i k v la l ra r) then rest else some (node c i k v la l ra r)
