-- ===== src/Tree/Insert.antt =====
-- src/db/persistent_tree.cc: lookup, and the insertion half of `Put`.
use Prim.Native.Nat.Ordering.{lt, eq, gt}
use cruzdb.Prelude.{
  ℕ, zero, suc, Bool, true, false, List, [], ◌∷◌, ◌++◌, Option, none, some, ◌>>=◌, length,
  if◌then◌else◌,
}
use cruzdb.Prelude.Int.{ℤ}
use cruzdb.Slice.{Slice, SliceCompare}
use cruzdb.Node.{Node, nil, node, NodePtr, Side, left, right, other, is_red, set_red, own}
use cruzdb.Tree.Path.{Frame, close, rebuild, focus, set_address, rotate}

-- `a == b` on sides: is the new node the child of its parent on the parent's own side?
abbrev pub same_side : Side → Side → Bool
same_side left left = true
same_side right right = true
same_side _ _ = false

module _ ⦃o : SliceCompare⦄ where
  -- `PersistentTree::Get`; `none` is -ENOENT.
  unfoldable pub get : Slice → Node → Option Slice
  get q nil = none
  get q (node c i k v la l ra r) = elim (o.compare q k) [
    | lt ↦ get q l
    | eq ↦ some v
    | gt ↦ get q r
  ]

  -- `insert_recursive`: the new node, and the copied nodes above it. `none` is the null reference
  -- that says that the key is present already; then nothing is copied.
  unfoldable pub insert_recursive : ℤ → Slice → Slice → Node → Option (Node × List Frame)
  unfolding own
  insert_recursive rid q w nil = some (node true rid q w none nil none nil, [])
  insert_recursive rid q w (node c i k v la l ra r) = elim (o.compare q k) [
    | eq ↦ none
    | lt ↦ insert_recursive rid q w l >>= λ p.
        focus left (own rid (node c i k v la l ra r)) >>= λ f. some (p.0, p.1 ++ f.0 ∷ [])
    | gt ↦ insert_recursive rid q w r >>= λ p.
        focus right (own rid (node c i k v la l ra r)) >>= λ f. some (p.0, p.1 ++ f.0 ∷ [])
  ]

-- The first rotation of `insert_balance`: where the new node is the inner grandchild, it goes up.
-- The result is the pointer from the grandparent to the node that is called `parent` after it.
unfoldable pub rotate_inner : Node → Frame → Frame → Option NodePtr
unfolding rotate
rotate_inner nn parent grand =
    if same_side parent.side grand.side
    then some (record { address = grand.address; ref = close parent nn })
    else rotate grand.side (close parent nn)

-- One round of `insert_balance`: the uncle is red, or rotations end the loop.
unfoldable pub insert_balance : ℤ → Node → Frame → Frame → List Frame → Option (Node × List Frame)
unfolding own rotate rotate_inner
insert_balance rid nn parent grand path =
    let uncle = grand.sibling in
    if is_red uncle.ref
    then some (
      close
          (record grand {
            red = true;
            sibling = record { address = uncle.address; ref = set_red false (own rid uncle.ref) };
          })
          (close (record parent { red = false }) nn),
      path,
    )
    else do
      p ← rotate_inner nn parent grand
      let grand_parent =
          close (record grand { red = is_red p.ref; address = p.address }) (set_red grand.red p.ref)
      g ← rotate (other grand.side) grand_parent
      top ← focus grand.side g.ref
      some (top.1, top.0 ∷ set_address g.address path)

-- `while (parent->red())`, on fuel. `none` is a failed assertion, or the fuel has run out.
unfoldable pub insert_loop : ℕ → ℤ → Node → List Frame → Option Node
unfolding insert_balance
insert_loop zero rid nn path = none
insert_loop (suc fuel) rid nn [] = some nn
insert_loop (suc fuel) rid nn (parent ∷ []) =
    if parent.red then none else some (rebuild nn (parent ∷ []))
insert_loop (suc fuel) rid nn (parent ∷ grand ∷ path) =
    let rest = insert_balance rid nn parent grand path >>= λ s. insert_loop fuel rid s.0 s.1 in
    if parent.red then rest else some (rebuild nn (parent ∷ grand ∷ path))

-- The end of `Put`: balance, and colour the root black. Each round shortens the path.
unfoldable pub balance_insert : ℤ → Node → List Frame → Option Node
unfolding insert_loop
balance_insert rid nn path =
    insert_loop (suc (length path)) rid nn path >>= λ root. some (set_red false root)
