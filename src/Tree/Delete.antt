-- ===== src/Tree/Delete.antt =====
-- src/db/persistent_tree.cc: `Delete`, and its rebalancing.
use Prim.Native.Nat.Ordering.{lt, eq, gt}
use cruzdb.Prelude.{
  ℕ, zero, suc, Bool, true, false, not, ◌&&◌, List, [], ◌∷◌, ◌++◌, Option, none, some, ◌>>=◌,
  length, if◌then◌else◌,
}
use cruzdb.Prelude.Int.{ℤ}
use cruzdb.Slice.{Slice, SliceCompare}
use cruzdb.Node.{Node, nil, node, NodePtr, Side, left, right, other, is_red, set_red, own}
use cruzdb.Tree.Path.{Frame, close, rebuild, focus, set_address, rotate}

-- `delete_recursive`: the copied node that holds the key, and the copied nodes above it.
module _ ⦃o : SliceCompare⦄ where
  unfoldable pub delete_recursive : ℤ → Slice → Node → Option (Node × List Frame)
  delete_recursive rid q nil = none
  delete_recursive rid q (node c i k v la l ra r) = elim (o.compare q k) [
    | eq ↦ some (own rid (node c i k v la l ra r), [])
    | lt ↦ delete_recursive rid q l >>= λ p.
        focus left (own rid (node c i k v la l ra r)) >>= λ f. some (p.0, p.1 ++ f.0 ∷ [])
    | gt ↦ delete_recursive rid q r >>= λ p.
        focus right (own rid (node c i k v la l ra r)) >>= λ f. some (p.0, p.1 ++ f.0 ∷ [])
  ]

-- `build_min_path`, on a node that the tree owns: copies the way down to the least node, and
-- returns that node with the path extended.
unfoldable pub build_min_path : ℤ → Node → List Frame → Option (Node × List Frame)
build_min_path rid nil path = none
build_min_path rid (node c i k v la nil ra r) path = some (node c i k v la nil ra r, path)
build_min_path rid (node c i k v la (node lc li lk lv lla ll lra lr) ra r) path =
    build_min_path rid (node lc rid lk lv lla ll lra lr) (
      record {
        side = left;
        red = c;
        rid = i;
        key = k;
        val = v;
        address = la;
        sibling = record { address = ra; ref = r };
      }
      ∷ path)

-- The states of the loop of `balance_delete`: a doubly black node below its path, or the end, when
-- `extra_black` is the root and `parent` is the sentinel.
pub data Step : Type 0 where
  loop : Node → List Frame → Step
  done : Node → Step

-- The first part of `mirror_remove_balance`, where the brother is red: it is copied, exchanges its
-- colour with the parent and goes up. The result has the frame of the parent, whose brother is new,
-- and the path above it.
unfoldable pub raise_red_brother : ℤ → Node → Frame → List Frame → Option (Frame × List Frame)
raise_red_brother rid extra parent path = do
  let brother = set_red parent.red (own rid parent.sibling.ref)
  let sibling : NodePtr = record { address = parent.sibling.address; ref = brother }
  g ← rotate parent.side (close (record parent { red = true; sibling = sibling }) extra)
  upper ← focus parent.side g.ref
  lower ← focus parent.side upper.1
  some (lower.0, upper.0 ∷ set_address g.address path)

unfoldable pub rotate_red_brother : ℤ → Node → Frame → List Frame → Option (Frame × List Frame)
rotate_red_brother rid extra parent path =
    if is_red parent.sibling.ref
    then raise_red_brother rid extra parent path
    else some (parent, path)

-- The pointers of a node to its children on the sides `a` and `other a`.
abbrev pub child : Side → Node → Option NodePtr
child s t = focus s t >>= λ f. some (record { address = f.0.address; ref = f.1 })

-- The inner rotation of the last case: the far nephew is black, so the near one (copied) goes up.
unfoldable pub rotate_near_nephew : ℤ → Side → NodePtr → Option NodePtr
rotate_near_nephew rid a brother = do
  f ← focus a (own rid brother.ref)
  let near = own rid f.1
  g ← rotate (other a) (close (record f.0 { red = is_red near }) (set_red f.0.red near))
  some g

-- The end of the last case: brother and far nephew are copied and coloured, and brother goes up.
unfoldable pub rotate_brother : ℤ → Node → Frame → NodePtr → List Frame → Option Node
rotate_brother rid extra parent brother path = do
  far ← focus (other parent.side) (own rid brother.ref)
  let brother' = close (record far.0 { red = parent.red }) (set_red false (own rid far.1))
  g ← rotate parent.side (
      close
        (record parent {
          red = false;
          sibling = record { address = brother.address; ref = brother' };
        })
        extra)
  some (rebuild g.ref (set_address g.address path))

-- The second case of `mirror_remove_balance`: both nephews are black, and the brother turns red.
unfoldable pub paint_brother : ℤ → Node → Frame → List Frame → Step
paint_brother rid extra parent path =
    let brother = set_red true (own rid parent.sibling.ref) in
    let sibling : NodePtr = record { address = parent.sibling.address; ref = brother } in
    loop (close (record parent { sibling = sibling }) extra) path

-- The last cases: a nephew is red, and rotations end the loop.
unfoldable pub rotate_nephews : ℤ → Node → Frame → NodePtr → List Frame → Option Step
rotate_nephews rid extra parent far path = do
  brother ←
      if is_red far.ref
      then some parent.sibling
      else rotate_near_nephew rid parent.side parent.sibling
  root ← rotate_brother rid extra parent brother path
  some (done root)

-- The rest of `mirror_remove_balance`, for a black brother.
unfoldable pub balance_black_brother : ℤ → Node → Frame → List Frame → Option Step
balance_black_brother rid extra parent path = do
  near ← child parent.side parent.sibling.ref
  far ← child (other parent.side) parent.sibling.ref
  let nephews_black = not (is_red near.ref) && not (is_red far.ref)
  if nephews_black
      then some (paint_brother rid extra parent path)
      else rotate_nephews rid extra parent far path

-- `mirror_remove_balance`, on the side of the parent that holds the extra black.
unfoldable pub mirror_remove_balance : ℤ → Node → Frame → List Frame → Option Step
mirror_remove_balance rid extra parent path = do
  s ← rotate_red_brother rid extra parent path
  balance_black_brother rid extra s.0 s.1

-- What follows the loop of `balance_delete`: the node is copied, put in its place and coloured black.
unfoldable pub finish_delete : ℤ → Node → List Frame → Node
finish_delete rid extra path = rebuild (set_red false (own rid extra)) path

-- After a round: the rest of the loop, or its end at the root.
unfoldable pub continue_delete : ℤ → (Node → List Frame → Option Node) → Step → Option Node
continue_delete rid next (loop extra path) = next extra path
continue_delete rid next (done root) = some (finish_delete rid root [])

-- `balance_delete`, its loop on fuel. The first loop condition, `extra_black != root`, is that the
-- path is not empty. `none` is a failed assertion, or the fuel has run out.
unfoldable pub balance_delete : ℕ → ℤ → Node → List Frame → Option Node
balance_delete zero rid extra path = none
balance_delete (suc fuel) rid extra [] = some (finish_delete rid extra [])
balance_delete (suc fuel) rid extra (parent ∷ path) =
    let next =
      mirror_remove_balance rid extra parent path
      >>= continue_delete rid (balance_delete fuel rid) in
    if is_red extra then some (finish_delete rid extra (parent ∷ path)) else next

-- After the removed node is chosen: `transplant`, and the balance where a black node is gone.
unfoldable pub remove_at : ℤ → Bool → Node → List Frame → Option Node
remove_at rid removed_red transplanted path =
    if removed_red
    then some (rebuild transplanted path)
    else balance_delete (suc (suc (length path))) rid transplanted path

-- `temp->steal_payload(removed)`, and the removal of the least node of the right subtree, whose path
-- below `temp` is `below`.
unfoldable pub steal_payload : ℤ → Frame → Node → List Frame → List Frame → Option Node
steal_payload rid temp nil below path = none
steal_payload rid temp (node mc mi mk mv mla ml mra mr) below path =
    remove_at rid mc mr (below ++ record temp { key = mk; val = mv } ∷ path)

-- The middle of `Delete`: the node that holds the key has at most one child, or takes over the
-- payload of its successor, which is removed in its place.
unfoldable pub remove_node : ℤ → Node → List Frame → Option Node
remove_node rid nil path = none
remove_node rid (node c i k v la nil ra r) path = remove_at rid c r path
remove_node rid (node c i k v la (node lc li lk lv lla ll lra lr) ra nil) path =
    remove_at rid c (node lc li lk lv lla ll lra lr) path
remove_node rid
      (node c i k v la (node lc li lk lv lla ll lra lr) ra (node rc ri rk rv rla rl rra rr)) path =
    build_min_path rid (own rid (node rc ri rk rv rla rl rra rr)) [] >>= λ m.
    steal_payload rid
      (record {
        side = right;
        red = c;
        rid = i;
        key = k;
        val = v;
        address = ra;
        sibling = record { address = la; ref = node lc li lk lv lla ll lra lr };
      })
      m.0 m.1 path
