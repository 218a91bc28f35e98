-- ===== src/Tree/State.antt =====
-- src/db/persistent_tree.{h,cc}: the state of a `PersistentTree` and its methods.
use cruzdb.Prelude.{Bool, true, false, Option, none, some, ◌>>=◌, if◌then◌else◌}
use Prim.Native.Nat.Ordering.{lt, eq, gt}
use cruzdb.Prelude.Int.{ℤ}
use cruzdb.Slice.{Slice, SliceCompare}
use cruzdb.Node.{Node, nil, node, NodePtr, left, right, own, copy, has_rid}
use cruzdb.Tree.Path.{close, focus}
use cruzdb.Tree.Insert.{get as get_node, insert_recursive, balance_insert}
use cruzdb.Tree.Delete.{delete_recursive, remove_node}

-- `src_root` is the database snapshot; `root` is the transaction's after image, a null reference
-- (`none`) until the first change.
pub record PersistentTree : Type 0 where
  pub src_root : NodePtr
  pub root : Option Node
  pub rid : ℤ

-- `root_ == nullptr ? src_root_.ref(trace_) : root_`
abbrev pub base_root : PersistentTree → Node
base_root t = elim t.root [ none ↦ t.src_root.ref | some r ↦ r ]

-- `ReadOnly`
unfoldable pub read_only : PersistentTree → Bool
read_only t = elim t.root [ none ↦ true | some _ ↦ false ]

module _ ⦃o : SliceCompare⦄ where
  -- The private `Get`; `none` is -ENOENT.
  unfoldable pub get : Slice → PersistentTree → Option Slice
  get key t = get_node key (base_root t)

  -- The private `Delete`. A key that is not there leaves the tree as it is.
  unfoldable pub delete : Slice → PersistentTree → Option PersistentTree
  delete key t = elim (delete_recursive t.rid key (base_root t)) [
    | none ↦ some t
    | some p ↦ remove_node t.rid p.0 p.1 >>= λ root. some (record t { root = some root })
  ]

  -- `Put`: a key that is present already is removed first, and inserted anew.
  unfoldable pub put : Slice → Slice → PersistentTree → Option PersistentTree
  put key value t = elim (insert_recursive t.rid key value (base_root t)) [
    | some p ↦ balance_insert t.rid p.0 p.1 >>= λ root. some (record t { root = some root })
    | none ↦ do
      t' ← delete key t
      p ← insert_recursive t.rid key value (base_root t')
      root ← balance_insert t.rid p.0 p.1
      some (record t' { root = some root })
  ]

  -- `copy_recursive`, on a tree that may hold the key: `none` says that nothing is to be copied.
  unfoldable pub copy_recursive : ℤ → Slice → Node → Option Node
  copy_recursive rid q nil = none
  copy_recursive rid q (node c i k v la l ra r) = elim (o.compare q k) [
    | eq ↦
        if has_rid rid (node c i k v la l ra r)
        then none
        else some (copy rid (node c i k v la l ra r))
    | lt ↦ copy_recursive rid q l >>= λ t.
        focus left (own rid (node c i k v la l ra r)) >>= λ f. some (close f.0 t)
    | gt ↦ copy_recursive rid q r >>= λ t.
        focus right (own rid (node c i k v la l ra r)) >>= λ f. some (close f.0 t)
  ]

  -- `Copy`: the path to the key is replaced by copies.
  unfoldable pub copy_path : Slice → PersistentTree → PersistentTree
  copy_path key t = elim (copy_recursive t.rid key (base_root t)) [
    | none ↦ t
    | some r ↦ record t { root = some r }
  ]
