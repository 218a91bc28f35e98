-- ===== src/Txn/Transaction.antt =====
-- src/db/transaction_impl.cc: every operation is recorded in the intention and applied to the tree.
use cruzdb.Prelude.{
  ℕ, Bool, true, false, not, Option, none, some, if◌then◌else◌, ◌>>=◌, ◌>>◌, assert,
}
use cruzdb.Prelude.Int.{ℤ, is_neg}
use cruzdb.Slice.{Slice, SliceCompare, prefix_string, prefix_user}
use cruzdb.Node.{NodePtr}
use cruzdb.Tree.State.{
  PersistentTree, read_only, get as tree_get, put as tree_put, delete as tree_delete,
}
use cruzdb.Txn.Intention.{Intention, new_intention, record_get, record_put, record_delete}

pub record TransactionImpl : Type 0 where
  pub tree : PersistentTree
  pub intention : Intention
  pub committed : Bool

module _ ⦃o : SliceCompare⦄ where
  -- `Get`: the result, `none` for -ENOENT, and the transaction with the read recorded.
  unfoldable pub get : Slice → TransactionImpl → Option (Option Slice × TransactionImpl)
  get key t = do
    assert (not t.committed)
    i ← record_get key t.intention
    some (tree_get (prefix_string prefix_user key) t.tree, record t { intention = i })

  -- The private `Put`, with a prefix.
  unfoldable pub put_prefixed : Slice → Slice → Slice → TransactionImpl → Option TransactionImpl
  put_prefixed prefix key value t = do
    assert (not t.committed)
    i ← record_put (prefix_string prefix key) value t.intention
    tree ← tree_put (prefix_string prefix key) value t.tree
    some (record t { intention = i; tree = tree })

  unfoldable pub put : Slice → Slice → TransactionImpl → Option TransactionImpl
  put key value = put_prefixed prefix_user key value

  unfoldable pub delete : Slice → TransactionImpl → Option TransactionImpl
  delete key t = do
    assert (not t.committed)
    i ← record_delete key t.intention
    tree ← tree_delete (prefix_string prefix_user key) t.tree
    some (record t { intention = i; tree = tree })

-- The constructor. The root identifier of a transaction is negative; an after image gets the
-- position of its intention.
unfoldable pub new_transaction : NodePtr → ℕ → ℤ → ℕ → Option TransactionImpl
new_transaction root snapshot rid token = do
  assert (is_neg rid)
  some (record {
    tree = record { src_root = root; root = none; rid = rid };
    intention = new_intention snapshot token;
    committed = false;
  })

-- `Commit`; `complete` is what it asks of the database. A transaction that has changed no tree is
-- committed at once: `none`, with the transaction.
unfoldable pub commit :
    {A : Type 0}
    → (TransactionImpl → Option A)
    → TransactionImpl
    → Option (Option A × TransactionImpl)
commit complete t =
    let t' : TransactionImpl = record t { committed = true } in
    let rest = complete t' >>= λ c. some (some c, t') in
    assert (not t.committed) >> (if read_only t.tree then some (none, t') else rest)
