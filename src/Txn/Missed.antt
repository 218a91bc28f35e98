-- ===== src/Txn/Missed.antt =====
-- src/db/transaction_impl.cc and src/db/db_impl.cc: a read and a put of one key.
use cruzdb.Prelude.{
  false, not, [], ◌∷◌, ◌>>=◌, ◌>>◌, assert, ◌≡◌, ap, arith, Holds, Holds-some, Bool-cases, inl, inr,
  length,
}
use cruzdb.Prelude.Int.{ℤ}
use cruzdb.Slice.{Slice, SliceCompare, prefix_string, prefix_user}
use cruzdb.Tree.State.{put as tree_put}
use cruzdb.Tree.Correct.{Updated, put-Updated}
use cruzdb.Txn.Replay.{Replays}
use cruzdb.Txn.Intention.{op_keys, update_op_keys, is_none, record_get, record_put}
use cruzdb.Txn.Transaction.{TransactionImpl, get, put, put_prefixed}
use cruzdb.Txn.Conflict.{must_abort, conflicts, intersects, find, slice_eq, eq_of_slice_eq}

module _ ⦃o : SliceCompare⦄ where
  prefix-ne : (k : Slice) → slice_eq k (prefix_string prefix_user k) ≡ false
  unfolding prefix_string
  prefix-ne k = elim (Bool-cases (slice_eq k (prefix_string prefix_user k))) [
    | inl e ↦ absurd (omega (arith, ap length (eq_of_slice_eq k (prefix_string prefix_user k) e)))
    | inr e ↦ e
  ]

  -- A transaction whose only operation is to read a key is not aborted because of one whose only
  -- operation is to put that same key: the read is recorded under the bare key, the put under the
  -- prefixed one. Neither operation fails an assertion.
  pub get-misses-put :
      (rid : ℤ) (k v : Slice) (t u : TransactionImpl)
      → Replays rid t
      → Replays rid u
      → t.intention.ops ≡ []
      → u.intention.ops ≡ []
      → Holds
          (λ u'. Holds (λ (_, t'). must_abort t'.intention (u'.intention ∷ []) ≡ false) (get k t))
          (put k v u)
  unfolding get record_get put put_prefixed record_put must_abort conflicts op_keys update_op_keys
      intersects find
  get-misses-put rid k v t u rt ru et eu =
      let p = prefix_string prefix_user k in
      let (tree', f, d) =
        Holds-some (Updated p v u.tree) (tree_put p v u.tree) (put-Updated p v u.tree ru.valid) in
      rw
        (
          rt.uncommitted, ru.uncommitted, not, assert, ◌>>◌, ◌>>=◌, rt.unlogged, ru.unlogged,
          is_none, f, et, eu,
        )
        (ground (arith, prefix-ne k))
