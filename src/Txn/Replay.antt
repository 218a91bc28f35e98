-- ===== src/Txn/Replay.antt =====
-- src/db/db_impl.cc: `ReplayIntention`, which applies a logged intention to the tree of its snapshot.
use cruzdb.Prelude.{
  false, not, List, [], ◌∷◌, ◌++◌, Option, none, some, ◌>>=◌, ◌>>◌, assert, ◌≡◌, refl, sym, ap, ◌∙◌,
  arith, Holds, Holds-imp, Holds-some, >>=-eq-some,
}
use cruzdb.Prelude.Int.{ℤ}
use cruzdb.Slice.{Slice, SliceCompare, prefix_string, prefix_user}
use cruzdb.Dict.{Entry, lookup, upsert, remove}
use cruzdb.Tree.State.{PersistentTree, base_root, put as tree_put, delete as tree_delete, copy_path}
use cruzdb.Tree.Entries.{entries}
use cruzdb.Tree.Correct.{IsValid, Updated, Deleted, put-Updated, delete-Deleted}
use cruzdb.Tree.Reads.{get-base_root}
use cruzdb.Txn.Intention.{OpType, TransactionOp, is_none, record_get, record_put, record_delete}
use cruzdb.Txn.Transaction.{TransactionImpl, get, put, put_prefixed, delete}

module _ ⦃o : SliceCompare⦄ where
  -- One operation of the loop.
  unfoldable pub replay_op : TransactionOp → PersistentTree → Option PersistentTree
  replay_op op tree = elim op.op [
    | OpType.get ↦ assert (is_none op.val) >> some tree
    | OpType.put ↦ op.val >>= λ val. tree_put op.key val tree
    | OpType.delete ↦ assert (is_none op.val) >> tree_delete (prefix_string prefix_user op.key) tree
    | OpType.copy ↦ assert (is_none op.val) >> some (copy_path op.key tree)
  ]

  unfoldable pub replay : List TransactionOp → PersistentTree → Option PersistentTree
  replay [] tree = some tree
  replay (op ∷ ops) tree = replay_op op tree >>= replay ops

  replay-append :
      (xs : List TransactionOp) (op : TransactionOp) (tree tree' : PersistentTree)
      → replay xs tree ≡ some tree'
      → replay (xs ++ op ∷ []) tree ≡ replay_op op tree'
  unfolding replay
  replay-append [] op tree tree' e = grind arith
  replay-append (x ∷ xs) op tree tree' e =
      let y = >>=-eq-some (replay_op x tree) (replay xs) e in
      rw (y.1, ◌>>=◌) (replay-append xs op y.0 tree' y.2)

  -- The snapshot of a tree, without the changes that the tree makes to it.
  abbrev pub snapshot_tree : ℤ → PersistentTree → PersistentTree
  snapshot_tree rid tree = record { src_root = tree.src_root; root = none; rid = rid }

  -- Two trees with the same entries, the first of them valid.
  abbrev pub Agrees : PersistentTree → PersistentTree → Type 0
  Agrees tree tree' =
      IsValid (base_root tree) × (entries (base_root tree) ≡ entries (base_root tree'))

  -- A transaction in progress over a valid tree, whose intention yields on replay over the same
  -- snapshot, at another root identifier, a valid tree with the entries of the transaction's own.
  pub record Replays (rid : ℤ) (t : TransactionImpl) : Type 0 where
    pub uncommitted : t.committed ≡ false
    pub unlogged : t.intention.pos ≡ none
    pub valid : IsValid (base_root t.tree)
    pub agrees :
        Holds (λ tree. Agrees tree t.tree) (replay t.intention.ops (snapshot_tree rid t.tree))

  -- A transaction whose intention replays to its tree, and whose tree has the given entries.
  abbrev pub Next : ℤ → List Entry → TransactionImpl → Type 0
  Next rid es t = (entries (base_root t.tree) ≡ es) × Replays rid t

  replay-Put :
      (k v : Slice) (ops : List TransactionOp) (tree tree' start start' : PersistentTree)
      → start' ≡ start
      → Holds (λ x. Agrees x tree) (replay ops start)
      → Updated k v tree tree'
      → Holds
          (λ x. Agrees x tree')
          (replay (ops ++ record { op = OpType.put; key = k; val = some v } ∷ []) start')
  unfolding replay_op
  replay-Put k v ops tree tree' start start' src h (valid, e, _, _) =
      let (x, f, (a, b)) = Holds-some (λ x. Agrees x tree) (replay ops start) h in
      rw (src, replay-append ops (record { op = OpType.put; key = k; val = some v }) start x f)
        (Holds-imp (Updated k v x) _ (tree_put k v x)
          (λ x' u. (u.0, u.1 ∙ ap (upsert k v) b ∙ sym e)) (put-Updated k v x a))

  -- `Put` on a transaction whose intention replays to its tree succeeds, no assertion fails, and
  -- updates the entries of the tree at the prefixed key; the intention, with the new operation,
  -- replays to the new tree.
  pub put-Replays :
      (rid : ℤ) (k v : Slice) (t : TransactionImpl)
      → Replays rid t
      → Holds
          (Next rid (upsert (prefix_string prefix_user k) v (entries (base_root t.tree))))
          (put k v t)
  unfolding put put_prefixed record_put
  put-Replays rid k v t r =
      let p = prefix_string prefix_user k in
      let (tree', f, u) =
        Holds-some (Updated p v t.tree) (tree_put p v t.tree) (put-Updated p v t.tree r.valid) in
      rw (r.uncommitted, not, assert, ◌>>◌, ◌>>=◌, r.unlogged, is_none, f)
        (
          u.1,
          record {
            uncommitted = refl;
            unlogged = refl;
            valid = u.0;
            agrees =
                replay-Put p v t.intention.ops t.tree tree' (snapshot_tree rid t.tree)
                  (snapshot_tree rid tree')
                  (ap (λ s. record { src_root = s; root = none; rid = rid }) u.3) r.agrees u;
          },
        )

  replay-Delete :
      (k : Slice) (ops : List TransactionOp) (tree tree' start start' : PersistentTree)
      → start' ≡ start
      → Holds (λ x. Agrees x tree) (replay ops start)
      → Deleted (prefix_string prefix_user k) tree tree'
      → Holds
          (λ x. Agrees x tree')
          (replay (ops ++ record { op = OpType.delete; key = k; val = none } ∷ []) start')
  unfolding replay_op
  replay-Delete k ops tree tree' start start' src h (valid, w, _, _) =
      let q = prefix_string prefix_user k in
      let (x, f, (a, b)) = Holds-some (λ x. Agrees x tree) (replay ops start) h in
      rw (src, replay-append ops (record { op = OpType.delete; key = k; val = none }) start x f)
        (Holds-imp (Deleted q x) _ (tree_delete q x)
          (λ x' d. (d.0, d.1.1 ∙ ap (remove q) b ∙ sym w.1)) (delete-Deleted q x a))

  -- `Delete`, of a key that is there or not, on a transaction whose intention replays to its tree
  -- succeeds, no assertion fails, and removes the prefixed key from the entries of the tree; the
  -- intention, with the new operation, replays to the new tree.
  pub delete-Replays :
      (rid : ℤ) (k : Slice) (t : TransactionImpl)
      → Replays rid t
      → Holds
          (Next rid (remove (prefix_string prefix_user k) (entries (base_root t.tree))))
          (delete k t)
  unfolding delete record_delete
  delete-Replays rid k t r =
      let q = prefix_string prefix_user k in
      let (tree', f, d) =
        Holds-some (Deleted q t.tree) (tree_delete q t.tree) (delete-Deleted q t.tree r.valid) in
      rw (r.uncommitted, not, assert, ◌>>◌, ◌>>=◌, r.unlogged, is_none, f)
        (
          d.1.1,
          record {
            uncommitted = refl;
            unlogged = refl;
            valid = d.0;
            agrees =
                replay-Delete k t.intention.ops t.tree tree' (snapshot_tree rid t.tree)
                  (snapshot_tree rid tree')
                  (ap (λ s. record { src_root = s; root = none; rid = rid }) d.3) r.agrees d;
          },
        )

  replay-Get :
      (rid : ℤ) (k : Slice) (ops : List TransactionOp) (tree : PersistentTree)
      → Holds (λ x. Agrees x tree) (replay ops (snapshot_tree rid tree))
      → Holds
          (λ x. Agrees x tree)
          (replay
            (ops ++ record { op = OpType.get; key = k; val = none } ∷ [])
            (snapshot_tree rid tree))
  unfolding replay_op
  replay-Get rid k ops tree h =
      let (x, f, a) = Holds-some (λ x. Agrees x tree) (replay ops (snapshot_tree rid tree)) h in
      rw
        (replay-append ops (record { op = OpType.get; key = k; val = none })
          (snapshot_tree rid tree) x f)
        a

  -- `Get` on a transaction whose intention replays to its tree fails no assertion, returns what the
  -- entries of the tree hold for the prefixed key, leaves the tree as it is, and leaves a
  -- transaction whose intention, with the read, replays to the tree.
  pub get-Replays :
      (rid : ℤ) (k : Slice) (t : TransactionImpl)
      → Replays rid t
      → Holds
          (λ (x, t').
            (x ≡ lookup (prefix_string prefix_user k) (entries (base_root t.tree)))
            × (t'.tree ≡ t.tree)
            × Replays rid t')
          (get k t)
  unfolding get record_get
  get-Replays rid k t r =
      rw (r.uncommitted, not, assert, ◌>>◌, ◌>>=◌, r.unlogged, is_none)
        (
          get-base_root (prefix_string prefix_user k) t.tree r.valid,
          refl,
          record {
            uncommitted = refl;
            unlogged = refl;
            valid = r.valid;
            agrees = replay-Get rid k t.intention.ops t.tree r.agrees;
          },
        )
