-- ===== src/Txn/Log.antt =====
-- src/db/db_impl.cc: `ReplayIntention` on any intention that is read from the log.
use cruzdb.Prelude.{
  List, [], ◌∷◌, Option, none, some, ◌>>=◌, ◌>>◌, assert, ◌≡◌, refl, ap, ◌∙◌, All, Holds, Holds->>=,
  Holds-imp, true,
}
use cruzdb.Slice.{Slice, SliceCompare, prefix_string, prefix_user}
use cruzdb.Dict.{Entry, upsert, remove}
use cruzdb.Tree.State.{PersistentTree, base_root, put, delete}
use cruzdb.Tree.Entries.{entries}
use cruzdb.Tree.Correct.{IsValid, Updated, Deleted, put-Updated, delete-Deleted}
use cruzdb.Tree.Copies.{get-copy_path}
use cruzdb.Txn.Intention.{OpType, TransactionOp, is_none}
use cruzdb.Txn.Replay.{replay_op, replay}

-- An operation as a transaction records it: a put has a value, and no other operation has one.
abbrev pub Recorded : TransactionOp → Type 0
Recorded op = elim op.op [
  | OpType.put ↦ (w : Slice) × (op.val ≡ some w)
  | _ ↦ is_none op.val ≡ true
]

module _ ⦃o : SliceCompare⦄ where
  -- What an operation does to a dictionary.
  unfoldable pub op_effect : TransactionOp → List Entry → List Entry
  op_effect op es = elim op.op [
    | OpType.put ↦ elim op.val [ none ↦ es | some w ↦ upsert op.key w es ]
    | OpType.delete ↦ remove (prefix_string prefix_user op.key) es
    | _ ↦ es
  ]

  unfoldable pub op_effects : List TransactionOp → List Entry → List Entry
  op_effects [] es = es
  op_effects (op ∷ ops) es = op_effects ops (op_effect op es)

  -- A valid tree with the given entries, over the same snapshot as before.
  abbrev pub Became : List Entry → PersistentTree → PersistentTree → Type 0
  Became es t t' =
      IsValid (base_root t') × (entries (base_root t') ≡ es) × (t'.src_root ≡ t.src_root)

  replay_op-Became :
      (op : TransactionOp) (t : PersistentTree)
      → Recorded op
      → IsValid (base_root t)
      → Holds (Became (op_effect op (entries (base_root t))) t) (replay_op op t)
  unfolding replay_op op_effect
  replay_op-Became op t r v = go op.op op.key op.val r
    where
      go :
          (ty : OpType) (k : Slice) (val : Option Slice)
          → Recorded (record { op = ty; key = k; val = val })
          → Holds
              (Became
                (op_effect (record { op = ty; key = k; val = val }) (entries (base_root t)))
                t)
              (replay_op (record { op = ty; key = k; val = val }) t)
      go OpType.get k val e = rw (e, assert, ◌>>◌, ◌>>=◌) (v, refl, refl)
      go OpType.put k none (w, e) = cc
      go OpType.put k (some w) e =
          Holds-imp (Updated k w t) _ (put k w t) (λ _ u. (u.0, u.1, u.3)) (put-Updated k w t v)
      go OpType.delete k val e =
          let q = prefix_string prefix_user k in
          rw (e, assert, ◌>>◌, ◌>>=◌)
            (Holds-imp (Deleted q t) _ (delete q t) (λ _ d. (d.0, d.1.1, d.3))
              (delete-Deleted q t v))
      go OpType.copy k val e =
          let c = get-copy_path k t v in rw (e, assert, ◌>>◌, ◌>>=◌) (c.0, c.1, c.2)

  -- The replay of any recorded operations on a valid tree fails no assertion, and leaves a valid
  -- tree, over the same snapshot, whose entries are what the operations make of those before.
  pub replay-Became :
      (ops : List TransactionOp) (t : PersistentTree)
      → All Recorded ops
      → IsValid (base_root t)
      → Holds (Became (op_effects ops (entries (base_root t))) t) (replay ops t)
  unfolding replay op_effects
  replay-Became [] t r v = (v, refl, refl)
  replay-Became (op ∷ ops) t r v =
      Holds->>= (Became (op_effect op (entries (base_root t))) t)
        (Became (op_effects ops (op_effect op (entries (base_root t)))) t) (replay_op op t)
        (replay ops) (replay_op-Became op t r.0 v)
        (λ t' b.
          Holds-imp (Became (op_effects ops (entries (base_root t'))) t') _ (replay ops t')
            (λ _ c. (c.0, c.1 ∙ ap (op_effects ops) b.1, c.2 ∙ b.2)) (replay-Became ops t' r.1 b.0))
