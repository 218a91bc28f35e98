-- ===== src/Txn/Made.antt =====
-- src/db/transaction_impl.cc: what a transaction has made of its tree and of its intention.
use mathlib.Core.Path.{subst}
use cruzdb.Prelude.{
  ℕ, Option, ◌<◌, ◌≢◌, ◌⊎◌, inl, inr, length, length-append, arith, All-imp, true, false, not,
  assert, ◌>>◌, List, [], ◌∷◌, ◌++◌, none, some, ◌>>=◌, ◌≡◌, refl, sym, ◌∙◌, ap, All, All-append,
  Holds, Holds->>=, Holds-imp, Holds-some, Holds-both,
}
use cruzdb.Prelude.Int.{ℤ, is_neg}
use cruzdb.Slice.{Slice, SliceCompare, prefix_string, prefix_user}
use cruzdb.Node.{NodePtr}
use cruzdb.Tree.State.{PersistentTree, read_only, base_root, put as tree_put, delete as tree_delete}
use cruzdb.Tree.Entries.{entries}
use cruzdb.Tree.Correct.{IsValid, Updated, Deleted, put-Updated, delete-Deleted}
use cruzdb.Txn.Intention.{
  TransactionOp, OpType, Intention, is_none, check_copying, prepare, new_intention, record_get,
  record_put, record_delete,
}
use cruzdb.Txn.Transaction.{TransactionImpl, new_transaction, get, put, put_prefixed, delete}
use cruzdb.Txn.Replay.{Replays, Next, Agrees, snapshot_tree, replay}
use cruzdb.Txn.Log.{Recorded, op_effects, Became, replay-Became}
use cruzdb.Txn.History.{Call, read, write, erase, call, run, effect, effects, call-Next, run-Next}

-- An operation that a client's call records.
abbrev pub Own : TransactionOp → Type 0
Own op = Recorded op × (op.op ≢ OpType.copy)

-- The operations of a transaction with a tree: there is one, unless the tree has not been changed.
abbrev pub Recording : PersistentTree → List TransactionOp → Type 0
Recording tree ops = All Own ops × ((read_only tree ≡ true) ⊎ (0 < length ops))

pub own_recorded : (ops : List TransactionOp) → All Own ops → All Recorded ops
own_recorded ops h = All-imp (λ op r. r.0) ops h

recorded_more :
    (tree tree' : PersistentTree) (ops : List TransactionOp) (op : TransactionOp)
    → Recording tree ops
    → Own op
    → Recording tree' (ops ++ op ∷ [])
recorded_more tree tree' ops op h r =
    (All-append Own ops (op ∷ []) h.0 (r, tt), inr (omega (arith, length-append ops (op ∷ []))))

not_copy : (ty : OpType) → ty ≢ OpType.copy → (elim ty [ OpType.copy ↦ true | _ ↦ false ]) ≡ false
not_copy OpType.get n = refl
not_copy OpType.put n = refl
not_copy OpType.delete n = refl
not_copy OpType.copy n = absurd (n refl)

check_copying_plain :
    (ops : List TransactionOp) → All Own ops → check_copying (some false) ops ≡ some (some false)
unfolding check_copying
check_copying_plain [] h = refl
check_copying_plain (op ∷ ops) h =
    rw (not_copy op.op h.0.1, assert, ◌>>◌, ◌>>=◌) (check_copying_plain ops h.1)

check_copying_first :
    (ops : List TransactionOp)
    → All Own ops
    → 0 < length ops
    → check_copying none ops ≡ some (some false)
unfolding check_copying
check_copying_first [] h l = absurd (omega arith)
check_copying_first (op ∷ ops) h l = go op.op op.key op.val h.0.1
  where
    go :
        (ty : OpType) (k : Slice) (val : Option Slice)
        → ty ≢ OpType.copy
        → check_copying none (record { op = ty; key = k; val = val } ∷ ops) ≡ some (some false)
    go OpType.get k val n = check_copying_plain ops h.1
    go OpType.put k val n = check_copying_plain ops h.1
    go OpType.delete k val n = check_copying_plain ops h.1
    go OpType.copy k val n = absurd (n refl)

-- An intention of a client's calls, of which there is one, passes the checks of `Serialize`.
pub prepare-Own :
    (i : Intention)
    → i.pos ≡ none
    → All Own i.ops
    → 0 < length i.ops
    → prepare i ≡ some (record i { flush = false })
unfolding prepare
prepare-Own i p h l = rw (p, is_none, assert, ◌>>◌, ◌>>=◌, check_copying_first i.ops h l) refl

module _ ⦃o : SliceCompare⦄ where
  -- A transaction that has gone on: over the same snapshot, with the same identifiers, and with
  -- operations as the program records them.
  pub record Continues (t t' : TransactionImpl) : Type 0 where
    pub recorded : Recording t'.tree t'.intention.ops
    pub same_rid : t'.tree.rid ≡ t.tree.rid
    pub same_root : t'.tree.src_root ≡ t.tree.src_root
    pub same_token : t'.intention.token ≡ t.intention.token
    pub same_snapshot : t'.intention.snapshot ≡ t.intention.snapshot

  Continues-trans :
      (t t' t'' : TransactionImpl) → Continues t t' → Continues t' t'' → Continues t t''
  Continues-trans t t' t'' a b = record {
    recorded = b.recorded;
    same_rid = b.same_rid ∙ a.same_rid;
    same_root = b.same_root ∙ a.same_root;
    same_token = b.same_token ∙ a.same_token;
    same_snapshot = b.same_snapshot ∙ a.same_snapshot;
  }

  call-Continues :
      (rid : ℤ) (c : Call) (t : TransactionImpl)
      → Replays rid t
      → Recording t.tree t.intention.ops
      → Holds (Continues t) (call c t)
  unfolding call get put put_prefixed delete record_get record_put record_delete
  call-Continues rid (read key) t r h =
      rw (r.uncommitted, not, assert, ◌>>◌, ◌>>=◌, r.unlogged, is_none)
        (record {
          recorded =
              recorded_more t.tree t.tree t.intention.ops
                (record { op = OpType.get; key = key; val = none }) h (refl, (λ e. cc));
          same_rid = refl;
          same_root = refl;
          same_token = refl;
          same_snapshot = refl;
        })
  call-Continues rid (write key value) t r h =
      let q = prefix_string prefix_user key in
      let (tree', f, u) =
        Holds-some (Updated q value t.tree) (tree_put q value t.tree)
          (put-Updated q value t.tree r.valid) in
      rw (r.uncommitted, not, assert, ◌>>◌, ◌>>=◌, r.unlogged, is_none, f)
        (record {
          recorded =
              recorded_more t.tree tree' t.intention.ops
                (record { op = OpType.put; key = q; val = some value }) h
                ((value, refl), (λ e. cc));
          same_rid = u.2;
          same_root = u.3;
          same_token = refl;
          same_snapshot = refl;
        })
  call-Continues rid (erase key) t r h =
      let q = prefix_string prefix_user key in
      let (tree', f, d) =
        Holds-some (Deleted q t.tree) (tree_delete q t.tree) (delete-Deleted q t.tree r.valid) in
      rw (r.uncommitted, not, assert, ◌>>◌, ◌>>=◌, r.unlogged, is_none, f)
        (record {
          recorded =
              recorded_more t.tree tree' t.intention.ops
                (record { op = OpType.delete; key = key; val = none }) h (refl, (λ e. cc));
          same_rid = d.2;
          same_root = d.3;
          same_token = refl;
          same_snapshot = refl;
        })

  run-Continues :
      (rid : ℤ) (cs : List Call) (t : TransactionImpl)
      → Replays rid t
      → Recording t.tree t.intention.ops
      → Holds (Continues t) (run cs t)
  unfolding run
  run-Continues rid [] t r h = record {
    recorded = h;
    same_rid = refl;
    same_root = refl;
    same_token = refl;
    same_snapshot = refl;
  }
  run-Continues rid (c ∷ cs) t r h =
      let es = effect c (entries (base_root t.tree)) in
      Holds->>= (λ t'. Next rid es t' × Continues t t') (Continues t) (call c t) (run cs)
        (Holds-both (Next rid es) (Continues t) (call c t) (call-Next rid c t r)
          (call-Continues rid c t r h))
        (λ t' n.
          Holds-imp (Continues t') (Continues t) (run cs t')
            (λ t'' k. Continues-trans t t' t'' n.1 k)
            (run-Continues rid cs t' (n.0).1 n.1.recorded))

  -- The operations of a transaction make of its snapshot the entries of its tree.
  pub Replays-op_effects :
      (rid : ℤ) (t : TransactionImpl)
      → Replays rid t
      → All Recorded t.intention.ops
      → IsValid t.tree.src_root.ref
      → entries (base_root t.tree) ≡ op_effects t.intention.ops (entries t.tree.src_root.ref)
  Replays-op_effects rid t r h v =
      let start = snapshot_tree rid t.tree in
      let (x, _, ((_, a), (_, b, _))) =
        Holds-some
          (λ x.
            Agrees x t.tree
            × Became (op_effects t.intention.ops (entries (base_root start))) start x)
          (replay t.intention.ops start)
          (Holds-both (λ x. Agrees x t.tree)
            (Became (op_effects t.intention.ops (entries (base_root start))) start)
            (replay t.intention.ops start) r.agrees (replay-Became t.intention.ops start h v)) in
      sym a ∙ b

  -- A transaction that has made its calls over a snapshot.
  abbrev pub Made : NodePtr → ℕ → ℤ → ℕ → List Call → TransactionImpl → Type 0
  Made root snapshot rid token cs t =
      IsValid (base_root t.tree)
      × (entries (base_root t.tree) ≡ effects cs (entries root.ref))
      × (entries (base_root t.tree) ≡ op_effects t.intention.ops (entries root.ref))
      × Recording t.tree t.intention.ops
      × (t.committed ≡ false)
      × (t.intention.pos ≡ none)
      × (t.tree.src_root ≡ root)
      × (t.tree.rid ≡ rid)
      × (t.intention.token ≡ token)
      × (t.intention.snapshot ≡ snapshot)

  pub run-Made :
      (root : NodePtr) (snapshot : ℕ) (rid : ℤ) (token : ℕ) (cs : List Call)
      → is_neg rid ≡ true
      → IsValid root.ref
      → Holds (Made root snapshot rid token cs) (new_transaction root snapshot rid token >>= run cs)
  unfolding new_transaction new_intention replay read_only
  run-Made root snapshot rid token cs n v =
      let t : TransactionImpl = record {
        tree = record { src_root = root; root = none; rid = rid };
        intention = record {
          snapshot = snapshot;
          token = token;
          flush = false;
          ops = [];
          pos = none;
        };
        committed = false;
      } in
      let r : Replays rid t = record {
        uncommitted = refl;
        unlogged = refl;
        valid = v;
        agrees = (v, refl);
      } in
      let es = effects cs (entries root.ref) in
      rw (n, assert, ◌>>◌, ◌>>=◌)
        (Holds-imp (λ t'. Next rid es t' × Continues t t') (Made root snapshot rid token cs)
          (run cs t)
          (λ t' ((e, r'), k).
            let v' : IsValid t'.tree.src_root.ref =
              subst (λ z. IsValid z.ref) (sym k.same_root) v in
            let o' = Replays-op_effects rid t' r' (own_recorded t'.intention.ops k.recorded.0) v' in
            (
              r'.valid,
              e,
              o' ∙ ap (λ z. op_effects t'.intention.ops (entries z.ref)) k.same_root,
              k.recorded,
              r'.uncommitted,
              r'.unlogged,
              k.same_root,
              k.same_rid,
              k.same_token,
              k.same_snapshot,
            ))
          (Holds-both (Next rid es) (Continues t) (run cs t) (run-Next rid cs t r)
            (run-Continues rid cs t r (tt, inl refl))))
