-- ===== src/Db/NextRoot.antt =====
-- src/db/db_impl.cc: the next root that the transaction processor makes of a committed intention.
use mathlib.Core.Path.{subst}
use cruzdb.Prelude.{
  ℕ, Bool, true, false, List, [], ◌∷◌, Option, none, some, ◌>>=◌, assert, ◌≡◌, refl, sym, ap, ◌∙◌,
  All, some_injective, >>=-eq-some, Option-cases, inl, inr, Holds, Holds-some, if◌then◌else◌,
}
use cruzdb.Prelude.Int.{pos, is_neg, ◌==ℤ◌, ==ℤ_iff}
use cruzdb.Slice.{Slice, SliceCompare, prefix_string, prefix_committed_intention, prefix_user}
use cruzdb.Dict.{Entry, upsert}
use cruzdb.Node.{NodePtr, has_rid}
use cruzdb.Tree.Insert.{insert_recursive, balance_insert}
use cruzdb.Tree.Delete.{delete_recursive, remove_node}
use cruzdb.Tree.State.{PersistentTree, base_root, put, delete, copy_recursive, copy_path}
use cruzdb.Tree.Entries.{entries}
use cruzdb.Tree.Correct.{IsValid, Updated, put-Updated}
use cruzdb.Tree.Owned.{put-OwnRoot}
use cruzdb.Txn.Intention.{Intention, TransactionOp, OpType, is_none}
use cruzdb.Txn.Replay.{replay_op, replay}
use cruzdb.Txn.Log.{Recorded, op_effects, Became, replay-Became}
use cruzdb.Txn.Keys.{committed_key}
use cruzdb.Image.Write.{infect_self_pointers}
use cruzdb.Db.Processor.{seal_root, replay_root, next_root}
use cruzdb.Db.Sealed.{Ready, infect_self_pointers-Ready}

module _ ⦃o : SliceCompare⦄ where
  -- The operations keep the identifier of a tree.
  delete-rid :
      (q : Slice) (t : PersistentTree) {t' : PersistentTree} → delete q t ≡ some t' → t'.rid ≡ t.rid
  unfolding delete
  delete-rid q t {t'} e = elim (Option-cases (delete_recursive t.rid q (base_root t))) [
    | inl h ↦
        let f : some t ≡ some t' = rw (h, delete) at e in ap (λ x. x.rid) (sym (some_injective f))
    | inr (p, h) ↦
        let (root, f, g) = >>=-eq-some (remove_node t.rid p.0 p.1) _ (rw (h, delete) at e) in
        ap (λ x. x.rid) (sym (some_injective g))
  ]

  put-rid :
      (q w : Slice) (t : PersistentTree) {t' : PersistentTree}
      → put q w t ≡ some t'
      → t'.rid ≡ t.rid
  unfolding put
  put-rid q w t {t'} e = elim (Option-cases (insert_recursive t.rid q w (base_root t))) [
    | inr (p, h) ↦
        let (root, f, g) = >>=-eq-some (balance_insert t.rid p.0 p.1) _ (rw (h, put) at e) in
        ap (λ x. x.rid) (sym (some_injective g))
    | inl h ↦
        let (t1, f, g) = >>=-eq-some (delete q t) _ (rw (h, put) at e) in
        let (p, f1, g1) = >>=-eq-some (insert_recursive t.rid q w (base_root t1)) _ g in
        let (root, f2, g2) = >>=-eq-some (balance_insert t.rid p.0 p.1) _ g1 in
        ap (λ x. x.rid) (sym (some_injective g2)) ∙ delete-rid q t f
  ]

  copy_path-rid : (q : Slice) (t : PersistentTree) → (copy_path q t).rid ≡ t.rid
  unfolding copy_path
  copy_path-rid q t = elim (Option-cases (copy_recursive t.rid q (base_root t))) [
    | inl h ↦ rw (h, copy_path) refl
    | inr (r, h) ↦ rw (h, copy_path) refl
  ]

  replay_op-rid :
      (op : TransactionOp) (t : PersistentTree) {t' : PersistentTree}
      → replay_op op t ≡ some t'
      → t'.rid ≡ t.rid
  unfolding replay_op
  replay_op-rid op t {t'} e = go op.op op.key op.val e
    where
      go :
          (ty : OpType) (k : Slice) (val : Option Slice)
          → replay_op (record { op = ty; key = k; val = val }) t ≡ some t'
          → t'.rid ≡ t.rid
      go OpType.get k val h =
          let (u, f, g) = >>=-eq-some (assert (is_none val)) _ h in
          ap (λ x. x.rid) (sym (some_injective g))
      go OpType.put k val h = let (w, f, g) = >>=-eq-some val _ h in put-rid k w t g
      go OpType.delete k val h =
          let (u, f, g) = >>=-eq-some (assert (is_none val)) _ h in
          delete-rid (prefix_string prefix_user k) t g
      go OpType.copy k val h =
          let (u, f, g) = >>=-eq-some (assert (is_none val)) _ h in
          ap (λ x. x.rid) (sym (some_injective g)) ∙ copy_path-rid k t

  replay-rid :
      (ops : List TransactionOp) (t : PersistentTree) {t' : PersistentTree}
      → replay ops t ≡ some t'
      → t'.rid ≡ t.rid
  unfolding replay
  replay-rid [] t e = ap (λ x. x.rid) (sym (some_injective e))
  replay-rid (op ∷ ops) t e =
      let (t1, f, g) = >>=-eq-some (replay_op op t) (replay ops) e in
      replay-rid ops t1 g ∙ replay_op-rid op t f

  -- The entries with the key of a committed intention.
  abbrev pub with_key : ℕ → List Entry → List Entry
  with_key p es = upsert (prefix_string prefix_committed_intention (committed_key p)) [] es

  seal_root-Ready :
      (p : ℕ) (expect : Bool) (t : PersistentTree)
      → IsValid (base_root t)
      → (if expect then t.rid ==ℤ pos p else is_neg t.rid) ≡ true
      → Holds (Ready (with_key p (entries (base_root t)))) (seal_root p expect t)
  unfolding seal_root
  seal_root-Ready p expect t v a =
      let k = prefix_string prefix_committed_intention (committed_key p) in
      let (t1, f, u) = Holds-some (Updated k [] t) (put k [] t) (put-Updated k [] t v) in
      let (root, e, own) = put-OwnRoot k [] t t1 f in
      let base : base_root t1 ≡ root = ap (λ r. elim r [ none ↦ t1.src_root.ref | some n ↦ n ]) e in
      let own' = subst (λ i. has_rid i root ≡ true) (sym u.2) own in
      let a' = subst (λ i. (if expect then i ==ℤ pos p else is_neg i) ≡ true) (sym u.2) a in
      rw (f, ◌>>=◌)
        (subst (λ es. Holds (Ready es) (infect_self_pointers p expect t1))
          (ap entries (sym base) ∙ u.1)
          (infect_self_pointers-Ready p expect t1 root e own' (subst IsValid base u.0) a'))

  replay_root-Ready :
      (intention : Intention) (p : ℕ) (root : NodePtr)
      → All Recorded intention.ops
      → IsValid root.ref
      → Holds
          (Ready (with_key p (op_effects intention.ops (entries root.ref))))
          (replay_root intention p root)
  unfolding replay_root
  replay_root-Ready intention p root r v =
      let start : PersistentTree = record { src_root = root; root = none; rid = pos p } in
      let (t, f, b) =
        Holds-some (Became (op_effects intention.ops (entries root.ref)) start)
          (replay intention.ops start) (replay-Became intention.ops start r v) in
      let same : (pos p ==ℤ pos p) ≡ true = (==ℤ_iff (pos p) (pos p)).1 refl in
      let id : t.rid ≡ pos p = replay-rid intention.ops start f in
      rw (f, ◌>>=◌)
        (subst (λ es. Holds (Ready (with_key p es)) (seal_root p true t)) b.1
          (seal_root-Ready p true t b.0 (subst (λ i. (i ==ℤ pos p) ≡ true) (sym id) same)))

  -- The tree of a finished transaction, which has a negative identifier and does what the intention
  -- does to the entries of the database.
  abbrev pub Local : Intention → List Entry → PersistentTree → Type 0
  Local intention es t =
      IsValid (base_root t)
      × (is_neg t.rid ≡ true)
      × (entries (base_root t) ≡ op_effects intention.ops es)

  abbrev pub AnyLocal : Intention → List Entry → Option PersistentTree → Type 0
  AnyLocal intention es none = Unit
  AnyLocal intention es (some t) = Local intention es t

  -- With the tree of the transaction or by replay, the next root has the same entries.
  pub next_root-Ready :
      (intention : Intention) (p : ℕ) (root : NodePtr) (local : Option PersistentTree)
      → All Recorded intention.ops
      → IsValid root.ref
      → AnyLocal intention (entries root.ref) local
      → Holds
          (Ready (with_key p (op_effects intention.ops (entries root.ref))))
          (next_root intention p root local)
  unfolding next_root
  next_root-Ready intention p root none r v l = replay_root-Ready intention p root r v
  next_root-Ready intention p root (some t) r v l =
      subst (λ es. Holds (Ready (with_key p es)) (seal_root p false t)) l.2
        (seal_root-Ready p false t l.0 l.1)
