-- ===== src/Txn/History.antt =====
-- src/db/transaction_impl.cc and src/db/db_impl.cc: whole transactions. The calls of a client, in
-- the order in which it makes them, against their meaning on a dictionary.
use cruzdb.Prelude.{
  ℕ, true, assert, ◌>>◌, List, [], ◌∷◌, Option, some, ◌>>=◌, ◌≡◌, refl, ◌∙◌, ap, Holds, Holds->>=,
  Holds-imp,
}
use cruzdb.Prelude.Int.{ℤ, is_neg}
use cruzdb.Slice.{Slice, SliceCompare, prefix_string, prefix_user}
use cruzdb.Dict.{Entry, lookup, upsert, remove}
use cruzdb.Node.{NodePtr}
use cruzdb.Tree.State.{base_root}
use cruzdb.Tree.Entries.{entries}
use cruzdb.Tree.Correct.{IsValid}
use cruzdb.Txn.Intention.{new_intention}
use cruzdb.Txn.Transaction.{TransactionImpl, new_transaction, get, put, delete}
use cruzdb.Txn.Replay.{Replays, Next, replay, put-Replays, delete-Replays, get-Replays}

pub data Call : Type 0 where
  read : Slice → Call
  write : Slice → Slice → Call
  erase : Slice → Call

module _ ⦃o : SliceCompare⦄ where
  unfoldable pub call : Call → TransactionImpl → Option TransactionImpl
  call (read key) t = get key t >>= λ r. some r.1
  call (write key value) t = put key value t
  call (erase key) t = delete key t

  unfoldable pub run : List Call → TransactionImpl → Option TransactionImpl
  run [] t = some t
  run (c ∷ cs) t = call c t >>= run cs

  -- What a call does to a dictionary.
  unfoldable pub effect : Call → List Entry → List Entry
  effect (read key) es = es
  effect (write key value) es = upsert (prefix_string prefix_user key) value es
  effect (erase key) es = remove (prefix_string prefix_user key) es

  unfoldable pub effects : List Call → List Entry → List Entry
  effects [] es = es
  effects (c ∷ cs) es = effects cs (effect c es)

  pub call-Next :
      (rid : ℤ) (c : Call) (t : TransactionImpl)
      → Replays rid t
      → Holds (Next rid (effect c (entries (base_root t.tree)))) (call c t)
  unfolding call effect
  call-Next rid (read key) t r =
      Holds->>=
        (λ (x, t').
          (x ≡ lookup (prefix_string prefix_user key) (entries (base_root t.tree)))
          × (t'.tree ≡ t.tree)
          × Replays rid t')
        (Next rid (entries (base_root t.tree))) (get key t) (λ x. some x.1)
        (get-Replays rid key t r) (λ x y. (ap (λ s. entries (base_root s)) y.1, y.2))
  call-Next rid (write key value) t r = put-Replays rid key value t r
  call-Next rid (erase key) t r = delete-Replays rid key t r

  -- Any sequence of calls on a transaction whose intention replays to its tree runs through without
  -- a failed assertion; it does to the entries of the tree what the calls do to a dictionary, and
  -- the intention recorded replays, over the same snapshot, to a valid tree with those entries.
  pub run-Next :
      (rid : ℤ) (cs : List Call) (t : TransactionImpl)
      → Replays rid t
      → Holds (Next rid (effects cs (entries (base_root t.tree)))) (run cs t)
  unfolding run effects
  run-Next rid [] t r = (refl, r)
  run-Next rid (c ∷ cs) t r =
      Holds->>= (Next rid (effect c (entries (base_root t.tree))))
        (Next rid (effects cs (effect c (entries (base_root t.tree))))) (call c t) (run cs)
        (call-Next rid c t r)
        (λ t' n.
          Holds-imp (Next rid (effects cs (entries (base_root t'.tree)))) _ (run cs t')
            (λ _ m. (m.0 ∙ ap (effects cs) n.0, m.1)) (run-Next rid cs t' n.1))

  -- A new transaction over a valid snapshot with a negative root identifier, and any calls on it, run
  -- through without a failed assertion; the tree then has the entries that the calls make of the
  -- snapshot's, and the intention recorded replays over the snapshot, at any root identifier, to a
  -- valid tree with those entries.
  pub new_transaction-run :
      (root : NodePtr) (snapshot : ℕ) (rid : ℤ) (token : ℕ) (cs : List Call) (replay_rid : ℤ)
      → is_neg rid ≡ true
      → IsValid root.ref
      → Holds
          (Next replay_rid (effects cs (entries root.ref)))
          (new_transaction root snapshot rid token >>= run cs)
  unfolding new_transaction new_intention replay
  new_transaction-run root snapshot rid token cs replay_rid n v =
      rw (n, assert, ◌>>◌, ◌>>=◌)
        (run-Next replay_rid cs _
          (record { uncommitted = refl; unlogged = refl; valid = v; agrees = (v, refl) }))
