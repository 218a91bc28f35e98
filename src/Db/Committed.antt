-- ===== src/Db/Committed.antt =====
-- src/db/db_impl.cc and src/db/transaction_impl.cc: the whole way of a transaction that meets no other,
-- from its first call to the decision that its client gets.
use mathlib.Core.Path.{subst}
use cruzdb.Prelude.{
  ℕ, ◌<◌, ◌==◌, true, false, List, [], Option, none, some, ◌>>=◌, ◌≡◌, ◌≢◌, refl, sym, ap, ◌∙◌,
  arith, Holds, Holds-imp, Holds-some, Holds->>=, if◌then◌else◌, not, assert, ◌>>◌, length, inl,
  inr, Bool-cases, Option-cases,
}
use cruzdb.Prelude.Int.{ℤ, is_neg}
use cruzdb.Prelude.Map.{find_key, emplace_key}
use cruzdb.Slice.{Slice, SliceCompare, prefix_string, prefix_user, prefix_committed_intention}
use cruzdb.Dict.{Entry, lookup, lookup-upsert_ne}
use cruzdb.Tree.Lookup.{get-lookup}
use cruzdb.Txn.Keys.{committed_key}
use cruzdb.Tree.State.{PersistentTree, read_only, base_root}
use cruzdb.Tree.Entries.{entries}
use cruzdb.Tree.Correct.{IsValid}
use cruzdb.Txn.Intention.{Intention, TransactionOp, is_none}
use cruzdb.Entry.Service.{Service, serialize, append}
use cruzdb.Txn.Transaction.{TransactionImpl, new_transaction, commit}
use cruzdb.Txn.History.{Call, run, effects}
use cruzdb.Txn.Made.{Made, Recording, own_recorded, prepare-Own, run-Made}
use cruzdb.Db.Finder.{Finder, notify, add_token_waiter, set_position, wait_round}
use cruzdb.Db.Finished.{insert_finished, find_finished-insert}
use cruzdb.Db.Rendezvous.{Decided, wait_then_notify}
use cruzdb.Db.Processor.{Processor, is_serial, take_finished, decide, process_intention}
use cruzdb.Db.NextRoot.{with_key, AnyLocal}
use cruzdb.Db.Processed.{IsConsistent, After, process_intention-After}
use cruzdb.Db.Requests.{
  Database, begin_transaction, Committing, complete_transaction, commit_transaction, read_back, get,
}

inserted_new :
    (p : ℕ) (tree : PersistentTree) (txns : List (ℕ × Option PersistentTree))
    → find_key p txns ≡ none
    → insert_finished p tree txns ≡ some (emplace_key p (some tree) txns)
unfolding insert_finished
inserted_new p tree txns h = rw (h, insert_finished) refl

user_key_differs :
    (k j : Slice) → prefix_string prefix_user k ≢ prefix_string prefix_committed_intention j
unfolding prefix_string
user_key_differs k j e = cc

bind_first :
    {A B C : Type 0} (m : Option A) (g : A → B) (k : A → Option C)
    → (◌>>=◌ {A = A × B} (◌>>=◌ {B = A × B} m (λ a. some (a, g a))) (λ r. k r.0)) ≡ (m >>= k)
bind_first none g k = refl
bind_first (some a) g k = refl

read_only_root :
    (tree : PersistentTree) → read_only tree ≡ true → base_root tree ≡ tree.src_root.ref
unfolding read_only
read_only_root tree ro = elim (Option-cases tree.root) [
  | inl e ↦ rw e refl
  | inr (r, e) ↦ let h : false ≡ true = rw (e, read_only) at ro in cc
]

recorded_some :
    (tree : PersistentTree) (ops : List TransactionOp)
    → Recording tree ops
    → read_only tree ≡ false
    → 0 < length ops
recorded_some tree ops r ro = elim (r.1) [ inl h ↦ cc | inr h ↦ h ]

-- The waiting client is woken up, or finds the decision.
abbrev Woken : ℕ → ℕ → ℕ → Finder → Finder → Type 0
Woken w token p f f' = Holds (Decided true f) (wait_round w token p f')

abbrev Asleep : ℕ → ℕ → ℕ → Finder → Finder → Type 0
Asleep w token p f f' =
    (wait_round w token p f' ≡ some (none, f')) × Holds (Woken w token p f) (notify token p true f')

module _ ⦃o : SliceCompare⦄ where
  -- A client's calls between `BeginTransaction` and `Commit`
  unfoldable pub client_calls : ℕ → List Call → Database → Option TransactionImpl
  client_calls token cs db = begin_transaction token db >>= λ r. run cs r.0

  client_calls-Made :
      (token : ℕ) (cs : List Call) (db : Database)
      → is_neg db.in_flight_txn_rid ≡ true
      → IsValid db.processor.root.ref
      → Holds
          (Made db.processor.root db.processor.root_snapshot db.in_flight_txn_rid token cs)
          (client_calls token cs db)
  unfolding client_calls begin_transaction
  client_calls-Made token cs db n v =
      let root = db.processor.root in
      let snapshot = db.processor.root_snapshot in
      subst (Holds (Made root snapshot db.in_flight_txn_rid token cs))
        (sym (bind_first (new_transaction root snapshot db.in_flight_txn_rid token) _ (run cs)))
        (run-Made root snapshot db.in_flight_txn_rid token cs n v)

  -- A transaction is over: its effects are the database's, which is consistent, and the client that
  -- waits gets the decision.
  abbrev pub Done : ℕ → ℕ → ℕ → List Entry → Finder → Processor → Type 0
  Done w p token es finder db =
      IsConsistent db
      × (entries db.root.ref ≡ with_key p es)
      × (db.root_snapshot ≡ p)
      × ((key : Slice) → get key db ≡ lookup (prefix_string prefix_user key) es)
      × Holds (Decided true finder) (wait_round w token p db.txn_finder)

  -- The key of a committed intention is no key of a user.
  get_after :
      (p : ℕ) (es : List Entry) (db : Processor)
      → IsConsistent db
      → entries db.root.ref ≡ with_key p es
      → (key : Slice) → get key db ≡ lookup (prefix_string prefix_user key) es
  unfolding get
  get_after p es db c e key =
      get-lookup (prefix_string prefix_user key) db.root.ref c.valid.sorted
      ∙ ap (lookup (prefix_string prefix_user key)) e
      ∙ lookup-upsert_ne (prefix_string prefix_user key)
          (prefix_string prefix_committed_intention (committed_key p)) [] es
          (user_key_differs key (committed_key p))

  serial_decided :
      (lexical_cast : Slice → Option ℕ) (read_intentions : List ℕ → Option (List Intention))
      (intention : Intention) (db : Processor)
      → intention.snapshot ≡ db.root_snapshot
      → (is_serial intention db ≡ true)
        × (decide lexical_cast read_intentions intention db ≡ some false)
  unfolding decide
  serial_decided lexical_cast read_intentions intention db e =
      let s : (db.root_snapshot == intention.snapshot) ≡ true = ground arith in
      (rw s refl, rw s refl)

  module _ (lexical_cast : Slice → Option ℕ) (read_intentions : List ℕ → Option (List Intention))
      (w token p : ℕ) (cs : List Call) (db : Processor) where
    -- The transaction processor reads the intention from the log and processes it.
    abbrev pub Applied : Committing → Type 0
    Applied c =
        Holds
          (λ i.
            Holds (Done w p token (effects cs (entries db.root.ref)) db.txn_finder)
              (process_intention lexical_cast read_intentions i p c.2))
          (read_back p c.0)

    -- What a commit comes to, for a transaction that is then committed: nothing is to be done, or the intention is applied.
    abbrev pub Outcome : TransactionImpl → Option Committing × TransactionImpl → Type 0
    Outcome t (none, t') =
        (t'.committed ≡ true)
        × (read_only t.tree ≡ true)
        × (effects cs (entries db.root.ref) ≡ entries db.root.ref)
        × ((key : Slice)
            → get key db
              ≡ lookup (prefix_string prefix_user key) (effects cs (entries db.root.ref)))
    Outcome t (some c, t') = (t'.committed ≡ true) × (read_only t.tree ≡ false) × Applied c

    complete_turn :
        (rid : ℤ) (t : TransactionImpl) (s : Service)
        → IsConsistent db
        → db.waits.last_intention_processed < p
        → is_neg rid ≡ true
        → find_key token db.txn_finder.token_waiters ≡ none
        → find_key p db.finished_txns ≡ none
        → Made db.root db.root_snapshot rid token cs t
        → read_only t.tree ≡ false
        → Holds Applied (complete_transaction w p (record t { committed = true }) s db)
    unfolding complete_transaction append serialize insert_finished take_finished read_back
    complete_turn rid t s c l n ft fp (v, e, f, r, unc, unl, _, i, k, sn) ro =
        let f0 = db.txn_finder in
        let (f1, e1, (_, h1)) =
          Holds-some (Asleep w token p f0) (set_position w p (add_token_waiter w token f0))
            (wait_then_notify w token p true f0 ft) in
        let (f2, e2, h2) = Holds-some (Woken w token p f0) (notify token p true f1) h1 in
        let e1' = ap (λ z. set_position w p (add_token_waiter w z f0)) k ∙ e1 in
        let e2' = ap (λ z. notify z p true f1) k ∙ e2 in
        let txns = emplace_key p (some t.tree) db.finished_txns in
        let db1 : Processor = record db { finished_txns = txns; txn_finder = f1 } in
        let sent : Intention = record t.intention { flush = false; pos = some p } in
        let (ser, dec) = serial_decided lexical_cast read_intentions sent db1 sn in
        let found =
          (find_finished-insert p p t.tree db.finished_txns txns
            (inserted_new p t.tree db.finished_txns fp) (omega arith)).0 in
        let c1 : IsConsistent db1 = record {
          valid = c.valid;
          ascending = c.ascending;
          capped = c.capped;
          indexed = c.indexed;
          current = c.current;
        } in
        let local : AnyLocal sent (entries db.root.ref)
            (take_finished (is_serial sent db1) p txns).0 =
          rw (ser, if◌then◌else◌, found) (v, ap is_neg i ∙ n, f) in
        rw
          (
            prepare-Own t.intention unl r.0 (recorded_some t.tree t.intention.ops r ro),
            unl,
            is_none,
            assert,
            ◌>>◌,
            fp,
            ◌>>=◌,
            e1',
          )
          (Holds-imp (After sent p false f2 db1)
            (Done w p token (effects cs (entries db.root.ref)) f0)
            (process_intention lexical_cast read_intentions sent p db1)
            (λ db2 (c2, es, sn, _, fi). (
              c2,
              es ∙ ap (with_key p) (sym f ∙ e),
              sn,
              get_after p (effects cs (entries db.root.ref)) db2 c2
                  (es ∙ ap (with_key p) (sym f ∙ e)),
              subst (λ z. Holds (Decided true f0) (wait_round w token p z)) (sym fi) h2,
            ))
            (process_intention-After lexical_cast read_intentions sent p false f2 db1 c1 l
              (own_recorded t.intention.ops r.0) dec local e2'))

    committed_turn :
        (rid : ℤ) (t : TransactionImpl) (s : Service)
        → IsConsistent db
        → db.waits.last_intention_processed < p
        → is_neg rid ≡ true
        → find_key token db.txn_finder.token_waiters ≡ none
        → find_key p db.finished_txns ≡ none
        → Made db.root db.root_snapshot rid token cs t
        → Holds (Outcome t) (commit_transaction w p t s db)
    unfolding commit_transaction commit get
    committed_turn rid t s c l n ft fp m =
        let (v, e, f, r, unc, unl, sr, i, k, sn) = m in
        elim (Bool-cases (read_only t.tree)) [
          | inl ro ↦
              let same : effects cs (entries db.root.ref) ≡ entries db.root.ref =
                sym e ∙ ap entries (read_only_root t.tree ro) ∙ ap (λ z. entries z.ref) sr in
              rw (unc, not, assert, ◌>>◌, ro, if◌then◌else◌)
                (
                  refl,
                  ro,
                  same,
                  λ key.
                      get-lookup (prefix_string prefix_user key) db.root.ref c.valid.sorted
                      ∙ ap (lookup (prefix_string prefix_user key)) (sym same),
                )
          | inr ro ↦
              rw (unc, not, assert, ◌>>◌, ro, if◌then◌else◌)
                (Holds->>= Applied (Outcome t)
                  (complete_transaction w p (record t { committed = true }) s db)
                  (λ x. some (some x, record t { committed = true }))
                  (complete_turn rid t s c l n ft fp m ro) (λ x h. (refl, ro, h)))
        ]

  -- A client begins a transaction on a consistent database, under a token that no other uses and a
  -- negative identifier, makes any calls, and commits while nothing else is committed; a position past
  -- the last processed one, at which no tree is kept, is the log's next. No assertion fails on the way,
  -- those of `Serialize` included, and the transaction is marked as committed. One that has changed no tree is committed at once: the
  -- effects of its calls are none, and `Get` returns what it has returned. Of any other one, the entry that
  -- is appended is read back as an intention, which is processed while the client sleeps: the database
  -- is consistent again, at the intention's snapshot; its entries are those that the calls make of the
  -- entries before, with the committed intention's key; `Get` returns for every key what the calls have
  -- left there; and the client is told that the transaction is committed.
  pub client_calls-Done :
      (lexical_cast : Slice → Option ℕ) (read_intentions : List ℕ → Option (List Intention))
      (w token p : ℕ) (cs : List Call) (s : Service) (db : Database)
      → IsConsistent db.processor
      → db.processor.waits.last_intention_processed < p
      → is_neg db.in_flight_txn_rid ≡ true
      → find_key token db.processor.txn_finder.token_waiters ≡ none
      → find_key p db.processor.finished_txns ≡ none
      → Holds
          (λ t.
            Holds
              (Outcome lexical_cast read_intentions w token p cs db.processor t)
              (commit_transaction w p t s db.processor))
          (client_calls token cs db)
  client_calls-Done lexical_cast read_intentions w token p cs s db c l n ft fp =
      Holds-imp (Made db.processor.root db.processor.root_snapshot db.in_flight_txn_rid token cs) _
        (client_calls token cs db)
        (λ t m.
          committed_turn lexical_cast read_intentions w token p cs db.processor db.in_flight_txn_rid
            t s c l n ft fp m)
        (client_calls-Made token cs db n c.valid)
