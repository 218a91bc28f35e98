-- ===== src/Tests/Processing.antt =====
-- Turns of the transaction processor, on one database and on two, and conflict zones.
use cruzdb.Prelude.{
  ℕ, ◌^◌, ◌<◌, true, false, List, [], ◌∷◌, Option, none, some, ◌≡◌, refl, ap, Holds, Holds-some,
  All, arith,
}
use cruzdb.Prelude.Int.{pos, negsuc, is_neg}
use cruzdb.Prelude.Map.{find_key, update_key}
use cruzdb.Slice.{Slice, prefix_string, prefix_user}
use cruzdb.Slice.Lex.{lex, bytewise}
use cruzdb.Dict.{IsSorted}
use cruzdb.Node.{Node, nil, node}
use cruzdb.Tree.Entries.{entries}
use cruzdb.Tree.Correct.{IsValid, Updated, put-Updated}
use cruzdb.Tree.State.{PersistentTree, put}
use cruzdb.Txn.Intention.{Intention, OpType}
use cruzdb.Txn.Zone.{IsAscending, contains}
use cruzdb.Txn.Log.{Recorded, op_effects, op_effect}
use cruzdb.Txn.Keys.{pad_key, committed_key, read_digits, read_digits-pad_key}
use cruzdb.Db.Finder.{Finder, notify}
use cruzdb.Db.Finished.{find_finished}
use cruzdb.Db.Concurrent.{missing_zone, conflict_zone}
use cruzdb.Db.ZoneScan.{committed, missing_zone-between}
use cruzdb.Db.ConflictZone.{conflict_zone_differs}
use cruzdb.Db.Processor.{Processor, is_serial, take_finished, decide, process_intention}
use cruzdb.Db.NextRoot.{AnyLocal}
use cruzdb.Db.Processed.{IsConsistent, After, process_intention-After}
use cruzdb.Db.Replicas.{Logged}

program : Unit {0}
unfolding lex prefix_string pad_key committed_key read_digits contains find_key update_key
    find_finished take_finished decide notify op_effect op_effects
program = tt

casts : (p : ℕ) → p < 2 ^ 64 → read_digits 0 (committed_key p) ≡ some p
unfolding committed_key
casts p l = read_digits-pad_key 20 p (omega arith)

-- A tree with the keys of the committed intentions 5, 6 and 8.
abbrev key_of : ℕ → Slice
key_of p = (committed p).0

abbrev log_tree : Node
log_tree =
    node false (pos 1) (key_of 6) [] none (node true (pos 1) (key_of 5) [] none nil none nil) none
      (node true (pos 1) (key_of 8) [] none nil none nil)

log_tree-IsSorted : IsSorted ⦃o = bytewise⦄ (entries log_tree)
unfolding program
log_tree-IsSorted = ((refl, (refl, tt)), ((refl, tt), (tt, tt)))

missing_zone-between_example :
    missing_zone ⦃o = bytewise⦄ (read_digits 0) log_tree 5 8 ≡ some (6 ∷ [])
missing_zone-between_example =
    missing_zone-between ⦃o = bytewise⦄ (read_digits 0) casts log_tree 5 8 (6 ∷ []) [] []
      log_tree-IsSorted refl (omega arith) (omega arith, tt) (omega arith)
      ((λ e. omega (arith, e)), tt)

abbrev full : List ℕ
full = 5 ∷ 6 ∷ 8 ∷ []

full-IsAscending : IsAscending full
full-IsAscending = ((omega arith, (omega arith, tt)), ((omega arith, tt), (tt, tt)))

full-contains : (contains 8 full ≡ true) × (contains 5 full ≡ true) × (contains 8 (8 ∷ []) ≡ true)
unfolding program
full-contains = (refl, refl, refl)

-- The second index has been started anew at the position 8.
conflict_zone_differs_example :
    Holds
      (λ zone. contains 5 zone ≡ true)
      (conflict_zone ⦃o = bytewise⦄ (read_digits 0) log_tree 5 8 full)
    × Holds
        (λ zone. contains 5 zone ≡ false)
        (conflict_zone ⦃o = bytewise⦄ (read_digits 0) log_tree 5 8 (8 ∷ []))
conflict_zone_differs_example =
    conflict_zone_differs ⦃o = bytewise⦄ (read_digits 0) casts log_tree 5 8 8 full (8 ∷ []) []
      (6 ∷ []) [] [] full-IsAscending (full-contains.0) (full-contains.1) (tt, tt) (omega arith)
      (omega arith) refl ((omega arith, omega arith), tt) (full-contains.2) log_tree-IsSorted refl
      ((omega arith, omega arith), tt)

-- A database with one key, and an intention that puts another.
abbrev user : Slice → Slice
user k = prefix_string prefix_user k

abbrev one : Node
one = node false (pos 1) (user (b'a' ∷ [])) (1 ∷ []) none nil none nil

one-IsValid : IsValid ⦃o = bytewise⦄ one
one-IsValid = record { balanced = (2, (refl, refl)); black = refl; sorted = (tt, tt) }

abbrev intention : Intention
intention = record {
  snapshot = 5;
  token = 3;
  flush = false;
  ops = record { op = OpType.put; key = user (b'b' ∷ []); val = some (2 ∷ []) } ∷ [];
  pos = none;
}

recorded : All Recorded intention.ops
recorded = ((2 ∷ [], refl), tt)

-- The tree of the transaction that wrote the intention.
abbrev empty : PersistentTree
empty = record { src_root = record { address = none; ref = one }; root = none; rid = negsuc 0 }

abbrev own_put : Option PersistentTree
own_put = put ⦃o = bytewise⦄ (user (b'b' ∷ [])) (2 ∷ []) empty

own_Updated :
    (t : PersistentTree) × (own_put ≡ some t)
    × Updated ⦃o = bytewise⦄ (user (b'b' ∷ [])) (2 ∷ []) empty t
own_Updated =
    Holds-some (Updated ⦃o = bytewise⦄ (user (b'b' ∷ [])) (2 ∷ []) empty) own_put
      (put-Updated ⦃o = bytewise⦄ (user (b'b' ∷ [])) (2 ∷ []) empty one-IsValid)

abbrev finder : Finder
finder = record { token_waiters = []; waiter = [] }

-- One replica keeps the tree of the transaction, the other has to replay it.
abbrev replica : List (ℕ × Option PersistentTree) → Processor
replica finished = record {
  root = record { address = none; ref = one };
  root_snapshot = 5;
  committed_intentions = 3 ∷ 5 ∷ [];
  finished_txns = finished;
  lcs_trees = [];
  waits = record { last_intention_processed = 6; waiting_on_log_entry = []; done = [] };
  txn_finder = finder;
}

replica-IsConsistent :
    (finished : List (ℕ × Option PersistentTree)) → IsConsistent ⦃o = bytewise⦄ (replica finished)
replica-IsConsistent finished = record {
  valid = one-IsValid;
  ascending = ((omega arith, tt), (tt, tt));
  capped = omega arith;
  indexed = (omega arith, (omega arith, tt));
  current = omega arith;
}

abbrev read : List ℕ → Option (List Intention)
read ps = none

-- The intention is serial, so that no conflict zone is made.
decided :
    (finished : List (ℕ × Option PersistentTree))
    → decide ⦃o = bytewise⦄ (read_digits 0) read intention (replica finished) ≡ some false
unfolding decide
decided finished = refl

notified : notify 3 9 true finder ≡ some finder
unfolding notify find_key
notified = refl

abbrev owner : Processor
owner = replica ((9, some (own_Updated.0)) ∷ [])

abbrev replayer : Processor
replayer = replica []

owner-Local :
    AnyLocal ⦃o = bytewise⦄ intention
      (entries one)
      (take_finished ⦃o = bytewise⦄ (is_serial intention owner) 9 owner.finished_txns).0
unfolding take_finished find_finished find_key update_key op_effects op_effect
owner-Local = let (v, es, r, _) = own_Updated.2 in (v, ap is_neg r, es)

process_intention-After_example :
    Holds
      (After ⦃o = bytewise⦄ intention 9 false finder owner)
      (process_intention ⦃o = bytewise⦄ (read_digits 0) read intention 9 owner)
process_intention-After_example =
    process_intention-After ⦃o = bytewise⦄ (read_digits 0) read intention 9 false finder owner
      (replica-IsConsistent ((9, some (own_Updated.0)) ∷ [])) (omega arith) recorded
      (decided ((9, some (own_Updated.0)) ∷ [])) owner-Local notified

abbrev logged : Logged
logged = record { position = 9; intention = intention; abort = false }
