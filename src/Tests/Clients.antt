-- ===== src/Tests/Clients.antt =====
-- A transaction from its first call to its decision, and a collection.
use cruzdb.Prelude.{ℕ, true, false, List, [], ◌∷◌, Option, none, some, ◌≡◌, refl, Holds, arith}
use cruzdb.Prelude.Int.{pos, negsuc}
use cruzdb.Prelude.Map.{find_key}
use cruzdb.Slice.{Slice, prefix_string, prefix_user}
use cruzdb.Slice.Lex.{lex, bytewise}
use cruzdb.Node.{NodeAddress, Node, nil, node}
use cruzdb.Tree.State.{PersistentTree}
use cruzdb.Tree.Correct.{IsValid}
use cruzdb.Txn.Intention.{Intention}
use cruzdb.Txn.History.{Call, read, write, erase}
use cruzdb.Db.Processed.{IsConsistent}
use cruzdb.Db.Requests.{Database, commit_transaction, read_back}
use cruzdb.Entry.Service.{new_service}
use cruzdb.Db.Committed.{client_calls, Outcome, client_calls-Done}
use cruzdb.Db.Collector.{gc}
use cruzdb.Db.Walk.{children, Collected, gc-replay}

program : Unit {0}
unfolding lex prefix_string find_key children
program = tt

abbrev user : Slice → Slice
user k = prefix_string prefix_user k

abbrev at : ℕ → Option NodeAddress
at offset = some (record { position = 4; offset = offset; is_afterimage = true })

-- Three keys, the smaller nodes with their addresses in an after image.
abbrev three : Node
three =
    node false (pos 1) (user (b'b' ∷ [])) (2 ∷ []) (at 0)
      (node true (pos 1) (user (b'a' ∷ [])) (1 ∷ []) none nil none nil) (at 1)
      (node true (pos 1) (user (b'c' ∷ [])) (3 ∷ []) none nil none nil)

three-IsValid : IsValid ⦃o = bytewise⦄ three
unfolding program
three-IsValid = record {
  balanced = (2, ((refl, refl, refl, refl), (refl, refl, refl, refl)));
  black = refl;
  sorted = ((refl, (refl, tt)), ((refl, tt), (tt, tt)));
}

abbrev database : Database
database = record {
  processor = record {
    root = record { address = none; ref = three };
    root_snapshot = 5;
    committed_intentions = 3 ∷ 5 ∷ [];
    finished_txns = [];
    lcs_trees = [];
    waits = record { last_intention_processed = 6; waiting_on_log_entry = []; done = [] };
    txn_finder = record { token_waiters = []; waiter = [] };
  };
  in_flight_txn_rid = negsuc 0;
  transactions_started = 0;
}

database-IsConsistent : IsConsistent ⦃o = bytewise⦄ database.processor
database-IsConsistent = record {
  valid = three-IsValid;
  ascending = ((omega arith, tt), (tt, tt));
  capped = omega arith;
  indexed = (omega arith, (omega arith, tt));
  current = omega arith;
}

abbrev calls : List Call
calls = read (b'c' ∷ []) ∷ write (b'd' ∷ []) (4 ∷ []) ∷ erase (b'a' ∷ []) ∷ []

no_token : find_key 3 database.processor.txn_finder.token_waiters ≡ none
unfolding find_key
no_token = refl

no_tree : find_key 9 database.processor.finished_txns ≡ none
unfolding find_key
no_tree = refl

abbrev never : Slice → Option ℕ
never key = none

abbrev no_intentions : List ℕ → Option (List Intention)
no_intentions ps = none

client_calls-Done_example :
    Holds
      (λ t.
        Holds
          (Outcome ⦃o = bytewise⦄ never no_intentions 1 3 9 calls database.processor t)
          (commit_transaction 1 9 t (new_service 4) database.processor))
      (client_calls ⦃o = bytewise⦄ 3 calls database)
client_calls-Done_example =
    client_calls-Done ⦃o = bytewise⦄ never no_intentions 1 3 9 calls (new_service 4) database
      database-IsConsistent (omega arith) refl no_token no_tree

abbrev tree : PersistentTree
tree = record { src_root = record { address = none; ref = three }; root = none; rid = pos 7 }

gc-replay_example :
    Holds
      (λ r. Holds (Collected ⦃o = bytewise⦄ three tree) (read_back 9 r.0))
      (gc three 9 (new_service 4))
unfolding children
gc-replay_example =
    gc-replay ⦃o = bytewise⦄ three 9 (new_service 4) tree (omega arith)
      (tt, (tt, (tt, (tt, (tt, (tt, tt)))))) (((λ e f. omega (arith, f)), tt), (tt, tt))
      three-IsValid
