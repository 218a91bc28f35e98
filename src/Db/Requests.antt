-- ===== src/Db/Requests.antt =====
-- src/db/db_impl.cc: what clients ask of the database: `Get`, `BeginTransaction`, and `Commit` of
-- src/db/transaction_impl.cc with `CompleteTransaction` up to its wait. The log gives the position, an
-- argument.
use cruzdb.Prelude.{ℕ, zero, suc, ◌+◌, Option, some, ◌>>=◌, []}
use cruzdb.Prelude.Int.{ℤ, pos, negsuc}
use cruzdb.Slice.{Slice, SliceCompare, prefix_string, prefix_user}
use cruzdb.Node.{NodePtr}
use cruzdb.Tree.Insert.{get as get_node}
use cruzdb.Txn.Transaction.{TransactionImpl, new_transaction, commit}
use cruzdb.Txn.Intention.{Intention}
use cruzdb.Entry.Service.{LogEntry, Service, cache_entry, append}
use cruzdb.Entry.Batch.{as_intention}
use cruzdb.Db.Finder.{add_token_waiter, set_position}
use cruzdb.Db.Finished.{insert_finished}
use cruzdb.Db.Processor.{Processor}

-- The rest of what `DBImpl` keeps.
pub record Database : Type 0 where
  pub processor : Processor
  pub in_flight_txn_rid : ℤ
  pub transactions_started : ℕ

-- `in_flight_txn_rid_--`
abbrev pub pred_rid : ℤ → ℤ
pred_rid (pos zero) = negsuc 0
pred_rid (pos (suc n)) = pos n
pred_rid (negsuc n) = negsuc (suc n)

-- The constructor; the cache gives the root of the after image at the restore point, and its
-- intention is the last one processed.
unfoldable pub new_database : NodePtr → ℕ → Database
new_database root intention = record {
  processor = record {
    root = root;
    root_snapshot = intention;
    committed_intentions = [];
    finished_txns = [];
    lcs_trees = [];
    waits = record { last_intention_processed = intention; waiting_on_log_entry = []; done = [] };
    txn_finder = record { token_waiters = []; waiter = [] };
  };
  in_flight_txn_rid = negsuc 0;
  transactions_started = 0;
}

-- `BeginTransaction`; the token is drawn by the finder.
unfoldable pub begin_transaction : ℕ → Database → Option (TransactionImpl × Database)
begin_transaction token db = do
  txn ← new_transaction db.processor.root db.processor.root_snapshot db.in_flight_txn_rid token
  some (
    txn,
    record db {
      in_flight_txn_rid = pred_rid db.in_flight_txn_rid;
      transactions_started = db.transactions_started + 1;
    },
  )

-- What a commit that is under way has done: the entry that is written to the log, the entry service,
-- and the database.
abbrev pub Committing : Type 0
Committing = LogEntry × Service × Processor

-- `CompleteTransaction` of a client that waits as `w`, up to the loop of its wait. The log puts the
-- intention at a position.
unfoldable pub complete_transaction :
    ℕ → ℕ → TransactionImpl → Service → Processor → Option Committing
complete_transaction w intention_pos txn service db = do
  let waiting = add_token_waiter w txn.intention.token db.txn_finder
  appended ← append intention_pos txn.intention service
  finished ← insert_finished intention_pos txn.tree db.finished_txns
  finder ← set_position w intention_pos waiting
  some (appended.0, appended.1, record db { finished_txns = finished; txn_finder = finder })

-- `Commit`, up to that loop
unfoldable pub commit_transaction :
    ℕ → ℕ → TransactionImpl → Service → Processor → Option (Option Committing × TransactionImpl)
commit_transaction w intention_pos txn service db =
    commit (λ t. complete_transaction w intention_pos t service db) txn

-- The intention that a reader makes of an entry of the log.
unfoldable pub read_back : ℕ → LogEntry → Option Intention
read_back intention_pos e = as_intention (cache_entry intention_pos e)

module _ ⦃o : SliceCompare⦄ where
  -- `Get`, from the tree that is current
  unfoldable pub get : Slice → Processor → Option Slice
  get key db = get_node (prefix_string prefix_user key) db.root.ref
