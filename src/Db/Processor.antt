-- ===== src/Db/Processor.antt =====
-- src/db/db_impl.cc: a turn of `TransactionProcessorEntry`, with `NotifyTransaction`. What
-- `ProcessConcurrentIntention` decides is an argument of the turn's parts.
use cruzdb.Prelude.{
  ℕ, Bool, true, false, not, ◌||◌, List, [], ◌∷◌, ◌++◌, Option, none, some, ◌>>=◌, ◌>>◌, assert,
  ltb, ◌==◌, if◌then◌else◌,
}
use cruzdb.Prelude.Int.{pos}
use cruzdb.Slice.{Slice, SliceCompare, prefix_string, prefix_committed_intention}
use cruzdb.Node.{NodePtr, is_nil}
use cruzdb.Tree.State.{PersistentTree, put}
use cruzdb.Txn.Intention.{Intention}
use cruzdb.Txn.CommittedIndex.{push}
use cruzdb.Txn.Replay.{replay}
use cruzdb.Txn.Keys.{committed_key}
use cruzdb.Image.Write.{to_u16, infect_self_pointers}
use cruzdb.Db.Finder.{Finder, notify}
use cruzdb.Db.Waiting.{Waits, notify_intention}
use cruzdb.Db.Finished.{find_finished}
use cruzdb.Db.Concurrent.{process_concurrent}

-- What the thread changes of `DBImpl`, or reads in it.
pub record Processor : Type 0 where
  pub root : NodePtr
  pub root_snapshot : ℕ
  pub committed_intentions : List ℕ
  pub finished_txns : List (ℕ × Option PersistentTree)
  pub lcs_trees : List PersistentTree
  pub waits : Waits
  pub txn_finder : Finder

-- `serial`
abbrev pub is_serial : Intention → Processor → Bool
is_serial intention db = (db.root_snapshot == intention.snapshot) || intention.flush

unfoldable pub notify_transaction : ℕ → ℕ → Bool → Processor → Option Processor
notify_transaction token intention_pos committed db = do
  finder ← notify token intention_pos committed db.txn_finder
  some (record db { waits = notify_intention intention_pos db.waits; txn_finder = finder })

-- `last_intention_processed_` moves on.
unfoldable pub move_last : ℕ → Processor → Option Processor
move_last intention_pos db = do
  assert (ltb db.waits.last_intention_processed intention_pos)
  some (record db { waits = record (db.waits) { last_intention_processed = intention_pos } })

unfoldable pub abort_intention : Intention → ℕ → Processor → Option Processor
abort_intention intention intention_pos db =
    notify_transaction intention.token intention_pos false db >>= move_last intention_pos

module _ ⦃o : SliceCompare⦄ where
  -- The committed intention's key is put into the next root, and the pointers get their addresses.
  unfoldable pub seal_root : ℕ → Bool → PersistentTree → Option (PersistentTree × Option ℕ)
  seal_root intention_pos expect_intention_rid tree =
      put (prefix_string prefix_committed_intention (committed_key intention_pos)) [] tree
      >>= infect_self_pointers intention_pos expect_intention_rid

  -- The tree by replay.
  unfoldable pub replay_root : Intention → ℕ → NodePtr → Option (PersistentTree × Option ℕ)
  replay_root intention intention_pos root =
      replay intention.ops (record { src_root = root; root = none; rid = pos intention_pos })
      >>= seal_root intention_pos true

  -- The next root: the tree of the transaction, where it is at hand, or by replay.
  unfoldable pub next_root :
      Intention → ℕ → NodePtr → Option PersistentTree → Option (PersistentTree × Option ℕ)
  next_root intention intention_pos root none = replay_root intention intention_pos root
  next_root intention intention_pos root (some tree) = seal_root intention_pos false tree

  -- The tree of a finished transaction is used for serial intentions only.
  unfoldable pub take_finished :
      Bool
      → ℕ
      → List (ℕ × Option PersistentTree)
      → Option PersistentTree × List (ℕ × Option PersistentTree)
  take_finished serial intention_pos txns =
      if serial then find_finished intention_pos txns else (none, txns)

  -- The new root of the database.
  unfoldable pub install_root : ℕ → PersistentTree → ℕ → Processor → Option Processor
  install_root intention_pos tree offset db = do
    root ← tree.root
    assert (not (is_nil root))
    some (record db {
      root = record {
        address =
            some
              (record { position = intention_pos; offset = to_u16 offset; is_afterimage = false });
        ref = root;
      };
      root_snapshot = intention_pos;
      lcs_trees = db.lcs_trees ++ tree ∷ [];
    })

  unfoldable pub commit_intention : Bool → Intention → ℕ → Processor → Option Processor
  commit_intention serial intention intention_pos db = do
    committed ← push intention_pos db.committed_intentions
    let taken = take_finished serial intention_pos db.finished_txns
    next ← next_root intention intention_pos db.root taken.0
    offset ← next.1
    db' ←
        install_root intention_pos next.0 offset
          (record db { committed_intentions = committed; finished_txns = taken.1 })
    db'' ← move_last intention_pos db'
    notify_transaction intention.token intention_pos true db''

  -- A serial intention has no conflicts.
  unfoldable pub decide :
      (Slice → Option ℕ) → (List ℕ → Option (List Intention)) → Intention → Processor → Option Bool
  decide lexical_cast read_intentions intention db =
      let concurrent =
        process_concurrent lexical_cast read_intentions db.root.ref db.root_snapshot
          db.committed_intentions intention in
      if is_serial intention db then some false else concurrent

  unfoldable pub carry_out : Bool → Intention → ℕ → Processor → Option Processor
  carry_out true intention intention_pos db = abort_intention intention intention_pos db
  carry_out false intention intention_pos db =
      commit_intention (is_serial intention db) intention intention_pos db

  unfoldable pub process_intention :
      (Slice → Option ℕ)
      → (List ℕ → Option (List Intention))
      → Intention
      → ℕ
      → Processor
      → Option Processor
  process_intention lexical_cast read_intentions intention intention_pos db = do
    assert (ltb db.root_snapshot intention_pos)
    abort ← decide lexical_cast read_intentions intention db
    carry_out abort intention intention_pos db
