-- ===== src/Db/Replicas.antt =====
-- src/db/db_impl.cc: `TransactionProcessorEntry` over the log, on several replicas of a database.
use cruzdb.Prelude.{ℕ, ◌<◌, Bool, not, List, [], ◌∷◌, All, Option, some, ◌≡◌, refl, ap, ◌∙◌}
use cruzdb.Slice.{Slice, SliceCompare}
use cruzdb.Dict.{Entry}
use cruzdb.Tree.Entries.{entries}
use cruzdb.Txn.Intention.{Intention}
use cruzdb.Txn.Log.{Recorded}
use cruzdb.Db.Finder.{Finder, notify}
use cruzdb.Db.Processor.{Processor, is_serial, take_finished, decide, process_intention}
use cruzdb.Db.NextRoot.{AnyLocal}
use cruzdb.Db.Processed.{IsConsistent, outcome, snapshot_after, After, process_intention-After}

-- An intention of the log, with its position and the decision to abort it.
pub record Logged : Type 0 where
  pub position : ℕ
  pub intention : Intention
  pub abort : Bool

module _ ⦃o : SliceCompare⦄ where
  -- The turns of the processor's thread over a stretch of the log.
  pub data Turns (lexical_cast : Slice → Option ℕ)
      (read_intentions : List ℕ → Option (List Intention))
      : List Logged → Processor → Processor → Type 0 where
    stop : {db : Processor} → Turns lexical_cast read_intentions [] db db
    turn :
        {log : List Logged} {db db' db'' : Processor} (l : Logged) (finder : Finder)
        → db.waits.last_intention_processed < l.position
        → All Recorded l.intention.ops
        → decide lexical_cast read_intentions l.intention db ≡ some l.abort
        → AnyLocal l.intention
            (entries db.root.ref)
            (take_finished (is_serial l.intention db) l.position db.finished_txns).0
        → notify l.intention.token l.position (not l.abort) db.txn_finder ≡ some finder
        → process_intention lexical_cast read_intentions l.intention l.position db ≡ some db'
        → Turns lexical_cast read_intentions log db' db''
        → Turns lexical_cast read_intentions (l ∷ log) db db''

  -- What the log does to the entries, and which intention is the last committed one.
  abbrev pub log_outcome : List Logged → List Entry → List Entry
  log_outcome [] es = es
  log_outcome (l ∷ log) es = log_outcome log (outcome l.abort l.position l.intention es)

  abbrev pub log_snapshot : List Logged → ℕ → ℕ
  log_snapshot [] snapshot = snapshot
  log_snapshot (l ∷ log) snapshot = log_snapshot log (snapshot_after l.abort l.position snapshot)

  abbrev pub Outcome : List Logged → Processor → Processor → Type 0
  Outcome log db db' =
      IsConsistent db'
      × (entries db'.root.ref ≡ log_outcome log (entries db.root.ref))
      × (db'.root_snapshot ≡ log_snapshot log db.root_snapshot)

  pub Turns-Outcome :
      (lexical_cast : Slice → Option ℕ) (read_intentions : List ℕ → Option (List Intention))
      {log : List Logged} {db db' : Processor}
      → Turns lexical_cast read_intentions log db db'
      → IsConsistent db
      → Outcome log db db'
  Turns-Outcome lexical_cast read_intentions stop c = (c, refl, refl)
  Turns-Outcome lexical_cast read_intentions
        (turn {log = log} {db = db} {db' = db'} l finder b r d loc n e ts) c =
      let a : After l.intention l.position l.abort finder db db' = rw e at (
        process_intention-After lexical_cast read_intentions l.intention l.position l.abort finder
          db c b r d loc n) in
      let (c', es, s) = Turns-Outcome lexical_cast read_intentions ts a.0 in
      (c', es ∙ ap (log_outcome log) a.1, s ∙ ap (log_snapshot log) a.2)
