-- ===== src/Db/Concurrent.antt =====
-- src/db/db_impl.cc: `ProcessConcurrentIntention`, with the scan of the committed intentions' keys
-- where the index does not go back to the snapshot. `lexical_cast` of Boost and `ReadIntentions` are
-- arguments.
use cruzdb.Prelude.{
  ℕ, zero, suc, Bool, List, [], ◌∷◌, ◌++◌, length, Option, none, some, ◌>>=◌, ◌>>◌, assert, ◌==◌,
  if◌then◌else◌,
}
use cruzdb.Slice.{Slice, SliceCompare, prefix_committed_intention}
use cruzdb.Node.{Node}
use cruzdb.Tree.Entries.{entries}
use cruzdb.Iterator.Raw.{RawIterator, forward, next}
use cruzdb.Iterator.Prefix.{prefix_valid, filtered_key, prefix_seek}
use cruzdb.Txn.Intention.{Intention}
use cruzdb.Txn.Conflict.{must_abort}
use cruzdb.Txn.CommittedIndex.{range}
use cruzdb.Txn.Keys.{committed_key}

-- An iterator over a snapshot, before it is moved.
abbrev pub new_iterator : Node → RawIterator
new_iterator root = record { root = root; stack = []; dir = forward }

abbrev pub front : List ℕ → Option ℕ
front [] = none
front (p ∷ ps) = some p

module _ ⦃o : SliceCompare⦄ (lexical_cast : Slice → Option ℕ) where
  -- The position at the iterator, which must be valid.
  unfoldable pub position_at : RawIterator → Option ℕ
  position_at it = do
    assert (prefix_valid prefix_committed_intention it)
    key ← filtered_key prefix_committed_intention it
    lexical_cast key

  -- The loop, up to the first position of the range, on fuel.
  unfoldable pub scan_zone : ℕ → ℕ → RawIterator → Option (List ℕ)
  scan_zone zero first it = none
  scan_zone (suc fuel) first it =
      let rest = position_at it >>= λ pos.
      (next it >>= λ it'. scan_zone fuel first it') >>= λ ps. some (pos ∷ ps) in
      if prefix_valid prefix_committed_intention it
      then (position_at it >>= λ pos. if pos == first then some [] else rest)
      else some []

  -- The positions after the snapshot that the range lacks. A round for each entry, and one, is enough.
  unfoldable pub missing_zone : Node → ℕ → ℕ → Option (List ℕ)
  missing_zone root snapshot first = do
    it ← prefix_seek prefix_committed_intention (committed_key snapshot) (new_iterator root)
    pos ← position_at it
    assert (pos == snapshot)
    it' ← next it
    assert (prefix_valid prefix_committed_intention it')
    scan_zone (suc (length (entries root))) first it'

  -- The conflict zone.
  unfoldable pub conflict_zone : Node → ℕ → ℕ → List ℕ → Option (List ℕ)
  conflict_zone root snapshot root_snapshot index = range snapshot root_snapshot index >>= λ r.
      if r.1
      then some r.0
      else (front r.0 >>= λ first. missing_zone root snapshot first >>= λ ps. some (r.0 ++ ps))

  -- `true` is the decision to abort.
  unfoldable pub process_concurrent :
      (List ℕ → Option (List Intention)) → Node → ℕ → List ℕ → Intention → Option Bool
  process_concurrent read_intentions root root_snapshot index intention =
      conflict_zone root intention.snapshot root_snapshot index >>= λ ps.
      read_intentions ps >>= λ others. some (must_abort intention others)
