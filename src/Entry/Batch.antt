-- ===== src/Entry/Batch.antt =====
-- src/db/entry_service.cc: `ReadIntentions`.
use cruzdb.Prelude.{
  ℕ, List, [], ◌∷◌, ◌++◌, Option, none, some, ◌>>=◌, ◌>>◌, assert, ◌==◌, length, map,
}
use cruzdb.Prelude.Map.{find_key}
use cruzdb.Txn.Intention.{Intention}
use cruzdb.Entry.Service.{
  CacheEntry, intention, LogEntry, ReadResult, ok, enodata, Service, cache_entry, add_and_get,
}

abbrev pub as_intention : CacheEntry → Option Intention
as_intention (intention i) = some i
as_intention _ = none

-- The loop over the cache: the intentions that it has, and the positions that are missing.
unfoldable pub split_cached : List ℕ → Service → Option (List Intention × List ℕ)
split_cached [] s = some ([], [])
split_cached (pos ∷ positions) s = do
  (intentions, missing_positions) ← split_cached positions s
  elim (find_key pos s.entry_cache) [
    | some e ↦ as_intention e >>= λ i. some (i ∷ intentions, missing_positions)
    | none ↦ some (intentions, pos ∷ missing_positions)
  ]

-- What a finished read leaves of a pending one: another error than `-ENODATA` is retried.
abbrev pub completed : ReadResult → Option (Option LogEntry)
completed (ok e) = some (some e)
completed enodata = none
completed _ = some none

-- One turn of the loop that waits for the reads, with what each position's read returned.
unfoldable pub aio_round :
    (ℕ → ReadResult) → List (ℕ × Option LogEntry) → Option (List (ℕ × Option LogEntry))
aio_round answer [] = some []
aio_round answer (c ∷ ios) = do
  rest ← aio_round answer ios
  elim c.1 [
    | some e ↦ some (c ∷ rest)
    | none ↦ completed (answer c.0) >>= λ r. some ((c.0, r) ∷ rest)
  ]

-- The blobs, where no read is pending.
unfoldable pub blobs : List (ℕ × Option LogEntry) → Option (List (ℕ × LogEntry))
blobs [] = some []
blobs (c ∷ ios) = do rest ← blobs ios; e ← c.1; some ((c.0, e) ∷ rest)

-- The loop; `none` is one that still turns, or an assertion that fails.
unfoldable pub aio_rounds :
    List (ℕ → ReadResult) → List (ℕ × Option LogEntry) → Option (List (ℕ × LogEntry))
aio_rounds [] ios = none
aio_rounds (answer ∷ answers) ios = do
  ios' ← aio_round answer ios
  elim (blobs ios') [ some bs ↦ some bs | none ↦ aio_rounds answers ios' ]

-- The last loop: what has been read is put into the cache. (A pointer that is not set is `none`.)
unfoldable pub store_blobs : List (ℕ × LogEntry) → Service → Option (List Intention × Service)
store_blobs [] s = some ([], s)
store_blobs (b ∷ bs) s = do
  i ← as_intention (cache_entry b.0 b.1)
  (e, s') ← add_and_get b.0 (intention i) s
  i' ← as_intention e
  (is, s'') ← store_blobs bs s'
  some (i' ∷ is, s'')

unfoldable pub read_intentions :
    List ℕ → List (ℕ → ReadResult) → Service → Option (List Intention × Service)
read_intentions positions answers s = do
  (have, missing_positions) ← split_cached positions s
  bs ← aio_rounds answers (map (λ pos. (pos, none)) missing_positions)
  (more, s') ← store_blobs bs s
  assert (length (have ++ more) == length positions)
  some (have ++ more, s')
