-- ===== src/Entry/Service.antt =====
-- src/db/entry_service.{h,cc}: the cache of log entries, and the reads and appends that fill it.
use cruzdb.Prelude.{
  ℕ, Bool, true, false, List, [], ◌∷◌, Option, none, some, ◌>>=◌, ◌>>◌, assert, ltb, length,
  if◌then◌else◌,
}
use cruzdb.Prelude.Map.{find_key, emplace_key}
use cruzdb.Txn.Intention.{Intention, is_none, prepare}
use cruzdb.Image.Proto.{AfterImage}

-- `CacheEntry`: its type, with the pointer that goes with the type.
pub data CacheEntry : Type 0 where
  intention : Intention → CacheEntry
  after_image : AfterImage → CacheEntry
  filled : CacheEntry

-- `LogEntry` of cruzdb.proto, as it is parsed from the log. The position of an intention is not in it.
pub data LogEntry : Type 0 where
  log_intention : Intention → LogEntry
  log_after_image : AfterImage → LogEntry

-- What `Log::Read` of zlog returns: 0, `-ENODATA`, `-ENOENT`, or another error.
pub data ReadResult : Type 0 where
  ok : LogEntry → ReadResult
  enodata enoent failed : ReadResult

-- `tail_waiters_` are the threads that run another step.
pub record Service : Type 0 where
  pub stop : Bool
  pub max_pos : ℕ
  pub cache_size : ℕ
  pub entry_cache : List (ℕ × CacheEntry)

unfoldable pub new_service : ℕ → Service
new_service cache_size = record {
  stop = false;
  max_pos = 0;
  cache_size = cache_size;
  entry_cache = [];
}

abbrev pub max : ℕ → ℕ → ℕ
max a b = if ltb a b then b else a

-- `entry_cache_gc` drops the entries at the lowest positions.
unfoldable pub entry_cache_gc : ℕ → List (ℕ × CacheEntry) → List (ℕ × CacheEntry)
entry_cache_gc cache_size [] = []
entry_cache_gc cache_size (e ∷ es) =
    let rest = entry_cache_gc cache_size es in
    if ltb cache_size (length (e ∷ es)) then rest else e ∷ es

-- `emplace` and `entry_cache_gc`
unfoldable pub add_entry : ℕ → CacheEntry → Service → Service
add_entry pos e s = record s {
  entry_cache = entry_cache_gc s.cache_size (emplace_key pos e s.entry_cache);
}

-- The same, where the iterator that `emplace` returned is used after the collection. An iterator to an
-- entry that has been erased gives `none`.
unfoldable pub add_and_get : ℕ → CacheEntry → Service → Option (CacheEntry × Service)
add_and_get pos e s =
    let s' = add_entry pos e s in find_key pos s'.entry_cache >>= λ x. some (x, s')

-- The switch over the type of an entry, as in `IOEntry` and `Read`.
abbrev pub cache_entry : ℕ → LogEntry → CacheEntry
cache_entry pos (log_intention i) = intention (record i { pos = some pos })
cache_entry pos (log_after_image a) = after_image a

-- `Read`, up to the read of the log: an entry of the cache, or whether the caller must wait first.
pub data Start : Type 0 where
  hit : CacheEntry → Start
  wait read_log : Start

unfoldable pub read_start : ℕ → Service → Start
read_start pos s = elim (find_key pos s.entry_cache) [
  | some e ↦ hit e
  | none ↦ if ltb s.max_pos pos then wait else read_log
]

-- The wait of `Read`: `none` is a thread that stays asleep, `some false` a read that is given up.
unfoldable pub read_wake : ℕ → Service → Option Bool
read_wake pos s = if s.stop then some false else if ltb s.max_pos pos then none else some true

-- The loop of `Read` over the results of the log. (`fill` only decides whether an unwritten position
-- is filled between two rounds.) `none` is the loop that still turns, or an assertion that fails.
unfoldable pub read_loop : ℕ → List ReadResult → Option CacheEntry
read_loop pos [] = none
read_loop pos (ok e ∷ rs) = some (cache_entry pos e)
read_loop pos (enodata ∷ rs) = some filled
read_loop pos (enoent ∷ rs) = read_loop pos rs
read_loop pos (failed ∷ rs) = none

unfoldable pub read_finish : ℕ → List ReadResult → Service → Option (CacheEntry × Service)
read_finish pos rs s = read_loop pos rs >>= λ e. add_and_get pos e s

-- `Serialize` of an intention: the entry for the log, and the intention with its flush flag.
unfoldable pub serialize : Intention → Option (LogEntry × Intention)
serialize i = prepare i >>= λ i'. some (log_intention i', i')

-- `Append` of an intention, with the entry that is written to the log. The log puts it at a position.
unfoldable pub append : ℕ → Intention → Service → Option (LogEntry × Service)
append pos i s = do
  written ← serialize i
  assert (is_none written.1.pos)
  let s' = add_entry pos (intention (record (written.1) { pos = some pos })) s
  some (written.0, record s' { max_pos = max s'.max_pos pos })

abbrev pub as_after_image : CacheEntry → Option AfterImage
as_after_image (after_image a) = some a
as_after_image _ = none

-- The loop of `ReadAfterImage`: every error but a filled position is retried.
unfoldable pub after_image_loop : List ReadResult → Option AfterImage
after_image_loop [] = none
after_image_loop (ok (log_after_image a) ∷ rs) = some a
after_image_loop (ok (log_intention i) ∷ rs) = none
after_image_loop (enodata ∷ rs) = none
after_image_loop (enoent ∷ rs) = after_image_loop rs
after_image_loop (failed ∷ rs) = after_image_loop rs

unfoldable pub read_after_image : ℕ → List ReadResult → Service → Option (AfterImage × Service)
read_after_image pos rs s = elim (find_key pos s.entry_cache) [
  | some e ↦ as_after_image e >>= λ a. some (a, s)
  | none ↦ do
    a ← after_image_loop rs
    (e, s') ← add_and_get pos (after_image a) s
    a' ← as_after_image e
    some (a', s')
]

-- `CheckTail`, where the log has returned its tail.
unfoldable pub check_tail : ℕ → Bool → Service → ℕ × Service
check_tail tail update_max_pos s =
    (tail, if update_max_pos then record s { max_pos = max s.max_pos tail } else s)

unfoldable pub clear_caches : Service → Service
clear_caches s = record s { entry_cache = [] }
