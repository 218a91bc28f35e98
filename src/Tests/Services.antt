-- ===== src/Tests/Services.antt =====
-- Runs of the matcher, the entry cache and the log scanner.
use cruzdb.Prelude.{
  ℕ, ◌≤◌, false, List, [], ◌∷◌, Option, none, some, ◌≡◌, refl, Holds, arith, ◌==◌, if◌then◌else◌,
}
use cruzdb.Prelude.Map.{find_key, update_key, emplace_key}
use cruzdb.Txn.Intention.{Intention, OpType, check_copying, prepare, new_intention}
use cruzdb.Image.Proto.{AfterImage}
use cruzdb.Entry.Matcher.{
  new_matcher, set_after_image, gc_loop, gc, watch_entry, watch, push_entry, push,
}
use cruzdb.Entry.Ledger.{
  new_ledger, watch_status, ledger_watch, push_status, ledger_push, Call, watch_call, push_call,
  run, ledger_run,
}
use cruzdb.Entry.Matching.{run-matched, new_matcher-Follows}
use cruzdb.Entry.Service.{
  CacheEntry, after_image, filled, log_after_image, append, serialize, ReadResult, ok, enodata,
  enoent, Service, new_service, entry_cache_gc, add_entry, add_and_get, read_loop, read_finish,
  clear_caches,
}
use cruzdb.Entry.Scanner.{Scanner, scan_result, scan_step, scan}
use cruzdb.Entry.Steps.{Cached}
use cruzdb.Entry.Reachable.{
  ◌⊢◌⟶◌, ◌⊢◌⟶*◌, reads, here, and_then, appends, new_service-Cached, read_finish_evicted,
}
use cruzdb.Entry.Scanning.{scan_filled, scan_reaches}
use mathlib.Core.List.{Perm}
use cruzdb.Entry.Service.{log_intention, intention, failed}
use cruzdb.Entry.Batch.{split_cached, aio_round, blobs, aio_rounds, store_blobs, read_intentions}
use cruzdb.Entry.Complete.{at_positions, returned}
use cruzdb.Entry.Batched.{read_intentions-Perm}

program : Unit {0}
unfolding split_cached aio_round blobs aio_rounds store_blobs read_intentions find_key update_key
    emplace_key set_after_image gc_loop gc watch_entry watch push_entry push watch_status
    ledger_watch push_status ledger_push run ledger_run new_service entry_cache_gc add_entry
    add_and_get read_loop read_finish clear_caches scan_result scan_step scan new_intention append
    serialize prepare check_copying
program = tt

-- Two intentions: the first is watched before its after images arrive, the second after.
abbrev calls : List Call
calls =
    watch_call (1 ∷ []) 5
    ∷ push_call 7 9
    ∷ push_call 5 10
    ∷ push_call 5 11
    ∷ watch_call (2 ∷ []) 7
    ∷ push_call 7 12
    ∷ []

-- Both are queued, each with its first after image.
calls_result :
    (run calls new_matcher)
    ≡ some (record {
      shutdown = false;
      matched_watermark = 7;
      after_images = [];
      matched =
          (1 ∷ [], record { intention = 5; after_image = some 10 })
          ∷ (2 ∷ [], record { intention = 7; after_image = some 9 })
          ∷ [];
    })
unfolding program
calls_result = refl

run-matched_example :
    Holds (λ m. m.matched ≡ (ledger_run calls new_ledger).matched) (run calls new_matcher)
run-matched_example = run-matched calls (omega arith, (omega arith, tt))

abbrev image : AfterImage
image = record { intention = 2; tree = [] }

abbrev putter : Intention
putter = record {
  snapshot = 2;
  token = 1;
  flush = false;
  ops = record { op = OpType.put; key = 3 ∷ []; val = some (4 ∷ []) } ∷ [];
  pos = none;
}

-- A log with an after image at position 4, a filled position 6, and an intention at position 8.
abbrev log : ℕ → Option CacheEntry
log p =
    if p == 4
    then some (after_image image)
    else if p == 6
    then some filled
    else if p == 8
    then some (intention (record putter { pos = some 8 }))
    else none

abbrev cached : Service
cached = record { stop = false; max_pos = 0; cache_size = 1; entry_cache = (6, filled) ∷ [] }

first_read :
    read_finish 4 (enoent ∷ ok (log_after_image image) ∷ []) (new_service 1)
    ≡ some (after_image image, record cached { entry_cache = (4, after_image image) ∷ [] })
unfolding program
first_read = refl

second_read :
    read_finish 6 (enodata ∷ []) (record cached { entry_cache = (4, after_image image) ∷ [] })
    ≡ some (filled, cached)
unfolding program
second_read = refl

abbrev appended : Service
appended = record cached {
  max_pos = 8;
  entry_cache = (8, intention (record putter { pos = some 8 })) ∷ [];
}

append_result : append 8 putter cached ≡ some (log_intention putter, appended)
unfolding program
append_result = refl

appended_reached : log ⊢ new_service 1 ⟶* appended
appended_reached =
    and_then (reads 4 (enoent ∷ ok (log_after_image image) ∷ []) (tt, (refl, tt)) first_read) (
      and_then (reads 6 (enodata ∷ []) (refl, tt) second_read)
        (and_then (appends 8 putter (log_intention putter) append_result refl) here))

new_service-Cached_example : Cached log appended
new_service-Cached_example = new_service-Cached log 1 appended appended_reached

-- The read of position 4 with a full cache.
first_loop : read_loop 4 (ok (log_after_image image) ∷ []) ≡ some (after_image image)
unfolding program
first_loop = refl

read_finish_evicted_example :
    (find_key 4 (emplace_key 4 (after_image image) cached.entry_cache) ≡ some (after_image image))
    × (find_key 4 (add_entry 4 (after_image image) cached).entry_cache ≡ none)
    × ((add_entry 4 (after_image image) cached).entry_cache ≡ cached.entry_cache)
    × (read_finish 4 (ok (log_after_image image) ∷ []) cached ≡ none)
read_finish_evicted_example =
    read_finish_evicted 4 (ok (log_after_image image) ∷ []) (after_image image) cached first_loop
      refl (omega arith, tt)

abbrev scanner : Scanner
scanner = record { next = 4; tail = 8; service = new_service 2; ai_matcher = new_matcher }

abbrev answer : ℕ → ReadResult
answer p = if p == 6 then enodata else ok (log_after_image image)

scanner-Before : find_key 6 scanner.service.entry_cache ≡ none
unfolding program
scanner-Before = refl

abbrev scanner_end : Scanner
scanner_end = record {
  next = 6;
  tail = 8;
  service = record {
    stop = false;
    max_pos = 5;
    cache_size = 2;
    entry_cache = (4, after_image image) ∷ (5, after_image image) ∷ [];
  };
  ai_matcher = record new_matcher {
    after_images = (2, record { pos = some 4; tree = none; delta = [] }) ∷ [];
  };
}

scan-scanner : scan 9 answer scanner ≡ some scanner_end
unfolding program
scan-scanner = refl

scan_filled_example : scanner_end.next ≤ 6
scan_filled_example =
    scan_filled 6 9 answer scanner scanner_end refl (omega arith, scanner-Before) scan-scanner

scan_reaches_example : Holds (λ c. c.next ≡ 8) (scan 4 (λ p. ok (log_after_image image)) scanner)
scan_reaches_example =
    scan_reaches 4 0 (λ p. ok (log_after_image image)) scanner new_ledger new_matcher-Follows refl
      (λ p l r. (log_after_image image, refl))

abbrev at : ℕ → Intention
at p = record { snapshot = 0; token = 0; flush = false; ops = []; pos = some p }

-- A log of intentions, one of which is cached; the first round of reads fails.
abbrev intentions : ℕ → Option CacheEntry
intentions p = some (intention (at p))

abbrev half_cached : Service
half_cached = record {
  stop = false;
  max_pos = 9;
  cache_size = 3;
  entry_cache = (4, intention (at 4)) ∷ [];
}

abbrev succeed : ℕ → ReadResult
succeed p = ok (log_intention (at p))

half_cached-Cached : Cached intentions half_cached
half_cached-Cached = record { bounded = omega arith; ascending = tt; agrees = (refl, tt) }

batch :
    read_intentions (7 ∷ 4 ∷ []) ((λ p. failed) ∷ succeed ∷ []) half_cached
    ≡ some (
      at 4 ∷ at 7 ∷ [],
      record half_cached { entry_cache = (4, intention (at 4)) ∷ (7, intention (at 7)) ∷ [] },
    )
unfolding program
batch = refl

read_intentions-Perm_example :
    Holds
      (λ (r : List Intention × Service).
        Perm (at_positions intentions (7 ∷ 4 ∷ [])) (returned intentions r.0))
      (read_intentions (7 ∷ 4 ∷ []) ((λ p. failed) ∷ succeed ∷ []) half_cached)
read_intentions-Perm_example =
    read_intentions-Perm intentions (7 ∷ 4 ∷ []) ((λ p. failed) ∷ []) succeed half_cached
      ((λ p. tt), tt) (λ p. refl) (λ p i. (log_intention (at p), refl))
      ((at 7, refl), ((at 4, refl), tt)) half_cached-Cached (omega arith)
