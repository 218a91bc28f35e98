-- ===== src/Entry/Reachable.antt =====
-- src/db/entry_service.cc: the entry service from its start, under any order of its callers' steps.
use cruzdb.Prelude.{
  ℕ, Bool, true, false, Holds, Holds-some, ap, ◌∙◌, List, [], ◌∷◌, Option, none, some, ◌>>=◌, ◌≡◌,
  refl, ◌<◌, arith, length, All,
}
use cruzdb.Prelude.Map.{find_key, emplace_key, Above, find_key-Above, find_key-emplace_self}
use cruzdb.Txn.Intention.{Intention}
use cruzdb.Image.Proto.{AfterImage}
use cruzdb.Entry.Service.{
  CacheEntry, LogEntry, ReadResult, ok, Service, new_service, add_entry, add_and_get, read_loop,
  read_finish, append, read_after_image, check_tail, clear_caches,
}
use cruzdb.Entry.Batch.{read_intentions}
use cruzdb.Entry.Scanner.{Scanner, scan_step}
use cruzdb.Entry.Cache.{length-emplace_key, entry_cache_gc_room, entry_cache_gc_lowest}
use cruzdb.Entry.Steps.{Truthful, Cached, Got, read_finish-Got}
use cruzdb.Entry.Batches.{
  Answers, read_after_image-Got, append-Cached, scan_step-Cached, read_intentions-Cached,
}

pub finds :
    (k : ℕ) (a : CacheEntry) (es : List (ℕ × CacheEntry))
    → Holds (λ _. Unit {0}) (find_key k (emplace_key k a es))
unfolding find_key emplace_key
finds k a [] = ground arith
finds k a (e ∷ es) = ground (arith, finds k a es)

finishes :
    (pos : ℕ) (rs : List ReadResult) (s : Service) (e : CacheEntry)
    → read_loop pos rs ≡ some e
    → length s.entry_cache < s.cache_size
    → Holds (λ _. Unit {0}) (read_finish pos rs s)
unfolding read_finish add_and_get add_entry
finishes pos rs s e h l =
    let (x, f, u) =
      Holds-some (λ _. Unit {0}) (find_key pos (emplace_key pos e s.entry_cache))
        (finds pos e s.entry_cache) in
    let n = length-emplace_key pos e s.entry_cache in
    rw
      (
        h,
        ◌>>=◌,
        entry_cache_gc_room s.cache_size (emplace_key pos e s.entry_cache) (omega arith),
        f,
      )
      tt

evicted :
    (pos : ℕ) (e : CacheEntry) (s : Service)
    → length s.entry_cache ≡ s.cache_size
    → Above pos s.entry_cache
    → add_and_get pos e s ≡ none
unfolding add_and_get add_entry
evicted pos e s l a =
    rw
      (
        entry_cache_gc_lowest s.cache_size pos e s.entry_cache l a,
        find_key-Above pos pos s.entry_cache (omega arith) a,
      )
      refl

-- One step of a caller or of the log scanner, with results that the log gives.
infix 40 ◌⊢◌⟶◌
pub data ◌⊢◌⟶◌ (log : ℕ → Option CacheEntry) : Service → Service → Type 0 where
  reads :
      {s s' : Service} {e : CacheEntry} (pos : ℕ) (rs : List ReadResult)
      → All (Truthful log pos) rs
      → read_finish pos rs s ≡ some (e, s')
      → log ⊢ s ⟶ s'
  reads_image :
      {s s' : Service} {a : AfterImage} (pos : ℕ) (rs : List ReadResult)
      → All (Truthful log pos) rs
      → read_after_image pos rs s ≡ some (a, s')
      → log ⊢ s ⟶ s'
  reads_batch :
      {s s' : Service} {is : List Intention} (positions : List ℕ) (answers : List (ℕ → ReadResult))
      → All (Answers log) answers
      → read_intentions positions answers s ≡ some (is, s')
      → log ⊢ s ⟶ s'
  appends :
      {s s' : Service} (pos : ℕ) (i : Intention) (e : LogEntry)
      → append pos i s ≡ some (e, s')
      → Truthful log pos (ok e)
      → log ⊢ s ⟶ s'
  scans :
      (c c' : Scanner) (r : ReadResult)
      → Truthful log c.next r
      → scan_step r c ≡ some c'
      → log ⊢ c.service ⟶ c'.service
  checks_tail : {s : Service} (tail : ℕ) (update : Bool) → log ⊢ s ⟶ (check_tail tail update s).1
  clears : {s : Service} → log ⊢ s ⟶ clear_caches s
  stops : {s : Service} → log ⊢ s ⟶ record s { stop = true }

infix 40 ◌⊢◌⟶*◌
pub data ◌⊢◌⟶*◌ (log : ℕ → Option CacheEntry) : Service → Service → Type 0 where
  here : {s : Service} → log ⊢ s ⟶* s
  and_then : {s t u : Service} → log ⊢ s ⟶ t → log ⊢ t ⟶* u → log ⊢ s ⟶* u

module _ (log : ℕ → Option CacheEntry) where
  check_tail-Cached :
      (tail : ℕ) (update : Bool) (s : Service)
      → Cached log s
      → Cached log (check_tail tail update s).1
  unfolding check_tail
  check_tail-Cached tail true s c = record {
    bounded = c.bounded;
    ascending = c.ascending;
    agrees = c.agrees;
  }
  check_tail-Cached tail false s c = c

  clear_caches-Cached : (s : Service) → Cached log s → Cached log (clear_caches s)
  unfolding clear_caches
  clear_caches-Cached s c = record { bounded = omega arith; ascending = tt; agrees = tt }

  step-Cached : {s s' : Service} → log ⊢ s ⟶ s' → Cached log s → Cached log s'
  step-Cached (reads {s = s} pos rs t q) c = (read_finish-Got log pos rs s t c q).1
  step-Cached (reads_image {s = s} pos rs t q) c = (read_after_image-Got log pos rs s t c q).1
  step-Cached (reads_batch {s = s} positions answers t q) c =
      read_intentions-Cached log positions answers s t c q
  step-Cached (appends {s = s} pos i e q l) c = append-Cached log pos i e s q l c
  step-Cached (scans k k' r t q) c = scan_step-Cached log r k t c q
  step-Cached (checks_tail {s = s} tail update) c = check_tail-Cached tail update s c
  step-Cached (clears {s = s}) c = clear_caches-Cached s c
  step-Cached (stops {s = s}) c = record {
    bounded = c.bounded;
    ascending = c.ascending;
    agrees = c.agrees;
  }

  steps-Cached : {s s' : Service} → log ⊢ s ⟶* s' → Cached log s → Cached log s'
  steps-Cached here c = c
  steps-Cached (and_then a b) c = steps-Cached b (step-Cached a c)

  -- In every state that the entry service can reach, by reads, batches of reads, appends of intentions
  -- that pass the checks of `Serialize`, scans of the log, checks of the tail, and resets of the cache
  -- in any order, where what the log returns at a position is what it holds there, and what it holds at
  -- the position of an append is the entry that was written, the cache has no more entries than
  -- its size, at ascending positions, and every entry is the one that the log holds at its position.
  pub new_service-Cached :
      (cache_size : ℕ) (s : Service) → log ⊢ new_service cache_size ⟶* s → Cached log s
  unfolding new_service
  new_service-Cached cache_size s r =
      steps-Cached r (record { bounded = omega arith; ascending = tt; agrees = tt })

  -- A read of the log that gets a result, with room in the cache for one more entry, returns what the
  -- log holds at the position, and keeps the cache within its size and in agreement with the log.
  pub read_finish_room :
      (pos : ℕ) (rs : List ReadResult) (s : Service) (e : CacheEntry)
      → All (Truthful log pos) rs
      → read_loop pos rs ≡ some e
      → Cached log s
      → length s.entry_cache < s.cache_size
      → Holds (Got log pos) (read_finish pos rs s)
  read_finish_room pos rs s e t h c l =
      let (x, f, u) = Holds-some (λ _. Unit {0}) (read_finish pos rs s) (finishes pos rs s e h l) in
      rw f (read_finish-Got log pos rs s t c f)

-- A read of the log that gets an entry, at a position below all that are cached and with a full cache,
-- puts it into the cache, erases it again in the collection that follows, and then uses the iterator to
-- it. It gets no result.
pub read_finish_evicted :
    (pos : ℕ) (rs : List ReadResult) (e : CacheEntry) (s : Service)
    → read_loop pos rs ≡ some e
    → length s.entry_cache ≡ s.cache_size
    → Above pos s.entry_cache
    → (find_key pos (emplace_key pos e s.entry_cache) ≡ some e)
      × (find_key pos (add_entry pos e s).entry_cache ≡ none)
      × ((add_entry pos e s).entry_cache ≡ s.entry_cache)
      × (read_finish pos rs s ≡ none)
unfolding read_finish add_entry
read_finish_evicted pos rs e s h l a =
    let gone = find_key-Above pos pos s.entry_cache (omega arith) a in
    let same = entry_cache_gc_lowest s.cache_size pos e s.entry_cache l a in
    (
      find_key-emplace_self pos e s.entry_cache gone,
      ap (find_key pos) same ∙ gone,
      same,
      rw (h, ◌>>=◌) (evicted pos e s l a),
    )
