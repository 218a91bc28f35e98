-- ===== src/Entry/Scanner.antt =====
-- src/db/entry_service.cc: `IOEntry`, the thread that reads the log in order, and the iterators.
use cruzdb.Prelude.{
  ℕ, zero, suc, Option, none, some, ◌>>=◌, ◌>>◌, assert, ltb, leb, if◌then◌else◌, ◌+◌, ◌-◌, ◌%◌,
  ◌^◌,
}
use cruzdb.Prelude.Map.{find_key}
use cruzdb.Txn.Intention.{Intention}
use cruzdb.Image.Proto.{AfterImage}
use cruzdb.Entry.Matcher.{Matcher, push}
use cruzdb.Entry.Service.{
  CacheEntry, intention, after_image, LogEntry, log_intention, log_after_image, ReadResult, ok,
  enodata, enoent, failed, Service, cache_entry, add_entry, max,
}

-- The thread: the next position to read, and the tail it last saw, with what it shares.
pub record Scanner : Type 0 where
  pub next : ℕ
  pub tail : ℕ
  pub service : Service
  pub ai_matcher : Matcher

-- An after image goes to the matcher as well.
abbrev pub push_image : LogEntry → ℕ → Matcher → Option Matcher
push_image (log_after_image a) pos m = push a.intention pos m
push_image (log_intention i) pos m = some m

-- What a turn of the inner loop makes of the result of the log, at a position that is not cached.
-- On `-ENODATA` the inner loop is left, and on `-ENOENT` it goes on; in both cases at the same position.
unfoldable pub scan_result : ReadResult → Scanner → Option Scanner
scan_result enoent c = some c
scan_result enodata c = some c
scan_result failed c = none
scan_result (ok e) c = do
  m ← push_image e c.next c.ai_matcher
  let s = add_entry c.next (cache_entry c.next e) c.service
  some (record {
    next = suc c.next;
    tail = c.tail;
    service = record s { max_pos = max s.max_pos c.next };
    ai_matcher = m;
  })

-- A turn of the inner loop, `next < tail`.
unfoldable pub scan_step : ReadResult → Scanner → Option Scanner
scan_step r c = elim (find_key c.next c.service.entry_cache) [
  | some e ↦ some (record c { next = suc c.next })
  | none ↦ scan_result r c
]

-- A turn of the outer loop, up to the inner one: a new tail.
unfoldable pub scan_tail : ℕ → Scanner → Option Scanner
scan_tail tail c = assert (leb c.next tail) >> some (record c { tail = tail })

-- The thread at work on a log: `answer` is what the log returns, and the tail does not move.
unfoldable pub scan : ℕ → (ℕ → ReadResult) → Scanner → Option Scanner
scan zero answer c = some c
scan (suc n) answer c =
    if ltb c.next c.tail then scan_step (answer c.next) c >>= scan n answer else some c

-- `ForwardIterator::advance` and `ReverseIterator::advance`: the position read, and the one kept.
unfoldable pub advance_forward : ℕ → ℕ × ℕ
advance_forward pos = (pos, (pos + 1) % 2 ^ 64)

unfoldable pub advance_reverse : ℕ → ℕ × ℕ
advance_reverse pos = (pos, (pos + (2 ^ 64 - 1)) % 2 ^ 64)

-- `IntentionIterator::Next` over what `Read` returns; `none` within is a read that was given up. The
-- loop takes fuel.
unfoldable pub next_intention : ℕ → (ℕ → Option CacheEntry) → ℕ → Option (Option Intention × ℕ)
next_intention zero read pos = none
next_intention (suc fuel) read pos =
    let (at, pos') = advance_forward pos in
    elim (read at) [
      | none ↦ some (none, pos')
      | some (intention i) ↦ some (some i, pos')
      | some _ ↦ next_intention fuel read pos'
    ]

-- `AfterImageIterator::Next`
unfoldable pub next_after_image :
    ℕ → (ℕ → Option CacheEntry) → ℕ → Option (Option (ℕ × AfterImage) × ℕ)
next_after_image zero read pos = none
next_after_image (suc fuel) read pos =
    let (at, pos') = advance_forward pos in
    elim (read at) [
      | none ↦ some (none, pos')
      | some (after_image a) ↦ some (some (at, a), pos')
      | some _ ↦ next_after_image fuel read pos'
    ]
