-- ===== src/Entry/Steps.antt =====
-- src/db/entry_service.cc: what every operation keeps of the cache, in any order of the threads' steps.
use cruzdb.Prelude.{
  ℕ, List, [], ◌∷◌, Option, some, ◌≡◌, ap, ◌∙◌, ◌≤◌, length, All, >>=-eq-some, some_injective,
}
use mathlib.Core.Path.{subst}
use cruzdb.Prelude.Map.{find_key, emplace_key}
use cruzdb.Image.Proto.{AfterImage}
use cruzdb.Entry.Service.{
  CacheEntry, after_image, filled, log_intention, log_after_image, ReadResult, ok, enodata, enoent,
  failed, Service, cache_entry, add_entry, add_and_get, read_loop, read_finish, after_image_loop,
}
use cruzdb.Entry.Cache.{
  Ascending, emplace_key-Ascending, length-entry_cache_gc, entry_cache_gc-All,
  entry_cache_gc-Ascending, emplace_key-All, find_key-All,
}

-- The log: what each position holds in the end, where something has been written to it.
module _ (log : ℕ → Option CacheEntry) where
  -- A result that zlog may return for a position.
  abbrev pub Truthful : ℕ → ReadResult → Type 0
  Truthful pos (ok e) = log pos ≡ some (cache_entry pos e)
  Truthful pos enodata = log pos ≡ some filled
  Truthful pos enoent = Unit
  Truthful pos failed = Unit

  abbrev pub Agrees : ℕ × CacheEntry → Type 0
  Agrees e = log e.0 ≡ some e.1

  pub record Cached (s : Service) : Type 0 where
    pub bounded : length s.entry_cache ≤ s.cache_size
    pub ascending : Ascending s.entry_cache
    pub agrees : All Agrees s.entry_cache

  pub add_entry-Cached :
      (pos : ℕ) (e : CacheEntry) (s : Service)
      → log pos ≡ some e
      → Cached s
      → Cached (add_entry pos e s)
  unfolding add_entry
  add_entry-Cached pos e s h c =
      let es = emplace_key pos e s.entry_cache in
      record {
        bounded = length-entry_cache_gc s.cache_size es;
        ascending =
            entry_cache_gc-Ascending s.cache_size es
              (emplace_key-Ascending pos e s.entry_cache c.ascending);
        agrees =
            entry_cache_gc-All Agrees s.cache_size es
              (emplace_key-All Agrees pos e s.entry_cache h c.agrees);
      }

  -- What a call gives, and leaves.
  abbrev pub Got : ℕ → CacheEntry × Service → Type 0
  Got pos r = (log pos ≡ some r.0) × Cached r.1

  pub add_and_get-Got :
      (pos : ℕ) (e : CacheEntry) (s : Service) {r : CacheEntry × Service}
      → log pos ≡ some e
      → Cached s
      → add_and_get pos e s ≡ some r
      → Got pos r
  unfolding add_and_get
  add_and_get-Got pos e s h c q =
      let k = add_entry-Cached pos e s h c in
      let (x, f, g) = >>=-eq-some (find_key pos (add_entry pos e s).entry_cache) _ q in
      subst (Got pos) (some_injective g)
        (find_key-All Agrees pos (add_entry pos e s).entry_cache k.agrees f, k)

  pub read_loop-log :
      (pos : ℕ) (rs : List ReadResult) {e : CacheEntry}
      → All (Truthful pos) rs
      → read_loop pos rs ≡ some e
      → log pos ≡ some e
  unfolding read_loop
  read_loop-log pos [] t h = cc
  read_loop-log pos (ok e ∷ rs) t h = t.0 ∙ h
  read_loop-log pos (enodata ∷ rs) t h = t.0 ∙ h
  read_loop-log pos (enoent ∷ rs) t h = read_loop-log pos rs t.1 h
  read_loop-log pos (failed ∷ rs) t h = cc

  pub read_finish-Got :
      (pos : ℕ) (rs : List ReadResult) (s : Service) {r : CacheEntry × Service}
      → All (Truthful pos) rs
      → Cached s
      → read_finish pos rs s ≡ some r
      → Got pos r
  unfolding read_finish
  read_finish-Got pos rs s t c q =
      let (e, f, g) = >>=-eq-some (read_loop pos rs) _ q in
      add_and_get-Got pos e s (read_loop-log pos rs t f) c g

  pub after_image_loop-log :
      (pos : ℕ) (rs : List ReadResult) {a : AfterImage}
      → All (Truthful pos) rs
      → after_image_loop rs ≡ some a
      → log pos ≡ some (after_image a)
  unfolding after_image_loop
  after_image_loop-log pos [] t h = cc
  after_image_loop-log pos (ok (log_intention i) ∷ rs) t h = cc
  after_image_loop-log pos (ok (log_after_image a) ∷ rs) t h =
      t.0 ∙ ap (λ x. some (after_image x)) (some_injective h)
  after_image_loop-log pos (enodata ∷ rs) t h = cc
  after_image_loop-log pos (enoent ∷ rs) t h = after_image_loop-log pos rs t.1 h
  after_image_loop-log pos (failed ∷ rs) t h = after_image_loop-log pos rs t.1 h
