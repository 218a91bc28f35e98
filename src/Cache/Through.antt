-- ===== src/Cache/Through.antt =====
-- src/db/node_cache.cc: `fetch` through the cache against the log.
use cruzdb.Prelude.{
  ℕ, suc, List, [], ◌∷◌, Option, none, some, ◌>>=◌, length, ◌+◌, ◌<◌, ◌≡◌, ◌≢◌, inl, inr, refl, sym,
  ◌∙◌, arith, Holds, Holds-some, >>=-eq-some, Option-cases, some_injective,
}
use cruzdb.Node.{NodeAddress}
use cruzdb.Image.Proto.{ProtoNode, AfterImage}
use cruzdb.Image.Read
use cruzdb.Image.Read.{LooseNode, deserialize_node, find_after_image_position}
use cruzdb.Cache.Shard.{Key}
use cruzdb.Cache.Store.{touch, insert, keep_node, update_lru}
use cruzdb.Cache.Consistent.{IsConsistent}
use cruzdb.Cache.Kept.{Absent, Looked, touch_lem, insert_lem, keep_node_lem, update_lru_lem}
use cruzdb.Cache.Fetch.{
  Cache, Moment, at_trace, at_node, at_second_look, at_third_look, byte_size, load_node, cache_from,
  cache_after_image, insert_fetched, look_again, fetch_missed, fetch,
}

module _ (std_hash : ℕ → ℕ) (sizeof_node : ℕ) (read_after_image : ℕ → Option AfterImage)
    (others : Moment → Cache → Cache) where
  -- The cache is sound for the log.
  abbrev pub IsLoyal : Cache → Type 0
  IsLoyal c = IsConsistent (byte_size sizeof_node) (load_node read_after_image) c

  abbrev Ld : Key → Option LooseNode
  Ld = load_node read_after_image

  abbrev Bs : LooseNode → ℕ
  Bs = byte_size sizeof_node

  -- The result of a lookup
  abbrev Got : LooseNode → LooseNode × Cache → Type 0
  Got n r = (r.0 ≡ n) × IsLoyal r.1

  module _ (loyal : (m : Moment) (c : Cache) → IsLoyal c → IsLoyal (others m c)) where
    -- The nodes of an image of the log can be read.
    abbrev Readable : AfterImage → ℕ → Type 0
    Readable image pos =
        (i : ℕ) → i < length image.tree → (n : LooseNode) × (deserialize_node image pos i ≡ some n)

    cache_from_lem :
        (image : AfterImage) (pos idx : ℕ) (ns : List ProtoNode) (last : Option (LooseNode × ℕ))
        (c : Cache)
        → read_after_image pos ≡ some image
        → Readable image pos
        → idx + length ns ≡ length image.tree
        → IsLoyal c
        → Holds (λ r. IsLoyal r.1) (cache_from std_hash sizeof_node others image pos idx ns last c)
    unfolding cache_from load_node
    cache_from_lem image pos idx [] last c e rd l h = h
    cache_from_lem image pos idx (n ∷ ns) last c e rd l h =
        let (nn, d) = rd idx (omega (arith, l)) in
        let loaded : Ld (pos, idx) ≡ some nn = rw e d in
        let (r, k, (h', _)) =
          Holds-some (λ r. IsLoyal r.1 × (Ld (pos, idx) ≡ some r.0))
            (keep_node std_hash Bs (pos, idx) nn (others (at_node idx) c))
            (keep_node_lem std_hash Bs Ld (pos, idx) nn (others (at_node idx) c)
              (loyal (at_node idx) c h) loaded) in
        rw (d, ◌>>=◌, k)
          (cache_from_lem image pos (suc idx) ns (some (r.0, idx)) r.1 e rd (omega (arith, l)) h')

    insert_fetched_lem :
        (key : Key) (nn : LooseNode) (c : Cache)
        → IsLoyal c
        → Ld key ≡ some nn
        → Holds (Got nn) (insert_fetched std_hash sizeof_node others key nn c)
    unfolding insert_fetched
    insert_fetched_lem key nn c h l =
        let (r, e, (h', found, absent)) =
          Holds-some (Looked std_hash Bs Ld key) (touch std_hash key c)
            (touch_lem std_hash Bs Ld key c h) in
        elim (Option-cases (r.0)) [
          | inr (n, f) ↦ rw (e, ◌>>=◌, f) (some_injective (sym (found n f) ∙ l), h')
          | inl f ↦
              let (c', i, (h'', _)) =
                Holds-some
                  (λ c'.
                    IsLoyal c'
                    × ((j : Key)
                        → j ≢ key
                        → Absent std_hash Bs Ld j r.1
                        → Absent std_hash Bs Ld j c'))
                  (insert std_hash Bs key nn r.1)
                  (insert_lem std_hash Bs Ld key nn r.1 h' l (absent f)) in
              rw (e, ◌>>=◌, f, i) (refl, h'')
        ]

    look_again_lem :
        (image : AfterImage) (key : Key) (nn : LooseNode) (c : Cache)
        → IsLoyal c
        → deserialize_node image key.0 key.1 ≡ some nn
        → Ld key ≡ some nn
        → Holds (Got nn) (look_again std_hash sizeof_node others image key c)
    unfolding look_again
    look_again_lem image key nn c h d l =
        let (r, e, (h', found, absent)) =
          Holds-some (Looked std_hash Bs Ld key) (touch std_hash key c)
            (touch_lem std_hash Bs Ld key c h) in
        elim (Option-cases (r.0)) [
          | inr (n, f) ↦ rw (e, ◌>>=◌, f) (some_injective (sym (found n f) ∙ l), h')
          | inl f ↦
              rw (e, ◌>>=◌, f, d)
                (insert_fetched_lem key nn (others at_third_look r.1) (loyal at_third_look r.1 h')
                  l)
        ]

    fetch_missed_lem :
        (trace : List NodeAddress) (key : Key) (image : AfterImage) (nn : LooseNode) (c : Cache)
        → IsLoyal c
        → read_after_image key.0 ≡ some image
        → Readable image key.0
        → deserialize_node image key.0 key.1 ≡ some nn
        → Holds (Got nn) (fetch_missed std_hash sizeof_node others read_after_image trace key c)
    unfolding fetch_missed cache_after_image load_node
    fetch_missed_lem trace key image nn c h e rd d =
        let c1 = update_lru trace (others at_trace c) in
        let (r, k, h') =
          Holds-some (λ r. IsLoyal r.1)
            (cache_from std_hash sizeof_node others image key.0 0 image.tree none c1)
            (cache_from_lem image key.0 0 image.tree none c1 e rd (omega arith)
              (update_lru_lem std_hash Bs Ld trace (others at_trace c) (loyal at_trace c h))) in
        rw (e, ◌>>=◌, k)
          (look_again_lem image key nn (others at_second_look r.1) (loyal at_second_look r.1 h') d
            (rw e d))

    -- A node that the log has at an address is what `fetch` returns, from the cache or from the log, and
    -- the cache stays consistent. No assertion fails. The cache is consistent before, the other threads
    -- keep it so whenever this one takes a lock, and the nodes of the images of the log can be read.
    pub fetch-fetch :
        (primary : ℕ → Option ℕ) (trace : List NodeAddress) (address : NodeAddress) (n : LooseNode)
        (c : Cache)
        → ((pos : ℕ) (image : AfterImage) → read_after_image pos ≡ some image → Readable image pos)
        → IsLoyal c
        → Read.fetch read_after_image primary address ≡ some n
        → Holds
            (λ r. (r.0 ≡ n) × IsConsistent (byte_size sizeof_node) (load_node read_after_image) r.1)
            (fetch std_hash sizeof_node others read_after_image primary trace address c)
    unfolding fetch Read.fetch load_node
    fetch-fetch primary trace address n c rd h g =
        let (p, ep, g1) =
          >>=-eq-some (find_after_image_position primary address)
            (λ p. read_after_image p >>= λ image. deserialize_node image p address.offset) g in
        let (image, ei, d) =
          >>=-eq-some (read_after_image p) (λ image. deserialize_node image p address.offset) g1 in
        let key : Key = (p, address.offset) in
        let (r, e, (h', found, absent)) =
          Holds-some (Looked std_hash Bs Ld key) (touch std_hash key c)
            (touch_lem std_hash Bs Ld key c h) in
        elim (Option-cases (r.0)) [
          | inr (m, f) ↦
              let l : Ld key ≡ some n = rw ei d in
              rw (ep, ◌>>=◌, e, f) (some_injective (sym (found m f) ∙ l), h')
          | inl f ↦
              rw (ep, ◌>>=◌, e, f) (fetch_missed_lem trace key image n r.1 h' ei (rd p image ei) d)
        ]
