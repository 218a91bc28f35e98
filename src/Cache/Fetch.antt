-- ===== src/Cache/Fetch.antt =====
-- src/db/node_cache.cc: `CacheAfterImage` and `fetch`. The cache is shared: what the other threads do
-- before this one takes a lock again is an argument, as are the log, the mapping of intentions to after
-- images, `std::hash` and the size of a node without its key and value.
use cruzdb.Prelude.{ℕ, suc, List, [], ◌∷◌, Option, none, some, ◌>>=◌, length, ◌+◌}
use cruzdb.Node.{NodeAddress}
use cruzdb.Image.Proto.{ProtoNode, AfterImage}
use cruzdb.Image.Read.{LooseNode, deserialize_node, find_after_image_position}
use cruzdb.Cache.Shard.{Key}
use cruzdb.Cache.Store.{NodeCache, touch, insert, keep_node, update_lru}

abbrev pub Cache : Type 0
Cache = NodeCache LooseNode

-- The moments at which `fetch` takes a lock.
pub data Moment : Type 0 where
  at_trace : Moment
  at_node : ℕ → Moment
  at_second_look : Moment
  at_third_look : Moment

-- `ByteSize`
unfoldable pub byte_size : ℕ → LooseNode → ℕ
byte_size sizeof_node n = sizeof_node + length n.key + length n.val

-- What is in the log under a key.
unfoldable pub load_node : (ℕ → Option AfterImage) → Key → Option LooseNode
load_node read_after_image key =
    read_after_image key.0 >>= λ image. deserialize_node image key.0 key.1

module _ (std_hash : ℕ → ℕ) (sizeof_node : ℕ) (others : Moment → Cache → Cache) where
  -- The loop of `CacheAfterImage` over the nodes that are left, from an index on; the last one is
  -- returned with its index.
  unfoldable pub cache_from :
      AfterImage
      → ℕ
      → ℕ
      → List ProtoNode
      → Option (LooseNode × ℕ)
      → Cache
      → Option (Option (LooseNode × ℕ) × Cache)
  cache_from image pos idx [] last c = some (last, c)
  cache_from image pos idx (n ∷ ns) last c = do
    nn ← deserialize_node image pos idx
    r ← keep_node std_hash (byte_size sizeof_node) (pos, idx) nn (others (at_node idx) c)
    cache_from image pos (suc idx) ns (some (r.0, idx)) r.1

  unfoldable pub cache_after_image :
      AfterImage → ℕ → Cache → Option (Option (LooseNode × ℕ) × Cache)
  cache_after_image image pos c = cache_from image pos 0 image.tree none c

  -- The third look, and the insertion
  unfoldable pub insert_fetched : Key → LooseNode → Cache → Option (LooseNode × Cache)
  insert_fetched key nn c = do
    r ← touch std_hash key c
    elim (r.0) [
      | some n ↦ some (n, r.1)
      | none ↦ insert std_hash (byte_size sizeof_node) key nn r.1 >>= λ c'. some (nn, c')
    ]

  -- The second look
  unfoldable pub look_again : AfterImage → Key → Cache → Option (LooseNode × Cache)
  look_again image key c = do
    r ← touch std_hash key c
    elim (r.0) [
      | some n ↦ some (n, r.1)
      | none ↦ deserialize_node image key.0 key.1 >>= λ nn.
          insert_fetched key nn (others at_third_look r.1)
    ]

  -- The node is not in the cache.
  unfoldable pub fetch_missed :
      (ℕ → Option AfterImage) → List NodeAddress → Key → Cache → Option (LooseNode × Cache)
  fetch_missed read_after_image trace key c = do
    image ← read_after_image (key.0)
    r ← cache_after_image image key.0 (update_lru trace (others at_trace c))
    look_again image key (others at_second_look r.1)

  unfoldable pub fetch :
      (ℕ → Option AfterImage)
      → (ℕ → Option ℕ)
      → List NodeAddress
      → NodeAddress
      → Cache
      → Option (LooseNode × Cache)
  fetch read_after_image primary trace address c = do
    afterimage ← find_after_image_position primary address
    r ← touch std_hash (afterimage, address.offset) c
    elim (r.0) [
      | some n ↦ some (n, r.1)
      | none ↦ fetch_missed read_after_image trace (afterimage, address.offset) r.1
    ]
