-- ===== src/Tests/Caches.antt =====
-- Runs of the node cache.
use cruzdb.Prelude.{
  inl, inr, le-or-lt, ◌==◌, if◌then◌else◌, sym, ℕ, zero, suc, true, false, [], ◌∷◌, Option, none,
  some, ◌<◌, ◌≡◌, refl, Holds, Holds-some, All, arith, length, some_injective,
}
use mathlib.Core.Path.{subst}
use cruzdb.Prelude.Int.{pos}
use cruzdb.Node.{NodeAddress}
use cruzdb.Image.Proto.{ProtoPtr, AfterImage}
use cruzdb.Image.Read
use cruzdb.Image.Read.{LooseNode, deserialize_node, deserialize_node_ptr, find_after_image_position}
use cruzdb.Cache.Shard.{Key, Shard, find_node, insert_node}
use cruzdb.Cache.Nodes.{bytes}
use cruzdb.Cache.Store.{
  NodeCache, wakes, empty_shard, new_shards, new_cache, touch, keep_node, vacuum_round, clear,
}
use cruzdb.Cache.Consistent.{total, Sound, More, IsConsistent, insert_node-Sound}
use cruzdb.Cache.Vacuum.{vacuum_round-frees, vacuum_round-idle, vacuum_round-traces}
use cruzdb.Cache.Kept.{keep_node_lem}
use cruzdb.Cache.Run.{start, kept, new_cache_lem, new_shards-Sound, Run-IsConsistent}
use cruzdb.Cache.Fetch.{Cache, Moment, byte_size, load_node, fetch}
use cruzdb.Entry.Service.{CacheEntry, after_image, filled}
use cruzdb.Cache.Primary.{IsOther, find_primary, find_primary-first}
use cruzdb.Cache.Through.{fetch-fetch}

program : Unit {0}
unfolding find_node insert_node bytes new_shards total deserialize_node deserialize_node_ptr
    find_after_image_position Read.fetch
program = tt

-- Nodes that are their sizes: one of 100 bytes.
abbrev hash : ℕ → ℕ
hash n = n

abbrev byte_count : ℕ → ℕ
byte_count n = n

abbrev log : Key → Option ℕ
log k = some 100

abbrev key : Key
key = (3, 0)

empty-Sound : Sound byte_count log empty_shard
unfolding new_shards
empty-Sound = (new_shards-Sound hash byte_count log 0 1).0

full_shard :
    (sh : Shard ℕ) × (insert_node key 100 empty_shard ≡ some sh)
    × More byte_count log key 100 empty_shard sh
unfolding find_node
full_shard =
    Holds-some (More byte_count log key 100 empty_shard) (insert_node key 100 empty_shard)
      (insert_node-Sound byte_count log key 100 empty_shard empty-Sound refl refl)

-- All of the cache is in its first shard, and a trace is pending.
abbrev cache : NodeCache ℕ
cache = record {
  shards = full_shard.0 ∷ new_shards 7;
  used_bytes = 100;
  traces = (record { position = 3; offset = 0; is_afterimage = true } ∷ []) ∷ [];
  stop = false;
}

cache_total : total byte_count log cache.shards ≡ 100
unfolding total bytes new_shards
cache_total = let b = (full_shard.2).1 in omega (arith, b)

cache-IsConsistent : IsConsistent byte_count log cache
unfolding new_shards
cache-IsConsistent = record {
  count = refl;
  sound = ((full_shard.2).0, new_shards-Sound hash byte_count log 0 7);
  counted = omega (arith, cache_total);
}

vacuum_round-frees_example :
    Holds (λ c'. c'.used_bytes < 100) (vacuum_round byte_count hash 20 cache)
vacuum_round-frees_example =
    vacuum_round-frees byte_count log hash 20 cache cache-IsConsistent (omega (arith, cache_total))
      (omega arith)

vacuum_round-idle_example :
    (vacuum_round byte_count hash 95 cache ≡ some cache) × (wakes 95 cache ≡ true)
vacuum_round-idle_example =
    vacuum_round-idle byte_count log hash 95 cache (omega arith) (omega arith)

vacuum_round-traces_example :
    Holds
      (λ c'. (c'.traces ≡ cache.traces) × (wakes 200 c' ≡ true))
      (vacuum_round byte_count hash 200 cache)
vacuum_round-traces_example =
    vacuum_round-traces byte_count log hash 200 cache cache-IsConsistent refl

-- A node is put into a new cache.
one_node :
    (r : ℕ × NodeCache ℕ) × (keep_node hash byte_count key 100 new_cache ≡ some r)
    × (IsConsistent byte_count log r.1 × (log key ≡ some r.0))
one_node =
    Holds-some (λ r. IsConsistent byte_count log r.1 × (log key ≡ some r.0))
      (keep_node hash byte_count key 100 new_cache)
      (keep_node_lem hash byte_count log key 100 new_cache (new_cache_lem hash byte_count log 0)
        refl)

Run-IsConsistent_example :
    let c = (one_node.0).1 in
    IsConsistent byte_count log c
    × ((k : Key) → Holds (λ r. IsConsistent byte_count log r.1) (touch hash k c))
    × Holds (IsConsistent byte_count log) (vacuum_round byte_count hash 20 c)
    × Holds
        (λ c'. All (λ sh. sh.nodes ≡ []) c'.shards × (c'.used_bytes ≡ 0) × (c'.traces ≡ []))
        (clear byte_count c)
Run-IsConsistent_example =
    Run-IsConsistent hash byte_count log 20 ((one_node.0).1)
      (kept key 100 (one_node.0).0 start refl (one_node.1))

-- Every position of this log has the same after image, of one node.
abbrev no_child : ProtoPtr
no_child = record { is_nil = true; self = false; intention = none; afterimage = none; off = none }

abbrev image : AfterImage
image = record {
  intention = 2;
  tree = record { red = false; key = 7 ∷ []; val = 8 ∷ []; left = no_child; right = no_child } ∷ [];
}

abbrev loose : LooseNode
loose = record { red = false; rid = pos 2; key = 7 ∷ []; val = 8 ∷ []; left = none; right = none }

abbrev image_at : ℕ → Option AfterImage
image_at p = some image

readable : (p i : ℕ) → i < 1 → (n : LooseNode) × (deserialize_node image p i ≡ some n)
unfolding deserialize_node deserialize_node_ptr
readable p zero l = (loose, refl)
readable p (suc i) l = absurd (omega arith)

abbrev address : NodeAddress
address = record { position = 3; offset = 0; is_afterimage = true }

abbrev alone : Moment → Cache → Cache
alone m c = c

fetched : Read.fetch image_at (λ p. none) address ≡ some loose
unfolding Read.fetch find_after_image_position deserialize_node deserialize_node_ptr
fetched = refl

fetch-fetch_example :
    Holds
      (λ r. (r.0 ≡ loose) × IsConsistent (byte_size 64) (load_node image_at) r.1)
      (fetch hash 64 alone image_at (λ p. none) [] address new_cache)
fetch-fetch_example =
    fetch-fetch hash 64 image_at alone (λ m c h. h) (λ p. none) [] address loose new_cache
      (λ p im e.
        subst
          (λ z. (i : ℕ) → i < length z.tree → (n : LooseNode) × (deserialize_node z p i ≡ some n))
          (some_injective e) (readable p))
      (new_cache_lem hash (byte_size 64) (load_node image_at) 0) fetched

-- The log has an intention at 2, whose after image comes at 5, after one of another intention.
abbrev other_image : AfterImage
other_image = record { intention = 1; tree = [] }

abbrev entry_at : ℕ → CacheEntry
entry_at q =
    if q == 5 then after_image image else if q == 4 then after_image other_image else filled

abbrev read_entry : ℕ → Option CacheEntry
read_entry q = some (entry_at q)

others : (q : ℕ) → 2 < q → q < 5 → IsOther 2 (read_entry q)
others q lo hi = elim (le-or-lt q 3) [
  | inl l ↦ let e : q ≡ 3 = omega arith in subst (λ z. IsOther 2 (read_entry z)) (sym e) tt
  | inr l ↦
      let e : q ≡ 4 = omega arith in
      subst (λ z. IsOther 2 (read_entry z)) (sym e) (λ f. omega (arith, f))
]

find_primary-first_example : find_primary 4 (λ i. none) read_entry 2 ≡ some 5
find_primary-first_example =
    find_primary-first read_entry 2 5 image (omega arith) refl refl (λ i. none) 4 refl (omega arith)
      (omega arith) others
