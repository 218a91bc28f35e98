-- ===== src/Cache/Run.antt =====
-- src/db/node_cache.{h,cc}: the states of the cache that its operations reach.
use cruzdb.Prelude.{ℕ, zero, suc, List, [], Option, some, ◌≡◌, refl, Holds, Holds-imp, All}
use mathlib.Core.Path.{subst}
use cruzdb.Prelude.Map.{find_key}
use cruzdb.Node.{NodeAddress}
use cruzdb.Cache.Shard.{Key, find_node}
use cruzdb.Cache.Nodes.{bytes}
use cruzdb.Cache.Store.{
  NodeCache, num_slots, new_shards, new_cache, touch, insert, keep_node, update_lru,
  apply_after_image_delta, vacuum_round, clear,
}
use cruzdb.Cache.Consistent.{total, Sound, IsConsistent}
use cruzdb.Cache.Kept.{
  Absent, Looked, IsNew, touch_lem, insert_lem, keep_node_lem, apply_after_image_delta_lem,
  update_lru_lem,
}
use cruzdb.Cache.Vacuum.{vacuum_round_lem, clear_lem}

module _ {N : Type 0} (std_hash : ℕ → ℕ) (byte_size : N → ℕ) (load : Key → Option N)
    (cache_size : ℕ) where
  -- The states. A node that is put into the cache is what the log has under its key.
  pub data Run : NodeCache N → Type 0 where
    start : Run new_cache
    looked :
        (key : Key) (n : Option N) {c c' : NodeCache N}
        → Run c
        → touch std_hash key c ≡ some (n, c')
        → Run c'
    inserted :
        (key : Key) (node : N) {c c' : NodeCache N}
        → Run c
        → load key ≡ some node
        → Absent std_hash byte_size load key c
        → insert std_hash byte_size key node c ≡ some c'
        → Run c'
    kept :
        (key : Key) (node n : N) {c c' : NodeCache N}
        → Run c
        → load key ≡ some node
        → keep_node std_hash byte_size key node c ≡ some (n, c')
        → Run c'
    applied :
        (delta : List N) (pos : ℕ) (root : Option (N × ℕ)) {c c' : NodeCache N}
        → Run c
        → IsNew std_hash byte_size load pos 0 delta c
        → apply_after_image_delta std_hash byte_size delta pos c ≡ some (root, c')
        → Run c'
    handed_over :
        (trace : List NodeAddress) {c c' : NodeCache N} → Run c → update_lru trace c ≡ c' → Run c'
    shrunk :
        {c c' : NodeCache N}
        → Run c
        → vacuum_round byte_size std_hash cache_size c ≡ some c'
        → Run c'
    cleared : {c c' : NodeCache N} → Run c → clear byte_size c ≡ some c' → Run c'

  pub new_shards-Sound : (n : ℕ) → All (Sound byte_size load) (new_shards n)
  unfolding new_shards find_node find_key
  new_shards-Sound zero = tt
  new_shards-Sound (suc n) = (
    record {
      linked = record {
        falling = tt;
        distinct = tt;
        links = record { listed = λ i k f. cc; kept = λ k e f. cc };
      };
      coherent = λ k e f. cc;
    },
    new_shards-Sound n,
  )

  pub new_cache_lem : IsConsistent byte_size load new_cache
  unfolding new_cache new_shards total bytes
  new_cache_lem = record { count = refl; sound = new_shards-Sound num_slots; counted = refl }

  found : {A : Type 0} (P : A → Type 0) (m : Option A) (a : A) → Holds P m → m ≡ some a → P a
  found P m a h e = subst (Holds P) e h

  consistent_run : {c : NodeCache N} → Run c → IsConsistent byte_size load c
  consistent_run start = new_cache_lem
  consistent_run (looked key n {c = b} r e) =
      (found (Looked std_hash byte_size load key) (touch std_hash key b) (n, _)
        (touch_lem std_hash byte_size load key b (consistent_run r)) e).0
  consistent_run (inserted key node {c = b} {c' = c'} r l a e) =
      (found _ (insert std_hash byte_size key node b) c'
        (insert_lem std_hash byte_size load key node b (consistent_run r) l a) e).0
  consistent_run (kept key node n {c = b} r l e) =
      (found (λ q. IsConsistent byte_size load q.1 × (load key ≡ some q.0))
        (keep_node std_hash byte_size key node b) (n, _)
        (keep_node_lem std_hash byte_size load key node b (consistent_run r) l) e).0
  consistent_run (applied delta pos root {c = b} r new e) =
      found (λ q. IsConsistent byte_size load q.1)
        (apply_after_image_delta std_hash byte_size delta pos b) (root, _)
        (apply_after_image_delta_lem std_hash byte_size load delta pos b (consistent_run r) new) e
  consistent_run (handed_over trace {c = b} r e) =
      subst (IsConsistent byte_size load) e
        (update_lru_lem std_hash byte_size load trace b (consistent_run r))
  consistent_run (shrunk {c = b} {c' = c'} r e) =
      (found _ (vacuum_round byte_size std_hash cache_size b) c'
        (vacuum_round_lem byte_size load std_hash cache_size b (consistent_run r)) e).0
  consistent_run (cleared {c = b} {c' = c'} r e) =
      (found _ (clear byte_size b) c' (clear_lem byte_size load b (consistent_run r)) e).0

  -- In every state that the cache reaches, where each node that is put into it is what the log has
  -- under its key, there are eight shards, in each of them the map and the list of recent use have the
  -- same nodes and the iterators of the map point at their elements, every node is what the log has under
  -- its key, and the counter of bytes is the sum of the sizes modulo 2 ^ 64. A look into such a cache, a
  -- round of the vacuum thread and `Clear` meet no assertion that fails; after `Clear` no node, no byte
  -- and no trace is left.
  pub Run-IsConsistent :
      (c : NodeCache N)
      → Run c
      → IsConsistent byte_size load c
        × ((key : Key) → Holds (λ r. IsConsistent byte_size load r.1) (touch std_hash key c))
        × Holds (IsConsistent byte_size load) (vacuum_round byte_size std_hash cache_size c)
        × Holds
            (λ c'. All (λ sh. sh.nodes ≡ []) c'.shards × (c'.used_bytes ≡ 0) × (c'.traces ≡ []))
            (clear byte_size c)
  Run-IsConsistent c r =
      let h = consistent_run r in
      (
        h,
        (λ key.
            Holds-imp (Looked std_hash byte_size load key) (λ q. IsConsistent byte_size load q.1)
              (touch std_hash key c) (λ q x. x.0) (touch_lem std_hash byte_size load key c h)),
        Holds-imp _ (IsConsistent byte_size load) (vacuum_round byte_size std_hash cache_size c)
            (λ q x. x.0) (vacuum_round_lem byte_size load std_hash cache_size c h),
        Holds-imp _
            (λ c'. All (λ sh. sh.nodes ≡ []) c'.shards × (c'.used_bytes ≡ 0) × (c'.traces ≡ []))
            (clear byte_size c) (λ q x. (x.1, x.2, x.3)) (clear_lem byte_size load c h),
      )
