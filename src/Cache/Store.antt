-- ===== src/Cache/Store.antt =====
-- src/db/node_cache.{h,cc}: the cache of eight shards, and its operations. Each takes one lock at a
-- time. `std::hash` is an argument; the mapping of intentions to after images is the caller's.
use Prim.Native.Nat.{◌*◌, ◌/◌, bit_xor}
use cruzdb.Prelude.{
  ℕ, zero, suc, Bool, true, false, not, ◌||◌, List, [], ◌∷◌, Option, none, some, ◌>>=◌, ltb, ◌+◌,
  ◌-◌, ◌%◌, ◌^◌, get_elem?, length, if◌then◌else◌,
}
use cruzdb.Node.{NodeAddress}
use cruzdb.Cache.Shard.{Key, Shard, find_node, look_up, insert_node, evict, clear_shard, add_size}

-- `cond_`, the locks and the statistics leave no trace.
pub record NodeCache (N : Type 0) : Type 0 where
  pub shards : List (Shard N)
  pub used_bytes : ℕ
  pub traces : List (List NodeAddress)
  pub stop : Bool

abbrev pub num_slots : ℕ
num_slots = 8

-- `hash_combine` of a 64-bit seed
unfoldable pub hash_combine : ℕ → ℕ → ℕ
hash_combine seed h =
    bit_xor seed ((h + 2654435769 + seed * 2 ^ 6 % 2 ^ 64 + seed / 2 ^ 2) % 2 ^ 64)

-- `pair_hash`; the hashes of the parts are hashed again.
unfoldable pub pair_hash : (ℕ → ℕ) → Key → ℕ
pair_hash std_hash p =
    hash_combine (hash_combine 0 (std_hash (std_hash p.0))) (std_hash (std_hash p.1))

unfoldable pub slot_of : (ℕ → ℕ) → Key → ℕ
slot_of std_hash key = pair_hash std_hash key % num_slots

abbrev pub no_traces : List (List NodeAddress) → Bool
no_traces [] = true
no_traces (t ∷ ts) = false

module _ {A : Type 0} where
  unfoldable pub set_elem : ℕ → A → List A → List A
  set_elem i a [] = []
  set_elem zero a (x ∷ xs) = a ∷ xs
  set_elem (suc i) a (x ∷ xs) = x ∷ set_elem i a xs

module _ {N : Type 0} where
  abbrev pub empty_shard : Shard N
  empty_shard = record { nodes = []; lru = []; fresh = 0 }

  unfoldable pub new_shards : ℕ → List (Shard N)
  new_shards zero = []
  new_shards (suc n) = empty_shard ∷ new_shards n

  unfoldable pub new_cache : NodeCache N
  new_cache = record { shards = new_shards num_slots; used_bytes = 0; traces = []; stop = false }

  -- The wait predicate of `do_vaccum_`
  unfoldable pub wakes : ℕ → NodeCache N → Bool
  wakes cache_size c = not (no_traces c.traces) || ltb cache_size c.used_bytes || c.stop

  -- `UpdateLRU`, and the same in `fetch`
  unfoldable pub update_lru : List NodeAddress → NodeCache N → NodeCache N
  update_lru [] c = c
  update_lru (a ∷ more) c = record c { traces = (a ∷ more) ∷ c.traces }

  module _ (std_hash : ℕ → ℕ) where
    -- A look into the shard of the key
    unfoldable pub touch : Key → NodeCache N → Option (Option N × NodeCache N)
    touch key c = do
      sh ← get_elem? c.shards (slot_of std_hash key)
      let r = look_up key sh
      some (r.0, record c { shards = set_elem (slot_of std_hash key) r.1 c.shards })

    unfoldable pub insert : (N → ℕ) → Key → N → NodeCache N → Option (NodeCache N)
    insert byte_size key node c = do
      sh ← get_elem? c.shards (slot_of std_hash key)
      sh' ← insert_node key node sh
      some (record c {
        shards = set_elem (slot_of std_hash key) sh' c.shards;
        used_bytes = add_size c.used_bytes (byte_size node);
      })

    -- The node of the cache where there is one, else the new node.
    unfoldable pub keep_node : (N → ℕ) → Key → N → NodeCache N → Option (N × NodeCache N)
    keep_node byte_size key node c = do
      sh ← get_elem? c.shards (slot_of std_hash key)
      elim (find_node key sh.nodes) [
        | some e ↦ some (e.node, c)
        | none ↦ insert byte_size key node c >>= λ c'. some (node, c')
      ]

    -- The last node, and its offset
    unfoldable pub last_from : ℕ → List N → Option (N × ℕ)
    last_from offset [] = none
    last_from offset (n ∷ []) = some (n, offset)
    last_from offset (n ∷ m ∷ ns) = last_from (suc offset) (m ∷ ns)

    -- The loop of `ApplyAfterImageDelta`, from an offset on
    unfoldable pub apply_from : (N → ℕ) → ℕ → ℕ → List N → NodeCache N → Option (NodeCache N)
    apply_from byte_size pos offset [] c = some c
    apply_from byte_size pos offset (n ∷ ns) c =
        insert byte_size (pos, offset) n c >>= apply_from byte_size pos (suc offset) ns

    unfoldable pub apply_after_image_delta :
        (N → ℕ) → List N → ℕ → NodeCache N → Option (Option (N × ℕ) × NodeCache N)
    apply_after_image_delta byte_size delta pos c =
        apply_from byte_size pos 0 delta c >>= λ c'. some (last_from 0 delta, c')

    -- The updates of a trace
    unfoldable pub apply_trace : List NodeAddress → NodeCache N → Option (NodeCache N)
    apply_trace [] c = some c
    apply_trace (a ∷ more) c = touch (a.position, a.offset) c >>= λ r. apply_trace more r.1

    unfoldable pub apply_traces : List (List NodeAddress) → NodeCache N → Option (NodeCache N)
    apply_traces [] c = some c
    apply_traces (t ∷ ts) c = apply_trace t c >>= apply_traces ts

  module _ (byte_size : N → ℕ) where
    -- The shards in turn give up what is over.
    unfoldable pub evict_shards : ℕ → ℕ → List (Shard N) → Option (ℕ × List (Shard N))
    evict_shards target_bytes used_bytes [] = some (used_bytes, [])
    evict_shards target_bytes used_bytes (sh ∷ shs) = do
      r ← evict byte_size (suc (length sh.nodes)) target_bytes used_bytes sh
      rs ← evict_shards target_bytes r.0 shs
      some (rs.0, r.1 ∷ rs.1)

    unfoldable pub shrink : ℕ → NodeCache N → Option (NodeCache N)
    shrink cache_size c =
        let less =
          evict_shards ((c.used_bytes - cache_size) / num_slots) c.used_bytes c.shards >>= λ r.
          some (record c { shards = r.1; used_bytes = r.0 }) in
        if ltb cache_size c.used_bytes then less else some c

    -- A round of `do_vaccum_` that does not stop. The pending traces are swapped with themselves, so
    -- that the list which the round works on stays empty.
    unfoldable pub vacuum_round : (ℕ → ℕ) → ℕ → NodeCache N → Option (NodeCache N)
    vacuum_round std_hash cache_size c = apply_traces std_hash [] c >>= shrink cache_size

    unfoldable pub clear_shards : ℕ → List (Shard N) → Option (ℕ × List (Shard N))
    clear_shards used_bytes [] = some (used_bytes, [])
    clear_shards used_bytes (sh ∷ shs) = do
      r ← clear_shard byte_size (suc (length sh.nodes)) used_bytes sh
      rs ← clear_shards r.0 shs
      some (rs.0, r.1 ∷ rs.1)

    -- `Clear`
    unfoldable pub clear : NodeCache N → Option (NodeCache N)
    clear c = clear_shards c.used_bytes c.shards >>= λ r.
        some (record c { shards = r.1; used_bytes = r.0; traces = [] })
