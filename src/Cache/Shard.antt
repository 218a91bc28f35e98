-- ===== src/Cache/Shard.antt =====
-- src/db/node_cache.h: a shard of the cache, a map with the list of recent use, and what the cache does
-- under the lock of one shard.
use cruzdb.Prelude.{
  ℕ, zero, suc, Bool, true, false, not, ◌&&◌, List, [], ◌∷◌, Option, none, some, ◌>>=◌, ◌>>◌,
  assert, ◌==◌, ltb, ◌+◌, ◌-◌, ◌%◌, ◌^◌, if◌then◌else◌,
}
use cruzdb.Prelude.Map.{erase_key}
use cruzdb.Txn.Intention.{is_none}

-- The position of an after image, and the offset in it.
abbrev pub Key : Type 0
Key = ℕ × ℕ

abbrev pub same_key : Key → Key → Bool
same_key a b = (a.0 == b.0) && (a.1 == b.1)

-- `entry`; the iterator is the number of its element in the list.
pub record Slot (N : Type 0) : Type 0 where
  pub node : N
  pub lru_iter : ℕ

-- `shard`. An element of the list keeps its number while it is moved about, as an iterator of
-- `std::list` stays valid; `fresh` is the number of the next one.
pub record Shard (N : Type 0) : Type 0 where
  pub nodes : List (Key × Slot N)
  pub lru : List (ℕ × Key)
  pub fresh : ℕ

-- The arithmetic of `size_t`
unfoldable pub add_size : ℕ → ℕ → ℕ
add_size a b = (a + b) % 2 ^ 64

unfoldable pub sub_size : ℕ → ℕ → ℕ
sub_size a b = (a + (2 ^ 64 - b % 2 ^ 64)) % 2 ^ 64

-- `back` and `pop_back`
unfoldable pub back : List (ℕ × Key) → Option (ℕ × Key)
back [] = none
back (c ∷ []) = some c
back (c ∷ d ∷ cs) = back (d ∷ cs)

unfoldable pub pop_back : List (ℕ × Key) → List (ℕ × Key)
pop_back [] = []
pop_back (c ∷ []) = []
pop_back (c ∷ d ∷ cs) = c ∷ pop_back (d ∷ cs)

module _ {N : Type 0} where
  -- `find`, `erase` and the assignment to what an iterator of the map refers to
  unfoldable pub find_node : Key → List (Key × Slot N) → Option (Slot N)
  find_node k [] = none
  find_node k (x ∷ xs) = let rest = find_node k xs in if same_key k x.0 then some x.1 else rest

  unfoldable pub erase_node : Key → List (Key × Slot N) → List (Key × Slot N)
  erase_node k [] = []
  erase_node k (x ∷ xs) = let rest = erase_node k xs in if same_key k x.0 then xs else x ∷ rest

  unfoldable pub set_node : Key → Slot N → List (Key × Slot N) → List (Key × Slot N)
  set_node k e [] = []
  set_node k e (x ∷ xs) =
      let rest = set_node k e xs in if same_key k x.0 then (k, e) ∷ xs else x ∷ rest

  -- The element of the key moves to the front.
  unfoldable pub move_front : Key → Slot N → Shard N → Shard N
  move_front key e sh = record {
    nodes = set_node key (record { node = e.node; lru_iter = sh.fresh }) sh.nodes;
    lru = (sh.fresh, key) ∷ erase_key e.lru_iter sh.lru;
    fresh = suc sh.fresh;
  }

  -- A node that is found becomes the one that was used last.
  unfoldable pub look_up : Key → Shard N → Option N × Shard N
  look_up key sh = elim (find_node key sh.nodes) [
    | none ↦ (none, sh)
    | some e ↦ (some e.node, move_front key e sh)
  ]

  -- The node must be new.
  unfoldable pub insert_node : Key → N → Shard N → Option (Shard N)
  insert_node key node sh = do
    assert (is_none (find_node key sh.nodes))
    some (record {
      nodes = (key, record { node = node; lru_iter = sh.fresh }) ∷ sh.nodes;
      lru = (sh.fresh, key) ∷ sh.lru;
      fresh = suc sh.fresh;
    })

  abbrev pub is_vacant : List (Key × Slot N) → Bool
  is_vacant [] = true
  is_vacant (x ∷ xs) = false

  -- The node that was used least recently is dropped. Its size is returned.
  unfoldable pub evict_node : (N → ℕ) → Shard N → Option (ℕ × Shard N)
  evict_node byte_size sh = do
    last ← back sh.lru
    e ← find_node last.1 sh.nodes
    let nodes = erase_node last.1 sh.nodes
    some (byte_size e.node, record sh { nodes = nodes; lru = pop_back sh.lru })

  -- The loop, on fuel. What is left to free is tested against 0 only, so that it may stop there.
  unfoldable pub evict : (N → ℕ) → ℕ → ℕ → ℕ → Shard N → Option (ℕ × Shard N)
  evict byte_size zero left used_bytes sh = none
  evict byte_size (suc fuel) left used_bytes sh =
      let rest = evict_node byte_size sh >>= λ r.
      evict byte_size fuel (left - r.0) (sub_size used_bytes r.0) r.1 in
      if ltb 0 left && not (is_vacant sh.nodes) then rest else some (used_bytes, sh)

  -- The loop of `Clear`, on fuel
  unfoldable pub clear_shard : (N → ℕ) → ℕ → ℕ → Shard N → Option (ℕ × Shard N)
  clear_shard byte_size zero used_bytes sh = none
  clear_shard byte_size (suc fuel) used_bytes sh =
      let rest =
        evict_node byte_size sh >>= λ r. clear_shard byte_size fuel (sub_size used_bytes r.0) r.1 in
      if is_vacant sh.nodes then some (used_bytes, sh) else rest
