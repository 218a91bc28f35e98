-- ===== src/Cache/Nodes.antt =====
-- src/db/node_cache.h: facts about the map of a shard.
use cruzdb.Prelude.{
  ℕ, suc, length, true, false, List, [], ◌∷◌, none, some, ◌+◌, ◌≡◌, ◌≢◌, ◌↔◌, refl, arith,
}
use cruzdb.Cache.Shard.{Key, same_key, Slot, find_node, erase_node, set_node}

pub same_key_iff : (a b : Key) → (same_key a b ≡ true) ↔ (a ≡ b)
same_key_iff a b = ground arith

pub same_key_refl : (a : Key) → same_key a a ≡ true
same_key_refl a = ground arith

pub same_key_ne : (a b : Key) → a ≢ b → same_key a b ≡ false
same_key_ne a b n = ground (arith, same_key_iff a b)

module _ {N : Type 0} where
  -- No key stands twice.
  abbrev pub Distinct : List (Key × Slot N) → Type 0
  Distinct [] = Unit
  Distinct (x ∷ xs) = (find_node x.0 xs ≡ none) × Distinct xs

  pub find_node-erase_ne :
      (j k : Key) (xs : List (Key × Slot N))
      → j ≢ k
      → find_node j (erase_node k xs) ≡ find_node j xs
  unfolding find_node erase_node
  find_node-erase_ne j k [] n = refl
  find_node-erase_ne j k (x ∷ xs) n =
      ground (arith, find_node-erase_ne j k xs n, same_key_iff k x.0, same_key_ne j k)

  pub find_node-erase_self :
      (k : Key) (xs : List (Key × Slot N)) → Distinct xs → find_node k (erase_node k xs) ≡ none
  unfolding find_node erase_node
  find_node-erase_self k [] d = refl
  find_node-erase_self k (x ∷ xs) d =
      ground (arith, find_node-erase_self k xs d.1, same_key_iff k x.0)

  pub find_node-set_self :
      (k : Key) (e e' : Slot N) (xs : List (Key × Slot N))
      → find_node k xs ≡ some e'
      → find_node k (set_node k e xs) ≡ some e
  unfolding find_node set_node
  find_node-set_self k e e' [] h = cc
  find_node-set_self k e e' (x ∷ xs) h =
      ground (arith, find_node-set_self k e e' xs, same_key_refl k)

  pub find_node-set_ne :
      (j k : Key) (e : Slot N) (xs : List (Key × Slot N))
      → j ≢ k
      → find_node j (set_node k e xs) ≡ find_node j xs
  unfolding find_node set_node
  find_node-set_ne j k e [] n = refl
  find_node-set_ne j k e (x ∷ xs) n =
      ground (arith, find_node-set_ne j k e xs n, same_key_iff k x.0, same_key_ne j k)

  pub find_node-add_self :
      (k : Key) (e : Slot N) (xs : List (Key × Slot N)) → find_node k ((k, e) ∷ xs) ≡ some e
  unfolding find_node
  find_node-add_self k e xs = ground (arith, same_key_refl k)

  pub find_node-add_ne :
      (j k : Key) (e : Slot N) (xs : List (Key × Slot N))
      → j ≢ k
      → find_node j ((k, e) ∷ xs) ≡ find_node j xs
  unfolding find_node
  find_node-add_ne j k e xs n = ground (arith, same_key_ne j k n)

  erase-Distinct_absent :
      (j k : Key) (xs : List (Key × Slot N))
      → find_node j xs ≡ none
      → find_node j (erase_node k xs) ≡ none
  unfolding find_node erase_node
  erase-Distinct_absent j k [] h = refl
  erase-Distinct_absent j k (x ∷ xs) h = ground (arith, erase-Distinct_absent j k xs)

  pub erase_node-Distinct :
      (k : Key) (xs : List (Key × Slot N)) → Distinct xs → Distinct (erase_node k xs)
  unfolding erase_node
  erase_node-Distinct k [] d = tt
  erase_node-Distinct k (x ∷ xs) d =
      ground (arith, erase_node-Distinct k xs, erase-Distinct_absent x.0 k xs)

  set-Distinct_absent :
      (j k : Key) (e : Slot N) (xs : List (Key × Slot N))
      → find_node j xs ≡ none
      → find_node j (set_node k e xs) ≡ none
  unfolding find_node set_node
  set-Distinct_absent j k e [] h = refl
  set-Distinct_absent j k e (x ∷ xs) h =
      ground (arith, set-Distinct_absent j k e xs, same_key_iff k x.0)

  pub set_node-Distinct :
      (k : Key) (e : Slot N) (xs : List (Key × Slot N)) → Distinct xs → Distinct (set_node k e xs)
  unfolding set_node
  set_node-Distinct k e [] d = tt
  set_node-Distinct k e (x ∷ xs) d =
      ground (arith, set_node-Distinct k e xs, set-Distinct_absent x.0 k e xs, same_key_iff k x.0)

  module _ (byte_size : N → ℕ) where
    -- The sizes of the nodes together.
    unfoldable pub bytes : List (Key × Slot N) → ℕ
    bytes [] = 0
    bytes (x ∷ xs) = byte_size x.1.node + bytes xs

    pub bytes-erase :
        (k : Key) (e : Slot N) (xs : List (Key × Slot N))
        → find_node k xs ≡ some e
        → bytes xs ≡ byte_size e.node + bytes (erase_node k xs)
    unfolding bytes find_node erase_node
    bytes-erase k e [] h = cc
    bytes-erase k e (x ∷ xs) h = ground (arith, bytes-erase k e xs)

    pub bytes-set :
        (k : Key) (e e' : Slot N) (xs : List (Key × Slot N))
        → find_node k xs ≡ some e'
        → e.node ≡ e'.node
        → bytes (set_node k e xs) ≡ bytes xs
    unfolding bytes find_node set_node
    bytes-set k e e' [] h g = cc
    bytes-set k e e' (x ∷ xs) h g = ground (arith, bytes-set k e e' xs)

  pub length-erase_node :
      (k : Key) (e : Slot N) (xs : List (Key × Slot N))
      → find_node k xs ≡ some e
      → length xs ≡ suc (length (erase_node k xs))
  unfolding find_node erase_node
  length-erase_node k e [] h = cc
  length-erase_node k e (x ∷ xs) h = ground (arith, length-erase_node k e xs)
