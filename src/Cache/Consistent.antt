-- ===== src/Cache/Consistent.antt =====
-- src/db/node_cache.{h,cc}: the invariant of the cache.
use mathlib.Core.Path.{subst}
use cruzdb.Prelude.{
  ℕ, zero, suc, List, [], ◌∷◌, Option, none, some, ◌>>=◌, length, get_elem?, ◌+◌, ◌%◌, ◌^◌, ◌<◌,
  ◌≡◌, ◌≢◌, inl, inr, refl, sym, ◌∙◌, ap, arith, Holds, All, some_injective,
}
use cruzdb.Cache.Shard.{Key, Slot, Shard, find_node, set_node, move_front, insert_node}
use cruzdb.Cache.Nodes.{
  bytes, bytes-set, find_node-set_self, find_node-set_ne, find_node-add_self, find_node-add_ne,
}
use cruzdb.Cache.Linked.{Linked, move_front-Linked, added-Linked, Key-cases}
use cruzdb.Cache.Store.{NodeCache, slot_of, set_elem}

pub slot_below : (std_hash : ℕ → ℕ) (key : Key) → slot_of std_hash key < 8
unfolding slot_of
slot_below std_hash key = omega arith

module _ {A : Type 0} where
  pub elem_there : (i : ℕ) (xs : List A) → i < length xs → (x : A) × (get_elem? xs i ≡ some x)
  elem_there i [] l = absurd (omega arith)
  elem_there zero (x ∷ xs) l = (x, refl)
  elem_there (suc i) (x ∷ xs) l = elem_there i xs (omega arith)

  pub length-set_elem : (i : ℕ) (a : A) (xs : List A) → length (set_elem i a xs) ≡ length xs
  unfolding set_elem
  length-set_elem i a [] = refl
  length-set_elem zero a (x ∷ xs) = refl
  length-set_elem (suc i) a (x ∷ xs) = ap suc (length-set_elem i a xs)

  pub elem-All :
      (P : A → Type 0) (i : ℕ) (x : A) (xs : List A) → get_elem? xs i ≡ some x → All P xs → P x
  elem-All P i x [] e h = cc
  elem-All P zero x (y ∷ xs) e h = subst P (some_injective e) h.0
  elem-All P (suc i) x (y ∷ xs) e h = elem-All P i x xs e h.1

  pub set_elem-All :
      (P : A → Type 0) (i : ℕ) (a : A) (xs : List A) → P a → All P xs → All P (set_elem i a xs)
  unfolding set_elem
  set_elem-All P i a [] p h = tt
  set_elem-All P zero a (x ∷ xs) p h = (p, h.1)
  set_elem-All P (suc i) a (x ∷ xs) p h = (h.0, set_elem-All P i a xs p h.1)

module _ {N : Type 0} (byte_size : N → ℕ) (load : Key → Option N) where
  -- The links of the shard hold, and its nodes are what the log has under their keys.
  pub record Sound (sh : Shard N) : Type 0 where
    pub linked : Linked sh
    pub coherent : (k : Key) (e : Slot N) → find_node k sh.nodes ≡ some e → load k ≡ some e.node

  -- The bytes of all the shards
  unfoldable pub total : List (Shard N) → ℕ
  total [] = 0
  total (sh ∷ shs) = bytes byte_size sh.nodes + total shs

  pub total-set_elem :
      (i : ℕ) (sh' sh : Shard N) (shs : List (Shard N))
      → get_elem? shs i ≡ some sh
      → total (set_elem i sh' shs) + bytes byte_size sh.nodes
        ≡ total shs + bytes byte_size sh'.nodes
  unfolding total set_elem
  total-set_elem i sh' sh [] e = cc
  total-set_elem zero sh' sh (x ∷ shs) e =
      let b : bytes byte_size x.nodes ≡ bytes byte_size sh.nodes =
        ap (λ z. bytes byte_size z.nodes) (some_injective e) in
      omega (arith, b)
  total-set_elem (suc i) sh' sh (x ∷ shs) e = omega (arith, total-set_elem i sh' sh shs e)

  -- There are eight shards, they are sound, and the counter is the sum of the sizes of the nodes.
  pub record IsConsistent (c : NodeCache N) : Type 0 where
    pub count : length c.shards ≡ 8
    pub sound : All Sound c.shards
    pub counted : c.used_bytes ≡ total c.shards % 2 ^ 64

  pub move_front-Sound :
      (key : Key) (e : Slot N) (sh : Shard N)
      → Sound sh
      → find_node key sh.nodes ≡ some e
      → Sound (move_front key e sh)
        × (bytes byte_size (move_front key e sh).nodes ≡ bytes byte_size sh.nodes)
  unfolding move_front
  move_front-Sound key e sh h f =
      let e' : Slot N = record { node = e.node; lru_iter = sh.fresh } in
      (
        record {
          linked = move_front-Linked sh h.linked key e f;
          coherent = λ k x g. elim (Key-cases k key) [
            | inl q ↦
                let x_eq = some_injective (
                  sym (find_node-set_self key e' e sh.nodes f)
                  ∙ (ap (λ z. find_node z (set_node key e' sh.nodes)) (sym q) ∙ g)) in
                ap load q ∙ h.coherent key e f ∙ ap (λ z. some z.node) x_eq
            | inr ne ↦ h.coherent k x (sym (find_node-set_ne k key e' sh.nodes ne) ∙ g)
          ];
        },
        bytes-set byte_size key e' e sh.nodes f refl,
      )

  -- A shard with a node more.
  abbrev pub More : Key → N → Shard N → Shard N → Type 0
  More key node sh sh' =
      Sound sh'
      × (bytes byte_size sh'.nodes ≡ byte_size node + bytes byte_size sh.nodes)
      × ((j : Key) → j ≢ key → find_node j sh'.nodes ≡ find_node j sh.nodes)

  -- A new node, of the log.
  pub insert_node-Sound :
      (key : Key) (node : N) (sh : Shard N)
      → Sound sh
      → load key ≡ some node
      → find_node key sh.nodes ≡ none
      → Holds (More key node sh) (insert_node key node sh)
  unfolding insert_node bytes
  insert_node-Sound key node sh h l a =
      let e : Slot N = record { node = node; lru_iter = sh.fresh } in
      rw (a, ◌>>=◌)
        (
          record {
            linked = added-Linked sh h.linked key node a;
            coherent = λ k x g. elim (Key-cases k key) [
              | inl q ↦
                  let x_eq = some_injective (
                    sym (find_node-add_self key e sh.nodes)
                    ∙ (ap (λ z. find_node z ((key, e) ∷ sh.nodes)) (sym q) ∙ g)) in
                  ap load q ∙ l ∙ ap (λ z. some z.node) x_eq
              | inr ne ↦ h.coherent k x (sym (find_node-add_ne k key e sh.nodes ne) ∙ g)
            ];
          },
          refl,
          (λ j ne. find_node-add_ne j key e sh.nodes ne),
        )
