-- ===== src/Cache/Evict.antt =====
-- src/db/node_cache.cc: what a shard gives up.
use cruzdb.Prelude.{
  ℕ, zero, suc, true, false, List, [], ◌∷◌, some, ◌>>=◌, length, ltb, ◌+◌, ◌-◌, ◌%◌, ◌^◌, ◌≤◌, ◌<◌,
  ◌≡◌, ◌⊎◌, inl, inr, refl, sym, ◌∙◌, ap, arith, Holds, Holds-imp, Holds-some, Bool-cases,
}
use cruzdb.Cache.Shard.{
  Key, Slot, Shard, find_node, evict_node, evict, clear_shard, is_vacant, add_size, sub_size,
}
use cruzdb.Cache.Nodes.{
  bytes, bytes-erase, length-erase_node, find_node-erase_ne, find_node-erase_self,
}
use cruzdb.Cache.Linked.{Linked, dropped-Linked, Key-cases, last_node}

-- The sum of sizes, as the counter keeps it.
pub add_size_lem : (used t b : ℕ) → used ≡ t % 2 ^ 64 → add_size used b ≡ (t + b) % 2 ^ 64
unfolding add_size
add_size_lem used t b h = omega (arith, h)

pub sub_size_lem : (used t b : ℕ) → used ≡ (b + t) % 2 ^ 64 → sub_size used b ≡ t % 2 ^ 64
unfolding sub_size
sub_size_lem used t b h = omega (arith, h)

module _ {N : Type 0} (byte_size : N → ℕ) where
  -- A shard with some of the nodes, and the number of bytes that are freed.
  pub record Less (sh : Shard N) (freed : ℕ) (sh' : Shard N) : Type 0 where
    pub linked : Linked sh'
    pub subset :
        (k : Key) (e : Slot N) → find_node k sh'.nodes ≡ some e → find_node k sh.nodes ≡ some e
    pub freed_bytes : bytes byte_size sh.nodes ≡ freed + bytes byte_size sh'.nodes

  pub Less-refl : (sh : Shard N) → Linked sh → Less sh 0 sh
  Less-refl sh h = record { linked = h; subset = λ k e f. f; freed_bytes = omega arith }

  pub Less-trans :
      (sh sh' sh'' : Shard N) (a b : ℕ) → Less sh a sh' → Less sh' b sh'' → Less sh (a + b) sh''
  Less-trans sh sh' sh'' a b x y = record {
    linked = y.linked;
    subset = λ k e f. x.subset k e (y.subset k e f);
    freed_bytes = omega (arith, x.freed_bytes, y.freed_bytes);
  }

  -- Where there is a node, one is dropped.
  pub evict_node-Less :
      (sh : Shard N)
      → Linked sh
      → is_vacant sh.nodes ≡ false
      → Holds
          (λ r. Less sh r.0 r.1 × (length sh.nodes ≡ suc (length r.1.nodes)))
          (evict_node byte_size sh)
  unfolding evict_node
  evict_node-Less sh h v =
      let (c, e, b, f, p) = last_node sh h v in
      rw (b, ◌>>=◌, f, p)
        (
          record {
            linked = dropped-Linked sh h c.1 e f;
            subset = λ k x g. elim (Key-cases k c.1) [
              | inl q ↦ let gone = find_node-erase_self c.1 sh.nodes h.distinct in cc
              | inr ne ↦ sym (find_node-erase_ne k c.1 sh.nodes ne) ∙ g
            ];
            freed_bytes = bytes-erase byte_size c.1 e sh.nodes f;
          },
          length-erase_node c.1 e sh.nodes f,
        )

  vacant_nil : (xs : List (Key × Slot N)) → is_vacant xs ≡ true → xs ≡ []
  vacant_nil [] v = refl
  vacant_nil (x ∷ xs) v = cc

  -- What a loop has done to a shard and to the counter of all shards, where the others have `t` bytes:
  -- it has stopped for want of nodes, or because enough is free.
  abbrev pub Evicted : ℕ → ℕ → Shard N → ℕ × Shard N → Type 0
  Evicted left t sh r =
      (freed : ℕ) × Less sh freed r.1
      × (r.0 ≡ (bytes byte_size r.1.nodes + t) % 2 ^ 64)
      × ((r.1.nodes ≡ []) ⊎ (left ≤ freed))

  Evicted-step :
      (left t b : ℕ) (sh sh' : Shard N) (r : ℕ × Shard N)
      → Less sh b sh'
      → Evicted (left - b) t sh' r
      → Evicted left t sh r
  Evicted-step left t b sh sh' r x (freed, y, u, s) = (
    b + freed,
    Less-trans sh sh' r.1 b freed x y,
    u,
    elim s [ inl e ↦ inl e | inr l ↦ inr (omega arith) ],
  )

  -- The counter after a node has been dropped.
  step_used :
      (used t b : ℕ) (sh sh' : Shard N)
      → Less sh b sh'
      → used ≡ (bytes byte_size sh.nodes + t) % 2 ^ 64
      → sub_size used b ≡ (bytes byte_size sh'.nodes + t) % 2 ^ 64
  step_used used t b sh sh' x u =
      sub_size_lem used (bytes byte_size sh'.nodes + t) b (omega (arith, u, x.freed_bytes))

  pub evict_lem :
      (fuel left used t : ℕ) (sh : Shard N)
      → Linked sh
      → length sh.nodes < fuel
      → used ≡ (bytes byte_size sh.nodes + t) % 2 ^ 64
      → Holds (Evicted left t sh) (evict byte_size fuel left used sh)
  unfolding evict
  evict_lem zero left used t sh h l u = absurd (omega arith)
  evict_lem (suc fuel) left used t sh h l u = elim (Bool-cases (ltb 0 left)) [
    | inr z ↦ let none_left : left ≤ 0 = ground arith in rw z (0, Less-refl sh h, u, inr none_left)
    | inl p ↦ elim (Bool-cases (is_vacant sh.nodes)) [
      | inl v ↦ rw (p, v) (0, Less-refl sh h, u, inl (vacant_nil sh.nodes v))
      | inr v ↦
          let (r, e, (less, shorter)) =
            Holds-some (λ r. Less sh r.0 r.1 × (length sh.nodes ≡ suc (length r.1.nodes)))
              (evict_node byte_size sh) (evict_node-Less sh h v) in
          rw (p, v, e)
            (Holds-imp (Evicted (left - r.0) t r.1) (Evicted left t sh)
              (evict byte_size fuel (left - r.0) (sub_size used r.0) r.1)
              (λ q. Evicted-step left t r.0 sh r.1 q less)
              (evict_lem fuel (left - r.0) (sub_size used r.0) t r.1 less.linked
                (omega (arith, l, shorter)) (step_used used t r.0 sh r.1 less u)))
    ]
  ]

  -- The loop of `Clear` ends with an empty shard.
  pub clear_shard_lem :
      (fuel used t : ℕ) (sh : Shard N)
      → Linked sh
      → length sh.nodes < fuel
      → used ≡ (bytes byte_size sh.nodes + t) % 2 ^ 64
      → Holds
          (λ r. (r.1.nodes ≡ []) × Linked r.1 × (r.0 ≡ t % 2 ^ 64))
          (clear_shard byte_size fuel used sh)
  unfolding clear_shard bytes
  clear_shard_lem zero used t sh h l u = absurd (omega arith)
  clear_shard_lem (suc fuel) used t sh h l u = elim (Bool-cases (is_vacant sh.nodes)) [
    | inl v ↦
        let e = vacant_nil sh.nodes v in
        rw v (
          e,
          h,
          u ∙ ap (λ z. (bytes byte_size z + t) % 2 ^ 64) e ∙ ap (λ z. z % 2 ^ 64) (omega arith),
        )
    | inr v ↦
        let (r, e, (less, shorter)) =
          Holds-some (λ r. Less sh r.0 r.1 × (length sh.nodes ≡ suc (length r.1.nodes)))
            (evict_node byte_size sh) (evict_node-Less sh h v) in
        rw (v, e)
          (clear_shard_lem fuel (sub_size used r.0) t r.1 less.linked (omega (arith, l, shorter))
            (step_used used t r.0 sh r.1 less u))
  ]
