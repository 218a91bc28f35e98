-- ===== src/Cache/Vacuum.antt =====
-- src/db/node_cache.cc: `do_vaccum_` and `Clear`.
use Prim.Native.Nat.{◌/◌}
use cruzdb.Prelude.{
  ℕ, suc, Bool, true, false, not, ◌||◌, List, [], ◌∷◌, Option, some, ◌>>=◌, length, ltb, ◌+◌, ◌-◌,
  ◌%◌, ◌^◌, ◌≤◌, ◌<◌, ◌≡◌, ◌⊎◌, inl, inr, refl, sym, ◌∙◌, ap, arith, Holds, Holds-imp, Holds-some,
  Bool-cases, All, All-imp, lt→ltb,
}
use cruzdb.Cache.Shard.{Key, Slot, Shard, find_node, evict, clear_shard}
use cruzdb.Cache.Nodes.{bytes}
use cruzdb.Cache.Linked.{Linked}
use cruzdb.Cache.Evict.{Evicted, evict_lem, clear_shard_lem}
use cruzdb.Cache.Store.{
  NodeCache, num_slots, wakes, no_traces, apply_traces, evict_shards, shrink, vacuum_round,
  clear_shards, clear,
}
use cruzdb.Cache.Consistent.{total, Sound, IsConsistent}

zero-cases : (n : ℕ) → (n ≡ 0) ⊎ (0 < n)
zero-cases n = ground arith

over : (a b c : Bool) → b ≡ true → (a || b || c) ≡ true
over a b c h = ground arith

module _ {N : Type 0} (byte_size : N → ℕ) (load : Key → Option N) where
  -- Each shard is empty, or has given up the bytes that were wanted of it.
  abbrev pub Shrunk : ℕ → List (Shard N) → List (Shard N) → Type 0
  Shrunk target [] [] = Unit
  Shrunk target [] (y ∷ ys) = ⊥
  Shrunk target (x ∷ xs) [] = ⊥
  Shrunk target (x ∷ xs) (y ∷ ys) =
      (bytes byte_size y.nodes ≤ bytes byte_size x.nodes)
      × ((y.nodes ≡ []) ⊎ (target + bytes byte_size y.nodes ≤ bytes byte_size x.nodes))
      × Shrunk target xs ys

  length-Shrunk :
      (target : ℕ) (xs ys : List (Shard N)) → Shrunk target xs ys → length xs ≡ length ys
  length-Shrunk target [] [] s = refl
  length-Shrunk target [] (y ∷ ys) s = absurd s
  length-Shrunk target (x ∷ xs) [] s = absurd s
  length-Shrunk target (x ∷ xs) (y ∷ ys) (_, _, s) = ap suc (length-Shrunk target xs ys s)

  -- The shards after the loop, and the counter, where other shards have `t` bytes.
  abbrev Shrunken : ℕ → ℕ → List (Shard N) → ℕ × List (Shard N) → Type 0
  Shrunken target t shs r =
      All (Sound byte_size load) r.1
      × Shrunk target shs r.1
      × (r.0 ≡ (total byte_size load r.1 + t) % 2 ^ 64)

  evict_shards_lem :
      (target used t : ℕ) (shs : List (Shard N))
      → All (Sound byte_size load) shs
      → used ≡ (total byte_size load shs + t) % 2 ^ 64
      → Holds (Shrunken target t shs) (evict_shards byte_size target used shs)
  unfolding evict_shards total
  evict_shards_lem target used t [] h u = (tt, tt, u)
  evict_shards_lem target used t (sh ∷ shs) (s, h) u =
      let (r, e, (freed, less, u', stop)) =
        Holds-some (Evicted byte_size target (total byte_size load shs + t) sh)
          (evict byte_size (suc (length sh.nodes)) target used sh)
          (evict_lem byte_size (suc (length sh.nodes)) target used (total byte_size load shs + t) sh
            s.linked (omega arith) (omega (arith, u))) in
      let (rs, es, (h', shrunk, us)) =
        Holds-some (Shrunken target (bytes byte_size r.1.nodes + t) shs)
          (evict_shards byte_size target r.0 shs)
          (evict_shards_lem target r.0 (bytes byte_size r.1.nodes + t) shs h (omega (arith, u'))) in
      rw (e, ◌>>=◌, es)
        (
          (
            record { linked = less.linked; coherent = λ k x f. s.coherent k x (less.subset k x f) },
            h',
          ),
          (
            omega (arith, less.freed_bytes),
            elim stop [ inl q ↦ inl q | inr l ↦ inr (omega (arith, l, less.freed_bytes)) ],
            shrunk,
          ),
          omega (arith, us),
        )

  -- What is freed by `shrink`
  abbrev Smaller : ℕ → NodeCache N → NodeCache N → Type 0
  Smaller cache_size c c' =
      IsConsistent byte_size load c'
      × (c'.traces ≡ c.traces)
      × (c'.stop ≡ c.stop)
      × (cache_size < c.used_bytes
          → Shrunk ((c.used_bytes - cache_size) / num_slots) c.shards c'.shards)

  shrink_lem :
      (cache_size : ℕ) (c : NodeCache N)
      → IsConsistent byte_size load c
      → Holds (Smaller cache_size c) (shrink byte_size cache_size c)
  unfolding shrink
  shrink_lem cache_size c h = elim (Bool-cases (ltb cache_size c.used_bytes)) [
    | inr z ↦
        let big : c.used_bytes ≤ cache_size = ground arith in
        rw z (h, refl, refl, (λ l. absurd (omega (arith, l, big))))
    | inl z ↦
        let target = (c.used_bytes - cache_size) / num_slots in
        let (r, e, (sound, shrunk, u)) =
          Holds-some (Shrunken target 0 c.shards)
            (evict_shards byte_size target c.used_bytes c.shards)
            (evict_shards_lem target c.used_bytes 0 c.shards h.sound
              (h.counted ∙ ap (λ z. z % 2 ^ 64) (omega arith))) in
        rw (z, e)
          (
            record {
              count = sym (length-Shrunk target c.shards r.1 shrunk) ∙ h.count;
              sound = sound;
              counted = u ∙ ap (λ z. z % 2 ^ 64) (omega arith);
            },
            refl,
            refl,
            (λ l. shrunk),
          )
  ]

  pub vacuum_round_lem :
      (std_hash : ℕ → ℕ) (cache_size : ℕ) (c : NodeCache N)
      → IsConsistent byte_size load c
      → Holds (Smaller cache_size c) (vacuum_round byte_size std_hash cache_size c)
  unfolding vacuum_round apply_traces
  vacuum_round_lem std_hash cache_size c h = shrink_lem cache_size c h

  -- A round that wants a byte of each shard frees one, where there is one.
  Shrunk-total :
      (target : ℕ) (xs ys : List (Shard N))
      → 0 < target
      → Shrunk target xs ys
      → (total byte_size load ys ≤ total byte_size load xs)
        × (0 < total byte_size load xs → total byte_size load ys < total byte_size load xs)
  unfolding total bytes
  Shrunk-total target [] [] l s = (omega arith, (λ z. z))
  Shrunk-total target [] (y ∷ ys) l s = absurd s
  Shrunk-total target (x ∷ xs) [] l s = absurd s
  Shrunk-total target (x ∷ xs) (y ∷ ys) l (b, d, s) =
      let (le, lt) = Shrunk-total target xs ys l s in
      (
        omega (arith, b, le),
        (λ z. elim d [
          | inr f ↦ omega (arith, f, l, le)
          | inl e ↦
              let zero_bytes : bytes byte_size y.nodes ≡ 0 = ap (bytes byte_size) e in
              elim (zero-cases (bytes byte_size x.nodes)) [
                | inl q ↦ let more = lt (omega (arith, z, q)) in omega (arith, b, more)
                | inr q ↦ omega (arith, q, zero_bytes, le)
              ]
        ]),
      )

  -- Where the cache is over its size by a byte for each shard or more, and the counter has not wrapped
  -- around, a round of the vacuum thread frees something: the counter gets smaller. No assertion fails.
  pub vacuum_round-frees :
      (std_hash : ℕ → ℕ) (cache_size : ℕ) (c : NodeCache N)
      → IsConsistent byte_size load c
      → total byte_size load c.shards < 2 ^ 64
      → cache_size + num_slots ≤ c.used_bytes
      → Holds (λ c'. c'.used_bytes < c.used_bytes) (vacuum_round byte_size std_hash cache_size c)
  vacuum_round-frees std_hash cache_size c h b l =
      Holds-imp (Smaller cache_size c) (λ c'. c'.used_bytes < c.used_bytes)
        (vacuum_round byte_size std_hash cache_size c)
        (λ c' (h', _, _, s).
          let (le, lt) =
            Shrunk-total ((c.used_bytes - cache_size) / num_slots) c.shards c'.shards
              (omega (arith, l)) (s (omega (arith, l))) in
          let less = lt (omega (arith, l, h.counted, b)) in
          omega (arith, less, h'.counted, h.counted, b))
        (vacuum_round_lem std_hash cache_size c h)

  evict_shards_idle :
      (used : ℕ) (shs : List (Shard N)) → evict_shards byte_size 0 used shs ≡ some (used, shs)
  unfolding evict_shards evict
  evict_shards_idle used [] = refl
  evict_shards_idle used (sh ∷ shs) = rw (evict_shards_idle used shs) refl

  idle :
      (std_hash : ℕ → ℕ) (cache_size : ℕ) (c : NodeCache N)
      → cache_size < c.used_bytes
      → c.used_bytes < cache_size + num_slots
      → vacuum_round byte_size std_hash cache_size c ≡ some c
  unfolding vacuum_round apply_traces shrink
  idle std_hash cache_size c l u =
      let nothing : (c.used_bytes - cache_size) / 8 ≡ 0 = omega (arith, l, u) in
      rw (lt→ltb cache_size c.used_bytes l, nothing, evict_shards_idle c.used_bytes c.shards) refl

  -- Where the cache is over its size, but by less than a byte for each shard, a round of the vacuum
  -- thread changes nothing, and the thread does not wait afterwards: it spins.
  pub vacuum_round-idle :
      (std_hash : ℕ → ℕ) (cache_size : ℕ) (c : NodeCache N)
      → cache_size < c.used_bytes
      → c.used_bytes < cache_size + num_slots
      → (vacuum_round byte_size std_hash cache_size c ≡ some c) × (wakes cache_size c ≡ true)
  unfolding wakes
  vacuum_round-idle std_hash cache_size c l u = (
    idle std_hash cache_size c l u,
    over (not (no_traces c.traces)) (ltb cache_size c.used_bytes) c.stop
        (lt→ltb cache_size c.used_bytes l),
  )

  -- Where a trace has been handed over to a consistent cache, a round of the vacuum thread leaves it
  -- where it is, and the thread does not wait afterwards: it spins. No assertion fails.
  pub vacuum_round-traces :
      (std_hash : ℕ → ℕ) (cache_size : ℕ) (c : NodeCache N)
      → IsConsistent byte_size load c
      → no_traces c.traces ≡ false
      → Holds
          (λ c'. (c'.traces ≡ c.traces) × (wakes cache_size c' ≡ true))
          (vacuum_round byte_size std_hash cache_size c)
  unfolding wakes
  vacuum_round-traces std_hash cache_size c h t =
      Holds-imp (Smaller cache_size c) (λ c'. (c'.traces ≡ c.traces) × (wakes cache_size c' ≡ true))
        (vacuum_round byte_size std_hash cache_size c)
        (λ c' (_, e, _, _). (e, let z = ap no_traces e ∙ t in rw z refl))
        (vacuum_round_lem std_hash cache_size c h)

  nothing_found :
      (sh : Shard N)
      → sh.nodes ≡ []
      → (k : Key) (e : Slot N) → find_node k sh.nodes ≡ some e
      → load k ≡ some e.node
  unfolding find_node
  nothing_found sh z k e f = let g = ap (find_node k) z in cc

  clear_shards_lem :
      (used t : ℕ) (shs : List (Shard N))
      → All (Sound byte_size load) shs
      → used ≡ (total byte_size load shs + t) % 2 ^ 64
      → Holds
          (λ r.
            (length r.1 ≡ length shs)
            × All (λ sh. Sound byte_size load sh × (sh.nodes ≡ [])) r.1
            × (r.0 ≡ t % 2 ^ 64))
          (clear_shards byte_size used shs)
  unfolding clear_shards total
  clear_shards_lem used t [] h u = (refl, tt, u ∙ ap (λ z. z % 2 ^ 64) (omega arith))
  clear_shards_lem used t (sh ∷ shs) (s, h) u =
      let rest = total byte_size load shs + t in
      let (r, e, (gone, linked, u')) =
        Holds-some (λ r. (r.1.nodes ≡ []) × Linked r.1 × (r.0 ≡ rest % 2 ^ 64))
          (clear_shard byte_size (suc (length sh.nodes)) used sh)
          (clear_shard_lem byte_size (suc (length sh.nodes)) used rest sh s.linked (omega arith)
            (omega (arith, u))) in
      let (rs, es, (l, cleared, us)) =
        Holds-some
          (λ r.
            (length r.1 ≡ length shs)
            × All (λ x. Sound byte_size load x × (x.nodes ≡ [])) r.1
            × (r.0 ≡ t % 2 ^ 64))
          (clear_shards byte_size r.0 shs) (clear_shards_lem r.0 t shs h u') in
      rw (e, ◌>>=◌, es)
        (
          ap suc l,
          ((record { linked = linked; coherent = nothing_found r.1 gone }, gone), cleared),
          us,
        )

  cleared_total :
      (shs : List (Shard N))
      → All (λ sh. Sound byte_size load sh × (sh.nodes ≡ [])) shs
      → total byte_size load shs ≡ 0
  unfolding total bytes
  cleared_total [] h = refl
  cleared_total (sh ∷ shs) ((_, e), h) =
      let b : bytes byte_size sh.nodes ≡ 0 = ap (bytes byte_size) e in
      omega (arith, b, cleared_total shs h)

  -- What `Clear` leaves.
  pub clear_lem :
      (c : NodeCache N)
      → IsConsistent byte_size load c
      → Holds
          (λ c'.
            IsConsistent byte_size load c'
            × All (λ sh. sh.nodes ≡ []) c'.shards
            × (c'.used_bytes ≡ 0)
            × (c'.traces ≡ []))
          (clear byte_size c)
  unfolding clear
  clear_lem c h =
      let (r, e, (l, cleared, u)) =
        Holds-some
          (λ r.
            (length r.1 ≡ length c.shards)
            × All (λ x. Sound byte_size load x × (x.nodes ≡ [])) r.1
            × (r.0 ≡ 0 % 2 ^ 64))
          (clear_shards byte_size c.used_bytes c.shards)
          (clear_shards_lem c.used_bytes 0 c.shards h.sound
            (h.counted ∙ ap (λ z. z % 2 ^ 64) (omega arith))) in
      rw e (
        record {
          count = l ∙ h.count;
          sound = All-imp (λ sh x. x.0) r.1 cleared;
          counted = u ∙ ap (λ z. z % 2 ^ 64) (sym (cleared_total r.1 cleared));
        },
        All-imp (λ sh x. x.1) r.1 cleared,
        u ∙ omega arith,
        refl,
      )
