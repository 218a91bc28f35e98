-- ===== src/Cache/Kept.antt =====
-- src/db/node_cache.cc: looking up and insertion keep the invariant.
use cruzdb.Prelude.{
  ℕ, zero, suc, List, [], ◌∷◌, Option, none, some, ◌>>=◌, get_elem?, ◌+◌, ◌%◌, ◌^◌, ◌<◌, ◌≡◌, ◌≢◌,
  ◌⊎◌, inl, inr, refl, sym, ◌∙◌, ap, arith, Holds, Holds-some, Option-cases, some_injective,
}
use cruzdb.Node.{NodeAddress}
use cruzdb.Cache.Shard.{Key, Shard, find_node, move_front, look_up, insert_node, add_size}
use cruzdb.Cache.Nodes.{bytes}
use cruzdb.Cache.Evict.{add_size_lem}
use cruzdb.Cache.Store.{
  NodeCache, slot_of, set_elem, touch, insert, keep_node, update_lru, apply_from,
  apply_after_image_delta, apply_trace, apply_traces,
}
use cruzdb.Cache.Consistent.{
  slot_below, elem_there, length-set_elem, elem-All, set_elem-All, total, total-set_elem, Sound,
  More, IsConsistent, move_front-Sound, insert_node-Sound,
}

module _ {A : Type 0} where
  get_elem?-set :
      (i j : ℕ) (a b x : A) (xs : List A)
      → get_elem? xs i ≡ some x
      → get_elem? (set_elem i a xs) j ≡ some b
      → ((i ≡ j) × (b ≡ a)) ⊎ (get_elem? xs j ≡ some b)
  unfolding set_elem
  get_elem?-set i j a b x [] e f = cc
  get_elem?-set zero zero a b x (y ∷ xs) e f = inl (refl, some_injective (sym f))
  get_elem?-set zero (suc j) a b x (y ∷ xs) e f = inr f
  get_elem?-set (suc i) zero a b x (y ∷ xs) e f = inr f
  get_elem?-set (suc i) (suc j) a b x (y ∷ xs) e f = elim (get_elem?-set i j a b x xs e f) [
    | inl p ↦ inl (ap suc p.0, p.1)
    | inr g ↦ inr g
  ]

module _ {N : Type 0} (std_hash : ℕ → ℕ) (byte_size : N → ℕ) (load : Key → Option N) where
  abbrev Cs : NodeCache N → Type 0
  Cs c = IsConsistent byte_size load c

  -- The shard of a key is there.
  pub shard_there :
      (key : Key) (c : NodeCache N)
      → IsConsistent byte_size load c
      → (sh : Shard N) × (get_elem? c.shards (slot_of std_hash key) ≡ some sh)
        × Sound byte_size load sh
  shard_there key c h =
      let (sh, e) =
        elem_there (slot_of std_hash key) c.shards
          (omega (arith, h.count, slot_below std_hash key)) in
      (sh, e, elem-All (Sound byte_size load) (slot_of std_hash key) sh c.shards e h.sound)

  -- A shard is replaced by one with `a` bytes more.
  replaced :
      (i a used : ℕ) (sh sh' : Shard N) (c : NodeCache N)
      → IsConsistent byte_size load c
      → get_elem? c.shards i ≡ some sh
      → Sound byte_size load sh'
      → bytes byte_size sh'.nodes ≡ a + bytes byte_size sh.nodes
      → used ≡ (total byte_size load c.shards + a) % 2 ^ 64
      → IsConsistent byte_size load
          (record c { shards = set_elem i sh' c.shards; used_bytes = used })
  replaced i a used sh sh' c h e s b u = record {
    count = length-set_elem i sh' c.shards ∙ h.count;
    sound = set_elem-All (Sound byte_size load) i sh' c.shards s h.sound;
    counted = omega (arith, u, b, total-set_elem byte_size load i sh' sh c.shards e);
  }

  -- The key is in no shard that it belongs to.
  abbrev pub Absent : Key → NodeCache N → Type 0
  Absent key c =
      (sh : Shard N)
      → get_elem? c.shards (slot_of std_hash key) ≡ some sh
      → find_node key sh.nodes ≡ none

  -- A look into the cache gives nothing, where the key is absent, or what the log has.
  abbrev pub Looked : Key → Option N × NodeCache N → Type 0
  Looked key r =
      IsConsistent byte_size load r.1
      × ((n : N) → r.0 ≡ some n → load key ≡ some n)
      × (r.0 ≡ none → Absent key r.1)

  still_absent :
      (key : Key) (sh : Shard N) (c : NodeCache N)
      → get_elem? c.shards (slot_of std_hash key) ≡ some sh
      → find_node key sh.nodes ≡ none
      → (x : Shard N)
      → get_elem? (set_elem (slot_of std_hash key) sh c.shards) (slot_of std_hash key) ≡ some x
      → find_node key x.nodes ≡ none
  still_absent key sh c e f x g =
      let i = slot_of std_hash key in
      elim (get_elem?-set i i sh x sh c.shards e g) [
        | inl (_, x_eq) ↦ ap (λ z. find_node key z.nodes) x_eq ∙ f
        | inr g' ↦ ap (λ z. find_node key z.nodes) (some_injective (sym g' ∙ e)) ∙ f
      ]

  pub touch_lem :
      (key : Key) (c : NodeCache N)
      → IsConsistent byte_size load c
      → Holds (Looked key) (touch std_hash key c)
  unfolding touch look_up
  touch_lem key c h =
      let (sh, e, s) = shard_there key c h in
      let i = slot_of std_hash key in
      elim (Option-cases (find_node key sh.nodes)) [
        | inl f ↦
            rw (e, ◌>>=◌, f, look_up)
              (
                replaced i 0 c.used_bytes sh sh c h e s (omega arith) (omega (arith, h.counted)),
                (λ n g. cc),
                (λ _ x g. still_absent key sh c e f x g),
              )
        | inr (x, f) ↦
            let (s', b) = move_front-Sound byte_size load key x sh s f in
            rw (e, ◌>>=◌, f, look_up)
              (
                replaced i 0 c.used_bytes sh (move_front key x sh) c h e s' (omega (arith, b))
                    (omega (arith, h.counted)),
                (λ n g. s.coherent key x f ∙ g),
                (λ g. cc),
              )
      ]

  pub insert_lem :
      (key : Key) (node : N) (c : NodeCache N)
      → IsConsistent byte_size load c
      → load key ≡ some node
      → Absent key c
      → Holds
          (λ c'. IsConsistent byte_size load c' × ((j : Key) → j ≢ key → Absent j c → Absent j c'))
          (insert std_hash byte_size key node c)
  unfolding insert
  insert_lem key node c h l a =
      let (sh, e, s) = shard_there key c h in
      let i = slot_of std_hash key in
      let (sh', e', (s', b, same)) =
        Holds-some (More byte_size load key node sh) (insert_node key node sh)
          (insert_node-Sound byte_size load key node sh s l (a sh e)) in
      rw (e, ◌>>=◌, e')
        (
          replaced i (byte_size node) (add_size c.used_bytes (byte_size node)) sh sh' c h e s' b (
              add_size_lem c.used_bytes (total byte_size load c.shards) (byte_size node) h.counted),
          (λ j ne aj x g. elim (get_elem?-set i (slot_of std_hash j) sh' x sh c.shards e g) [
            | inr g' ↦ aj x g'
            | inl (q, x_eq) ↦
                ap (λ z. find_node j z.nodes) x_eq
                ∙ same j ne
                ∙ aj sh (ap (get_elem? c.shards) (sym q) ∙ e)
          ]),
        )

  pub keep_node_lem :
      (key : Key) (node : N) (c : NodeCache N)
      → IsConsistent byte_size load c
      → load key ≡ some node
      → Holds
          (λ r. IsConsistent byte_size load r.1 × (load key ≡ some r.0))
          (keep_node std_hash byte_size key node c)
  unfolding keep_node
  keep_node_lem key node c h l =
      let (sh, e, s) = shard_there key c h in
      elim (Option-cases (find_node key sh.nodes)) [
        | inr (x, f) ↦ rw (e, ◌>>=◌, f) (h, s.coherent key x f)
        | inl f ↦
            let (c', e', (h', _)) =
              Holds-some
                (λ c'.
                  IsConsistent byte_size load c' × ((j : Key) → j ≢ key → Absent j c → Absent j c'))
                (insert std_hash byte_size key node c)
                (insert_lem key node c h l (λ x g.
                  let q = some_injective (sym e ∙ g) in
                  ap (λ z. find_node key z.nodes) (sym q) ∙ f)) in
            rw (e, ◌>>=◌, f, e') (h', l)
      ]

  -- A node that is put under the next offset has a new key.
  later_key : (pos o p : ℕ) → o < p → ◌≢◌ {A = Key} (pos, p) (pos, o)
  later_key pos o p l e = let q = ap (λ z. z.1) e in omega (arith, l, q)

  -- The nodes of a delta are what the log has under a position, and none is in the cache.
  abbrev pub IsNew : ℕ → ℕ → List N → NodeCache N → Type 0
  IsNew pos offset [] c = Unit
  IsNew pos offset (n ∷ ns) c =
      (load (pos, offset) ≡ some n) × Absent (pos, offset) c × IsNew pos (suc offset) ns c

  IsNew-imp :
      (pos offset o : ℕ) (ns : List N) (c c' : NodeCache N)
      → o < offset
      → ((j : Key) → j ≢ (pos, o) → Absent j c → Absent j c')
      → IsNew pos offset ns c
      → IsNew pos offset ns c'
  IsNew-imp pos offset o [] c c' l f h = tt
  IsNew-imp pos offset o (n ∷ ns) c c' l f (g, a, h) = (
    g,
    f (pos, offset) (later_key pos o offset l) a,
    IsNew-imp pos (suc offset) o ns c c' (omega arith) f h,
  )

  apply_from_lem :
      (pos offset : ℕ) (ns : List N) (c : NodeCache N)
      → IsConsistent byte_size load c
      → IsNew pos offset ns c
      → Holds (IsConsistent byte_size load) (apply_from std_hash byte_size pos offset ns c)
  unfolding apply_from
  apply_from_lem pos offset [] c h new = h
  apply_from_lem pos offset (n ∷ ns) c h (l, a, new) =
      let (c', e, (h', f)) =
        Holds-some
          (λ c'.
            IsConsistent byte_size load c'
            × ((j : Key) → j ≢ (pos, offset) → Absent j c → Absent j c'))
          (insert std_hash byte_size (pos, offset) n c) (insert_lem (pos, offset) n c h l a) in
      rw e (
        apply_from_lem pos (suc offset) ns c' h'
          (IsNew-imp pos (suc offset) offset ns c c' (omega arith) f new))

  pub apply_after_image_delta_lem :
      (delta : List N) (pos : ℕ) (c : NodeCache N)
      → IsConsistent byte_size load c
      → IsNew pos 0 delta c
      → Holds
          (λ r. IsConsistent byte_size load r.1)
          (apply_after_image_delta std_hash byte_size delta pos c)
  unfolding apply_after_image_delta
  apply_after_image_delta_lem delta pos c h new =
      let (c', e, h') =
        Holds-some (IsConsistent byte_size load) (apply_from std_hash byte_size pos 0 delta c)
          (apply_from_lem pos 0 delta c h new) in
      rw e h'

  apply_trace_lem :
      (t : List NodeAddress) (c : NodeCache N)
      → IsConsistent byte_size load c
      → Holds (IsConsistent byte_size load) (apply_trace std_hash t c)
  unfolding apply_trace
  apply_trace_lem [] c h = h
  apply_trace_lem (a ∷ more) c h =
      let (r, e, (h', _, _)) =
        Holds-some (Looked (a.position, a.offset)) (touch std_hash (a.position, a.offset) c)
          (touch_lem (a.position, a.offset) c h) in
      rw e (apply_trace_lem more r.1 h')

  pub apply_traces_lem :
      (ts : List (List NodeAddress)) (c : NodeCache N)
      → IsConsistent byte_size load c
      → Holds (IsConsistent byte_size load) (apply_traces std_hash ts c)
  unfolding apply_traces
  apply_traces_lem [] c h = h
  apply_traces_lem (t ∷ ts) c h =
      let (c', e, h') =
        Holds-some (IsConsistent byte_size load) (apply_trace std_hash t c)
          (apply_trace_lem t c h) in
      rw e (apply_traces_lem ts c' h')

  pub update_lru_lem :
      (t : List NodeAddress) (c : NodeCache N)
      → IsConsistent byte_size load c
      → IsConsistent byte_size load (update_lru t c)
  unfolding update_lru
  update_lru_lem [] c h = h
  update_lru_lem (a ∷ more) c h = record { count = h.count; sound = h.sound; counted = h.counted }
