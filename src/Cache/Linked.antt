-- ===== src/Cache/Linked.antt =====
-- src/db/node_cache.h: the links of a shard, which every operation on it keeps.
use cruzdb.Prelude.{
  ℕ, suc, List, [], ◌∷◌, false, Option, none, some, ◌≡◌, ◌≢◌, ◌⊎◌, inl, inr, sym, ◌∙◌, ap, arith,
  some_injective,
}
use cruzdb.Prelude.Map.{find_key, erase_key, find_key_head, find_key-erase_ne}
use cruzdb.Cache.Shard.{
  Key, Slot, Shard, find_node, erase_node, set_node, move_front, back, pop_back, is_vacant,
}
use cruzdb.Cache.Nodes.{
  Distinct, same_key_iff, find_node-erase_ne, find_node-erase_self, find_node-set_self,
  find_node-set_ne, find_node-add_self, find_node-add_ne, erase_node-Distinct, set_node-Distinct,
}
use cruzdb.Cache.Recent.{
  Falling, find_key-Falling, erase_key-Falling, find_key-gone, back-find, back_found,
}

pub Key-cases : (a b : Key) → (a ≡ b) ⊎ (a ≢ b)
Key-cases a b = ground (arith, same_key_iff a b)

number-cases : (a b : ℕ) → (a ≡ b) ⊎ (a ≢ b)
number-cases a b = ground arith

find_key_next :
    (n : ℕ) (k : Key) (cs : List (ℕ × Key)) (j : ℕ)
    → j ≢ n
    → find_key j ((n, k) ∷ cs) ≡ find_key j cs
unfolding find_key
find_key_next n k cs j ne = ground arith

some-back :
    (cs : List (ℕ × Key)) (i : ℕ) (k : Key)
    → find_key i cs ≡ some k
    → (d : ℕ × Key) × (back cs ≡ some d)
unfolding find_key
some-back [] i k h = cc
some-back (c ∷ cs) i k h = back_found c cs

module _ {N : Type 0} where
  -- Every element of the list belongs to a node of the map, whose iterator is that element, and every
  -- node has its element. The list and the map are given by what is found in them.
  pub record Links (F : ℕ → Option Key) (G : Key → Option (Slot N)) : Type 0 where
    pub listed : (i : ℕ) (k : Key) → F i ≡ some k → (e : Slot N) × (G k ≡ some e) × (e.lru_iter ≡ i)
    pub kept : (k : Key) (e : Slot N) → G k ≡ some e → F e.lru_iter ≡ some k

  module _ (F F' : ℕ → Option Key) (G G' : Key → Option (Slot N)) (key : Key) (e : Slot N)
      (h : Links F G) (F_ne : (j : ℕ) → j ≢ e.lru_iter → F' j ≡ F j)
      (G_ne : (k : Key) → k ≢ key → G' k ≡ G k) where
    Links-erase : G key ≡ some e → F' e.lru_iter ≡ none → G' key ≡ none → Links F' G'
    Links-erase g f0 g0 = record {
      listed = λ i k f. elim (number-cases i e.lru_iter) [
        | inl q ↦ cc
        | inr ne ↦
            let (x, gx, ex) = h.listed i k (sym (F_ne i ne) ∙ f) in
            elim (Key-cases k key) [ inl q ↦ cc | inr nk ↦ (x, G_ne k nk ∙ gx, ex) ]
      ];
      kept = λ k x gx. elim (Key-cases k key) [
        | inl q ↦ cc
        | inr nk ↦
            let fx = h.kept k x (sym (G_ne k nk) ∙ gx) in
            elim (number-cases x.lru_iter e.lru_iter) [
              | inl q ↦ absurd (nk (some_injective (sym fx ∙ ap F q ∙ h.kept key e g)))
              | inr ne ↦ F_ne x.lru_iter ne ∙ fx
            ]
      ];
    }

    Links-add :
        F e.lru_iter ≡ none
        → G key ≡ none
        → F' e.lru_iter ≡ some key
        → G' key ≡ some e
        → Links F' G'
    Links-add f g f1 g1 = record {
      listed = λ i k fi. elim (number-cases i e.lru_iter) [
        | inl q ↦ let k_eq = some_injective (sym fi ∙ ap F' q ∙ f1) in (e, ap G' k_eq ∙ g1, sym q)
        | inr ne ↦
            let (x, gx, ex) = h.listed i k (sym (F_ne i ne) ∙ fi) in
            elim (Key-cases k key) [ inl q ↦ cc | inr nk ↦ (x, G_ne k nk ∙ gx, ex) ]
      ];
      kept = λ k x gx. elim (Key-cases k key) [
        | inl q ↦
            let x_eq = some_injective (sym gx ∙ ap G' q ∙ g1) in
            ap (λ z. F' z.lru_iter) x_eq ∙ f1 ∙ ap some (sym q)
        | inr nk ↦
            let fx = h.kept k x (sym (G_ne k nk) ∙ gx) in
            elim (number-cases x.lru_iter e.lru_iter) [
              | inl q ↦ cc
              | inr ne ↦ F_ne x.lru_iter ne ∙ fx
            ]
      ];
    }

  some_node :
      (xs : List (Key × Slot N))
      → is_vacant xs ≡ false
      → (x : Key × Slot N) × (find_node x.0 xs ≡ some x.1)
  unfolding find_node
  some_node [] v = cc
  some_node (x ∷ xs) v = (x, find_node-add_self x.0 x.1 xs)

  -- The links of a shard; the numbers of the list descend, and no key stands twice in the map.
  pub record Linked (sh : Shard N) : Type 0 where
    pub falling : Falling sh.fresh sh.lru
    pub distinct : Distinct sh.nodes
    pub links : Links (λ i. find_key i sh.lru) (λ k. find_node k sh.nodes)

  module _ (sh : Shard N) (h : Linked sh) where
    pub new_number : find_key sh.fresh sh.lru ≡ none
    new_number = find_key-Falling sh.fresh sh.fresh sh.lru (omega arith) h.falling

    abbrev added : Key → N → Shard N
    added key node = record {
      nodes = (key, record { node = node; lru_iter = sh.fresh }) ∷ sh.nodes;
      lru = (sh.fresh, key) ∷ sh.lru;
      fresh = suc sh.fresh;
    }

    pub added-Linked :
        (key : Key) (node : N) → find_node key sh.nodes ≡ none → Linked (added key node)
    added-Linked key node a =
        let e : Slot N = record { node = node; lru_iter = sh.fresh } in
        record {
          falling = (omega arith, h.falling);
          distinct = (a, h.distinct);
          links =
              Links-add (λ i. find_key i sh.lru) (λ i. find_key i (added key node).lru)
                (λ k. find_node k sh.nodes) (λ k. find_node k (added key node).nodes) key e h.links
                (find_key_next sh.fresh key sh.lru) (λ k ne. find_node-add_ne k key e sh.nodes ne)
                new_number a (find_key_head sh.fresh key sh.lru)
                (find_node-add_self key e sh.nodes);
        }

    module _ (key : Key) (e : Slot N) (g : find_node key sh.nodes ≡ some e) where
      -- The links without the node.
      without :
          Links
            (λ i. find_key i (erase_key e.lru_iter sh.lru))
            (λ k. find_node k (erase_node key sh.nodes))
      without =
          Links-erase (λ i. find_key i sh.lru) (λ i. find_key i (erase_key e.lru_iter sh.lru))
            (λ k. find_node k sh.nodes) (λ k. find_node k (erase_node key sh.nodes)) key e h.links
            (λ j ne. find_key-erase_ne j e.lru_iter sh.lru ne)
            (λ k ne. find_node-erase_ne k key sh.nodes ne) g
            (find_key-gone sh.fresh e.lru_iter sh.lru h.falling)
            (find_node-erase_self key sh.nodes h.distinct)

      pub move_front-Linked : Linked (move_front key e sh)
      unfolding move_front
      move_front-Linked =
          let e' : Slot N = record { node = e.node; lru_iter = sh.fresh } in
          let lru = erase_key e.lru_iter sh.lru in
          let falling = erase_key-Falling sh.fresh e.lru_iter sh.lru h.falling in
          record {
            falling = (omega arith, falling);
            distinct = set_node-Distinct key e' sh.nodes h.distinct;
            links =
                Links-add (λ i. find_key i lru) (λ i. find_key i ((sh.fresh, key) ∷ lru))
                  (λ k. find_node k (erase_node key sh.nodes))
                  (λ k. find_node k (set_node key e' sh.nodes)) key e' without
                  (find_key_next sh.fresh key lru)
                  (λ k ne.
                    find_node-set_ne k key e' sh.nodes ne
                    ∙ sym (find_node-erase_ne k key sh.nodes ne))
                  (find_key-Falling sh.fresh sh.fresh lru (omega arith) falling)
                  (find_node-erase_self key sh.nodes h.distinct) (find_key_head sh.fresh key lru)
                  (find_node-set_self key e' e sh.nodes g);
          }

      pub dropped-Linked :
          Linked (record sh { nodes = erase_node key sh.nodes; lru = erase_key e.lru_iter sh.lru })
      dropped-Linked = record {
        falling = erase_key-Falling sh.fresh e.lru_iter sh.lru h.falling;
        distinct = erase_node-Distinct key sh.nodes h.distinct;
        links = without;
      }

    -- Where there is a node, the last element of the list belongs to one.
    pub last_node :
        is_vacant sh.nodes ≡ false
        → (c : ℕ × Key) × (e : Slot N) × (back sh.lru ≡ some c)
          × (find_node c.1 sh.nodes ≡ some e)
          × (pop_back sh.lru ≡ erase_key e.lru_iter sh.lru)
    last_node v =
        let (x, f) = some_node sh.nodes v in
        let (c, b) = some-back sh.lru x.1.lru_iter x.0 (h.links.kept x.0 x.1 f) in
        let (_, g, p) = back-find sh.fresh c.0 c.1 sh.lru h.falling b in
        let (e, fe, i) = h.links.listed c.0 c.1 g in
        (c, e, b, fe, p ∙ ap (λ z. erase_key z sh.lru) (sym i))
