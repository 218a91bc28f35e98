-- ===== src/Image/Pointers.antt =====
-- src/db/persistent_tree.cc and src/db/node_cache.cc: a pointer of a serialized node, read back.
use cruzdb.Prelude.{
  ℕ, ◌-◌, ◌%◌, ◌^◌, ◌<◌, ◌≤◌, Bool, true, false, Option, none, some, ◌>>=◌, ◌>>◌, assert, ◌≡◌, refl,
  ap, ◌∙◌, ◌==◌, if◌then◌else◌, arith, Holds, Bool-cases, Option-cases, inl, inr,
}
use cruzdb.Prelude.Int.{ℤ}
use cruzdb.Slice.{Slice}
use cruzdb.Node.{Node, nil, node, NodeAddress, has_rid}
use cruzdb.Image.Proto.{ProtoPtr, AfterImage}
use cruzdb.Image.Write.{
  to_u16, infect_node_ptr, infect_after_image, serialize_address, serialize_node_ptr,
  afterimage_ptr, intention_ptr,
}
use cruzdb.Image.Read.{LooseNode, deserialize_node_ptr, find_after_image_position, fetch}
use cruzdb.Image.Stored.{Plain, leaf, bin, plain, Stored, stored_nil, stored_node}
use cruzdb.Image.Infect.{infect-new, infect-old, has_rid-infect}

pub to_u16_lem : (n : ℕ) → n < 2 ^ 16 → to_u16 n ≡ n
to_u16_lem n h = omega arith

-- What is written of an address, and of a new node, as it is read.
deserialize_afterimage_ptr :
    (aipos p o : ℕ)
    → o < 2 ^ 16
    → deserialize_node_ptr aipos (afterimage_ptr p o)
      ≡ some (some (record { position = p; offset = o; is_afterimage = true }))
unfolding deserialize_node_ptr
deserialize_afterimage_ptr aipos p o h = rw (to_u16_lem o h) refl

deserialize_intention_ptr :
    (aipos p o : ℕ)
    → o < 2 ^ 16
    → deserialize_node_ptr aipos (intention_ptr p o none)
      ≡ some (some (record { position = p; offset = o; is_afterimage = false }))
unfolding deserialize_node_ptr
deserialize_intention_ptr aipos p o h = rw (to_u16_lem o h) refl

abbrev self_ptr : ℕ → ProtoPtr
self_ptr offset = record {
  is_nil = false;
  self = true;
  intention = none;
  afterimage = none;
  off = some offset;
}

deserialize_self_ptr :
    (aipos o : ℕ)
    → o < 2 ^ 16
    → deserialize_node_ptr aipos (self_ptr o)
      ≡ some (some (record { position = aipos; offset = o; is_afterimage = true }))
unfolding deserialize_node_ptr
deserialize_self_ptr aipos o h = rw (to_u16_lem o h) refl

serialize_new :
    (rid : ℤ) (intention : ℕ) (cached : ℕ → Option ℕ) (t : Node) (o : ℕ)
    → has_rid rid t ≡ true
    → o < 2 ^ 16
    → serialize_node_ptr rid cached
        (record {
          address =
              some (record { position = intention; offset = to_u16 o; is_afterimage = false });
          ref = t;
        })
        o
      ≡ some (self_ptr o)
unfolding serialize_node_ptr has_rid
serialize_new rid intention cached nil o h b = cc
serialize_new rid intention cached (node c i k v la l ra r) o h b =
    let e : (o == o) ≡ true = ground arith in
    rw (h, if◌then◌else◌, to_u16_lem o b, e, assert, ◌>>◌, ◌>>=◌) refl

serialize_old :
    (rid : ℤ) (cached : ℕ → Option ℕ) (c : Bool) (i : ℤ) (k v : Slice) (la : Option NodeAddress)
    (l : Node) (ra : Option NodeAddress) (r : Node) (x : NodeAddress) (o : ℕ)
    → has_rid rid (node c i k v la l ra r) ≡ false
    → serialize_node_ptr rid cached (record { address = some x; ref = node c i k v la l ra r }) o
      ≡ some (serialize_address cached x)
unfolding serialize_node_ptr
serialize_old rid cached c i k v la l ra r x o h = rw (h, if◌then◌else◌) refl

module _ (read_after_image : ℕ → Option AfterImage) (primary cached : ℕ → Option ℕ)
    (agrees : (i p : ℕ) → cached i ≡ some p → primary i ≡ some p) where
  abbrev pub load : NodeAddress → Option LooseNode
  load a = fetch read_after_image primary a

  -- An intention's address and that of its after image hold the same node.
  fetch_mapped :
      (i p o : ℕ)
      → primary i ≡ some p
      → load (record { position = p; offset = o; is_afterimage = true })
        ≡ load (record { position = i; offset = o; is_afterimage = false })
  unfolding fetch find_after_image_position
  fetch_mapped i p o e = rw (e, ◌>>=◌) refl

  Stored-mapped :
      (i p o : ℕ) (t : Plain)
      → primary i ≡ some p
      → Stored load (some (record { position = i; offset = o; is_afterimage = false })) t
      → Stored load (some (record { position = p; offset = o; is_afterimage = true })) t
  Stored-mapped i p o leaf e s = elim s [ ]
  Stored-mapped i p o (bin c k v l r) e (stored_node {n = n} f sl sr) =
      stored_node (fetch_mapped i p o e ∙ f) sl sr

  -- What is written of an address reads back as an address that holds the same tree.
  serialize_address-Stored :
      (aipos p o : ℕ) (b : Bool) (t : Plain)
      → o < 2 ^ 16
      → Stored load (some (record { position = p; offset = o; is_afterimage = b })) t
      → (q : Option NodeAddress) × (deserialize_node_ptr aipos
            (serialize_address cached (record { position = p; offset = o; is_afterimage = b }))
          ≡ some q)
        × Stored load q t
  unfolding serialize_address
  serialize_address-Stored aipos p o true t h s = (
    some (record { position = p; offset = o; is_afterimage = true }),
    deserialize_afterimage_ptr aipos p o h,
    s,
  )
  serialize_address-Stored aipos p o false t h s = elim (Option-cases (cached p)) [
    | inl e ↦ (
      some (record { position = p; offset = o; is_afterimage = false }),
      ap (λ z. deserialize_node_ptr aipos (intention_ptr p o z)) e
          ∙ deserialize_intention_ptr aipos p o h,
      s,
    )
    | inr (p', e) ↦ (
      some (record { position = p'; offset = o; is_afterimage = true }),
      ap (λ z. deserialize_node_ptr aipos (intention_ptr p o z)) e
          ∙ deserialize_afterimage_ptr aipos p' o h,
      Stored-mapped p p' o t (agrees p p' e) s,
    )
  ]

  -- The pointer from outside to a tree: a new node has its new children kept so, and any other node
  -- is in the log at the pointer's address.
  abbrev pub Kept : ℤ → Option NodeAddress → Node → Type 0
  Kept rid a nil = Unit
  Kept rid a (node c i k v la l ra r) = elim (has_rid rid (node c i k v la l ra r)) [
    | true ↦ Kept rid la l × Kept rid ra r
    | false ↦
        (x : NodeAddress) × (a ≡ some x)
        × (x.offset < 2 ^ 16)
        × Stored load (some x) (bin c k v (plain l) (plain r))
  ]

  -- A tree in the image: its root, where that is a new node, is the last one before the index.
  abbrev pub Written : ℤ → ℕ → Node → ℕ → Type 0
  Written rid aipos t index =
      has_rid rid t ≡ true
      → Stored load (some (record { position = aipos; offset = index - 1; is_afterimage = true }))
          (plain t)

  Kept-old :
      (rid : ℤ) (a : Option NodeAddress) (c : Bool) (i : ℤ) (k v : Slice) (la : Option NodeAddress)
      (l : Node) (ra : Option NodeAddress) (r : Node)
      → has_rid rid (node c i k v la l ra r) ≡ false
      → Kept rid a (node c i k v la l ra r)
      → (x : NodeAddress) × (a ≡ some x)
        × (x.offset < 2 ^ 16)
        × Stored load (some x) (bin c k v (plain l) (plain r))
  Kept-old rid a c i k v la l ra r h kept = rw (h, Kept) at kept

  pub Kept-new :
      (rid : ℤ) (a : Option NodeAddress) (c : Bool) (i : ℤ) (k v : Slice) (la : Option NodeAddress)
      (l : Node) (ra : Option NodeAddress) (r : Node)
      → has_rid rid (node c i k v la l ra r) ≡ true
      → Kept rid a (node c i k v la l ra r)
      → Kept rid la l × Kept rid ra r
  Kept-new rid a c i k v la l ra r h kept = rw (h, Kept) at kept

  -- What is wanted of a serialized pointer.
  abbrev pub ReadsBack : ℕ → Plain → ProtoPtr → Type 0
  ReadsBack aipos t p =
      (q : Option NodeAddress) × (deserialize_node_ptr aipos p ≡ some q) × Stored load q t

  has_rid_nil : (rid : ℤ) → has_rid rid nil ≡ false
  unfolding has_rid
  has_rid_nil rid = refl

  serialize_nil :
      (rid : ℤ) (aipos : ℕ) (a : Option NodeAddress) (o m : ℕ)
      → Holds
          (λ p. Written rid aipos nil m → ReadsBack aipos leaf p)
          (serialize_node_ptr rid cached (record { address = a; ref = nil }) o)
  unfolding serialize_node_ptr deserialize_node_ptr
  serialize_nil rid aipos a o m = λ _. (none, refl, stored_nil)

  -- The pointer to a child, after infection, is serialized without a failed assertion, and reads back
  -- as the child where that is written before it.
  pub serialize_node_ptr-ReadsBack :
      (rid : ℤ) (intention aipos : ℕ) (a : Option NodeAddress) (t : Node) (index : ℕ)
      → Kept rid a t
      → (infect_after_image rid intention t index).1 ≤ 2 ^ 16
      → Holds
          (λ p.
            Written rid aipos t (infect_after_image rid intention t index).1
            → ReadsBack aipos (plain t) p)
          (serialize_node_ptr rid cached
            (record {
              address =
                  infect_node_ptr rid intention
                    (record { address = a; ref = t })
                    ((infect_after_image rid intention t index).1 - 1);
              ref = (infect_after_image rid intention t index).0;
            })
            ((infect_after_image rid intention t index).1 - 1))
  unfolding infect_node_ptr
  serialize_node_ptr-ReadsBack rid intention aipos a nil index kept bound =
      rw (infect-old rid intention nil index (has_rid_nil rid)) (
        serialize_nil rid aipos
          (infect_node_ptr rid intention (record { address = a; ref = nil }) (index - 1))
          (index - 1) index)
  serialize_node_ptr-ReadsBack rid intention aipos a (node c i k v la l ra r) index kept bound =
      let t : Node = node c i k v la l ra r in
      elim (Bool-cases (has_rid rid (node c i k v la l ra r))) [
        | inl h ↦
            let p = infect_after_image rid intention t index in
            let b : p.1 - 1 < 2 ^ 16 = omega (arith, bound, infect-new rid intention t index h) in
            rw
              (
                h,
                if◌then◌else◌,
                serialize_new rid intention cached p.0 (p.1 - 1)
                    (has_rid-infect rid intention t index ∙ h) b,
              )
              (λ w. (
                some (record { position = aipos; offset = p.1 - 1; is_afterimage = true }),
                deserialize_self_ptr aipos (p.1 - 1) b,
                w refl,
              ))
        | inr h ↦
            let (x, e, b, s) = Kept-old rid a c i k v la l ra r h kept in
            rw
              (
                infect-old rid intention t index h,
                h,
                if◌then◌else◌,
                e,
                serialize_old rid cached c i k v la l ra r x (index - 1) h,
              )
              (λ _.
                serialize_address-Stored aipos x.position x.offset x.is_afterimage (plain t) b s)
      ]

-- A pointer to a new node with 2 ^ 16 nodes or more before it in the image gets an address with
-- another offset, since offsets have 16 bits; its serialization stops at an assertion.
pub serialize_node_ptr_overflow :
    (rid : ℤ) (intention : ℕ) (cached : ℕ → Option ℕ) (a : Option NodeAddress) (t : Node) (o : ℕ)
    → has_rid rid t ≡ true
    → 2 ^ 16 ≤ o
    → serialize_node_ptr rid cached
        (record {
          address = infect_node_ptr rid intention (record { address = a; ref = t }) o;
          ref = t;
        })
        o
      ≡ none
unfolding serialize_node_ptr infect_node_ptr has_rid
serialize_node_ptr_overflow rid intention cached a nil o h b = cc
serialize_node_ptr_overflow rid intention cached a (node c i k v la l ra r) o h b =
    let e : (o % 2 ^ 16 == o) ≡ false = ground (arith, mod_below o) in
    rw (h, if◌then◌else◌, e, assert, ◌>>◌, ◌>>=◌) refl
  where
    mod_below : (n : ℕ) → n % 2 ^ 16 < 2 ^ 16
    mod_below n = omega arith
