-- ===== src/Image/Infect.antt =====
-- src/db/persistent_tree.cc: what `infect_after_image` leaves as it is.
use cruzdb.Prelude.{
  Option, ℕ, ◌+◌, ◌-◌, ◌≤◌, ◌<◌, Bool, true, false, ◌≡◌, refl, ap, ◌∙◌, if◌then◌else◌, arith,
  Bool-cases, inl, inr,
}
use cruzdb.Prelude.Int.{ℤ}
use cruzdb.Slice.{Slice}
use cruzdb.Node.{Node, NodeAddress, nil, node, has_rid}
use cruzdb.Image.Write.{infect_after_image, infect_node_ptr}
use cruzdb.Image.Stored.{plain, bin}

module _ (rid : ℤ) (intention : ℕ) where
  pub infect-le : (t : Node) (index : ℕ) → index ≤ (infect_after_image rid intention t index).1
  unfolding infect_after_image
  infect-le nil index = omega arith
  infect-le (node c i k v la l ra r) index =
      let a = infect-le l index in
      let b = infect-le r (infect_after_image rid intention l index).1 in ground (arith, a, b)

  -- The new nodes and the others, each with what infection makes of it.
  pub infect-new :
      (t : Node) (index : ℕ)
      → has_rid rid t ≡ true
      → index < (infect_after_image rid intention t index).1
  unfolding infect_after_image has_rid
  infect-new nil index h = ground arith
  infect-new (node c i k v la l ra r) index h =
      let a = infect-le l index in
      let b = infect-le r (infect_after_image rid intention l index).1 in
      rw (h, if◌then◌else◌) (omega (arith, a, b))

  pub infect-old :
      (t : Node) (index : ℕ)
      → has_rid rid t ≡ false
      → infect_after_image rid intention t index ≡ (t, index)
  unfolding infect_after_image
  infect-old nil index h = refl
  infect-old (node c i k v la l ra r) index h = rw (h, if◌then◌else◌) refl

  -- One round of the recursion at a new node.
  pub infect-node :
      (c : Bool) (i : ℤ) (k v : Slice) (la : Option NodeAddress) (l : Node)
      (ra : Option NodeAddress) (r : Node) (index : ℕ)
      → has_rid rid (node c i k v la l ra r) ≡ true
      → infect_after_image rid intention (node c i k v la l ra r) index ≡ (
          let p = infect_after_image rid intention l index in
          let q = infect_after_image rid intention r p.1 in
          (
            node c i k v
                (infect_node_ptr rid intention (record { address = la; ref = l }) (p.1 - 1))
                p.0
                (infect_node_ptr rid intention (record { address = ra; ref = r }) (q.1 - 1))
                q.0,
            q.1 + 1,
          ))
  unfolding infect_after_image
  infect-node c i k v la l ra r index h = rw (h, if◌then◌else◌) refl

  pub has_rid-infect :
      (t : Node) (index : ℕ)
      → has_rid rid (infect_after_image rid intention t index).0 ≡ has_rid rid t
  unfolding has_rid
  has_rid-infect nil index = ap (λ z. has_rid rid z.0) (infect-old nil index refl)
  has_rid-infect (node c i k v la l ra r) index =
      elim (Bool-cases (has_rid rid (node c i k v la l ra r))) [
        | inl h ↦ ap (λ z. has_rid rid z.0) (infect-node c i k v la l ra r index h)
        | inr h ↦ ap (λ z. has_rid rid z.0) (infect-old (node c i k v la l ra r) index h)
      ]

  pub plain-infect :
      (t : Node) (index : ℕ) → plain (infect_after_image rid intention t index).0 ≡ plain t
  unfolding has_rid
  plain-infect nil index = ap (λ z. plain z.0) (infect-old nil index refl)
  plain-infect (node c i k v la l ra r) index =
      let p = infect_after_image rid intention l index in
      elim (Bool-cases (has_rid rid (node c i k v la l ra r))) [
        | inl h ↦
            ap (λ z. plain z.0) (infect-node c i k v la l ra r index h)
            ∙ ap (λ z. bin c k v z (plain (infect_after_image rid intention r p.1).0))
                (plain-infect l index)
            ∙ ap (bin c k v (plain l)) (plain-infect r p.1)
        | inr h ↦ ap (λ z. plain z.0) (infect-old (node c i k v la l ra r) index h)
      ]
