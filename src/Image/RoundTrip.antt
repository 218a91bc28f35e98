-- ===== src/Image/RoundTrip.antt =====
-- src/db/persistent_tree.cc and src/db/node_cache.cc: an after image, written and read back.
use cruzdb.Prelude.{
  ◌||◌, ◌>>◌, assert, append-nil, some_injective, ℕ, ◌+◌, ◌-◌, ◌^◌, ◌≤◌, Bool, true, false, List,
  [], ◌∷◌, ◌++◌, append_assoc, Option, some, ◌>>=◌, ◌≡◌, refl, sym, ap, ◌∙◌, if◌then◌else◌, arith,
  Holds, Holds-some, Bool-cases, inl, inr, length, length-append, get_elem?,
}
use cruzdb.Prelude.Int.{ℤ, pos}
use cruzdb.Node.{Node, nil, node, NodePtr, NodeAddress, has_rid, is_nil}
use cruzdb.Tree.State.{PersistentTree}
use cruzdb.Image.Proto.{ProtoPtr, ProtoNode, AfterImage}
use cruzdb.Image.Write.{
  infect_node_ptr, infect_after_image, serialize_node_ptr, serialize_node, serialize_intention,
  serialize_after_image,
}
use cruzdb.Image.Read.{deserialize_node, find_after_image_position, fetch}
use cruzdb.Image.Stored.{Plain, bin, plain, Stored, stored_node}
use cruzdb.Image.Infect.{infect-le, infect-old, infect-node, has_rid-infect}
use cruzdb.Image.Pointers.{Kept, Kept-new, Written, ReadsBack, serialize_node_ptr-ReadsBack}

get_elem?-append {ℓ} :
    {A : Type ℓ} (xs : List A) (x : A) (ys : List A) → get_elem? (xs ++ x ∷ ys) (length xs) ≡ some x
get_elem?-append [] x ys = refl
get_elem?-append (z ∷ xs) x ys = get_elem?-append xs x ys

has_rid_nil : (rid : ℤ) → has_rid rid nil ≡ false
unfolding has_rid
has_rid_nil rid = refl

has_rid_nil_lem : (rid : ℤ) → has_rid rid nil ≡ true → ⊥
unfolding has_rid
has_rid_nil_lem rid h = cc

-- The tree of an after image as it is when it is serialized.
abbrev pub infected : ℤ → ℕ → NodePtr → Node → PersistentTree
infected rid intention src_root root = record {
  src_root = src_root;
  root = some (infect_after_image rid intention root 0).0;
  rid = rid;
}

pub or_right : (b : Bool) → (b || true) ≡ true
or_right true = refl
or_right false = refl

module _ (read_after_image : ℕ → Option AfterImage) (primary cached : ℕ → Option ℕ)
    (agrees : (i p : ℕ) → cached i ≡ some p → primary i ≡ some p) (aipos : ℕ) (rid : ℤ)
    (intention : ℕ) where
  -- A node of the image, with the trees of its two pointers.
  node-Stored :
      (image : AfterImage) (n : ProtoNode) (zs ys : List ProtoNode) (o : ℕ) (l r : Plain)
      → read_after_image aipos ≡ some image
      → image.tree ≡ zs ++ n ∷ ys
      → o ≡ length zs
      → ReadsBack read_after_image primary cached agrees aipos l n.left
      → ReadsBack read_after_image primary cached agrees aipos r n.right
      → Stored
          (fetch read_after_image primary)
          (some (record { position = aipos; offset = o; is_afterimage = true }))
          (bin n.red n.key n.val l r)
  unfolding fetch find_after_image_position deserialize_node
  node-Stored image n zs ys o l r in_log e f (p, fp, sp) (q, fq, sq) =
      stored_node
        {n = record {
          red = n.red;
          rid = pos image.intention;
          key = n.key;
          val = n.val;
          left = p;
          right = q;
        }}
        (rw (in_log, ◌>>=◌, e, f, get_elem?-append zs n ys, fp, fq) refl) sp sq

  -- What the serialization of a tree emits from an index on.
  abbrev Emits : Node → ℕ → ℕ → List ProtoNode × ℕ → Type 0
  Emits t index end (ns, j) =
      (j ≡ end)
      × (j ≡ index + length ns)
      × ((image : AfterImage) (xs ys : List ProtoNode)
          → read_after_image aipos ≡ some image
          → image.tree ≡ xs ++ ns ++ ys
          → length xs ≡ index
          → Written read_after_image primary cached agrees rid aipos t j)

  abbrev Wl : Node → ℕ → Type 0
  Wl t index = Written read_after_image primary cached agrees rid aipos t index

  abbrev Rb : Plain → ProtoPtr → Type 0
  Rb t p = ReadsBack read_after_image primary cached agrees aipos t p

  serialize_intention-Emits :
      (t : Node) (a : Option NodeAddress) (index : ℕ)
      → Kept read_after_image primary cached agrees rid a t
      → (infect_after_image rid intention t index).1 ≤ 2 ^ 16
      → Holds
          (Emits t index (infect_after_image rid intention t index).1)
          (serialize_intention rid cached (infect_after_image rid intention t index).0 index)
  unfolding serialize_intention serialize_node
  serialize_intention-Emits nil a index kept bound =
      rw (infect-old rid intention nil index (has_rid_nil rid))
        (refl, omega arith, (λ image xs ys g e f h. absurd (has_rid_nil_lem rid h)))
  serialize_intention-Emits (node c i k v la l ra r) a index kept bound =
      let t : Node = node c i k v la l ra r in
      elim (Bool-cases (has_rid rid (node c i k v la l ra r))) [
        | inr h ↦
            rw (infect-old rid intention t index h, h, if◌then◌else◌)
              (refl, omega arith, (λ image xs ys g e f h'. cc))
        | inl h ↦
            let (kl, kr) =
              Kept-new read_after_image primary cached agrees rid a c i k v la l ra r h kept in
            let P = infect_after_image rid intention l index in
            let Q = infect_after_image rid intention r P.1 in
            let g = ap (λ z. z.1) (infect-node rid intention c i k v la l ra r index h) in
            let b : Q.1 ≤ 2 ^ 16 = omega (arith, g, bound) in
            let b' : P.1 ≤ 2 ^ 16 = omega (arith, b, infect-le rid intention r P.1) in
            let B : NodePtr = record {
              address = infect_node_ptr rid intention (record { address = ra; ref = r }) (Q.1 - 1);
              ref = Q.0;
            } in
            let A : NodePtr = record {
              address = infect_node_ptr rid intention (record { address = la; ref = l }) (P.1 - 1);
              ref = P.0;
            } in
            let (pl, el, (jl, nl, wl)) =
              Holds-some (Emits l index P.1) (serialize_intention rid cached P.0 index)
                (serialize_intention-Emits l la index kl b') in
            let (pr, er, (jr, nr, wr)) =
              Holds-some (Emits r P.1 Q.1) (serialize_intention rid cached Q.0 P.1)
                (serialize_intention-Emits r ra P.1 kr b) in
            let (x, ex, bx) =
              Holds-some (λ p. Wl l P.1 → Rb (plain l) p)
                (serialize_node_ptr rid cached A (P.1 - 1))
                (serialize_node_ptr-ReadsBack read_after_image primary cached agrees rid intention
                  aipos la l index kl b') in
            let (y, ey, by) =
              Holds-some (λ p. Wl r Q.1 → Rb (plain r) p)
                (serialize_node_ptr rid cached B (Q.1 - 1))
                (serialize_node_ptr-ReadsBack read_after_image primary cached agrees rid intention
                  aipos ra r P.1 kr b) in
            let h' : has_rid rid (node c i k v A.address P.0 B.address Q.0) ≡ true =
              sym (ap (λ z. has_rid rid z.0) (infect-node rid intention c i k v la l ra r index h))
              ∙ has_rid-infect rid intention t index
              ∙ h in
            let n : ProtoNode = record { red = c; key = k; val = v; left = x; right = y } in
            let m : length ((pl.0 ++ pr.0) ++ n ∷ []) ≡ (length pl.0 + length pr.0) + 1 =
              omega (arith, length-append (pl.0 ++ pr.0) (n ∷ []), length-append pl.0 pr.0) in
            let after_l : (xs : List ProtoNode) → length (xs ++ pl.0) ≡ length xs + length pl.0 =
              λ xs. length-append xs pl.0 in
            let after_r : (xs : List ProtoNode)
                → length ((xs ++ pl.0) ++ pr.0) ≡ length (xs ++ pl.0) + length pr.0 =
              λ xs. length-append (xs ++ pl.0) pr.0 in
            rw
              (
                infect-node rid intention c i k v la l ra r index h,
                h',
                if◌then◌else◌,
                el,
                jl,
                er,
                jr,
                ex,
                ey,
                ◌>>=◌,
              )
              (
                refl,
                omega (arith, m, jl, nl, jr, nr),
                λ image xs ys in_log e f _.
                    node-Stored image n ((xs ++ pl.0) ++ pr.0) ys ((Q.1 + 1) - 1) (plain l)
                      (plain r) in_log (e ∙ simp append_assoc)
                      (omega (arith, jl, nl, jr, nr, f, after_l xs, after_r xs))
                      (bx
                        (rw jl at (wl image xs (pr.0 ++ n ∷ ys) in_log (e ∙ simp append_assoc) f)))
                      (by (
                        rw jr at (
                          wr image (xs ++ pl.0) (n ∷ ys) in_log (e ∙ simp append_assoc)
                            (omega (arith, jl, nl, f, after_l xs))))),
              )
      ]

  -- The serialization of an infected tree fails no assertion where the tree has at most 2 ^ 16 new
  -- nodes and every other node below them is in the log at the address of its pointer; the image has
  -- the intention's position and one node for every index that infection has given.
  pub serialize_after_image_total :
      (src_root : NodePtr) (root : Node) (a : Option NodeAddress)
      → has_rid rid root ≡ true
      → Kept read_after_image primary cached agrees rid a root
      → (infect_after_image rid intention root 0).1 ≤ 2 ^ 16
      → Holds
          (λ image.
            (image.intention ≡ intention)
            × (length image.tree ≡ (infect_after_image rid intention root 0).1))
          (serialize_after_image cached (infected rid intention src_root root) intention)
  unfolding serialize_after_image
  serialize_after_image_total src_root root a h kept bound =
      let t = (infect_after_image rid intention root 0).0 in
      let (p, e, (j, n, _)) =
        Holds-some (Emits root 0 (infect_after_image rid intention root 0).1)
          (serialize_intention rid cached t 0) (serialize_intention-Emits root a 0 kept bound) in
      rw (has_rid-infect rid intention root 0 ∙ h, or_right (is_nil t), assert, ◌>>◌, ◌>>=◌, e)
        (refl, omega (arith, j, n))

  pub image-Stored :
      (src_root : NodePtr) (root : Node) (a : Option NodeAddress) (image : AfterImage)
      → has_rid rid root ≡ true
      → Kept read_after_image primary cached agrees rid a root
      → (infect_after_image rid intention root 0).1 ≤ 2 ^ 16
      → serialize_after_image cached (infected rid intention src_root root) intention ≡ some image
      → read_after_image aipos ≡ some image
      → Stored
          (fetch read_after_image primary)
          (some (record {
            position = aipos;
            offset = (infect_after_image rid intention root 0).1 - 1;
            is_afterimage = true;
          }))
          (plain root)
  unfolding serialize_after_image
  image-Stored src_root root a image h kept bound s in_log =
      let t = (infect_after_image rid intention root 0).0 in
      let (p, e, (j, n, w)) =
        Holds-some (Emits root 0 (infect_after_image rid intention root 0).1)
          (serialize_intention rid cached t 0) (serialize_intention-Emits root a 0 kept bound) in
      let f : some (record { intention = intention; tree = p.0 }) ≡ some image =
        rw (has_rid-infect rid intention root 0 ∙ h, or_right (is_nil t), assert, ◌>>◌, ◌>>=◌, e) at
          s in
      rw j at (
        w image [] [] in_log (sym (ap (λ z. z.tree) (some_injective f)) ∙ sym (append-nil p.0)) refl
          h)
