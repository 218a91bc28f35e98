-- ===== src/Tree/Copies.antt =====
-- src/db/persistent_tree.cc: `Copy`, which replaces the path to a key by copies of its nodes.
use cruzdb.Prelude.{
  ℕ, zero, suc, Bool, true, false, Option, none, some, ◌>>=◌, ◌≡◌, refl, sym, ap, ◌∙◌, inl, inr,
  Option-cases, Ordering-cases, ◌++◌, ◌∷◌, if◌then◌else◌, Bool-cases,
}
use cruzdb.Prelude.Int.{ℤ}
use cruzdb.Slice.{Slice, SliceCompare}
use cruzdb.Dict.{lookup}
use cruzdb.Node.{Node, NodeAddress, nil, node, is_red, copy, has_rid}
use cruzdb.Tree.State.{PersistentTree, base_root, get, copy_recursive, copy_path}
use cruzdb.Tree.Entries.{entries, own-node}
use cruzdb.Tree.Balanced.{Balanced}
use cruzdb.Tree.Correct.{IsValid}
use cruzdb.Tree.Reads.{get-base_root}

-- A tree with the same entries, colour and black height.
abbrev Same : Node → Node → Type 0
Same t t' =
    (entries t' ≡ entries t) × (is_red t' ≡ is_red t) × ((h : ℕ) → Balanced t h → Balanced t' h)

black_left :
    (i j : ℤ) (k v : Slice) (la ra : Option NodeAddress) (l l' r : Node)
    → ((h : ℕ) → Balanced l h → Balanced l' h)
    → (h : ℕ) → Balanced (node false i k v la l ra r) h
    → Balanced (node false j k v la l' ra r) h
black_left i j k v la ra l l' r b zero x = x
black_left i j k v la ra l l' r b (suc h) x = (b h x.0, x.1)

black_right :
    (i j : ℤ) (k v : Slice) (la ra : Option NodeAddress) (l r r' : Node)
    → ((h : ℕ) → Balanced r h → Balanced r' h)
    → (h : ℕ) → Balanced (node false i k v la l ra r) h
    → Balanced (node false j k v la l ra r') h
black_right i j k v la ra l r r' b zero x = x
black_right i j k v la ra l r r' b (suc h) x = (x.0, b h x.1)

Same-left :
    (c : Bool) (i j : ℤ) (k v : Slice) (la ra : Option NodeAddress) (l l' r : Node)
    → Same l l'
    → Same (node c i k v la l ra r) (node c j k v la l' ra r)
Same-left true i j k v la ra l l' r (e, f, b) =
    (ap (λ z. z ++ (k, v) ∷ entries r) e, refl, (λ h x. (f ∙ x.0, x.1, b h x.2, x.3)))
Same-left false i j k v la ra l l' r (e, f, b) =
    (ap (λ z. z ++ (k, v) ∷ entries r) e, refl, black_left i j k v la ra l l' r b)

Same-right :
    (c : Bool) (i j : ℤ) (k v : Slice) (la ra : Option NodeAddress) (l r r' : Node)
    → Same r r'
    → Same (node c i k v la l ra r) (node c j k v la l ra r')
Same-right true i j k v la ra l r r' (e, f, b) =
    (ap (λ z. entries l ++ (k, v) ∷ z) e, refl, (λ h x. (x.0, f ∙ x.1, x.2, b h x.3)))
Same-right false i j k v la ra l r r' (e, f, b) =
    (ap (λ z. entries l ++ (k, v) ∷ z) e, refl, black_right i j k v la ra l r r' b)

Same-refl : (t : Node) → Same t t
Same-refl t = (refl, refl, (λ h x. x))

abbrev Copied : Node → Option Node → Type 0
Copied t none = Unit
Copied t (some t') = Same t t'

module _ ⦃o : SliceCompare⦄ where
  copy_recursive-Copied : (rid : ℤ) (q : Slice) (t : Node) → Copied t (copy_recursive rid q t)
  unfolding copy_recursive copy
  copy_recursive-Copied rid q nil = tt
  copy_recursive-Copied rid q (node c i k v la l ra r) = elim (Ordering-cases (o.compare q k)) [
    | inl e ↦ elim (Option-cases (copy_recursive rid q l)) [
      | inl n ↦ rw (e, copy_recursive, n, ◌>>=◌) tt
      | inr (l', n) ↦
          let x : Copied l (some l') = rw n at (copy_recursive-Copied rid q l) in
          rw (e, copy_recursive, n, ◌>>=◌, own-node rid c i k v la l ra r)
            (Same-left c i rid k v la ra l l' r x)
    ]
    | inr (inl e) ↦ elim (Bool-cases (has_rid rid (node c i k v la l ra r))) [
      | inl n ↦ rw (e, copy_recursive, n, if◌then◌else◌) tt
      | inr n ↦
          rw (e, copy_recursive, n, if◌then◌else◌) (Same-left c i rid k v la ra l l r (Same-refl l))
    ]
    | inr (inr e) ↦ elim (Option-cases (copy_recursive rid q r)) [
      | inl n ↦ rw (e, copy_recursive, n, ◌>>=◌) tt
      | inr (r', n) ↦
          let x : Copied r (some r') = rw n at (copy_recursive-Copied rid q r) in
          rw (e, copy_recursive, n, ◌>>=◌, own-node rid c i k v la l ra r)
            (Same-right c i rid k v la ra l r r' x)
    ]
  ]

  -- `Copy` of a key, there or not, keeps a valid tree valid with the same entries and the same
  -- snapshot, and `Get` returns for every key what it returned before.
  pub get-copy_path :
      (q : Slice) (t : PersistentTree)
      → IsValid (base_root t)
      → IsValid (base_root (copy_path q t))
        × (entries (base_root (copy_path q t)) ≡ entries (base_root t))
        × ((copy_path q t).src_root ≡ t.src_root)
        × ((p : Slice) → get p (copy_path q t) ≡ get p t)
  unfolding copy_path
  get-copy_path q t valid = elim (Option-cases (copy_recursive t.rid q (base_root t))) [
    | inl n ↦ rw (n, copy_path) (valid, refl, refl, (λ p. refl))
    | inr (r, n) ↦
        let x : Copied (base_root t) (some r) =
          rw n at (copy_recursive-Copied t.rid q (base_root t)) in
        let u : PersistentTree = record t { root = some r } in
        let w : IsValid r = record {
          balanced = (valid.balanced.0, x.2 valid.balanced.0 valid.balanced.1);
          black = x.1 ∙ valid.black;
          sorted = rw (x.0) valid.sorted;
        } in
        rw (n, copy_path)
          (
            w,
            x.0,
            refl,
            (λ p. get-base_root p u w ∙ ap (lookup p) x.0 ∙ sym (get-base_root p t valid)),
          )
  ]
