-- ===== src/Tree/Lookup.antt =====
-- src/db/persistent_tree.cc: what `Get` reads, and the entries that insertion leaves.
use Prim.Native.Nat.Ordering.{lt, eq, gt}
use cruzdb.Prelude.{
  Bool, true, List, [], ◌∷◌, ◌++◌, Option, none, some, ◌>>=◌, ◌≡◌, refl, sym, ◌∙◌, arith,
  some_injective, >>=-eq-some, >>=-eq-none, ◌≢◌, inl, inr, Ordering-cases,
}
use mathlib.Core.Path.{subst}
use cruzdb.Prelude.Int.{ℤ}
use cruzdb.Slice.{Slice, SliceCompare}
use cruzdb.Dict.{
  Below, IsSorted, IsSorted-split, lookup, upsert, upsert_left, upsert_right, lookup_left,
  lookup_right, lookup_here,
}
use cruzdb.Node.{Node, nil, node, left, right, NodeAddress}
use cruzdb.Tree.Path.{Frame, rebuild}
use cruzdb.Tree.Insert.{get, insert_recursive}
use cruzdb.Tree.Entries.{entries, frame, own-node, rebuild-append}

module _ ⦃o : SliceCompare⦄ where
  -- `Get` reads a tree with sorted entries as the dictionary of its entries.
  pub get-lookup : (q : Slice) (t : Node) → IsSorted (entries t) → get q t ≡ lookup q (entries t)
  unfolding get lookup
  get-lookup q nil s = refl
  get-lookup q (node c i k v la l ra r) s =
      let (sl, bl, ar, sr) = IsSorted-split (entries l) (k, v) (entries r) s in
      ground (
        arith,
        get-lookup q l sl,
        get-lookup q r sr,
        lookup_left q (entries l) (k, v) (entries r),
        lookup_right q (entries l) (k, v) (entries r),
        o.lt_of_gt q k,
        lookup_here q k v (entries l) (entries r) bl,
      )

-- The node that `insert_recursive` makes.
abbrev pub fresh : ℤ → Slice → Slice → Node
fresh rid q w = node true rid q w none nil none nil

module _ ⦃o : SliceCompare⦄ (rid : ℤ) (q w : Slice) where
  module _ (c : Bool) (i : ℤ) (k v : Slice) (la : Option NodeAddress) (l : Node)
      (ra : Option NodeAddress) (r : Node) where
    pub insert_recursive_left :
        o.compare q k ≡ lt
        → insert_recursive rid q w (node c i k v la l ra r) ≡ (
            insert_recursive rid q w l >>= λ p.
            some (p.0, p.1 ++ frame left c rid k v la (record { address = ra; ref = r }) ∷ []))
    unfolding insert_recursive
    insert_recursive_left h = rw (h, insert_recursive, own-node) refl

    pub insert_recursive_right :
        o.compare q k ≡ gt
        → insert_recursive rid q w (node c i k v la l ra r) ≡ (
            insert_recursive rid q w r >>= λ p.
            some (p.0, p.1 ++ frame right c rid k v ra (record { address = la; ref = l }) ∷ []))
    unfolding insert_recursive
    insert_recursive_right h = rw (h, insert_recursive, own-node) refl

    pub insert_recursive-eq :
        o.compare q k ≡ eq → insert_recursive rid q w (node c i k v la l ra r) ≡ none
    unfolding insert_recursive
    insert_recursive-eq h = rw (h, insert_recursive) refl

  -- The new node and the path to it, for a key that is absent: the entries are updated at the key.
  abbrev pub Inserted : Node → Node × List Frame → Type 0
  Inserted t p = (p.0 ≡ fresh rid q w) × (entries (rebuild p.0 p.1) ≡ upsert q w (entries t))

  module _ (c : Bool) (i : ℤ) (k v : Slice) (la : Option NodeAddress) (l : Node)
      (ra : Option NodeAddress) (r : Node) (p : Node × List Frame) where
    Inserted-left :
        o.compare q k ≡ lt
        → Inserted l p
        → Inserted
            (node c i k v la l ra r)
            (p.0, p.1 ++ frame left c rid k v la (record { address = ra; ref = r }) ∷ [])
    Inserted-left less h =
        (h.0, simp (rebuild-append, h.1, upsert_left q w (entries l) (k, v) (entries r) less))

    Inserted-right :
        o.compare q k ≡ gt
        → Below k (entries l)
        → Inserted r p
        → Inserted
            (node c i k v la l ra r)
            (p.0, p.1 ++ frame right c rid k v ra (record { address = la; ref = l }) ∷ [])
    Inserted-right more b h = (
      h.0,
      simp (
        rebuild-append,
        h.1,
        upsert_right q w (entries l) (k, v) (entries r) (o.lt_of_gt q k more) b,
      ),
    )

  Inserted-nil : (p : Node × List Frame) → insert_recursive rid q w nil ≡ some p → Inserted nil p
  unfolding insert_recursive upsert
  Inserted-nil p h = subst (Inserted nil) (some_injective h) (refl, refl)

  pub insert_recursive-Inserted :
      (t : Node) (p : Node × List Frame)
      → IsSorted (entries t)
      → insert_recursive rid q w t ≡ some p
      → Inserted t p
  insert_recursive-Inserted nil p s h = Inserted-nil p h
  insert_recursive-Inserted (node c i k v la l ra r) p s h =
      let (sl, bl, ar, sr) = IsSorted-split (entries l) (k, v) (entries r) s in
      elim (Ordering-cases (o.compare q k)) [
        | inl less ↦
            let step = insert_recursive_left c i k v la l ra r less in
            let (p', e, g) = >>=-eq-some _ _ (sym step ∙ h) in
            subst (Inserted (node c i k v la l ra r)) (some_injective g)
              (Inserted-left c i k v la l ra r p' less (insert_recursive-Inserted l p' sl e))
        | inr (inl same) ↦ cc (insert_recursive-eq c i k v la l ra r same)
        | inr (inr more) ↦
            let step = insert_recursive_right c i k v la l ra r more in
            let (p', e, g) = >>=-eq-some _ _ (sym step ∙ h) in
            subst (Inserted (node c i k v la l ra r)) (some_injective g)
              (Inserted-right c i k v la l ra r p' more bl (insert_recursive-Inserted r p' sr e))
      ]

  get_less :
      (c : Bool) (i : ℤ) (k v : Slice) (la : Option NodeAddress) (l : Node)
      (ra : Option NodeAddress) (r : Node)
      → (o.compare q k ≡ lt → get q (node c i k v la l ra r) ≡ get q l)
        × (o.compare q k ≡ gt → get q (node c i k v la l ra r) ≡ get q r)
        × (o.compare q k ≡ eq → get q (node c i k v la l ra r) ≡ some v)
  unfolding get
  get_less c i k v la l ra r =
      ((λ e. rw (e, get) refl), (λ e. rw (e, get) refl), (λ e. rw (e, get) refl))

  insert_recursive_nil : insert_recursive rid q w nil ≡ none → ⊥
  unfolding insert_recursive
  insert_recursive_nil e = cc

  -- Insertion refuses exactly the keys that `Get` finds.
  pub insert_recursive-none : (t : Node) → insert_recursive rid q w t ≡ none → get q t ≢ none
  insert_recursive-none nil e = absurd (insert_recursive_nil e)
  insert_recursive-none (node c i k v la l ra r) e = elim (Ordering-cases (o.compare q k)) [
    | inl less ↦ rw ((get_less c i k v la l ra r).0 less) (
        insert_recursive-none l
          (>>=-eq-none _ _ (sym (insert_recursive_left c i k v la l ra r less) ∙ e)))
    | inr (inl same) ↦ rw ((get_less c i k v la l ra r).2 same) (λ x. cc)
    | inr (inr more) ↦ rw ((get_less c i k v la l ra r).1 more) (
        insert_recursive-none r
          (>>=-eq-none _ _ (sym (insert_recursive_right c i k v la l ra r more) ∙ e)))
  ]
