-- ===== src/Tree/Correct.antt =====
-- src/db/persistent_tree.{h,cc}: the methods of `PersistentTree` against the dictionary of the
-- entries of its tree.
use cruzdb.Prelude.{
  ℕ, false, List, [], ◌++◌, some, ◌>>=◌, ◌≡◌, refl, sym, ◌∙◌, inl, inr, Holds, Holds->>=, Holds-imp,
  Option-cases, append-nil,
}
use cruzdb.Prelude.Int.{ℤ}
use cruzdb.Slice.{Slice, SliceCompare}
use cruzdb.Dict.{IsSorted, Without, Without-split, Without-absent, upsert, upsert-IsSorted}
use cruzdb.Node.{Node, nil, node, is_red}
use cruzdb.Tree.Path.{Frame}
use cruzdb.Tree.Insert.{insert_recursive, balance_insert}
use cruzdb.Tree.Delete.{delete_recursive, remove_node}
use cruzdb.Tree.State.{PersistentTree, base_root, put, delete}
use cruzdb.Tree.Entries.{entries, before, after, list_laws}
use cruzdb.Tree.Lookup.{get-lookup, insert_recursive-Inserted, insert_recursive-none}
use cruzdb.Tree.Balanced.{Balanced}
use cruzdb.Tree.InsertLoop.{balance_insert-Balanced}
use cruzdb.Tree.InsertPath.{insert_recursive-Fits}
use cruzdb.Tree.DeleteNode.{Removed, remove_node-Removed}
use cruzdb.Tree.DeletePath.{Found, delete_recursive-Found, delete_recursive-none}

-- A red-black search tree with a black root.
pub record IsValid ⦃o : SliceCompare⦄ (root : Node) : Type 0 where
  pub balanced : (h : ℕ) × Balanced root h
  pub black : is_red root ≡ false
  pub sorted : IsSorted (entries root)

module _ ⦃o : SliceCompare⦄ where
  -- The removal of a node that is found.
  delete-Found :
      (rid : ℤ) (q : Slice) (t : Node) (p : Node × List Frame)
      → IsSorted (entries t)
      → Found q t [] p
      → Holds
          (λ root. IsValid root × Without q (entries t) (entries root))
          (remove_node rid p.0 p.1)
  delete-Found rid q t (nil, above) s h = absurd h
  delete-Found rid q t (node c i k v la l ra r, above) s (e, f, h, b, fits, red) =
      Holds-imp (Removed above (entries l ++ entries r)) _
        (remove_node rid (node c i k v la l ra r) above)
        (λ root x.
          let w =
            Without-split q v (before above ++ entries l) (entries r ++ after above) (entries t)
              (entries root) s (f ∙ simp (e, list_laws)) (x.2 ∙ simp list_laws) in
          (record { balanced = x.0; black = x.1; sorted = w.0 }, w))
        (remove_node-Removed rid c i k v la l ra r above h b (rw append-nil at fits)
          (rw append-nil at red))

  -- A tree after a `Delete`: valid, without the key, and over the same snapshot.
  abbrev pub Deleted : Slice → PersistentTree → PersistentTree → Type 0
  Deleted q t t' =
      IsValid (base_root t')
      × Without q (entries (base_root t)) (entries (base_root t'))
      × (t'.rid ≡ t.rid)
      × (t'.src_root ≡ t.src_root)

  -- On a tree that is a red-black search tree with a black root, `Delete` fails no assertion and its
  -- loop ends; the result is such a tree again, over the same snapshot, and its entries are those
  -- before without the entry for the key.
  pub delete-Deleted :
      (q : Slice) (t : PersistentTree) → IsValid (base_root t) → Holds (Deleted q t) (delete q t)
  unfolding delete
  delete-Deleted q t valid = elim (Option-cases (delete_recursive t.rid q (base_root t))) [
    | inl missing ↦
        rw (missing, delete)
          (
            valid,
            Without-absent q (entries (base_root t)) valid.sorted (
                sym (get-lookup q (base_root t) valid.sorted)
                ∙ delete_recursive-none t.rid q (base_root t) missing),
            refl,
            refl,
          )
    | inr (p, found) ↦
        rw (found, delete)
          (Holds->>= (λ root. IsValid root × Without q (entries (base_root t)) (entries root)) _
            (remove_node t.rid p.0 p.1) _
            (delete-Found t.rid q (base_root t) p valid.sorted (
              delete_recursive-Found t.rid q (base_root t) p [] valid.balanced.0 valid.balanced.1 tt
                (inl valid.black) found))
            (λ root x. (x.0, x.1, refl, refl)))
  ]

  insert_fresh :
      (rid : ℤ) (q w : Slice) (t : Node) (p : Node × List Frame)
      → IsValid t
      → insert_recursive rid q w t ≡ some p
      → Holds
          (λ root. IsValid root × (entries root ≡ upsert q w (entries t)))
          (balance_insert rid p.0 p.1)
  insert_fresh rid q w t p valid e =
      let x = insert_recursive-Inserted rid q w t p valid.sorted e in
      let fits =
        insert_recursive-Fits rid q w t p [] valid.balanced.0 valid.balanced.1 tt (inl valid.black)
          e in
      Holds-imp _ _ (balance_insert rid p.0 p.1)
        (λ root y. (
          record {
            balanced = y.0;
            black = y.1;
            sorted = rw (y.2 ∙ x.1) (upsert-IsSorted q w (entries t) valid.sorted);
          },
          y.2 ∙ x.1,
        ))
        (balance_insert-Balanced rid p.0 p.1 1
          (rw x.0 (refl, refl, refl, refl), rw x.0 refl, rw append-nil at fits))

  -- A tree after a `Put`: valid, updated at the key, and over the same snapshot.
  abbrev pub Updated : Slice → Slice → PersistentTree → PersistentTree → Type 0
  Updated q w t t' =
      IsValid (base_root t')
      × (entries (base_root t') ≡ upsert q w (entries (base_root t)))
      × (t'.rid ≡ t.rid)
      × (t'.src_root ≡ t.src_root)

  -- The insertion of a key that has just been removed.
  put_again :
      (q w : Slice) (t t' : PersistentTree)
      → Deleted q t t'
      → Holds (Updated q w t) (
          insert_recursive t.rid q w (base_root t') >>= λ p.
          balance_insert t.rid p.0 p.1 >>= λ root. some (record t' { root = some root }))
  put_again q w t t' (valid, (s, _, absent, again), e, f) =
      elim (Option-cases (insert_recursive t.rid q w (base_root t'))) [
        | inl present ↦ absurd (
            insert_recursive-none t.rid q w (base_root t') present
              (get-lookup q (base_root t') valid.sorted ∙ absent))
        | inr (p, h) ↦
            rw (h, ◌>>=◌)
              (Holds->>=
                (λ root. IsValid root × (entries root ≡ upsert q w (entries (base_root t')))) _
                (balance_insert t.rid p.0 p.1) _ (insert_fresh t.rid q w (base_root t') p valid h)
                (λ root x. (x.0, x.1 ∙ again w, e, f)))
      ]

  -- On a tree that is a red-black search tree with a black root, `Put` fails no assertion and its
  -- loop ends; the result is such a tree again, over the same snapshot, and its entries are those
  -- before updated at the key, which was there or not.
  pub put-Updated :
      (q w : Slice) (t : PersistentTree) → IsValid (base_root t) → Holds (Updated q w t) (put q w t)
  unfolding put
  put-Updated q w t valid = elim (Option-cases (insert_recursive t.rid q w (base_root t))) [
    | inr (p, e) ↦
        rw (e, put)
          (Holds->>= (λ root. IsValid root × (entries root ≡ upsert q w (entries (base_root t)))) _
            (balance_insert t.rid p.0 p.1) _ (insert_fresh t.rid q w (base_root t) p valid e)
            (λ root x. (x.0, x.1, refl, refl)))
    | inl present ↦
        rw (present, put)
          (Holds->>= (Deleted q t) _ (delete q t) _ (delete-Deleted q t valid)
            (λ t' d. put_again q w t t' d))
  ]
