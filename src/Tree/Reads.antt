-- ===== src/Tree/Reads.antt =====
-- src/db/persistent_tree.{h,cc}: what `Get` reads after `Put`, `Delete` and `Copy`.
use cruzdb.Prelude.{none, some, ◌≡◌, ◌≢◌, sym, ◌∙◌, Holds, Holds-imp, ap}
use cruzdb.Slice.{Slice, SliceCompare}
use cruzdb.Dict.{lookup, lookup-upsert_self, lookup-upsert_ne, lookup-remove_ne}
use cruzdb.Tree.State.{PersistentTree, base_root, get, put, delete}
use cruzdb.Tree.Entries.{entries}
use cruzdb.Tree.Lookup.{get-lookup}
use cruzdb.Tree.Correct.{IsValid, Updated, Deleted, put-Updated, delete-Deleted}

module _ ⦃o : SliceCompare⦄ where
  -- On a valid tree `Get` returns what the sorted list of the entries holds for the key.
  pub get-base_root :
      (q : Slice) (t : PersistentTree)
      → IsValid (base_root t)
      → get q t ≡ lookup q (entries (base_root t))
  unfolding get
  get-base_root q t valid = get-lookup q (base_root t) valid.sorted

  -- On a valid tree `Put` succeeds, no assertion fails; then `Get` returns the new value for the key,
  -- and for every other key what it returned before.
  pub get-put :
      (q w : Slice) (t : PersistentTree)
      → IsValid (base_root t)
      → Holds (λ t'. (get q t' ≡ some w) × ((p : Slice) → p ≢ q → get p t' ≡ get p t)) (put q w t)
  get-put q w t valid =
      Holds-imp (Updated q w t) _ (put q w t)
        (λ t' u. (
          get-base_root q t' u.0
              ∙ ap (lookup q) u.1
              ∙ lookup-upsert_self q w (entries (base_root t)),
          λ p n.
              get-base_root p t' u.0
              ∙ ap (lookup p) u.1
              ∙ lookup-upsert_ne p q w (entries (base_root t)) n
              ∙ sym (get-base_root p t valid),
        ))
        (put-Updated q w t valid)

  -- On a valid tree `Delete` succeeds, no assertion fails; then `Get` finds the key no more, and
  -- returns for every other key what it returned before.
  pub get-delete :
      (q : Slice) (t : PersistentTree)
      → IsValid (base_root t)
      → Holds (λ t'. (get q t' ≡ none) × ((p : Slice) → p ≢ q → get p t' ≡ get p t)) (delete q t)
  get-delete q t valid =
      Holds-imp (Deleted q t) _ (delete q t)
        (λ t' d. (
          get-base_root q t' d.0 ∙ d.1.2,
          λ p n.
              get-base_root p t' d.0
              ∙ ap (lookup p) d.1.1
              ∙ lookup-remove_ne p q (entries (base_root t)) n
              ∙ sym (get-base_root p t valid),
        ))
        (delete-Deleted q t valid)
