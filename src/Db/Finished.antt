-- ===== src/Db/Finished.antt =====
-- src/db/db_impl.cc: `FinishedTransactions`, the trees of the transactions of this process.
use mathlib.Core.Path.{subst}
use cruzdb.Prelude.{
  ℕ, List, [], ◌∷◌, Option, none, some, ◌>>◌, assert, leb, if◌then◌else◌, ◌≡◌, refl, arith, ◌≤◌,
  Option-cases, inl, inr, some_injective,
}
use cruzdb.Prelude.Map.{
  find_key, update_key, emplace_key, find_key-emplace_self, find_key-update_self,
}
use cruzdb.Txn.Intention.{is_none}

module _ {A : Type 0} where
  -- `Find` moves the tree out of the map, and leaves a null pointer behind.
  unfoldable pub find_finished : ℕ → List (ℕ × Option A) → Option A × List (ℕ × Option A)
  find_finished ipos txns = elim (find_key ipos txns) [
    | none ↦ (none, txns)
    | some t ↦ (t, update_key ipos none txns)
  ]

  unfoldable pub insert_finished : ℕ → A → List (ℕ × Option A) → Option (List (ℕ × Option A))
  insert_finished ipos tree txns = do
    assert (is_none (find_key ipos txns))
    some (emplace_key ipos (some tree) txns)

  -- `Clean`
  unfoldable pub clean_finished : ℕ → List (ℕ × Option A) → List (ℕ × Option A)
  clean_finished last_ipos [] = []
  clean_finished last_ipos (e ∷ es) =
      let rest = clean_finished last_ipos es in if leb e.0 last_ipos then rest else e ∷ rest

  clean-find :
      (ipos last_ipos : ℕ) (txns : List (ℕ × Option A))
      → ipos ≤ last_ipos
      → find_key ipos (clean_finished last_ipos txns) ≡ none
  unfolding clean_finished find_key
  clean-find ipos last_ipos [] l = refl
  clean-find ipos last_ipos (e ∷ es) l = ground (arith, clean-find ipos last_ipos es)

  inserted :
      (ipos : ℕ) (tree : A) (txns txns' : List (ℕ × Option A))
      → insert_finished ipos tree txns ≡ some txns'
      → find_key ipos txns' ≡ some (some tree)
  unfolding insert_finished
  inserted ipos tree txns txns' h = elim (Option-cases (find_key ipos txns)) [
    | inl f ↦
        let g : some (emplace_key ipos (some tree) txns) ≡ some txns' =
          rw (f, insert_finished) at h in
        subst (λ x. find_key ipos x ≡ some (some tree)) (some_injective g)
          (find_key-emplace_self ipos (some tree) txns f)
    | inr (t, f) ↦ let g : none ≡ some txns' = rw (f, insert_finished) at h in cc
  ]

  -- A tree that is inserted at a new position is found once; after that the position gives nothing, and
  -- it can be used again only when it has been cleaned away.
  pub find_finished-insert :
      (ipos last_ipos : ℕ) (tree : A) (txns txns' : List (ℕ × Option A))
      → insert_finished ipos tree txns ≡ some txns'
      → ipos ≤ last_ipos
      → ((find_finished ipos txns').0 ≡ some tree)
        × ((find_finished ipos (find_finished ipos txns').1).0 ≡ none)
        × (insert_finished ipos tree (find_finished ipos txns').1 ≡ none)
        × (insert_finished ipos tree (clean_finished last_ipos txns')
            ≡ some (emplace_key ipos (some tree) (clean_finished last_ipos txns')))
  unfolding find_finished insert_finished
  find_finished-insert ipos last_ipos tree txns txns' h l =
      let f = inserted ipos tree txns txns' h in
      let f1 = find_key-update_self ipos none (some tree) txns' f in
      let f2 = clean-find ipos last_ipos txns' l in
      (
        rw (f, find_finished) refl,
        rw (f, find_finished, f1) refl,
        rw (f, find_finished, f1, insert_finished) refl,
        rw (f2, insert_finished) refl,
      )
