-- ===== src/Tree/InsertLoop.antt =====
-- src/db/persistent_tree.cc: the balancing loop of `Put`.
use cruzdb.Prelude.{
  ℕ, zero, suc, ◌<◌, false, List, [], ◌∷◌, ◌≡◌, refl, ◌∙◌, inl, inr, arith, length, Holds,
  Holds-then, Holds-else, Holds->>=, Holds-imp, Bool-cases,
}
use cruzdb.Prelude.Int.{ℤ}
use cruzdb.Node.{Node, is_red, set_red}
use cruzdb.Tree.Path.{Frame, rebuild}
use cruzdb.Tree.Insert.{insert_balance, insert_loop, balance_insert}
use cruzdb.Tree.Entries.{entries, entries-set_red}
use cruzdb.Tree.Balanced.{Balanced, Balanced-rebuild, Balanced-set_red, is_red-set_red}
use cruzdb.Tree.InsertBalance.{Ready, Round, insert_balance-Round}

-- A root that becomes a red-black tree when it is coloured black, with given entries.
abbrev pub Rooted : Node → Node → Type 0
Rooted t root = ((h : ℕ) × Balanced (set_red false root) h) × (entries root ≡ entries t)

Rooted-black :
    (nn : Node) (parent : Frame) (path : List Frame) (h : ℕ)
    → Ready nn (parent ∷ path) h
    → parent.red ≡ false
    → Rooted (rebuild nn (parent ∷ path)) (rebuild nn (parent ∷ path))
Rooted-black nn parent path h (b, r, fits) e =
    let (h', b') = Balanced-rebuild nn (parent ∷ path) h b fits (inr e) in
    (Balanced-set_red (rebuild nn (parent ∷ path)) h' b', refl)

-- With fuel above the length of the path the loop returns such a root.
insert_loop-Rooted :
    (fuel : ℕ) (rid : ℤ) (nn : Node) (path : List Frame) (h : ℕ)
    → Ready nn path h
    → length path < fuel
    → Holds (Rooted (rebuild nn path)) (insert_loop fuel rid nn path)
unfolding insert_loop
insert_loop-Rooted zero rid nn path h inv lt = absurd (omega arith)
insert_loop-Rooted (suc fuel) rid nn [] h inv lt = (Balanced-set_red nn h inv.0, refl)
insert_loop-Rooted (suc fuel) rid nn (parent ∷ []) h inv lt = elim (Bool-cases parent.red) [
  | inl red ↦ elim inv.2 [ inl x ↦ absurd x.3 | inr x ↦ cc (x.0) ]
  | inr black ↦ Holds-else _ _ _ _ black (Rooted-black nn parent [] h inv black)
]
insert_loop-Rooted (suc fuel) rid nn (parent ∷ grand ∷ path) h inv lt =
    elim (Bool-cases parent.red) [
      | inl red ↦ Holds-then _ _ _ _ red (
          Holds->>= (Round nn (parent ∷ grand ∷ path) (suc (suc (length path)))) _
            (insert_balance rid nn parent grand path) _
            (insert_balance-Round rid nn parent grand path h inv red)
            (λ s r.
              Holds-imp (Rooted (rebuild s.0 s.1)) _ _ (λ root t. (t.0, t.1 ∙ r.5))
                (insert_loop-Rooted fuel rid s.0 s.1 r.0 (r.1, r.2, r.3) (omega arith))))
      | inr black ↦ Holds-else _ _ _ _ black (Rooted-black nn parent (grand ∷ path) h inv black)
    ]

-- The end of `Put`, for a new red node below a path: it always succeeds, the result is balanced and
-- has the entries of the unbalanced tree.
pub balance_insert-Balanced :
    (rid : ℤ) (nn : Node) (path : List Frame) (h : ℕ)
    → Ready nn path h
    → Holds
        (λ root.
          ((h' : ℕ) × Balanced root h')
          × (is_red root ≡ false)
          × (entries root ≡ entries (rebuild nn path)))
        (balance_insert rid nn path)
unfolding balance_insert
balance_insert-Balanced rid nn path h inv =
    Holds->>= (Rooted (rebuild nn path)) _ (insert_loop (suc (length path)) rid nn path) _
      (insert_loop-Rooted (suc (length path)) rid nn path h inv (omega arith))
      (λ root r. (r.0, is_red-set_red root, entries-set_red false root ∙ r.1))
