-- ===== src/Tree/DeleteLoop.antt =====
-- src/db/persistent_tree.cc: the loop of `balance_delete` and the removal of a node.
use cruzdb.Prelude.{
  ℕ, zero, suc, ◌<◌, Bool, true, false, List, [], ◌∷◌, Option, ◌≡◌, refl, ◌∙◌, inl, inr, Holds,
  Holds->>=, Holds-imp, Holds-then, Holds-else, length, arith, Bool-cases,
}
use cruzdb.Prelude.Int.{ℤ}
use cruzdb.Node.{Node, nil, node, is_red, set_red, own}
use cruzdb.Tree.Path.{Frame, rebuild}
use cruzdb.Tree.Delete.{
  Step, loop, done, mirror_remove_balance, finish_delete, continue_delete, balance_delete,
  remove_at,
}
use cruzdb.Tree.Entries.{
  entries, own-node, own-nil, entries-own, entries-set_red, entries-rebuild_congr,
}
use cruzdb.Tree.Balanced.{
  Balanced, Fits, FitsAbove, ColourFits-black, Balanced-rebuild, Balanced-set_red, is_red-set_red,
  Balanced-red, is_red-rebuild,
}
use cruzdb.Tree.DeleteRound.{Extra, rounds, Left}
use cruzdb.Tree.DeleteMirror.{mirror-Left, rounds-le}

Balanced-black_own :
    (rid : ℤ) (t : Node) (h : ℕ)
    → Balanced (set_red false t) h
    → Balanced (set_red false (own rid t)) h
Balanced-black_own rid nil h b = rw own-nil b
Balanced-black_own rid (node c i k v la l ra r) h b = rw own-node b

finish-entries :
    (rid : ℤ) (t : Node) (path : List Frame)
    → entries (finish_delete rid t path) ≡ entries (rebuild t path)
unfolding finish_delete
finish-entries rid t path =
    entries-rebuild_congr (set_red false (own rid t)) t path
      (entries-set_red false (own rid t) ∙ entries-own rid t)

-- A balanced tree with a black root and the entries of a given tree.
abbrev pub Restored : Node → Node → Type 0
Restored t root = ((h : ℕ) × Balanced root h) × (is_red root ≡ false) × (entries root ≡ entries t)

finish-Restored :
    (rid : ℤ) (t : Node) (path : List Frame) (h : ℕ)
    → Balanced (set_red false t) h
    → Fits path h
    → Restored (rebuild t path) (finish_delete rid t path)
unfolding finish_delete
finish-Restored rid t path h b fits =
    let t' = set_red false (own rid t) in
    (
      Balanced-rebuild t' path h (Balanced-black_own rid t h b) fits
          (ColourFits-black t' path (is_red-set_red (own rid t))),
      is_red-rebuild t' path h (is_red-set_red (own rid t)) fits,
      finish-entries rid t path,
    )

-- After a round that leaves fewer than `n` rounds.
continue-Restored :
    (rid : ℤ) (t : Node) (n : ℕ) (next : Node → List Frame → Option Node)
    → ((extra : Node) (path : List Frame) (h : ℕ)
        → Extra extra path h
        → rounds (is_red extra) path < n
        → Holds (Restored (rebuild extra path)) (next extra path))
    → (s : Step) → Left t n s
    → Holds (Restored t) (continue_delete rid next s)
unfolding continue_delete
continue-Restored rid t n next ih (loop extra path) (h, inv, e, lt) =
    Holds-imp (Restored (rebuild extra path)) (Restored t) (next extra path)
      (λ root x. (x.0, x.1, x.2 ∙ e)) (ih extra path h inv lt)
continue-Restored rid t n next ih (done root) ((h, b), e) =
    let (h', b') = Balanced-set_red root h b in
    let x = finish-Restored rid root [] h' b' tt in (x.0, x.1, x.2 ∙ e)

-- With enough fuel the loop settles.
balance_delete-Restored :
    (fuel : ℕ) (rid : ℤ) (extra : Node) (path : List Frame) (h : ℕ)
    → Extra extra path h
    → rounds (is_red extra) path < fuel
    → Holds (Restored (rebuild extra path)) (balance_delete fuel rid extra path)
unfolding balance_delete
balance_delete-Restored zero rid extra path h inv lt = absurd (omega arith)
balance_delete-Restored (suc fuel) rid extra [] h (fits, inl (re, be)) lt =
    let (h', b) = Balanced-set_red extra h be in finish-Restored rid extra [] h' b tt
balance_delete-Restored (suc fuel) rid extra [] h (fits, inr (re, be)) lt =
    finish-Restored rid extra [] (suc h) be tt
balance_delete-Restored (suc fuel) rid extra (parent ∷ path) h (fits, inr (re, be)) lt =
    Holds-then _ _ _ _ re (finish-Restored rid extra (parent ∷ path) (suc h) be fits)
balance_delete-Restored (suc fuel) rid extra (parent ∷ path) h (fits, inl (re, be)) lt =
    let t = rebuild extra (parent ∷ path) in
    let lt' : length {A = Frame} (parent ∷ path) < suc fuel = rw re at lt in
    Holds-else _ _ _ _ re (
      Holds->>= (Left t (suc (length path))) (Restored t)
        (mirror_remove_balance rid extra parent path) _
        (mirror-Left rid extra path h parent.rid parent.key parent.val parent.address
          parent.sibling.address re be parent.side parent.red parent.sibling.ref fits)
        (continue-Restored rid t (suc (length path)) (balance_delete fuel rid)
          (λ extra' path' h' inv lt''.
            balance_delete-Restored fuel rid extra' path' h' inv (omega arith))))

-- A node with at most one child is taken out: what is put in its place is the child that it may have.
remove_at-Restored :
    (rid : ℤ) (c : Bool) (t : Node) (path : List Frame) (h : ℕ)
    → is_red t ≡ false
    → Balanced t h
    → FitsAbove c path h
    → Holds (Restored (rebuild t path)) (remove_at rid c t path)
unfolding remove_at
remove_at-Restored rid true t path h r b (top, fits) = (
  Balanced-rebuild t path h b fits (ColourFits-black t path r),
  is_red-rebuild t path h r fits,
  refl,
)
remove_at-Restored rid false t path h r b fits =
    balance_delete-Restored (suc (suc (length path))) rid t path h (fits, inl (r, b))
      (omega (arith, rounds-le (is_red t) path))

-- A red child of a black node with no other child.
remove_at-Restored_red :
    (rid : ℤ) (t : Node) (path : List Frame) (h : ℕ)
    → is_red t ≡ true
    → Balanced t h
    → Fits path (suc h)
    → Holds (Restored (rebuild t path)) (remove_at rid false t path)
unfolding remove_at
remove_at-Restored_red rid t path h r b fits =
    balance_delete-Restored (suc (suc (length path))) rid t path h
      (fits, inr (r, Balanced-red t h r b)) (omega (arith, rounds-le (is_red t) path))

-- A child of either colour, in the place of its parent of colour `c`.
pub remove_at-child :
    (rid : ℤ) (c : Bool) (t : Node) (path : List Frame) (h : ℕ)
    → (c ≡ true → is_red t ≡ false)
    → Balanced t h
    → FitsAbove c path h
    → Holds (Restored (rebuild t path)) (remove_at rid c t path)
remove_at-child rid true t path h r b above = remove_at-Restored rid true t path h (r refl) b above
remove_at-child rid false t path h r b above = elim (Bool-cases (is_red t)) [
  | inl red ↦ remove_at-Restored_red rid t path h red b above
  | inr black ↦ remove_at-Restored rid false t path h black b above
]
