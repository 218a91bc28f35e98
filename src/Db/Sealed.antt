-- ===== src/Db/Sealed.antt =====
-- src/db/persistent_tree.cc: what `infect_self_pointers` leaves of a tree, for the transaction
-- processor of src/db/db_impl.cc.
use mathlib.Core.Path.{subst}
use cruzdb.Prelude.{
  ℕ, zero, suc, ◌-◌, Bool, true, false, List, [], ◌∷◌, ◌++◌, Option, some, ◌>>=◌, assert, ◌≡◌, refl,
  sym, ap, ◌∙◌, if◌then◌else◌, Bool-cases, inl, inr, arith, Holds, lt→ltb,
}
use cruzdb.Prelude.Int.{ℤ, pos, is_neg, ◌==ℤ◌, ==ℤ_iff}
use cruzdb.Slice.{SliceCompare}
use cruzdb.Dict.{Entry}
use cruzdb.Node.{Node, nil, node, has_rid, is_nil, is_red}
use cruzdb.Tree.State.{PersistentTree}
use cruzdb.Tree.Entries.{entries}
use cruzdb.Tree.Balanced.{Balanced}
use cruzdb.Tree.Correct.{IsValid}
use cruzdb.Image.Write.{infect_after_image, set_rids, infect_self_pointers}
use cruzdb.Image.Stored.{Plain, leaf, bin, plain}
use cruzdb.Image.Infect.{plain-infect, infect-new, has_rid-infect}
use cruzdb.Image.RoundTrip.{or_right}

-- Entries, colours and heights of a tree without its addresses and identifiers.
abbrev plain_entries : Plain → List Entry
plain_entries leaf = []
plain_entries (bin c k v l r) = plain_entries l ++ (k, v) ∷ plain_entries r

abbrev plain_red : Plain → Bool
plain_red leaf = false
plain_red (bin c k v l r) = c

abbrev PlainBalanced : Plain → ℕ → Type 0
PlainBalanced leaf h = h ≡ 1
PlainBalanced (bin true k v l r) h =
    (plain_red l ≡ false) × (plain_red r ≡ false) × PlainBalanced l h × PlainBalanced r h
PlainBalanced (bin false k v l r) zero = ⊥
PlainBalanced (bin false k v l r) (suc h) = PlainBalanced l h × PlainBalanced r h

entries-plain : (t : Node) → entries t ≡ plain_entries (plain t)
entries-plain nil = refl
entries-plain (node c i k v la l ra r) = rw (entries-plain l, entries-plain r) refl

is_red-plain : (t : Node) → is_red t ≡ plain_red (plain t)
is_red-plain nil = refl
is_red-plain (node c i k v la l ra r) = refl

Balanced-plain : (t : Node) (h : ℕ) → Balanced t h → PlainBalanced (plain t) h
Balanced-plain nil h b = b
Balanced-plain (node true i k v la l ra r) h b = (
  sym (is_red-plain l) ∙ b.0,
  sym (is_red-plain r) ∙ b.1,
  Balanced-plain l h b.2,
  Balanced-plain r h b.3,
)
Balanced-plain (node false i k v la l ra r) zero b = b
Balanced-plain (node false i k v la l ra r) (suc h) b =
    (Balanced-plain l h b.0, Balanced-plain r h b.1)

plain-Balanced : (t : Node) (h : ℕ) → PlainBalanced (plain t) h → Balanced t h
plain-Balanced nil h b = b
plain-Balanced (node true i k v la l ra r) h b =
    (is_red-plain l ∙ b.0, is_red-plain r ∙ b.1, plain-Balanced l h b.2, plain-Balanced r h b.3)
plain-Balanced (node false i k v la l ra r) zero b = b
plain-Balanced (node false i k v la l ra r) (suc h) b =
    (plain-Balanced l h b.0, plain-Balanced r h b.1)

same_entries : (t t' : Node) → plain t' ≡ plain t → entries t' ≡ entries t
same_entries t t' e = entries-plain t' ∙ ap plain_entries e ∙ sym (entries-plain t)

plain-set_rids : (old new : ℤ) (t : Node) → plain (set_rids old new t) ≡ plain t
unfolding set_rids
plain-set_rids old new nil = refl
plain-set_rids old new (node c i k v la l ra r) =
    elim (Bool-cases (has_rid old (node c i k v la l ra r))) [
      | inl h ↦ rw (h, if◌then◌else◌, plain-set_rids old new l, plain-set_rids old new r) refl
      | inr h ↦ rw (h, if◌then◌else◌) refl
    ]

has_rid-set_rids :
    (old new : ℤ) (t : Node) → has_rid old t ≡ true → has_rid new (set_rids old new t) ≡ true
unfolding set_rids has_rid
has_rid-set_rids old new nil h = cc
has_rid-set_rids old new (node c i k v la l ra r) h =
    let s : (new ==ℤ new) ≡ true = (==ℤ_iff new new).1 refl in rw (h, if◌then◌else◌, s) refl

new_root : (rid : ℤ) (t : Node) → has_rid rid t ≡ true → is_nil t ≡ false
unfolding has_rid
new_root rid nil h = cc
new_root rid (node c i k v la l ra r) h = refl

module _ ⦃o : SliceCompare⦄ where
  plain-IsValid : (t t' : Node) → plain t' ≡ plain t → IsValid t → IsValid t'
  plain-IsValid t t' e v = record {
    balanced = (
      v.balanced.0,
      plain-Balanced t' v.balanced.0 (
          subst (λ p. PlainBalanced p v.balanced.0) (sym e)
            (Balanced-plain t v.balanced.0 v.balanced.1)),
    );
    black = is_red-plain t' ∙ ap plain_red e ∙ sym (is_red-plain t) ∙ v.black;
    sorted = rw (same_entries t t' e) v.sorted;
  }

  -- A tree that is ready to be the next root: valid, with the entries, and a new root that is no sentinel.
  abbrev pub Ready : List Entry → PersistentTree × Option ℕ → Type 0
  Ready es r =
      (root : Node) × (r.0.root ≡ some root)
      × (is_nil root ≡ false)
      × IsValid root
      × (entries root ≡ es)
      × ((offset : ℕ) × (r.1 ≡ some offset))

  pub infect_self_pointers-Ready :
      (p : ℕ) (expect : Bool) (t : PersistentTree) (root : Node)
      → t.root ≡ some root
      → has_rid t.rid root ≡ true
      → IsValid root
      → (if expect then t.rid ==ℤ pos p else is_neg t.rid) ≡ true
      → Holds (Ready (entries root)) (infect_self_pointers p expect t)
  unfolding infect_self_pointers
  infect_self_pointers-Ready p expect t root e h v a =
      let r1 = set_rids t.rid (pos p) root in
      let h1 = has_rid-set_rids t.rid (pos p) root h in
      let i = infect_after_image (pos p) p r1 0 in
      let pl : plain i.0 ≡ plain root =
        plain-infect (pos p) p r1 0 ∙ plain-set_rids t.rid (pos p) root in
      let n = lt→ltb 0 i.1 (omega (arith, infect-new (pos p) p r1 0 h1)) in
      rw (a, assert, ◌>>=◌, e, infect_self_pointers, h, or_right (is_nil root), n)
        (
          i.0,
          refl,
          new_root (pos p) i.0 (has_rid-infect (pos p) p r1 0 ∙ h1),
          plain-IsValid root i.0 pl v,
          same_entries root i.0 pl,
          (i.1 - 1, refl),
        )
