-- ===== src/Dict.antt =====
-- The abstract view of a tree: a dictionary as the list of its entries in strictly ascending key
-- order, with the reference definitions of lookup, update and removal. No code is modelled here.
use Prim.Native.Nat.Ordering.{lt, eq, gt}
use cruzdb.Prelude.{
  List, [], ◌∷◌, ◌++◌, Option, none, some, ◌≡◌, refl, sym, ◌∙◌, All, All-imp, All-append, arith,
  All-append_left, All-append_right, ◌≢◌,
}
use cruzdb.Slice.{Slice, SliceCompare, ◌≺◌}

abbrev pub Entry : Type 0
Entry = Slice × Slice

module _ ⦃o : SliceCompare⦄ where
  abbrev pub Below : Slice → List Entry → Type 0
  Below k es = All (λ e. e.0 ≺ k) es

  abbrev pub Above : Slice → List Entry → Type 0
  Above k es = All (λ e. k ≺ e.0) es

  abbrev pub IsSorted : List Entry → Type 0
  IsSorted [] = Unit
  IsSorted (e ∷ es) = Above e.0 es × IsSorted es

  unfoldable pub lookup : Slice → List Entry → Option Slice
  lookup q [] = none
  lookup q (e ∷ es) = elim (o.compare q e.0) [ eq ↦ some e.1 | lt ↦ lookup q es | gt ↦ lookup q es ]

  unfoldable pub upsert : Slice → Slice → List Entry → List Entry
  upsert q w [] = (q, w) ∷ []
  upsert q w (e ∷ es) = elim (o.compare q e.0) [
    | lt ↦ (q, w) ∷ e ∷ es
    | eq ↦ (q, w) ∷ es
    | gt ↦ e ∷ upsert q w es
  ]

  unfoldable pub remove : Slice → List Entry → List Entry
  remove q [] = []
  remove q (e ∷ es) = elim (o.compare q e.0) [ lt ↦ e ∷ es | eq ↦ es | gt ↦ e ∷ remove q es ]

  -- The parts of a sorted list around one entry.
  pub IsSorted-split :
      (xs : List Entry) (e : Entry) (ys : List Entry)
      → IsSorted (xs ++ e ∷ ys)
      → IsSorted xs × Below e.0 xs × Above e.0 ys × IsSorted ys
  IsSorted-split [] e ys h = (tt, tt, h.0, h.1)
  IsSorted-split (x ∷ xs) e ys h =
      let (sx, bx, ay, sy) = IsSorted-split xs e ys h.1 in
      (
        (All-append_left (λ y. x.0 ≺ y.0) xs (e ∷ ys) h.0, sx),
        ((All-append_right (λ y. x.0 ≺ y.0) xs (e ∷ ys) h.0).0, bx),
        ay,
        sy,
      )

  Above-trans : (j k : Slice) (es : List Entry) → j ≺ k → Above k es → Above j es
  Above-trans j k es h a = All-imp (λ e l. o.lt_trans j k e.0 h l) es a

  pub IsSorted-join :
      (xs : List Entry) (e : Entry) (ys : List Entry)
      → IsSorted xs
      → Below e.0 xs
      → Above e.0 ys
      → IsSorted ys
      → IsSorted (xs ++ e ∷ ys)
  IsSorted-join [] e ys sx bx ay sy = (ay, sy)
  IsSorted-join (x ∷ xs) e ys sx bx ay sy = (
    All-append (λ y. x.0 ≺ y.0) xs (e ∷ ys) sx.0 (bx.0, Above-trans x.0 e.0 ys bx.0 ay),
    IsSorted-join xs e ys sx.1 bx.1 ay sy,
  )

  -- An update below an entry happens in the part on its left, one above it on its right.
  pub upsert_left :
      (q w : Slice) (xs : List Entry) (e : Entry) (ys : List Entry)
      → q ≺ e.0
      → upsert q w (xs ++ e ∷ ys) ≡ upsert q w xs ++ e ∷ ys
  unfolding upsert
  upsert_left q w [] e ys h = ground arith
  upsert_left q w (x ∷ xs) e ys h = ground (arith, upsert_left q w xs e ys h)

  pub upsert_right :
      (q w : Slice) (xs : List Entry) (e : Entry) (ys : List Entry)
      → e.0 ≺ q
      → Below e.0 xs
      → upsert q w (xs ++ e ∷ ys) ≡ xs ++ e ∷ upsert q w ys
  unfolding upsert
  upsert_right q w [] e ys h b = ground (arith, o.gt_of_lt e.0 q)
  upsert_right q w (x ∷ xs) e ys h b =
      ground (arith, upsert_right q w xs e ys h b.1, o.lt_trans x.0 e.0 q, o.gt_of_lt x.0 q)

  -- Removal takes out the entry with the key.
  pub remove_at :
      (q v : Slice) (xs ys : List Entry) → Below q xs → remove q (xs ++ (q, v) ∷ ys) ≡ xs ++ ys
  unfolding remove
  remove_at q v [] ys b = ground (arith, o.compare_refl q)
  remove_at q v (x ∷ xs) ys b = ground (arith, remove_at q v xs ys b.1, o.gt_of_lt x.0 q)

  lookup_below : (q : Slice) (es : List Entry) → Above q es → lookup q es ≡ none
  unfolding lookup
  lookup_below q [] a = refl
  lookup_below q (e ∷ es) a = ground (arith, lookup_below q es a.1)

  pub lookup_left :
      (q : Slice) (xs : List Entry) (e : Entry) (ys : List Entry)
      → q ≺ e.0
      → Above e.0 ys
      → lookup q (xs ++ e ∷ ys) ≡ lookup q xs
  unfolding lookup
  lookup_left q [] e ys h a = ground (arith, lookup_below q (e ∷ ys) (h, Above-trans q e.0 ys h a))
  lookup_left q (x ∷ xs) e ys h a = ground (arith, lookup_left q xs e ys h a)

  pub lookup_right :
      (q : Slice) (xs : List Entry) (e : Entry) (ys : List Entry)
      → e.0 ≺ q
      → Below e.0 xs
      → lookup q (xs ++ e ∷ ys) ≡ lookup q ys
  unfolding lookup
  lookup_right q [] e ys h a = ground (arith, o.gt_of_lt e.0 q)
  lookup_right q (x ∷ xs) e ys h b =
      ground (arith, lookup_right q xs e ys h b.1, o.lt_trans x.0 e.0 q, o.gt_of_lt x.0 q)

  pub lookup_here :
      (q k v : Slice) (xs ys : List Entry)
      → Below k xs
      → o.compare q k ≡ eq
      → lookup q (xs ++ (k, v) ∷ ys) ≡ some v
  unfolding lookup
  lookup_here q k v [] ys b h = ground arith
  lookup_here q k v (x ∷ xs) ys b h =
      ground (arith, lookup_here q k v xs ys b.1, o.eq_of_compare q k, o.gt_of_lt x.0 k)

  -- The three operations on a list that is split at a key, present or absent.
  pub upsert_at :
      (q w v : Slice) (xs ys : List Entry)
      → Below q xs
      → upsert q w (xs ++ (q, v) ∷ ys) ≡ xs ++ (q, w) ∷ ys
  unfolding upsert
  upsert_at q w v [] ys b = ground (arith, o.compare_refl q)
  upsert_at q w v (x ∷ xs) ys b = ground (arith, upsert_at q w v xs ys b.1, o.gt_of_lt x.0 q)

  upsert_between :
      (q w : Slice) (xs ys : List Entry)
      → Below q xs
      → Above q ys
      → upsert q w (xs ++ ys) ≡ xs ++ (q, w) ∷ ys
  unfolding upsert
  upsert_between q w [] [] b a = refl
  upsert_between q w [] (y ∷ ys) b a = ground arith
  upsert_between q w (x ∷ xs) ys b a =
      ground (arith, upsert_between q w xs ys b.1 a, o.gt_of_lt x.0 q)

  pub lookup_between :
      (q : Slice) (xs ys : List Entry) → Below q xs → Above q ys → lookup q (xs ++ ys) ≡ none
  unfolding lookup
  lookup_between q [] ys b a = lookup_below q ys a
  lookup_between q (x ∷ xs) ys b a = ground (arith, lookup_between q xs ys b.1 a, o.gt_of_lt x.0 q)

  pub IsSorted-without :
      (xs : List Entry) (e : Entry) (ys : List Entry)
      → IsSorted (xs ++ e ∷ ys)
      → IsSorted (xs ++ ys)
  IsSorted-without [] e ys s = s.1
  IsSorted-without (x ∷ xs) e ys s = (
    All-append (λ y. x.0 ≺ y.0) xs ys (All-append_left (λ y. x.0 ≺ y.0) xs (e ∷ ys) s.0)
        (All-append_right (λ y. x.0 ≺ y.0) xs (e ∷ ys) s.0).1,
    IsSorted-without xs e ys s.1,
  )

  Above-upsert : (j q w : Slice) (es : List Entry) → j ≺ q → Above j es → Above j (upsert q w es)
  unfolding upsert
  Above-upsert j q w [] h a = (h, tt)
  Above-upsert j q w (e ∷ es) h a = ground (arith, Above-upsert j q w es h a.1)

  pub upsert-IsSorted : (q w : Slice) (es : List Entry) → IsSorted es → IsSorted (upsert q w es)
  unfolding upsert
  upsert-IsSorted q w [] s = (tt, tt)
  upsert-IsSorted q w (e ∷ es) s = ground (
    arith,
    upsert-IsSorted q w es s.1,
    Above-upsert e.0 q w es,
    o.lt_of_gt q e.0,
    o.eq_of_compare q e.0,
    Above-trans q e.0 es,
  )

  -- An update after a removal is an update.
  pub upsert-remove_at :
      (q w v : Slice) (xs ys : List Entry)
      → IsSorted (xs ++ (q, v) ∷ ys)
      → upsert q w (xs ++ ys) ≡ upsert q w (xs ++ (q, v) ∷ ys)
  upsert-remove_at q w v xs ys s =
      let (sx, b, a, sy) = IsSorted-split xs (q, v) ys s in
      upsert_between q w xs ys b a ∙ sym (upsert_at q w v xs ys b)

  pub remove_absent : (q : Slice) (es : List Entry) → lookup q es ≡ none → remove q es ≡ es
  unfolding lookup remove
  remove_absent q [] h = refl
  remove_absent q (e ∷ es) h = ground (arith, remove_absent q es)

  pub lookup-upsert_self : (q w : Slice) (es : List Entry) → lookup q (upsert q w es) ≡ some w
  unfolding lookup upsert
  lookup-upsert_self q w [] = ground (arith, o.compare_refl q)
  lookup-upsert_self q w (e ∷ es) = ground (arith, o.compare_refl q, lookup-upsert_self q w es)

  pub lookup-upsert_ne :
      (p q w : Slice) (es : List Entry) → p ≢ q → lookup p (upsert q w es) ≡ lookup p es
  unfolding lookup upsert
  lookup-upsert_ne p q w [] n = ground (arith, o.eq_of_compare p q)
  lookup-upsert_ne p q w (e ∷ es) n = ground (
    arith,
    o.eq_of_compare p q,
    o.eq_of_compare p e.0,
    o.eq_of_compare q e.0,
    lookup-upsert_ne p q w es,
  )

  pub lookup-remove_self :
      (q : Slice) (es : List Entry) → IsSorted es → lookup q (remove q es) ≡ none
  unfolding lookup remove
  lookup-remove_self q [] s = refl
  lookup-remove_self q (e ∷ es) s = ground (
    arith,
    lookup-remove_self q es s.1,
    lookup_below q (e ∷ es),
    Above-trans q e.0 es,
    lookup_below q es,
    o.eq_of_compare q e.0,
  )

  pub lookup-remove_ne :
      (p q : Slice) (es : List Entry) → p ≢ q → lookup p (remove q es) ≡ lookup p es
  unfolding lookup remove
  lookup-remove_ne p q [] n = refl
  lookup-remove_ne p q (e ∷ es) n =
      ground (arith, o.eq_of_compare p e.0, o.eq_of_compare q e.0, lookup-remove_ne p q es)

  -- A dictionary without its entry for `q`.
  abbrev pub Without : Slice → List Entry → List Entry → Type 0
  Without q es es' =
      IsSorted es'
      × (es' ≡ remove q es)
      × (lookup q es' ≡ none)
      × ((w : Slice) → upsert q w es' ≡ upsert q w es)

  pub Without-split :
      (q v : Slice) (xs ys es es' : List Entry)
      → IsSorted es
      → es ≡ xs ++ (q, v) ∷ ys
      → es' ≡ xs ++ ys
      → Without q es es'
  Without-split q v xs ys es es' s e f =
      let s' : IsSorted (xs ++ (q, v) ∷ ys) = rw e at s in
      let (sx, b, a, sy) = IsSorted-split xs (q, v) ys s' in
      rw (e, f)
        (
          IsSorted-without xs (q, v) ys s',
          sym (remove_at q v xs ys b),
          lookup_between q xs ys b a,
          (λ w. upsert-remove_at q w v xs ys s'),
        )

  pub Without-absent :
      (q : Slice) (es : List Entry) → IsSorted es → lookup q es ≡ none → Without q es es
  Without-absent q es s h = (s, sym (remove_absent q es h), h, (λ w. refl))
