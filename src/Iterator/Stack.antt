-- ===== src/Iterator/Stack.antt =====
-- src/db/iterator_impl.cc: the entries that a stack of the iterator stands for.
use Prim.Native.Nat.Ordering.{lt, gt}
use cruzdb.Prelude.{
  List, [], ◌∷◌, ◌++◌, ◌≡◌, refl, ap, ◌∙◌, arith, Ordering-cases, inl, inr, true, false, All,
}
use cruzdb.Slice.{Slice, SliceCompare, ◌≺◌}
use cruzdb.Dict.{Entry, IsSorted, IsSorted-split, Below, Above}
use cruzdb.Node.{Node, nil, node, is_nil}
use cruzdb.Tree.Entries.{entries, list_laws}
use cruzdb.Iterator.Raw.{push_left, push_right, seek_path, seek_previous_path, top_not_less}

-- The entries from the current one on, for a stack that goes forward.
abbrev pub ahead : List Node → List Entry
ahead [] = []
ahead (nil ∷ s) = ahead s
ahead (node c i k v la l ra r ∷ s) = (k, v) ∷ entries r ++ ahead s

-- The entries up to the current one, for a stack that goes back.
abbrev pub behind : List Node → List Entry
behind [] = []
behind (nil ∷ s) = behind s
behind (node c i k v la l ra r ∷ s) = behind s ++ entries l ++ (k, v) ∷ []

pub ahead-push_left : (t : Node) (s : List Node) → ahead (push_left t s) ≡ entries t ++ ahead s
unfolding push_left
ahead-push_left nil s = refl
ahead-push_left (node c i k v la l ra r) s =
    ahead-push_left l (node c i k v la l ra r ∷ s) ∙ simp list_laws

pub behind-push_right : (t : Node) (s : List Node) → behind (push_right t s) ≡ behind s ++ entries t
unfolding push_right
behind-push_right nil s = simp list_laws
behind-push_right (node c i k v la l ra r) s =
    behind-push_right r (node c i k v la l ra r ∷ s) ∙ simp list_laws

-- The sentinel is never on the stack.
abbrev pub Nodes : List Node → Type 0
Nodes s = All (λ n. is_nil n ≡ false) s

pub push_left-Nodes : (t : Node) (s : List Node) → Nodes s → Nodes (push_left t s)
unfolding push_left
push_left-Nodes nil s h = h
push_left-Nodes (node c i k v la l ra r) s h =
    push_left-Nodes l (node c i k v la l ra r ∷ s) (refl, h)

pub push_right-Nodes : (t : Node) (s : List Node) → Nodes s → Nodes (push_right t s)
unfolding push_right
push_right-Nodes nil s h = h
push_right-Nodes (node c i k v la l ra r) s h =
    push_right-Nodes r (node c i k v la l ra r ∷ s) (refl, h)

module _ ⦃o : SliceCompare⦄ where
  -- The entries of a sorted list at or above a key, and at or below it.
  unfoldable pub from : Slice → List Entry → List Entry
  from q [] = []
  from q (e ∷ es) = elim (o.compare q e.0) [ gt ↦ from q es | _ ↦ e ∷ es ]

  unfoldable pub up_to : Slice → List Entry → List Entry
  up_to q [] = []
  up_to q (e ∷ es) = elim (o.compare q e.0) [ lt ↦ [] | _ ↦ e ∷ up_to q es ]

  from_left :
      (q : Slice) (xs : List Entry) (e : Entry) (ys : List Entry)
      → q ≺ e.0
      → from q (xs ++ e ∷ ys) ≡ from q xs ++ e ∷ ys
  unfolding from
  from_left q [] e ys h = ground arith
  from_left q (x ∷ xs) e ys h = ground (arith, from_left q xs e ys h)

  from_right :
      (q : Slice) (xs : List Entry) (e : Entry) (ys : List Entry)
      → e.0 ≺ q
      → Below e.0 xs
      → from q (xs ++ e ∷ ys) ≡ from q ys
  unfolding from
  from_right q [] e ys h b = ground (arith, o.gt_of_lt e.0 q)
  from_right q (x ∷ xs) e ys h b =
      ground (arith, from_right q xs e ys h b.1, o.lt_trans x.0 e.0 q, o.gt_of_lt x.0 q)

  pub from_at :
      (q v : Slice) (xs ys : List Entry) → Below q xs → from q (xs ++ (q, v) ∷ ys) ≡ (q, v) ∷ ys
  unfolding from
  from_at q v [] ys b = ground (arith, o.compare_refl q)
  from_at q v (x ∷ xs) ys b = ground (arith, from_at q v xs ys b.1, o.gt_of_lt x.0 q)

  up_to_left :
      (q : Slice) (xs : List Entry) (e : Entry) (ys : List Entry)
      → q ≺ e.0
      → up_to q (xs ++ e ∷ ys) ≡ up_to q xs
  unfolding up_to
  up_to_left q [] e ys h = ground arith
  up_to_left q (x ∷ xs) e ys h = ground (arith, up_to_left q xs e ys h)

  up_to_right :
      (q : Slice) (xs : List Entry) (e : Entry) (ys : List Entry)
      → e.0 ≺ q
      → Below e.0 xs
      → up_to q (xs ++ e ∷ ys) ≡ xs ++ e ∷ up_to q ys
  unfolding up_to
  up_to_right q [] e ys h b = ground (arith, o.gt_of_lt e.0 q)
  up_to_right q (x ∷ xs) e ys h b =
      ground (arith, up_to_right q xs e ys h b.1, o.lt_trans x.0 e.0 q, o.gt_of_lt x.0 q)

  pub up_to_at :
      (q v : Slice) (xs ys : List Entry)
      → Below q xs
      → Above q ys
      → up_to q (xs ++ (q, v) ∷ ys) ≡ xs ++ (q, v) ∷ []
  unfolding up_to
  up_to_at q v [] [] b a = ground (arith, o.compare_refl q)
  up_to_at q v [] (y ∷ ys) b a = ground (arith, o.compare_refl q)
  up_to_at q v (x ∷ xs) ys b a = ground (arith, up_to_at q v xs ys b.1 a, o.gt_of_lt x.0 q)

  -- The stack of a seek stands for the entries at or above the key.
  pub ahead-seek_path :
      (q : Slice) (t : Node) (s : List Node)
      → IsSorted (entries t)
      → ahead (seek_path q t s) ≡ from q (entries t) ++ ahead s
  unfolding seek_path from
  ahead-seek_path q nil s h = refl
  ahead-seek_path q (node c i k v la l ra r) s h =
      let (sl, bl, ar, sr) = IsSorted-split (entries l) (k, v) (entries r) h in
      elim (Ordering-cases (o.compare q k)) [
        | inl e ↦
            rw (e, seek_path, from_left q (entries l) (k, v) (entries r) e)
              (ahead-seek_path q l (node c i k v la l ra r ∷ s) sl ∙ simp list_laws)
        | inr (inl e) ↦
            rw
              (
                o.eq_of_compare q k e,
                o.compare_refl k,
                seek_path,
                from_at k v (entries l) (entries r) bl,
              )
              refl
        | inr (inr e) ↦
            rw (e, seek_path, from_right q (entries l) (k, v) (entries r) (o.lt_of_gt q k e) bl)
              (ahead-seek_path q r s sr)
      ]

  pub behind-seek_previous_path :
      (q : Slice) (t : Node) (s : List Node)
      → IsSorted (entries t)
      → behind (seek_previous_path q t s) ≡ behind s ++ up_to q (entries t)
  unfolding seek_previous_path up_to
  behind-seek_previous_path q nil s h = simp list_laws
  behind-seek_previous_path q (node c i k v la l ra r) s h =
      let (sl, bl, ar, sr) = IsSorted-split (entries l) (k, v) (entries r) h in
      elim (Ordering-cases (o.compare q k)) [
        | inl e ↦
            rw (e, seek_previous_path, up_to_left q (entries l) (k, v) (entries r) e)
              (behind-seek_previous_path q l s sl)
        | inr (inl e) ↦
            rw
              (
                o.eq_of_compare q k e,
                o.compare_refl k,
                seek_previous_path,
                up_to_at k v (entries l) (entries r) bl ar,
              )
              (simp list_laws)
        | inr (inr e) ↦
            rw
              (
                e,
                seek_previous_path,
                up_to_right q (entries l) (k, v) (entries r) (o.lt_of_gt q k e) bl,
              )
              (behind-seek_previous_path q r (node c i k v la l ra r ∷ s) sr ∙ simp list_laws)
      ]

  -- A seek splits the entries: those below the key are skipped.
  pub from-split :
      (q : Slice) (es : List Entry)
      → IsSorted es
      → (xs : List Entry) × Below q xs × (es ≡ xs ++ from q es)
  unfolding from
  from-split q [] h = ([], tt, refl)
  from-split q (e ∷ es) h = elim (Ordering-cases (o.compare q e.0)) [
    | inl c ↦ ([], tt, rw (c, from) refl)
    | inr (inl c) ↦ ([], tt, rw (c, from) refl)
    | inr (inr c) ↦
        let (xs, b, f) = from-split q es h.1 in
        (e ∷ xs, (o.lt_of_gt q e.0 c, b), rw (c, from) (ap (λ z. e ∷ z) f))
  ]

  pub seek_path-Nodes : (q : Slice) (t : Node) (s : List Node) → Nodes s → Nodes (seek_path q t s)
  unfolding seek_path
  seek_path-Nodes q nil s h = h
  seek_path-Nodes q (node c i k v la l ra r) s h = elim (Ordering-cases (o.compare q k)) [
    | inl e ↦ rw (e, seek_path) (seek_path-Nodes q l (node c i k v la l ra r ∷ s) (refl, h))
    | inr (inl e) ↦ rw (e, seek_path) (refl, h)
    | inr (inr e) ↦ rw (e, seek_path) (seek_path-Nodes q r s h)
  ]

  pub seek_previous_path-Nodes :
      (q : Slice) (t : Node) (s : List Node) → Nodes s → Nodes (seek_previous_path q t s)
  unfolding seek_previous_path
  seek_previous_path-Nodes q nil s h = h
  seek_previous_path-Nodes q (node c i k v la l ra r) s h = elim (Ordering-cases (o.compare q k)) [
    | inl e ↦ rw (e, seek_previous_path) (seek_previous_path-Nodes q l s h)
    | inr (inl e) ↦ rw (e, seek_previous_path) (refl, h)
    | inr (inr e) ↦
        rw (e, seek_previous_path)
          (seek_previous_path-Nodes q r (node c i k v la l ra r ∷ s) (refl, h))
  ]

  -- The assertions of the seeks.
  pub top_not_less-from :
      (q : Slice) (s : List Node) (es : List Entry)
      → Nodes s
      → ahead s ≡ from q es
      → top_not_less q s ≡ true
  unfolding top_not_less from
  top_not_less-from q [] es n h = refl
  top_not_less-from q (nil ∷ s) es n h = cc
  top_not_less-from q (node c i k v la l ra r ∷ s) [] n h = cc
  top_not_less-from q (node c i k v la l ra r ∷ s) (e ∷ es) n h =
      grind (arith, top_not_less-from q (node c i k v la l ra r ∷ s) es n, o.gt_of_lt)
