-- ===== src/Iterator/Turns.antt =====
-- src/db/iterator_impl.cc: seeks, reads and moves of the iterator, which turns around by a seek.
use cruzdb.Prelude.{
  true, List, [], ◌∷◌, ◌++◌, some, ◌>>=◌, ◌>>◌, assert, ◌≡◌, refl, sym, ap, ◌∙◌, inl, inr, Holds,
  Holds-imp, Holds->>=, append-nil,
}
use cruzdb.Slice.{Slice, SliceCompare}
use cruzdb.Dict.{Entry, IsSorted, IsSorted-split, Below}
use cruzdb.Node.{Node, nil, node}
use cruzdb.Tree.Entries.{entries, list_laws}
use cruzdb.Iterator.Raw.{
  RawIterator, Direction, valid, key, value, seek, seek_forward, seek_previous, step_forward,
  step_back, next, prev, seek_path, seek_previous_path, top_equal,
}
use cruzdb.Iterator.Stack.{
  ahead, behind, Nodes, from, up_to, from_at, up_to_at, from-split, ahead-seek_path,
  behind-seek_previous_path, seek_path-Nodes, seek_previous_path-Nodes, top_not_less-from,
}
use cruzdb.Iterator.Moves.{
  Ahead, Behind, At, nil_ne_snoc, snoc_injective, step_forward-Ahead, step_back-Behind,
}

-- What the iterator reads, from either form of its stack.
Reads : RawIterator → Entry → Type 0
Reads it e = (valid it ≡ true) × (key it ≡ some e.0) × (value it ≡ some e.1)

Reads-ahead :
    (t : Node) (s : List Node) (d : Direction) (e : Entry) (ys : List Entry)
    → Nodes s
    → ahead s ≡ e ∷ ys
    → Reads (record { root = t; stack = s; dir = d }) e
unfolding Reads valid key value
Reads-ahead t [] d e ys n h = cc
Reads-ahead t (nil ∷ s) d e ys n h = cc
Reads-ahead t (node c i k v la l ra r ∷ s) d e ys n h =
    let w : (k, v) ≡ e = cc in (refl, ap (λ z. some z.0) w, ap (λ z. some z.1) w)

Reads-behind :
    (t : Node) (s : List Node) (d : Direction) (e : Entry) (xs : List Entry)
    → Nodes s
    → behind s ≡ xs ++ e ∷ []
    → Reads (record { root = t; stack = s; dir = d }) e
unfolding Reads valid key value
Reads-behind t [] d e xs n h = absurd (nil_ne_snoc xs e h)
Reads-behind t (nil ∷ s) d e xs n h = cc
Reads-behind t (node c i k v la l ra r ∷ s) d e xs n h =
    let w = (snoc_injective (behind s ++ entries l) xs (k, v) e ((simp list_laws) ∙ h)).1 in
    (refl, ap (λ z. some z.0) w, ap (λ z. some z.1) w)

-- An iterator at an entry, in either direction, is valid and reads its key and value.
pub At-reads :
    (it : RawIterator) (xs : List Entry) (e : Entry) (ys : List Entry)
    → At it xs e ys
    → (valid it ≡ true) × (key it ≡ some e.0) × (value it ≡ some e.1)
unfolding Reads
At-reads it xs e ys (inl a) = Reads-ahead it.root it.stack it.dir e ys a.nodes a.stack_ahead
At-reads it xs e ys (inr b) = Reads-behind it.root it.stack it.dir e xs b.nodes b.stack_behind

module _ ⦃o : SliceCompare⦄ where
  -- `Seek` over sorted entries fails no assertion; it leaves the iterator going forward, after the
  -- entries below the key and before all the others.
  pub seek-Ahead :
      (q : Slice) (it : RawIterator)
      → IsSorted (entries it.root)
      → Holds
          (λ it'.
            (it'.root ≡ it.root)
            × ((xs : List Entry) × Below q xs × Ahead it' xs (from q (entries it.root))))
          (seek q it)
  unfolding seek
  seek-Ahead q it h =
      let n = seek_path-Nodes q it.root [] tt in
      let a = ahead-seek_path q it.root [] h ∙ append-nil (from q (entries it.root)) in
      let (xs, b, e) = from-split q (entries it.root) h in
      rw (top_not_less-from q (seek_path q it.root []) (entries it.root) n a, assert, ◌>>◌, ◌>>=◌)
        (refl, (xs, b, record { split = e; going = refl; stack_ahead = a; nodes = n }))

  top_equal-ahead :
      (s : List Node) (e : Entry) (ys : List Entry)
      → Nodes s
      → ahead s ≡ e ∷ ys
      → top_equal e.0 s ≡ true
  unfolding top_equal
  top_equal-ahead [] e ys n h = cc
  top_equal-ahead (nil ∷ s) e ys n h = cc
  top_equal-ahead (node c i k v la l ra r ∷ s) e ys n h =
      let w : (k, v) ≡ e = cc in rw (sym (ap (λ z. z.0) w), o.compare_refl k, top_equal) refl

  top_equal-behind :
      (s : List Node) (xs : List Entry) (e : Entry)
      → Nodes s
      → behind s ≡ xs ++ e ∷ []
      → top_equal e.0 s ≡ true
  unfolding top_equal
  top_equal-behind [] xs e n h = refl
  top_equal-behind (nil ∷ s) xs e n h = cc
  top_equal-behind (node c i k v la l ra r ∷ s) xs e n h =
      let w = (snoc_injective (behind s ++ entries l) xs (k, v) e ((simp list_laws) ∙ h)).1 in
      rw (sym (ap (λ z. z.0) w), o.compare_refl k, top_equal) refl

  -- The turn at an entry of the snapshot.
  seek_forward-Ahead :
      (it : RawIterator) (xs : List Entry) (e : Entry) (ys : List Entry)
      → entries it.root ≡ xs ++ e ∷ ys
      → IsSorted (entries it.root)
      → Holds (λ it'. (it'.root ≡ it.root) × Ahead it' xs (e ∷ ys)) (seek_forward e.0 it)
  unfolding seek_forward
  seek_forward-Ahead it xs e ys f h =
      let n = seek_path-Nodes e.0 it.root [] tt in
      let h' : IsSorted (xs ++ e ∷ ys) = rw f at h in
      let b = (IsSorted-split xs e ys h').1 in
      let a =
        ahead-seek_path e.0 it.root [] h
        ∙ append-nil (from e.0 (entries it.root))
        ∙ ap (from e.0) f
        ∙ from_at e.0 e.1 xs ys b in
      rw (top_equal-ahead (seek_path e.0 it.root []) e ys n a, assert, ◌>>◌, ◌>>=◌)
        (refl, record { split = f; going = refl; stack_ahead = a; nodes = n })

  seek_previous-Behind :
      (it : RawIterator) (xs : List Entry) (e : Entry) (ys : List Entry)
      → entries it.root ≡ xs ++ e ∷ ys
      → IsSorted (entries it.root)
      → Holds (λ it'. (it'.root ≡ it.root) × Behind it' (xs ++ e ∷ []) ys) (seek_previous e.0 it)
  unfolding seek_previous
  seek_previous-Behind it xs e ys f h =
      let n = seek_previous_path-Nodes e.0 it.root [] tt in
      let h' : IsSorted (xs ++ e ∷ ys) = rw f at h in
      let (_, b, c, _) = IsSorted-split xs e ys h' in
      let a =
        behind-seek_previous_path e.0 it.root [] h
        ∙ ap (up_to e.0) f
        ∙ up_to_at e.0 e.1 xs ys b c in
      rw (top_equal-behind (seek_previous_path e.0 it.root []) xs e n a, assert, ◌>>◌, ◌>>=◌)
        (refl, record { split = f ∙ simp list_laws; going = refl; stack_behind = a; nodes = n })

  -- `Next` on an iterator at an entry, in either direction, fails no assertion and leaves it going
  -- forward, after that entry and before those that follow it in the snapshot.
  pub next-Ahead :
      (it : RawIterator) (xs : List Entry) (e : Entry) (ys : List Entry)
      → IsSorted (entries it.root)
      → At it xs e ys
      → Holds (λ it'. (it'.root ≡ it.root) × Ahead it' (xs ++ e ∷ []) ys) (next it)
  unfolding next
  next-Ahead it xs e ys h (inl a) =
      rw ((At-reads it xs e ys (inl a)).0, a.going, assert, ◌>>◌, ◌>>=◌)
        (step_forward-Ahead it xs e ys a)
  next-Ahead it xs e ys h (inr b) =
      let r = At-reads it xs e ys (inr b) in
      let s = seek_forward-Ahead it xs e ys (b.split ∙ simp list_laws) h in
      rw (r.0, b.going, r.1, assert, ◌>>◌, ◌>>=◌)
        (Holds->>= (λ it'. (it'.root ≡ it.root) × Ahead it' xs (e ∷ ys)) _ (seek_forward e.0 it)
          step_forward s
          (λ m x.
            Holds-imp _ _ (step_forward m) (λ _ y. (y.0 ∙ x.0, y.1))
              (step_forward-Ahead m xs e ys x.1)))

  -- `Prev` on an iterator at an entry, in either direction, fails no assertion and leaves it going
  -- back, after the entries before that entry in the snapshot.
  pub prev-Behind :
      (it : RawIterator) (xs : List Entry) (e : Entry) (ys : List Entry)
      → IsSorted (entries it.root)
      → At it xs e ys
      → Holds (λ it'. (it'.root ≡ it.root) × Behind it' xs (e ∷ ys)) (prev it)
  unfolding prev
  prev-Behind it xs e ys h (inr b) =
      rw ((At-reads it xs e ys (inr b)).0, b.going, assert, ◌>>◌, ◌>>=◌)
        (step_back-Behind it xs e ys b)
  prev-Behind it xs e ys h (inl a) =
      let r = At-reads it xs e ys (inl a) in
      let s = seek_previous-Behind it xs e ys a.split h in
      rw (r.0, a.going, r.1, assert, ◌>>◌, ◌>>=◌)
        (Holds->>= (λ it'. (it'.root ≡ it.root) × Behind it' (xs ++ e ∷ []) ys) _
          (seek_previous e.0 it) step_back s
          (λ m x.
            Holds-imp _ _ (step_back m) (λ _ y. (y.0 ∙ x.0, y.1)) (step_back-Behind m xs e ys x.1)))
