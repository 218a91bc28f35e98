-- ===== src/Iterator/Moves.antt =====
-- src/db/iterator_impl.cc: where the operations of the iterator leave it, against the list of the
-- snapshot's entries.
use cruzdb.Prelude.{List, [], ◌∷◌, ◌++◌, ◌≡◌, refl, sym, ◌∙◌, ◌⊎◌, Holds, append-nil}
use cruzdb.Dict.{Entry}
use cruzdb.Node.{Node, nil, node}
use cruzdb.Tree.Entries.{entries, list_laws}
use cruzdb.Iterator.Raw.{
  RawIterator, Direction, forward, reverse, seek_to_first, seek_to_last, step_forward, step_back,
}
use cruzdb.Iterator.Stack.{
  ahead, behind, Nodes, ahead-push_left, behind-push_right, push_left-Nodes, push_right-Nodes,
}

-- The iterator goes forward, between the entries `xs` and `ys`: the next one to read heads `ys`.
pub record Ahead (it : RawIterator) (xs ys : List Entry) : Type 0 where
  pub split : entries it.root ≡ xs ++ ys
  pub going : it.dir ≡ forward
  pub stack_ahead : ahead it.stack ≡ ys
  pub nodes : Nodes it.stack

-- The iterator goes back, between the entries `xs` and `ys`: the next one to read ends `xs`.
pub record Behind (it : RawIterator) (xs ys : List Entry) : Type 0 where
  pub split : entries it.root ≡ xs ++ ys
  pub going : it.dir ≡ reverse
  pub stack_behind : behind it.stack ≡ xs
  pub nodes : Nodes it.stack

-- The iterator is at the entry `e`, after `xs` and before `ys`, in either direction.
abbrev pub At : RawIterator → List Entry → Entry → List Entry → Type 0
At it xs e ys = Ahead it xs (e ∷ ys) ⊎ Behind it (xs ++ e ∷ []) ys

pub snoc_injective :
    (xs ys : List Entry) (a b : Entry) → xs ++ a ∷ [] ≡ ys ++ b ∷ [] → (xs ≡ ys) × (a ≡ b)
snoc_injective [] [] a b h = (refl, cc)
snoc_injective [] (y ∷ []) a b h = cc
snoc_injective [] (y ∷ z ∷ ys) a b h = cc
snoc_injective (x ∷ []) [] a b h = cc
snoc_injective (x ∷ z ∷ xs) [] a b h = cc
snoc_injective (x ∷ xs) (y ∷ ys) a b h =
    let t : xs ++ a ∷ [] ≡ ys ++ b ∷ [] = cc in
    let r = snoc_injective xs ys a b t in let e : x ≡ y = cc in (cc, r.1)

pub nil_ne_snoc : (xs : List Entry) (e : Entry) → [] ≡ xs ++ e ∷ [] → ⊥
nil_ne_snoc [] e h = cc
nil_ne_snoc (x ∷ xs) e h = cc

-- `SeekToFirst` leaves the iterator before all entries of the snapshot, going forward.
pub seek_to_first-Ahead : (it : RawIterator) → Ahead (seek_to_first it) [] (entries it.root)
unfolding seek_to_first
seek_to_first-Ahead it = record {
  split = refl;
  going = refl;
  stack_ahead = ahead-push_left it.root [] ∙ append-nil (entries it.root);
  nodes = push_left-Nodes it.root [] tt;
}

-- `SeekToLast` leaves the iterator after all entries of the snapshot, going back.
pub seek_to_last-Behind : (it : RawIterator) → Behind (seek_to_last it) (entries it.root) []
unfolding seek_to_last
seek_to_last-Behind it = record {
  split = sym (append-nil (entries it.root));
  going = refl;
  stack_behind = behind-push_right it.root [];
  nodes = push_right-Nodes it.root [] tt;
}

-- The top of the stack.
top_ahead :
    (s : List Node) (e : Entry) (ys : List Entry)
    → Nodes s
    → ahead s ≡ e ∷ ys
    → (n : Node) × (rest : List Node) × (s ≡ n ∷ rest)
top_ahead [] e ys n h = cc
top_ahead (t ∷ s) e ys n h = (t, s, refl)

pub step_forward-Ahead :
    (it : RawIterator) (xs : List Entry) (e : Entry) (ys : List Entry)
    → Ahead it xs (e ∷ ys)
    → Holds (λ it'. (it'.root ≡ it.root) × Ahead it' (xs ++ e ∷ []) ys) (step_forward it)
unfolding step_forward
step_forward-Ahead it xs e ys h = go it.root it.stack it.dir h.split h.going h.stack_ahead h.nodes
  where
    go :
        (t : Node) (s : List Node) (d : Direction)
        → entries t ≡ xs ++ e ∷ ys
        → d ≡ forward
        → ahead s ≡ e ∷ ys
        → Nodes s
        → Holds
            (λ it'. (it'.root ≡ t) × Ahead it' (xs ++ e ∷ []) ys)
            (step_forward (record { root = t; stack = s; dir = d }))
    go t [] d f g a n = cc
    go t (nil ∷ s) d f g a n = cc
    go t (node c i k v la l ra r ∷ s) d f g a n = (
      refl,
      record {
        split = f ∙ simp list_laws;
        going = g;
        stack_ahead = let w : entries r ++ ahead s ≡ ys = cc in ahead-push_left r s ∙ w;
        nodes = push_left-Nodes r s n.1;
      },
    )

pub step_back-Behind :
    (it : RawIterator) (xs : List Entry) (e : Entry) (ys : List Entry)
    → Behind it (xs ++ e ∷ []) ys
    → Holds (λ it'. (it'.root ≡ it.root) × Behind it' xs (e ∷ ys)) (step_back it)
unfolding step_back
step_back-Behind it xs e ys h = go it.root it.stack it.dir h.split h.going h.stack_behind h.nodes
  where
    go :
        (t : Node) (s : List Node) (d : Direction)
        → entries t ≡ (xs ++ e ∷ []) ++ ys
        → d ≡ reverse
        → behind s ≡ xs ++ e ∷ []
        → Nodes s
        → Holds
            (λ it'. (it'.root ≡ t) × Behind it' xs (e ∷ ys))
            (step_back (record { root = t; stack = s; dir = d }))
    go t [] d f g a n = absurd (nil_ne_snoc xs e a)
    go t (nil ∷ s) d f g a n = cc
    go t (node c i k v la l ra r ∷ s) d f g a n =
        let w = snoc_injective (behind s ++ entries l) xs (k, v) e ((simp list_laws) ∙ a) in
        (
          refl,
          record {
            split = f ∙ simp list_laws;
            going = g;
            stack_behind = behind-push_right l s ∙ w.0;
            nodes = push_right-Nodes l s n.1;
          },
        )
