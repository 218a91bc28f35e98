-- ===== src/Iterator/Raw.antt =====
-- src/db/iterator_impl.cc: `RawIteratorImpl`, its stack of nodes and its operations. The trace for
-- the cache is left out.
use Prim.Native.Nat.Ordering.{lt, eq, gt}
use cruzdb.Prelude.{Bool, true, false, List, [], ◌∷◌, Option, none, some, ◌>>=◌, ◌>>◌, assert}
use cruzdb.Slice.{Slice, SliceCompare}
use cruzdb.Node.{Node, nil, node}

-- `dir`
pub data Direction : Type 0 where
  forward reverse : Direction

-- `root` is that of the snapshot; the top of the stack comes first.
pub record RawIterator : Type 0 where
  pub root : Node
  pub stack : List Node
  pub dir : Direction

-- `Valid`
unfoldable pub valid : RawIterator → Bool
valid it = elim it.stack [ [] ↦ false | n ∷ s ↦ true ]

-- The loops that push a node and go all the way to the left, or to the right.
unfoldable pub push_left : Node → List Node → List Node
push_left nil s = s
push_left (node c i k v la l ra r) s = push_left l (node c i k v la l ra r ∷ s)

unfoldable pub push_right : Node → List Node → List Node
push_right nil s = s
push_right (node c i k v la l ra r) s = push_right r (node c i k v la l ra r ∷ s)

unfoldable pub seek_to_first : RawIterator → RawIterator
seek_to_first it = record it { stack = push_left it.root []; dir = forward }

unfoldable pub seek_to_last : RawIterator → RawIterator
seek_to_last it = record it { stack = push_right it.root []; dir = reverse }

-- The key and the value of a node; the program reads them at the top of the stack only.
abbrev pub node_key : Node → Option Slice
node_key nil = none
node_key (node c i k v la l ra r) = some k

abbrev pub node_value : Node → Option Slice
node_value nil = none
node_value (node c i k v la l ra r) = some v

unfoldable pub key : RawIterator → Option Slice
key it = elim it.stack [ [] ↦ none | n ∷ s ↦ node_key n ]

unfoldable pub value : RawIterator → Option Slice
value it = elim it.stack [ [] ↦ none | n ∷ s ↦ node_value n ]

-- The end of `Next` and of `Prev`: the top of the stack gives way to its subtree.
unfoldable pub step_forward : RawIterator → Option RawIterator
step_forward it = elim it.stack [
  | [] ↦ none
  | n ∷ s ↦ elim n [
    | nil ↦ none
    | node c i k v la l ra r ↦ some (record it { stack = push_left r s })
  ]
]

unfoldable pub step_back : RawIterator → Option RawIterator
step_back it = elim it.stack [
  | [] ↦ none
  | n ∷ s ↦ elim n [
    | nil ↦ none
    | node c i k v la l ra r ↦ some (record it { stack = push_right l s })
  ]
]

module _ ⦃o : SliceCompare⦄ where
  -- The loop of `Seek` and `SeekForward`.
  unfoldable pub seek_path : Slice → Node → List Node → List Node
  seek_path q nil s = s
  seek_path q (node c i k v la l ra r) s = elim (o.compare q k) [
    | eq ↦ node c i k v la l ra r ∷ s
    | lt ↦ seek_path q l (node c i k v la l ra r ∷ s)
    | gt ↦ seek_path q r s
  ]

  -- The loop of `SeekPrevious`.
  unfoldable pub seek_previous_path : Slice → Node → List Node → List Node
  seek_previous_path q nil s = s
  seek_previous_path q (node c i k v la l ra r) s = elim (o.compare q k) [
    | eq ↦ node c i k v la l ra r ∷ s
    | lt ↦ seek_previous_path q l s
    | gt ↦ seek_previous_path q r (node c i k v la l ra r ∷ s)
  ]

  -- The assertions on the top of the stack: its key is not less, or the same.
  unfoldable pub top_not_less : Slice → List Node → Bool
  top_not_less q [] = true
  top_not_less q (nil ∷ s) = false
  top_not_less q (node c i k v la l ra r ∷ s) = elim (o.compare k q) [ lt ↦ false | _ ↦ true ]

  unfoldable pub top_equal : Slice → List Node → Bool
  top_equal q [] = true
  top_equal q (nil ∷ s) = false
  top_equal q (node c i k v la l ra r ∷ s) = elim (o.compare k q) [ eq ↦ true | _ ↦ false ]

  unfoldable pub seek : Slice → RawIterator → Option RawIterator
  seek q it = do
    assert (top_not_less q (seek_path q it.root []))
    some (record it { stack = seek_path q it.root []; dir = forward })

  unfoldable pub seek_forward : Slice → RawIterator → Option RawIterator
  seek_forward q it = do
    assert (top_equal q (seek_path q it.root []))
    some (record it { stack = seek_path q it.root []; dir = forward })

  unfoldable pub seek_previous : Slice → RawIterator → Option RawIterator
  seek_previous q it = do
    assert (top_equal q (seek_previous_path q it.root []))
    some (record it { stack = seek_previous_path q it.root []; dir = reverse })

  unfoldable pub next : RawIterator → Option RawIterator
  next it = do
    assert (valid it)
    it' ← elim it.dir [ forward ↦ some it | reverse ↦ key it >>= λ k. seek_forward k it ]
    step_forward it'

  unfoldable pub prev : RawIterator → Option RawIterator
  prev it = do
    assert (valid it)
    it' ← elim it.dir [ reverse ↦ some it | forward ↦ key it >>= λ k. seek_previous k it ]
    step_back it'
