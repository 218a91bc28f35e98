-- ===== src/Tree/DeleteNode.antt =====
-- src/db/persistent_tree.cc: the removal of the node that holds the key, or of its successor.
use cruzdb.Prelude.{
  ℕ, zero, suc, Bool, true, false, List, [], ◌∷◌, ◌++◌, Option, ◌≡◌, refl, ◌∙◌, inl, inr, Holds,
  Holds->>=, Holds-imp,
}
use cruzdb.Prelude.Int.{ℤ}
use cruzdb.Slice.{Slice}
use cruzdb.Node.{Node, nil, node, NodeAddress, NodePtr, left, right, is_red}
use cruzdb.Tree.Path.{Frame, rebuild}
use cruzdb.Tree.Delete.{build_min_path, steal_payload, remove_node}
use cruzdb.Tree.Entries.{
  entries, entries-rebuild, frame, before, after, before-append, after-append, entries_laws,
  own-node,
}
use cruzdb.Tree.Balanced.{Balanced, Fits, FitsAbove, RedBelowBlack, Fits-down}
use cruzdb.Tree.DeleteLoop.{Restored, remove_at-child}

-- What a balanced node below a path says of its children.
node-parts :
    (c : Bool) (i : ℤ) (k v : Slice) (la : Option NodeAddress) (l : Node) (ra : Option NodeAddress)
    (r : Node) (path : List Frame) (h : ℕ)
    → Balanced (node c i k v la l ra r) h
    → Fits path h
    → RedBelowBlack (node c i k v la l ra r) path
    → (h' : ℕ) × Balanced l h'
      × Balanced r h'
      × FitsAbove c path h'
      × (c ≡ true → is_red l ≡ false)
      × (c ≡ true → is_red r ≡ false)
node-parts true i k v la l ra r path h b fits (inl x) = cc
node-parts true i k v la l ra r path h b fits (inr x) =
    (h, b.2, b.3, (x, fits), (λ _. b.0), (λ _. b.1))
node-parts false i k v la l ra r path zero b fits red = absurd b
node-parts false i k v la l ra r path (suc h) b fits red = (h, b.0, b.1, fits, (λ e. cc), (λ e. cc))

-- The rid says nothing of the balance.
same-rid :
    (c : Bool) (i j : ℤ) (k v : Slice) (la : Option NodeAddress) (l : Node)
    (ra : Option NodeAddress) (r : Node) (h : ℕ)
    → Balanced (node c i k v la l ra r) h
    → Balanced (node c j k v la l ra r) h
same-rid true i j k v la l ra r h b = b
same-rid false i j k v la l ra r zero b = b
same-rid false i j k v la l ra r (suc h) b = b

-- The least node of `t`, with the path from `t` to it, above a given path.
abbrev Least : Node → List Frame → Node × List Frame → Type 0
Least t path (nil, below) = ⊥
Least t path (node c i k v la l ra r, below) =
    (h : ℕ) × Balanced r h
    × (c ≡ true → is_red r ≡ false)
    × FitsAbove c (below ++ path) h
    × (before below ≡ [])
    × (entries t ≡ (k, v) ∷ entries r ++ after below)

build_min_path-Least :
    (rid : ℤ) (t : Node) (acc path : List Frame) (u : Node) (h : ℕ)
    → Balanced t h
    → Fits (acc ++ path) h
    → RedBelowBlack t (acc ++ path)
    → before acc ≡ []
    → entries u ≡ entries t ++ after acc
    → (t ≡ nil → ⊥)
    → Holds (Least u path) (build_min_path rid t acc)
unfolding build_min_path
build_min_path-Least rid nil acc path u h b fits red e f n = n refl
build_min_path-Least rid (node c i k v la nil ra r) acc path u h b fits red e f n =
    let (h', bl, br, above, rl, rr) = node-parts c i k v la nil ra r (acc ++ path) h b fits red in
    (h', br, rr, above, e, f)
build_min_path-Least rid (node c i k v la (node lc li lk lv lla ll lra lr) ra r) acc path u h b fits
      red e f n =
    let f' = frame left c i k v la (record { address = ra; ref = r }) in
    let (h', b', fits', red') =
      Fits-down left c i i k v (record { address = la; ref = node lc li lk lv lla ll lra lr })
        (record { address = ra; ref = r }) (acc ++ path) h b fits red in
    build_min_path-Least rid (node lc rid lk lv lla ll lra lr) (f' ∷ acc) path u h'
      (same-rid lc li rid lk lv lla ll lra lr h' b') fits' red' (simp (e, entries_laws))
      (f ∙ simp entries_laws) (λ x. cc)

-- What `Delete` leaves: a balanced tree with a black root and the given entries between those around the path.
abbrev pub Removed : List Frame → List (Slice × Slice) → Node → Type 0
Removed path es root =
    ((h : ℕ) × Balanced root h)
    × (is_red root ≡ false)
    × (entries root ≡ before path ++ es ++ after path)

-- `steal_payload` changes a key and a value, and no colour.
Fits-payload :
    (c : Bool) (i : ℤ) (k v k' v' : Slice) (a : Option NodeAddress) (b : NodePtr)
    (below path : List Frame) (h : ℕ)
    → Fits (below ++ frame right c i k v a b ∷ path) h
    → Fits (below ++ frame right c i k' v' a b ∷ path) h
Fits-payload c i k v k' v' a b [] path h fits = fits
Fits-payload c i k v k' v' a b (f ∷ []) path h (inl x) =
    inl (x.0, x.1, x.2, x.3, Fits-payload c i k v k' v' a b [] path h x.4)
Fits-payload c i k v k' v' a b (f ∷ g ∷ below) path h (inl x) =
    inl (x.0, x.1, x.2, x.3, Fits-payload c i k v k' v' a b (g ∷ below) path h x.4)
Fits-payload c i k v k' v' a b (f ∷ below) path h (inr x) =
    inr (x.0, x.1, Fits-payload c i k v k' v' a b below path (suc h) x.2)

FitsAbove-payload :
    (c : Bool) (i : ℤ) (k v k' v' : Slice) (a : Option NodeAddress) (b : NodePtr) (d : Bool)
    (below path : List Frame) (h : ℕ)
    → FitsAbove d (below ++ frame right c i k v a b ∷ path) h
    → FitsAbove d (below ++ frame right c i k' v' a b ∷ path) h
FitsAbove-payload c i k v k' v' a b true [] path h (top, fits) =
    (top, Fits-payload c i k v k' v' a b [] path h fits)
FitsAbove-payload c i k v k' v' a b true (f ∷ below) path h (top, fits) =
    (top, Fits-payload c i k v k' v' a b (f ∷ below) path h fits)
FitsAbove-payload c i k v k' v' a b false below path h fits =
    Fits-payload c i k v k' v' a b below path (suc h) fits

steal_payload-Removed :
    (rid : ℤ) (c : Bool) (i : ℤ) (k v : Slice) (ra : Option NodeAddress) (l : NodePtr) (r : Node)
    (path : List Frame) (m : Node × List Frame)
    → Least r (frame right c i k v ra l ∷ path) m
    → Holds
        (Removed path (entries l.ref ++ entries r))
        (steal_payload rid (frame right c i k v ra l) m.0 m.1 path)
unfolding steal_payload
steal_payload-Removed rid c i k v ra l r path (nil, below) h = absurd h
steal_payload-Removed rid c i k v ra l r path (node mc mi mk mv mla ml mra mr, below)
      (h, b, rr, above, e, f) =
    let path' = below ++ frame right c i mk mv ra l ∷ path in
    Holds-imp (Restored (rebuild mr path')) (Removed path (entries l.ref ++ entries r)) _
      (λ root x. (x.0, x.1, x.2 ∙ simp (before-append, after-append, e, f, entries_laws)))
      (remove_at-child rid mc mr path' h rr b
        (FitsAbove-payload c i k v mk mv ra l mc below path h above))

pub remove_node-Removed :
    (rid : ℤ) (c : Bool) (i : ℤ) (k v : Slice) (la : Option NodeAddress) (l : Node)
    (ra : Option NodeAddress) (r : Node) (path : List Frame) (h : ℕ)
    → Balanced (node c i k v la l ra r) h
    → Fits path h
    → RedBelowBlack (node c i k v la l ra r) path
    → Holds (Removed path (entries l ++ entries r)) (remove_node rid (node c i k v la l ra r) path)
unfolding remove_node
remove_node-Removed rid c i k v la nil ra r path h b fits red =
    let (h', bl, br, above, rl, rr) = node-parts c i k v la nil ra r path h b fits red in
    Holds-imp (Restored (rebuild r path)) (Removed path (entries r)) _
      (λ root x. (x.0, x.1, x.2 ∙ entries-rebuild r path))
      (remove_at-child rid c r path h' rr br above)
remove_node-Removed rid c i k v la (node lc li lk lv lla ll lra lr) ra nil path h b fits red =
    let l : Node = node lc li lk lv lla ll lra lr in
    let (h', bl, br, above, rl, rr) = node-parts c i k v la l ra nil path h b fits red in
    Holds-imp (Restored (rebuild l path)) (Removed path (entries l ++ [])) _
      (λ root x. (x.0, x.1, x.2 ∙ simp entries_laws)) (remove_at-child rid c l path h' rl bl above)
remove_node-Removed rid c i k v la (node lc li lk lv lla ll lra lr) ra
      (node rc ri rk rv rla rl rra rr) path h b fits red =
    let l : NodePtr = record { address = la; ref = node lc li lk lv lla ll lra lr } in
    let r : Node = node rc ri rk rv rla rl rra rr in
    let (h', b', fits', red') =
      Fits-down right c i i k v (record { address = ra; ref = r }) l path h b fits red in
    rw own-node (
      Holds->>= (Least r (frame right c i k v ra l ∷ path))
        (Removed path (entries l.ref ++ entries r)) _ _
        (build_min_path-Least rid (node rc rid rk rv rla rl rra rr) []
          (frame right c i k v ra l ∷ path) r h' (same-rid rc ri rid rk rv rla rl rra rr h' b')
          fits' red' refl (simp entries_laws) (λ x. cc))
        (λ m x. steal_payload-Removed rid c i k v ra l r path m x))
