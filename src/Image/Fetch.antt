-- ===== src/Image/Fetch.antt =====
-- src/db/node_cache.cc: a tree read node by node from its after image, and the tree that
-- `infect_self_pointers` makes of one that is replayed.
use cruzdb.Prelude.{
  ℕ, zero, suc, ◌-◌, ◌^◌, ◌≤◌, true, Option, some, ◌>>=◌, ◌>>◌, assert, ◌≡◌, refl, if◌then◌else◌,
  arith, Bool-cases, inl, inr, ltb, lt→ltb,
}
use cruzdb.Prelude.Int.{ℤ, pos, ◌==ℤ◌, ==ℤ_iff}
use cruzdb.Node.{Node, nil, node, NodePtr, NodeAddress, has_rid, is_nil}
use cruzdb.Tree.State.{PersistentTree}
use cruzdb.Image.Proto.{AfterImage}
use cruzdb.Image.Write.{infect_after_image, infect_self_pointers, set_rids, serialize_after_image}
use cruzdb.Image.Read.{LooseNode, fetch}
use cruzdb.Image.Stored.{Plain, leaf, bin, plain, Stored, stored_nil, stored_node, read_tree}
use cruzdb.Image.Infect.{infect-new}
use cruzdb.Image.Pointers.{Kept}
use cruzdb.Image.RoundTrip.{infected, or_right, image-Stored}

abbrev max : ℕ → ℕ → ℕ
max a b = if ltb a b then b else a

unfoldable pub height : Plain → ℕ
height leaf = 0
height (bin c k v l r) = suc (max (height l) (height r))

-- Enough fuel for a stored tree is its height.
Stored-read_tree :
    (load : NodeAddress → Option LooseNode) (fuel : ℕ) {a : Option NodeAddress} {t : Plain}
    → Stored load a t
    → height t ≤ fuel
    → read_tree load fuel a ≡ some t
unfolding read_tree height
Stored-read_tree load fuel stored_nil h = refl
Stored-read_tree load zero (stored_node e sl sr) h = absurd (omega arith)
Stored-read_tree load (suc fuel) (stored_node {l = l} {r = r} e sl sr) h =
    let hl : height l ≤ fuel = ground arith in
    let hr : height r ≤ fuel = ground arith in
    rw (e, ◌>>=◌, Stored-read_tree load fuel sl hl, Stored-read_tree load fuel sr hr) refl

-- An after image that has been serialized and is in the log gives the tree back: from the address of
-- its last node on, a reader gets the colours, keys and values of the tree that was serialized, where
-- the tree has at most 2 ^ 16 new nodes and every other node below them is in the log at its
-- pointer's address, and where the cached positions of after images are those in the log. Fuel for
-- the height of the tree is enough.
pub image-read_tree :
    (read_after_image : ℕ → Option AfterImage) (primary cached : ℕ → Option ℕ)
    (agrees : (i p : ℕ) → cached i ≡ some p → primary i ≡ some p) (aipos : ℕ) (rid : ℤ)
    (intention : ℕ) (src_root : NodePtr) (root : Node) (a : Option NodeAddress) (image : AfterImage)
    → has_rid rid root ≡ true
    → Kept read_after_image primary cached agrees rid a root
    → (infect_after_image rid intention root 0).1 ≤ 2 ^ 16
    → serialize_after_image cached (infected rid intention src_root root) intention ≡ some image
    → read_after_image aipos ≡ some image
    → read_tree (fetch read_after_image primary) (height (plain root)) (
        some (record {
          position = aipos;
          offset = (infect_after_image rid intention root 0).1 - 1;
          is_afterimage = true;
        }))
      ≡ some (plain root)
image-read_tree read_after_image primary cached agrees aipos rid intention src_root root a image h
      kept bound s in_log =
    Stored-read_tree (fetch read_after_image primary) (height (plain root))
      (image-Stored read_after_image primary cached agrees aipos rid intention src_root root a image
        h kept bound s in_log)
      (omega arith)

set_rids_same : (rid : ℤ) (t : Node) → set_rids rid rid t ≡ t
unfolding set_rids has_rid
set_rids_same rid nil = refl
set_rids_same rid (node c i k v la l ra r) =
    let a = set_rids_same rid l in
    let b = set_rids_same rid r in
    elim (Bool-cases (i ==ℤ rid)) [
      | inl h ↦ rw (h, if◌then◌else◌, a, b, (==ℤ_iff i rid).0 h) refl
      | inr h ↦ rw (h, if◌then◌else◌) refl
    ]

-- For a replayed tree, whose identifier is the position of its intention and whose root is new,
-- `infect_self_pointers` fails no assertion, gives the new nodes their addresses, and returns the
-- offset of the root.
pub infect_self_pointers_lem :
    (intention : ℕ) (tree : PersistentTree) (root : Node)
    → tree.rid ≡ pos intention
    → tree.root ≡ some root
    → has_rid (pos intention) root ≡ true
    → infect_self_pointers intention true tree
      ≡ some (
        record tree {
          root = some (infect_after_image (pos intention) intention root 0).0;
          rid = pos intention;
        },
        some ((infect_after_image (pos intention) intention root 0).1 - 1),
      )
unfolding infect_self_pointers
infect_self_pointers_lem intention tree root e f h =
    let g : (pos intention ==ℤ pos intention) ≡ true =
      (==ℤ_iff (pos intention) (pos intention)).1 refl in
    let n =
      lt→ltb 0 (infect_after_image (pos intention) intention root 0).1
        (omega (arith, infect-new (pos intention) intention root 0 h)) in
    rw
      (
        f,
        infect_self_pointers,
        e,
        g,
        set_rids_same (pos intention) root,
        h,
        or_right (is_nil root),
        n,
        assert,
        ◌>>◌,
        ◌>>=◌,
      )
      refl
