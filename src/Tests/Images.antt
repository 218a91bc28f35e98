-- ===== src/Tests/Images.antt =====
-- A tree with two new nodes over one that is in the log, written to an after image and read back.
use cruzdb.Prelude.{
  ℕ, ◌-◌, ◌^◌, ◌≤◌, true, false, [], ◌∷◌, Option, none, some, ◌≡◌, refl, ◌==◌, if◌then◌else◌, arith,
}
use cruzdb.Prelude.Int.{pos}
use cruzdb.Slice.Lex.{lex, bytewise}
use cruzdb.Node.{Node, nil, node, NodePtr, NodeAddress, has_rid, own, copy}
use cruzdb.Tree.Path.{rotate}
use cruzdb.Tree.State.{PersistentTree, put}
use cruzdb.Tree.Insert.{insert_recursive, balance_insert, insert_loop, insert_balance, rotate_inner}
use cruzdb.Image.Proto.{ProtoPtr, AfterImage}
use cruzdb.Image.Write.{
  infect_node_ptr, infect_after_image, set_rids, infect_self_pointers, serialize_address,
  serialize_node_ptr, serialize_node, serialize_intention, serialize_after_image,
}
use cruzdb.Image.Read.{deserialize_node_ptr, deserialize_node, find_after_image_position, fetch}
use cruzdb.Image.Stored.{plain, stored_nil, stored_node, read_tree}
use cruzdb.Image.Pointers.{Kept}
use cruzdb.Image.RoundTrip.{infected}
use cruzdb.Image.Fetch.{height, image-read_tree}

program : Unit {0}
unfolding infect_node_ptr infect_after_image set_rids infect_self_pointers serialize_address
    serialize_node_ptr serialize_node serialize_intention serialize_after_image deserialize_node_ptr
    deserialize_node find_after_image_position fetch has_rid height read_tree lex put
    insert_recursive balance_insert insert_loop insert_balance rotate_inner rotate own copy
program = tt

abbrev old_ptr : ProtoPtr
old_ptr = record { is_nil = true; self = false; intention = none; afterimage = none; off = none }

abbrev old_address : NodeAddress
old_address = record { position = 3; offset = 0; is_afterimage = true }

-- The node at position 3, and the tree over it.
abbrev old_node : Node
old_node = node false (pos 2) (b'c' ∷ []) (3 ∷ []) none nil none nil

abbrev root : Node
root =
    node false (pos 7) (b'b' ∷ []) (2 ∷ []) none
      (node true (pos 7) (b'a' ∷ []) (1 ∷ []) none nil none nil) (some old_address) old_node

abbrev old_image : AfterImage
old_image = record {
  intention = 2;
  tree =
      record { red = false; key = b'c' ∷ []; val = 3 ∷ []; left = old_ptr; right = old_ptr } ∷ [];
}

abbrev image : AfterImage
image = record {
  intention = 7;
  tree =
      record { red = true; key = b'a' ∷ []; val = 1 ∷ []; left = old_ptr; right = old_ptr }
      ∷ record {
        red = false;
        key = b'b' ∷ [];
        val = 2 ∷ [];
        left = record {
          is_nil = false;
          self = true;
          intention = none;
          afterimage = none;
          off = some 0;
        };
        right = record {
          is_nil = false;
          self = false;
          intention = none;
          afterimage = some 3;
          off = some 0;
        };
      }
      ∷ [];
}

abbrev read_log : ℕ → Option AfterImage
read_log p = if p == 3 then some old_image else if p == 9 then some image else none

abbrev no_mapping : ℕ → Option ℕ
no_mapping i = none

no_mapping-agrees : (i p : ℕ) → no_mapping i ≡ some p → no_mapping i ≡ some p
no_mapping-agrees i p h = h

abbrev src_root : NodePtr
src_root = record { address = some old_address; ref = old_node }

root-new : has_rid (pos 7) root ≡ true
unfolding program
root-new = refl

root-Kept : Kept read_log no_mapping no_mapping no_mapping-agrees (pos 7) none root
unfolding program
root-Kept = ((tt, tt), (old_address, refl, omega arith, stored_node refl stored_nil stored_nil))

root-small : (infect_after_image (pos 7) 7 root 0).1 ≤ 2 ^ 16
unfolding program
root-small = ground arith

root-image : serialize_after_image no_mapping (infected (pos 7) 7 src_root root) 7 ≡ some image
unfolding program
root-image = refl

image-read_tree_example :
    read_tree (fetch read_log no_mapping) (height (plain root)) (
      some (record {
        position = 9;
        offset = (infect_after_image (pos 7) 7 root 0).1 - 1;
        is_afterimage = true;
      }))
    ≡ some (plain root)
image-read_tree_example =
    image-read_tree read_log no_mapping no_mapping no_mapping-agrees 9 (pos 7) 7 src_root root none
      image root-new root-Kept root-small root-image refl

abbrev replayed : PersistentTree
replayed = record { src_root = src_root; root = some root; rid = pos 7 }

-- A put into the tree.
abbrev put_result : PersistentTree
put_result = record replayed {
  root = some (
      node false (pos 7) (b'b' ∷ []) (2 ∷ []) none
        (node true (pos 7) (b'a' ∷ []) (1 ∷ []) none nil none nil) (some old_address)
        (node false (pos 7) (b'c' ∷ []) (3 ∷ []) none nil none
          (node true (pos 7) (b'd' ∷ []) (4 ∷ []) none nil none nil)));
}

put-result : put ⦃o = bytewise⦄ (b'd' ∷ []) (4 ∷ []) replayed ≡ some put_result
unfolding program
put-result = refl
