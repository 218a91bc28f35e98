-- ===== src/Tests.antt =====
-- Concrete trees, transactions and runs, under the bytewise order of keys.
mod Images
mod Services
mod Threads
mod Processing
mod Caches
mod Clients
use cruzdb.Prelude.{
  ℕ, Bool, true, false, List, [], ◌∷◌, none, some, ◌≡◌, refl, Holds, arith, ◌>>=◌, ◌≢◌, ◌↔◌,
}
use cruzdb.Prelude.Int.{pos, negsuc}
use cruzdb.Slice.{Slice, prefix_string, prefix_user}
use cruzdb.Slice.Lex.{lex, bytewise}
use cruzdb.Dict.{lookup, upsert, remove, IsSorted}
use cruzdb.Node.{Node, nil, node, own, copy, has_rid}
use cruzdb.Tree.Path.{rotate}
use cruzdb.Tree.Insert.{
  get as get_node, insert_recursive, rotate_inner, insert_balance, insert_loop, balance_insert,
}
use cruzdb.Tree.Delete.{
  delete_recursive, build_min_path, raise_red_brother, rotate_red_brother, rotate_near_nephew,
  rotate_brother, paint_brother, rotate_nephews, balance_black_brother, mirror_remove_balance,
  finish_delete, continue_delete, balance_delete, remove_at, steal_payload, remove_node,
}
use cruzdb.Tree.State.{
  PersistentTree, base_root, get, put, delete, read_only, copy_recursive, copy_path,
}
use cruzdb.Tree.Entries.{entries}
use cruzdb.Tree.Balanced.{Balanced}
use cruzdb.Tree.Correct.{IsValid, Updated, Deleted, put-Updated, delete-Deleted}
use cruzdb.Tree.Reads.{get-base_root, get-put, get-delete}
use cruzdb.Validate.{
  validate, validate_heights, left_out_of_order, right_out_of_order, validate-Balanced, validate-eq,
  validate-IsValid,
}
use cruzdb.Txn.Intention.{
  Intention, OpType, TransactionOp, new_intention, op_keys, check_copying, prepare,
}
use cruzdb.Txn.Transaction.{
  TransactionImpl, new_transaction, get as txn_get, put as txn_put, delete as txn_delete,
}
use cruzdb.Txn.Conflict.{Shares, must_abort, must_abort-Shares}
use cruzdb.Txn.CommittedIndex.{emplace_last, push, lower_bound, copy_to, range}
use cruzdb.Txn.Zone.{IsAscending, Pushed, contains, between, range-between, push-Pushed}
use cruzdb.Txn.Missed.{get-misses-put}
use cruzdb.Txn.History.{Call, read, write, erase, run, effects, run-Next, new_transaction-run}
use cruzdb.Txn.Replay.{Replays, Next, replay, put-Replays, delete-Replays, get-Replays}
use cruzdb.Iterator.Raw.{RawIterator, forward, valid, key, value, seek_to_first, seek, next, prev}
use cruzdb.Iterator.Stack.{from}
use cruzdb.Iterator.Prefix.{
  prefix_valid, filtered_key, prefix_seek_to_last, has_prefix, remove_prefix,
  prefix_valid-prefix_string, filtered_key-prefix_string,
}
use cruzdb.Slice.{prefix_committed_intention}
use cruzdb.Iterator.Raw.{
  push_left, push_right, seek_path, seek_previous_path, top_not_less, top_equal, seek_to_last,
  seek_forward, seek_previous, step_forward, step_back,
}
use cruzdb.Iterator.Moves.{Ahead, Behind, At}
use cruzdb.Iterator.Turns.{At-reads, next-Ahead, prev-Behind, seek-Ahead}
use cruzdb.Iterator.Scan.{scan, scan-entries}
use cruzdb.Dict.{Entry, Below}
use cruzdb.Prelude.{suc, length, inl}
use cruzdb.Tree.Copies.{get-copy_path}
use cruzdb.Txn.Log.{Became, op_effects, replay-Became}

program : Unit {0}
unfolding lex lookup own copy has_rid rotate get_node insert_recursive rotate_inner insert_balance
    insert_loop balance_insert delete_recursive build_min_path raise_red_brother rotate_red_brother
    rotate_near_nephew rotate_brother paint_brother rotate_nephews balance_black_brother
    mirror_remove_balance finish_delete continue_delete balance_delete remove_at steal_payload
    remove_node get put delete read_only copy_recursive copy_path validate validate_heights
    left_out_of_order right_out_of_order emplace_last push lower_bound copy_to range contains
    between prefix_string check_copying prepare new_intention op_keys replay key valid value
    prefix_valid filtered_key prefix_seek_to_last has_prefix remove_prefix push_left push_right
    seek_path seek_previous_path top_not_less top_equal seek seek_to_last seek_forward seek_previous
    step_forward step_back prev next
program = tt

abbrev leaf : Bool → Slice → Slice → Node
leaf red k v = node red (pos 1) k v none nil none nil

abbrev a : Slice
a = prefix_string prefix_user (b'a' ∷ [])

abbrev b : Slice
b = prefix_string prefix_user (b'b' ∷ [])

abbrev c : Slice
c = prefix_string prefix_user (b'c' ∷ [])

abbrev d : Slice
d = prefix_string prefix_user (b'd' ∷ [])

-- Four keys: a black root, two black children, and a red leaf.
abbrev four : Node
four =
    node false (pos 1) b (2 ∷ []) none (leaf false a (1 ∷ [])) none
      (node false (pos 1) c (3 ∷ []) none nil none (leaf true d (4 ∷ [])))

abbrev tree : PersistentTree
tree = record { src_root = record { address = none; ref = four }; root = none; rid = pos 7 }

four-Balanced : Balanced four 3
four-Balanced = ((refl, refl), (refl, (refl, refl, refl, refl)))

four-IsSorted : IsSorted ⦃o = bytewise⦄ (entries four)
unfolding program
four-IsSorted = ((refl, (refl, (refl, tt))), ((refl, (refl, tt)), ((refl, tt), (tt, tt))))

four-IsValid : IsValid ⦃o = bytewise⦄ four
four-IsValid = record { balanced = (3, four-Balanced); black = refl; sorted = four-IsSorted }

abbrev e : Slice
e = prefix_string prefix_user (b'e' ∷ [])

-- An insertion that rotates, and a deletion that rebalances: both results pass the check.
runs :
    ((put ⦃o = bytewise⦄ e (5 ∷ []) tree >>= λ t. some (validate ⦃o = bytewise⦄ (base_root t)))
      ≡ some 3)
    × ((delete ⦃o = bytewise⦄ a tree >>= λ t. some (validate ⦃o = bytewise⦄ (base_root t)))
        ≡ some 3)
unfolding program
runs = (refl, refl)

put-Updated_example :
    Holds (Updated ⦃o = bytewise⦄ e (5 ∷ []) tree) (put ⦃o = bytewise⦄ e (5 ∷ []) tree)
put-Updated_example = put-Updated ⦃o = bytewise⦄ e (5 ∷ []) tree four-IsValid

delete-Deleted_example : Holds (Deleted ⦃o = bytewise⦄ a tree) (delete ⦃o = bytewise⦄ a tree)
delete-Deleted_example = delete-Deleted ⦃o = bytewise⦄ a tree four-IsValid

get-put_example :
    Holds
      (λ t.
        (get ⦃o = bytewise⦄ e t ≡ some (5 ∷ []))
        × ((p : Slice) → p ≢ e → get ⦃o = bytewise⦄ p t ≡ get ⦃o = bytewise⦄ p tree))
      (put ⦃o = bytewise⦄ e (5 ∷ []) tree)
get-put_example = get-put ⦃o = bytewise⦄ e (5 ∷ []) tree four-IsValid

get-delete_example :
    Holds
      (λ t.
        (get ⦃o = bytewise⦄ a t ≡ none)
        × ((p : Slice) → p ≢ a → get ⦃o = bytewise⦄ p t ≡ get ⦃o = bytewise⦄ p tree))
      (delete ⦃o = bytewise⦄ a tree)
get-delete_example = get-delete ⦃o = bytewise⦄ a tree four-IsValid

validate-four : validate ⦃o = bytewise⦄ four ≡ 3
unfolding program
validate-four = refl

validate-Balanced_example : Balanced four 3
validate-Balanced_example = validate-Balanced ⦃o = bytewise⦄ four 2 validate-four

validate-eq_example : validate ⦃o = bytewise⦄ four ≡ 3
validate-eq_example = validate-eq ⦃o = bytewise⦄ four 3 four-Balanced four-IsSorted

-- A transaction over the four keys that has done nothing yet.
abbrev start : TransactionImpl
start = record {
  tree = tree;
  intention = record { snapshot = 10; token = 5; flush = false; ops = []; pos = none };
  committed = false;
}

start-Replays : Replays ⦃o = bytewise⦄ (pos 9) start
unfolding program
start-Replays = record {
  uncommitted = refl;
  unlogged = refl;
  valid = four-IsValid;
  agrees = (four-IsValid, refl);
}

-- A read, an insertion, an update and two removals.
abbrev calls : List Call
calls =
    read (b'c' ∷ [])
    ∷ write (b'e' ∷ []) (5 ∷ [])
    ∷ write (b'b' ∷ []) (6 ∷ [])
    ∷ erase (b'a' ∷ [])
    ∷ erase (b'x' ∷ [])
    ∷ []

new_transaction-run_example :
    Holds
      (Next ⦃o = bytewise⦄ (pos 9) (effects ⦃o = bytewise⦄ calls (entries four)))
      (new_transaction tree.src_root 10 (negsuc 0) 5 >>= run ⦃o = bytewise⦄ calls)
new_transaction-run_example =
    new_transaction-run ⦃o = bytewise⦄ tree.src_root 10 (negsuc 0) 5 calls (pos 9) refl four-IsValid

get-misses-put_example :
    Holds
      (λ u.
        Holds
          (λ (_, t). must_abort t.intention (u.intention ∷ []) ≡ false)
          (txn_get ⦃o = bytewise⦄ (b'c' ∷ []) start))
      (txn_put ⦃o = bytewise⦄ (b'c' ∷ []) (9 ∷ []) start)
get-misses-put_example =
    get-misses-put ⦃o = bytewise⦄ (pos 9) (b'c' ∷ []) (9 ∷ []) start start start-Replays
      start-Replays refl refl

-- An intention that puts a key, against one that has deleted it.
abbrev putter : Intention
putter = record start.intention {
  ops = record { op = OpType.put; key = a; val = some (1 ∷ []) } ∷ [];
}

abbrev deleter : Intention
deleter = record start.intention { ops = record { op = OpType.delete; key = a; val = none } ∷ [] }

must_abort-Shares_example :
    (must_abort putter (deleter ∷ []) ≡ true) ↔ Shares putter.ops (deleter ∷ [])
must_abort-Shares_example = must_abort-Shares putter (deleter ∷ [])

abbrev positions : List ℕ
positions = 3 ∷ 5 ∷ 8 ∷ 9 ∷ []

positions-IsAscending : IsAscending positions
positions-IsAscending = (
  (omega arith, (omega arith, (omega arith, tt))),
  ((omega arith, (omega arith, tt)), ((omega arith, tt), (tt, tt))),
)

-- The zone of a snapshot at 5 starts with 5 itself.
zone : range 5 8 positions ≡ some (5 ∷ 8 ∷ [], true)
unfolding program
zone = refl

contains-positions : contains 8 positions ≡ true
unfolding program
contains-positions = refl

range-between_example : range 5 8 positions ≡ some (between 5 8 positions, contains 5 positions)
range-between_example =
    range-between 5 8 positions positions-IsAscending (omega arith) contains-positions

push-Pushed_example : Holds (Pushed 12) (push 12 positions)
push-Pushed_example =
    push-Pushed 12 positions positions-IsAscending (omega arith)
      (omega arith, (omega arith, (omega arith, (omega arith, tt))))

-- An iterator over the four keys, at the second of them, going forward.
abbrev iterator : RawIterator
iterator = record { root = four; stack = four ∷ []; dir = forward }

abbrev at_b : At iterator ((a, 1 ∷ []) ∷ []) (b, 2 ∷ []) ((c, 3 ∷ []) ∷ (d, 4 ∷ []) ∷ [])
at_b = inl (record { split = refl; going = refl; stack_ahead = refl; nodes = (refl, tt) })

next-Ahead_example :
    Holds
      (λ it.
        (it.root ≡ four)
        × Ahead it ((a, 1 ∷ []) ∷ (b, 2 ∷ []) ∷ []) ((c, 3 ∷ []) ∷ (d, 4 ∷ []) ∷ []))
      (next ⦃o = bytewise⦄ iterator)
next-Ahead_example =
    next-Ahead ⦃o = bytewise⦄ iterator ((a, 1 ∷ []) ∷ []) (b, 2 ∷ [])
      ((c, 3 ∷ []) ∷ (d, 4 ∷ []) ∷ []) four-IsSorted at_b

prev-Behind_example :
    Holds
      (λ it.
        (it.root ≡ four)
        × Behind it ((a, 1 ∷ []) ∷ []) ((b, 2 ∷ []) ∷ (c, 3 ∷ []) ∷ (d, 4 ∷ []) ∷ []))
      (prev ⦃o = bytewise⦄ iterator)
prev-Behind_example =
    prev-Behind ⦃o = bytewise⦄ iterator ((a, 1 ∷ []) ∷ []) (b, 2 ∷ [])
      ((c, 3 ∷ []) ∷ (d, 4 ∷ []) ∷ []) four-IsSorted at_b

seek-Ahead_example :
    Holds
      (λ it.
        (it.root ≡ four)
        × ((xs : List Entry) × Below ⦃o = bytewise⦄ c xs
            × Ahead it xs (from ⦃o = bytewise⦄ c (entries four))))
      (seek ⦃o = bytewise⦄ c iterator)
seek-Ahead_example = seek-Ahead ⦃o = bytewise⦄ c iterator four-IsSorted

scan-entries_example :
    scan ⦃o = bytewise⦄ (suc (length (entries four))) (seek_to_first iterator) ≡ some (entries four)
scan-entries_example = scan-entries ⦃o = bytewise⦄ iterator four-IsSorted

user_prefix-iterator : key iterator ≡ some b
unfolding program
user_prefix-iterator = refl

prefix_valid-iterator : prefix_valid prefix_user iterator ≡ true
unfolding program
prefix_valid-iterator = refl

-- A committed intention's key before the users' keys: `SeekToLast` for its prefix ends elsewhere.
abbrev mixed : RawIterator
mixed = record iterator {
  root =
      node false (pos 1) a (1 ∷ []) none
        (leaf false (prefix_string prefix_committed_intention (b'7' ∷ [])) []) none
        (leaf false b (2 ∷ []));
}

last_committed :
    (prefix_seek_to_last ⦃o = bytewise⦄ prefix_committed_intention mixed >>= key) ≡ some b
unfolding program
last_committed = refl

get-copy_path_example :
    IsValid ⦃o = bytewise⦄ (base_root (copy_path ⦃o = bytewise⦄ d tree))
    × (entries (base_root (copy_path ⦃o = bytewise⦄ d tree)) ≡ entries four)
    × ((copy_path ⦃o = bytewise⦄ d tree).src_root ≡ tree.src_root)
    × ((p : Slice)
        → get ⦃o = bytewise⦄ p (copy_path ⦃o = bytewise⦄ d tree) ≡ get ⦃o = bytewise⦄ p tree)
get-copy_path_example = get-copy_path ⦃o = bytewise⦄ d tree four-IsValid

-- The operations that a transaction records: a read, a put and a delete.
abbrev recorded : List TransactionOp
recorded =
    record { op = OpType.get; key = b'c' ∷ []; val = none }
    ∷ record { op = OpType.put; key = e; val = some (5 ∷ []) }
    ∷ record { op = OpType.delete; key = b'a' ∷ []; val = none }
    ∷ []

replay-Became_example :
    Holds
      (Became ⦃o = bytewise⦄ (op_effects ⦃o = bytewise⦄ recorded (entries four)) tree)
      (replay ⦃o = bytewise⦄ recorded tree)
replay-Became_example =
    replay-Became ⦃o = bytewise⦄ recorded tree (refl, ((5 ∷ [], refl), (refl, tt))) four-IsValid
