-- ===== src/Txn/Intention.antt =====
-- src/db/intention.h and src/db/cruzdb.proto: the operations that a transaction has recorded.

use cruzdb.Prelude.{
  ℕ, Bool, true, false, not, List, [], ◌∷◌, ◌++◌, Option, none, some, ◌>>=◌, ◌>>◌, assert,
}
use cruzdb.Slice.{Slice}

-- `TransactionOp::OpType`
pub data OpType : Type 0 where
  get put delete copy : OpType

pub record TransactionOp : Type 0 where
  pub op : OpType
  pub key : Slice
  pub val : Option Slice

-- `Intention`: the message, and the log position once it is appended.
pub record Intention : Type 0 where
  pub snapshot : ℕ
  pub token : ℕ
  pub flush : Bool
  pub ops : List TransactionOp
  pub pos : Option ℕ

-- `Intention(snapshot, token)`
unfoldable pub new_intention : ℕ → ℕ → Intention
new_intention snapshot token = record {
  snapshot = snapshot;
  token = token;
  flush = false;
  ops = [];
  pos = none;
}

abbrev pub is_none {ℓ} : {A : Type ℓ} → Option A → Bool
is_none none = true
is_none (some _) = false

-- `add_ops` behind `assert(!pos_)`
abbrev pub add_op : OpType → Slice → Option Slice → Intention → Option Intention
add_op op key val i = do
  assert (is_none i.pos)
  some (record i { ops = i.ops ++ record { op = op; key = key; val = val } ∷ [] })

unfoldable pub record_get : Slice → Intention → Option Intention
record_get key = add_op get key none

unfoldable pub record_put : Slice → Slice → Intention → Option Intention
record_put key value = add_op put key (some value)

unfoldable pub record_delete : Slice → Intention → Option Intention
record_delete key = add_op delete key none

unfoldable pub record_copy : Slice → Intention → Option Intention
record_copy key = add_op copy key none

-- The loop of `Serialize` over the operations: copying and other operations are not mixed.
unfoldable pub check_copying : Option Bool → List TransactionOp → Option (Option Bool)
check_copying copying [] = some copying
check_copying copying (op ∷ ops) =
    let is_copy : Bool = elim op.op [ copy ↦ true | _ ↦ false ] in
    let copying' : Bool = elim copying [ none ↦ is_copy | some c ↦ c ] in
    let rest = check_copying (some copying') ops in
    assert (elim is_copy [ true ↦ copying' | false ↦ not copying' ]) >> rest

-- The checks of `Serialize`, and the flush flag that it sets. (The encoding is protobuf's.)
unfoldable pub prepare : Intention → Option Intention
prepare i = do
  assert (is_none i.pos)
  copying ← check_copying none i.ops
  flush ← copying
  some (record i { flush = flush })

-- `OpKeys` and `UpdateOpKeys`, as lists: the sets are only searched.
unfoldable pub op_keys : List TransactionOp → List Slice
op_keys [] = []
op_keys (op ∷ ops) = op.key ∷ op_keys ops

abbrev pub is_update : OpType → Bool
is_update put = true
is_update delete = true
is_update _ = false

unfoldable pub update_op_keys : List TransactionOp → List Slice
update_op_keys [] = []
update_op_keys (op ∷ ops) =
    let rest = update_op_keys ops in elim (is_update op.op) [ true ↦ op.key ∷ rest | false ↦ rest ]
