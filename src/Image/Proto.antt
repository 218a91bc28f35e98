-- ===== src/Image/Proto.antt =====
-- src/db/cruzdb.proto: the messages of an after image.
use cruzdb.Prelude.{ℕ, Bool, List, Option}
use cruzdb.Slice.{Slice}

-- `NodePtr`
pub record ProtoPtr : Type 0 where
  pub is_nil : Bool
  pub self : Bool
  pub intention : Option ℕ
  pub afterimage : Option ℕ
  pub off : Option ℕ

-- `Node`
pub record ProtoNode : Type 0 where
  pub red : Bool
  pub key : Slice
  pub val : Slice
  pub left : ProtoPtr
  pub right : ProtoPtr

pub record AfterImage : Type 0 where
  pub intention : ℕ
  pub tree : List ProtoNode
