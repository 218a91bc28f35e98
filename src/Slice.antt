-- ===== src/Slice.antt =====
-- Keys and values: `zlog::Slice` and `std::string`, as lists of bytes. The order of slices is that
-- of `zlog::Slice::compare`, which is not in this repository: it is a parameter with the laws that
-- its documentation gives (a total order of byte strings).
pub mod Lex
use cruzdb.Prelude.{ℕ, ◌≡◌, List, [], ◌∷◌, ◌++◌, Ordering}
use Prim.Native.Nat.Ordering.{lt, eq, gt}

abbrev pub Slice : Type 0
Slice = List ℕ

pub record IsTotal (cmp : Slice → Slice → Ordering) : Type 0 where
  pub compare_refl : (a : Slice) → cmp a a ≡ eq
  pub eq_of_compare : (a b : Slice) → cmp a b ≡ eq → a ≡ b
  pub lt_of_gt : (a b : Slice) → cmp a b ≡ gt → cmp b a ≡ lt
  pub gt_of_lt : (a b : Slice) → cmp a b ≡ lt → cmp b a ≡ gt
  pub lt_trans : (a b c : Slice) → cmp a b ≡ lt → cmp b c ≡ lt → cmp a c ≡ lt

-- `zlog::Slice::compare`, by the sign of its result.
pub record SliceCompare : Type 0 where
  pub compare : Slice → Slice → Ordering
  pub total : IsTotal compare
  pub open total use *

infix 50 ◌≺◌
abbrev pub ◌≺◌ : ⦃o : SliceCompare⦄ → Slice → Slice → Type 0
◌≺◌ ⦃o⦄ a b = o.compare a b ≡ lt

-- `prefix_string` of the tree, the database and the iterator: the prefix, a zero byte, the key.
unfoldable pub prefix_string : Slice → Slice → Slice
prefix_string prefix value = (prefix ++ 0 ∷ []) ++ value

-- PREFIX_USER = "U"
abbrev pub prefix_user : Slice
prefix_user = b'U' ∷ []

-- PREFIX_COMMITTED_INTENTION = "C"
abbrev pub prefix_committed_intention : Slice
prefix_committed_intention = b'C' ∷ []
