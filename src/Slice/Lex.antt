-- ===== src/Slice/Lex.antt =====
-- The lexicographic order of byte strings: a comparator that meets the laws of `SliceCompare`.
use Prim.Native.Nat.{compare as compare_byte}
use Prim.Native.Nat.Ordering.{lt, eq, gt}
use cruzdb.Prelude.{[], ◌∷◌, ◌≡◌, refl, arith, Ordering}
use cruzdb.Slice.{Slice, SliceCompare, IsTotal}

unfoldable pub lex : Slice → Slice → Ordering
lex [] [] = eq
lex [] (y ∷ ys) = lt
lex (x ∷ xs) [] = gt
lex (x ∷ xs) (y ∷ ys) =
    let rest = lex xs ys in elim (compare_byte x y) [ lt ↦ lt | eq ↦ rest | gt ↦ gt ]

lex_refl : (a : Slice) → lex a a ≡ eq
unfolding lex
lex_refl [] = refl
lex_refl (x ∷ xs) = ground (arith, lex_refl xs)

eq_of_lex : (a b : Slice) → lex a b ≡ eq → a ≡ b
unfolding lex
eq_of_lex [] [] h = refl
eq_of_lex [] (y ∷ ys) h = ground arith
eq_of_lex (x ∷ xs) [] h = ground arith
eq_of_lex (x ∷ xs) (y ∷ ys) h = ground (arith, eq_of_lex xs ys)

lex-lt_of_gt : (a b : Slice) → lex a b ≡ gt → lex b a ≡ lt
unfolding lex
lex-lt_of_gt [] [] h = ground arith
lex-lt_of_gt [] (y ∷ ys) h = ground arith
lex-lt_of_gt (x ∷ xs) [] h = refl
lex-lt_of_gt (x ∷ xs) (y ∷ ys) h = ground (arith, lex-lt_of_gt xs ys)

lex-gt_of_lt : (a b : Slice) → lex a b ≡ lt → lex b a ≡ gt
unfolding lex
lex-gt_of_lt [] [] h = ground arith
lex-gt_of_lt [] (y ∷ ys) h = refl
lex-gt_of_lt (x ∷ xs) [] h = ground arith
lex-gt_of_lt (x ∷ xs) (y ∷ ys) h = ground (arith, lex-gt_of_lt xs ys)

lex_trans : (a b c : Slice) → lex a b ≡ lt → lex b c ≡ lt → lex a c ≡ lt
unfolding lex
lex_trans [] [] c h k = ground arith
lex_trans [] (y ∷ ys) [] h k = ground arith
lex_trans [] (y ∷ ys) (z ∷ zs) h k = refl
lex_trans (x ∷ xs) [] c h k = ground arith
lex_trans (x ∷ xs) (y ∷ ys) [] h k = ground arith
lex_trans (x ∷ xs) (y ∷ ys) (z ∷ zs) h k = ground (arith, lex_trans xs ys zs)

pub lex-IsTotal : IsTotal lex
lex-IsTotal = record {
  compare_refl = lex_refl;
  eq_of_compare = eq_of_lex;
  lt_of_gt = lex-lt_of_gt;
  gt_of_lt = lex-gt_of_lt;
  lt_trans = lex_trans;
}

-- Not an instance: only a concrete input fixes the comparator.
abbrev pub bytewise : SliceCompare
bytewise = record { compare = lex; total = lex-IsTotal }
