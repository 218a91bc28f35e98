-- ===== src/Txn/Keys.antt =====
-- src/db/db_impl.cc: the keys of committed intentions, positions in decimal.
use cruzdb.Prelude.{
  ℕ, zero, suc, ◌+◌, ◌-◌, ◌%◌, ◌^◌, ◌<◌, ◌&&◌, [], ◌∷◌, ◌++◌, Option, none, some, ◌>>=◌, ◌≡◌, refl,
  ap, ◌∙◌, leb, if◌then◌else◌, arith, Bool-cases, inl, inr, true,
}
use Prim.Native.Nat.{◌/◌, ◌*◌}
use cruzdb.Slice.{Slice}

-- `std::setw(width) << std::setfill('0') << n`, for a number that is not wider.
unfoldable pub pad_key : ℕ → ℕ → Slice
pad_key zero n = []
pad_key (suc width) n = pad_key width (n / 10) ++ (48 + n % 10) ∷ []

-- The key of a position: 20 digits hold every `uint64_t`.
unfoldable pub committed_key : ℕ → Slice
committed_key position = pad_key 20 position

-- Numbers read back, digit by digit.
unfoldable pub read_digits : ℕ → Slice → Option ℕ
read_digits acc [] = some acc
read_digits acc (c ∷ cs) =
    let rest = read_digits (acc * 10 + (c - 48)) cs in if leb 48 c && leb c 57 then rest else none

-- A digit after those that have been read.
abbrev next_digit : ℕ → ℕ → Option ℕ
next_digit c v = if leb 48 c && leb c 57 then some (v * 10 + (c - 48)) else none

read_digits-append :
    (acc : ℕ) (cs : Slice) (c : ℕ)
    → read_digits acc (cs ++ c ∷ []) ≡ (read_digits acc cs >>= next_digit c)
unfolding read_digits
read_digits-append acc [] c = refl
read_digits-append acc (x ∷ cs) c = elim (Bool-cases (leb 48 x && leb x 57)) [
  | inl h ↦ rw (h, if◌then◌else◌) (read_digits-append (acc * 10 + (x - 48)) cs c)
  | inr h ↦ rw (h, if◌then◌else◌) refl
]

last_digit : (n : ℕ) → next_digit (48 + n % 10) (n / 10) ≡ some n
last_digit n =
    let b : n % 10 < 10 = omega arith in
    let a : (leb 48 (48 + n % 10) && leb (48 + n % 10) 57) ≡ true = ground arith in
    rw (a, if◌then◌else◌) (ap some (omega arith))

-- A padded number reads back, where the width is enough for it.
pub read_digits-pad_key : (width n : ℕ) → n < 10 ^ width → read_digits 0 (pad_key width n) ≡ some n
unfolding pad_key read_digits
read_digits-pad_key zero n h = ap some (omega arith)
read_digits-pad_key (suc width) n h =
    let b : n / 10 < 10 ^ width = omega arith in
    read_digits-append 0 (pad_key width (n / 10)) (48 + n % 10)
    ∙ rw (read_digits-pad_key width (n / 10) b, ◌>>=◌) (last_digit n)
