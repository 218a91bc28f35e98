-- ===== src/Txn/CommittedIndex.antt =====
-- src/db/db_impl.{h,cc}: `CommittedIntentionIndex`, the positions of recently committed intentions.
use cruzdb.Prelude.{
  ℕ, Bool, false, List, [], ◌∷◌, Option, none, some, ◌>>=◌, ◌>>◌, assert, ltb, ◌==◌, length,
  if◌then◌else◌,
}

-- `limit_`
abbrev pub limit : ℕ
limit = 1000

-- `index_.emplace(pos)`, asserted to be new and the last of the set.
unfoldable pub emplace_last : ℕ → List ℕ → Option (List ℕ)
emplace_last pos [] = some (pos ∷ [])
emplace_last pos (x ∷ xs) =
    let rest = emplace_last pos xs in if ltb x pos then (rest >>= λ ys. some (x ∷ ys)) else none

-- `push`: past the limit the oldest position is dropped.
unfoldable pub push : ℕ → List ℕ → Option (List ℕ)
push pos index = emplace_last pos index >>= λ ys.
    some (if ltb limit (length ys) then elim ys [ [] ↦ [] | y ∷ r ↦ r ] else ys)

-- `lower_bound`: the positions from the first one that is not less.
unfoldable pub lower_bound : ℕ → List ℕ → List ℕ
lower_bound first [] = []
lower_bound first (x ∷ xs) = let rest = lower_bound first xs in if ltb x first then rest else x ∷ xs

-- The copy of `[it, std::next(it2))`, where `it2 = index_.find(last)` must be there.
unfoldable pub copy_to : ℕ → List ℕ → Option (List ℕ)
copy_to last [] = none
copy_to last (x ∷ xs) =
    let rest = copy_to last xs in if x == last then some (x ∷ []) else (rest >>= λ r. some (x ∷ r))

-- `range`: the positions, and whether they are all that is needed. The result of `std::next(it)` is
-- thrown away by the program, so the range starts at `*it` in both cases.
unfoldable pub range : ℕ → ℕ → List ℕ → Option (List ℕ × Bool)
range first last [] = do assert (ltb first last); some (last ∷ [], false)
range first last (x ∷ xs) = do
  assert (ltb first last)
  let it = lower_bound first (x ∷ xs)
  start ← elim it [ [] ↦ none | y ∷ _ ↦ some y ]
  res ← copy_to last it
  some (res, start == first)
