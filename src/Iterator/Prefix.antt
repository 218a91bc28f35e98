-- ===== src/Iterator/Prefix.antt =====
-- src/db/iterator_impl.h: `PrefixRawIteratorImpl` and `FilteredPrefixIteratorImpl`, which show the
-- keys with one prefix.
use cruzdb.Prelude.{
  ℕ, zero, suc, Bool, true, false, ◌&&◌, [], ◌∷◌, ◌++◌, Option, none, some, ◌>>=◌, ◌≡◌, refl, ap,
  ◌==◌, if◌then◌else◌, length, Holds, Holds-imp, Option-cases, inl, inr, arith,
}
use cruzdb.Slice.{Slice, SliceCompare, prefix_string}
use cruzdb.Iterator.Raw.{RawIterator, key, seek, seek_to_last, prev}

-- The tests of `Valid` on a key: longer than the prefix, a zero byte there, and the prefix before it.
unfoldable pub has_prefix : Slice → Slice → Bool
has_prefix [] [] = false
has_prefix [] (c ∷ cs) = c == 0
has_prefix (p ∷ ps) [] = false
has_prefix (p ∷ ps) (c ∷ cs) = let rest = has_prefix ps cs in p == c && rest

unfoldable pub prefix_valid : Slice → RawIterator → Bool
prefix_valid prefix it = elim (key it) [ none ↦ false | some k ↦ has_prefix prefix k ]

-- `remove_prefix` of a slice, which must be that long.
unfoldable pub remove_prefix : ℕ → Slice → Option Slice
remove_prefix zero k = some k
remove_prefix (suc n) [] = none
remove_prefix (suc n) (c ∷ cs) = remove_prefix n cs

unfoldable pub filtered_key : Slice → RawIterator → Option Slice
filtered_key prefix it = key it >>= λ k. remove_prefix (suc (length prefix)) k

module _ ⦃o : SliceCompare⦄ where
  unfoldable pub prefix_seek_to_first : Slice → RawIterator → Option RawIterator
  prefix_seek_to_first prefix it = seek prefix it

  unfoldable pub prefix_seek : Slice → Slice → RawIterator → Option RawIterator
  prefix_seek prefix target it = seek (prefix_string prefix target) it

  -- `Valid` in `SeekToLast` is that of the prefix iterator.
  unfoldable pub prefix_seek_to_last : Slice → RawIterator → Option RawIterator
  prefix_seek_to_last prefix it = do
    it' ← seek (prefix ++ 1 ∷ []) it
    if prefix_valid prefix it' then prev it' else some (seek_to_last it')

remove_prefix-prefix_string :
    (p k : Slice)
    → has_prefix p k ≡ true
    → Holds (λ v. k ≡ prefix_string p v) (remove_prefix (suc (length p)) k)
unfolding has_prefix remove_prefix prefix_string
remove_prefix-prefix_string [] [] h = cc
remove_prefix-prefix_string [] (c ∷ cs) h = let e : c ≡ 0 = ground arith in ap (λ z. z ∷ cs) e
remove_prefix-prefix_string (p ∷ ps) [] h = cc
remove_prefix-prefix_string (p ∷ ps) (c ∷ cs) h =
    let e : c ≡ p = ground arith in
    let t : has_prefix ps cs ≡ true = ground arith in
    Holds-imp (λ v. cs ≡ prefix_string ps v) _ (remove_prefix (suc (length ps)) cs)
      (λ v f. rw e (ap (λ z. p ∷ z) f)) (remove_prefix-prefix_string ps cs t)

-- Where the prefix iterator is valid, its key is there and is the prefixed form of the key that the
-- filtered iterator shows.
pub filtered_key-prefix_string :
    (prefix : Slice) (it : RawIterator)
    → prefix_valid prefix it ≡ true
    → Holds (λ v. key it ≡ some (prefix_string prefix v)) (filtered_key prefix it)
unfolding prefix_valid filtered_key
filtered_key-prefix_string prefix it h = elim (Option-cases (key it)) [
  | inl e ↦ (let w : false ≡ true = rw (e, prefix_valid) at h in cc)
  | inr (k, e) ↦
      rw (e, ◌>>=◌)
        (Holds-imp _ _ (remove_prefix (suc (length prefix)) k) (λ v f. ap some f)
          (remove_prefix-prefix_string prefix k (rw (e, prefix_valid) at h)))
]

-- The keys of a prefix: a prefixed key has the prefix, and the filtered key of it is the key.
has_prefix-prefix_string : (p v : Slice) → has_prefix p (prefix_string p v) ≡ true
unfolding has_prefix prefix_string
has_prefix-prefix_string [] v = refl
has_prefix-prefix_string (p ∷ ps) v = ground (arith, has_prefix-prefix_string ps v)

remove_prefix_at : (p v : Slice) → remove_prefix (suc (length p)) (prefix_string p v) ≡ some v
unfolding remove_prefix prefix_string
remove_prefix_at [] v = refl
remove_prefix_at (p ∷ ps) v = remove_prefix_at ps v

-- An iterator at a prefixed key is valid for the prefix, and the filtered iterator shows the key
-- without it.
pub prefix_valid-prefix_string :
    (prefix v : Slice) (it : RawIterator)
    → key it ≡ some (prefix_string prefix v)
    → (prefix_valid prefix it ≡ true) × (filtered_key prefix it ≡ some v)
unfolding prefix_valid filtered_key
prefix_valid-prefix_string prefix v it e =
    rw (e, prefix_valid, ◌>>=◌) (has_prefix-prefix_string prefix v, remove_prefix_at prefix v)
