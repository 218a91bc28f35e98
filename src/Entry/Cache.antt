-- ===== src/Entry/Cache.antt =====
-- The cache of src/db/entry_service.cc: its bound, and what is found in it.
use mathlib.Core.Path.{subst}
use cruzdb.Prelude.{
  ℕ, suc, List, [], ◌∷◌, some, ltb, ◌==◌, if◌then◌else◌, ◌≡◌, refl, ◌≤◌, arith, length, All,
  Bool-cases, inl, inr, ==_iff, some_injective,
}
use cruzdb.Prelude.Map.{find_key, emplace_key, Above, emplace_key-Above}
use cruzdb.Entry.Service.{CacheEntry, entry_cache_gc}

-- The keys ascend.
abbrev pub Ascending : List (ℕ × CacheEntry) → Type 0
Ascending [] = Unit
Ascending (e ∷ es) = Above e.0 es

Above-Ascending : (b : ℕ) (es : List (ℕ × CacheEntry)) → Above b es → Ascending es
Above-Ascending b [] h = tt
Above-Ascending b (e ∷ es) h = h.1

pub emplace_key-Ascending :
    (k : ℕ) (a : CacheEntry) (es : List (ℕ × CacheEntry))
    → Ascending es
    → Ascending (emplace_key k a es)
unfolding emplace_key
emplace_key-Ascending k a [] h = tt
emplace_key-Ascending k a (e ∷ es) h = ground (arith, emplace_key-Above e.0 k a es)

pub length-entry_cache_gc : (n : ℕ) (es : List (ℕ × CacheEntry)) → length (entry_cache_gc n es) ≤ n
unfolding entry_cache_gc
length-entry_cache_gc n [] = ground arith
length-entry_cache_gc n (e ∷ es) = ground (arith, length-entry_cache_gc n es)

pub entry_cache_gc-All :
    (P : ℕ × CacheEntry → Type 0) (n : ℕ) (es : List (ℕ × CacheEntry))
    → All P es
    → All P (entry_cache_gc n es)
unfolding entry_cache_gc
entry_cache_gc-All P n [] h = tt
entry_cache_gc-All P n (e ∷ es) h = elim (Bool-cases (ltb n (length (e ∷ es)))) [
  | inl b ↦ rw (b, if◌then◌else◌) (entry_cache_gc-All P n es h.1)
  | inr b ↦ rw (b, if◌then◌else◌) h
]

pub entry_cache_gc-Ascending :
    (n : ℕ) (es : List (ℕ × CacheEntry)) → Ascending es → Ascending (entry_cache_gc n es)
unfolding entry_cache_gc
entry_cache_gc-Ascending n [] h = tt
entry_cache_gc-Ascending n (e ∷ es) h = elim (Bool-cases (ltb n (length (e ∷ es)))) [
  | inl b ↦ rw (b, if◌then◌else◌) (entry_cache_gc-Ascending n es (Above-Ascending e.0 es h))
  | inr b ↦ rw (b, if◌then◌else◌) h
]

pub entry_cache_gc_room :
    (n : ℕ) (es : List (ℕ × CacheEntry)) → length es ≤ n → entry_cache_gc n es ≡ es
unfolding entry_cache_gc
entry_cache_gc_room n [] h = refl
entry_cache_gc_room n (e ∷ es) h = ground arith

pub emplace_key-All :
    (P : ℕ × CacheEntry → Type 0) (k : ℕ) (a : CacheEntry) (es : List (ℕ × CacheEntry))
    → P (k, a)
    → All P es
    → All P (emplace_key k a es)
unfolding emplace_key
emplace_key-All P k a [] p h = (p, tt)
emplace_key-All P k a (e ∷ es) p h = elim (Bool-cases (k == e.0)) [
  | inl b ↦ rw (b, if◌then◌else◌) h
  | inr b ↦ elim (Bool-cases (ltb k e.0)) [
    | inl c ↦ rw (b, c, if◌then◌else◌) (p, h)
    | inr c ↦ rw (b, c, if◌then◌else◌) (h.0, emplace_key-All P k a es p h.1)
  ]
]

pub length-emplace_key :
    (k : ℕ) (a : CacheEntry) (es : List (ℕ × CacheEntry))
    → length (emplace_key k a es) ≤ suc (length es)
unfolding emplace_key
length-emplace_key k a [] = omega arith
length-emplace_key k a (e ∷ es) = ground (arith, length-emplace_key k a es)

pub find_key-All :
    (P : ℕ × CacheEntry → Type 0) (k : ℕ) {a : CacheEntry} (es : List (ℕ × CacheEntry))
    → All P es
    → find_key k es ≡ some a
    → P (k, a)
unfolding find_key
find_key-All P k [] h e = cc
find_key-All P k {a} (x ∷ es) h e = elim (Bool-cases (k == x.0)) [
  | inl b ↦
      let d : k ≡ x.0 = (==_iff k x.0).0 b in
      let f : x.1 ≡ a = some_injective (rw b at e) in
      let q : (x.0, x.1) ≡ (k, a) = cc in subst P q h.0
  | inr b ↦ find_key-All P k es h.1 (rw b at e)
]

-- The lowest entry of a cache that is one too long is the one that goes.
pub entry_cache_gc_lowest :
    (n k : ℕ) (a : CacheEntry) (es : List (ℕ × CacheEntry))
    → length es ≡ n
    → Above k es
    → entry_cache_gc n (emplace_key k a es) ≡ es
unfolding entry_cache_gc emplace_key
entry_cache_gc_lowest n k a [] l h = ground arith
entry_cache_gc_lowest n k a (e ∷ es) l h =
    let lt = h.0 in let room = entry_cache_gc_room n (e ∷ es) in ground arith
