-- ===== src/Prelude/Map.antt =====
-- Maps from numbers, as association lists without double keys; a sorted one for `std::map`.
use Prim.Native.Nat.{ℕ, ◌≤◌, ◌<◌}
use mathlib.Core.Path.{◌≡◌, refl}
use mathlib.Core.Logic.{◌≢◌}
use mathlib.Core.List.{List, [], ◌∷◌}
use mathlib.Core.Option.{Option, none, some}
use native.Mathlib.Omega.{arith}
use cruzdb.Prelude.Tests.{◌==◌, ltb, if◌then◌else◌}

module _ {A : Type 0} where
  -- `find`
  unfoldable pub find_key : ℕ → List (ℕ × A) → Option A
  find_key k [] = none
  find_key k (e ∷ es) = let rest = find_key k es in if k == e.0 then some e.1 else rest

  -- The value at a key that is there.
  unfoldable pub update_key : ℕ → A → List (ℕ × A) → List (ℕ × A)
  update_key k a [] = []
  update_key k a (e ∷ es) =
      let rest = update_key k a es in if k == e.0 then (k, a) ∷ es else e ∷ rest

  -- `erase`
  unfoldable pub erase_key : ℕ → List (ℕ × A) → List (ℕ × A)
  erase_key k [] = []
  erase_key k (e ∷ es) = let rest = erase_key k es in if k == e.0 then es else e ∷ rest

  -- `emplace` in key order: an entry that is there stays.
  unfoldable pub emplace_key : ℕ → A → List (ℕ × A) → List (ℕ × A)
  emplace_key k a [] = (k, a) ∷ []
  emplace_key k a (e ∷ es) =
      let rest = emplace_key k a es in
      if k == e.0 then e ∷ es else if ltb k e.0 then (k, a) ∷ e ∷ es else e ∷ rest

  pub find_key_nil : (k : ℕ) → find_key k [] ≡ none
  unfolding find_key
  find_key_nil k = refl

  pub find_key_head : (k : ℕ) (a : A) (es : List (ℕ × A)) → find_key k ((k, a) ∷ es) ≡ some a
  unfolding find_key
  find_key_head k a es = ground arith

  pub update_key_head :
      (k : ℕ) (a b : A) (es : List (ℕ × A)) → update_key k b ((k, a) ∷ es) ≡ (k, b) ∷ es
  unfolding update_key
  update_key_head k a b es = ground arith

  pub erase_key_head : (k : ℕ) (a : A) (es : List (ℕ × A)) → erase_key k ((k, a) ∷ es) ≡ es
  unfolding erase_key
  erase_key_head k a es = ground arith

  pub find_key-emplace_self :
      (k : ℕ) (a : A) (es : List (ℕ × A))
      → find_key k es ≡ none
      → find_key k (emplace_key k a es) ≡ some a
  unfolding find_key emplace_key
  find_key-emplace_self k a [] h = ground arith
  find_key-emplace_self k a (e ∷ es) h = ground (arith, find_key-emplace_self k a es)

  pub find_key-emplace_ne :
      (j k : ℕ) (a : A) (es : List (ℕ × A))
      → j ≢ k
      → find_key j (emplace_key k a es) ≡ find_key j es
  unfolding find_key emplace_key
  find_key-emplace_ne j k a [] n = ground arith
  find_key-emplace_ne j k a (e ∷ es) n = ground (arith, find_key-emplace_ne j k a es n)

  pub find_key-update_self :
      (k : ℕ) (a b : A) (es : List (ℕ × A))
      → find_key k es ≡ some b
      → find_key k (update_key k a es) ≡ some a
  unfolding find_key update_key
  find_key-update_self k a b [] h = cc
  find_key-update_self k a b (e ∷ es) h = ground (arith, find_key-update_self k a b es)

  pub find_key-update_ne :
      (j k : ℕ) (a : A) (es : List (ℕ × A)) → j ≢ k → find_key j (update_key k a es) ≡ find_key j es
  unfolding find_key update_key
  find_key-update_ne j k a [] n = refl
  find_key-update_ne j k a (e ∷ es) n = ground (arith, find_key-update_ne j k a es n)

  -- The keys ascend, and lie above a bound.
  abbrev pub Above : ℕ → List (ℕ × A) → Type 0
  Above b [] = Unit
  Above b (e ∷ es) = (b < e.0) × Above e.0 es

  pub Above-le : (b c : ℕ) (es : List (ℕ × A)) → b ≤ c → Above c es → Above b es
  Above-le b c [] l h = tt
  Above-le b c (e ∷ es) l h = (omega arith, h.1)

  pub find_key-Above : (k b : ℕ) (es : List (ℕ × A)) → k ≤ b → Above b es → find_key k es ≡ none
  unfolding find_key
  find_key-Above k b [] l h = refl
  find_key-Above k b (e ∷ es) l h =
      let lt = h.0 in let rest = find_key-Above k e.0 es (omega arith) h.1 in ground arith

  pub emplace_key-Above :
      (b k : ℕ) (a : A) (es : List (ℕ × A)) → b < k → Above b es → Above b (emplace_key k a es)
  unfolding emplace_key
  emplace_key-Above b k a [] l h = (l, tt)
  emplace_key-Above b k a (e ∷ es) l h = ground (arith, emplace_key-Above e.0 k a es)

  pub update_key-Above :
      (b k : ℕ) (a : A) (es : List (ℕ × A)) → Above b es → Above b (update_key k a es)
  unfolding update_key
  update_key-Above b k a [] h = h
  update_key-Above b k a (e ∷ es) h = ground (arith, update_key-Above e.0 k a es)

  abbrev pub Sorted : List (ℕ × A) → Type 0
  Sorted [] = Unit
  Sorted (e ∷ es) = Above e.0 es

  pub Above-Sorted : (b : ℕ) (es : List (ℕ × A)) → Above b es → Sorted es
  Above-Sorted b [] h = tt
  Above-Sorted b (e ∷ es) h = h.1

  pub emplace_key-Sorted :
      (k : ℕ) (a : A) (es : List (ℕ × A)) → Sorted es → Sorted (emplace_key k a es)
  unfolding emplace_key
  emplace_key-Sorted k a [] h = tt
  emplace_key-Sorted k a (e ∷ es) h = ground (arith, emplace_key-Above e.0 k a es)

  pub erase_key-Above : (b k : ℕ) (es : List (ℕ × A)) → Above b es → Above b (erase_key k es)
  unfolding erase_key
  erase_key-Above b k [] h = tt
  erase_key-Above b k (e ∷ es) h =
      let low = Above-le b e.0 es in ground (arith, erase_key-Above e.0 k es)

  pub erase_key-Sorted : (k : ℕ) (es : List (ℕ × A)) → Sorted es → Sorted (erase_key k es)
  unfolding erase_key
  erase_key-Sorted k [] h = tt
  erase_key-Sorted k (e ∷ es) h = ground (arith, erase_key-Above e.0 k es, Above-Sorted e.0 es)

  pub find_key-erase_self :
      (k : ℕ) (es : List (ℕ × A)) → Sorted es → find_key k (erase_key k es) ≡ none
  unfolding find_key erase_key
  find_key-erase_self k [] h = refl
  find_key-erase_self k (e ∷ es) h =
      ground (arith, find_key-erase_self k es, Above-Sorted e.0 es, find_key-Above k e.0 es)

  pub find_key-erase_ne :
      (j k : ℕ) (es : List (ℕ × A)) → j ≢ k → find_key j (erase_key k es) ≡ find_key j es
  unfolding find_key erase_key
  find_key-erase_ne j k [] n = refl
  find_key-erase_ne j k (e ∷ es) n = ground (arith, find_key-erase_ne j k es n)
