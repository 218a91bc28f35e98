-- ===== src/Cache/Primary.antt =====
-- src/db/node_cache.cc: `findAfterImagePosition`, with the scan of the log for an intention that is not
-- in the mapping.
use mathlib.Core.Path.{subst}
use cruzdb.Prelude.{
  ℕ, zero, suc, ◌+◌, ◌-◌, ◌%◌, ◌^◌, ◌≤◌, ◌<◌, true, false, Option, none, some, ◌>>=◌, ◌≡◌, ◌≢◌,
  refl, sym, ◌∙◌, ap, arith, ◌==◌, if◌then◌else◌, inl, inr, ◌⊎◌, some_injective,
}
use cruzdb.Image.Proto.{AfterImage}
use cruzdb.Entry.Service.{CacheEntry, intention, after_image, filled}
use cruzdb.Entry.Scanner.{advance_forward, next_after_image}

-- The loop of the scan, on fuel; where the iterator has no more the program gives up.
unfoldable pub scan_primary : ℕ → (ℕ → Option CacheEntry) → ℕ → ℕ → Option ℕ
scan_primary zero read intent pos = none
scan_primary (suc fuel) read intent pos = next_after_image (suc fuel) read pos >>= λ r.
    r.0 >>= λ ai.
    let rest = scan_primary fuel read intent r.1 in
    if ai.1.intention == intent then some ai.0 else rest

-- `cached` is the mapping; the scan starts after the intention.
unfoldable pub find_primary : ℕ → (ℕ → Option ℕ) → (ℕ → Option CacheEntry) → ℕ → Option ℕ
find_primary fuel cached read intent = elim (cached intent) [
  | some p ↦ some p
  | none ↦ scan_primary fuel read intent (suc intent)
]

-- An entry that is no after image of the intention.
abbrev pub IsOther : ℕ → Option CacheEntry → Type 0
IsOther intent none = ⊥
IsOther intent (some (after_image a)) = a.intention ≢ intent
IsOther intent (some _) = Unit

abbrev image_intention : CacheEntry → ℕ
image_intention (after_image x) = x.intention
image_intention _ = 0

step_up : (pos p : ℕ) → pos < p → p < 2 ^ 64 → (pos + 1) % 2 ^ 64 ≡ suc pos
step_up pos p l b = omega (arith, l, b)

at-or-before : (q p : ℕ) → q ≤ p → (q ≡ p) ⊎ (q < p)
at-or-before q p l = ground arith

-- The next after image that the iterator comes by, at `p` or before.
abbrev Next : (ℕ → Option CacheEntry) → ℕ → ℕ → Option (Option (ℕ × AfterImage) × ℕ) → Type 0
Next read p pos m =
    (q : ℕ) × (x : AfterImage) × (m ≡ some (some (q, x), (q + 1) % 2 ^ 64))
    × (pos ≤ q)
    × (q ≤ p)
    × (read q ≡ some (after_image x))

module _ (read : ℕ → Option CacheEntry) (intent p : ℕ) (a : AfterImage) (bound : p < 2 ^ 64)
    (found : read p ≡ some (after_image a)) (own : a.intention ≡ intent) where
  found_here :
      (fuel pos : ℕ) (x : AfterImage)
      → pos ≤ p
      → read pos ≡ some (after_image x)
      → Next read p pos (next_after_image (suc fuel) read pos)
  unfolding next_after_image advance_forward
  found_here fuel pos x l e = (pos, x, rw (e, next_after_image) refl, omega arith, l, e)

  passed_over :
      (fuel pos : ℕ)
      → pos < p
      → (e : CacheEntry) → read pos ≡ some e
      → ((x : AfterImage) → e ≢ after_image x)
      → Next read p (suc pos) (next_after_image fuel read (suc pos))
      → Next read p pos (next_after_image (suc fuel) read pos)
  unfolding next_after_image advance_forward
  passed_over fuel pos l (intention i) e n (q, x, m, lo, hi, r) =
      (q, x, rw (e, step_up pos p l bound, next_after_image) m, omega (arith, lo), hi, r)
  passed_over fuel pos l (after_image x) e n m = absurd (n x refl)
  passed_over fuel pos l filled e n (q, x, m, lo, hi, r) =
      (q, x, rw (e, step_up pos p l bound, next_after_image) m, omega (arith, lo), hi, r)

  same_image :
      (x : AfterImage) (q : ℕ) → q ≡ p → read q ≡ some (after_image x) → x.intention ≡ a.intention
  same_image x q e r =
      let g = sym r ∙ (ap read e ∙ found) in ap (λ z. image_intention z) (some_injective g)

  next_lem :
      (fuel pos : ℕ)
      → pos ≤ p
      → p - pos < fuel
      → ((q : ℕ) → pos ≤ q → q < p → IsOther intent (read q))
      → Next read p pos (next_after_image fuel read pos)
  next_lem zero pos l b o = absurd (omega arith)
  next_lem (suc fuel) pos l b o = elim (at-or-before pos p l) [
    | inl e ↦ found_here fuel pos a l (ap read e ∙ found)
    | inr lt ↦
        let later =
          next_lem fuel (suc pos) (omega arith) (omega arith)
            (λ q lo hi. o q (omega (arith, lo)) hi) in
        step (read pos) refl (o pos (omega arith) lt) lt later
  ]
    where
      step :
          (m : Option CacheEntry)
          → read pos ≡ m
          → IsOther intent m
          → pos < p
          → Next read p (suc pos) (next_after_image fuel read (suc pos))
          → Next read p pos (next_after_image (suc fuel) read pos)
      step none e i lt n = absurd i
      step (some (intention x)) e i lt n = passed_over fuel pos lt (intention x) e (λ y z. cc) n
      step (some (after_image x)) e i lt n = found_here fuel pos x l e
      step (some filled) e i lt n = passed_over fuel pos lt filled e (λ y z. cc) n

  scan_primary_lem :
      (fuel pos : ℕ)
      → pos ≤ p
      → p - pos < fuel
      → ((q : ℕ) → pos ≤ q → q < p → IsOther intent (read q))
      → scan_primary fuel read intent pos ≡ some p
  unfolding scan_primary
  scan_primary_lem zero pos l b o = absurd (omega arith)
  scan_primary_lem (suc fuel) pos l b o =
      let (q, x, m, lo, hi, r) = next_lem (suc fuel) pos l b o in
      elim (at-or-before q p hi) [
        | inl e ↦
            let x_own : x.intention ≡ intent = same_image x q e r ∙ own in
            let t : (x.intention == intent) ≡ true = ground arith in rw (m, ◌>>=◌, t) (ap some e)
        | inr lt ↦
            let other : x.intention ≢ intent = subst (IsOther intent) r (o q lo lt) in
            let t : (x.intention == intent) ≡ false = ground arith in
            rw (m, ◌>>=◌, t)
              (ap (scan_primary fuel read intent) (step_up q p lt bound)
                ∙ scan_primary_lem fuel (suc q) (omega arith) (omega (arith, b, lo))
                    (λ y ly hy. o y (omega (arith, ly, lo)) hy))
      ]

  -- An intention that is not in the mapping gets the position of its first after image. That is at
  -- `p`, below 2 ^ 64 and past the intention; every position in between has an entry, and none of these
  -- is an after image of the intention. As much fuel as there are positions up to it, and one, is enough.
  pub find_primary-first :
      (cached : ℕ → Option ℕ) (fuel : ℕ)
      → cached intent ≡ none
      → intent < p
      → p - intent < fuel
      → ((q : ℕ) → intent < q → q < p → IsOther intent (read q))
      → find_primary fuel cached read intent ≡ some p
  unfolding find_primary
  find_primary-first cached fuel c l b o =
      rw (c, find_primary)
        (scan_primary_lem fuel (suc intent) (omega arith) (omega (arith, l, b))
          (λ q lo hi. o q (omega (arith, lo)) hi))
