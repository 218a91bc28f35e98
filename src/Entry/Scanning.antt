-- ===== src/Entry/Scanning.antt =====
-- src/db/entry_service.cc: how far the log scanner of `IOEntry` gets.
use mathlib.Core.Path.{subst}
use cruzdb.Prelude.{
  ℕ, zero, suc, ◌+◌, List, [], ◌∷◌, none, some, ltb, if◌then◌else◌, ◌≡◌, ◌≢◌, refl, sym, ap, ◌∙◌,
  ◌≤◌, ◌<◌, arith, Holds, Holds-imp, Holds->>=, >>=-eq-some, some_injective, Option-cases,
  Bool-cases, inl, inr, lt→ltb,
}
use cruzdb.Prelude.Map.{find_key, emplace_key, find_key-emplace_ne}
use cruzdb.Entry.Matcher.{Matcher, push}
use cruzdb.Entry.Ledger.{Ledger, ledger_push}
use cruzdb.Entry.Changes.{Follows}
use cruzdb.Entry.Matching.{push-Follows}
use cruzdb.Entry.Service.{
  CacheEntry, LogEntry, log_intention, log_after_image, ReadResult, ok, enodata, enoent, failed,
  entry_cache_gc, add_entry, cache_entry,
}
use cruzdb.Entry.Scanner.{Scanner, push_image, scan_result, scan_step, scan}

entry_cache_gc-none :
    (p n : ℕ) (es : List (ℕ × CacheEntry))
    → find_key p es ≡ none
    → find_key p (entry_cache_gc n es) ≡ none
unfolding find_key entry_cache_gc
entry_cache_gc-none p n [] h = refl
entry_cache_gc-none p n (e ∷ es) h = ground (arith, entry_cache_gc-none p n es)

-- The scanner is at or before a position that is not cached.
abbrev pub Before : ℕ → Scanner → Type 0
Before p c = (c.next ≤ p) × (find_key p c.service.entry_cache ≡ none)

scan_result-Before :
    (p : ℕ) (r : ReadResult) (c : Scanner) {c' : Scanner}
    → Before p c
    → (c.next ≡ p → r ≡ enodata)
    → scan_result r c ≡ some c'
    → Before p c'
unfolding scan_result add_entry
scan_result-Before p enoent c b h q = subst (Before p) (some_injective q) b
scan_result-Before p enodata c b h q = subst (Before p) (some_injective q) b
scan_result-Before p failed c b h q = cc
scan_result-Before p (ok e) c b h q =
    let (m, f, g) = >>=-eq-some (push_image e c.next c.ai_matcher) _ q in
    let ne : c.next ≢ p = λ d. let x : ok e ≡ enodata = h d in cc in
    let le = b.0 in
    let ne' : p ≢ c.next = λ d. ne (sym d) in
    subst (Before p) (some_injective g) (
      omega arith,
      entry_cache_gc-none p c.service.cache_size
          (emplace_key c.next (cache_entry c.next e) c.service.entry_cache)
          (find_key-emplace_ne p c.next (cache_entry c.next e) c.service.entry_cache ne' ∙ b.1),
    )

scan_step-Before :
    (p : ℕ) (r : ReadResult) (c : Scanner) {c' : Scanner}
    → Before p c
    → (c.next ≡ p → r ≡ enodata)
    → scan_step r c ≡ some c'
    → Before p c'
unfolding scan_step
scan_step-Before p r c {c'} b h q = elim (Option-cases (find_key c.next c.service.entry_cache)) [
  | inl f ↦ scan_result-Before p r c b h (rw (f, scan_step) at q)
  | inr (e, f) ↦
      let g : some (record c { next = suc c.next }) ≡ some c' = rw (f, scan_step) at q in
      let le = b.0 in
      let ne : c.next ≢ p = λ d. let x = b.1 in cc in
      subst (Before p) (some_injective g) (omega arith, b.1)
]

-- The log scanner never gets past a position that is filled and that nobody else has put into the
-- cache, however long it runs and whatever the log holds elsewhere.
pub scan_filled :
    (p n : ℕ) (answer : ℕ → ReadResult) (c c' : Scanner)
    → answer p ≡ enodata
    → Before p c
    → scan n answer c ≡ some c'
    → c'.next ≤ p
unfolding scan
scan_filled p zero answer c c' h b q = subst (λ x. x.next ≤ p) (some_injective q) b.0
scan_filled p (suc n) answer c c' h b q = elim (Bool-cases (ltb c.next c.tail)) [
  | inl t ↦
      let (d, f, g) =
        >>=-eq-some (scan_step (answer c.next) c) (scan n answer)
          (rw (t, if◌then◌else◌, scan) at q) in
      scan_filled p n answer d c' h
        (scan_step-Before p (answer c.next) c b (λ e. ap answer e ∙ h) f) g
  | inr t ↦
      let g : some c ≡ some c' = rw (t, if◌then◌else◌, scan) at q in
      subst (λ x. x.next ≤ p) (some_injective g) b.0
]

-- The scanner has moved one position on, and its matcher still keeps a table.
abbrev Moved : ℕ → Scanner → Scanner → Type 0
Moved last c c' =
    (c'.next ≡ suc c.next) × (c'.tail ≡ c.tail) × ((l : Ledger) × Follows last c'.ai_matcher l)

push_image-Follows :
    (last pos : ℕ) (e : LogEntry) (m : Matcher) (l : Ledger)
    → Follows last m l
    → Holds (λ m'. (l' : Ledger) × Follows last m' l') (push_image e pos m)
push_image-Follows last pos (log_intention i) m l f = (l, f)
push_image-Follows last pos (log_after_image a) m l f =
    Holds-imp (λ m'. Follows last m' (ledger_push a.intention pos l))
      (λ m'. (l' : Ledger) × Follows last m' l') (push a.intention pos m)
      (λ m' g. (ledger_push a.intention pos l, g)) (push-Follows last a.intention pos m l f)

scan_step-Moved :
    (last : ℕ) (e : LogEntry) (c : Scanner) (l : Ledger)
    → Follows last c.ai_matcher l
    → Holds (Moved last c) (scan_step (ok e) c)
unfolding scan_step scan_result
scan_step-Moved last e c l f = elim (Option-cases (find_key c.next c.service.entry_cache)) [
  | inl h ↦
      rw (h, scan_step)
        (Holds->>= (λ m'. (l' : Ledger) × Follows last m' l') (Moved last c)
          (push_image e c.next c.ai_matcher) _ (push_image-Follows last c.next e c.ai_matcher l f)
          (λ m' g. (refl, refl, g)))
  | inr (x, h) ↦ rw (h, scan_step) (refl, refl, (l, f))
]

-- Where every position up to the tail holds an entry, and the matcher of the scanner follows the simple
-- table, as it does from the start, the scanner reaches the tail in as many turns as there are positions
-- left, and no assertion fails.
pub scan_reaches :
    (n last : ℕ) (answer : ℕ → ReadResult) (c : Scanner) (l : Ledger)
    → Follows last c.ai_matcher l
    → c.next + n ≡ c.tail
    → ((p : ℕ) → c.next ≤ p → p < c.tail → (e : LogEntry) × (answer p ≡ ok e))
    → Holds (λ c'. c'.next ≡ c.tail) (scan n answer c)
unfolding scan
scan_reaches zero last answer c l f t a = omega arith
scan_reaches (suc n) last answer c l f t a =
    let (e, h) = a c.next (omega arith) (omega arith) in
    rw (lt→ltb c.next c.tail (omega arith), if◌then◌else◌, h)
      (Holds->>= (Moved last c) (λ c'. c'.next ≡ c.tail) (scan_step (ok e) c) (scan n answer)
        (scan_step-Moved last e c l f)
        (λ c' g.
          let eq = g.0 in
          let eqt = g.1 in
          subst (λ x. Holds (λ c''. c''.next ≡ x) (scan n answer c')) eqt
            (scan_reaches n last answer c' g.2.0 g.2.1 (omega arith)
              (λ p q r. a p (omega arith) (omega arith)))))
