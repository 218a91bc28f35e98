-- ===== src/Entry/Batches.antt =====
-- src/db/entry_service.cc: the cache after `ReadAfterImage`, `ReadIntentions`, `Append` and `IOEntry`.
use mathlib.Core.Path.{subst}
use cruzdb.Prelude.{
  ℕ, suc, List, [], ◌∷◌, ◌++◌, Option, none, some, ◌>>=◌, assert, ◌≡◌, refl, sym, ap, ◌∙◌, ◌==◌,
  length, All, >>=-eq-some, some_injective, Option-cases, inl, inr, map,
}
use cruzdb.Prelude.Map.{find_key}
use cruzdb.Txn.Intention.{Intention, is_none, prepare}
use cruzdb.Image.Proto.{AfterImage}
use cruzdb.Entry.Service.{
  CacheEntry, intention, after_image, filled, LogEntry, ReadResult, ok, enodata, enoent, failed,
  Service, cache_entry, add_and_get, serialize, log_intention, append, after_image_loop,
  as_after_image, read_after_image,
}
use cruzdb.Entry.Batch.{
  as_intention, completed, aio_round, blobs, aio_rounds, store_blobs, split_cached, read_intentions,
}
use cruzdb.Entry.Scanner.{Scanner, scan_step, scan_result, push_image}
use cruzdb.Entry.Cache.{find_key-All}
use cruzdb.Entry.Steps.{
  Truthful, Agrees, Cached, add_entry-Cached, add_and_get-Got, after_image_loop-log,
}

as_after_image-eq :
    (e : CacheEntry) {a : AfterImage} → as_after_image e ≡ some a → e ≡ after_image a
as_after_image-eq (intention i) h = cc
as_after_image-eq (after_image a) h = ap after_image (some_injective h)
as_after_image-eq filled h = cc

pub as_intention-eq : (e : CacheEntry) {i : Intention} → as_intention e ≡ some i → e ≡ intention i
as_intention-eq (intention i) h = ap intention (some_injective h)
as_intention-eq (after_image a) h = cc
as_intention-eq filled h = cc

module _ (log : ℕ → Option CacheEntry) where
  abbrev pub GotImage : ℕ → AfterImage × Service → Type 0
  GotImage pos r = (log pos ≡ some (after_image r.0)) × Cached log r.1

  fetch_either :
      (pos : ℕ) (rs : List ReadResult) (s : Service) (r : AfterImage × Service)
      → (c : Cached log s) → (m : Option CacheEntry) → find_key pos s.entry_cache ≡ m
      → All (Truthful log pos) rs
      → (elim m [
        | some e ↦ as_after_image e >>= λ a. some (a, s)
        | none ↦ after_image_loop rs >>= λ a. add_and_get pos (after_image a) s >>= λ (e, s').
            as_after_image e >>= λ a'. some (a', s')
      ])
        ≡ some r
      → GotImage pos r
  fetch_either pos rs s r c (some e) f t q =
      let (a, g, h) = >>=-eq-some (as_after_image e) _ q in
      let l = find_key-All (Agrees log) pos s.entry_cache c.agrees f in
      subst (GotImage pos) (some_injective h) (l ∙ ap some (as_after_image-eq e g), c)
  fetch_either pos rs s r c none f t q =
      let (a, g, h) = >>=-eq-some (after_image_loop rs) _ q in
      let (p, g', h') = >>=-eq-some (add_and_get pos (after_image a) s) _ h in
      let (a', g'', h'') = >>=-eq-some (as_after_image p.0) _ h' in
      let (l, k) =
        add_and_get-Got log pos (after_image a) s (after_image_loop-log log pos rs t g) c g' in
      subst (GotImage pos) (some_injective h'') (l ∙ ap some (as_after_image-eq p.0 g''), k)

  pub read_after_image-Got :
      (pos : ℕ) (rs : List ReadResult) (s : Service) {r : AfterImage × Service}
      → All (Truthful log pos) rs
      → Cached log s
      → read_after_image pos rs s ≡ some r
      → GotImage pos r
  unfolding read_after_image
  read_after_image-Got pos rs s {r} t c q =
      fetch_either pos rs s r c (find_key pos s.entry_cache) refl t q

  -- What is cached is what a reader makes of the entry that was written.
  pub append-Cached :
      (pos : ℕ) (i : Intention) (e : LogEntry) (s : Service) {s' : Service}
      → append pos i s ≡ some (e, s')
      → Truthful log pos (ok e)
      → Cached log s
      → Cached log s'
  unfolding append serialize
  append-Cached pos i e s {s'} q t c =
      let (written, f, g) = >>=-eq-some (serialize i) _ q in
      let (u, _, h) = >>=-eq-some (assert (is_none written.1.pos)) _ g in
      let (i', _, w) = >>=-eq-some (prepare i) _ f in
      let r = some_injective h in
      let same : e ≡ log_intention written.1 =
        sym (ap (λ z. z.0) r)
        ∙ ap (λ z. z.0) (sym (some_injective w))
        ∙ ap (λ z. log_intention z.1) (some_injective w) in
      let l = subst (λ z. Truthful log pos (ok z)) same t in
      let k = add_entry-Cached log pos (intention (record (written.1) { pos = some pos })) s l c in
      subst (Cached log) (ap (λ z. z.1) r)
        (record { bounded = k.bounded; ascending = k.ascending; agrees = k.agrees })

  scan_result-Cached :
      (r : ReadResult) (c : Scanner) {c' : Scanner}
      → Truthful log c.next r
      → Cached log c.service
      → scan_result r c ≡ some c'
      → Cached log c'.service
  unfolding scan_result
  scan_result-Cached (ok e) c t k q =
      let (m, f, g) = >>=-eq-some (push_image e c.next c.ai_matcher) _ q in
      let j = add_entry-Cached log c.next (cache_entry c.next e) c.service t k in
      subst (λ x. Cached log x.service) (some_injective g)
        (record { bounded = j.bounded; ascending = j.ascending; agrees = j.agrees })
  scan_result-Cached enodata c t k q = subst (λ x. Cached log x.service) (some_injective q) k
  scan_result-Cached enoent c t k q = subst (λ x. Cached log x.service) (some_injective q) k
  scan_result-Cached failed c t k q = cc

  pub scan_step-Cached :
      (r : ReadResult) (c : Scanner) {c' : Scanner}
      → Truthful log c.next r
      → Cached log c.service
      → scan_step r c ≡ some c'
      → Cached log c'.service
  unfolding scan_step
  scan_step-Cached r c {c'} t k q = elim (Option-cases (find_key c.next c.service.entry_cache)) [
    | inl f ↦ scan_result-Cached r c t k (rw (f, scan_step) at q)
    | inr (e, f) ↦
        let h : some (record c { next = suc c.next }) ≡ some c' = rw (f, scan_step) at q in
        subst (λ x. Cached log x.service) (some_injective h) k
  ]

  -- Every blob is the intention that the log holds at its position.
  abbrev pub Read : ℕ × LogEntry → Type 0
  Read b = log b.0 ≡ some (cache_entry b.0 b.1)

  pub store_blobs-Cached :
      (bs : List (ℕ × LogEntry)) (s : Service) {r : List Intention × Service}
      → All Read bs
      → Cached log s
      → store_blobs bs s ≡ some r
      → Cached log r.1
  unfolding store_blobs
  store_blobs-Cached [] s b c q = subst (λ x. Cached log x.1) (some_injective q) c
  store_blobs-Cached (b ∷ bs) s h c q =
      let (i, f, g) = >>=-eq-some (as_intention (cache_entry b.0 b.1)) _ q in
      let (p, f1, g1) = >>=-eq-some (add_and_get b.0 (intention i) s) _ g in
      let (i', f2, g2) = >>=-eq-some (as_intention p.0) _ g1 in
      let (x, f3, g3) = >>=-eq-some (store_blobs bs p.1) _ g2 in
      let (l, k) =
        add_and_get-Got log b.0 (intention i) s (h.0 ∙ ap some (as_intention-eq _ f)) c f1 in
      let k' = store_blobs-Cached bs p.1 h.1 k f3 in
      subst (λ y. Cached log y.1) (some_injective g3) k'

  abbrev pub ReadSoFar : ℕ × Option LogEntry → Type 0
  ReadSoFar (pos, none) = Unit
  ReadSoFar (pos, some e) = Read (pos, e)

  -- The results of one round.
  abbrev pub Answers : (ℕ → ReadResult) → Type 0
  Answers answer = (pos : ℕ) → Truthful log pos (answer pos)

  completed-Read :
      (pos : ℕ) (r : ReadResult) {x : Option LogEntry}
      → Truthful log pos r
      → completed r ≡ some x
      → ReadSoFar (pos, x)
  completed-Read pos (ok e) t q = subst (λ x. ReadSoFar (pos, x)) (some_injective q) t
  completed-Read pos enodata t q = cc
  completed-Read pos enoent t q = subst (λ x. ReadSoFar (pos, x)) (some_injective q) tt
  completed-Read pos failed t q = subst (λ x. ReadSoFar (pos, x)) (some_injective q) tt

  aio_round-Read :
      (answer : ℕ → ReadResult) (ios : List (ℕ × Option LogEntry))
      {ios' : List (ℕ × Option LogEntry)}
      → Answers answer
      → All ReadSoFar ios
      → aio_round answer ios ≡ some ios'
      → All ReadSoFar ios'
  unfolding aio_round
  aio_round-Read answer [] t h q = subst (All ReadSoFar) (some_injective q) tt
  aio_round-Read answer ((pos, some e) ∷ ios) t h q =
      let (rest, f, g) = >>=-eq-some (aio_round answer ios) _ q in
      subst (All ReadSoFar) (some_injective g) (h.0, aio_round-Read answer ios t h.1 f)
  aio_round-Read answer ((pos, none) ∷ ios) t h q =
      let (rest, f, g) = >>=-eq-some (aio_round answer ios) _ q in
      let (x, f1, g1) = >>=-eq-some (completed (answer pos)) _ g in
      subst (All ReadSoFar) (some_injective g1)
        (completed-Read pos (answer pos) (t pos) f1, aio_round-Read answer ios t h.1 f)

  blobs-Read :
      (ios : List (ℕ × Option LogEntry)) {bs : List (ℕ × LogEntry)}
      → All ReadSoFar ios
      → blobs ios ≡ some bs
      → All Read bs
  unfolding blobs
  blobs-Read [] h q = subst (All Read) (some_injective q) tt
  blobs-Read ((pos, some e) ∷ ios) h q =
      let (rest, f, g) = >>=-eq-some (blobs ios) _ q in
      subst (All Read) (some_injective g) (h.0, blobs-Read ios h.1 f)
  blobs-Read ((pos, none) ∷ ios) h q = let (rest, f, g) = >>=-eq-some (blobs ios) _ q in cc

  pub aio_rounds-Read :
      (answers : List (ℕ → ReadResult)) (ios : List (ℕ × Option LogEntry))
      {bs : List (ℕ × LogEntry)}
      → All Answers answers
      → All ReadSoFar ios
      → aio_rounds answers ios ≡ some bs
      → All Read bs
  unfolding aio_rounds
  aio_rounds-Read [] ios t h q = cc
  aio_rounds-Read (answer ∷ answers) ios t h q =
      let (ios', f, g) = >>=-eq-some (aio_round answer ios) _ q in
      let h' = aio_round-Read answer ios t.0 h f in
      elim (Option-cases (blobs ios')) [
        | inl b ↦ aio_rounds-Read answers ios' t.1 h' (rw b at g)
        | inr (x, b) ↦ subst (All Read) (some_injective (rw b at g)) (blobs-Read ios' h' b)
      ]

  pub pending-Read : (positions : List ℕ) → All ReadSoFar (map (λ pos. (pos, none)) positions)
  pending-Read [] = tt
  pending-Read (pos ∷ positions) = (tt, pending-Read positions)

  pub read_intentions-Cached :
      (positions : List ℕ) (answers : List (ℕ → ReadResult)) (s : Service)
      {r : List Intention × Service}
      → All Answers answers
      → Cached log s
      → read_intentions positions answers s ≡ some r
      → Cached log r.1
  unfolding read_intentions
  read_intentions-Cached positions answers s t c q =
      let (x, f, g) = >>=-eq-some (split_cached positions s) _ q in
      let (bs, f1, g1) = >>=-eq-some (aio_rounds answers (map (λ pos. (pos, none)) x.1)) _ g in
      let (y, f2, g2) = >>=-eq-some (store_blobs bs s) _ g1 in
      let (u, f3, g3) = >>=-eq-some (assert (length (x.0 ++ y.0) == length positions)) _ g2 in
      subst (λ z. Cached log z.1) (some_injective g3)
        (store_blobs-Cached bs s (aio_rounds-Read answers _ t (pending-Read x.1) f1) c f2)
