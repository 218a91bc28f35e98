-- ===== src/Entry/Complete.antt =====
-- src/db/entry_service.cc: what `ReadIntentions` returns.
use mathlib.Core.Path.{subst}
use mathlib.Core.List.{Perm, perm_middle}
use mathlib.Core.List.Perm
use cruzdb.Prelude.{
  ℕ, ◌+◌, List, [], ◌∷◌, ◌++◌, map, length, All, Option, none, some, ◌>>=◌, ◌≡◌, refl, sym, ap, ◌∙◌,
  arith, >>=-eq-some, Holds, Holds->>=, some_injective, Option-cases, inl, inr,
}
use cruzdb.Prelude.Map.{find_key}
use cruzdb.Txn.Intention.{Intention}
use cruzdb.Entry.Service.{
  CacheEntry, intention, filled, LogEntry, ReadResult, ok, enodata, enoent, failed, Service,
}
use cruzdb.Entry.Batch.{as_intention, completed, aio_round, blobs, split_cached}
use cruzdb.Entry.Cache.{find_key-All}
use cruzdb.Entry.Steps.{Truthful, Agrees, Cached}
use cruzdb.Entry.Batches.{Answers}

module _ (log : ℕ → Option CacheEntry) where
  abbrev pub IsIntention : ℕ → Type 0
  IsIntention pos = (i : Intention) × (log pos ≡ some (intention i))

  -- The entries of the log at the positions, and those that have been returned.
  abbrev pub at_positions : List ℕ → List (Option CacheEntry)
  at_positions positions = map log positions

  abbrev pub returned : List Intention → List (Option CacheEntry)
  returned is = map (λ i. some (intention i)) is

  -- What is found in the cache and what is missing make up the positions.
  abbrev pub Divides : List ℕ → List Intention × List ℕ → Type 0
  Divides positions x =
      Perm (at_positions positions) (returned x.0 ++ at_positions x.1)
      × (length x.0 + length x.1 ≡ length positions)
      × All IsIntention x.1

  pub split_cached-Divides :
      (positions : List ℕ) (s : Service)
      → Cached log s
      → All IsIntention positions
      → Holds (Divides positions) (split_cached positions s)
  unfolding split_cached
  split_cached-Divides [] s c h = (Perm.refl [], refl, tt)
  split_cached-Divides (pos ∷ positions) s c h =
      Holds->>= (Divides positions) (Divides (pos ∷ positions)) (split_cached positions s) _
        (split_cached-Divides positions s c h.1)
        (λ x d. elim (Option-cases (find_key pos s.entry_cache)) [
          | inl f ↦
              rw (f, split_cached)
                (
                  Perm.trans (Perm.cons (log pos) d.0)
                      (Perm.symm (perm_middle (returned x.0) (at_positions x.1))),
                  let n = d.1 in omega arith,
                  (h.0, d.2),
                )
          | inr (e, f) ↦
              let l = find_key-All (Agrees log) pos s.entry_cache c.agrees f in
              let q : e ≡ intention h.0.0 = some_injective (sym l ∙ h.0.1) in
              rw (f, q, as_intention, ◌>>=◌)
                (
                  subst
                      (λ y.
                        Perm (log pos ∷ at_positions positions)
                          (y ∷ (returned x.0 ++ at_positions x.1)))
                      h.0.1 (Perm.cons (log pos) d.0),
                  let n = d.1 in omega arith,
                  d.2,
                )
        ])

  abbrev pub keys : {A : Type 0} → List (ℕ × A) → List ℕ
  keys ios = map (λ c. c.0) ios

  -- A round in which every read of an intention succeeds.
  abbrev pub Succeeds : (ℕ → ReadResult) → Type 0
  Succeeds answer = (pos : ℕ) → IsIntention pos → (e : LogEntry) × (answer pos ≡ ok e)

  completed_some :
      (pos : ℕ) (r : ReadResult)
      → IsIntention pos
      → Truthful log pos r
      → Holds (λ _. Unit {0}) (completed r)
  completed_some pos (ok e) i t = tt
  completed_some pos enodata i t = let q : some (intention i.0) ≡ some filled = sym i.1 ∙ t in cc
  completed_some pos enoent i t = tt
  completed_some pos failed i t = tt

  pub aio_round-keys :
      (answer : ℕ → ReadResult) (ios : List (ℕ × Option LogEntry))
      → Answers log answer
      → All IsIntention (keys ios)
      → Holds (λ ios'. keys ios' ≡ keys ios) (aio_round answer ios)
  unfolding aio_round
  aio_round-keys answer [] t h = refl
  aio_round-keys answer ((pos, some e) ∷ ios) t h =
      Holds->>= (λ rest. keys rest ≡ keys ios) (λ ios'. keys ios' ≡ pos ∷ keys ios)
        (aio_round answer ios) _ (aio_round-keys answer ios t h.1) (λ rest q. ap (λ ks. pos ∷ ks) q)
  aio_round-keys answer ((pos, none) ∷ ios) t h =
      Holds->>= (λ rest. keys rest ≡ keys ios) (λ ios'. keys ios' ≡ pos ∷ keys ios)
        (aio_round answer ios) _ (aio_round-keys answer ios t h.1)
        (λ rest q.
          Holds->>= (λ _. Unit {0}) (λ ios'. keys ios' ≡ pos ∷ keys ios) (completed (answer pos)) _
            (completed_some pos (answer pos) h.0 (t pos)) (λ x u. ap (λ ks. pos ∷ ks) q))

  pub aio_round_last :
      (answer : ℕ → ReadResult) (ios : List (ℕ × Option LogEntry))
      → Succeeds answer
      → All IsIntention (keys ios)
      → Holds (λ ios'. Holds (λ bs. keys bs ≡ keys ios) (blobs ios')) (aio_round answer ios)
  unfolding aio_round blobs
  aio_round_last answer [] t h = refl
  aio_round_last answer ((pos, some e) ∷ ios) t h =
      Holds->>= (λ rest. Holds (λ bs. keys bs ≡ keys ios) (blobs rest)) _ (aio_round answer ios) _
        (aio_round_last answer ios t h.1)
        (λ rest q.
          Holds->>= (λ bs. keys bs ≡ keys ios) (λ bs. keys bs ≡ pos ∷ keys ios) (blobs rest) _ q
            (λ bs k. ap (λ ks. pos ∷ ks) k))
  aio_round_last answer ((pos, none) ∷ ios) t h =
      let (e, f) = t pos h.0 in
      Holds->>= (λ rest. Holds (λ bs. keys bs ≡ keys ios) (blobs rest)) _ (aio_round answer ios) _
        (aio_round_last answer ios t h.1)
        (λ rest q.
          rw (f, completed, ◌>>=◌)
            (Holds->>= (λ bs. keys bs ≡ keys ios) (λ bs. keys bs ≡ pos ∷ keys ios) (blobs rest) _ q
              (λ bs k. ap (λ ks. pos ∷ ks) k)))

  pub blobs-keys :
      (ios : List (ℕ × Option LogEntry)) {bs : List (ℕ × LogEntry)}
      → blobs ios ≡ some bs
      → keys bs ≡ keys ios
  unfolding blobs
  blobs-keys [] q = ap keys (sym (some_injective q))
  blobs-keys ((pos, some e) ∷ ios) q =
      let (rest, f, g) = >>=-eq-some (blobs ios) _ q in
      ap keys (sym (some_injective g)) ∙ ap (λ ks. pos ∷ ks) (blobs-keys ios f)
  blobs-keys ((pos, none) ∷ ios) q = let (rest, f, g) = >>=-eq-some (blobs ios) _ q in cc
