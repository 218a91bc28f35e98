-- ===== src/Entry/Batched.antt =====
-- src/db/entry_service.cc: `ReadIntentions` returns the intentions at its positions.
use mathlib.Core.Path.{subst}
use mathlib.Core.List.{Perm}
use cruzdb.Prelude.{
  ℕ, suc, ◌+◌, true, List, [], ◌∷◌, ◌++◌, map, length, length-append, All, Option, none, some,
  ◌>>=◌, ◌>>◌, assert, ◌≡◌, refl, sym, ap, ◌∙◌, ◌==◌, ==_iff, ◌≤◌, ◌<◌, arith, Holds, Holds-some,
  Holds->>=, All-append, some_injective, Option-cases, inl, inr,
}
use cruzdb.Prelude.Map.{find_key, emplace_key}
use cruzdb.Txn.Intention.{Intention}
use cruzdb.Entry.Service.{
  CacheEntry, intention, LogEntry, ReadResult, Service, cache_entry, add_entry, add_and_get,
}
use cruzdb.Entry.Batch.{
  as_intention, aio_round, blobs, aio_rounds, store_blobs, split_cached, read_intentions,
}
use cruzdb.Entry.Cache.{entry_cache_gc_room, length-emplace_key}
use cruzdb.Entry.Steps.{Cached, add_and_get-Got}
use cruzdb.Entry.Batches.{Answers, Read, aio_rounds-Read, pending-Read}
use cruzdb.Entry.Reachable.{finds}
use cruzdb.Entry.Complete.{
  IsIntention, at_positions, returned, Divides, split_cached-Divides, keys, Succeeds,
  aio_round-keys, aio_round_last, blobs-keys,
}

-- With room for one more entry, the entry that has been added is there.
add_and_get_room :
    (pos : ℕ) (e : CacheEntry) (s : Service)
    → length s.entry_cache < s.cache_size
    → Holds
        (λ r.
          (length r.1.entry_cache ≤ suc (length s.entry_cache)) × (r.1.cache_size ≡ s.cache_size))
        (add_and_get pos e s)
unfolding add_and_get add_entry
add_and_get_room pos e s l =
    let (x, f, u) =
      Holds-some (λ _. Unit {0}) (find_key pos (emplace_key pos e s.entry_cache))
        (finds pos e s.entry_cache) in
    let n = length-emplace_key pos e s.entry_cache in
    rw (◌>>=◌, entry_cache_gc_room s.cache_size (emplace_key pos e s.entry_cache) (omega arith), f)
      (n, refl)

module _ (log : ℕ → Option CacheEntry) where
  aio_rounds-keys :
      (rs : List (ℕ → ReadResult)) (answer : ℕ → ReadResult) (ios : List (ℕ × Option LogEntry))
      (ks : List ℕ)
      → All (Answers log) rs
      → Succeeds log answer
      → All (IsIntention log) ks
      → keys log ios ≡ ks
      → Holds (λ bs. keys log bs ≡ ks) (aio_rounds (rs ++ answer ∷ []) ios)
  unfolding aio_rounds
  aio_rounds-keys [] answer ios ks t su h e =
      Holds->>= (λ ios'. Holds (λ bs. keys log bs ≡ keys log ios) (blobs ios'))
        (λ bs. keys log bs ≡ ks) (aio_round answer ios) _
        (aio_round_last log answer ios su (subst (All (IsIntention log)) (sym e) h))
        (λ ios' q.
          let (bs, f, k) = Holds-some (λ bs. keys log bs ≡ keys log ios) (blobs ios') q in
          rw f (k ∙ e))
  aio_rounds-keys (r ∷ rs) answer ios ks t su h e =
      Holds->>= (λ ios'. keys log ios' ≡ keys log ios) (λ bs. keys log bs ≡ ks) (aio_round r ios) _
        (aio_round-keys log r ios t.0 (subst (All (IsIntention log)) (sym e) h))
        (λ ios' q. elim (Option-cases (blobs ios')) [
          | inl f ↦ rw f (aio_rounds-keys rs answer ios' ks t.1 su h (q ∙ e))
          | inr (bs, f) ↦ rw f (blobs-keys log ios' f ∙ q ∙ e)
        ])

  store_blobs-returned :
      (bs : List (ℕ × LogEntry)) (s : Service)
      → All (Read log) bs
      → All (IsIntention log) (keys log bs)
      → Cached log s
      → length s.entry_cache + length bs ≤ s.cache_size
      → Holds (λ r. returned log r.0 ≡ at_positions log (keys log bs)) (store_blobs bs s)
  unfolding store_blobs
  store_blobs-returned [] s t h c l = refl
  store_blobs-returned (b ∷ bs) s t h c l =
      let i : Intention = h.0.0 in
      let q : cache_entry b.0 b.1 ≡ intention i = some_injective (sym t.0 ∙ h.0.1) in
      let (p, f, (n, z)) =
        Holds-some
          (λ r.
            (length r.1.entry_cache ≤ suc (length s.entry_cache)) × (r.1.cache_size ≡ s.cache_size))
          (add_and_get b.0 (intention i) s) (add_and_get_room b.0 (intention i) s (omega arith)) in
      let (g, k) = add_and_get-Got log b.0 (intention i) s h.0.1 c f in
      let q' : p.0 ≡ intention i = some_injective (sym g ∙ h.0.1) in
      let n' : length p.1.entry_cache + length bs ≤ p.1.cache_size = omega (arith, n, z, l) in
      rw (q, as_intention, ◌>>=◌, f, q')
        (Holds->>= (λ r. returned log r.0 ≡ at_positions log (keys log bs))
          (λ r. returned log r.0 ≡ log b.0 ∷ at_positions log (keys log bs)) (store_blobs bs p.1) _
          (store_blobs-returned bs p.1 t.1 h.1 k n')
          (λ r e. ap (λ y. y ∷ returned log r.0) (sym h.0.1) ∙ ap (λ ys. log b.0 ∷ ys) e))

  pending-keys :
      (positions : List ℕ)
      → keys log {A = Option LogEntry} (map (λ pos. (pos, none)) positions) ≡ positions
  pending-keys [] = refl
  pending-keys (pos ∷ positions) = ap (λ ks. pos ∷ ks) (pending-keys positions)

  length-map : {A B : Type 0} (f : A → B) (xs : List A) → length (map f xs) ≡ length xs
  length-map f [] = refl
  length-map f (x ∷ xs) = ap suc (length-map f xs)

  same_length :
      (is : List Intention) (ks : List ℕ)
      → returned log is ≡ at_positions log ks
      → length is ≡ length ks
  same_length is ks e =
      sym (length-map (λ i. some (intention i)) is) ∙ ap length e ∙ length-map log ks

  map-append : {A B : Type 0} (f : A → B) (xs ys : List A) → map f (xs ++ ys) ≡ map f xs ++ map f ys
  map-append f [] ys = refl
  map-append f (x ∷ xs) ys = ap (λ zs. f x ∷ zs) (map-append f xs ys)

  -- The blobs of the missing positions are stored, and the assertion on the lengths holds.
  finish_batch :
      (positions : List ℕ) (x : List Intention × List ℕ) (bs : List (ℕ × LogEntry)) (s : Service)
      → Divides log positions x
      → keys log bs ≡ x.1
      → All (Read log) bs
      → Cached log s
      → length s.entry_cache + length positions ≤ s.cache_size
      → Holds
          (λ (r : List Intention × Service). Perm (at_positions log positions) (returned log r.0))
          (store_blobs bs s >>= λ y.
            assert (length (x.0 ++ y.0) == length positions) >> some (x.0 ++ y.0, y.1))
  finish_batch positions x bs s (perm, n, h) e t c l =
      let lb : length bs ≡ length x.1 =
        sym (length-map (λ (z : ℕ × LogEntry). z.0) bs) ∙ ap length e in
      Holds->>= (λ y. returned log y.0 ≡ at_positions log (keys log bs)) _ (store_blobs bs s) _
        (store_blobs-returned bs s t (subst (All (IsIntention log)) (sym e) h) c (omega arith))
        (λ y r.
          let r' : returned log y.0 ≡ at_positions log x.1 = r ∙ ap (at_positions log) e in
          let ly = same_length y.0 x.1 r' in
          let la = length-append x.0 y.0 in
          let ok : (length (x.0 ++ y.0) == length positions) ≡ true =
            (==_iff (length (x.0 ++ y.0)) (length positions)).1 (omega arith) in
          let q : returned log (x.0 ++ y.0) ≡ returned log x.0 ++ at_positions log x.1 =
            map-append (λ i. some (intention i)) x.0 y.0 ∙ ap (λ zs. returned log x.0 ++ zs) r' in
          rw (ok, assert, ◌>>=◌) (subst (Perm (at_positions log positions)) (sym q) perm))

  -- A batch of reads at positions that hold intentions, with room in the cache for all of them, returns
  -- without a failed assertion as soon as one round of reads succeeds, whatever failed before. It
  -- returns the intentions at the positions, each as often as its position is given, in some order.
  pub read_intentions-Perm :
      (positions : List ℕ) (rs : List (ℕ → ReadResult)) (answer : ℕ → ReadResult) (s : Service)
      → All (Answers log) rs
      → Answers log answer
      → Succeeds log answer
      → All (IsIntention log) positions
      → Cached log s
      → length s.entry_cache + length positions ≤ s.cache_size
      → Holds
          (λ (r : List Intention × Service). Perm (at_positions log positions) (returned log r.0))
          (read_intentions positions (rs ++ answer ∷ []) s)
  unfolding read_intentions
  read_intentions-Perm positions rs answer s t ta su h c l =
      Holds->>= (Divides log positions) _ (split_cached positions s) _
        (split_cached-Divides log positions s c h)
        (λ x d.
          let ios = map (λ pos. (pos, none)) x.1 in
          let (bs, f, k) =
            Holds-some (λ bs. keys log bs ≡ x.1) (aio_rounds (rs ++ answer ∷ []) ios)
              (aio_rounds-keys rs answer ios x.1 t su d.2 (pending-keys x.1)) in
          rw (f, ◌>>=◌)
            (finish_batch positions x bs s d k
              (aio_rounds-Read log (rs ++ answer ∷ []) ios
                (All-append (Answers log) rs (answer ∷ []) t (ta, tt)) (pending-Read log x.1) f)
              c l))
