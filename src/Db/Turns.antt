-- ===== src/Db/Turns.antt =====
-- One turn of the search of `FindRestorePoint` (src/db/db_impl.cc).
use mathlib.Core.Path.{subst}
use cruzdb.Prelude.{
  ℕ, suc, true, List, Option, none, some, ◌>>=◌, assert, ◌==◌, ◌≡◌, ◌≢◌, refl, sym, ap, ◌∙◌, ◌≤◌,
  ◌<◌, ◌⊎◌, inl, inr, arith, Holds, Holds->>=, Option-cases, le-or-lt, lt→ltb, ==_iff,
  some_injective,
}
use cruzdb.Prelude.Map.{
  find_key, emplace_key, erase_key, emplace_key-Sorted, erase_key-Sorted, find_key-erase_self,
  find_key-erase_ne, find_key-emplace_self, find_key-emplace_ne,
}
use cruzdb.Txn.Intention.{Intention}
use cruzdb.Image.Proto.{AfterImage}
use cruzdb.Entry.Service.{CacheEntry, intention, after_image, filled}
use cruzdb.Db.Restore.{RestorePoint, Search, note_image, note_intention, restore_at, find_turn}
use cruzdb.Db.Knows.{Image, IsRestorePoint, Knows}
use cruzdb.Db.Lowered.{
  down, lower_passed, lower_none, noted_some, noted_none, filled-Knows, intention-Knows,
}

key_cases : (j k : ℕ) → (j ≡ k) ⊎ (j ≢ k)
key_cases j k = elim (le-or-lt j k) [
  | inl a ↦ elim (le-or-lt k j) [ inl b ↦ inl (omega arith) | inr b ↦ inr (omega arith) ]
  | inr b ↦ inr (omega arith)
]

image_pair : (x y : ℕ × AfterImage) → some x ≡ some y → (x.0 ≡ y.0) × (x.1 ≡ y.1)
image_pair x y h = (
  ap (λ (z : ℕ × AfterImage). z.0) (some_injective h),
  ap (λ (z : ℕ × AfterImage). z.1) (some_injective h),
)

image_none : (x : ℕ × AfterImage) → some x ≢ none
image_none x h = cc

module _ (tail : ℕ) (read : ℕ → Option CacheEntry) where
  module _ (pos : ℕ) (st : Search) (w : Knows tail read (suc pos) st) where
    module _ (ai : AfterImage) (b : pos ≤ tail) (h : read pos ≡ some (after_image ai)) where
      abbrev erased : List (ℕ × (ℕ × AfterImage))
      erased = erase_key ai.intention st.after_images

      abbrev noted : List (ℕ × (ℕ × AfterImage))
      noted = emplace_key ai.intention (pos, ai) erased

      noted_self : find_key ai.intention noted ≡ some (pos, ai)
      noted_self =
          find_key-emplace_self ai.intention (pos, ai) erased
            (find_key-erase_self ai.intention st.after_images w.sorted)

      noted_at : (k : ℕ) → k ≡ ai.intention → find_key k noted ≡ some (pos, ai)
      noted_at k e = subst (λ x. find_key x noted ≡ some (pos, ai)) (sym e) noted_self

      noted_ne : (k : ℕ) → k ≢ ai.intention → find_key k noted ≡ find_key k st.after_images
      noted_ne k n =
          find_key-emplace_ne k ai.intention (pos, ai) erased n
          ∙ find_key-erase_ne k ai.intention st.after_images n

      -- The image at the position is the one of this intention.
      same_at : (k q : ℕ) (a : AfterImage) → q ≡ pos → Image tail read k q a → ai ≡ a
      same_at k q a e im =
          let x : some (after_image ai) ≡ some (after_image a) = sym h ∙ ap read (sym e) ∙ im.1 in
          cc

      add_found :
          (k q : ℕ) (a : AfterImage)
          → find_key k noted ≡ some (q, a)
          → (pos ≤ q)
            × Image tail read k q a
            × ((q' : ℕ) (a' : AfterImage) → pos ≤ q' → Image tail read k q' a' → q ≤ q')
      add_found k q a f = elim (key_cases k ai.intention) [
        | inl e ↦
            let (d, c) = image_pair (pos, ai) (q, a) (sym (noted_at k e) ∙ f) in
            (
              omega arith,
              (omega arith, ap read (sym d) ∙ h ∙ ap (λ x. some (after_image x)) c, cc),
              λ q' a' l im. omega arith,
            )
        | inr n ↦
            let (l, im, least) = w.found k q a (sym (noted_ne k n) ∙ f) in
            (
              omega arith,
              im,
              λ q' a' l' im'. elim (down tail read pos q' l') [
                | inl r ↦ least q' a' r im'
                | inr e ↦
                    let c = same_at k q' a' e im' in
                    let x = im'.2 in absurd (n (sym x ∙ ap (λ y. y.intention) (sym c)))
              ],
            )
      ]

      add_missing :
          (k q : ℕ) (a : AfterImage) → find_key k noted ≡ none → Image tail read k q a → q < pos
      add_missing k q a f im = elim (key_cases k ai.intention) [
        | inl e ↦ absurd (image_none (pos, ai) (sym (noted_at k e) ∙ f))
        | inr n ↦
            let l = w.missing k q a (sym (noted_ne k n) ∙ f) im in
            elim (le-or-lt pos q) [
              | inl r ↦
                  let e : q ≡ pos = omega arith in
                  let c = same_at k q a e im in
                  let x = im.2 in absurd (n (sym x ∙ ap (λ y. y.intention) (sym c)))
              | inr r ↦ r
            ]
      ]

      image-Knows : 0 < pos → Holds (Knows tail read pos) (note_image pos ai st)
      unfolding note_image
      image-Knows l =
          let no_intention : (i : Intention) → read pos ≢ some (intention i) = λ i e. cc in
          rw
            (
              lt→ltb 0 pos l,
              assert,
              ◌>>=◌,
              find_key-erase_self ai.intention st.after_images w.sorted,
            )
            (record {
              sorted =
                  emplace_key-Sorted ai.intention (pos, ai) erased
                    (erase_key-Sorted ai.intention st.after_images w.sorted);
              found = add_found;
              missing = add_missing;
              passed = lower_passed tail read pos st w no_intention;
              latest_some = w.latest_some;
              latest_none = lower_none tail read pos st w no_intention;
            })

    -- Where the intention at the position has an after image.
    restore_at-IsRestorePoint :
        (i : Intention) (e : ℕ × AfterImage)
        → pos ≤ tail
        → read pos ≡ some (intention i)
        → find_key pos st.after_images ≡ some e
        → Holds (IsRestorePoint tail read) (restore_at pos e (note_intention pos st))
    unfolding restore_at
    restore_at-IsRestorePoint i e b h f =
        elim (Option-cases (note_intention pos st).latest_intention) [
          | inl n ↦ absurd (noted_none tail read pos st w n)
          | inr (l, n) ↦
              let (lq, im, least) = w.found pos e.0 e.1 f in
              let (il, later) = noted_some tail read pos st w i b h l n in
              let same : (pos == e.1.intention) ≡ true = (==_iff pos e.1.intention).1 (sym im.2) in
              rw (same, assert, ◌>>=◌, n)
                (record {
                  p = pos;
                  start = refl;
                  intends = (b, (i, h));
                  earliest = (omega arith, im, λ q' a' l' im'. least q' a' l' im');
                  last = λ p' q a ip l' im'. let z = w.passed p' q a ip l' im' in omega arith;
                  latest = il;
                  none_later = later;
                })
        ]

    -- One turn, where what the turns after it need is given.
    pub find_turn-IsRestorePoint :
        (e : CacheEntry) (next : Search → Option (RestorePoint × ℕ))
        → pos ≤ tail
        → read pos ≡ some e
        → ((a : AfterImage) → e ≡ after_image a → 0 < pos)
        → ((st' : Search) → Knows tail read pos st' → Holds (IsRestorePoint tail read) (next st'))
        → Holds (IsRestorePoint tail read) (find_turn pos (some e) st next)
    unfolding find_turn
    find_turn-IsRestorePoint (intention i) next b h z g =
        elim (Option-cases (find_key pos st.after_images)) [
          | inl f ↦
              rw (f, find_turn)
                (g (note_intention pos st) (intention-Knows tail read pos st w i b h f))
          | inr (e, f) ↦ rw (f, find_turn) (restore_at-IsRestorePoint i e b h f)
        ]
    find_turn-IsRestorePoint (after_image a) next b h z g =
        Holds->>= (Knows tail read pos) (IsRestorePoint tail read) (note_image pos a st) next
          (image-Knows a b h (z a refl)) g
    find_turn-IsRestorePoint filled next b h z g = g st (filled-Knows tail read pos st w h)
