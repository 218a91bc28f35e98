-- ===== src/Db/Lowered.antt =====
-- What the search of `FindRestorePoint` (src/db/db_impl.cc) keeps at a position without an after image.
use mathlib.Core.Path.{subst}
use cruzdb.Prelude.{
  ℕ, suc, Option, none, some, ◌≡◌, ◌≢◌, sym, ap, ◌∙◌, ◌≤◌, ◌<◌, ◌⊎◌, inl, inr, arith, Option-cases,
  le-or-lt, some_injective,
}
use cruzdb.Prelude.Map.{find_key}
use cruzdb.Txn.Intention.{Intention}
use cruzdb.Image.Proto.{AfterImage}
use cruzdb.Entry.Service.{CacheEntry, intention, after_image, filled}
use cruzdb.Db.Restore.{Search, note_intention}
use cruzdb.Db.Knows.{Image, IsIntention, Knows}

module _ (tail : ℕ) (read : ℕ → Option CacheEntry) where
  pub down : (pos q : ℕ) → pos ≤ q → (suc pos ≤ q) ⊎ (q ≡ pos)
  down pos q l = elim (le-or-lt q pos) [ inl r ↦ inr (omega arith) | inr r ↦ inl r ]

  module _ (pos : ℕ) (st : Search) (w : Knows tail read (suc pos) st) where
    -- At a position without an after image.
    lower_found :
        ((a : AfterImage) → read pos ≢ some (after_image a))
        → (k q : ℕ) (a : AfterImage) → find_key k st.after_images ≡ some (q, a)
        → (pos ≤ q)
          × Image tail read k q a
          × ((q' : ℕ) (a' : AfterImage) → pos ≤ q' → Image tail read k q' a' → q ≤ q')
    lower_found n k q a f =
        let (l, im, least) = w.found k q a f in
        (
          omega arith,
          im,
          λ q' a' l' im'. elim (down pos q' l') [
            | inl r ↦ least q' a' r im'
            | inr e ↦ absurd (n a' (ap read (sym e) ∙ im'.1))
          ],
        )

    lower_missing :
        ((a : AfterImage) → read pos ≢ some (after_image a))
        → (k q : ℕ) (a : AfterImage) → find_key k st.after_images ≡ none
        → Image tail read k q a
        → q < pos
    lower_missing n k q a f im =
        let l = w.missing k q a f im in
        elim (le-or-lt pos q) [
          | inl r ↦ let e : q ≡ pos = omega arith in absurd (n a (ap read (sym e) ∙ im.1))
          | inr r ↦ r
        ]

    -- At a position without an intention.
    pub lower_passed :
        ((i : Intention) → read pos ≢ some (intention i))
        → (p q : ℕ) (a : AfterImage) → IsIntention tail read p
        → p < q
        → Image tail read p q a
        → p < pos
    lower_passed n p q a ip l im =
        let l' = w.passed p q a ip l im in
        elim (le-or-lt pos p) [
          | inl r ↦ let e : p ≡ pos = omega arith in absurd (n ip.1.0 (ap read (sym e) ∙ ip.1.1))
          | inr r ↦ r
        ]

    pub lower_none :
        ((i : Intention) → read pos ≢ some (intention i))
        → st.latest_intention ≡ none
        → (p : ℕ) → IsIntention tail read p
        → p < pos
    lower_none n h p ip =
        let l' = w.latest_none h p ip in
        elim (le-or-lt pos p) [
          | inl r ↦ let e : p ≡ pos = omega arith in absurd (n ip.1.0 (ap read (sym e) ∙ ip.1.1))
          | inr r ↦ r
        ]

    pub filled-Knows : read pos ≡ some filled → Knows tail read pos st
    filled-Knows h =
        let no_image : (a : AfterImage) → read pos ≢ some (after_image a) = λ a e. cc in
        let no_intention : (i : Intention) → read pos ≢ some (intention i) = λ i e. cc in
        record {
          sorted = w.sorted;
          found = lower_found no_image;
          missing = lower_missing no_image;
          passed = lower_passed no_intention;
          latest_some = w.latest_some;
          latest_none = lower_none no_intention;
        }

    -- The latest intention after one has been read.
    pub noted_some :
        (i : Intention)
        → pos ≤ tail
        → read pos ≡ some (intention i)
        → (l : ℕ) → (note_intention pos st).latest_intention ≡ some l
        → IsIntention tail read l × ((p : ℕ) → IsIntention tail read p → p ≤ l)
    unfolding note_intention
    noted_some i b h l e = elim (Option-cases st.latest_intention) [
      | inl n ↦
          let q : some pos ≡ some l = rw n at e in
          let d : pos ≡ l = some_injective q in
          subst (λ x. IsIntention tail read x × ((p : ℕ) → IsIntention tail read p → p ≤ x)) d
            ((b, (i, h)), λ p ip. let lt = w.latest_none n p ip in omega arith)
      | inr (x, n) ↦ let q : some x ≡ some l = rw n at e in w.latest_some l (n ∙ q)
    ]

    pub noted_none : (note_intention pos st).latest_intention ≢ none
    unfolding note_intention
    noted_none e = elim (Option-cases st.latest_intention) [
      | inl n ↦ let q : some pos ≡ none = rw n at e in cc
      | inr (x, n) ↦ let q : some x ≡ none = rw n at e in cc
    ]

    pub intention-Knows :
        (i : Intention)
        → pos ≤ tail
        → read pos ≡ some (intention i)
        → find_key pos st.after_images ≡ none
        → Knows tail read pos (note_intention pos st)
    unfolding note_intention
    intention-Knows i b h f =
        let no_image : (a : AfterImage) → read pos ≢ some (after_image a) = λ a e. cc in
        record {
          sorted = w.sorted;
          found = lower_found no_image;
          missing = lower_missing no_image;
          passed = λ p q a ip l im.
              let l' = w.passed p q a ip l im in
              elim (le-or-lt pos p) [
                | inl r ↦
                    let e : p ≡ pos = omega arith in
                    let z = w.missing pos q a f (subst (λ x. Image tail read x q a) e im) in
                    absurd (omega arith)
                | inr r ↦ r
              ];
          latest_some = noted_some i b h;
          latest_none = λ e. absurd (noted_none e);
        }
