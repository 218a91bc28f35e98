-- ===== src/Entry/Changes.antt =====
-- One change of the index of `PrimaryAfterImageMatcher` (src/db/entry_service.cc), against the table.
use mathlib.Core.Path.{subst}
use cruzdb.Prelude.{
  ℕ, true, List, [], ◌∷◌, ◌++◌, none, some, ◌==◌, ◌≡◌, ◌≢◌, sym, ap, ◌∙◌, ◌≤◌, ◌<◌, inl, inr, arith,
  Holds, Holds->>=, le-or-lt,
}
use cruzdb.Prelude.Map.{
  find_key, update_key, emplace_key, Above, find_key-emplace_self, find_key-emplace_ne,
  find_key-update_self, find_key-update_ne, emplace_key-Above, update_key-Above,
}
use cruzdb.Entry.Matcher.{PrimaryAfterImage, Matcher, finish_match, gc_loop, gc}
use cruzdb.Entry.Ledger.{Status, unseen, paired, set_status, Ledger, pair_up}
use cruzdb.Entry.Index.{Index, entry_of, Settled, Unwatched, gc_loop-Index}

pub eq_self : (k : ℕ) → (k == k) ≡ true
eq_self k = ground arith

pub record Follows (last : ℕ) (m : Matcher) (l : Ledger) : Type 0 where
  pub index : Index last l.status m.matched_watermark m.after_images
  pub same : m.matched ≡ l.matched

set_status_self : (k : ℕ) (s : Status) (st : ℕ → Status) → set_status k s st k ≡ s
set_status_self k s st = ground arith

pub set_status_ne : (j k : ℕ) (s : Status) (st : ℕ → Status) → j ≢ k → set_status k s st j ≡ st j
set_status_ne j k s st n = ground arith

-- What the change of one status must satisfy.
pub set_status-at :
    (P : Status → Type 0) (j k : ℕ) (s : Status) (st : ℕ → Status)
    → (j ≡ k → P s)
    → (j ≢ k → P (st j))
    → P (set_status k s st j)
set_status-at P j k s st f g = elim (le-or-lt j k) [
  | inl a ↦ elim (le-or-lt k j) [
    | inl b ↦
        let e : j ≡ k = omega arith in
        subst (λ i. P (set_status k s st i)) (sym e) (subst P (sym (set_status_self k s st)) (f e))
    | inr b ↦ let n : j ≢ k = omega arith in subst P (sym (set_status_ne j k s st n)) (g n)
  ]
  | inr b ↦ let n : j ≢ k = omega arith in subst P (sym (set_status_ne j k s st n)) (g n)
]

change :
    (last last' : ℕ) (st : ℕ → Status) (wm k : ℕ) (s : Status)
    (es es' : List (ℕ × PrimaryAfterImage))
    → Index last st wm es
    → wm < k
    → Above wm es'
    → find_key k es' ≡ entry_of k s
    → ((j : ℕ) → j ≢ k → find_key j es' ≡ find_key j es)
    → last ≤ last'
    → (last' < k → Unwatched s)
    → Index last' (set_status k s st) wm es'
change last last' st wm k s es es' i l a f g le u = record {
  above = a;
  shown = λ j lj.
      set_status-at (λ x. find_key j es' ≡ entry_of j x) j k s st
        (λ e. subst (λ x. find_key x es' ≡ entry_of x s) (sym e) f) (λ n. g j n ∙ i.shown j lj);
  settled = λ j lj.
      set_status-at Settled j k s st (λ e. absurd (let d : j ≡ k = e in omega arith))
        (λ n. i.settled j lj);
  unwatched = λ j lj.
      set_status-at Unwatched j k s st (λ e. u (omega arith)) (λ n. i.unwatched j (omega arith));
  marked = let mk = i.marked in omega arith;
}

pub gc-Follows :
    (last : ℕ) (m : Matcher) (l : Ledger)
    → Follows last m l
    → Holds (λ m'. Follows last m' l) (gc m)
unfolding gc
gc-Follows last m l f =
    Holds->>= (λ r. Index last l.status r.0 r.1) (λ m'. Follows last m' l)
      (gc_loop m.matched_watermark m.after_images) _
      (gc_loop-Index last l.status m.matched_watermark m.after_images f.index)
      (λ r i. record { index = i; same = f.same })

-- The states before the collection, where an entry is added, and where a pair is matched.
module _ (last last' k : ℕ) (m : Matcher) (l : Ledger) (f : Follows last m l)
    (lt : m.matched_watermark < k) (le : last ≤ last') where
  pub added :
      (s : Status) (e : PrimaryAfterImage)
      → l.status k ≡ unseen
      → some e ≡ entry_of k s
      → (last' < k → Unwatched s)
      → Follows last'
          (record m { after_images = emplace_key k e m.after_images })
          (record l { status = set_status k s l.status })
  added s e n h u = record {
    index =
        change last last' l.status m.matched_watermark k s m.after_images
          (emplace_key k e m.after_images) f.index lt
          (emplace_key-Above m.matched_watermark k e m.after_images lt f.index.above)
          (find_key-emplace_self k e m.after_images (f.index.shown k lt ∙ ap (entry_of k) n) ∙ h)
          (λ j d. find_key-emplace_ne j k e m.after_images d) le u;
    same = f.same;
  }

  pub matched_up :
      (delta : List ℕ) (pos : ℕ) (e : PrimaryAfterImage)
      → find_key k m.after_images ≡ some e
      → k ≤ last'
      → Follows last'
          (finish_match delta (record { intention = k; after_image = some pos }) m)
          (pair_up k delta pos l)
  matched_up delta pos e h b =
      let done : PrimaryAfterImage = record { pos = none; tree = none; delta = [] } in
      record {
        index =
            change last last' l.status m.matched_watermark k paired m.after_images
              (update_key k done m.after_images) f.index lt
              (update_key-Above m.matched_watermark k done m.after_images f.index.above)
              (find_key-update_self k done e m.after_images h)
              (λ j d. find_key-update_ne j k done m.after_images d) le (λ q. absurd (omega arith));
        same = ap (λ x. x ++ (delta, record { intention = k; after_image = some pos }) ∷ []) f.same;
      }
