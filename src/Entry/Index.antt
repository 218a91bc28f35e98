-- ===== src/Entry/Index.antt =====
-- The dedup index of `PrimaryAfterImageMatcher` (src/db/entry_service.cc), and its collection.
use cruzdb.Prelude.{
  ℕ, true, false, List, [], ◌∷◌, Option, none, some, ◌>>=◌, assert, if◌then◌else◌, ◌≡◌, ◌≢◌, refl,
  sym, ap, some_injective, le-or-lt, ◌∙◌, ◌≤◌, ◌<◌, arith, Holds, lt→ltb, Bool-cases, inl, inr,
}
use mathlib.Core.Path.{subst}
use cruzdb.Prelude.Map.{find_key, find_key-Above, Above}
use cruzdb.Entry.Matcher.{PrimaryAfterImage, is_matched, gc_loop}
use cruzdb.Entry.Ledger.{Status, unseen, imaged, watched, paired}

abbrev pub entry_of : ℕ → Status → Option PrimaryAfterImage
entry_of k unseen = none
entry_of k (imaged pos) = some (record { pos = some pos; tree = none; delta = [] })
entry_of k (watched delta) = some (record {
  pos = none;
  tree = some (record { intention = k; after_image = none });
  delta = delta;
})
entry_of k paired = some (record { pos = none; tree = none; delta = [] })

abbrev pub Settled : Status → Type 0
Settled (watched delta) = ⊥
Settled _ = Unit

abbrev pub Unwatched : Status → Type 0
Unwatched (watched delta) = ⊥
Unwatched paired = ⊥
Unwatched _ = Unit

-- The index holds the table above the watermark; below it no intention waits, and above the last
-- intention that has been watched there is none yet.
pub record Index (last : ℕ) (st : ℕ → Status) (wm : ℕ) (es : List (ℕ × PrimaryAfterImage))
    : Type 0 where
  pub above : Above wm es
  pub shown : (k : ℕ) → wm < k → find_key k es ≡ entry_of k (st k)
  pub settled : (k : ℕ) → k ≤ wm → Settled (st k)
  pub unwatched : (k : ℕ) → last < k → Unwatched (st k)
  pub marked : wm ≤ last

entry_of-none : (k : ℕ) (s : Status) → entry_of k s ≡ none → Settled s
entry_of-none k unseen h = tt
entry_of-none k (imaged pos) h = tt
entry_of-none k (watched delta) h = cc
entry_of-none k paired h = tt

entry_of-matched :
    (k : ℕ) (s : Status) (e : PrimaryAfterImage)
    → entry_of k s ≡ some e
    → is_matched e ≡ true
    → s ≡ paired
entry_of-matched k unseen e h m = cc
entry_of-matched k (imaged pos) e h m =
    let f : false ≡ true = ap is_matched (some_injective h) ∙ m in cc
entry_of-matched k (watched delta) e h m =
    let f : false ≡ true = ap is_matched (some_injective h) ∙ m in cc
entry_of-matched k paired e h m = refl

find_head :
    {A : Type 0} (k : ℕ) (e : ℕ × A) (es : List (ℕ × A)) → k ≡ e.0 → find_key k (e ∷ es) ≡ some e.1
unfolding find_key
find_head k e es h = ground arith

find_tail :
    {A : Type 0} (k : ℕ) (e : ℕ × A) (es : List (ℕ × A))
    → k ≢ e.0
    → find_key k (e ∷ es) ≡ find_key k es
unfolding find_key
find_tail k e es h = ground arith

-- The watermark moves over a matched entry.
module _ (last : ℕ) (st : ℕ → Status) (wm : ℕ) (e : ℕ × PrimaryAfterImage)
    (es : List (ℕ × PrimaryAfterImage)) (i : Index last st wm (e ∷ es))
    (m : is_matched e.1 ≡ true) where
  is_paired : st e.0 ≡ paired
  is_paired =
      entry_of-matched e.0 (st e.0) e.1 (sym (i.shown e.0 i.above.0) ∙ find_head e.0 e es refl) m

  passed : (k : ℕ) → wm < k → k < e.0 → Settled (st k)
  passed k l r = entry_of-none k (st k) (
      sym (i.shown k l)
      ∙ find_tail k e es (omega arith)
      ∙ find_key-Above k e.0 es (omega arith) i.above.1)

  now_quiet : (k : ℕ) → k ≤ e.0 → Settled (st k)
  now_quiet k l = elim (le-or-lt k wm) [
    | inl r ↦ i.settled k r
    | inr r ↦ elim (le-or-lt e.0 k) [
      | inl q ↦
          let eq : k ≡ e.0 = omega arith in subst (λ j. Settled (st j)) (sym eq) (rw is_paired tt)
      | inr q ↦ passed k r q
    ]
  ]

  now_marked : e.0 ≤ last
  now_marked = elim (le-or-lt e.0 last) [
    | inl r ↦ r
    | inr r ↦ absurd (subst Unwatched is_paired (i.unwatched e.0 r))
  ]

  advance : Index last st e.0 es
  advance =
      let lt : wm < e.0 = i.above.0 in
      record {
        above = i.above.1;
        shown = λ k l. sym (find_tail k e es (omega arith)) ∙ i.shown k (omega arith);
        settled = now_quiet;
        unwatched = i.unwatched;
        marked = now_marked;
      }

pub gc_loop-Index :
    (last : ℕ) (st : ℕ → Status) (wm : ℕ) (es : List (ℕ × PrimaryAfterImage))
    → Index last st wm es
    → Holds (λ r. Index last st r.0 r.1) (gc_loop wm es)
unfolding gc_loop
gc_loop-Index last st wm [] i = i
gc_loop-Index last st wm (e ∷ es) i =
    rw (lt→ltb wm e.0 i.above.0, assert, ◌>>=◌)
      (elim (Bool-cases (is_matched e.1)) [
        | inl m ↦ rw (m, if◌then◌else◌) (gc_loop-Index last st e.0 es (advance last st wm e es i m))
        | inr m ↦ rw (m, if◌then◌else◌) i
      ])
