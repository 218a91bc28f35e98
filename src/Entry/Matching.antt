-- ===== src/Entry/Matching.antt =====
-- The matcher of src/db/entry_service.cc keeps what the table promises.
use mathlib.Core.Path.{subst}
use cruzdb.Prelude.{
  ℕ, true, false, List, [], ◌∷◌, none, ◌>>=◌, assert, leb, if◌then◌else◌, ◌≡◌, refl, sym, ap, ◌∙◌,
  ◌≤◌, ◌<◌, inl, inr, arith, Holds, Holds->>=, le-or-lt,
}
use cruzdb.Prelude.Map.{find_key_nil}
use cruzdb.Entry.Matcher.{
  Matcher, new_matcher, set_after_image, gc, watch_entry, watch, push_entry, push,
}
use cruzdb.Entry.Ledger.{
  Status, unseen, imaged, watched, paired, Ledger, new_ledger, watch_status, ledger_watch,
  push_status, ledger_push, Call, watch_call, push_call, run, ledger_run, Ordered,
}
use cruzdb.Entry.Index.{entry_of, Settled, Unwatched}
use cruzdb.Entry.Changes.{
  Follows, eq_self, set_status_ne, set_status-at, gc-Follows, added, matched_up,
}

watch_entry-Follows :
    (last k : ℕ) (delta : List ℕ) (m : Matcher) (l : Ledger)
    → last < k
    → Follows last m l
    → (s : Status) → l.status k ≡ s
    → Holds
        (λ m'. Follows k m' (watch_status delta k l s))
        (watch_entry delta (record { intention = k; after_image = none }) m (entry_of k s))
unfolding watch_entry watch_status set_after_image
watch_entry-Follows last k delta m l lk f s e =
    let mk = f.index.marked in let lt : m.matched_watermark < k = omega arith in go s e lt
  where
    go :
        (s : Status)
        → l.status k ≡ s
        → m.matched_watermark < k
        → Holds
            (λ m'. Follows k m' (watch_status delta k l s))
            (watch_entry delta (record { intention = k; after_image = none }) m (entry_of k s))
    go unseen e lt =
        added last k k m l f lt (omega arith) (watched delta) _ e refl (λ q. absurd (omega arith))
    go (imaged pos) e lt =
        matched_up last k k m l f lt (omega arith) delta pos _
          (f.index.shown k lt ∙ ap (entry_of k) e) (omega arith)
    go (watched d) e lt = absurd (subst Unwatched e (f.index.unwatched k lk))
    go paired e lt = absurd (subst Unwatched e (f.index.unwatched k lk))

watch-Follows :
    (last k : ℕ) (delta : List ℕ) (m : Matcher) (l : Ledger)
    → last < k
    → Follows last m l
    → Holds
        (λ m'. Follows k m' (ledger_watch delta k l))
        (watch delta (record { intention = k; after_image = none }) m)
unfolding watch ledger_watch
watch-Follows last k delta m l lk f =
    let mk = f.index.marked in
    let lt : m.matched_watermark < k = omega arith in
    Holds->>= (λ m'. Follows k m' (watch_status delta k l (l.status k))) _ _ gc
      (rw (f.index.shown k lt) (watch_entry-Follows last k delta m l lk f (l.status k) refl))
      (λ m' g. gc-Follows k m' _ g)

push_entry-Follows :
    (last k pos : ℕ) (m : Matcher) (l : Ledger)
    → m.matched_watermark < k
    → Follows last m l
    → (s : Status) → l.status k ≡ s
    → Holds (λ m'. Follows last m' (push_status k pos l s)) (push_entry k pos m (entry_of k s))
unfolding push_entry push_status set_after_image
push_entry-Follows last k pos m l lt f unseen e =
    added last last k m l f lt (omega arith) (imaged pos) _ e refl (λ q. tt)
push_entry-Follows last k pos m l lt f (imaged p) e = f
push_entry-Follows last k pos m l lt f (watched d) e =
    rw (eq_self k, assert, ◌>>=◌)
      (matched_up last last k m l f lt (omega arith) d pos _
        (f.index.shown k lt ∙ ap (entry_of k) e)
        (elim (le-or-lt k last) [
          | inl q ↦ q
          | inr q ↦ absurd (subst Unwatched e (f.index.unwatched k q))
        ]))
push_entry-Follows last k pos m l lt f paired e = f

-- An after image at or below the watermark is of no use: no intention waits for it there.
push_late :
    (last k pos : ℕ) (m : Matcher) (l : Ledger)
    → k ≤ m.matched_watermark
    → Follows last m l
    → (s : Status) → l.status k ≡ s
    → Follows last m (push_status k pos l s)
unfolding push_status
push_late last k pos m l le f unseen e = record {
  index =
      let i = f.index in
      record {
        above = i.above;
        shown = λ j lj.
            i.shown j lj
            ∙ ap (entry_of j) (sym (set_status_ne j k (imaged pos) l.status (omega arith)));
        settled =
            λ j lj. set_status-at Settled j k (imaged pos) l.status (λ q. tt) (λ n. i.settled j lj);
        unwatched = λ j lj.
            set_status-at Unwatched j k (imaged pos) l.status (λ q. tt) (λ n. i.unwatched j lj);
        marked = i.marked;
      };
  same = f.same;
}
push_late last k pos m l le f (imaged p) e = f
push_late last k pos m l le f (watched d) e = absurd (subst Settled e (f.index.settled k le))
push_late last k pos m l le f paired e = f

pub push-Follows :
    (last k pos : ℕ) (m : Matcher) (l : Ledger)
    → Follows last m l
    → Holds (λ m'. Follows last m' (ledger_push k pos l)) (push k pos m)
unfolding push ledger_push
push-Follows last k pos m l f = elim (le-or-lt k m.matched_watermark) [
  | inl r ↦
      let e : leb k m.matched_watermark ≡ true = ground arith in
      rw (e, if◌then◌else◌) (push_late last k pos m l r f (l.status k) refl)
  | inr r ↦
      let e : leb k m.matched_watermark ≡ false = ground arith in
      rw (e, if◌then◌else◌)
        (Holds->>= (λ m'. Follows last m' (push_status k pos l (l.status k))) _ _ gc
          (rw (f.index.shown k r) (push_entry-Follows last k pos m l r f (l.status k) refl))
          (λ m' g. gc-Follows last m' _ g))
]

run-Follows :
    (last : ℕ) (cs : List Call) (m : Matcher) (l : Ledger)
    → Ordered last cs
    → Follows last m l
    → Holds (λ m'. m'.matched ≡ (ledger_run cs l).matched) (run cs m)
unfolding run ledger_run
run-Follows last [] m l o f = f.same
run-Follows last (watch_call delta k ∷ cs) m l o f =
    Holds->>= (λ m'. Follows k m' (ledger_watch delta k l)) _ _ (run cs)
      (watch-Follows last k delta m l o.0 f) (λ m' g. run-Follows k cs m' _ o.1 g)
run-Follows last (push_call k pos ∷ cs) m l o f =
    Holds->>= (λ m'. Follows last m' (ledger_push k pos l)) _ _ (run cs)
      (push-Follows last k pos m l f) (λ m' g. run-Follows last cs m' _ o g)

pub new_matcher-Follows : Follows 0 new_matcher new_ledger
new_matcher-Follows = record {
  index = record {
    above = tt;
    shown = λ k l. find_key_nil k;
    settled = λ k l. tt;
    unwatched = λ k l. tt;
    marked = omega arith;
  };
  same = refl;
}

-- Where the intentions are watched in ascending order, from above zero, any interleaving of the two
-- threads' calls runs without a failed assertion, and queues the pairs that the table without a
-- watermark queues, in the same order and with the same after images.
pub run-matched :
    (cs : List Call)
    → Ordered 0 cs
    → Holds (λ m. m.matched ≡ (ledger_run cs new_ledger).matched) (run cs new_matcher)
run-matched cs o = run-Follows 0 cs new_matcher new_ledger o new_matcher-Follows
