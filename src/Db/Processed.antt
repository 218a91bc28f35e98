-- ===== src/Db/Processed.antt =====
-- src/db/db_impl.cc: what a turn of the transaction processor makes of the database.
use mathlib.Core.Path.{subst}
use cruzdb.Prelude.{
  ℕ, ◌≤◌, ◌<◌, Bool, true, false, not, List, [], ◌∷◌, length, All, All-imp, Option, none, some,
  ◌>>=◌, assert, ◌≡◌, refl, some_injective, >>=-eq-some, Bool-cases, inl, inr, Holds, Holds-some,
  if◌then◌else◌, ltb, lt→ltb, arith,
}
use cruzdb.Slice.{Slice, SliceCompare}
use cruzdb.Dict.{Entry}
use cruzdb.Tree.Entries.{entries}
use cruzdb.Tree.Correct.{IsValid}
use cruzdb.Txn.Intention.{Intention}
use cruzdb.Txn.CommittedIndex.{limit, emplace_last, push}
use cruzdb.Txn.Zone.{IsAscending, Pushed, push-Pushed}
use cruzdb.Txn.Log.{Recorded, op_effects}
use cruzdb.Db.Finder.{Finder, notify}
use cruzdb.Db.Waiting.{notify_intention, processed}
use cruzdb.Db.Processor.{
  Processor, is_serial, notify_transaction, move_last, abort_intention, take_finished, install_root,
  commit_intention, decide, carry_out, process_intention,
}
use cruzdb.Db.Sealed.{Ready}
use cruzdb.Db.NextRoot.{with_key, AnyLocal, next_root-Ready}

emplace_last-All :
    (P : ℕ → Type 0) (p : ℕ) (xs : List ℕ) {ys : List ℕ}
    → P p
    → All P xs
    → emplace_last p xs ≡ some ys
    → All P ys
unfolding emplace_last
emplace_last-All P p [] h a e = subst (All P) (some_injective e) (h, tt)
emplace_last-All P p (x ∷ xs) {ys} h a e = elim (Bool-cases (ltb x p)) [
  | inl l ↦
      let (zs, f, g) =
        >>=-eq-some (emplace_last p xs) (λ zs. some (x ∷ zs)) {b = ys}
          (rw (l, emplace_last, if◌then◌else◌) at e) in
      subst (All P) (some_injective g) (a.0, emplace_last-All P p xs h a.1 f)
  | inr l ↦ let q : none ≡ some ys = rw (l, emplace_last, if◌then◌else◌) at e in cc
]

tail-All : (P : ℕ → Type 0) (ys : List ℕ) → All P ys → All P (elim ys [ [] ↦ [] | y ∷ r ↦ r ])
tail-All P [] a = tt
tail-All P (y ∷ ys) a = a.1

push-All :
    (P : ℕ → Type 0) (p : ℕ) (xs : List ℕ) {ys : List ℕ}
    → P p
    → All P xs
    → push p xs ≡ some ys
    → All P ys
unfolding push
push-All P p xs {ys} h a e =
    let (zs, f, g) = >>=-eq-some (emplace_last p xs) _ e in
    let b = emplace_last-All P p xs h a f in
    subst (All P) (some_injective g) (elim (Bool-cases (ltb limit (length zs))) [
      | inl l ↦ rw (l, if◌then◌else◌) (tail-All P zs b)
      | inr l ↦ rw (l, if◌then◌else◌) b
    ])

-- A tree that is valid, an index of the last committed positions, and no position ahead of the last
-- one that has been processed.
pub record IsConsistent ⦃o : SliceCompare⦄ (db : Processor) : Type 0 where
  pub valid : IsValid db.root.ref
  pub ascending : IsAscending db.committed_intentions
  pub capped : length db.committed_intentions ≤ limit
  pub indexed : All (λ p. p ≤ db.root_snapshot) db.committed_intentions
  pub current : db.root_snapshot ≤ db.waits.last_intention_processed

module _ ⦃o : SliceCompare⦄ where
  -- What an intention does to the entries of the database.
  abbrev pub outcome : Bool → ℕ → Intention → List Entry → List Entry
  outcome true p intention es = es
  outcome false p intention es = with_key p (op_effects intention.ops es)

  abbrev pub snapshot_after : Bool → ℕ → ℕ → ℕ
  snapshot_after true p snapshot = snapshot
  snapshot_after false p snapshot = p

  -- The database after a turn.
  abbrev pub After : Intention → ℕ → Bool → Finder → Processor → Processor → Type 0
  After intention p abort finder db db' =
      IsConsistent db'
      × (entries db'.root.ref ≡ outcome abort p intention (entries db.root.ref))
      × (db'.root_snapshot ≡ snapshot_after abort p db.root_snapshot)
      × (db'.waits ≡ processed p db.waits)
      × (db'.txn_finder ≡ finder)

  abort_intention-After :
      (intention : Intention) (p : ℕ) (finder : Finder) (db : Processor)
      → IsConsistent db
      → db.waits.last_intention_processed < p
      → notify intention.token p false db.txn_finder ≡ some finder
      → Holds (After intention p true finder db) (abort_intention intention p db)
  unfolding abort_intention notify_transaction move_last processed notify_intention
  abort_intention-After intention p finder db c l n =
      let cur = c.current in
      rw (n, ◌>>=◌, lt→ltb db.waits.last_intention_processed p l, assert)
        (
          record {
            valid = c.valid;
            ascending = c.ascending;
            capped = c.capped;
            indexed = c.indexed;
            current = omega arith;
          },
          refl,
          refl,
          refl,
          refl,
        )

  commit_intention-After :
      (serial : Bool) (intention : Intention) (p : ℕ) (finder : Finder) (db : Processor)
      → IsConsistent db
      → db.waits.last_intention_processed < p
      → All Recorded intention.ops
      → AnyLocal intention (entries db.root.ref) (take_finished serial p db.finished_txns).0
      → notify intention.token p true db.txn_finder ≡ some finder
      → Holds (After intention p false finder db) (commit_intention serial intention p db)
  unfolding commit_intention install_root notify_transaction move_last processed notify_intention
  commit_intention-After serial intention p finder db c l r loc n =
      let cur = c.current in
      let (ys, f, u) = Holds-some (Pushed p) (push p db.committed_intentions) (
        push-Pushed p db.committed_intentions c.ascending c.capped
          (All-imp (λ x q. omega arith) db.committed_intentions c.indexed)) in
      let at_most =
        push-All (λ x. x ≤ p) p db.committed_intentions (omega arith)
          (All-imp (λ x q. omega arith) db.committed_intentions c.indexed) f in
      let (next, g, (root, e, nn, v, es, (off, h))) =
        Holds-some (Ready (with_key p (op_effects intention.ops (entries db.root.ref)))) _ (
          next_root-Ready intention p db.root (take_finished serial p db.finished_txns).0 r c.valid
            loc) in
      rw (f, ◌>>=◌, g, h, e, nn, assert, lt→ltb db.waits.last_intention_processed p l, n)
        (
          record {
            valid = v;
            ascending = u.0;
            capped = u.1;
            indexed = at_most;
            current = omega arith;
          },
          es,
          refl,
          refl,
          refl,
        )

  -- Every turn with an intention past the last one fails no assertion, where the decision on it can be
  -- made, where a transaction's own tree, if it is used, does what the intention records, and where the
  -- finder can be notified. It keeps the database consistent. An aborted intention changes no entry; a
  -- committed one makes its operations and adds its position's key, whether it is replayed or not, and
  -- becomes the snapshot. Those who wait are notified in both cases, and the position is processed.
  pub process_intention-After :
      (lexical_cast : Slice → Option ℕ) (read_intentions : List ℕ → Option (List Intention))
      (intention : Intention) (p : ℕ) (abort : Bool) (finder : Finder) (db : Processor)
      → IsConsistent db
      → db.waits.last_intention_processed < p
      → All Recorded intention.ops
      → decide lexical_cast read_intentions intention db ≡ some abort
      → AnyLocal intention
          (entries db.root.ref)
          (take_finished (is_serial intention db) p db.finished_txns).0
      → notify intention.token p (not abort) db.txn_finder ≡ some finder
      → Holds
          (After intention p abort finder db)
          (process_intention lexical_cast read_intentions intention p db)
  unfolding process_intention carry_out
  process_intention-After lexical_cast read_intentions intention p true finder db c l r d loc n =
      let cur = c.current in
      rw (lt→ltb db.root_snapshot p (omega arith), assert, ◌>>=◌, d)
        (abort_intention-After intention p finder db c l n)
  process_intention-After lexical_cast read_intentions intention p false finder db c l r d loc n =
      let cur = c.current in
      rw (lt→ltb db.root_snapshot p (omega arith), assert, ◌>>=◌, d)
        (commit_intention-After (is_serial intention db) intention p finder db c l r loc n)
