-- ===== src/Txn/Conflict.antt =====
-- src/db/db_impl.cc: the decision of `ProcessConcurrentIntention`.
use cruzdb.Prelude.{
  Bool, true, false, ◌&&◌, ◌||◌, List, [], ◌∷◌, ◌≡◌, ◌≢◌, ◌↔◌, ◌⊎◌, inl, inr, refl, ◌==◌, arith,
}
use cruzdb.Slice.{Slice}
use cruzdb.Txn.Intention.{Intention, TransactionOp, OpType, is_update, op_keys, update_op_keys}

-- `operator==` of `std::string`
unfoldable pub slice_eq : Slice → Slice → Bool
slice_eq [] [] = true
slice_eq (x ∷ xs) (y ∷ ys) = let rest = slice_eq xs ys in x == y && rest
slice_eq _ _ = false

-- `keys.find(k) != keys.end()`
unfoldable pub find : Slice → List Slice → Bool
find k [] = false
find k (j ∷ js) = let rest = find k js in slice_eq k j || rest

-- The inner loop: some key of the intention is updated by the other one.
unfoldable pub intersects : List Slice → List Slice → Bool
intersects [] other = false
intersects (k ∷ ks) other = let rest = intersects ks other in find k other || rest

-- The outer loop, over the intentions in the conflict zone: `true` is the decision to abort.
unfoldable pub conflicts : List Slice → List Intention → Bool
conflicts keys [] = false
conflicts keys (other ∷ others) =
    let rest = conflicts keys others in intersects keys (update_op_keys other.ops) || rest

unfoldable pub must_abort : Intention → List Intention → Bool
must_abort intention others = conflicts (op_keys intention.ops) others

slice_eq_refl : (a : Slice) → slice_eq a a ≡ true
unfolding slice_eq
slice_eq_refl [] = refl
slice_eq_refl (x ∷ xs) = ground (arith, slice_eq_refl xs)

pub eq_of_slice_eq : (a b : Slice) → slice_eq a b ≡ true → a ≡ b
unfolding slice_eq
eq_of_slice_eq [] [] h = refl
eq_of_slice_eq [] (y ∷ ys) h = cc
eq_of_slice_eq (x ∷ xs) [] h = cc
eq_of_slice_eq (x ∷ xs) (y ∷ ys) h = grind (arith, eq_of_slice_eq xs ys)

-- A key of a list.
abbrev pub In : Slice → List Slice → Type 0
In k [] = ⊥
In k (j ∷ js) = (k ≡ j) ⊎ In k js

-- Some element has the property.
abbrev pub Some : {A : Type 0} → (A → Type 0) → List A → Type 0
Some P [] = ⊥
Some P (x ∷ xs) = P x ⊎ Some P xs

abbrev pub Names : Slice → TransactionOp → Type 0
Names k op = k ≡ op.key

-- A put or a delete of the key
abbrev pub Changes : Slice → TransactionOp → Type 0
Changes k op = ((op.op ≡ OpType.put) ⊎ (op.op ≡ OpType.delete)) × (k ≡ op.key)

-- Some intention puts or deletes a key that an operation of the list names.
abbrev pub Shares : List TransactionOp → List Intention → Type 0
Shares ops others =
    Some (λ other. (k : Slice) × Some (Names k) ops × Some (Changes k) other.ops) others

or_true : (a b : Bool) → (a || b) ≡ true → (a ≡ true) ⊎ (b ≡ true)
or_true true b h = inl refl
or_true false b h = inr h

find-In : (k : Slice) (js : List Slice) → find k js ≡ true → In k js
unfolding find
find-In k [] h = cc
find-In k (j ∷ js) h = elim (or_true (slice_eq k j) (find k js) h) [
  | inl e ↦ inl (eq_of_slice_eq k j e)
  | inr e ↦ inr (find-In k js e)
]

In-find : (k : Slice) (js : List Slice) → In k js → find k js ≡ true
unfolding find
In-find k [] h = absurd h
In-find k (j ∷ js) (inl e) = rw e (ground (arith, slice_eq_refl j))
In-find k (j ∷ js) (inr i) = ground (arith, In-find k js i)

intersects-In : (ks js : List Slice) → intersects ks js ≡ true → (k : Slice) × In k ks × In k js
unfolding intersects
intersects-In [] js h = cc
intersects-In (k ∷ ks) js h = elim (or_true (find k js) (intersects ks js) h) [
  | inl e ↦ (k, inl refl, find-In k js e)
  | inr e ↦ let x = intersects-In ks js e in (x.0, inr x.1, x.2)
]

In-intersects : (k : Slice) (ks js : List Slice) → In k ks → In k js → intersects ks js ≡ true
unfolding intersects
In-intersects k [] js h i = absurd h
In-intersects k (j ∷ ks) js (inl e) i = ground (arith, In-find j js (rw e at i))
In-intersects k (j ∷ ks) js (inr h) i = ground (arith, In-intersects k ks js h i)

In-Names : (k : Slice) (ops : List TransactionOp) → In k (op_keys ops) → Some (Names k) ops
unfolding op_keys
In-Names k [] h = h
In-Names k (op ∷ ops) (inl e) = inl e
In-Names k (op ∷ ops) (inr h) = inr (In-Names k ops h)

Names-In : (k : Slice) (ops : List TransactionOp) → Some (Names k) ops → In k (op_keys ops)
unfolding op_keys
Names-In k [] h = h
Names-In k (op ∷ ops) (inl e) = inl e
Names-In k (op ∷ ops) (inr h) = inr (Names-In k ops h)

update_cases :
    (ty : OpType)
    → ((is_update ty ≡ true) × ((ty ≡ OpType.put) ⊎ (ty ≡ OpType.delete)))
      ⊎ ((is_update ty ≡ false) × (ty ≢ OpType.put) × (ty ≢ OpType.delete))
update_cases OpType.get = inr (refl, (λ e. cc), (λ e. cc))
update_cases OpType.put = inl (refl, inl refl)
update_cases OpType.delete = inl (refl, inr refl)
update_cases OpType.copy = inr (refl, (λ e. cc), (λ e. cc))

In-Changes :
    (k : Slice) (ops : List TransactionOp) → In k (update_op_keys ops) → Some (Changes k) ops
unfolding update_op_keys
In-Changes k [] h = h
In-Changes k (op ∷ ops) h = elim (update_cases op.op) [
  | inr (e, _, _) ↦ inr (In-Changes k ops (rw (e, update_op_keys) at h))
  | inl (e, t) ↦
      let g : In k (op.key ∷ update_op_keys ops) = rw (e, update_op_keys) at h in
      elim g [ inl q ↦ inl (t, q) | inr r ↦ inr (In-Changes k ops r) ]
]

Changes-In :
    (k : Slice) (ops : List TransactionOp) → Some (Changes k) ops → In k (update_op_keys ops)
unfolding update_op_keys
Changes-In k [] h = h
Changes-In k (op ∷ ops) h = elim (update_cases op.op) [
  | inl (e, _) ↦
      let g : In k (op.key ∷ update_op_keys ops) = elim h [
        | inl c ↦ inl c.1
        | inr r ↦ inr (Changes-In k ops r)
      ] in
      rw (e, update_op_keys) g
  | inr (e, p, d) ↦
      let g : In k (update_op_keys ops) = elim h [
        | inl c ↦ absurd (elim (c.0) [ inl q ↦ p q | inr q ↦ d q ])
        | inr r ↦ Changes-In k ops r
      ] in
      rw (e, update_op_keys) g
]

conflicts-Shares :
    (ops : List TransactionOp) (others : List Intention)
    → conflicts (op_keys ops) others ≡ true
    → Shares ops others
unfolding conflicts
conflicts-Shares ops [] h = cc
conflicts-Shares ops (i ∷ is) h =
    elim (or_true (intersects (op_keys ops) (update_op_keys i.ops)) (conflicts (op_keys ops) is)
      h) [
        | inl e ↦
            let (k, a, b) = intersects-In (op_keys ops) (update_op_keys i.ops) e in
            inl (k, In-Names k ops a, In-Changes k i.ops b)
        | inr e ↦ inr (conflicts-Shares ops is e)
      ]

Shares-conflicts :
    (ops : List TransactionOp) (others : List Intention)
    → Shares ops others
    → conflicts (op_keys ops) others ≡ true
unfolding conflicts
Shares-conflicts ops [] h = absurd h
Shares-conflicts ops (i ∷ is) (inl (k, a, b)) =
    let found =
      In-intersects k (op_keys ops) (update_op_keys i.ops) (Names-In k ops a)
        (Changes-In k i.ops b) in
    ground arith
Shares-conflicts ops (i ∷ is) (inr h) = ground (arith, Shares-conflicts ops is h)

-- An intention is aborted exactly when one of the intentions in the conflict zone puts or deletes a
-- key that it reads, puts, deletes or copies, the keys compared as they are recorded.
pub must_abort-Shares :
    (intention : Intention) (others : List Intention)
    → (must_abort intention others ≡ true) ↔ Shares intention.ops others
unfolding must_abort
must_abort-Shares intention others =
    (conflicts-Shares intention.ops others, Shares-conflicts intention.ops others)
