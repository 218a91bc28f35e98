-- ===== src/Db/Walk.antt =====
-- src/db/db_impl.cc: the walk of `gc` and `reachable_node_stats`, and what a collection does.
use Prim.Native.Nat.{◌*◌}
use cruzdb.Prelude.{
  ℕ, zero, suc, ◌+◌, ◌<◌, true, false, List, [], ◌∷◌, ◌++◌, append_assoc, append-nil, length, map,
  Option, none, some, ◌>>=◌, ◌≡◌, refl, sym, ◌∙◌, ap, arith, inl, inr, Option-cases, All, All-imp,
  Holds, Holds-imp, assert, ◌>>◌,
}
use cruzdb.Slice.{SliceCompare}
use cruzdb.Dict.{Entry}
use cruzdb.Node.{NodeAddress, Node, nil, node}
use cruzdb.Txn.Intention.{
  Intention, OpType, TransactionOp, is_none, check_copying, prepare, new_intention, record_copy,
}
use cruzdb.Txn.Log.{Recorded, op_effect, op_effects, Became, replay-Became}
use cruzdb.Txn.Replay.{replay}
use cruzdb.Tree.State.{PersistentTree, base_root}
use cruzdb.Tree.Entries.{entries}
use cruzdb.Tree.Correct.{IsValid}
use cruzdb.Db.Collector.{Addresses, keep_first, visit, walk, size, collect, copy_all, gc}
use cruzdb.Db.Gathered.{
  InOrder, first, insert_address, insert_all, keep_first-emplace, AllApart, Clear, Clear-next,
  length-insert_all, insert_all-InOrder, insert_all-Perm,
}
use cruzdb.Db.Requests.{read_back}
use cruzdb.Entry.Service.{log_intention, Service, serialize, append}
use mathlib.Core.List.{Perm}
use mathlib.Core.Path.{subst}

-- The pointers that the walk comes by, in its order.
unfoldable pub children : Node → List (Option NodeAddress × Node)
children nil = []
children (node c i k v la l ra r) = children l ++ (la, l) ∷ (ra, r) ∷ children r

-- Those that are left when the walk goes up to the nodes of the stack.
unfoldable pub pending : List Node → List (Option NodeAddress × Node)
pending [] = []
pending (nil ∷ stack) = []
pending (node c i k v la l ra r ∷ stack) = (la, l) ∷ (ra, r) ∷ (children r ++ pending stack)

abbrev NotNil : Node → Type 0
NotNil nil = ⊥
NotNil (node c i k v la l ra r) = Unit

-- The rounds for the nodes of the stack
unfoldable rounds : List Node → ℕ
rounds [] = 0
rounds (nil ∷ stack) = 0
rounds (node c i k v la l ra r ∷ stack) = suc (2 * size r + rounds stack)

module _ (keep : Addresses → Addresses) where
  unfoldable pub visit_all : List (Option NodeAddress × Node) → Addresses → Option Addresses
  visit_all [] addrs = some addrs
  visit_all (x ∷ xs) addrs = visit keep x.0 x.1 addrs >>= visit_all xs

  walk-visit_all :
      (fuel : ℕ) (t : Node) (stack : List Node) (addrs : Addresses)
      → All NotNil stack
      → 2 * size t + rounds stack < fuel
      → walk keep fuel t stack addrs ≡ visit_all (children t ++ pending stack) addrs
  unfolding walk visit_all children pending rounds size
  walk-visit_all zero t stack addrs h l = absurd (omega arith)
  walk-visit_all (suc fuel) nil [] addrs h l = refl
  walk-visit_all (suc fuel) nil (nil ∷ stack) addrs h l = absurd h.0
  walk-visit_all (suc fuel) nil (node c i k v la x ra r ∷ stack) addrs h l =
      elim (Option-cases (visit keep la x addrs)) [
        | inl e ↦ rw (e, ◌>>=◌) refl
        | inr (addrs', e) ↦ elim (Option-cases (visit keep ra r addrs')) [
          | inl f ↦ rw (e, ◌>>=◌, f) refl
          | inr (addrs'', f) ↦
              rw (e, ◌>>=◌, f) (walk-visit_all fuel r stack addrs'' h.1 (omega (arith, l)))
        ]
      ]
  walk-visit_all (suc fuel) (node c i k v la x ra r) stack addrs h l =
      walk-visit_all fuel x (node c i k v la x ra r ∷ stack) addrs (tt, h) (omega (arith, l))
      ∙ ap (λ z. visit_all z addrs)
          (sym (append_assoc (children x) ((la, x) ∷ (ra, r) ∷ children r) (pending stack)))

  -- The loop ends, and has come by every pointer of the tree.
  pub collect-visit_all : (root : Node) → collect keep root ≡ visit_all (children root) []
  unfolding collect rounds pending
  collect-visit_all root =
      walk-visit_all (suc (2 * size root)) root [] [] tt (omega arith)
      ∙ ap (λ z. visit_all z []) (append-nil (children root))

-- The children that are there, each with its address.
abbrev pub addressed : List (Option NodeAddress × Node) → Addresses
addressed [] = []
addressed ((a, nil) ∷ xs) = addressed xs
addressed ((none, node c i k v la l ra r) ∷ xs) = addressed xs
addressed ((some a, node c i k v la l ra r) ∷ xs) = (a, k) ∷ addressed xs

-- Every child that is there has an address.
abbrev pub Located : Option NodeAddress × Node → Type 0
Located (a, nil) = Unit
Located (none, node c i k v la l ra r) = ⊥
Located (some a, node c i k v la l ra r) = Unit

visit_all-first :
    (xs : List (Option NodeAddress × Node)) (m : Addresses)
    → All Located xs
    → AllApart (addressed xs)
    → Clear (addressed xs) m
    → visit_all keep_first xs (first 5 m) ≡ some (first 5 (insert_all (addressed xs) m))
unfolding visit_all visit insert_all
visit_all-first [] m h d f = refl
visit_all-first ((a, nil) ∷ xs) m h d f = visit_all-first xs m h.1 d f
visit_all-first ((none, node c i k v la l ra r) ∷ xs) m h d f = absurd h.0
visit_all-first ((some a, node c i k v la l ra r) ∷ xs) m h d f =
    rw (keep_first-emplace a k m (All-imp (λ x y. y.0) m f), ◌>>=◌)
      (visit_all-first xs (insert_address a k m) h.1 d.1 (Clear-next (a, k) (addressed xs) m d.0 f))

abbrev IsCopy : TransactionOp → Type 0
IsCopy op = (op.op ≡ OpType.copy) × (is_none op.val ≡ true)

copies-Recorded : (ops : List TransactionOp) → All IsCopy ops → All Recorded ops
copies-Recorded ops h = All-imp (λ op c. rw (c.0, Recorded) (c.1)) ops h

-- A copy for each address
abbrev pub copies : Addresses → List TransactionOp
copies es = map (λ e. record { op = OpType.copy; key = e.1; val = none }) es

copies-IsCopy : (es : Addresses) → All IsCopy (copies es)
copies-IsCopy [] = tt
copies-IsCopy (e ∷ es) = ((refl, refl), copies-IsCopy es)

copy_all-copies :
    (m : Addresses) (i : Intention)
    → i.pos ≡ none
    → copy_all m i ≡ some (record i { ops = i.ops ++ copies m })
unfolding copy_all record_copy
copy_all-copies [] i p = rw (append-nil i.ops) refl
copy_all-copies (e ∷ m) i p =
    let op : TransactionOp = record { op = OpType.copy; key = e.1; val = none } in
    let i' : Intention = record i { ops = i.ops ++ op ∷ []; pos = none } in
    rw (p, is_none, assert, ◌>>◌, ◌>>=◌)
      (copy_all-copies m i' refl
        ∙ ap (λ z. some (record i' { ops = z })) (append_assoc i.ops (op ∷ []) (copies m)))

check_copying-copies : (es : Addresses) → check_copying (some true) (copies es) ≡ some (some true)
unfolding check_copying
check_copying-copies [] = refl
check_copying-copies (e ∷ es) = check_copying-copies es

-- The intention of a collection
abbrev flush_of : Addresses → Intention
flush_of m = record { snapshot = 0; token = 0; flush = true; ops = copies m; pos = none }

-- An intention of copies, of which there is one, passes the checks of `Serialize`.
serialize-copies :
    (m : Addresses)
    → 0 < length m
    → serialize (record (flush_of (first 5 m)) { flush = false })
      ≡ some (log_intention (flush_of (first 5 m)), flush_of (first 5 m))
unfolding serialize prepare check_copying first
serialize-copies [] l = absurd (omega arith)
serialize-copies (e ∷ m) l = rw (check_copying-copies (first 4 m), ◌>>=◌) refl

module _ ⦃o : SliceCompare⦄ where
  copies_effects :
      (ops : List TransactionOp) (es : List Entry) → All IsCopy ops → op_effects ops es ≡ es
  unfolding op_effects op_effect
  copies_effects [] es h = refl
  copies_effects (op ∷ ops) es h =
      let e : op_effect op es ≡ es = rw (h.0.0, op_effect) refl in
      ap (op_effects ops) e ∙ copies_effects ops es h.1

  -- The intention of a collection: of the children in the order of their addresses, the first five.
  abbrev pub Collected : Node → PersistentTree → Intention → Type 0
  Collected root t i =
      (i.flush ≡ true)
      × ((all : Addresses) × InOrder all
          × Perm all (addressed (children root))
          × (i.ops ≡ copies (first 5 all)))
      × Holds (λ t'. IsValid (base_root t') × (entries (base_root t') ≡ entries (base_root t)))
          (replay i.ops t)

  -- A collection over a tree that has a child, and whose children all have addresses, at different
  -- places in the log, ends without a failed assertion, those of `Serialize` included. The entry that it
  -- appends is read back as an intention with the flush flag, which copies, of all children in the order
  -- of their addresses, the keys of the first five, and nothing else. The replay of the intention on a
  -- valid tree fails no assertion, and leaves a valid tree with the entries that it had.
  pub gc-replay :
      (root : Node) (pos : ℕ) (s : Service) (t : PersistentTree)
      → 0 < length (addressed (children root))
      → All Located (children root)
      → AllApart (addressed (children root))
      → IsValid (base_root t)
      → Holds (λ r. Holds (Collected root t) (read_back pos r.0)) (gc root pos s)
  unfolding gc new_intention append read_back first
  gc-replay root pos s t l h d v =
      let es = addressed (children root) in
      let all = insert_all es [] in
      let kept = copies (first 5 all) in
      let gathered : collect keep_first root ≡ some (first 5 all) =
        collect-visit_all keep_first root ∙ visit_all-first (children root) [] h d tt in
      let copied = copies-IsCopy (first 5 all) in
      rw
        (
          gathered,
          ◌>>=◌,
          copy_all-copies (first 5 all) (new_intention 0 0) refl,
          serialize-copies all (omega (arith, length-insert_all es [], l)),
        )
        (
          refl,
          (
            all,
            insert_all-InOrder es [] tt d tt,
            subst (Perm all) (append-nil es) (insert_all-Perm es []),
            refl,
          ),
          Holds-imp (Became (op_effects kept (entries (base_root t))) t) _ (replay kept t)
              (λ t' b. (b.0, b.1 ∙ copies_effects kept (entries (base_root t)) copied))
              (replay-Became kept t (copies-Recorded kept copied) v),
        )
