-- ===== src/Db/Collector.antt =====
-- src/db/db_impl.cc: `gc` and `reachable_node_stats`, with the walk over the tree that both make.
use Prim.Native.Nat.{◌*◌}
use cruzdb.Prelude.{
  ℕ, zero, suc, ◌+◌, List, [], ◌∷◌, length, Option, none, some, ◌>>=◌, ltb, if◌then◌else◌,
}
use cruzdb.Prelude.Map.{find_key, update_key}
use cruzdb.Slice.{Slice}
use cruzdb.Node.{NodeAddress, address_lt, Node, nil, node}
use cruzdb.Image.Proto.{AfterImage}
use cruzdb.Txn.Intention.{Intention, new_intention, record_copy}
use cruzdb.Entry.Service.{LogEntry, Service, append}

-- `std::map` from addresses to keys, in the order of the addresses.
abbrev pub Addresses : Type 0
Addresses = List (NodeAddress × Slice)

-- `emplace`, which must find the address new.
unfoldable pub emplace_address : NodeAddress → Slice → Addresses → Option Addresses
emplace_address a k [] = some ((a, k) ∷ [])
emplace_address a k (e ∷ es) =
    let rest = emplace_address a k es >>= λ es'. some (e ∷ es') in
    if address_lt a e.0 then some ((a, k) ∷ e ∷ es) else if address_lt e.0 a then rest else none

-- `addrs.erase(--addrs.end())`
unfoldable pub drop_last : Addresses → Addresses
drop_last [] = []
drop_last (e ∷ []) = []
drop_last (e ∷ f ∷ es) = e ∷ drop_last (f ∷ es)

-- `gc` keeps the first five addresses, and `reachable_node_stats` keeps all of them.
unfoldable pub keep_first : Addresses → Addresses
keep_first addrs = if ltb 5 (length addrs) then drop_last addrs else addrs

abbrev pub keep_all : Addresses → Addresses
keep_all addrs = addrs

module _ (keep : Addresses → Addresses) where
  -- A child of the node that the walk is at.
  unfoldable pub visit : Option NodeAddress → Node → Addresses → Option Addresses
  visit a nil addrs = some addrs
  visit a (node c i k v la l ra r) addrs =
      a >>= λ addr. emplace_address addr k addrs >>= λ addrs'. some (keep addrs')

  -- The loop, on fuel
  unfoldable pub walk : ℕ → Node → List Node → Addresses → Option Addresses
  walk zero n stack addrs = none
  walk (suc fuel) (node c i k v la l ra r) stack addrs =
      walk fuel l (node c i k v la l ra r ∷ stack) addrs
  walk (suc fuel) nil [] addrs = some addrs
  walk (suc fuel) nil (nil ∷ stack) addrs = none
  walk (suc fuel) nil (node c i k v la l ra r ∷ stack) addrs =
      visit la l addrs >>= λ addrs'. visit ra r addrs' >>= λ addrs''. walk fuel r stack addrs''

unfoldable pub size : Node → ℕ
size nil = 0
size (node c i k v la l ra r) = suc (size l + size r)

-- Two rounds for each node, and one, are enough.
unfoldable pub collect : (Addresses → Addresses) → Node → Option Addresses
collect keep root = walk keep (suc (2 * size root)) root [] []

-- The copies of `gc`, for the intention that it appends to the log.
unfoldable pub copy_all : Addresses → Intention → Option Intention
copy_all [] flush = some flush
copy_all (e ∷ es) flush = record_copy e.1 flush >>= copy_all es

-- `gc`, up to the loop of its wait; the log puts the intention at a position.
unfoldable pub gc : Node → ℕ → Service → Option (LogEntry × Service)
gc root pos s = do
  addrs ← collect keep_first root
  flush ← copy_all addrs (new_intention 0 0)
  append pos flush s

-- The table of `reachable_node_stats`: the nodes of an after image, and those that are reachable.
unfoldable pub add_usage :
    (NodeAddress → Option ℕ)
    → (ℕ → Option AfterImage)
    → Addresses
    → List (ℕ × (ℕ × ℕ))
    → Option (List (ℕ × (ℕ × ℕ)))
add_usage position read_after_image [] usage = some usage
add_usage position read_after_image (e ∷ es) usage = position e.0 >>= λ p. elim (find_key p usage) [
  | some u ↦ add_usage position read_after_image es (update_key p (u.0, suc u.1) usage)
  | none ↦ read_after_image p >>= λ image.
      add_usage position read_after_image es ((p, (length image.tree, 1)) ∷ usage)
]

unfoldable pub reachable_node_stats :
    (NodeAddress → Option ℕ) → (ℕ → Option AfterImage) → Node → Option (List (ℕ × (ℕ × ℕ)))
reachable_node_stats position read_after_image root =
    collect keep_all root >>= λ addrs. add_usage position read_after_image addrs []
