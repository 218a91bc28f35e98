-- ===== src/Entry/Ledger.antt =====
-- What `PrimaryAfterImageMatcher` of src/db/entry_service.cc promises: a table that forgets nothing.
use cruzdb.Prelude.{ℕ, List, [], ◌∷◌, ◌++◌, Option, none, some, ◌>>=◌, ◌==◌, if◌then◌else◌, ◌<◌}
use cruzdb.Entry.Matcher.{Tree, Matcher, watch, push}

-- What has been seen of an intention.
pub data Status : Type 0 where
  unseen : Status
  imaged : ℕ → Status
  watched : List ℕ → Status
  paired : Status

pub record Ledger : Type 0 where
  pub status : ℕ → Status
  pub matched : List (List ℕ × Tree)

abbrev pub set_status : ℕ → Status → (ℕ → Status) → ℕ → Status
set_status k s st j = if j == k then s else st j

abbrev pub new_ledger : Ledger
new_ledger = record { status = λ _. unseen; matched = [] }

abbrev pub pair_up : ℕ → List ℕ → ℕ → Ledger → Ledger
pair_up k delta pos l = record {
  status = set_status k paired l.status;
  matched = l.matched ++ (delta, record { intention = k; after_image = some pos }) ∷ [];
}

unfoldable pub watch_status : List ℕ → ℕ → Ledger → Status → Ledger
watch_status delta k l unseen = record l { status = set_status k (watched delta) l.status }
watch_status delta k l (imaged pos) = pair_up k delta pos l
watch_status delta k l _ = l

unfoldable pub ledger_watch : List ℕ → ℕ → Ledger → Ledger
ledger_watch delta k l = watch_status delta k l (l.status k)

-- The first after image counts, later ones do not.
unfoldable pub push_status : ℕ → ℕ → Ledger → Status → Ledger
push_status k pos l unseen = record l { status = set_status k (imaged pos) l.status }
push_status k pos l (watched delta) = pair_up k delta pos l
push_status k pos l _ = l

unfoldable pub ledger_push : ℕ → ℕ → Ledger → Ledger
ledger_push k pos l = push_status k pos l (l.status k)

-- The calls of the after image writer, and of the log scanner.
pub data Call : Type 0 where
  watch_call : List ℕ → ℕ → Call
  push_call : ℕ → ℕ → Call

unfoldable pub run : List Call → Matcher → Option Matcher
run [] m = some m
run (watch_call delta k ∷ cs) m =
    watch delta (record { intention = k; after_image = none }) m >>= run cs
run (push_call k pos ∷ cs) m = push k pos m >>= run cs

unfoldable pub ledger_run : List Call → Ledger → Ledger
ledger_run [] l = l
ledger_run (watch_call delta k ∷ cs) l = ledger_run cs (ledger_watch delta k l)
ledger_run (push_call k pos ∷ cs) l = ledger_run cs (ledger_push k pos l)

-- The intentions are watched in the order of the log.
abbrev pub Ordered : ℕ → List Call → Type 0
Ordered last [] = Unit
Ordered last (watch_call delta k ∷ cs) = (last < k) × Ordered k cs
Ordered last (push_call k pos ∷ cs) = Ordered last cs
