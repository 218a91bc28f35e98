-- ===== src/Db/Finder.antt =====
-- src/db/db_impl.{h,cc}: `TransactionFinder`, where a transaction waits for the decision on its
-- intention, and the transaction processor brings it.
use cruzdb.Prelude.{
  ℕ, Bool, true, false, ◌&&◌, List, [], ◌∷◌, ◌++◌, Option, none, some, ◌>>=◌, ◌>>◌, assert, ◌==◌,
  if◌then◌else◌,
}
use cruzdb.Prelude.Map.{find_key, update_key, erase_key}
use cruzdb.Txn.Intention.{is_none}

pub record Waiter : Type 0 where
  pub complete : Bool
  pub committed : Bool
  pub pos : Option ℕ

-- The waiters are named by numbers, which stand for their addresses.
pub record Rendezvous : Type 0 where
  pub waiters : List ℕ
  pub results : List (ℕ × Bool)

-- `token_waiters`, and the waiters that are on the stacks of the waiting threads.
pub record Finder : Type 0 where
  pub token_waiters : List (ℕ × Rendezvous)
  pub waiter : List (ℕ × Waiter)

abbrev pub new_waiter : Waiter
new_waiter = record { complete = false; committed = false; pos = none }

-- `AddTokenWaiter`, for a waiter that has just been constructed.
unfoldable pub add_token_waiter : ℕ → ℕ → Finder → Finder
add_token_waiter w token f =
    let waiter = (w, new_waiter) ∷ f.waiter in
    elim (find_key token f.token_waiters) [
      | none ↦ record {
        token_waiters = (token, record { waiters = w ∷ []; results = [] }) ∷ f.token_waiters;
        waiter = waiter;
      }
      | some r ↦ record {
        token_waiters =
            update_key token (record r { waiters = r.waiters ++ w ∷ [] }) f.token_waiters;
        waiter = waiter;
      }
    ]

-- `list.erase` of the waiter
unfoldable pub erase_waiter : ℕ → List ℕ → List ℕ
erase_waiter w [] = []
erase_waiter w (x ∷ xs) = let rest = erase_waiter w xs in if w == x then xs else x ∷ rest

abbrev is_empty {ℓ} : {A : Type ℓ} → List A → Bool
is_empty [] = true
is_empty (_ ∷ _) = false

-- The end of `WaitOnTransaction`: an entry of a token without waiters and results is erased. The
-- entry must still be there, since the waiter holds an iterator to it.
unfoldable pub erase_token : ℕ → Finder → Option Finder
erase_token token f = find_key token f.token_waiters >>= λ r. some (record f {
  token_waiters =
      if is_empty r.waiters && is_empty r.results
      then erase_key token f.token_waiters
      else f.token_waiters;
})

-- The start of `WaitOnTransaction`
unfoldable pub set_position : ℕ → ℕ → Finder → Option Finder
set_position w intention_pos f = do
  x ← find_key w f.waiter
  assert (is_none x.pos)
  some (record f { waiter = update_key w (record x { pos = some intention_pos }) f.waiter })

-- The slow path: the result, where it has been left.
unfoldable pub take_result : ℕ → ℕ → ℕ → Finder → Option (Option Bool × Finder)
take_result w token intention_pos f = find_key token f.token_waiters >>= λ r.
    elim (find_key intention_pos r.results) [
      | none ↦ some (none, f)
      | some committed ↦
          erase_token token (record f {
            token_waiters =
                update_key token
                  (record {
                    waiters = erase_waiter w r.waiters;
                    results = erase_key intention_pos r.results;
                  })
                  f.token_waiters;
          })
          >>= λ f'. some (some committed, f')
    ]

-- One round of the loop of `WaitOnTransaction`, with its end; without a decision the thread sleeps.
unfoldable pub wait_round : ℕ → ℕ → ℕ → Finder → Option (Option Bool × Finder)
wait_round w token intention_pos f = do
  x ← find_key w f.waiter
  let slow = take_result w token intention_pos f
  if x.complete then (erase_token token f >>= λ f'. some (some x.committed, f')) else slow

-- `fw->pos && fw->pos == intention_pos`
unfoldable pub waits_for : ℕ → Waiter → Bool
waits_for intention_pos x = elim x.pos [ none ↦ false | some p ↦ p == intention_pos ]

-- The two paths of `Notify`, at the first waiter of the token
unfoldable pub complete_first : ℕ → Rendezvous → ℕ → List ℕ → Waiter → Bool → Finder → Finder
complete_first token r w ws x committed f = record {
  token_waiters = update_key token (record r { waiters = ws }) f.token_waiters;
  waiter = update_key w (record x { complete = true; committed = committed }) f.waiter;
}

unfoldable pub leave_result : ℕ → Rendezvous → ℕ → Bool → Finder → Option Finder
leave_result token r intention_pos committed f = do
  assert (is_none (find_key intention_pos r.results))
  some (record f {
    token_waiters =
        update_key token (record r { results = (intention_pos, committed) ∷ r.results })
          f.token_waiters;
  })

-- `Notify`. The waiters that it wakes up run another round.
unfoldable pub notify : ℕ → ℕ → Bool → Finder → Option Finder
notify token intention_pos committed f = elim (find_key token f.token_waiters) [
  | none ↦ some f
  | some r ↦ elim r.waiters [
    | [] ↦ none
    | w ∷ ws ↦ find_key w f.waiter >>= λ x.
        if waits_for intention_pos x
        then some (complete_first token r w ws x committed f)
        else leave_result token r intention_pos committed f
  ]
]
