-- ===== src/Db/Rendezvous.antt =====
-- src/db/db_impl.cc: a transaction and the transaction processor meet at a token, in either order.
use cruzdb.Prelude.{
  ℕ, Bool, true, List, [], ◌∷◌, Option, none, some, ◌>>=◌, ◌==◌, ◌≡◌, refl, arith, if◌then◌else◌,
  Holds,
}
use cruzdb.Prelude.Map.{find_key, find_key_head, find_key_nil, update_key_head, erase_key_head}
use cruzdb.Db.Finder.{
  Waiter, Rendezvous, Finder, new_waiter, add_token_waiter, erase_waiter, erase_token, set_position,
  wait_round, take_result, waits_for, complete_first, leave_result, notify,
}

eq_self : (n : ℕ) → (n == n) ≡ true
eq_self n = ground arith

-- The decision is there, and no trace of the token is left.
abbrev pub Decided : Bool → Finder → Option Bool × Finder → Type 0
Decided committed f r = (r.0 ≡ some committed) × (r.1.token_waiters ≡ f.token_waiters)

module _ (w token intention_pos : ℕ) (tw : List (ℕ × Rendezvous)) (wt : List (ℕ × Waiter)) where
  -- The states of a finder with one transaction at the token.
  abbrev state : List ℕ → List (ℕ × Bool) → Waiter → Finder
  state ws rs x = record {
    token_waiters = (token, record { waiters = ws; results = rs }) ∷ tw;
    waiter = (w, x) ∷ wt;
  }

  abbrev waiting : Waiter
  waiting = record new_waiter { pos = some intention_pos }

  abbrev completed : Bool → Waiter
  completed committed = record { complete = true; committed = committed; pos = some intention_pos }

  add_step :
      find_key token tw ≡ none
      → add_token_waiter w token (record { token_waiters = tw; waiter = wt })
        ≡ state (w ∷ []) [] new_waiter
  unfolding add_token_waiter
  add_step h = rw (h, add_token_waiter) refl

  position_step :
      (ws : List ℕ) (rs : List (ℕ × Bool))
      → set_position w intention_pos (state ws rs new_waiter) ≡ some (state ws rs waiting)
  unfolding set_position
  position_step ws rs = rw (find_key_head w, ◌>>=◌, update_key_head w) refl

  sleep_step :
      wait_round w token intention_pos (state (w ∷ []) [] waiting)
      ≡ some (none, state (w ∷ []) [] waiting)
  unfolding wait_round take_result find_key
  sleep_step = rw (eq_self w, eq_self token, if◌then◌else◌, ◌>>=◌) refl

  fast_step :
      (committed : Bool)
      → notify token intention_pos committed (state (w ∷ []) [] waiting)
        ≡ some (state [] [] (completed committed))
  unfolding notify waits_for complete_first
  fast_step committed =
      rw
        (
          find_key_head token,
          notify,
          find_key_head w,
          ◌>>=◌,
          eq_self intention_pos,
          update_key_head token,
          update_key_head w,
        )
        refl

  slow_step :
      (committed : Bool)
      → notify token intention_pos committed (state (w ∷ []) [] new_waiter)
        ≡ some (state (w ∷ []) ((intention_pos, committed) ∷ []) new_waiter)
  unfolding notify waits_for leave_result
  slow_step committed =
      rw
        (
          find_key_head token,
          notify,
          find_key_head w,
          ◌>>=◌,
          update_key_head token,
          find_key_nil {A = Bool} intention_pos,
        )
        refl

  erase_step :
      (x : Waiter)
      → erase_token token (state [] [] x)
        ≡ some (record { token_waiters = tw; waiter = (w, x) ∷ wt })
  unfolding erase_token
  erase_step x = rw (find_key_head token, ◌>>=◌, erase_key_head token) refl

  wake_step :
      (committed : Bool)
      → wait_round w token intention_pos (state [] [] (completed committed))
        ≡ some
            (some committed, record { token_waiters = tw; waiter = (w, completed committed) ∷ wt })
  unfolding wait_round
  wake_step committed = rw (find_key_head w, ◌>>=◌, erase_step (completed committed)) refl

  take_step :
      (committed : Bool)
      → take_result w token intention_pos (state (w ∷ []) ((intention_pos, committed) ∷ []) waiting)
        ≡ some (some committed, record { token_waiters = tw; waiter = (w, waiting) ∷ wt })
  unfolding take_result erase_waiter
  take_step committed =
      rw
        (
          find_key_head token,
          ◌>>=◌,
          find_key_head intention_pos,
          update_key_head token,
          eq_self w,
          erase_key_head intention_pos,
          erase_step waiting,
        )
        refl

  find_step :
      (committed : Bool)
      → wait_round w token intention_pos (state (w ∷ []) ((intention_pos, committed) ∷ []) waiting)
        ≡ some (some committed, record { token_waiters = tw; waiter = (w, waiting) ∷ wt })
  unfolding wait_round
  find_step committed = rw (find_key_head w, ◌>>=◌, take_step committed) refl

-- A transaction that is alone at its token and waits before its intention is processed goes to sleep;
-- the notification completes it, and the next round of its loop returns the decision and leaves
-- nothing behind at the token. No assertion fails.
pub wait_then_notify :
    (w token intention_pos : ℕ) (committed : Bool) (f : Finder)
    → find_key token f.token_waiters ≡ none
    → Holds
        (λ f'.
          (wait_round w token intention_pos f' ≡ some (none, f'))
          × Holds
              (λ f''. Holds (Decided committed f) (wait_round w token intention_pos f''))
              (notify token intention_pos committed f'))
        (set_position w intention_pos (add_token_waiter w token f))
wait_then_notify w token intention_pos committed f h =
    let tw = f.token_waiters in
    let wt = f.waiter in
    rw
      (
        add_step w token intention_pos tw wt h,
        position_step w token intention_pos tw wt (w ∷ []) [],
        fast_step w token intention_pos tw wt committed,
        wake_step w token intention_pos tw wt committed,
      )
      (sleep_step w token intention_pos tw wt, (refl, refl))

-- Where the intention of such a transaction is processed before it waits, the decision is kept at the
-- token, and the first round of its loop returns it and leaves nothing behind. No assertion fails.
pub notify_then_wait :
    (w token intention_pos : ℕ) (committed : Bool) (f : Finder)
    → find_key token f.token_waiters ≡ none
    → Holds
        (λ f'.
          Holds
            (λ f''. Holds (Decided committed f) (wait_round w token intention_pos f''))
            (set_position w intention_pos f'))
        (notify token intention_pos committed (add_token_waiter w token f))
notify_then_wait w token intention_pos committed f h =
    let tw = f.token_waiters in
    let wt = f.waiter in
    rw
      (
        add_step w token intention_pos tw wt h,
        slow_step w token intention_pos tw wt committed,
        position_step w token intention_pos tw wt (w ∷ []) ((intention_pos, committed) ∷ []),
        find_step w token intention_pos tw wt committed,
      )
      (refl, refl)
