-- ===== src/Tests/Threads.antt =====
-- Runs of the restore, the transaction finder, and the waits for a position.
use cruzdb.Prelude.{
  ℕ, true, false, [], ◌∷◌, Option, none, some, ◌≡◌, refl, Holds, arith, ◌==◌, if◌then◌else◌,
}
use cruzdb.Prelude.Map.{find_key, update_key, emplace_key, erase_key}
use cruzdb.Txn.Intention.{Intention, new_intention}
use cruzdb.Image.Proto.{AfterImage}
use cruzdb.Entry.Service.{CacheEntry, intention, after_image, filled}
use cruzdb.Db.Finder.{
  Finder, new_waiter, add_token_waiter, erase_waiter, erase_token, set_position, take_result,
  wait_round, waits_for, complete_first, leave_result, notify,
}
use cruzdb.Db.Rendezvous.{Decided, notify_then_wait}
use cruzdb.Db.Restore.{
  note_image, note_intention, restore_at, find_turn, find_from, find_restore_point,
}
use cruzdb.Db.Knows.{IsRestorePoint}
use cruzdb.Db.Restored.{find_restore_point-IsRestorePoint}
use cruzdb.Db.Waiting.{
  Waits, wait_on_intention, split_upper, notify_intention, processed, process_all, has, threads,
  wait_on_intention_woken, wait_on_intention_unheard,
}

program : Unit {0}
unfolding find_key update_key emplace_key erase_key new_intention add_token_waiter erase_waiter
    erase_token set_position take_result wait_round waits_for complete_first leave_result notify
    note_image note_intention restore_at find_turn find_from find_restore_point wait_on_intention
    split_upper notify_intention processed process_all
program = tt

-- Another transaction of the same process waits at the token 1.
abbrev finder : Finder
finder = record {
  token_waiters = (1, record { waiters = 5 ∷ []; results = [] }) ∷ [];
  waiter = (5, record new_waiter { pos = some 8 }) ∷ [];
}

no_token : find_key 2 finder.token_waiters ≡ none
unfolding program
no_token = refl

notify_then_wait_example :
    Holds
      (λ f'.
        Holds (λ f''. Holds (Decided false finder) (wait_round 6 2 9 f'')) (set_position 6 9 f'))
      (notify 2 9 false (add_token_waiter 6 2 finder))
notify_then_wait_example = notify_then_wait 6 2 9 false finder no_token

-- The log has an intention at 2, two after images of it at 3 and 5, an intention at 4, and a filled
-- position at 1.
abbrev image : AfterImage
image = record { intention = 2; tree = [] }

abbrev written : Intention
written = record { snapshot = 0; token = 0; flush = false; ops = []; pos = some 2 }

abbrev entry : ℕ → CacheEntry
entry p =
    if p == 2
    then intention written
    else if p == 4
    then intention written
    else if p == 3
    then after_image image
    else if p == 5
    then after_image image
    else filled

abbrev read : ℕ → Option CacheEntry
read p = some (entry p)

restored :
    find_restore_point 5 read
    ≡ some (some (record { replay_start_pos = 3; after_image_pos = 3; after_image = image }, 4))
unfolding program
restored = refl

find_restore_point-IsRestorePoint_example :
    Holds (λ r. Holds (IsRestorePoint 5 read) r) (find_restore_point 5 read)
find_restore_point-IsRestorePoint_example =
    find_restore_point-IsRestorePoint 5 read 2 5 image (λ x l. (entry x, refl)) (λ b e. cc)
      (omega arith, (written, refl)) (omega arith) (omega arith, refl, refl)

abbrev waits : Waits
waits = record { last_intention_processed = 2; waiting_on_log_entry = (6, 1) ∷ []; done = [] }

waits-none : find_key 4 waits.waiting_on_log_entry ≡ none
unfolding program
waits-none = refl

waits-some : find_key 6 waits.waiting_on_log_entry ≡ some 1
unfolding program
waits-some = refl

waits-absent : has 2 (threads waits.waiting_on_log_entry) ≡ false
unfolding program
waits-absent = refl

waits-not_done : has 2 waits.done ≡ false
unfolding program
waits-not_done = refl

wait_on_intention_woken_example :
    let r = wait_on_intention 4 2 waits in
    (r.0 ≡ false)
    × (has 2 (process_all (3 ∷ []) r.1).done ≡ false)
    × (has 2 (processed 5 (process_all (3 ∷ []) r.1)).done ≡ true)
wait_on_intention_woken_example =
    wait_on_intention_woken 4 2 5 (3 ∷ []) waits tt waits-none waits-absent waits-not_done
      (omega arith) (omega arith, tt) (omega arith)

wait_on_intention_unheard_example :
    let r = wait_on_intention 6 2 waits in
    (r.0 ≡ false) × (has 2 (process_all (5 ∷ 6 ∷ 7 ∷ []) r.1).done ≡ false)
wait_on_intention_unheard_example =
    wait_on_intention_unheard 6 2 1 (5 ∷ 6 ∷ 7 ∷ []) waits tt waits-some (omega arith) (refl, refl)
