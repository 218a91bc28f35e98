-- ===== src/Db/Restore.antt =====
-- src/db/db_impl.{h,cc}: `FindRestorePoint`, which looks from the end of the log for an intention
-- whose after image is in the log.
use cruzdb.Prelude.{
  ℕ, zero, suc, List, [], Option, none, some, ◌>>=◌, ◌>>◌, assert, ltb, ◌==◌, if◌then◌else◌,
}
use cruzdb.Prelude.Map.{find_key, emplace_key, erase_key}
use cruzdb.Txn.Intention.{is_none}
use cruzdb.Image.Proto.{AfterImage}
use cruzdb.Entry.Service.{CacheEntry, intention, after_image, filled}

pub record RestorePoint : Type 0 where
  pub replay_start_pos : ℕ
  pub after_image_pos : ℕ
  pub after_image : AfterImage

-- `after_images`, and `latest_intention` where it is set.
pub record Search : Type 0 where
  pub after_images : List (ℕ × (ℕ × AfterImage))
  pub latest_intention : Option ℕ

-- The oldest version of an after image is the one that is met last.
unfoldable pub note_image : ℕ → AfterImage → Search → Option Search
note_image pos ai st = do
  assert (ltb 0 pos)
  let after_images = erase_key ai.intention st.after_images
  assert (is_none (find_key ai.intention after_images))
  some (record st { after_images = emplace_key ai.intention (pos, ai) after_images })

unfoldable pub note_intention : ℕ → Search → Search
note_intention pos st = record st {
  latest_intention = elim st.latest_intention [ none ↦ some pos | some p ↦ some p ];
}

-- Where an intention has an after image: the restore point, and the latest intention.
unfoldable pub restore_at : ℕ → ℕ × AfterImage → Search → Option (RestorePoint × ℕ)
restore_at pos e st = do
  assert (pos == e.1.intention)
  latest ← st.latest_intention
  some (record { replay_start_pos = suc pos; after_image_pos = e.0; after_image = e.1 }, latest)

-- One turn of the loop, at a position and the entry that was read there, and the turns after it.
unfoldable pub find_turn :
    ℕ
    → Option CacheEntry
    → Search
    → (Search → Option (RestorePoint × ℕ))
    → Option (RestorePoint × ℕ)
find_turn pos none st next = none
find_turn pos (some (intention i)) st next = elim (find_key pos st.after_images) [
  | some e ↦ restore_at pos e (note_intention pos st)
  | none ↦ next (note_intention pos st)
]
find_turn pos (some (after_image ai)) st next = note_image pos ai st >>= next
find_turn pos (some filled) st next = next st

-- The loop, from a position down. Below position zero the program's position wraps around, and `Read`
-- waits there; here nothing is found.
unfoldable pub find_from : ℕ → (ℕ → Option CacheEntry) → Search → Option (RestorePoint × ℕ)
find_from zero read st = find_turn 0 (read 0) st (λ st'. none)
find_from (suc pos) read st =
    find_turn (suc pos) (read (suc pos)) st (λ st'. find_from pos read st')

-- `none` within is `-EINVAL`: the log is empty.
unfoldable pub find_restore_point : ℕ → (ℕ → Option CacheEntry) → Option (Option (RestorePoint × ℕ))
find_restore_point tail read =
    if tail == 0
    then some none
    else find_from tail read (record { after_images = []; latest_intention = none }) >>= λ r.
        some (some r)
