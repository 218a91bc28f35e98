-- ===== src/Db/Restored.antt =====
-- What `FindRestorePoint` of src/db/db_impl.cc finds.
use cruzdb.Prelude.{
  ℕ, zero, suc, false, [], Option, none, some, ◌==◌, if◌then◌else◌, ◌≡◌, ◌≢◌, sym, ap, ◌∙◌, ◌≤◌,
  ◌<◌, arith, Holds, Holds->>=,
}
use cruzdb.Prelude.Map.{find_key, find_key_nil}
use cruzdb.Image.Proto.{AfterImage}
use cruzdb.Entry.Service.{CacheEntry, after_image}
use cruzdb.Db.Restore.{Search, find_from, find_restore_point}
use cruzdb.Db.Knows.{Image, IsIntention, IsRestorePoint, Knows}
use cruzdb.Db.Turns.{find_turn-IsRestorePoint}

image_none : (x : ℕ × AfterImage) → some x ≢ none
image_none x h = cc

module _ (tail : ℕ) (read : ℕ → Option CacheEntry) where
  -- The search from a position at or above one that it must stop at.
  find_from-IsRestorePoint :
      (pos p q : ℕ) (a : AfterImage) (st : Search)
      → pos ≤ tail
      → ((x : ℕ) → x ≤ tail → (e : CacheEntry) × (read x ≡ some e))
      → ((b : AfterImage) → read 0 ≢ some (after_image b))
      → IsIntention tail read p
      → p < q
      → Image tail read p q a
      → p ≤ pos
      → Knows tail read (suc pos) st
      → Holds (IsRestorePoint tail read) (find_from pos read st)
  unfolding find_from
  find_from-IsRestorePoint zero p q a st b total z ip l im le w =
      let (e, h) = total 0 b in
      rw h (
        find_turn-IsRestorePoint tail read 0 st w e _ b h (λ c d. absurd (z c (h ∙ ap some d)))
          (λ st' w'. let lt = w'.passed p q a ip l im in absurd (omega arith)))
  find_from-IsRestorePoint (suc pos) p q a st b total z ip l im le w =
      let (e, h) = total (suc pos) b in
      rw h (
        find_turn-IsRestorePoint tail read (suc pos) st w e _ b h (λ c d. omega arith)
          (λ st' w'.
            let lt = w'.passed p q a ip l im in
            find_from-IsRestorePoint pos p q a st' (omega arith) total z ip l im (omega arith) w'))

  -- Where every position up to the tail has been written or filled, position zero is no after image,
  -- and some intention has an after image past it, the search returns without a failed assertion: the
  -- last such intention, with its earliest after image and the position after it for the replay, and
  -- the last intention of the log.
  pub find_restore_point-IsRestorePoint :
      (p q : ℕ) (a : AfterImage)
      → ((x : ℕ) → x ≤ tail → (e : CacheEntry) × (read x ≡ some e))
      → ((b : AfterImage) → read 0 ≢ some (after_image b))
      → IsIntention tail read p
      → p < q
      → Image tail read p q a
      → Holds (λ r. Holds (IsRestorePoint tail read) r) (find_restore_point tail read)
  unfolding find_restore_point
  find_restore_point-IsRestorePoint p q a total z ip l im =
      let ne : (tail == 0) ≡ false = let b = im.0 in ground arith in
      let b = im.0 in
      rw (ne, if◌then◌else◌)
        (Holds->>= (IsRestorePoint tail read) _ _ _
          (find_from-IsRestorePoint tail p q a
            (record { after_images = []; latest_intention = none }) (omega arith) total z ip l im
            (omega arith)
            (record {
              sorted = tt;
              found = λ k q' a' f. absurd (no_image k (q', a') f);
              missing = λ k q' a' f im'. let b' = im'.0 in omega arith;
              passed = λ p' q' a' ip' l' im'. let b' = im'.0 in omega arith;
              latest_some = λ l' e. cc;
              latest_none = λ e p' ip'. let b' = ip'.0 in omega arith;
            }))
          (λ r k. k))
    where
      no_image : (k : ℕ) (x : ℕ × AfterImage) → find_key k [] ≢ some x
      no_image k x f = image_none x (sym f ∙ find_key_nil k)
