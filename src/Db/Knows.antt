-- ===== src/Db/Knows.antt =====
-- What `FindRestorePoint` of src/db/db_impl.cc looks for, and what it knows on its way.
use cruzdb.Prelude.{ℕ, suc, Option, none, some, ◌≡◌, ◌≤◌, ◌<◌}
use cruzdb.Prelude.Map.{find_key, Sorted}
use cruzdb.Txn.Intention.{Intention}
use cruzdb.Image.Proto.{AfterImage}
use cruzdb.Entry.Service.{CacheEntry, intention, after_image}
use cruzdb.Db.Restore.{RestorePoint, Search}

module _ (tail : ℕ) (read : ℕ → Option CacheEntry) where
  -- The log has an after image of an intention at a position.
  abbrev pub Image : ℕ → ℕ → AfterImage → Type 0
  Image k q a = (q ≤ tail) × (read q ≡ some (after_image a)) × (a.intention ≡ k)

  abbrev pub IsIntention : ℕ → Type 0
  IsIntention p = (p ≤ tail) × ((i : Intention) × (read p ≡ some (intention i)))

  -- The first after image of an intention past a position.
  abbrev pub Earliest : ℕ → ℕ → ℕ → AfterImage → Type 0
  Earliest k p q a =
      (p < q) × Image k q a × ((q' : ℕ) (a' : AfterImage) → p < q' → Image k q' a' → q ≤ q')

  -- The last intention that has an after image past it, with the first such after image, and the last
  -- intention of all.
  pub record IsRestorePoint (r : RestorePoint × ℕ) : Type 0 where
    pub p : ℕ
    pub start : r.0.replay_start_pos ≡ suc p
    pub intends : IsIntention p
    pub earliest : Earliest p p r.0.after_image_pos r.0.after_image
    pub last : (p' q : ℕ) (a : AfterImage) → IsIntention p' → p' < q → Image p' q a → p' ≤ p
    pub latest : IsIntention r.1
    pub none_later : (p' : ℕ) → IsIntention p' → p' ≤ r.1

  -- What the search knows before it reads a position `pos`: all about the positions from `low` on,
  -- which is the one after it.
  pub record Knows (low : ℕ) (st : Search) : Type 0 where
    pub sorted : Sorted st.after_images
    pub found :
        (k q : ℕ) (a : AfterImage)
        → find_key k st.after_images ≡ some (q, a)
        → (low ≤ q) × Image k q a × ((q' : ℕ) (a' : AfterImage) → low ≤ q' → Image k q' a' → q ≤ q')
    pub missing :
        (k q : ℕ) (a : AfterImage) → find_key k st.after_images ≡ none → Image k q a → q < low
    pub passed : (p q : ℕ) (a : AfterImage) → IsIntention p → p < q → Image p q a → p < low
    pub latest_some :
        (l : ℕ) → st.latest_intention ≡ some l → IsIntention l × ((p : ℕ) → IsIntention p → p ≤ l)
    pub latest_none : st.latest_intention ≡ none → (p : ℕ) → IsIntention p → p < low
