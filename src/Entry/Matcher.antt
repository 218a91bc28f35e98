-- ===== src/Entry/Matcher.antt =====
-- src/db/entry_service.{h,cc}: `PrimaryAfterImageMatcher`, which gives every committed intention the
-- position of the first after image that the log has for it.
use cruzdb.Prelude.{
  ℕ, Bool, true, false, ◌&&◌, List, [], ◌∷◌, ◌++◌, Option, none, some, ◌>>=◌, ◌>>◌, assert, ltb,
  leb, ◌==◌, if◌then◌else◌,
}
use cruzdb.Prelude.Map.{find_key, update_key, emplace_key}
use cruzdb.Txn.Intention.{is_none}

-- What the matcher reads and sets of a `PersistentTree`: `intention_` and `afterimage_`.
pub record Tree : Type 0 where
  pub intention : ℕ
  pub after_image : Option ℕ

-- The nodes of a delta are named by numbers, which stand for their addresses.
pub record PrimaryAfterImage : Type 0 where
  pub pos : Option ℕ
  pub tree : Option Tree
  pub delta : List ℕ

pub record Matcher : Type 0 where
  pub shutdown : Bool
  pub matched_watermark : ℕ
  pub after_images : List (ℕ × PrimaryAfterImage)
  pub matched : List (List ℕ × Tree)

abbrev pub new_matcher : Matcher
new_matcher = record { shutdown = false; matched_watermark = 0; after_images = []; matched = [] }

-- `SetAfterImage`
unfoldable pub set_after_image : ℕ → Tree → Option Tree
set_after_image pos t = assert (is_none t.after_image) >> some (record t { after_image = some pos })

-- `!pai.pos && !pai.tree`
abbrev pub is_matched : PrimaryAfterImage → Bool
is_matched e = is_none e.pos && is_none e.tree

-- The loop of `gc`, on the watermark and the index.
unfoldable pub gc_loop :
    ℕ → List (ℕ × PrimaryAfterImage) → Option (ℕ × List (ℕ × PrimaryAfterImage))
gc_loop watermark [] = some (watermark, [])
gc_loop watermark (e ∷ es) =
    let rest = gc_loop e.0 es in
    assert (ltb watermark e.0) >> (if is_matched e.1 then rest else some (watermark, e ∷ es))

unfoldable pub gc : Matcher → Option Matcher
gc m = gc_loop m.matched_watermark m.after_images >>= λ r.
    some (record m { matched_watermark = r.0; after_images = r.1 })

-- A pair that is matched leaves an empty entry behind, and is queued.
abbrev pub finish_match : List ℕ → Tree → Matcher → Matcher
finish_match delta t m = record m {
  after_images =
      update_key t.intention (record { pos = none; tree = none; delta = [] }) m.after_images;
  matched = m.matched ++ (delta, t) ∷ [];
}

-- The entry that `watch` finds, and what it makes of it.
unfoldable pub watch_entry : List ℕ → Tree → Matcher → Option PrimaryAfterImage → Option Matcher
watch_entry delta t m none = some (record m {
  after_images =
      emplace_key t.intention (record { pos = none; tree = some t; delta = delta }) m.after_images;
})
watch_entry delta t m (some e) = e.pos >>= λ pos.
    assert (is_none e.tree) >> (set_after_image pos t >>= λ t'. some (finish_match delta t' m))

unfoldable pub watch : List ℕ → Tree → Matcher → Option Matcher
watch delta t m = watch_entry delta t m (find_key t.intention m.after_images) >>= gc

-- The entry that `push` finds
unfoldable pub push_entry : ℕ → ℕ → Matcher → Option PrimaryAfterImage → Option Matcher
push_entry intention pos m none = some (record m {
  after_images =
      emplace_key intention (record { pos = some pos; tree = none; delta = [] }) m.after_images;
})
push_entry intention pos m (some e) =
    if is_none e.pos
    then elim e.tree [
      | none ↦ some m
      | some t ↦
          assert (t.intention == intention)
          >> (set_after_image pos t >>= λ t'. some (finish_match e.delta t' m))
    ]
    else some m

unfoldable pub push : ℕ → ℕ → Matcher → Option Matcher
push intention pos m =
    if leb intention m.matched_watermark
    then some m
    else push_entry intention pos m (find_key intention m.after_images) >>= gc

-- `match`, where it does not wait: `none` is a call that goes on waiting.
unfoldable pub match_next : Matcher → Option (Option (List ℕ × Tree) × Matcher)
match_next m =
    if m.shutdown
    then some (none, m)
    else elim m.matched [ [] ↦ none | t ∷ ts ↦ some (some t, record m { matched = ts }) ]

unfoldable pub shutdown : Matcher → Matcher
shutdown m = record m { shutdown = true }
