-- ===== src/Db/Waiting.antt =====
-- src/db/db_impl.cc: `WaitOnIntention` and `NotifyIntention`, the wait for a log position to be processed.
use cruzdb.Prelude.{
  ℕ, Bool, true, false, ◌||◌, List, [], ◌∷◌, ◌++◌, none, some, leb, ◌==◌, if◌then◌else◌, ◌≡◌, ◌≢◌,
  refl, inl, inr, Bool-cases, leb→le, ◌∙◌, ◌≤◌, ◌<◌, arith, All, map,
}
use cruzdb.Prelude.Map.{
  find_key, emplace_key, Sorted, Above-Sorted, find_key-Above, find_key-emplace_self,
  emplace_key-Sorted,
}

-- The threads are numbered. `done` are those whose flag is set.
pub record Waits : Type 0 where
  pub last_intention_processed : ℕ
  pub waiting_on_log_entry : List (ℕ × ℕ)
  pub done : List ℕ

-- Whether the thread goes on at once, and the state in which it sleeps otherwise.
unfoldable pub wait_on_intention : ℕ → ℕ → Waits → Bool × Waits
wait_on_intention pos thread s =
    if leb pos s.last_intention_processed
    then (true, s)
    else (false, record s { waiting_on_log_entry = emplace_key pos thread s.waiting_on_log_entry })

-- The map on both sides of `upper_bound(pos)`
unfoldable pub split_upper : ℕ → List (ℕ × ℕ) → List (ℕ × ℕ) × List (ℕ × ℕ)
split_upper pos [] = ([], [])
split_upper pos (e ∷ es) =
    let rest = split_upper pos es in if leb e.0 pos then (e ∷ rest.0, rest.1) else ([], e ∷ es)

unfoldable pub notify_intention : ℕ → Waits → Waits
notify_intention pos s =
    let parts = split_upper pos s.waiting_on_log_entry in
    record s { waiting_on_log_entry = parts.1; done = map (λ e. e.1) parts.0 ++ s.done }

-- The end of a turn of the transaction processor: the position, and the notification.
unfoldable pub processed : ℕ → Waits → Waits
processed pos s = notify_intention pos (record s { last_intention_processed = pos })

unfoldable pub process_all : List ℕ → Waits → Waits
process_all [] s = s
process_all (pos ∷ ps) s = process_all ps (processed pos s)

abbrev pub has : ℕ → List ℕ → Bool
has t [] = false
has t (x ∷ xs) = (t == x) || has t xs

abbrev pub threads : List (ℕ × ℕ) → List ℕ
threads es = map (λ e. e.1) es

has-append : (t : ℕ) (xs ys : List ℕ) → has t (xs ++ ys) ≡ (has t xs || has t ys)
has-append t [] ys = refl
has-append t (x ∷ xs) ys = ground (arith, has-append t xs ys)

split_upper-woken :
    (k t pos : ℕ) (es : List (ℕ × ℕ))
    → Sorted es
    → find_key k es ≡ some t
    → k ≤ pos
    → has t (threads (split_upper pos es).0) ≡ true
unfolding split_upper find_key
split_upper-woken k t pos [] h f l = cc
split_upper-woken k t pos (e ∷ es) h f l =
    ground (arith, split_upper-woken k t pos es, Above-Sorted e.0 es, find_key-Above k e.0 es)

split_upper-find :
    (k pos : ℕ) (es : List (ℕ × ℕ)) → pos < k → find_key k (split_upper pos es).1 ≡ find_key k es
unfolding split_upper find_key
split_upper-find k pos [] l = refl
split_upper-find k pos (e ∷ es) l = ground (arith, split_upper-find k pos es)

split_upper-Sorted : (pos : ℕ) (es : List (ℕ × ℕ)) → Sorted es → Sorted (split_upper pos es).1
unfolding split_upper
split_upper-Sorted pos [] h = tt
split_upper-Sorted pos (e ∷ es) h = ground (arith, split_upper-Sorted pos es, Above-Sorted e.0 es)

split_upper-absent :
    (t pos : ℕ) (es : List (ℕ × ℕ))
    → has t (threads es) ≡ false
    → (has t (threads (split_upper pos es).0) ≡ false)
      × (has t (threads (split_upper pos es).1) ≡ false)
unfolding split_upper
split_upper-absent t pos [] h = (refl, refl)
split_upper-absent t pos (e ∷ es) h = ground (arith, split_upper-absent t pos es)

-- A thread waits at a position.
abbrev pub WaitsAt : ℕ → ℕ → Waits → Type 0
WaitsAt pos thread s =
    Sorted s.waiting_on_log_entry × (find_key pos s.waiting_on_log_entry ≡ some thread)

processed_before :
    (pos thread p : ℕ) (s : Waits)
    → p < pos
    → WaitsAt pos thread s
    → WaitsAt pos thread (processed p s)
unfolding processed notify_intention
processed_before pos thread p s l w = (
  split_upper-Sorted p s.waiting_on_log_entry w.0,
  split_upper-find pos p s.waiting_on_log_entry l ∙ w.1,
)

process_all_before :
    (pos thread : ℕ) (ps : List ℕ) (s : Waits)
    → All (λ p. p < pos) ps
    → WaitsAt pos thread s
    → WaitsAt pos thread (process_all ps s)
unfolding process_all
process_all_before pos thread [] s l w = w
process_all_before pos thread (p ∷ ps) s l w =
    process_all_before pos thread ps (processed p s) l.1 (processed_before pos thread p s l.0 w)

woken :
    (pos thread p : ℕ) (s : Waits)
    → pos ≤ p
    → WaitsAt pos thread s
    → has thread (processed p s).done ≡ true
unfolding processed notify_intention
woken pos thread p s l w =
    let h = split_upper-woken pos thread p s.waiting_on_log_entry w.0 w.1 l in
    has-append thread (threads (split_upper p s.waiting_on_log_entry).0) s.done ∙ rw h refl

not_first : (t x : ℕ) (b : Bool) → ((t == x) || b) ≡ false → t ≢ x
not_first t x b h = ground arith

or_false : (a b : Bool) → (a || b) ≡ false → b ≡ false
or_false a b h = ground arith

later_thread :
    (pos thread p : ℕ) (e : ℕ × ℕ)
    → p < pos
    → e.0 ≤ p
    → (thread ≡ e.1 → e.0 ≡ pos)
    → (thread == e.1) ≡ false
later_thread pos thread p e l m h = ground arith

-- The thread waits nowhere else, and its flag is not set.
abbrev pub WaitsOnly : ℕ → ℕ → List (ℕ × ℕ) → Type 0
WaitsOnly pos thread es = All (λ e. thread ≡ e.1 → e.0 ≡ pos) es

absent-WaitsOnly :
    (pos thread : ℕ) (es : List (ℕ × ℕ)) → has thread (threads es) ≡ false → WaitsOnly pos thread es
absent-WaitsOnly pos thread [] h = tt
absent-WaitsOnly pos thread (e ∷ es) h = (
  (λ q. absurd (not_first thread e.1 (has thread (threads es)) h q)),
  absent-WaitsOnly pos thread es (or_false (thread == e.1) (has thread (threads es)) h),
)

emplace_key-WaitsOnly :
    (pos thread : ℕ) (es : List (ℕ × ℕ))
    → WaitsOnly pos thread es
    → WaitsOnly pos thread (emplace_key pos thread es)
unfolding emplace_key
emplace_key-WaitsOnly pos thread [] h = ((λ q. refl), tt)
emplace_key-WaitsOnly pos thread (e ∷ es) h = ground (arith, emplace_key-WaitsOnly pos thread es)

split_upper-WaitsOnly :
    (pos thread p : ℕ) (es : List (ℕ × ℕ))
    → p < pos
    → WaitsOnly pos thread es
    → (has thread (threads (split_upper p es).0) ≡ false)
      × WaitsOnly pos thread (split_upper p es).1
unfolding split_upper
split_upper-WaitsOnly pos thread p [] l h = (refl, tt)
split_upper-WaitsOnly pos thread p (e ∷ es) l h =
    let rest = split_upper-WaitsOnly pos thread p es l h.1 in
    elim (Bool-cases (leb e.0 p)) [
      | inr z ↦ rw (z, if◌then◌else◌) (refl, h)
      | inl z ↦
          let ne : (thread == e.1) ≡ false = later_thread pos thread p e l (leb→le e.0 p z) h.0 in
          rw (z, if◌then◌else◌, ne, rest.0) (refl, rest.1)
    ]

abbrev pub Sleeps : ℕ → ℕ → Waits → Type 0
Sleeps pos thread s = WaitsOnly pos thread s.waiting_on_log_entry × (has thread s.done ≡ false)

processed-Sleeps :
    (pos thread p : ℕ) (s : Waits)
    → p < pos
    → Sleeps pos thread s
    → Sleeps pos thread (processed p s)
unfolding processed notify_intention
processed-Sleeps pos thread p s l (o, d) =
    let (n, o') = split_upper-WaitsOnly pos thread p s.waiting_on_log_entry l o in
    (
      o',
      has-append thread (threads (split_upper p s.waiting_on_log_entry).0) s.done ∙ rw (n, d) refl,
    )

process_all-Sleeps :
    (pos thread : ℕ) (ps : List ℕ) (s : Waits)
    → All (λ p. p < pos) ps
    → Sleeps pos thread s
    → Sleeps pos thread (process_all ps s)
unfolding process_all
process_all-Sleeps pos thread [] s l h = h
process_all-Sleeps pos thread (p ∷ ps) s l h =
    process_all-Sleeps pos thread ps (processed p s) l.1 (processed-Sleeps pos thread p s l.0 h)

-- A thread waits nowhere yet, its flag is not set, and it must wait for a position at which no other
-- thread waits. However many lower positions are processed, its flag is not set, so that it sleeps; it is
-- set when the first position is processed that is not lower.
pub wait_on_intention_woken :
    (pos thread p : ℕ) (ps : List ℕ) (s : Waits)
    → Sorted s.waiting_on_log_entry
    → find_key pos s.waiting_on_log_entry ≡ none
    → has thread (threads s.waiting_on_log_entry) ≡ false
    → has thread s.done ≡ false
    → s.last_intention_processed < pos
    → All (λ x. x < pos) ps
    → pos ≤ p
    → let r = wait_on_intention pos thread s in
      (r.0 ≡ false)
      × (has thread (process_all ps r.1).done ≡ false)
      × (has thread (processed p (process_all ps r.1)).done ≡ true)
unfolding wait_on_intention
wait_on_intention_woken pos thread p ps s so f n d l b g =
    let no : leb pos s.last_intention_processed ≡ false = ground arith in
    let only =
      emplace_key-WaitsOnly pos thread s.waiting_on_log_entry
        (absent-WaitsOnly pos thread s.waiting_on_log_entry n) in
    rw (no, if◌then◌else◌)
      (
        refl,
        (process_all-Sleeps pos thread ps _ b (only, d)).1,
        woken pos thread p _ g (
            process_all_before pos thread ps _ b (
              emplace_key-Sorted pos thread s.waiting_on_log_entry so,
              find_key-emplace_self pos thread s.waiting_on_log_entry f,
            )),
      )

-- The thread is nowhere: nobody will set its flag.
abbrev pub Lost : ℕ → Waits → Type 0
Lost thread s = (has thread (threads s.waiting_on_log_entry) ≡ false) × (has thread s.done ≡ false)

processed-Lost : (thread p : ℕ) (s : Waits) → Lost thread s → Lost thread (processed p s)
unfolding processed notify_intention
processed-Lost thread p s h =
    let (a, b) = split_upper-absent thread p s.waiting_on_log_entry h.0 in
    let c = h.1 in (b, has-append thread _ s.done ∙ ground arith)

process_all-Lost :
    (thread : ℕ) (ps : List ℕ) (s : Waits) → Lost thread s → Lost thread (process_all ps s)
unfolding process_all
process_all-Lost thread [] s h = h
process_all-Lost thread (p ∷ ps) s h =
    process_all-Lost thread ps (processed p s) (processed-Lost thread p s h)

emplace_old :
    (k a b : ℕ) (es : List (ℕ × ℕ)) → Sorted es → find_key k es ≡ some b → emplace_key k a es ≡ es
unfolding emplace_key find_key
emplace_old k a b [] so h = cc
emplace_old k a b (e ∷ es) so h =
    ground (arith, emplace_old k a b es, Above-Sorted e.0 es, find_key-Above k e.0 es)

-- A second thread that must wait for the position at which another one already waits is not
-- recorded: whatever positions are processed afterwards, its flag is never set.
pub wait_on_intention_unheard :
    (pos thread other : ℕ) (ps : List ℕ) (s : Waits)
    → Sorted s.waiting_on_log_entry
    → find_key pos s.waiting_on_log_entry ≡ some other
    → s.last_intention_processed < pos
    → Lost thread s
    → let r = wait_on_intention pos thread s in
      (r.0 ≡ false) × (has thread (process_all ps r.1).done ≡ false)
unfolding wait_on_intention
wait_on_intention_unheard pos thread other ps s so f l h =
    let no : leb pos s.last_intention_processed ≡ false = ground arith in
    rw (no, if◌then◌else◌, emplace_old pos thread other s.waiting_on_log_entry so f)
      (refl, (process_all-Lost thread ps s h).1)
