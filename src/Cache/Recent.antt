-- ===== src/Cache/Recent.antt =====
-- src/db/node_cache.h: facts about the list of recent use.
use cruzdb.Prelude.{ℕ, List, [], ◌∷◌, none, some, ◌≤◌, ◌<◌, ◌≡◌, refl, arith}
use cruzdb.Prelude.Map.{find_key, erase_key}
use cruzdb.Cache.Shard.{Key, back, pop_back}

-- The numbers of the elements descend, below a bound.
abbrev pub Falling : ℕ → List (ℕ × Key) → Type 0
Falling b [] = Unit
Falling b (c ∷ cs) = (c.0 < b) × Falling c.0 cs

pub Falling-le : (b c : ℕ) (cs : List (ℕ × Key)) → b ≤ c → Falling b cs → Falling c cs
Falling-le b c [] l h = tt
Falling-le b c (x ∷ cs) l h = (omega arith, h.1)

pub find_key-Falling : (i b : ℕ) (cs : List (ℕ × Key)) → b ≤ i → Falling b cs → find_key i cs ≡ none
unfolding find_key
find_key-Falling i b [] l h = refl
find_key-Falling i b (c ∷ cs) l h =
    let lt = h.0 in let rest = find_key-Falling i c.0 cs (omega arith) h.1 in ground arith

pub erase_key-Falling : (b i : ℕ) (cs : List (ℕ × Key)) → Falling b cs → Falling b (erase_key i cs)
unfolding erase_key
erase_key-Falling b i [] h = tt
erase_key-Falling b i (c ∷ cs) h =
    let low = Falling-le c.0 b cs in ground (arith, erase_key-Falling c.0 i cs)

pub find_key-gone :
    (b i : ℕ) (cs : List (ℕ × Key)) → Falling b cs → find_key i (erase_key i cs) ≡ none
unfolding find_key erase_key
find_key-gone b i [] h = refl
find_key-gone b i (c ∷ cs) h = ground (arith, find_key-gone c.0 i cs, find_key-Falling i c.0 cs)

-- The last element is found under its number, and to take it off is to erase it.
pub back-find :
    (b i : ℕ) (k : Key) (cs : List (ℕ × Key))
    → Falling b cs
    → back cs ≡ some (i, k)
    → (i < b) × (find_key i cs ≡ some k) × (pop_back cs ≡ erase_key i cs)
unfolding find_key erase_key back pop_back
back-find b i k [] h e = cc
back-find b i k (c ∷ []) h e = ground arith
back-find b i k (c ∷ d ∷ cs) h e = ground (arith, back-find c.0 i k (d ∷ cs))

pub back_found : (c : ℕ × Key) (cs : List (ℕ × Key)) → (d : ℕ × Key) × (back (c ∷ cs) ≡ some d)
unfolding back
back_found c [] = (c, refl)
back_found c (d ∷ cs) = back_found d cs
