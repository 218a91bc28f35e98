-- ===== src/Prelude.antt =====
-- The names that the other modules share: the libraries', passed on, and those of the children.
mod Tests
mod Lists
pub mod Map
pub mod Int
pub use Tests.*
pub use Lists.*
pub use Prim.Native.Nat.{ℕ, zero, suc, ◌+◌, ◌-◌, ◌%◌, ◌^◌, ◌≤◌, ◌<◌, Ordering}
pub use mathlib.Core.Path.{◌≡◌, refl, sym, ap, ◌∙◌, ◌≡⟨◌⟩◌, ◌∎}
pub use mathlib.Core.Logic.{◌≢◌, ◌↔◌, ◌⊎◌, inl, inr}
pub use mathlib.Core.Bool.{Bool, true, false, not, ◌&&◌, ◌||◌}
pub use mathlib.Core.Option.{Option, none, some}
pub use mathlib.Core.List.{List, [], ◌∷◌, ◌++◌, map, append-nil, append_assoc}
pub use native.Mathlib.Omega.{arith}

-- Chains of fallible steps; `none` is an assertion of the program that fails.
infixl 5 ◌>>=◌
abbrev pub ◌>>=◌ {ℓ κ} : {A : Type ℓ} {B : Type κ} → Option A → (A → Option B) → Option B
none >>= f = none
some a >>= f = f a

-- `assert`
infixl 5 ◌>>◌
abbrev pub ◌>>◌ {ℓ} : {B : Type ℓ} → Option (Unit {0}) → Option B → Option B
m >> k = m >>= λ _. k

abbrev pub assert : Bool → Option (Unit {0})
assert true = some tt
assert false = none

pub some_injective {ℓ} : {A : Type ℓ} {a b : A} → some a ≡ some b → a ≡ b
some_injective h = cc

-- Inversion of a chain that gives a result.
pub >>=-eq-some {ℓ κ} :
    {A : Type ℓ} {B : Type κ} (m : Option A) (f : A → Option B) {b : B}
    → (m >>= f) ≡ some b
    → (a : A) × (m ≡ some a) × (f a ≡ some b)
>>=-eq-some none f h = cc
>>=-eq-some (some a) f h = (a, refl, h)

pub Ordering-cases : (c : Ordering) → (c ≡ Ordering.lt) ⊎ ((c ≡ Ordering.eq) ⊎ (c ≡ Ordering.gt))
Ordering-cases Ordering.lt = inl refl
Ordering-cases Ordering.eq = inr (inl refl)
Ordering-cases Ordering.gt = inr (inr refl)

-- Total correctness of a result: it is there, and satisfies the predicate.
abbrev pub Holds {ℓ} : {A : Type ℓ} → (A → Type 0) → Option A → Type 0
Holds P none = ⊥
Holds P (some a) = P a

pub Holds->>= {ℓ κ} :
    {A : Type ℓ} {B : Type κ} (P : A → Type 0) (Q : B → Type 0) (m : Option A) (f : A → Option B)
    → Holds P m
    → ((a : A) → P a → Holds Q (f a))
    → Holds Q (m >>= f)
Holds->>= P Q none f h k = absurd h
Holds->>= P Q (some a) f h k = k a h

pub Holds-imp {ℓ} :
    {A : Type ℓ} (P Q : A → Type 0) (m : Option A) → ((a : A) → P a → Q a) → Holds P m → Holds Q m
Holds-imp P Q none f h = absurd h
Holds-imp P Q (some a) f h = f a h

pub Holds-some {ℓ} :
    {A : Type ℓ} (P : A → Type 0) (m : Option A) → Holds P m → (a : A) × (m ≡ some a) × P a
Holds-some P none h = absurd h
Holds-some P (some a) h = (a, refl, h)

pub Holds-then {ℓ} :
    {A : Type ℓ} (P : A → Type 0) (b : Bool) (x y : Option A)
    → b ≡ true
    → Holds P x
    → Holds P (if b then x else y)
Holds-then P true x y e h = h
Holds-then P false x y e h = cc

pub Holds-else {ℓ} :
    {A : Type ℓ} (P : A → Type 0) (b : Bool) (x y : Option A)
    → b ≡ false
    → Holds P y
    → Holds P (if b then x else y)
Holds-else P true x y e h = cc
Holds-else P false x y e h = h

pub >>=-eq-none {ℓ κ} :
    {A : Type ℓ} {B : Type κ} (m : Option A) (f : A → B) → (m >>= λ a. some (f a)) ≡ none → m ≡ none
>>=-eq-none none f h = refl
>>=-eq-none (some a) f h = cc

pub Holds-both {ℓ} :
    {A : Type ℓ} (P Q : A → Type 0) (m : Option A)
    → Holds P m
    → Holds Q m
    → Holds (λ a. P a × Q a) m
Holds-both P Q none h k = absurd h
Holds-both P Q (some a) h k = (h, k)
