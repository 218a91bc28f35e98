-- ===== src/Db/Gathered.antt =====
-- src/db/db_impl.cc: the addresses that `gc` keeps, of all that it comes by.
use mathlib.Core.List.{Perm, perm_middle}
use mathlib.Core.List.Perm
use cruzdb.Prelude.{
  ℕ, zero, suc, ◌++◌, ◌+◌, ◌≤◌, ◌≢◌, true, false, [], ◌∷◌, length, some, ◌>>=◌, ◌≡◌, refl, sym, ◌∙◌,
  ap, ltb, if◌then◌else◌, arith, inl, inr, Bool-cases, All, All-imp,
}
use cruzdb.Slice.{Slice}
use cruzdb.Node.{NodeAddress, address_lt}
use cruzdb.Db.Collector.{Addresses, emplace_address, drop_last, keep_first}

-- Two addresses of different places in the log.
abbrev pub Apart : NodeAddress → NodeAddress → Type 0
Apart a b = a.position ≡ b.position → a.offset ≢ b.offset

-- The addresses are in the order of the log, none of them twice.
abbrev pub InOrder : Addresses → Type 0
InOrder [] = Unit
InOrder (e ∷ es) = All (λ f. address_lt e.0 f.0 ≡ true) es × InOrder es

-- The first addresses
unfoldable pub first : ℕ → Addresses → Addresses
first zero es = []
first (suc n) [] = []
first (suc n) (e ∷ es) = e ∷ first n es

-- An address put in its place
pub insert_address : NodeAddress → Slice → Addresses → Addresses
insert_address a k [] = (a, k) ∷ []
insert_address a k (e ∷ es) =
    let rest = insert_address a k es in if address_lt a e.0 then (a, k) ∷ e ∷ es else e ∷ rest

-- All of them, one after the other
unfoldable pub insert_all : Addresses → Addresses → Addresses
insert_all [] m = m
insert_all (e ∷ es) m = insert_all es (insert_address e.0 e.1 m)

same_place : (a b : NodeAddress) → address_lt a b ≡ false → address_lt b a ≡ false → Apart a b → ⊥
unfolding address_lt
same_place a b f g n = ground arith

address_lt_trans :
    (a b c : NodeAddress) → address_lt a b ≡ true → address_lt b c ≡ true → address_lt a c ≡ true
unfolding address_lt
address_lt_trans a b c f g = ground arith

module _ (P : NodeAddress × Slice → Type 0) where
  insert_address-All :
      (a : NodeAddress) (k : Slice) (m : Addresses)
      → P (a, k)
      → All P m
      → All P (insert_address a k m)
  unfolding insert_address
  insert_address-All a k [] p h = (p, tt)
  insert_address-All a k (e ∷ es) p h = elim (Bool-cases (address_lt a e.0)) [
    | inl f ↦ rw (f, if◌then◌else◌) (p, h)
    | inr f ↦ rw (f, if◌then◌else◌) (h.0, insert_address-All a k es p h.1)
  ]

  first-All : (n : ℕ) (m : Addresses) → All P m → All P (first n m)
  unfolding first
  first-All zero m h = tt
  first-All (suc n) [] h = tt
  first-All (suc n) (e ∷ es) h = (h.0, first-All n es h.1)

insert_address-InOrder :
    (a : NodeAddress) (k : Slice) (m : Addresses)
    → InOrder m
    → All (λ e. Apart a e.0) m
    → InOrder (insert_address a k m)
unfolding insert_address
insert_address-InOrder a k [] o n = (tt, tt)
insert_address-InOrder a k (e ∷ es) o n = elim (Bool-cases (address_lt a e.0)) [
  | inl f ↦ rw (f, if◌then◌else◌) ((f, All-imp (λ x l. address_lt_trans a e.0 x.0 f l) es o.0), o)
  | inr f ↦ elim (Bool-cases (address_lt e.0 a)) [
    | inl g ↦
        rw (f, if◌then◌else◌)
          (
            insert_address-All (λ x. address_lt e.0 x.0 ≡ true) a k es g o.0,
            insert_address-InOrder a k es o.1 n.1,
          )
    | inr g ↦ absurd (same_place a e.0 f g n.0)
  ]
]

insert_address-Perm :
    (a : NodeAddress) (k : Slice) (m : Addresses) → Perm (insert_address a k m) ((a, k) ∷ m)
unfolding insert_address
insert_address-Perm a k [] = Perm.refl ((a, k) ∷ [])
insert_address-Perm a k (e ∷ es) = elim (Bool-cases (address_lt a e.0)) [
  | inl f ↦ rw (f, if◌then◌else◌) (Perm.refl ((a, k) ∷ e ∷ es))
  | inr f ↦
      rw (f, if◌then◌else◌)
        (Perm.trans (Perm.cons e (insert_address-Perm a k es)) (Perm.swap (a, k) e es))
]

emplace_address-insert :
    (a : NodeAddress) (k : Slice) (m : Addresses)
    → All (λ e. Apart a e.0) m
    → emplace_address a k m ≡ some (insert_address a k m)
unfolding emplace_address insert_address
emplace_address-insert a k [] n = refl
emplace_address-insert a k (e ∷ es) n = elim (Bool-cases (address_lt a e.0)) [
  | inl f ↦ rw (f, if◌then◌else◌) refl
  | inr f ↦ elim (Bool-cases (address_lt e.0 a)) [
    | inl g ↦ rw (f, g, if◌then◌else◌, emplace_address-insert a k es n.1) refl
    | inr g ↦ absurd (same_place a e.0 f g n.0)
  ]
]

length-insert_address :
    (a : NodeAddress) (k : Slice) (m : Addresses) → length (insert_address a k m) ≡ suc (length m)
unfolding insert_address
length-insert_address a k [] = refl
length-insert_address a k (e ∷ es) = elim (Bool-cases (address_lt a e.0)) [
  | inl f ↦ rw (f, if◌then◌else◌) refl
  | inr f ↦ rw (f, if◌then◌else◌) (ap suc (length-insert_address a k es))
]

length-first : (n : ℕ) (m : Addresses) → length (first n m) ≤ n
unfolding first
length-first zero m = omega arith
length-first (suc n) [] = omega arith
length-first (suc n) (e ∷ es) = omega (arith, length-first n es)

first_all : (n : ℕ) (m : Addresses) → length m ≤ n → first n m ≡ m
unfolding first
first_all zero [] l = refl
first_all zero (e ∷ es) l = absurd (omega arith)
first_all (suc n) [] l = refl
first_all (suc n) (e ∷ es) l = ap (λ z. e ∷ z) (first_all n es (omega arith))

first-first : (n : ℕ) (m : Addresses) → first n (first (suc n) m) ≡ first n m
unfolding first
first-first zero m = refl
first-first (suc n) [] = refl
first-first (suc n) (e ∷ es) = ap (λ z. e ∷ z) (first-first n es)

-- What is not among the first addresses is not among the first of more of them.
first-insert_address :
    (n : ℕ) (a : NodeAddress) (k : Slice) (m : Addresses)
    → first n (insert_address a k (first n m)) ≡ first n (insert_address a k m)
unfolding first insert_address
first-insert_address zero a k m = refl
first-insert_address (suc n) a k [] = refl
first-insert_address (suc n) a k (e ∷ es) = elim (Bool-cases (address_lt a e.0)) [
  | inl f ↦ rw (f, if◌then◌else◌) (ap (λ z. (a, k) ∷ z) (first_before n e es))
  | inr f ↦ rw (f, if◌then◌else◌) (ap (λ z. e ∷ z) (first-insert_address n a k es))
]
  where
    first_before :
        (n : ℕ) (e : NodeAddress × Slice) (es : Addresses)
        → first n (e ∷ first n es) ≡ first n (e ∷ es)
    first_before zero e es = refl
    first_before (suc n) e es = ap (λ z. e ∷ z) (first-first n es)

drop_last-first :
    (e : NodeAddress × Slice) (m : Addresses) → drop_last (e ∷ m) ≡ first (length m) (e ∷ m)
unfolding drop_last first
drop_last-first e [] = refl
drop_last-first e (f ∷ m) = ap (λ z. e ∷ z) (drop_last-first f m)

keep_first-first : (m : Addresses) → length m ≤ 6 → keep_first m ≡ first 5 m
unfolding keep_first first
keep_first-first [] l = refl
keep_first-first (e ∷ m) l = elim (Bool-cases (ltb 5 (length (e ∷ m)))) [
  | inl f ↦
      let five : length m ≡ 5 = ground arith in
      rw f (drop_last-first e m ∙ ap (λ n. first n (e ∷ m)) five)
  | inr f ↦ let b : length (e ∷ m) ≤ 5 = ground arith in rw f (sym (first_all 5 (e ∷ m) b))
]

-- One address more, and again the first five of all.
pub keep_first-emplace :
    (a : NodeAddress) (k : Slice) (m : Addresses)
    → All (λ e. Apart a e.0) m
    → (emplace_address a k (first 5 m) >>= λ m'. some (keep_first m'))
      ≡ some (first 5 (insert_address a k m))
keep_first-emplace a k m n =
    rw (emplace_address-insert a k (first 5 m) (first-All (λ e. Apart a e.0) 5 m n), ◌>>=◌)
      (ap some (
        keep_first-first (insert_address a k (first 5 m))
          (omega (arith, length-insert_address a k (first 5 m), length-first 5 m))
        ∙ first-insert_address 5 a k m))

-- Every address is at another place than the rest.
abbrev pub AllApart : Addresses → Type 0
AllApart [] = Unit
AllApart (e ∷ es) = All (λ f. Apart f.0 e.0) es × AllApart es

-- The addresses that are still to come are at other places than those that are there.
abbrev pub Clear : Addresses → Addresses → Type 0
Clear es m = All (λ x. All (λ p. Apart p.0 x.0) es) m

pub Clear-next :
    (e : NodeAddress × Slice) (es m : Addresses)
    → All (λ f. Apart f.0 e.0) es
    → Clear (e ∷ es) m
    → Clear es (insert_address e.0 e.1 m)
Clear-next e es m d c =
    insert_address-All (λ x. All (λ p. Apart p.0 x.0) es) e.0 e.1 m d (All-imp (λ x y. y.1) m c)

pub length-insert_all : (es m : Addresses) → length (insert_all es m) ≡ length es + length m
unfolding insert_all
length-insert_all [] m = omega arith
length-insert_all (e ∷ es) m =
    omega (arith, length-insert_all es (insert_address e.0 e.1 m), length-insert_address e.0 e.1 m)

pub insert_all-InOrder :
    (es m : Addresses) → InOrder m → AllApart es → Clear es m → InOrder (insert_all es m)
unfolding insert_all
insert_all-InOrder [] m o d c = o
insert_all-InOrder (e ∷ es) m o d c =
    insert_all-InOrder es (insert_address e.0 e.1 m)
      (insert_address-InOrder e.0 e.1 m o (All-imp (λ x y. y.0) m c)) d.1 (Clear-next e es m d.0 c)

pub insert_all-Perm : (es m : Addresses) → Perm (insert_all es m) (es ++ m)
unfolding insert_all
insert_all-Perm [] m = Perm.refl m
insert_all-Perm (e ∷ es) m =
    Perm.trans (insert_all-Perm es (insert_address e.0 e.1 m))
      (Perm.trans (Perm.append_left es (insert_address-Perm e.0 e.1 m)) (perm_middle es m))
