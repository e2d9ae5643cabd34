-- ===== src/Prelude/Lists.antt =====
-- Lists: membership as a family, the comprehension `[x for x in xs if p(x)]`, `all` and `any`.
use Prim.Native.Nat.{ℕ, suc}
use mathlib.Core.Path.{◌≡◌, refl, ap}
use mathlib.Core.Logic.{◌⊎◌, inl, inr}
use mathlib.Core.Bool.{Bool, true, false, ◌&&◌, ◌||◌}
use mathlib.Core.Option.{Option, none, some}
use mathlib.Core.List.{List, [], ◌∷◌, ◌++◌}
use native.Mathlib.Omega.{arith}
use hodi.Prelude.Tests.{if◌then◌else◌, Eq, ◌==◌, contains, Bool-cases}

-- `x` stands in `xs`, at a known place.
pub data In {ℓ} {A : Type ℓ} (x : A) : List A → Type ℓ where
  here : {y : A} {l : List A} → x ≡ y → In x (y ∷ l)
  there : {y : A} {l : List A} → In x l → In x (y ∷ l)

module _ {ℓ} {A : Type ℓ} where
  abbrev pub filter : (A → Bool) → List A → List A
  filter p [] = []
  filter p (x ∷ xs) = let rest = filter p xs in if p x then x ∷ rest else rest

  abbrev pub all : (A → Bool) → List A → Bool
  all p [] = true
  all p (x ∷ xs) = p x && all p xs

  abbrev pub any : (A → Bool) → List A → Bool
  any p [] = false
  any p (x ∷ xs) = p x || any p xs

  abbrev pub length : List A → ℕ
  length [] = 0
  length (x ∷ xs) = suc (length xs)

  -- `xs[-1]`
  abbrev pub last? : List A → Option A
  last? [] = none
  last? (x ∷ []) = some x
  last? (x ∷ y ∷ xs) = last? (y ∷ xs)

  pub filter-append :
      (p : A → Bool) (xs ys : List A) → filter p (xs ++ ys) ≡ filter p xs ++ filter p ys
  filter-append p [] ys = refl
  filter-append p (x ∷ xs) ys = ground (arith, filter-append p xs ys)

  pub last?-append : (xs : List A) (y : A) → last? (xs ++ y ∷ []) ≡ some y
  last?-append [] y = refl
  last?-append (x ∷ []) y = refl
  last?-append (x ∷ z ∷ xs) y = last?-append (z ∷ xs) y

  pub In-cons : {x y : A} {l : List A} → In x (y ∷ l) → (x ≡ y) ⊎ In x l
  In-cons (here e) = inl e
  In-cons (there m) = inr m

  pub In-filter : {x : A} (p : A → Bool) (xs : List A) → In x (filter p xs) → In x xs × (p x ≡ true)
  In-filter p [] m = elim m [ ]
  In-filter {x} p (y ∷ ys) m = elim (Bool-cases (p y)) [
    | inl e ↦ elim (In-cons (rw e at m)) [
      | inl h ↦ (here h, rw h e)
      | inr i ↦ let (j, q) = In-filter p ys i in (there j, q)
    ]
    | inr e ↦ let (i, q) = In-filter p ys (rw e at m) in (there i, q)
  ]

  pub filter-In : {x : A} (p : A → Bool) (xs : List A) → In x xs → p x ≡ true → In x (filter p xs)
  filter-In p [] m h = elim m [ ]
  filter-In p (y ∷ ys) (here e) h = let k : p y ≡ true = rw e at h in rw k (here e)
  filter-In p (y ∷ ys) (there m) h = elim (Bool-cases (p y)) [
    | inl e ↦ rw e (there (filter-In p ys m h))
    | inr e ↦ rw e (filter-In p ys m h)
  ]

  pub filter-filter :
      (p q : A → Bool) (xs : List A)
      → ((x : A) → p x ≡ true → q x ≡ true)
      → filter p (filter q xs) ≡ filter p xs
  filter-filter p q [] h = refl
  filter-filter p q (x ∷ xs) h = ground (arith, filter-filter p q xs h, h x)

  pub filter_none :
      (p : A → Bool) (xs : List A) → ((x : A) → In x xs → p x ≡ false) → filter p xs ≡ []
  filter_none p [] h = refl
  filter_none p (x ∷ xs) h = rw (h x (here refl)) (filter_none p xs (λ y m. h y (there m)))

  pub append_nil : (xs : List A) → xs ++ [] ≡ xs
  append_nil [] = refl
  append_nil (x ∷ xs) = ap (λ l. x ∷ l) (append_nil xs)

  pub last?-filter :
      (p : A → Bool) (xs : List A) (y : A)
      → last? xs ≡ some y
      → p y ≡ true
      → last? (filter p xs) ≡ some y
  last?-filter p [] y h k = cc
  last?-filter p (x ∷ []) y h k = ground arith
  last?-filter p (x ∷ z ∷ xs) y h k = last?-cons p x (z ∷ xs) y (last?-filter p (z ∷ xs) y h k)
    where
      last?-some : (x : A) (l : List A) (y : A) → last? l ≡ some y → last? (x ∷ l) ≡ some y
      last?-some x [] y h = cc
      last?-some x (z ∷ l) y h = h

      last?-cons :
          (p : A → Bool) (x : A) (l : List A) (y : A)
          → last? (filter p l) ≡ some y
          → last? (filter p (x ∷ l)) ≡ some y
      last?-cons p x l y h = elim (Bool-cases (p x)) [
        | inl e ↦ rw e (last?-some x (filter p l) y h)
        | inr e ↦ rw e h
      ]

  pub In-last? : (xs : List A) (y : A) → last? xs ≡ some y → In y xs
  In-last? [] y h = absurd (cc)
  In-last? (x ∷ []) y h = here (cc)
  In-last? (x ∷ z ∷ xs) y h = there (In-last? (z ∷ xs) y h)

  pub In-append_left : {x : A} {xs : List A} (ys : List A) → In x xs → In x (xs ++ ys)
  In-append_left ys (here e) = here e
  In-append_left ys (there m) = there (In-append_left ys m)

  pub In-append_right : {x : A} (xs : List A) {ys : List A} → In x ys → In x (xs ++ ys)
  In-append_right [] m = m
  In-append_right (x ∷ xs) m = there (In-append_right xs m)

  pub In-append : {x : A} (xs : List A) {ys : List A} → In x (xs ++ ys) → In x xs ⊎ In x ys
  In-append [] m = inr m
  In-append (y ∷ xs) m = elim (In-cons m) [
    | inl e ↦ inl (here e)
    | inr i ↦ elim (In-append xs i) [ inl j ↦ inl (there j) | inr j ↦ inr j ]
  ]

module _ {ℓ} {A : Type ℓ} ⦃e : Eq A⦄ where
  pub contains-In : (x : A) (xs : List A) → contains x xs ≡ true → In x xs
  contains-In x [] h = absurd (cc)
  contains-In x (y ∷ ys) h = elim (Bool-cases (x == y)) [
    | inl q ↦ here ((e.beq_iff x y).0 q)
    | inr q ↦ there (contains-In x ys (rw q at h))
  ]

  pub In-contains : (x : A) (xs : List A) → In x xs → contains x xs ≡ true
  In-contains x [] m = elim m [ ]
  In-contains x (y ∷ ys) (here q) = rw ((e.beq_iff x y).1 q)
  In-contains x (y ∷ ys) (there m) = ground (arith, In-contains x ys m)

module _ {ℓ} {A : Type ℓ} where
  pub all-In : {x : A} (p : A → Bool) (xs : List A) → all p xs ≡ true → In x xs → p x ≡ true
  all-In p [] h m = elim m [ ]
  all-In p (y ∷ ys) h (here e) = rw e (ground arith)
  all-In p (y ∷ ys) h (there m) = all-In p ys (ground arith) m

  pub In-all : (p : A → Bool) (xs : List A) → ((x : A) → In x xs → p x ≡ true) → all p xs ≡ true
  In-all p [] h = refl
  In-all p (x ∷ xs) h = rw (h x (here refl)) (In-all p xs (λ y m. h y (there m)))
