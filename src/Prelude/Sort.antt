-- ===== src/Prelude/Sort.antt =====
-- Python's `sorted` by an order: insertion from the right, which is stable.
use Prim.Native.Nat.{ℕ}
use Prim.Native.String.{String}
use mathlib.Core.Path.{◌≡◌, refl, sym, ap, ap₂, subst, ◌∙◌}
use mathlib.Core.Option.{some}
use mathlib.Core.Logic.{inl, inr}
use mathlib.Core.Bool.{Bool, true, false}
use mathlib.Core.List.{List, [], ◌∷◌, ◌++◌, Permᴰ}
use mathlib.Core.List.Permᴰ
use native.Mathlib.Omega.{arith}
use hodi.Prelude.Tests.{if◌then◌else◌, Bool-cases, ltb, contains, string_eq, eq_of_some}
use hodi.Prelude.Lists.{contains-In, last?, In-last?, In, here, there, In-cons, filter}
use hodi.Prelude.TextOrder.{text_le, text_le_total, text_le_trans, text_le_antisymm}

module _ {ℓ} {A : Type ℓ} where
  abbrev pub insert_by : (A → A → Bool) → A → List A → List A
  insert_by le x [] = x ∷ []
  insert_by le x (y ∷ ys) = let rest = y ∷ insert_by le x ys in if le x y then x ∷ y ∷ ys else rest

  unfoldable pub sort_by : (A → A → Bool) → List A → List A
  sort_by le [] = []
  sort_by le (x ∷ xs) = insert_by le x (sort_by le xs)

  insert_by-last :
      (le : A → A → Bool) (x y : A) (s : List A)
      → le y x ≡ true
      → insert_by le y (s ++ x ∷ []) ≡ insert_by le y s ++ x ∷ []
  insert_by-last le x y [] h = rw h
  insert_by-last le x y (z ∷ s) h = ground (arith, insert_by-last le x y s h)

  -- A last element that no other one exceeds stays last.
  pub sort_by-last :
      (le : A → A → Bool) (l : List A) (x : A)
      → ((y : A) → In y l → le y x ≡ true)
      → sort_by le (l ++ x ∷ []) ≡ sort_by le l ++ x ∷ []
  unfolding sort_by
  sort_by-last le [] x h = refl
  sort_by-last le (y ∷ l) x h =
      ap (insert_by le y) (sort_by-last le l x (λ z m. h z (there m)))
      ∙ insert_by-last le x y (sort_by le l) (h y (here refl))

  In-insert_by : (le : A → A → Bool) (x y : A) (s : List A) → In y (insert_by le x s) → In y (x ∷ s)
  In-insert_by le x y [] m = m
  In-insert_by le x y (z ∷ s) m = elim (Bool-cases (le x z)) [
    | inl e ↦ rw e at m
    | inr e ↦ elim (In-cons (rw e at m)) [
      | inl p ↦ there (here p)
      | inr i ↦ elim (In-cons (In-insert_by le x y s i)) [
        | inl p ↦ here p
        | inr j ↦ there (there j)
      ]
    ]
  ]

  insert_by-In : (le : A → A → Bool) (x y : A) (s : List A) → In y (x ∷ s) → In y (insert_by le x s)
  insert_by-In le x y [] m = m
  insert_by-In le x y (z ∷ s) m = elim (Bool-cases (le x z)) [
    | inl e ↦ rw e m
    | inr e ↦ rw e (elim (In-cons m) [
      | inl p ↦ there (insert_by-In le x y s (here p))
      | inr i ↦ elim (In-cons i) [
        | inl p ↦ here p
        | inr j ↦ there (insert_by-In le x y s (there j))
      ]
    ])
  ]

  -- Sorting keeps exactly the elements.
  pub In-sort_by : (le : A → A → Bool) (y : A) (l : List A) → In y (sort_by le l) → In y l
  unfolding sort_by
  In-sort_by le y [] m = m
  In-sort_by le y (x ∷ l) m = elim (In-cons (In-insert_by le x y (sort_by le l) m)) [
    | inl p ↦ here p
    | inr i ↦ there (In-sort_by le y l i)
  ]

  pub sort_by-In : (le : A → A → Bool) (y : A) (l : List A) → In y l → In y (sort_by le l)
  unfolding sort_by
  sort_by-In le y [] m = m
  sort_by-In le y (x ∷ l) m =
      insert_by-In le x y (sort_by le l)
        (elim (In-cons m) [ inl p ↦ here p | inr i ↦ there (sort_by-In le y l i) ])

  pub Permᴰ-In : {x : A} {k l : List A} → Permᴰ k l → In x k → In x l
  Permᴰ-In Permᴰ.nil m = m
  Permᴰ-In (Permᴰ.cons e p) m = elim (In-cons m) [
    | inl q ↦ here (q ∙ e)
    | inr i ↦ there (Permᴰ-In p i)
  ]
  Permᴰ-In (Permᴰ.swap e f) m = elim (In-cons m) [
    | inl q ↦ there (here (q ∙ e))
    | inr i ↦ elim (In-cons i) [ inl q ↦ here (q ∙ f) | inr j ↦ there (there j) ]
  ]
  Permᴰ-In (Permᴰ.trans p q) m = Permᴰ-In q (Permᴰ-In p m)

module _ {ℓ} {A : Type ℓ} where
  filter-swap :
      (u v : Bool) (a b : A) (l : List A)
      → Permᴰ
          (if u then a ∷ (if v then b ∷ l else l) else if v then b ∷ l else l)
          (if v then b ∷ (if u then a ∷ l else l) else if u then a ∷ l else l)
  filter-swap true true a b l = Permᴰ.swap refl refl
  filter-swap true false a b l = Permᴰ.refl (a ∷ l)
  filter-swap false true a b l = Permᴰ.refl (b ∷ l)
  filter-swap false false a b l = Permᴰ.refl l

  pub filter-Permᴰ : (p : A → Bool) {k l : List A} → Permᴰ k l → Permᴰ (filter p k) (filter p l)
  filter-Permᴰ p Permᴰ.nil = Permᴰ.nil
  filter-Permᴰ p (Permᴰ.cons {a = a} {b = b} e d) = elim (Bool-cases (p b)) [
    | inl h ↦ rw (e, h) (Permᴰ.cons refl (filter-Permᴰ p d))
    | inr h ↦ rw (e, h) (filter-Permᴰ p d)
  ]
  filter-Permᴰ p (Permᴰ.swap {a = a} {b = b} {l = l} e f) =
      rw (← e, ← f) (filter-swap (p a) (p b) a b (filter p l))
  filter-Permᴰ p (Permᴰ.trans d e) = Permᴰ.trans (filter-Permᴰ p d) (filter-Permᴰ p e)

-- What a sort key has to be: comparable both ways, and transitive.
pub record IsTotalOrder {ℓ} {A : Type ℓ} (le : A → A → Bool) : Type ℓ where
  pub total : (x y : A) → le x y ≡ false → le y x ≡ true
  pub trans : (x y z : A) → le x y ≡ true → le y z ≡ true → le x z ≡ true

-- The key tells the elements of `l` apart.
abbrev pub Separates {ℓ} : {A : Type ℓ} → (A → A → Bool) → List A → Type ℓ
Separates {A} le l = (x y : A) → In x l → In y l → le x y ≡ true → le y x ≡ true → x ≡ y

module _ {ℓ} {A : Type ℓ} {le : A → A → Bool} (order : IsTotalOrder le) where
  insert_by_comm :
      (x y : A) (s : List A)
      → (le x y ≡ true → le y x ≡ true → x ≡ y)
      → insert_by le x (insert_by le y s) ≡ insert_by le y (insert_by le x s)
  insert_by_comm x y [] same = ground (arith, order.total x y, order.total y x)
  insert_by_comm x y (z ∷ s) same = ground (
    arith,
    insert_by_comm x y s same,
    order.total x y,
    order.total y x,
    order.trans x y z,
    order.trans y x z,
  )

  -- Byte-stable sorting: a permuted list sorts to the same list.
  pub sort_by-Permᴰ : {k l : List A} → Permᴰ k l → Separates le k → sort_by le k ≡ sort_by le l
  unfolding sort_by
  sort_by-Permᴰ Permᴰ.nil sep = refl
  sort_by-Permᴰ {k} {l} (Permᴰ.cons e p) sep =
      ap₂ (insert_by le) e (sort_by-Permᴰ p (λ x y i j. sep x y (there i) (there j)))
  sort_by-Permᴰ (Permᴰ.swap {a = a} {b = b} {l = l} e f) sep =
      insert_by_comm a b (sort_by le l) (sep a b (here refl) (there (here refl)))
      ∙ ap₂ (λ u v. insert_by le u (insert_by le v (sort_by le l))) f e
  sort_by-Permᴰ (Permᴰ.trans p q) sep =
      sort_by-Permᴰ p sep
      ∙ sort_by-Permᴰ q (λ x y i j. sep x y (Permᴰ-In (Permᴰ.symm p) i) (Permᴰ-In (Permᴰ.symm p) j))

-- Sorting by (number, text), as by `(issued_at, event_id)`.
abbrev pub stamp_le : ℕ × String → ℕ × String → Bool
stamp_le (m, s) (n, t) = if ltb m n then true else if ltb n m then false else text_le s t

pub stamp_le_order : IsTotalOrder stamp_le
stamp_le_order = record {
  total = λ (m, s) (n, t). ground (arith, text_le_total s t);
  trans = λ (m, s) (n, t) (o, u). ground (arith, text_le_trans s t u);
}

pub stamp_le_antisymm : (a b : ℕ × String) → stamp_le a b ≡ true → stamp_le b a ≡ true → a ≡ b
stamp_le_antisymm (m, s) (n, t) h k =
    let p : (m ≡ n) × (text_le s t ≡ true) × (text_le t s ≡ true) = ground arith in
    ap₂ (λ u v. (u, v)) p.0 (text_le_antisymm s t p.1 p.2)

-- { … }, as a list without repetitions
unfoldable pub distinct : List String → List String
distinct [] = []
distinct (x ∷ xs) = let rest = distinct xs in if contains x rest then rest else x ∷ rest

distinct-In : (x : String) (l : List String) → In x l → In x (distinct l)
unfolding distinct
distinct-In x [] m = m
distinct-In x (y ∷ l) m = elim (Bool-cases (contains y (distinct l))) [
  | inl old ↦ rw old (elim (In-cons m) [
    | inl e ↦ rw e (contains-In y (distinct l) old)
    | inr i ↦ distinct-In x l i
  ])
  | inr new ↦ rw new (elim (In-cons m) [ inl e ↦ here e | inr i ↦ there (distinct-In x l i) ])
]

In-distinct : (x : String) (l : List String) → In x (distinct l) → In x l
unfolding distinct
In-distinct x [] m = m
In-distinct x (y ∷ l) m = elim (Bool-cases (contains y (distinct l))) [
  | inl old ↦ there (In-distinct x l (rw old at m))
  | inr new ↦ elim (In-cons (rw new at m)) [ inl e ↦ here e | inr i ↦ there (In-distinct x l i) ]
]

-- `sorted(set(l))`
unfoldable pub sorted_set : List String → List String
unfolding sort_by text_le distinct
sorted_set l = sort_by text_le (distinct l)

pub sorted_set-In : (x : String) (l : List String) → In x l → In x (sorted_set l)
unfolding sorted_set
sorted_set-In x l m = sort_by-In text_le x (distinct l) (distinct-In x l m)

pub In-sorted_set : (x : String) (l : List String) → In x (sorted_set l) → In x l
unfolding sorted_set
In-sorted_set x l m = In-distinct x l (In-sort_by text_le x (distinct l) m)

-- `m` is at or above every element.
abbrev pub IsTop {ℓ} : {A : Type ℓ} → (A → A → Bool) → A → List A → Type ℓ
IsTop {A} le m l = (x : A) → In x l → le x m ≡ true

abbrev IsBottom {ℓ} : {A : Type ℓ} → (A → A → Bool) → A → List A → Type ℓ
IsBottom {A} le m l = (x : A) → In x l → le m x ≡ true

abbrev Ascending {ℓ} : {A : Type ℓ} → (A → A → Bool) → List A → Type ℓ
Ascending le [] = Unit
Ascending le (x ∷ l) = IsBottom le x l × Ascending le l

module _ {ℓ} {A : Type ℓ} {le : A → A → Bool} (order : IsTotalOrder le) where
  le_refl_of_total : (x : A) → le x x ≡ true
  le_refl_of_total x = elim (Bool-cases (le x x)) [ inl h ↦ h | inr h ↦ order.total x x h ]

  IsBottom-cons : (x z : A) (l : List A) → le x z ≡ true → IsBottom le z l → IsBottom le x (z ∷ l)
  IsBottom-cons x z l h below y (here e) = subst (λ u. le x u ≡ true) (sym e) h
  IsBottom-cons x z l h below y (there i) = order.trans x z y h (below y i)

  IsBottom-insert_by :
      (x z : A) (l : List A) → le z x ≡ true → IsBottom le z l → IsBottom le z (insert_by le x l)
  IsBottom-insert_by x z l h below y m = elim (In-cons (In-insert_by le x y l m)) [
    | inl e ↦ subst (λ u. le z u ≡ true) (sym e) h
    | inr i ↦ below y i
  ]

  insert_by-Ascending : (x : A) (l : List A) → Ascending le l → Ascending le (insert_by le x l)
  insert_by-Ascending x [] up = (λ y m. elim m [ ], tt)
  insert_by-Ascending x (z ∷ l) (below, up) = elim (Bool-cases (le x z)) [
    | inl h ↦ rw h (IsBottom-cons x z l h below, (below, up))
    | inr h ↦ rw h (IsBottom-insert_by x z l (order.total x z h) below, insert_by-Ascending x l up)
  ]

  pub sort_by-Ascending : (l : List A) → Ascending le (sort_by le l)
  unfolding sort_by
  sort_by-Ascending [] = tt
  sort_by-Ascending (x ∷ l) = insert_by-Ascending x (sort_by le l) (sort_by-Ascending l)

  last?-Ascending : (l : List A) (m : A) → Ascending le l → last? l ≡ some m → IsTop le m l
  last?-Ascending [] m up h x i = elim i [ ]
  last?-Ascending (y ∷ []) m up h x (here e) =
      subst (λ u. le u m ≡ true) (sym (e ∙ eq_of_some h)) (le_refl_of_total m)
  last?-Ascending (y ∷ []) m up h x (there i) = elim i [ ]
  last?-Ascending (y ∷ z ∷ l) m (below, up) h x (here e) =
      subst (λ u. le u m ≡ true) (sym e) (below m (In-last? (z ∷ l) m h))
  last?-Ascending (y ∷ z ∷ l) m (below, up) h x (there i) = last?-Ascending (z ∷ l) m up h x i

  -- The last element of a sorted list is at or above every element.
  pub sort_by-last-IsTop : (l : List A) (m : A) → last? (sort_by le l) ≡ some m → IsTop le m l
  sort_by-last-IsTop l m h x i =
      last?-Ascending (sort_by le l) m (sort_by-Ascending l) h x (sort_by-In le x l i)
