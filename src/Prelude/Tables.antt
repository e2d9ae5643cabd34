-- ===== src/Prelude/Tables.antt =====
-- Python's dictionaries with text keys, as lists of pairs in the order of insertion.
use Prim.Native.String.{String}
use mathlib.Core.Path.{◌≡◌, refl, sym, ap, ap₂, subst}
use mathlib.Core.Bool.{false}
use mathlib.Core.Option.{Option, none, some}
use mathlib.Core.Logic.{inl, inr}
use mathlib.Core.List.{List, [], ◌∷◌, ◌++◌}
use hodi.Prelude.Tests.{◌==◌, string_eq, if◌then◌else◌, Bool-cases, beq→eq, beq_refl, eq_of_some}
use hodi.Prelude.Lists.{In, here, there}

-- `table.get(k)`
unfoldable pub get {ℓ} : {V : Type ℓ} → String → List (String × V) → Option V
get k [] = none
get k ((j, v) ∷ rest) = if k == j then some v else get k rest

-- `table[k] = v`: in place where the key is present, else at the end.
unfoldable pub set_item {ℓ} : {A : Type ℓ} → String → A → List (String × A) → List (String × A)
set_item k v [] = (k, v) ∷ []
set_item k v ((j, w) ∷ rest) =
    let later = (j, w) ∷ set_item k v rest in if k == j then (j, v) ∷ rest else later

pub get-In {ℓ} :
    {V : Type ℓ} (k : String) (table : List (String × V)) (v : V)
    → get k table ≡ some v
    → In (k, v) table
unfolding get
get-In k [] v h = absurd (cc)
get-In k ((j, w) ∷ rest) v h = elim (Bool-cases (k == j)) [
  | inl e ↦
      let p : some w ≡ some v = rw e at h in
      here (ap₂ (λ a b. (a, b)) (beq→eq k j e) (sym (eq_of_some p)))
  | inr e ↦ there (get-In k rest v (rw e at h))
]

pub get-set_item {ℓ} :
    {A : Type ℓ} (k : String) (v : A) (l : List (String × A)) → get k (set_item k v l) ≡ some v
unfolding get set_item
get-set_item k v [] = rw (beq_refl k) refl
get-set_item k v ((j, w) ∷ rest) = elim (Bool-cases (k == j)) [
  | inl e ↦ rw (e, e) refl
  | inr e ↦ rw (e, e) (get-set_item k v rest)
]

pub get-set_item_other {ℓ} :
    {A : Type ℓ} (i k : String) (v : A) (l : List (String × A))
    → (i == k) ≡ false
    → get i (set_item k v l) ≡ get i l
unfolding get set_item
get-set_item_other i k v [] h = rw h refl
get-set_item_other i k v ((j, w) ∷ rest) h = elim (Bool-cases (k == j)) [
  | inl e ↦
      let n : (i == j) ≡ false = subst (λ u. (i == u) ≡ false) (beq→eq k j e) h in rw (e, n) refl
  | inr e ↦ elim (Bool-cases (i == j)) [
    | inl f ↦ rw (e, f) refl
    | inr f ↦ rw (e, f) (get-set_item_other i k v rest h)
  ]
]

-- A fresh key goes to the end.
pub set_item-fresh {ℓ} :
    {A : Type ℓ} (k : String) (v : A) (l : List (String × A))
    → get k l ≡ none
    → set_item k v l ≡ l ++ (k, v) ∷ []
unfolding get set_item
set_item-fresh k v [] h = refl
set_item-fresh k v ((j, w) ∷ rest) h = elim (Bool-cases (k == j)) [
  | inl e ↦ let p : some w ≡ none = rw e at h in absurd (cc)
  | inr e ↦ rw e (ap (λ l. (j, w) ∷ l) (set_item-fresh k v rest (rw e at h)))
]
