-- ===== src/Gateway/Documents/Appends.antt =====
-- The write sink of src/gateway/gateway.py: what `put` does to a lookup.
use mathlib.Core.Path.{subst}
use hodi.Prelude.Tables.{get, get-set_item, get-set_item_other, set_item}
use hodi.Prelude.{
  String, ◌≡◌, refl, sym, ◌∙◌, ◌⊎◌, inl, inr, false, Option, none, some, List, [], ◌∷◌, arith,
  Bool-cases, ◌==◌, string_eq, beq→eq, In, here, there, In-cons,
}
use hodi.Gateway.Denial.{Dynamic, Dict, Gateway, returned, raised, already_exists}
use hodi.Gateway.Documents.{Write, bucket, put, put_all, create, check_free, is_some}

is_some-none {ℓ} : {A : Type ℓ} (o : Option A) → is_some o ≡ false → o ≡ none
is_some-none none h = refl
is_some-none (some a) h = absurd (cc)

module _ {V : Type 0} ⦃d : Dynamic V⦄ where
  -- The document that the gateway has written under an id.
  abbrev pub document : (collection doc_id : String) → Gateway V → Option (Dict V)
  document collection doc_id g = get doc_id (bucket collection g)

  -- Another collection, or another id of the same one.
  abbrev pub Apart : (collection doc_id : String) → Write V → Type 0
  Apart collection doc_id w =
      ((collection == w.collection) ≡ false) ⊎ ((doc_id == w.doc_id) ≡ false)

  pub document-put :
      (w : Write V) (g : Gateway V) → document w.collection w.doc_id (put w g) ≡ some w.fields
  unfolding put bucket
  document-put w g =
      rw
        (get-set_item w.collection (set_item w.doc_id w.fields (bucket w.collection g))
          g.offline_writes)
        (get-set_item w.doc_id w.fields (bucket w.collection g))

  pub document-put_other :
      (collection doc_id : String) (w : Write V) (g : Gateway V)
      → Apart collection doc_id w
      → document collection doc_id (put w g) ≡ document collection doc_id g
  unfolding put bucket
  document-put_other collection doc_id w g (inl h) =
      rw
        (get-set_item_other collection w.collection
          (set_item w.doc_id w.fields (bucket w.collection g)) g.offline_writes h)
        refl
  document-put_other collection doc_id w g (inr h) =
      elim (Bool-cases (collection == w.collection)) [
        | inl e ↦
            let same = beq→eq collection w.collection e in
            subst (λ c. document c doc_id (put w g) ≡ document c doc_id g) (sym same)
              (rw
                (get-set_item w.collection (set_item w.doc_id w.fields (bucket w.collection g))
                  g.offline_writes)
                (get-set_item_other doc_id w.doc_id w.fields (bucket w.collection g) h))
        | inr e ↦
            rw
              (get-set_item_other collection w.collection
                (set_item w.doc_id w.fields (bucket w.collection g)) g.offline_writes e)
              refl
      ]

  -- A present document and a free id are apart.
  pub Apart-of_free :
      (collection doc_id : String) (doc : Dict V) (w : Write V) (g : Gateway V)
      → document collection doc_id g ≡ some doc
      → document w.collection w.doc_id g ≡ none
      → Apart collection doc_id w
  Apart-of_free collection doc_id doc w g present free =
      elim (Bool-cases (collection == w.collection)) [
        | inl e ↦ elim (Bool-cases (doc_id == w.doc_id)) [
          | inl f ↦
              let p : document w.collection w.doc_id g ≡ some doc =
                subst (λ c. document c w.doc_id g ≡ some doc) (beq→eq collection w.collection e)
                  (subst (λ i. document collection i g ≡ some doc) (beq→eq doc_id w.doc_id f)
                    present) in
              absurd (cc)
          | inr f ↦ inr f
        ]
        | inr e ↦ inl e
      ]

  pub document-put_all_other :
      (collection doc_id : String) (writes : List (Write V)) (g : Gateway V)
      → ((w : Write V) → In w writes → Apart collection doc_id w)
      → document collection doc_id (put_all writes g) ≡ document collection doc_id g
  unfolding put_all
  document-put_all_other collection doc_id [] g apart = refl
  document-put_all_other collection doc_id (w ∷ rest) g apart =
      document-put_all_other collection doc_id rest (put w g) (λ x m. apart x (there m))
      ∙ document-put_other collection doc_id w g (apart w (here refl))

  -- Writes of free ids leave every document as it was.
  pub document-put_all :
      (collection doc_id : String) (doc : Dict V) (writes : List (Write V)) (g : Gateway V)
      → ((w : Write V) → In w writes → document w.collection w.doc_id g ≡ none)
      → document collection doc_id g ≡ some doc
      → document collection doc_id (put_all writes g) ≡ some doc
  document-put_all collection doc_id doc writes g free present =
      document-put_all_other collection doc_id writes g
        (λ w m. Apart-of_free collection doc_id doc w g present (free w m))
      ∙ present

  -- No two of the writes create the same id.
  abbrev pub AllApart : List (Write V) → Type 0
  AllApart [] = Unit
  AllApart (w ∷ rest) = ((x : Write V) → In x rest → Apart w.collection w.doc_id x) × AllApart rest

  pub put_all-document :
      (writes : List (Write V)) (w : Write V) (g : Gateway V)
      → AllApart writes
      → In w writes
      → document w.collection w.doc_id (put_all writes g) ≡ some w.fields
  unfolding put_all
  put_all-document [] w g apart m = elim m [ ]
  put_all-document (x ∷ rest) w g (apart, others) (here e) =
      subst (λ u. document u.collection u.doc_id (put_all rest (put x g)) ≡ some u.fields) (sym e)
        (document-put_all_other x.collection x.doc_id rest (put x g) apart ∙ document-put x g)
  put_all-document (x ∷ rest) w g (apart, others) (there m) =
      put_all-document rest w (put x g) others m

  pub check_free-returned :
      (writes : List (Write V)) (g h : Gateway V) (a : Unit)
      → check_free writes g ≡ returned a h
      → (h ≡ g) × ((w : Write V) → In w writes → document w.collection w.doc_id g ≡ none)
  unfolding check_free
  check_free-returned [] g h a e = (ground arith, λ w m. elim m [ ])
  check_free-returned (x ∷ rest) g h a e =
      elim (Bool-cases (is_some (document x.collection x.doc_id g))) [
        | inl k ↦
            let q : raised (already_exists x.collection x.doc_id) g ≡ returned a h = rw k at e in
            absurd (cc)
        | inr k ↦
            let later = check_free-returned rest g h a (rw k at e) in
            (
              later.0,
              λ w m. elim (In-cons m) [
                | inl q ↦
                    subst (λ u. document u.collection u.doc_id g ≡ none) (sym q) (is_some-none _ k)
                | inr i ↦ later.1 w i
              ],
            )
      ]

  pub create-returned :
      (w : Write V) (g h : Gateway V) (a : Unit)
      → create w g ≡ returned a h
      → (h ≡ put w g) × (document w.collection w.doc_id g ≡ none)
  unfolding create
  create-returned w g h a e = elim (Bool-cases (is_some (document w.collection w.doc_id g))) [
    | inl k ↦
        let q : raised (already_exists w.collection w.doc_id) g ≡ returned a h = rw k at e in
        absurd (cc)
    | inr k ↦ let q : returned tt (put w g) ≡ returned a h = rw k at e in (cc, is_some-none _ k)
  ]
