-- ===== src/Schema/Iam/Walls.antt =====
-- The conflict domains of src/schema/iam_policy.py, for every role and collection that a caller may
-- name.
use hodi.Prelude.{
  String, ◌≡◌, ◌⊎◌, refl, ap, sym, ◌∙◌, Bool, true, ◌||◌, Option, none, some, ◌==◌, not, string_eq,
  beq→eq, eq_iff, Bool-cases, inl, inr, all, all-In, arith,
}
use hodi.Prelude.Tables.{get}
use hodi.Schema.Iam.{AgentInfo, agent_sa_map, root_segment, is_action_permitted}
use hodi.Schema.Iam.Rows.{collection_of, Allows, row-property, is_action_permitted-Allows}

-- The conflict domain that the table gives a role.
abbrev pub domain_in : Option AgentInfo → Option String
domain_in none = none
domain_in (some info) = some info.conflict_domain

abbrev pub domain_of : String → Option String
domain_of role = domain_in (get role agent_sa_map)

abbrev pair_apart : String → String → Bool
pair_apart a b = (a == "grants") || not (a == b)

-- Two rows are of one domain, or no collection but the grant log stands in both.
abbrev rows_apart : AgentInfo → AgentInfo → Bool
rows_apart i j =
    (i.conflict_domain == j.conflict_domain)
    || all (λ p. all (λ q. pair_apart (collection_of p) (collection_of q)) j.permitted_collections)
        i.permitted_collections

rows_apart-table : all (λ x. all (λ y. rows_apart x.1 y.1) agent_sa_map) agent_sa_map ≡ true
rows_apart-table = refl

pair_apart-grants : (a b : String) → pair_apart a b ≡ true → a ≡ b → a ≡ "grants"
pair_apart-grants a b h e = elim (Bool-cases (a == "grants")) [
  | inl g ↦ beq→eq a "grants" g
  | inr g ↦ let k : (a == b) ≡ true = (eq_iff a b).1 e in absurd (ground arith)
]

rows_apart-shared :
    {role other c d : String} {k j : Option String} (a : Allows role c k) (b : Allows other d j)
    → rows_apart a.info b.info ≡ true
    → collection_of a.entry ≡ collection_of b.entry
    → (a.info.conflict_domain ≡ b.info.conflict_domain) ⊎ (collection_of a.entry ≡ "grants")
rows_apart-shared a b h shared =
    elim (Bool-cases (a.info.conflict_domain == b.info.conflict_domain)) [
      | inl same ↦ inl (beq→eq a.info.conflict_domain b.info.conflict_domain same)
      | inr differ ↦
          let outer =
            all-In
              (λ p.
                all (λ q. pair_apart (collection_of p) (collection_of q))
                  b.info.permitted_collections)
              a.info.permitted_collections (rw differ at h) a.granted in
          let inner =
            all-In (λ q. pair_apart (collection_of a.entry) (collection_of q))
              b.info.permitted_collections outer b.granted in
          inr (pair_apart-grants (collection_of a.entry) (collection_of b.entry) inner shared)
    ]

-- Where two roles may use one collection, the table gives them one conflict domain, or the collection is the
-- grant log.
pub domains-apart :
    (role other c d : String)
    → is_action_permitted role c ≡ true
    → is_action_permitted other d ≡ true
    → root_segment c ≡ root_segment d
    → (domain_of role ≡ domain_of other) ⊎ (root_segment c ≡ "grants")
domains-apart role other c d hc hd shared =
    let a = is_action_permitted-Allows role c hc in
    let b = is_action_permitted-Allows other d hd in
    let one = row-property (λ x. all (λ y. rows_apart x.1 y.1) agent_sa_map) rows_apart-table a in
    let both = row-property (λ y. rows_apart a.info y.1) one b in
    elim (rows_apart-shared a b both (a.exact ∙ shared ∙ sym b.exact)) [
      | inl e ↦ inl (ap domain_in a.listed ∙ ap some e ∙ sym (ap domain_in b.listed))
      | inr e ↦ inr (sym a.exact ∙ e)
    ]
