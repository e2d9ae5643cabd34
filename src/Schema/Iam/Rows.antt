-- ===== src/Schema/Iam/Rows.antt =====
-- Where a permission of src/schema/iam_policy.py comes from.
use hodi.Prelude.Tables.{get, get-In}
use hodi.Prelude.{
  String, ◌≡◌, refl, ap, sym, eq_of_some, ◌∙◌, inl, inr, Bool, true, false, Option, none, some,
  List, [], ◌∷◌, arith, ◌==◌, string_eq, beq→eq, contains, all, all-In, In, here, there, Bool-cases,
}
use hodi.Schema.Iam.{
  Permission, whole, keyed, AgentInfo, agent_sa_map, root_segment, find_permission, permission_of,
  permission_in, get_action_permission, is_action_permitted,
}

abbrev pub collection_of : Permission → String
collection_of (whole c) = c
collection_of (keyed c key) = c

abbrev pub key_of : Permission → Option String
key_of (whole c) = none
key_of (keyed c key) = some key

-- An entry of the table that lets `role` use `collection`, under the required filter key `key`.
pub record Allows (role collection : String) (key : Option String) : Type 0 where
  pub info : AgentInfo
  pub entry : Permission
  pub listed : get role agent_sa_map ≡ some info
  pub granted : In entry info.permitted_collections
  pub exact : collection_of entry ≡ root_segment collection
  pub demands : key_of entry ≡ key
  pub not_denied : contains (root_segment collection) info.denied_collections ≡ false

find_permission-entry :
    (root : String) (l : List Permission) (key : Option String)
    → find_permission root l ≡ (true, key)
    → (p : Permission) × In p l × (collection_of p ≡ root) × (key_of p ≡ key)
unfolding find_permission
find_permission-entry root [] key h = absurd (ground arith)
find_permission-entry root (whole c ∷ l) key h = elim (Bool-cases (root == c)) [
  | inl e ↦ (
    whole c,
    here refl,
    sym (beq→eq root c e),
    ap (λ (x : Bool × Option String). x.1) (rw e at h),
  )
  | inr e ↦ let (p, m, q, k) = find_permission-entry root l key (rw e at h) in (p, there m, q, k)
]
find_permission-entry root (keyed c j ∷ l) key h = elim (Bool-cases (root == c)) [
  | inl e ↦ (
    keyed c j,
    here refl,
    sym (beq→eq root c e),
    ap (λ (x : Bool × Option String). x.1) (rw e at h),
  )
  | inr e ↦ let (p, m, q, k) = find_permission-entry root l key (rw e at h) in (p, there m, q, k)
]

permission_of-entry :
    (info : AgentInfo) (collection : String) (key : Option String)
    → permission_of info collection ≡ (true, key)
    → (contains (root_segment collection) info.denied_collections ≡ false)
      × (find_permission (root_segment collection) info.permitted_collections ≡ (true, key))
unfolding permission_of
permission_of-entry info collection key h = ground arith

of_info :
    (role collection : String) (key : Option String) (found : Option AgentInfo)
    → get role agent_sa_map ≡ found
    → permission_in found collection ≡ (true, key)
    → Allows role collection key
of_info role collection key none e h = absurd (ground arith)
of_info role collection key (some info) e h =
    let (n, f) = permission_of-entry info collection key h in
    let (p, m, q, k) =
      find_permission-entry (root_segment collection) info.permitted_collections key f in
    record {
      info = info;
      entry = p;
      listed = e;
      granted = m;
      exact = q;
      demands = k;
      not_denied = n;
    }

get_action_permission-info :
    (role collection : String)
    → get_action_permission role collection ≡ permission_in (get role agent_sa_map) collection
unfolding get_action_permission
get_action_permission-info role collection = refl

-- A permission comes from an entry of the role's own list that names the root of the collection
-- exactly, with that entry's filter key, and never against a denial of the role.
pub get_action_permission-Allows :
    (role collection : String) (key : Option String)
    → get_action_permission role collection ≡ (true, key)
    → Allows role collection key
get_action_permission-Allows role collection key h =
    of_info role collection key (get role agent_sa_map) refl
      (sym (get_action_permission-info role collection) ∙ h)

pub is_action_permitted-Allows :
    (role collection : String)
    → is_action_permitted role collection ≡ true
    → Allows role collection (get_action_permission role collection).1
unfolding is_action_permitted
is_action_permitted-Allows role collection h =
    get_action_permission-Allows role collection (get_action_permission role collection).1
      (λ i. (h i, (get_action_permission role collection).1))

-- A property of the table's rows holds of the entries by which a role is allowed anything.
pub row-property :
    {role c : String} {key : Option String} (p : String × AgentInfo → Bool)
    → all p agent_sa_map ≡ true
    → (a : Allows role c key) → p (role, a.info) ≡ true
row-property {role} p h a = all-In p agent_sa_map h (get-In role agent_sa_map a.info a.listed)

pub same_info :
    {role c d : String} {k j : Option String} (a : Allows role c k) (b : Allows role d j)
    → a.info ≡ b.info
same_info a b = eq_of_some (sym a.listed ∙ b.listed)
