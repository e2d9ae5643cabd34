-- ===== src/Agents/Propagator/Keeps.antt =====
-- Invariants of the steps of src/agents/revocation_propagator.py: what holds of the documents before a step
-- and after it, however it ends.
use hodi.Prelude.{String, ◌≡◌, ap, Option, none, some}
use hodi.Prelude.Tables.{get}
use hodi.Prelude.{Result, ok, err}
use hodi.Evidence.RevocationLint.{RevocationLintError}
use hodi.Gateway.Denial.{
  Dynamic, Dict, Gateway, GatewayError, Ambient, Reply, returned, raised, policy_denial,
  already_exists, attribute_error,
}
use hodi.Gateway.Policy.Audit.{Audited}
use hodi.Gateway.Documents.{bucket, or_empty, read_collection}
use hodi.Gateway.Documents.Appends.{document}
use hodi.Gateway.Documents.Reads.{read_collection-Audited}
use hodi.Agents.Propagator.Calls.{
  World, CascadeError, Outcome, done, failed, next, Step, or_raise, check, answer, call, world_of,
}

module _ {V : Type 0} where
  -- The documents that the gateway has written are the same.
  abbrev pub SameDocuments : Gateway V → Gateway V → Type 0
  SameDocuments g h = h.offline_writes ≡ g.offline_writes

  pub Audited-raised :
      (A : Type 0) (Kept : Gateway V → Type 0) (g h : Gateway V) (e : GatewayError V)
      → Audited {A = A} Kept g (raised e h)
      → SameDocuments g h
  Audited-raised A Kept g h (policy_denial denial) k = ap (λ (u : Gateway V). u.offline_writes) k
  Audited-raised A Kept g h (already_exists collection doc_id) k =
      ap (λ (u : Gateway V). u.offline_writes) k
  Audited-raised A Kept g h attribute_error k = ap (λ (u : Gateway V). u.offline_writes) k

  -- A property of the written documents.
  abbrev pub IsAboutDocuments : (Gateway V → Type 0) → Type 0
  IsAboutDocuments P = (g h : Gateway V) → SameDocuments g h → P g → P h

  -- The property holds after the step where it held before, whether the step raises or not.
  abbrev pub Keeps : {A : Type 0} → (Gateway V → Type 0) → Step V A → Type 0
  Keeps P m = (w : World V) → P w.gateway → P (world_of (m w)).gateway

  pub next-Keeps :
      {A B : Type 0} (P : Gateway V → Type 0) (o : Outcome V A) (f : A → Step V B)
      → P (world_of o).gateway
      → ((a : A) → Keeps P (f a))
      → P (world_of (next o f)).gateway
  next-Keeps P (done a w) f h k = k a w h
  next-Keeps P (failed e w) f h k = h

  pub or_raise-Keeps :
      {A : Type 0} (P : Gateway V → Type 0) (e : CascadeError V) (o : Option A)
      → Keeps P (or_raise e o)
  or_raise-Keeps P e none w h = h
  or_raise-Keeps P e (some a) w h = h

  pub check-Keeps :
      {A : Type 0} (P : Gateway V → Type 0) (o : Result RevocationLintError A) → Keeps P (check o)
  check-Keeps P (err e) w h = h
  check-Keeps P (ok a) w h = h

module _ {V : Type 0} ⦃d : Dynamic V⦄ where
  pub document-same :
      (collection doc_id : String) (g h : Gateway V)
      → SameDocuments g h
      → document collection doc_id h ≡ document collection doc_id g
  unfolding bucket
  document-same collection doc_id g h e = ap (λ t. get doc_id (or_empty (get collection t))) e

  read-same :
      {A : Type 0} (P : Gateway V → Type 0) (w : World V) (o : Reply V A)
      → IsAboutDocuments P
      → Audited (λ h. h ≡ w.gateway) w.gateway o
      → P w.gateway
      → P (world_of (answer o w)).gateway
  read-same P w (returned a g) closed k h =
      closed w.gateway g (ap (λ (u : Gateway V). u.offline_writes) k) h
  read-same {A} P w (raised e g) closed k h =
      closed w.gateway g (Audited-raised A (λ u. u ≡ w.gateway) w.gateway g e k) h

  -- A read changes no document.
  pub read-Keeps :
      (P : Gateway V → Type 0) (env : Ambient) (calling_sa calling_role_key collection : String)
      (filters : Option (Dict V))
      → IsAboutDocuments P
      → Keeps P
          (call (read_collection env calling_sa calling_role_key collection filters none none))
  read-Keeps P env calling_sa calling_role_key collection filters closed w h =
      read-same P w
        (read_collection env calling_sa calling_role_key collection filters none none w.gateway)
        closed
        (read_collection-Audited env calling_sa calling_role_key collection filters none none
          w.gateway)
        h
