-- ===== src/Agents/Propagator/Inversion.antt =====
-- The steps of src/agents/revocation_propagator.py, read from an outcome that returned.
use hodi.Prelude.{◌≡◌, refl, Option, none, some, Result, ok, err}
use hodi.Evidence.RevocationLint.{RevocationLintError}
use hodi.Gateway.Denial.{Gateway, Reply, returned, raised}
use hodi.Agents.Propagator.Calls.{
  World, CascadeError, Outcome, done, failed, next, Step, or_raise, check, answer,
}

module _ {V : Type 0} where
  pub done-injective :
      {A : Type 0} {a b : A} {u v : World V} → done a u ≡ done b v → (a ≡ b) × (u ≡ v)
  done-injective e = (cc, cc)

  pub next-done :
      {A B : Type 0} (o : Outcome V A) (f : A → Step V B) {b : B} {v : World V}
      → next o f ≡ done b v
      → (a : A) × (u : World V) × (o ≡ done a u) × (f a u ≡ done b v)
  next-done (done a u) f e = (a, u, refl, e)
  next-done (failed x u) f e = absurd (cc)

  pub or_raise-done :
      {A : Type 0} (e : CascadeError V) (o : Option A) (w : World V) {a : A} {u : World V}
      → or_raise e o w ≡ done a u
      → (o ≡ some a) × (u ≡ w)
  or_raise-done e none w k = absurd (cc)
  or_raise-done e (some b) w k = (cc, cc)

  pub check-done :
      {A : Type 0} (o : Result RevocationLintError A) (w : World V) {a : A} {u : World V}
      → check o w ≡ done a u
      → (o ≡ ok a) × (u ≡ w)
  check-done (err x) w k = absurd (cc)
  check-done (ok b) w k = (cc, cc)

  pub answer-done :
      {A : Type 0} (o : Reply V A) (w : World V) {a : A} {u : World V}
      → answer o w ≡ done a u
      → (g : Gateway V) × (o ≡ returned a g) × (u ≡ record w { gateway = g })
  answer-done (returned b g) w k = (g, cc, cc)
  answer-done (raised x g) w k = absurd (cc)
