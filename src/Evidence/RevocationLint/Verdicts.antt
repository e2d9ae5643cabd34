-- ===== src/Evidence/RevocationLint/Verdicts.antt =====
-- What the lint of src/evidence/revocation_lint.py lets through.
use hodi.Prelude.{
  String, ◌≡◌, ◌≢◌, ◌⊎◌, refl, ◌↔◌, inl, inr, Bool, true, false, not, List, [], ◌∷◌, arith,
  Bool-cases, Result, ok, err, ◌>>◌, raise_if,
}
use hodi.Prelude.Substring.{has_text, has_text-suffix}
use hodi.Evidence.RevocationLint.{
  Pattern, search, termination_patterns, disclaimer_patterns, overclaim_patterns,
  RevocationLintError, no_termination, no_disclaimer, finds, check_overclaims, check_notice,
}

check_overclaims_iff :
    (patterns : List Pattern) (text : String)
    → (check_overclaims patterns text ≡ ok tt) ↔ (finds patterns text ≡ false)
unfolding check_overclaims finds
check_overclaims_iff [] text = (λ h. refl, λ h. refl)
check_overclaims_iff (p ∷ rest) text = elim (Bool-cases (search p text)) [
  | inl e ↦ rw e (λ h. absurd (cc), λ h. absurd (cc))
  | inr e ↦ rw e (check_overclaims_iff rest text)
]

-- The notice passes exactly where its lower-cased text states the termination, states the
-- limitation, and has none of the overclaims.
pub check_notice_iff :
    (lower : String → String) (notice : String)
    → (check_notice lower notice ≡ ok true) ↔ (
        (finds termination_patterns (lower notice) ≡ true)
        × (finds disclaimer_patterns (lower notice) ≡ true)
        × (finds overclaim_patterns (lower notice) ≡ false))
unfolding check_notice
check_notice_iff lower notice =
    cases (finds termination_patterns (lower notice)) (finds disclaimer_patterns (lower notice))
      (check_overclaims overclaim_patterns (lower notice))
      (check_overclaims_iff overclaim_patterns (lower notice))
  where
    cases :
        (t d : Bool) (r : Result RevocationLintError (Unit {0})) {o : Bool}
        → (r ≡ ok tt) ↔ (o ≡ false)
        → ((raise_if (not t) no_termination >> raise_if (not d) no_disclaimer >> r >> ok true)
            ≡ ok true)
          ↔ ((t ≡ true) × (d ≡ true) × (o ≡ false))
    cases false d r k = (λ h. absurd (cc), λ h. absurd (cc (h.0)))
    cases true false r k = (λ h. absurd (cc), λ h. absurd (cc (h.1)))
    cases true true (err e) k = (λ h. absurd (cc), λ h. absurd (cc (k.1 h.2)))
    cases true true (ok tt) k = (λ h. (refl, refl, k.0 refl), λ h. refl)

-- The lint answers True, or raises.
pub check_notice-true :
    (lower : String → String) (notice : String) (b : Bool)
    → check_notice lower notice ≡ ok b
    → check_notice lower notice ≡ ok true
unfolding check_notice
check_notice-true lower notice b h =
    ends
      (raise_if (not (finds termination_patterns (lower notice))) no_termination
        >> raise_if (not (finds disclaimer_patterns (lower notice))) no_disclaimer
        >> check_overclaims overclaim_patterns (lower notice))
      h
  where
    ends :
        (r : Result RevocationLintError (Unit {0}))
        → (r >> ok true) ≡ ok b
        → (r >> ok true) ≡ ok true
    ends (ok tt) h = refl
    ends (err e) h = absurd (cc)

finds-overclaim :
    (text : String)
    → has_text "unlearn" text ≡ true ⊎ has_text "model will forget" text ≡ true
    → finds overclaim_patterns text ≡ true
unfolding finds search
finds-overclaim text (inl h) = ground arith
finds-overclaim text (inr h) = ground arith

-- Two of the six disclaimers that the lint asks for can never pass it: each contains an overclaim,
-- so a notice with either of them is refused, whatever else it says.
pub check_notice-refuses_own_disclaimers :
    (lower : String → String) (notice : String)
    → (has_text "does not constitute a mandate to unlearn" (lower notice) ≡ true)
      ⊎ (has_text "does not mean the model will forget" (lower notice) ≡ true)
    → check_notice lower notice ≢ ok true
check_notice-refuses_own_disclaimers lower notice h e =
    let clean = ((check_notice_iff lower notice).0 e).2 in
    let found = finds-overclaim (lower notice) (elim h [
      | inl k ↦ inl (has_text-suffix "does not constitute a mandate to " "unlearn" (lower notice) k)
      | inr k ↦ inr (has_text-suffix "does not mean the " "model will forget" (lower notice) k)
    ]) in
    absurd (cc)
