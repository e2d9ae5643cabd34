-- ===== src/Evidence/Tests.antt =====
-- Runs of src/evidence/revocation_lint.py and src/llm/notice_drafter.py.
use hodi.Prelude.{String, ◌≡◌, ◌≢◌, ◌↔◌, refl, inl, true, false, none, ok}
use hodi.Prelude.Substring.{has_text}
use hodi.Evidence.RevocationLint.{
  termination_patterns, disclaimer_patterns, overclaim_patterns, finds, check_notice,
}
use hodi.Evidence.RevocationLint.Verdicts.{check_notice_iff, check_notice-refuses_own_disclaimers}
use hodi.Agents.NoticeDrafter.{
  Drafting, template_notice_text, deterministic_template, draft, draft-linted,
}

abbrev as_is : String → String
as_is s = s

abbrev modest : String
modest = "this grant is terminated. it does not constitute a mandate to unlearn."

check_notice_iff_example : (check_notice as_is modest ≡ ok true) ↔ (
    (finds termination_patterns modest ≡ true)
    × (finds disclaimer_patterns modest ≡ true)
    × (finds overclaim_patterns modest ≡ false))
check_notice_iff_example = check_notice_iff as_is modest

check_notice-refuses_own_disclaimers_example : check_notice as_is modest ≢ ok true
unfolding has_text
check_notice-refuses_own_disclaimers_example =
    check_notice-refuses_own_disclaimers as_is modest (inl refl)

abbrev offline : Drafting
offline = record { generate = λ g w c. none; lower = as_is; strip = as_is }

draft-linted_example : check_notice as_is template_notice_text ≡ ok true
unfolding draft
draft-linted_example =
    draft-linted offline "g1" "w1" "c1" template_notice_text deterministic_template refl
