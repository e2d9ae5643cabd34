-- ===== src/Agents/NoticeDrafter.antt =====
-- src/llm/notice_drafter.py: a drafted notice is used only after the lint, and so is the template. The
-- generator is an argument, `none` where it is unavailable; so are `str.lower` and `str.strip`.
use mathlib.Core.Path.{subst}
use hodi.Prelude.{
  String, ◌≡◌, refl, ap, Bool, true, Option, none, some, Result, ok, err, ◌>>=◌, >>=-eq-ok,
}
use hodi.Evidence.RevocationLint.{RevocationLintError, check_notice}
use hodi.Evidence.RevocationLint.Verdicts.{check_notice-true}

abbrev pub template_notice_text : String
template_notice_text =
    "This grant is hereby terminated. Please note that this revocation terminates the legal license but does not un-train the model."

pub data NoticeSource : Type 0 where
  gemini_drafted deterministic_template : NoticeSource

-- What the drafter calls.
pub record Drafting : Type 0 where
  pub generate : (grant_id work_id counterparty_id : String) → Option String
  pub lower : String → String
  pub strip : String → String

-- After the `except` clause.
unfoldable pub use_template : Drafting → Result RevocationLintError (String × NoticeSource)
unfolding check_notice
use_template t = check_notice t.lower template_notice_text >>= λ _.
    ok (template_notice_text, deterministic_template)

abbrev pub linted :
    Drafting
    → String
    → Result RevocationLintError Bool
    → Result RevocationLintError (String × NoticeSource)
linted t drafted (ok _) = ok (drafted, gemini_drafted)
linted t drafted (err e) = use_template t

abbrev pub drafted_or_template :
    Drafting → Option String → Result RevocationLintError (String × NoticeSource)
drafted_or_template t none = use_template t
drafted_or_template t (some text) = linted t (t.strip text) (check_notice t.lower (t.strip text))

unfoldable pub draft :
    Drafting
    → (grant_id work_id counterparty_id : String)
    → Result RevocationLintError (String × NoticeSource)
unfolding use_template check_notice
draft t grant_id work_id counterparty_id =
    drafted_or_template t (t.generate grant_id work_id counterparty_id)

-- The template, where the drafter returns it, has passed the lint.
use_template-linted :
    (t : Drafting) (text : String) (source : NoticeSource)
    → use_template t ≡ ok (text, source)
    → check_notice t.lower text ≡ ok true
unfolding use_template
use_template-linted t text source h =
    let passed = >>=-eq-ok (check_notice t.lower template_notice_text) _ h in
    let same : template_notice_text ≡ text = ap (λ p. p.0) (ok_pair passed.2) in
    subst (λ u. check_notice t.lower u ≡ ok true) same
      (check_notice-true t.lower template_notice_text passed.0 passed.1)
  where
    ok_pair :
        {a b : String × NoticeSource}
        → ◌≡◌ {A = Result RevocationLintError (String × NoticeSource)} (ok a) (ok b)
        → a ≡ b
    ok_pair e = cc

-- Every text that the drafter returns has passed the lint, whatever the generator produced and
-- whether it was available.
pub draft-linted :
    (t : Drafting) (grant_id work_id counterparty_id text : String) (source : NoticeSource)
    → draft t grant_id work_id counterparty_id ≡ ok (text, source)
    → check_notice t.lower text ≡ ok true
unfolding draft
draft-linted t grant_id work_id counterparty_id text source =
    cases (t.generate grant_id work_id counterparty_id)
  where
    linted_cases :
        (drafted : String) (r : Result RevocationLintError Bool)
        → check_notice t.lower drafted ≡ r
        → linted t drafted r ≡ ok (text, source)
        → check_notice t.lower text ≡ ok true
    linted_cases drafted (err e) k h = use_template-linted t text source h
    linted_cases drafted (ok b) k h =
        let same : drafted ≡ text = cc in
        subst (λ u. check_notice t.lower u ≡ ok true) same (check_notice-true t.lower drafted b k)

    cases :
        (generated : Option String)
        → drafted_or_template t generated ≡ ok (text, source)
        → check_notice t.lower text ≡ ok true
    cases none h = use_template-linted t text source h
    cases (some drafted) h =
        linted_cases (t.strip drafted) (check_notice t.lower (t.strip drafted)) refl h
