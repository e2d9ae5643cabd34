-- ===== src/Evidence/RevocationLint.antt =====
-- src/evidence/revocation_lint.py: the lint of a revocation notice. The regular expressions are data, and
-- `re.search` of one is `search`. `str.lower` is an argument: its case tables are not the repository's.
pub mod Verdicts
use hodi.Prelude.{
  String, Bool, true, false, not, ◌||◌, Option, none, some, List, [], ◌∷◌, any, Result, ok, err,
  ◌>>=◌, ◌>>◌, raise_if, if◌then◌else◌,
}
use hodi.Prelude.Substring.{is_prefix, after_prefix, somewhere, on_this_line, has_text}

-- A literal text; a text that ends in one of several ways; two texts on one line, in this order.
pub data Pattern : Type 0 where
  literal : String → Pattern
  ending : (stem : String) → List String → Pattern
  in_line : (first last : String) → Pattern

abbrev pub continues : (String → Bool) → Option String → Bool
continues p none = false
continues p (some rest) = p rest

-- `re.search(pattern, text)`
unfoldable pub search : Pattern → String → Bool
unfolding has_text somewhere after_prefix on_this_line
search (literal s) text = has_text s text
search (ending stem ends) text =
    somewhere (λ t. continues (λ rest. any (λ e. is_prefix e rest) ends) (after_prefix stem t)) text
search (in_line first last) text =
    somewhere (λ t. continues (on_this_line (is_prefix last)) (after_prefix first t)) text

abbrev pub termination_patterns : List Pattern
termination_patterns =
    literal "terminate" ∷ ending "revok" ("e" ∷ "ed" ∷ "ation" ∷ []) ∷ literal "rescind" ∷ []

abbrev pub disclaimer_patterns : List Pattern
disclaimer_patterns =
    literal "does not imply removal"
    ∷ literal "does not un-train"
    ∷ literal "cannot un-train"
    ∷ literal "does not require removal from existing models"
    ∷ literal "does not constitute a mandate to unlearn"
    ∷ literal "does not mean the model will forget"
    ∷ []

abbrev pub overclaim_patterns : List Pattern
overclaim_patterns =
    literal "will be removed from the model"
    ∷ literal "model will forget"
    ∷ literal "deletes your data from their system"
    ∷ literal "will un-train"
    ∷ literal "unlearn"
    ∷ literal "erased from the weights"
    ∷ in_line "purge" "from the model"
    ∷ []

-- RevocationLintError, by its sentence.
pub data RevocationLintError : Type 0 where
  no_termination no_disclaimer : RevocationLintError
  overclaim : Pattern → RevocationLintError

-- any(re.search(p, text_lower) for p in patterns)
unfoldable pub finds : List Pattern → String → Bool
unfolding search
finds patterns text_lower = any (λ p. search p text_lower) patterns

unfoldable pub check_overclaims : List Pattern → String → Result RevocationLintError (Unit {0})
unfolding search
check_overclaims [] text_lower = ok tt
check_overclaims (pattern ∷ rest) text_lower =
    raise_if (search pattern text_lower) (overclaim pattern) >> check_overclaims rest text_lower

unfoldable pub check_notice : (lower : String → String) → String → Result RevocationLintError Bool
unfolding finds check_overclaims
check_notice lower notice_text =
    raise_if (not (finds termination_patterns (lower notice_text))) no_termination
    >> raise_if (not (finds disclaimer_patterns (lower notice_text))) no_disclaimer
    >> check_overclaims overclaim_patterns (lower notice_text)
    >> ok true
