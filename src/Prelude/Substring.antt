-- ===== src/Prelude/Substring.antt =====
-- Looking for a text in a text, as Python's `in` on `str` and `re.search` do.
use Prim.Native.Char.{code}
use Prim.Native.String.{String, [], ◌∷◌, ◌++◌}
use mathlib.Core.Path.{◌≡◌}
use mathlib.Core.Logic.{inl, inr}
use mathlib.Core.Bool.{Bool, true, false, ◌&&◌, ◌||◌}
use mathlib.Core.Option.{Option, none, some}
use native.Mathlib.Omega.{arith}
use text.Mathlib.TextLemmas.{nil-append, cons-append}
use hodi.Prelude.Tests.{nat_beq, if◌then◌else◌, Bool-cases}

unfoldable pub is_prefix : String → String → Bool
is_prefix [] t = true
is_prefix (c ∷ s) [] = false
is_prefix (c ∷ s) (d ∷ t) = nat_beq (code c) (code d) && is_prefix s t

-- What follows the prefix, where the text has it.
unfoldable pub after_prefix : String → String → Option String
after_prefix [] t = some t
after_prefix (c ∷ s) [] = none
after_prefix (c ∷ s) (d ∷ t) =
    let rest = after_prefix s t in if nat_beq (code c) (code d) then rest else none

-- The test holds of the text from some position on.
unfoldable pub somewhere : (String → Bool) → String → Bool
somewhere p [] = p []
somewhere p (c ∷ t) = p (c ∷ t) || somewhere p t

-- The same, from a position on the first line.
unfoldable pub on_this_line : (String → Bool) → String → Bool
on_this_line p [] = p []
on_this_line p (c ∷ t) =
    let later = on_this_line p t in p (c ∷ t) || (if nat_beq (code c) 10 then false else later)

-- `s in t`
unfoldable pub has_text : String → String → Bool
unfolding somewhere is_prefix
has_text s t = somewhere (is_prefix s) t

is_prefix-suffix : (s r t : String) → is_prefix (s ++ r) t ≡ true → somewhere (is_prefix r) t ≡ true
unfolding is_prefix somewhere
is_prefix-suffix [] r [] h = rw (nil-append r) at h
is_prefix-suffix [] r (d ∷ t) h =
    let k : is_prefix r (d ∷ t) ≡ true = rw (nil-append r) at h in ground arith
is_prefix-suffix (c ∷ s) r [] h = let k : false ≡ true = rw (cons-append c s r) at h in absurd (cc)
is_prefix-suffix (c ∷ s) r (d ∷ t) h =
    let k : (nat_beq (code c) (code d) && is_prefix (s ++ r) t) ≡ true =
      rw (cons-append c s r) at h in
    let later = is_prefix-suffix s r t (ground arith) in ground arith

-- What holds a text holds the text's end.
pub has_text-suffix : (s r t : String) → has_text (s ++ r) t ≡ true → has_text r t ≡ true
unfolding has_text somewhere
has_text-suffix s r [] h = is_prefix-suffix s r [] h
has_text-suffix s r (c ∷ t) h = elim (Bool-cases (is_prefix (s ++ r) (c ∷ t))) [
  | inl e ↦ is_prefix-suffix s r (c ∷ t) e
  | inr e ↦ let k = has_text-suffix s r t in ground arith
]
