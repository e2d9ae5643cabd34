-- ===== src/Api/Auth.antt =====
-- src/api/auth.py: a caller is who a stored credential says, where the request is signed with its secret. The
-- digests and the ISO parser are arguments: they are the standard library's.
pub mod Signed
use Prim.Native.String.{◌++◌ as text_append}
use hodi.Prelude.{
  ℕ, ◌+◌, ◌-◌, String, ◌≡◌, refl, sym, ap, ◌∙◌, inl, inr, Bool, true, false, not, ◌||◌, ◌↔◌, ◌≤◌,
  Option, none, some, ◌==◌, string_eq, ltb, if◌then◌else◌, Result, ok, err, ◌>>=◌, ◌>>◌, raise_if,
  Bool-cases, beq→eq, arith, eq_of_some, ltb→ge, >>=-eq-ok,
}
use hodi.Schema.Scope.{Timestamp, naive, aware}

pub record AuthenticatedCounterparty : Type 0 where
  pub counterparty_id : String
  pub key_id : String
  pub principal_type : String

-- A stored credential; a field that is absent is `none`.
pub record Credential : Type 0 where
  pub active : Option Bool
  pub secret : Option String
  pub counterparty_id : Option String
  pub principal_type : Option String

-- RequestAuthenticationError, by its sentence.
pub data AuthenticationError : Type 0 where
  headers_missing bad_timestamp outside_window verification_failed no_binding : AuthenticationError

pub record Digests : Type 0 where
  pub sha256 : String → String
  pub hmac_sha256 : (secret message : String) → String
  pub fromisoformat : String → Option Timestamp

-- The headers and the raw body of a request.
pub record SignedRequest : Type 0 where
  pub key_id : String
  pub issued_at : String
  pub signature : String
  pub body : String

-- 300 s in microseconds.
abbrev pub max_clock_skew : ℕ
max_clock_skew = 300000000

unfoldable pub compute_signature : Digests → (secret key_id issued_at body : String) → String
compute_signature t secret key_id issued_at body = t.hmac_sha256 secret (
    text_append key_id
      (text_append "\n" (text_append issued_at (text_append "\n" (t.sha256 body)))))

abbrev pub instant : Timestamp → ℕ
instant (naive wall) = wall
instant (aware at) = at

-- abs(a - b)
abbrev pub distance : ℕ → ℕ → ℕ
distance a b = (a - b) + (b - a)

abbrev pub is_blank : Option String → Bool
is_blank none = true
is_blank (some s) = s == ""

abbrev pub is_inactive : Option Bool → Bool
is_inactive none = false
is_inactive (some active) = not active

abbrev pub or_counterparty : Option String → String
or_counterparty none = "counterparty"
or_counterparty (some s) = s

-- The instant of the request, where its timestamp parses and is in the window.
unfoldable pub check_freshness :
    Digests → (now : ℕ) → String → Result AuthenticationError (Unit {0})
check_freshness t now issued_at = elim (t.fromisoformat issued_at) [
  | none ↦ err bad_timestamp
  | some issued ↦ raise_if (ltb max_clock_skew (distance now (instant issued))) outside_window
]

unfoldable pub bound :
    SignedRequest
    → Credential
    → Option String
    → Result AuthenticationError AuthenticatedCounterparty
bound q c none = err no_binding
bound q c (some counterparty_id) =
    if counterparty_id == ""
    then err no_binding
    else ok (record {
      counterparty_id = counterparty_id;
      key_id = q.key_id;
      principal_type = or_counterparty c.principal_type;
    })

-- After the window: the record, its secret, and the comparison of the signatures.
unfoldable pub verify :
    Digests
    → SignedRequest
    → Option Credential
    → Result AuthenticationError AuthenticatedCounterparty
unfolding compute_signature bound
verify t q none = err verification_failed
verify t q (some c) = elim c.secret [
  | none ↦ err verification_failed
  | some secret ↦
      if is_inactive c.active || secret == ""
      then err verification_failed
      else if compute_signature t secret q.key_id q.issued_at q.body == q.signature
      then bound q c c.counterparty_id
      else err verification_failed
]

unfoldable pub authenticate :
    Digests
    → SignedRequest
    → (store : String → Option Credential) → (now : ℕ)
    → Result AuthenticationError AuthenticatedCounterparty
unfolding check_freshness verify
authenticate t q store now =
    raise_if (q.key_id == "" || q.signature == "" || q.issued_at == "") headers_missing
    >> check_freshness t now q.issued_at
    >> verify t q (store q.key_id)
