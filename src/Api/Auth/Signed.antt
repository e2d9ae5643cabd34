-- ===== src/Api/Auth/Signed.antt =====
-- What a request that src/api/auth.py authenticates has shown.
use hodi.Prelude.{
  ℕ, String, ◌≡◌, refl, sym, ap, inl, inr, false, ◌||◌, ◌≤◌, Option, none, some, ◌==◌, string_eq,
  ltb, if◌then◌else◌, Result, ok, err, ◌>>◌, raise_if, Bool-cases, beq→eq, arith, ltb→ge, >>=-eq-ok,
}
use hodi.Schema.Scope.{Timestamp}
use hodi.Api.Auth.{
  AuthenticatedCounterparty, Credential, AuthenticationError, headers_missing, outside_window,
  bad_timestamp, verification_failed, no_binding, Digests, SignedRequest, max_clock_skew,
  compute_signature, instant, distance, is_inactive, or_counterparty, check_freshness, bound,
  verify, authenticate,
}

-- Why an authenticated request is the credential's.
pub record IsSigned (t : Digests) (q : SignedRequest) (store : String → Option Credential) (now : ℕ)
    (who : AuthenticatedCounterparty) : Type 0 where
  pub credential : Credential
  pub known : store q.key_id ≡ some credential
  pub secret : String
  pub held : credential.secret ≡ some secret
  pub active : is_inactive credential.active ≡ false
  pub issued : Timestamp
  pub dated : t.fromisoformat q.issued_at ≡ some issued
  pub recent : distance now (instant issued) ≤ max_clock_skew
  pub signed : compute_signature t secret q.key_id q.issued_at q.body ≡ q.signature
  pub bound_to : credential.counterparty_id ≡ some who.counterparty_id
  pub key : who.key_id ≡ q.key_id

bound-ok :
    (q : SignedRequest) (c : Credential) (o : Option String) (who : AuthenticatedCounterparty)
    → bound q c o ≡ ok who
    → (o ≡ some who.counterparty_id) × (who.key_id ≡ q.key_id)
unfolding bound
bound-ok q c none who h = absurd (cc)
bound-ok q c (some counterparty_id) who h = elim (Bool-cases (counterparty_id == "")) [
  | inl e ↦ let k : err no_binding ≡ ok who = rw e at h in absurd (cc)
  | inr e ↦
      let k : ◌≡◌ {A = Result AuthenticationError AuthenticatedCounterparty}
          (ok (record {
            counterparty_id = counterparty_id;
            key_id = q.key_id;
            principal_type = or_counterparty c.principal_type;
          }))
          (ok who) =
        rw e at h in
      (
        ap (λ (w : AuthenticatedCounterparty). some w.counterparty_id) (ok_path k),
        sym (ap (λ (w : AuthenticatedCounterparty). w.key_id) (ok_path k)),
      )
]
  where
    ok_path :
        {a b : AuthenticatedCounterparty}
        → ◌≡◌ {A = Result AuthenticationError AuthenticatedCounterparty} (ok a) (ok b)
        → a ≡ b
    ok_path p = cc

check_freshness-ok :
    (t : Digests) (now : ℕ) (issued_at : String)
    → check_freshness t now issued_at ≡ ok tt
    → (issued : Timestamp) × (t.fromisoformat issued_at ≡ some issued)
      × (distance now (instant issued) ≤ max_clock_skew)
unfolding check_freshness
check_freshness-ok t now issued_at = cases (t.fromisoformat issued_at) refl
  where
    cases :
        (o : Option Timestamp)
        → t.fromisoformat issued_at ≡ o
        → elim o [
          | none ↦ err bad_timestamp
          | some issued ↦
              raise_if (ltb max_clock_skew (distance now (instant issued))) outside_window
        ]
          ≡ ok tt
        → (issued : Timestamp) × (t.fromisoformat issued_at ≡ some issued)
          × (distance now (instant issued) ≤ max_clock_skew)
    cases none e h = absurd (cc)
    cases (some issued) e h =
        elim (Bool-cases (ltb max_clock_skew (distance now (instant issued)))) [
          | inl k ↦ let p : err outside_window ≡ ok tt = rw k at h in absurd (cc)
          | inr k ↦ (issued, e, ltb→ge max_clock_skew (distance now (instant issued)) k)
        ]

verify-ok :
    (t : Digests) (q : SignedRequest) (c : Credential) (who : AuthenticatedCounterparty)
    → verify t q (some c) ≡ ok who
    → (secret : String) × (c.secret ≡ some secret)
      × (is_inactive c.active ≡ false)
      × (compute_signature t secret q.key_id q.issued_at q.body ≡ q.signature)
      × (c.counterparty_id ≡ some who.counterparty_id)
      × (who.key_id ≡ q.key_id)
unfolding verify
verify-ok t q c who = cases c.secret refl
  where
    cases :
        (o : Option String)
        → c.secret ≡ o
        → elim o [
          | none ↦ err verification_failed
          | some secret ↦
              if is_inactive c.active || secret == ""
              then err verification_failed
              else if compute_signature t secret q.key_id q.issued_at q.body == q.signature
              then bound q c c.counterparty_id
              else err verification_failed
        ]
          ≡ ok who
        → (secret : String) × (c.secret ≡ some secret)
          × (is_inactive c.active ≡ false)
          × (compute_signature t secret q.key_id q.issued_at q.body ≡ q.signature)
          × (c.counterparty_id ≡ some who.counterparty_id)
          × (who.key_id ≡ q.key_id)
    cases none e h = absurd (cc)
    cases (some secret) e h = elim (Bool-cases (is_inactive c.active || secret == "")) [
      | inl k ↦ let p : err verification_failed ≡ ok who = rw k at h in absurd (cc)
      | inr k ↦
          elim (Bool-cases
            (compute_signature t secret q.key_id q.issued_at q.body == q.signature)) [
              | inl s ↦
                  let p : bound q c c.counterparty_id ≡ ok who = rw (k, s) at h in
                  let (b, i) = bound-ok q c c.counterparty_id who p in
                  (secret, e, ground arith, beq→eq _ q.signature s, b, i)
              | inr s ↦ let p : err verification_failed ≡ ok who = rw (k, s) at h in absurd (cc)
            ]
    ]

-- A request that authenticates is signed: its key names a stored, active credential, its signature is
-- the keyed digest of its own key, timestamp and body under that credential's secret, it is at most
-- 300 s away from the clock, and the counterparty is the one that the credential is bound to.
pub authenticate-IsSigned :
    (t : Digests) (q : SignedRequest) (store : String → Option Credential) (now : ℕ)
    (who : AuthenticatedCounterparty)
    → authenticate t q store now ≡ ok who
    → IsSigned t q store now who
unfolding authenticate
authenticate-IsSigned t q store now who h =
    let outer =
      >>=-eq-ok
        (raise_if (q.key_id == "" || q.signature == "" || q.issued_at == "") headers_missing
          >> check_freshness t now q.issued_at)
        _ h in
    let inner =
      >>=-eq-ok
        (raise_if (q.key_id == "" || q.signature == "" || q.issued_at == "") headers_missing) _
        outer.1 in
    let (issued, dated, recent) = check_freshness-ok t now q.issued_at inner.2 in
    cases (store q.key_id) refl outer.2 issued dated recent
  where
    cases :
        (o : Option Credential)
        → store q.key_id ≡ o
        → verify t q o ≡ ok who
        → (issued : Timestamp) → t.fromisoformat q.issued_at ≡ some issued
        → distance now (instant issued) ≤ max_clock_skew
        → IsSigned t q store now who
    cases none e k issued dated recent = absurd (cc)
    cases (some c) e k issued dated recent =
        let (secret, held, active, signed, bound_to, key) = verify-ok t q c who k in
        record {
          credential = c;
          known = e;
          secret = secret;
          held = held;
          active = active;
          issued = issued;
          dated = dated;
          recent = recent;
          signed = signed;
          bound_to = bound_to;
          key = key;
        }
