-- ===== src/Schema/Revocation.antt =====
-- src/schema/revocation.py: the documents of a revocation, and the ids of its effects. The digest is an
-- argument: sha256 is not the repository's.
use Prim.Native.String.{◌++◌ as text_append}
use text.Mathlib.TextLemmas.{append_cancel_left, append_cancel_right}
use hodi.Prelude.{ℕ, String, ◌≡◌}

pub record RevocationNotice : Type 0 where
  pub grant_id : String
  pub counterparty_id : String
  pub revoked_at : ℕ
  pub notice_text : String

pub record RevocationReceipt : Type 0 where
  pub revocation_id : String
  pub grant_id : String
  pub counterparty_id : String
  pub revoked_at : ℕ
  pub signature : String

pub record NoticeOutboxRecord : Type 0 where
  pub outbox_id : String
  pub operation_id : String
  pub grant_id : String
  pub work_id : String
  pub counterparty_id : String
  pub notice_text : String
  pub revoked_at : ℕ
  pub created_at : ℕ

-- f"{operation_id}:{grant_id}:{effect}"
abbrev pub effect_key : (operation_id grant_id effect : String) → String
effect_key operation_id grant_id effect =
    text_append operation_id (text_append ":" (text_append grant_id (text_append ":" effect)))

unfoldable pub revocation_effect_id :
    (sha256 : String → String) → (operation_id grant_id effect : String) → String
revocation_effect_id sha256 operation_id grant_id effect =
    sha256 (effect_key operation_id grant_id effect)

-- The digest tells two keys apart.
abbrev pub IsCollisionFree : (String → String) → Type 0
IsCollisionFree sha256 = (s t : String) → sha256 s ≡ sha256 t → s ≡ t

-- One operation has one id for an effect on a grant: no two grants share it.
pub revocation_effect_id-grant :
    (sha256 : String → String) (operation_id effect : String) (a b : String)
    → IsCollisionFree sha256
    → revocation_effect_id sha256 operation_id a effect
      ≡ revocation_effect_id sha256 operation_id b effect
    → a ≡ b
unfolding revocation_effect_id
revocation_effect_id-grant sha256 operation_id effect a b free e =
    append_cancel_right a b (text_append ":" effect) (
      append_cancel_left ":" _ _ (
        append_cancel_left operation_id _ _
          (free (effect_key operation_id a effect) (effect_key operation_id b effect) e)))
