-- ===== src/Pomelo/Signature.antt =====
-- The signatures of src/modules/pomelo/webhook/pomelo.webhook.service.ts: `computeSignature`,
-- `verifySignature` and the two that sign a response. Texts are compared as lists of codes.
use Prim.Native.Char.{code}
use noba_server.Common.Base.{
  ℕ, ◌==◌, String, Bool, true, false, Option, none, some, List, [], ◌∷◌, ◌++◌, if◌then◌else◌,
}
use noba_server.Common.Action.{Action, pure, from_result, ◌>>◌}
use noba_server.Pomelo.Domain.{PomeloAdjustmentType}
use noba_server.Pomelo.Environment.{Environment, World, raise_error}

-- The codes of a text's characters.
abbrev pub codes : String → List ℕ
codes String.[] = []
codes (String.◌∷◌ c s) = code c ∷ codes s

-- What follows a prefix.
unfoldable pub strip_prefix : (prefix s : List ℕ) → Option (List ℕ)
strip_prefix [] s = some s
strip_prefix (c ∷ prefix) [] = none
strip_prefix (c ∷ prefix) (d ∷ s) = if c == d then strip_prefix prefix s else none

-- `s.startsWith(prefix)`
unfoldable pub starts_with : (s prefix : List ℕ) → Bool
unfolding strip_prefix
starts_with s prefix = elim (strip_prefix prefix s) [ none ↦ false | some _ ↦ true ]

-- `s.replace(part, "")`: only the first occurrence goes.
unfoldable pub remove_first : (part s : List ℕ) → List ℕ
unfolding strip_prefix
remove_first part [] = elim (strip_prefix part []) [ none ↦ [] | some rest ↦ rest ]
remove_first part (c ∷ s) = elim (strip_prefix part (c ∷ s)) [
  | some rest ↦ rest
  | none ↦ c ∷ remove_first part s
]

abbrev pub transaction_authz_endpoint : String
transaction_authz_endpoint = "/transactions/authorizations"

-- `${transactionAdjustmentEndpointPrefix}/${adjustmentType}`
abbrev pub transaction_adjustment_endpoint : PomeloAdjustmentType → String
transaction_adjustment_endpoint PomeloAdjustmentType.debit = "/transactions/adjustments/debit"
transaction_adjustment_endpoint PomeloAdjustmentType.credit = "/transactions/adjustments/credit"

module _ {S P : Type 0} (env : Environment S P) where
  unfoldable pub compute_signature : (timestamp endpoint : String) → List ℕ → List ℕ
  compute_signature timestamp endpoint body =
      codes "hmac-sha256 "
      ++ env.hmac_sha256_base64 env.pomelo_api_secret
          (env.from_utf8 timestamp ++ env.from_utf8 endpoint ++ body)

  unfoldable pub sign_transaction_authorization_response : String → List ℕ → List ℕ
  unfolding compute_signature
  sign_transaction_authorization_response timestamp body =
      compute_signature timestamp transaction_authz_endpoint body

  unfoldable pub sign_transaction_adjustment_response :
      String → List ℕ → PomeloAdjustmentType → List ℕ
  unfolding compute_signature
  sign_transaction_adjustment_response timestamp body type =
      compute_signature timestamp (transaction_adjustment_endpoint type) body

  unfoldable pub verify_signature : (received expected : List ℕ) → Action (World S P) Bool
  unfolding starts_with remove_first
  verify_signature received expected =
      if starts_with received (codes "hmac-sha256")
      then from_result (
          env.timing_safe_equal (env.from_base64 (remove_first (codes "hmac-sha256 ") received))
            (env.from_base64 (remove_first (codes "hmac-sha256 ") expected)))
      else raise_error >> pure false
