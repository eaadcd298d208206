-- ===== src/Consumers/Lookup.antt =====
-- src/modules/consumer/consumer.service.ts: which consumers are active, and finding them.
use noba_server.Common.Base.{
  ℕ, ◌==◌, Bool, true, false, not, ◌&&◌, ◌||◌, Option, none, some, List, [], ◌∷◌, if◌then◌else◌,
}
use noba_server.Common.Text.{Text}
use noba_server.Common.Exception.{service, semantic_validation, unknown}
use noba_server.Common.Action.{Action, Result, pure, throw, throw_if, gets, ◌>>=◌, ◌>>◌}
use noba_server.Consumers.Domain.{Consumer, Kyc, KycStatus, DocumentVerificationStatus}
use noba_server.Consumers.Environment.{Environment, World, query}

abbrev pub is_kyc_approved : Option KycStatus → Bool
is_kyc_approved (some KycStatus.approved) = true
is_kyc_approved _ = false

abbrev pub are_documents_in_order : Option DocumentVerificationStatus → Bool
are_documents_in_order (some DocumentVerificationStatus.approved) = true
are_documents_in_order (some DocumentVerificationStatus.not_required) = true
are_documents_in_order (some DocumentVerificationStatus.live_photo_verified) = true
are_documents_in_order _ = false

abbrev pub is_verified : Option Kyc → Bool
is_verified none = false
is_verified (some k) =
    is_kyc_approved k.kyc_check_status && are_documents_in_order k.document_verification_status

unfoldable pub is_active_consumer : Consumer → Bool
is_active_consumer c =
    if c.is_locked || c.is_disabled then false else is_verified c.verification_data

unfoldable pub active_consumers : List Consumer → List Consumer
active_consumers [] = []
active_consumers (c ∷ consumers) =
    let rest = active_consumers consumers in if is_active_consumer c then c ∷ rest else rest

-- "$na"
abbrev malformed : Text → Bool
malformed (a ∷ b ∷ c ∷ []) = a == 36 && b == 110 && c == 97
malformed _ = false

module _ {C T N : Type 0} (env : Environment C T N) where
  -- "$" is 36.
  unfoldable pub lookup : Text → C → Result (Option Consumer)
  lookup [] c = env.get_consumer [] c
  lookup (d ∷ s) c = if d == 36 then env.get_consumer_by_handle s c else env.get_consumer (d ∷ s) c

  unfoldable pub get_active_consumer : Text → Action (World C T N) Consumer
  get_active_consumer id_or_handle = do
    found ← query (lookup id_or_handle)
    elim found [
      | none ↦ throw (service semantic_validation)
      | some consumer ↦
          throw_if (not (is_active_consumer consumer)) (service semantic_validation)
          >> pure consumer
    ]

  unfoldable pub find_consumers_by_public_info :
      Text → (limit : ℕ) → Action (World C T N) (List Consumer)
  find_consumers_by_public_info search limit = do
    throw_if (malformed search) (service unknown)
    found ← gets (λ w. env.find_consumers_by_public_info search limit w.table)
    elim found [
      | none ↦ throw (service unknown)
      | some consumers ↦ pure (active_consumers consumers)
    ]
