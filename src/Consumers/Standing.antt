-- ===== src/Consumers/Standing.antt =====
-- Which consumers can transact.
use noba_server.Common.Base.{
  ◌≡◌, refl, ◌⊎◌, inl, inr, true, false, Option, none, some, arith, arith,
}
use noba_server.Common.Text.{Text}
use noba_server.Common.Action.{ok}
use noba_server.Common.Inversion.{Result-cases}
use noba_server.Consumers.Domain.{Consumer, Kyc, KycStatus, DocumentVerificationStatus}
use noba_server.Consumers.Environment.{Environment, World}
use noba_server.Consumers.Lookup.{is_active_consumer, active_consumers}
use noba_server.Consumers.Lookup

-- A consumer who is neither locked nor disabled, whose identity was approved, and whose documents
-- were approved or are not needed.
pub record IsInGoodStanding (c : Consumer) : Type 0 where
  pub unlocked : c.is_locked ≡ false
  pub enabled : c.is_disabled ≡ false
  pub kyc : Kyc
  pub verified : c.verification_data ≡ some kyc
  pub approved : kyc.kyc_check_status ≡ some KycStatus.approved
  pub documents :
      (kyc.document_verification_status ≡ some DocumentVerificationStatus.approved)
      ⊎ (kyc.document_verification_status ≡ some DocumentVerificationStatus.not_required)
      ⊎ (kyc.document_verification_status ≡ some DocumentVerificationStatus.live_photo_verified)

is_kyc_approved_lem :
    (s : Option KycStatus) → Lookup.is_kyc_approved s ≡ true → s ≡ some KycStatus.approved
is_kyc_approved_lem none h = absurd (ground arith)
is_kyc_approved_lem (some KycStatus.not_submitted) h = absurd (ground arith)
is_kyc_approved_lem (some KycStatus.pending) h = absurd (ground arith)
is_kyc_approved_lem (some KycStatus.approved) h = refl
is_kyc_approved_lem (some KycStatus.rejected) h = absurd (ground arith)
is_kyc_approved_lem (some KycStatus.flagged) h = absurd (ground arith)

are_documents_in_order_lem :
    (s : Option DocumentVerificationStatus)
    → Lookup.are_documents_in_order s ≡ true
    → (s ≡ some DocumentVerificationStatus.approved)
      ⊎ (s ≡ some DocumentVerificationStatus.not_required)
      ⊎ (s ≡ some DocumentVerificationStatus.live_photo_verified)
are_documents_in_order_lem none h = absurd (ground arith)
are_documents_in_order_lem (some DocumentVerificationStatus.required) h = absurd (ground arith)
are_documents_in_order_lem (some DocumentVerificationStatus.pending) h = absurd (ground arith)
are_documents_in_order_lem (some DocumentVerificationStatus.rejected) h = absurd (ground arith)
are_documents_in_order_lem (some DocumentVerificationStatus.rejected_document_requires_recapture)
      h =
    absurd (ground arith)
are_documents_in_order_lem (some DocumentVerificationStatus.rejected_document_poor_quality) h =
    absurd (ground arith)
are_documents_in_order_lem (some DocumentVerificationStatus.rejected_document_invalid_size_or_type)
      h =
    absurd (ground arith)
are_documents_in_order_lem (some DocumentVerificationStatus.approved) h = inl refl
are_documents_in_order_lem (some DocumentVerificationStatus.not_required) h = inr (inl refl)
are_documents_in_order_lem (some DocumentVerificationStatus.live_photo_verified) h = inr (inr refl)

is_verified_lem :
    (v : Option Kyc)
    → Lookup.is_verified v ≡ true
    → (k : Kyc) × (v ≡ some k)
      × (Lookup.is_kyc_approved k.kyc_check_status ≡ true)
      × (Lookup.are_documents_in_order k.document_verification_status ≡ true)
is_verified_lem none h = absurd (ground arith)
is_verified_lem (some k) h = (k, refl, ground arith, ground arith)

pub is_active_consumer-IsInGoodStanding :
    (c : Consumer) → is_active_consumer c ≡ true → IsInGoodStanding c
unfolding is_active_consumer
is_active_consumer-IsInGoodStanding c h =
    let (k, v, approved, documents) = is_verified_lem c.verification_data (ground arith) in
    record {
      unlocked = ground arith;
      enabled = ground arith;
      kyc = k;
      verified = v;
      approved = is_kyc_approved_lem k.kyc_check_status approved;
      documents = are_documents_in_order_lem k.document_verification_status documents;
    }

module _ {C T N : Type 0} (env : Environment C T N) where
  -- `getActiveConsumer` changes nothing, and what it returns is a consumer that was looked up, by
  -- the id or by a handle behind a "$", and is in good standing.
  pub get_active_consumer-IsInGoodStanding :
      (id_or_handle : Text) (w : World C T N) {c : Consumer} {w' : World C T N}
      → Lookup.get_active_consumer env id_or_handle w ≡ (ok c, w')
      → IsInGoodStanding c × (Lookup.lookup env id_or_handle w.table ≡ ok (some c)) × (w' ≡ w)
  unfolding Lookup.get_active_consumer
  get_active_consumer-IsInGoodStanding id_or_handle w {c} {w'} h =
      elim (Result-cases (Lookup.lookup env id_or_handle w.table)) [
        | inr (e, p) ↦ absurd (ground arith)
        | inl (none, p) ↦ absurd (ground arith)
        | inl (some found, p) ↦
            let same : found ≡ c = ground arith in
            let active : is_active_consumer c ≡ true = ground arith in
            (is_active_consumer-IsInGoodStanding c active, ground arith, ground arith)
      ]
