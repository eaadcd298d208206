-- ===== src/Consumers/Domain.antt =====
-- src/modules/consumer/domain: what is read of a consumer. Undefined and null are
-- `none`.
use noba_server.Common.Base.{
  Bool, true, false, not, Option, none, some, [], ◌∷◌, String, if◌then◌else◌, str_eq, ◌==◌,
}
use noba_server.Common.Text.{Text}

pub data KycStatus : Type 0 where
  not_submitted pending approved rejected flagged : KycStatus

pub data DocumentVerificationStatus : Type 0 where
  not_required required pending approved rejected : DocumentVerificationStatus
  rejected_document_requires_recapture rejected_document_poor_quality : DocumentVerificationStatus
  rejected_document_invalid_size_or_type live_photo_verified : DocumentVerificationStatus

pub record Kyc : Type 0 where
  pub kyc_check_status : Option KycStatus
  pub document_verification_status : Option DocumentVerificationStatus

pub record Consumer : Type 0 where
  pub id : Text
  pub first_name : Option Text
  pub last_name : Option Text
  pub email : Option Text
  pub display_email : Option Text
  pub handle : Option Text
  pub phone : Option Text
  pub locale : Option String
  pub country_code : Option String
  pub is_locked : Bool
  pub is_disabled : Bool
  pub verification_data : Option Kyc

-- The properties that an update names: `none` is a property that it does not name.
pub record ConsumerUpdate : Type 0 where
  pub id : Text
  pub first_name : Option Text
  pub last_name : Option Text
  pub email : Option Text
  pub display_email : Option Text
  pub handle : Option Text
  pub phone : Option Text
  pub locale : Option String

abbrev pub is_truthy_text : Option Text → Bool
is_truthy_text none = false
is_truthy_text (some []) = false
is_truthy_text (some (_ ∷ _)) = true

abbrev pub is_truthy_string : Option String → Bool
is_truthy_string none = false
is_truthy_string (some s) = not (str_eq s "")

abbrev pub updated {ℓ} : {A : Type ℓ} → Option A → Option A → Option A
updated none old = old
updated (some new) old = some new

-- `{ ...consumer.props, ...updateConsumerProps }`
abbrev pub with_updates : Consumer → ConsumerUpdate → Consumer
with_updates c u = record c {
  first_name = updated u.first_name c.first_name;
  last_name = updated u.last_name c.last_name;
  email = updated u.email c.email;
  display_email = updated u.display_email c.display_email;
  handle = updated u.handle c.handle;
  phone = updated u.phone c.phone;
  locale = updated u.locale c.locale;
}

abbrev starts_with_57 : Text → Bool
starts_with_57 (a ∷ b ∷ c ∷ _) = if a == 43 then (if b == 53 then c == 55 else false) else false
starts_with_57 _ = false

abbrev locale_of_phone : Text → Option String
locale_of_phone [] = none
locale_of_phone (c ∷ s) = some (if starts_with_57 (c ∷ s) then "es_co" else "en_us")

abbrev or_phone : Option Text → Option String
or_phone none = none
or_phone (some number) = locale_of_phone number

-- `Consumer.predictLocale`, where there is no locale.
unfoldable pub predict_locale : Consumer → Option String
predict_locale c = elim c.country_code [
  | none ↦ or_phone c.phone
  | some code ↦
      if str_eq code ""
      then or_phone c.phone
      else some (if str_eq code "CO" then "es_co" else "en_us")
]
