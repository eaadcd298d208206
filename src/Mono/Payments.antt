-- ===== src/Mono/Payments.antt =====
-- What `executeWithdrawal` of src/modules/mono/public/mono.service.ts sends to the bank, and what it
-- records of the answer.
use Prim.Native.String.{◌++◌}
use noba_server.Common.Base.{◌≡◌, refl, String, some, none, arith}
use noba_server.Common.Action.{ok}
use noba_server.Mono.Domain.{
  MonoTransactionType, MonoTransactionState, MonoCreateInput, MonoTransferRequest,
  MonoTransferResponse, MonoWithdrawalDetails, Consumer, WithdrawalRequest,
}
use noba_server.Mono.Environment.{Environment, World}
use noba_server.Mono.Repo
use noba_server.Mono.Service.{
  ValidWithdrawal, validate_withdrawal_request, transfer_request, withdrawal_record,
}

module _ {B M E : Type 0} (env : Environment B M E) where
  pub validate-eq-ok :
      (r : WithdrawalRequest) (w : World B M E) {w' : World B M E} {v : ValidWithdrawal}
      → validate_withdrawal_request env r w ≡ (ok v, w')
      → (w' ≡ w)
        × ((u : World B M E) → validate_withdrawal_request env r u ≡ (ok v, u))
        × (r.consumer ≡ some v.consumer)
        × (r.withdrawal_details ≡ some v.details)
        × (r.noba_public_transaction_ref ≡ some v.reference)
  unfolding validate_withdrawal_request
  validate-eq-ok r w h = (ground arith, λ u. ground arith, ground arith, ground arith, ground arith)

  -- The transfer is the one that was asked for: with the amount, the currency and the reference of
  -- the request, from its consumer, to the account whose encrypted number is in its details.
  pub record IsAsked (r : WithdrawalRequest) (sent : MonoTransferRequest) : Type 0 where
    pub holder : Consumer
    pub details : MonoWithdrawalDetails
    pub consumer : r.consumer ≡ some holder
    pub withdrawal_details : r.withdrawal_details ≡ some details
    pub reference : r.noba_public_transaction_ref ≡ some sent.transaction_ref
    pub transaction_id : sent.transaction_id ≡ r.noba_transaction_id
    pub amount : sent.amount ≡ r.amount
    pub currency : sent.currency ≡ r.currency
    pub bank_code : sent.bank_code ≡ details.bank_code
    pub decrypted : env.decrypt_string details.encrypted_account_number ≡ ok sent.account_number
    pub account_type : sent.account_type ≡ details.account_type
    pub document_number : sent.document_number ≡ details.document_number
    pub document_type : sent.document_type ≡ details.document_type
    pub email : sent.consumer_email ≡ holder.email
    pub name : sent.consumer_name ≡ holder.first_name ++ " " ++ holder.last_name

  -- The row that is created is that of a pending withdrawal, with what the bank has answered.
  pub record IsAnswer (r : WithdrawalRequest) (response : MonoTransferResponse)
      (input : MonoCreateInput) : Type 0 where
    pub noba_transaction_id : input.noba_transaction_id ≡ r.noba_transaction_id
    pub type : input.type ≡ MonoTransactionType.withdrawal
    pub state : input.state ≡ MonoTransactionState.pending
    pub collection_link_id : input.collection_link_id ≡ none
    pub collection_url : input.collection_url ≡ none
    pub transfer_id : input.transfer_id ≡ some response.transfer_id
    pub batch_id : input.batch_id ≡ some response.batch_id
    pub declination_reason : input.declination_reason ≡ Repo.keep_string response.declination_reason

  pub transfer_request-IsAsked :
      (r : WithdrawalRequest) (v : ValidWithdrawal) (number : String)
      → (r.consumer ≡ some v.consumer)
        × (r.withdrawal_details ≡ some v.details)
        × (r.noba_public_transaction_ref ≡ some v.reference)
      → env.decrypt_string v.details.encrypted_account_number ≡ ok number
      → IsAsked r (transfer_request r v number)
  transfer_request-IsAsked r v number (consumer, details, reference) decrypted = record {
    holder = v.consumer;
    details = v.details;
    consumer = consumer;
    withdrawal_details = details;
    reference = reference;
    transaction_id = refl;
    amount = refl;
    currency = refl;
    bank_code = refl;
    decrypted = decrypted;
    account_type = refl;
    document_number = refl;
    document_type = refl;
    email = refl;
    name = refl;
  }

  pub withdrawal_record-IsAnswer :
      (r : WithdrawalRequest) (response : MonoTransferResponse)
      → IsAnswer r response (Repo.to_create_input (withdrawal_record r response))
  unfolding Repo.to_create_input
  withdrawal_record-IsAnswer r response = record {
    noba_transaction_id = refl;
    type = refl;
    state = refl;
    collection_link_id = refl;
    collection_url = refl;
    transfer_id = refl;
    batch_id = refl;
    declination_reason = refl;
  }
