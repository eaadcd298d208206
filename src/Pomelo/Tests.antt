-- ===== src/Pomelo/Tests.antt =====
-- Tests and examples of the card transactions, on the sample wallet and table.
use noba_server.Common.Base.{◌≡◌, ◌≢◌, refl, String, [], ◌∷◌, true, none, ◌⊎◌}
use noba_server.Common.Int.{◌-ℤ◌}
use noba_server.Common.Amount.{Amount, cents}
use noba_server.Common.Action.{ok, err}
use noba_server.Common.Exception.{service, unable_to_process}
use noba_server.Transactions.Domain.{round_product}
use noba_server.Pomelo.Domain.{
  SignedCall, TransactionDetails, PomeloCurrency, PomeloTransactionType, PomeloPointType,
  PomeloEntryMode, PomeloOrigin, PomeloSource, PomeloTransactionAuthzRequest,
  PomeloTransactionAdjustmentRequest, PomeloAdjustmentType, PomeloTransactionAuthzDetailStatus,
  PomeloTransactionAuthzResponse,
}
use noba_server.Pomelo.Environment.{World}
use noba_server.Pomelo.Answers.{prepare_authorization_response, adjusted_amount}
use noba_server.Pomelo.Signature.{
  strip_prefix, starts_with, remove_first, compute_signature, verify_signature,
  sign_transaction_authorization_response, sign_transaction_adjustment_response,
  transaction_authz_endpoint, transaction_adjustment_endpoint,
}
use noba_server.Pomelo.Repo
use noba_server.Pomelo.Steps
use noba_server.Pomelo.Authorize.{
  authorize_transaction, authorize_pending, authorize_quoted, debit_authorized,
  answer_authorization,
}
use noba_server.Pomelo.Adjust.{
  adjust_transaction, adjust_pending, adjust_covered, transfer_adjustment, transfer_adjusted,
  answer_adjustment, is_uncovered,
}
use noba_server.Pomelo.Guards.{IsAuthentic, IsUntouched, other, comparison}
use noba_server.Pomelo.Webhooks.{
  authorize_transaction-IsAuthentic, sign-verify, authorize_transaction-eq-err,
}
use noba_server.Pomelo.Replay.{authorize_transaction_again}
use noba_server.Pomelo.Approved.{IsApprovedAs, authorize_transaction-IsApprovedAs}
use noba_server.Pomelo.Sample.{Rows, environment, crypto_laws, table_laws}

open_all : Unit {0}
unfolding prepare_authorization_response adjusted_amount strip_prefix starts_with remove_first
    compute_signature verify_signature sign_transaction_authorization_response
    sign_transaction_adjustment_response Repo.validate_save_pomelo_transaction_request
    Repo.validate_pomelo_transaction Repo.to_create_input Repo.create_pomelo_transaction
    Repo.update_pomelo_transaction_status Repo.find_row
    Repo.get_pomelo_transaction_by_pomelo_idempotency_key
    Repo.get_pomelo_transaction_by_pomelo_transaction_id
    Repo.get_noba_consumer_id_holding_pomelo_card Steps.get_or_create_pomelo_transaction
    Steps.get_or_create_card_withdrawal_noba_transaction
    Steps.get_noba_consumer_id_holding_pomelo_card Steps.get_cop_equivalent_usd_amount_to_deduct
    Steps.get_parent_noba_transaction Steps.attempt Steps.process Steps.guarded
    authorize_transaction authorize_pending authorize_quoted debit_authorized answer_authorization
    adjust_transaction adjust_pending adjust_covered transfer_adjustment transfer_adjusted
    answer_adjustment is_uncovered round_product
open_all = tt

-- The hash of the sample is the text that is hashed.
abbrev call : String → String → SignedCall
call endpoint signature = record {
  endpoint = endpoint;
  unix_timestamp_seconds = "1";
  raw_signature = signature;
  raw_body_buffer = [];
  idempotency_key = "key-1";
}

-- A purchase of 4000 pesos.
abbrev pub details : TransactionDetails
details = record {
  pomelo_transaction_id = "pomelo-1";
  transaction_type = PomeloTransactionType.purchase;
  merchant_name = "shop";
  merchant_mcc = "1";
  pomelo_card_id = "card-1";
  pomelo_user_id = "user-1";
  local_currency = PomeloCurrency.cop;
  local_amount = cents 400000;
  settlement_currency = PomeloCurrency.usd;
  settlement_amount = cents 100;
  transaction_currency = PomeloCurrency.cop;
  transaction_amount = cents 400000;
  point_type = PomeloPointType.pos;
  entry_mode = PomeloEntryMode.chip;
  country_code = "COL";
  origin = PomeloOrigin.domestic;
  source = PomeloSource.online;
}

abbrev pub request : String → PomeloTransactionAuthzRequest
request signature = record {
  call = call "/transactions/authorizations" signature;
  details = details;
}

abbrev pub signature : String
signature = "hmac-sha256 1/transactions/authorizations"

abbrev adjustment : String → PomeloTransactionAdjustmentRequest
adjustment signature = record {
  call = call "/transactions/adjustments/credit" signature;
  adjustment_type = PomeloAdjustmentType.credit;
  pomelo_original_transaction_id = "pomelo-1";
  details = details;
}

abbrev adjustment_signature : String
adjustment_signature = "hmac-sha256 1/transactions/adjustments/credit"

-- Five dollars, and no transactions.
abbrev start : World Amount Rows
start = record { services = cents 500; table = none; alerts = []; drawn = 0 }

abbrev approved : PomeloTransactionAuthzResponse
approved = prepare_authorization_response PomeloTransactionAuthzDetailStatus.approved

abbrev after : World Amount Rows
after = (authorize_transaction environment (request signature) start).1

approves : authorize_transaction environment (request signature) start ≡ (ok approved, after)
unfolding open_all
approves = refl

debits_a_dollar : after.services ≡ cents 400
unfolding open_all ◌-ℤ◌
debits_a_dollar = refl

abbrev adjusted : World Amount Rows
adjusted = (adjust_transaction environment (adjustment adjustment_signature) start).1

adjusts :
    adjust_transaction environment (adjustment adjustment_signature) start ≡ (ok approved, adjusted)
unfolding open_all
adjusts = refl

-- A signature of another length makes the comparison throw, and so the webhooks.
throws :
    (authorize_transaction environment (request "hmac-sha256 1") start).0
    ≡ err (service unable_to_process)
unfolding open_all
throws = refl

adjust_throws :
    (adjust_transaction environment (adjustment "hmac-sha256 1") start).0
    ≡ err (service unable_to_process)
unfolding open_all
adjust_throws = refl

is_settled :
    (approved.detailed_status ≢ PomeloTransactionAuthzDetailStatus.other)
    × (approved.detailed_status ≢ PomeloTransactionAuthzDetailStatus.system_error)
unfolding prepare_authorization_response
is_settled = (λ e. cc e, λ e. cc e)

is_approved : approved.detailed_status ≡ PomeloTransactionAuthzDetailStatus.approved
unfolding prepare_authorization_response
is_approved = refl

authorize_transaction-IsAuthentic_example :
    ((approved ≡ other environment) × IsUntouched environment start after)
    ⊎ IsAuthentic environment transaction_authz_endpoint (request signature).call
authorize_transaction-IsAuthentic_example =
    authorize_transaction-IsAuthentic environment crypto_laws (request signature) start approves

sign-verify_example :
    (verify_signature environment
        (sign_transaction_authorization_response environment "1" (7 ∷ []))
        (compute_signature environment "1" transaction_authz_endpoint (7 ∷ []))
        start
      ≡ (ok true, start))
    × (verify_signature environment
          (sign_transaction_adjustment_response environment "1" (7 ∷ []) PomeloAdjustmentType.debit)
          (compute_signature environment "1"
            (transaction_adjustment_endpoint PomeloAdjustmentType.debit)
            (7 ∷ []))
          start
        ≡ (ok true, start))
sign-verify_example =
    sign-verify environment crypto_laws "1" (7 ∷ []) PomeloAdjustmentType.debit start

authorize_transaction-eq-err_example :
    comparison environment transaction_authz_endpoint (request "hmac-sha256 1").call
    ≡ err (service unable_to_process)
authorize_transaction-eq-err_example =
    authorize_transaction-eq-err environment (request "hmac-sha256 1") start throws

authorize_transaction_again_example :
    let again = authorize_transaction environment (request signature) after in
    (again.0 ≡ ok approved) × (again.1.services ≡ after.services) × (again.1.table ≡ after.table)
authorize_transaction_again_example =
    authorize_transaction_again environment table_laws start is_settled.0 is_settled.1
      (request signature) approves

authorize_transaction-IsApprovedAs_example :
    IsApprovedAs environment (request signature) start after
authorize_transaction-IsApprovedAs_example =
    authorize_transaction-IsApprovedAs environment (request signature) start approves is_approved
