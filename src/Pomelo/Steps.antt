-- ===== src/Pomelo/Steps.antt =====
-- The private methods of src/modules/pomelo/webhook/pomelo.webhook.service.ts, and the frame that its
-- two webhooks share.
use noba_server.Common.Base.{String, not, Option, none, some, str_eq, is_empty, if◌then◌else◌}
use noba_server.Common.Amount.{Amount}
use noba_server.Common.Exception.{
  Exception, service, unable_to_process, semantic_validation, does_not_exist, type_error,
}
use noba_server.Common.Action.{Action, pure, throw, try_catch, ◌>>=◌, ◌>>◌}
use noba_server.Transactions.Domain.{Transaction, Rate, round_product}
use noba_server.Transactions.Requests.{InitiateTransactionRequest}
use noba_server.ExchangeRates.Domain.{inverse}
use noba_server.Pomelo.Domain.{
  PomeloTransaction, PomeloTransactionStatus, PomeloTransactionSaveRequest, SignedCall,
  TransactionDetails, PomeloTransactionAuthzDetailStatus, PomeloTransactionAuthzResponse,
}
use noba_server.Pomelo.Environment.{Environment, World, raise_error, serve, draw_uuid}
use noba_server.Pomelo.Repo
use Prim.Native.String.{◌++◌}
use noba_server.Pomelo.Signature.{codes, compute_signature, verify_signature}
use noba_server.Pomelo.Answers.{
  noba_pomelo_status_to_public_detail_status_map, prepare_authorization_response, is_pending,
  currency_text,
}

module _ {S P : Type 0} (env : Environment S P) where
  abbrev pub respond :
      PomeloTransactionAuthzDetailStatus → Action (World S P) PomeloTransactionAuthzResponse
  respond status = pure (prepare_authorization_response status)

  -- `Transfer of ${localAmount} ${localCurrency} to ${merchantName}`
  abbrev pub memo_of : TransactionDetails → String
  memo_of d =
      "Transfer of "
      ++ env.number_text d.local_amount
      ++ " "
      ++ currency_text d.local_currency
      ++ " to "
      ++ d.merchant_name

  -- What is saved of a request.
  abbrev pub save_request :
      SignedCall → Option String → TransactionDetails → String → PomeloTransactionSaveRequest
  save_request call parent d noba_transaction_id = record {
    pomelo_transaction_id = d.pomelo_transaction_id;
    settlement_date = env.convert_to_columbian_date call.unix_timestamp_seconds;
    parent_pomelo_transaction_id = parent;
    local_amount = d.local_amount;
    local_currency = d.local_currency;
    amount_in_usd = d.settlement_amount;
    noba_transaction_id = noba_transaction_id;
    pomelo_card_id = d.pomelo_card_id;
    pomelo_idempotency_key = call.idempotency_key;
    country_code = d.country_code;
    entry_mode = d.entry_mode;
    origin = d.origin;
    point_type = d.point_type;
    pomelo_transaction_type = d.transaction_type;
    pomelo_user_id = d.pomelo_user_id;
    settlement_amount = d.settlement_amount;
    settlement_currency = d.settlement_currency;
    transaction_amount = d.transaction_amount;
    transaction_currency = d.transaction_currency;
    source = d.source;
    merchant_name = d.merchant_name;
    merchant_mcc = d.merchant_mcc;
  }

  unfoldable pub get_or_create_pomelo_transaction :
      PomeloTransactionSaveRequest → Action (World S P) PomeloTransaction
  get_or_create_pomelo_transaction request =
      try_catch (Repo.create_pomelo_transaction env request) (λ _. do
        found ←
            Repo.get_pomelo_transaction_by_pomelo_idempotency_key env request.pomelo_idempotency_key
        elim found [ none ↦ throw (service unable_to_process) | some t ↦ pure t ])

  unfoldable pub get_or_create_card_withdrawal_noba_transaction :
      InitiateTransactionRequest → String → Action (World S P) Transaction
  get_or_create_card_withdrawal_noba_transaction request noba_transaction_id =
      try_catch (serve (env.services.validate_and_save_transaction request)) (λ _. do
        found ← serve (env.services.get_transaction_by_transaction_id noba_transaction_id)
        elim found [ none ↦ throw (service unable_to_process) | some t ↦ pure t ])

  unfoldable pub get_noba_consumer_id_holding_pomelo_card :
      (card user : String) → Action (World S P) String
  get_noba_consumer_id_holding_pomelo_card card user = do
    found ← Repo.get_noba_consumer_id_holding_pomelo_card env card user
    elim found [
      | none ↦ throw (service semantic_validation)
      | some id ↦ if is_empty id then throw (service semantic_validation) else pure id
    ]

  -- The amount in dollars, and the rate from pesos to dollars.
  unfoldable pub get_cop_equivalent_usd_amount_to_deduct :
      Amount → Action (World S P) (Amount × Rate)
  get_cop_equivalent_usd_amount_to_deduct cop_amount = do
    rate ← serve (env.services.get_exchange_rate_for_currency_pair "USD" "COP")
    elim rate [
      | none ↦ throw type_error
      | some r ↦ pure (round_product cop_amount (inverse r.noba_rate), inverse r.noba_rate)
    ]

  unfoldable pub get_parent_noba_transaction : String → Action (World S P) Transaction
  get_parent_noba_transaction parent_pomelo_transaction_id = do
    parent ← Repo.get_pomelo_transaction_by_pomelo_transaction_id env parent_pomelo_transaction_id
    elim parent [
      | none ↦ throw (service does_not_exist)
      | some p ↦ do
        found ← serve (env.services.get_transaction_by_transaction_id p.noba_transaction_id)
        elim found [ none ↦ throw (service does_not_exist) | some t ↦ pure t ]
    ]

  -- Storing a status and answering with another.
  abbrev pub conclude :
      String
      → PomeloTransactionStatus
      → PomeloTransactionAuthzDetailStatus
      → Action (World S P) PomeloTransactionAuthzResponse
  conclude id stored answered =
      Repo.update_pomelo_transaction_status env id stored >> respond answered

  abbrev pub insufficient : String → Action (World S P) PomeloTransactionAuthzResponse
  insufficient id =
      conclude id PomeloTransactionStatus.insufficient_funds
        PomeloTransactionAuthzDetailStatus.insufficient_funds

  -- What both webhooks do with the transaction of a request: only a pending one is worked on.
  abbrev pub answer_stored :
      (PomeloTransaction → Action (World S P) PomeloTransactionAuthzResponse)
      → PomeloTransaction
      → Action (World S P) PomeloTransactionAuthzResponse
  answer_stored work t =
      if not (is_pending t.status)
      then respond (noba_pomelo_status_to_public_detail_status_map t.status)
      else work t

  -- The `try` of both webhooks, up to the work on a pending transaction.
  unfoldable pub attempt :
      (String → PomeloTransactionSaveRequest)
      → (PomeloTransaction → Action (World S P) PomeloTransactionAuthzResponse)
      → Action (World S P) PomeloTransactionAuthzResponse
  attempt saving work = do
    noba_transaction_id ← draw_uuid env
    t ← get_or_create_pomelo_transaction (saving noba_transaction_id)
    answer_stored work t

  -- Their `catch`.
  abbrev pub on_failure : Exception → Action (World S P) PomeloTransactionAuthzResponse
  on_failure _ = raise_error >> respond PomeloTransactionAuthzDetailStatus.system_error

  unfoldable pub process :
      (String → PomeloTransactionSaveRequest)
      → (PomeloTransaction → Action (World S P) PomeloTransactionAuthzResponse)
      → Action (World S P) PomeloTransactionAuthzResponse
  process saving work = try_catch (attempt saving work) on_failure

  -- What both webhooks check of a call before they work on it.
  unfoldable pub guarded :
      String
      → SignedCall
      → Action (World S P) PomeloTransactionAuthzResponse
      → Action (World S P) PomeloTransactionAuthzResponse
  guarded endpoint call work =
      if not (str_eq call.endpoint endpoint)
      then raise_error >> respond PomeloTransactionAuthzDetailStatus.other
      else do
        verified ←
            verify_signature env (codes call.raw_signature)
              (compute_signature env call.unix_timestamp_seconds endpoint call.raw_body_buffer)
        if not verified then respond PomeloTransactionAuthzDetailStatus.other else work
