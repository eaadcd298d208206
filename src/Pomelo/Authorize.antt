-- ===== src/Pomelo/Authorize.antt =====
-- `authorizeTransaction` of src/modules/pomelo/webhook/pomelo.webhook.service.ts.
use noba_server.Common.Base.{String, true, false, Bool, none}
use noba_server.Common.Int.{ltb_ℤ}
use noba_server.Common.Amount.{Amount}
use noba_server.Common.Exception.{service, unable_to_process}
use noba_server.Common.Action.{Action, throw, ◌>>=◌, ◌>>◌}
use noba_server.Circle.Domain.{CircleTransferStatus}
use noba_server.Transactions.Domain.{Rate}
use noba_server.Transactions.Requests.{InitiateTransactionRequest}
use noba_server.Pomelo.Domain.{
  PomeloTransaction, PomeloTransactionStatus, TransactionDetails,
  PomeloTransactionAuthzDetailStatus, PomeloTransactionAuthzRequest, PomeloTransactionAuthzResponse,
}
use noba_server.Pomelo.Environment.{Environment, World, serve}
use noba_server.Pomelo.Repo
use noba_server.Pomelo.Signature.{transaction_authz_endpoint}
use noba_server.Pomelo.Answers.{card_withdrawal}
use noba_server.Pomelo.Steps.{
  memo_of, save_request, get_or_create_card_withdrawal_noba_transaction,
  get_noba_consumer_id_holding_pomelo_card, get_cop_equivalent_usd_amount_to_deduct, conclude,
  insufficient, process, guarded,
}

module _ {S P : Type 0} (env : Environment S P) where
  -- The switch on the status of the debit.
  unfoldable pub answer_authorization :
      String → CircleTransferStatus → Action (World S P) PomeloTransactionAuthzResponse
  answer_authorization id status = elim status [
    | CircleTransferStatus.insufficient_funds ↦ insufficient env id
    | CircleTransferStatus.transfer_failed ↦
        Repo.update_pomelo_transaction_status env id PomeloTransactionStatus.system_error
        >> throw (service unable_to_process)
    | CircleTransferStatus.success ↦
        conclude env id PomeloTransactionStatus.approved PomeloTransactionAuthzDetailStatus.approved
  ]

  -- The transaction to book.
  abbrev pub withdrawal_request :
      TransactionDetails → PomeloTransaction → String → Amount × Rate → InitiateTransactionRequest
  withdrawal_request d t consumer quoted = card_withdrawal (record {
    debit_amount_in_usd = quoted.0;
    debit_consumer_id = consumer;
    credit_currency = "COP";
    credit_amount = t.local_amount;
    exchange_rate = quoted.1;
    noba_transaction_id = t.noba_transaction_id;
    memo = memo_of env d;
  })

  -- From the booking of the transaction to the answer.
  unfoldable pub debit_authorized :
      TransactionDetails
      → PomeloTransaction
      → (consumer wallet : String) → Amount × Rate
      → Action (World S P) PomeloTransactionAuthzResponse
  debit_authorized d t consumer wallet quoted = do
    booked ←
        get_or_create_card_withdrawal_noba_transaction env (withdrawal_request d t consumer quoted)
          t.noba_transaction_id
    debited ← serve (env.services.debit_wallet_balance booked.id wallet booked.debit_amount)
    answer_authorization t.pomelo_transaction_id debited.status

  -- What the comparison of the balance decides.
  unfoldable pub authorize_quoted :
      TransactionDetails
      → PomeloTransaction
      → (consumer wallet : String) → Amount × Rate
      → (short : Bool) → Action (World S P) PomeloTransactionAuthzResponse
  authorize_quoted d t consumer wallet quoted true = insufficient env t.pomelo_transaction_id
  authorize_quoted d t consumer wallet quoted false = debit_authorized d t consumer wallet quoted

  -- The part for a transaction that is pending.
  unfoldable pub authorize_pending :
      TransactionDetails → PomeloTransaction → Action (World S P) PomeloTransactionAuthzResponse
  authorize_pending d t = do
    consumer ← get_noba_consumer_id_holding_pomelo_card env t.pomelo_card_id d.pomelo_user_id
    wallet ← serve (env.services.get_or_create_wallet consumer)
    balance ← serve (env.services.get_wallet_balance wallet)
    quoted ← get_cop_equivalent_usd_amount_to_deduct env t.local_amount
    authorize_quoted d t consumer wallet quoted (ltb_ℤ balance quoted.0)

  unfoldable pub authorize_transaction :
      PomeloTransactionAuthzRequest → Action (World S P) PomeloTransactionAuthzResponse
  authorize_transaction request = guarded env transaction_authz_endpoint request.call (
      process env (save_request env request.call none request.details)
        (authorize_pending request.details))
