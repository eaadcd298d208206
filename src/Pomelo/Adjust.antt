-- ===== src/Pomelo/Adjust.antt =====
-- `adjustTransaction` of src/modules/pomelo/webhook/pomelo.webhook.service.ts.
use noba_server.Common.Base.{String, Bool, true, false, Option, some}
use noba_server.Common.Amount.{Amount}
use noba_server.Common.Exception.{service, unable_to_process}
use noba_server.Common.Action.{Action, pure, throw, ◌>>=◌}
use noba_server.Circle.Domain.{CircleTransferStatus, UpdateWalletBalanceServiceDto}
use noba_server.Transactions.Domain.{Rate}
use noba_server.Transactions.Requests.{InitiateTransactionRequest}
use noba_server.Pomelo.Domain.{
  PomeloTransaction, PomeloTransactionStatus, PomeloTransactionAuthzDetailStatus,
  PomeloTransactionAuthzResponse, PomeloAdjustmentType, PomeloTransactionAdjustmentRequest,
}
use noba_server.Pomelo.Environment.{Environment, World, serve}
use noba_server.Pomelo.Signature.{transaction_adjustment_endpoint}
use noba_server.Pomelo.Answers.{
  adjustment_type_to_card_reversal_type_map, card_reversal, adjusted_amount, is_short,
}
use noba_server.Pomelo.Steps.{
  memo_of, save_request, get_or_create_card_withdrawal_noba_transaction,
  get_noba_consumer_id_holding_pomelo_card, get_parent_noba_transaction, conclude, insufficient,
  process, guarded,
}

module _ {S P : Type 0} (env : Environment S P) where
  -- The `if` on the status of the transfer; a failed transfer leaves the status as it was.
  unfoldable pub answer_adjustment :
      String → CircleTransferStatus → Action (World S P) PomeloTransactionAuthzResponse
  answer_adjustment id status = elim status [
    | CircleTransferStatus.insufficient_funds ↦ insufficient env id
    | CircleTransferStatus.transfer_failed ↦ throw (service unable_to_process)
    | CircleTransferStatus.success ↦
        conclude env id PomeloTransactionStatus.approved PomeloTransactionAuthzDetailStatus.approved
  ]

  -- The transfer of an adjustment.
  unfoldable pub transfer_adjusted :
      PomeloAdjustmentType
      → String
      → String
      → Option Amount
      → Action (World S P) UpdateWalletBalanceServiceDto
  transfer_adjusted PomeloAdjustmentType.credit id wallet amount =
      serve (env.services.credit_wallet_balance id wallet amount)
  transfer_adjusted PomeloAdjustmentType.debit id wallet amount =
      serve (env.services.debit_wallet_balance id wallet amount)

  -- The first switch on the type: whether a debit is not covered.
  unfoldable pub is_uncovered :
      PomeloAdjustmentType → String → Option Amount → Action (World S P) Bool
  is_uncovered PomeloAdjustmentType.credit wallet amount = pure false
  is_uncovered PomeloAdjustmentType.debit wallet amount = do
    balance ← serve (env.services.get_wallet_balance wallet)
    pure (is_short balance amount)

  -- The transaction to book.
  abbrev pub reversal_request :
      PomeloTransactionAdjustmentRequest
      → PomeloTransaction
      → String
      → Option Amount × Rate
      → InitiateTransactionRequest
  reversal_request request t consumer quoted = card_reversal (record {
    amount_in_usd = quoted.0;
    consumer_id = consumer;
    type = adjustment_type_to_card_reversal_type_map request.adjustment_type;
    exchange_rate = quoted.1;
    noba_transaction_id = t.noba_transaction_id;
    memo = memo_of env request.details;
  })

  -- From the booking of the reversal to the answer.
  unfoldable pub transfer_adjustment :
      PomeloTransactionAdjustmentRequest
      → PomeloTransaction
      → (consumer wallet : String) → Option Amount × Rate
      → Action (World S P) PomeloTransactionAuthzResponse
  transfer_adjustment request t consumer wallet quoted = do
    booked ←
        get_or_create_card_withdrawal_noba_transaction env
          (reversal_request request t consumer quoted) t.noba_transaction_id
    transferred ← transfer_adjusted request.adjustment_type booked.id wallet quoted.0
    answer_adjustment t.pomelo_transaction_id transferred.status

  -- What the comparison of the balance decides.
  unfoldable pub adjust_covered :
      PomeloTransactionAdjustmentRequest
      → PomeloTransaction
      → (consumer wallet : String) → Option Amount × Rate
      → Bool
      → Action (World S P) PomeloTransactionAuthzResponse
  adjust_covered request t consumer wallet quoted true = insufficient env t.pomelo_transaction_id
  adjust_covered request t consumer wallet quoted false =
      transfer_adjustment request t consumer wallet quoted

  unfoldable pub adjust_pending :
      PomeloTransactionAdjustmentRequest
      → PomeloTransaction
      → Action (World S P) PomeloTransactionAuthzResponse
  unfolding adjusted_amount
  adjust_pending request t = do
    consumer ←
        get_noba_consumer_id_holding_pomelo_card env t.pomelo_card_id request.details.pomelo_user_id
    wallet ← serve (env.services.get_or_create_wallet consumer)
    parent ← get_parent_noba_transaction env request.pomelo_original_transaction_id
    uncovered ← is_uncovered request.adjustment_type wallet (adjusted_amount parent)
    adjust_covered request t consumer wallet (adjusted_amount parent, parent.exchange_rate)
        uncovered

  unfoldable pub adjust_transaction :
      PomeloTransactionAdjustmentRequest → Action (World S P) PomeloTransactionAuthzResponse
  adjust_transaction request =
      guarded env (transaction_adjustment_endpoint request.adjustment_type) request.call (
        process env
          (save_request env request.call (some request.pomelo_original_transaction_id)
            request.details)
          (adjust_pending request))
