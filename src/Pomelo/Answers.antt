-- ===== src/Pomelo/Answers.antt =====
-- The maps of src/modules/pomelo/webhook/pomelo.webhook.service.ts between statuses, and the requests
-- to book a transaction.
use noba_server.Common.Base.{String, Bool, true, false, Option, none, some, if◌then◌else◌}
use noba_server.Common.Int.{ltb_ℤ, pos}
use noba_server.Common.Amount.{Amount, is_truthy}
use noba_server.Transactions.Domain.{WorkflowName, Transaction}
use noba_server.Transactions.Requests.{
  InitiateTransactionRequest, CardWithdrawalTransactionRequest, CardReversalTransactionRequest,
  CardReversalTransactionType,
}
use noba_server.Pomelo.Domain.{
  PomeloTransactionStatus, PomeloCurrency, PomeloTransactionAuthzDetailStatus,
  PomeloTransactionAuthzSummaryStatus, PomeloTransactionAuthzResponse, PomeloAdjustmentType,
}

abbrev pub detail_status_to_summary_status_map :
    PomeloTransactionAuthzDetailStatus → PomeloTransactionAuthzSummaryStatus
detail_status_to_summary_status_map PomeloTransactionAuthzDetailStatus.approved =
    PomeloTransactionAuthzSummaryStatus.approved
detail_status_to_summary_status_map _ = PomeloTransactionAuthzSummaryStatus.rejected

abbrev pub noba_pomelo_status_to_public_detail_status_map :
    PomeloTransactionStatus → PomeloTransactionAuthzDetailStatus
noba_pomelo_status_to_public_detail_status_map s = elim s [
  | PomeloTransactionStatus.pending ↦ PomeloTransactionAuthzDetailStatus.system_error
  | PomeloTransactionStatus.approved ↦ PomeloTransactionAuthzDetailStatus.approved
  | PomeloTransactionStatus.insufficient_funds ↦
      PomeloTransactionAuthzDetailStatus.insufficient_funds
  | PomeloTransactionStatus.invalid_amount ↦ PomeloTransactionAuthzDetailStatus.invalid_amount
  | PomeloTransactionStatus.invalid_merchant ↦ PomeloTransactionAuthzDetailStatus.invalid_merchant
  | PomeloTransactionStatus.system_error ↦ PomeloTransactionAuthzDetailStatus.system_error
]

abbrev pub adjustment_type_to_card_reversal_type_map :
    PomeloAdjustmentType → CardReversalTransactionType
adjustment_type_to_card_reversal_type_map PomeloAdjustmentType.credit =
    CardReversalTransactionType.credit
adjustment_type_to_card_reversal_type_map PomeloAdjustmentType.debit =
    CardReversalTransactionType.debit

unfoldable pub prepare_authorization_response :
    PomeloTransactionAuthzDetailStatus → PomeloTransactionAuthzResponse
prepare_authorization_response status = record {
  detailed_status = status;
  summary_status = detail_status_to_summary_status_map status;
}

abbrev pub is_pending : PomeloTransactionStatus → Bool
is_pending PomeloTransactionStatus.pending = true
is_pending _ = false

abbrev pub is_card_withdrawal : WorkflowName → Bool
is_card_withdrawal WorkflowName.card_withdrawal = true
is_card_withdrawal _ = false

-- A request of the one kind that is given.
abbrev pub card_withdrawal : CardWithdrawalTransactionRequest → InitiateTransactionRequest
card_withdrawal r = record {
  type = WorkflowName.card_withdrawal;
  card_withdrawal_request = some r;
  card_reversal_request = none;
  payroll_deposit_request = none;
  card_credit_adjustment_request = none;
  card_debit_adjustment_request = none;
  credit_adjustment_request = none;
  debit_adjustment_request = none;
  wallet_deposit_request = none;
  wallet_withdrawal_request = none;
  wallet_transfer_request = none;
}

abbrev pub card_reversal : CardReversalTransactionRequest → InitiateTransactionRequest
card_reversal r = record {
  type = WorkflowName.card_reversal;
  card_withdrawal_request = none;
  card_reversal_request = some r;
  payroll_deposit_request = none;
  card_credit_adjustment_request = none;
  card_debit_adjustment_request = none;
  credit_adjustment_request = none;
  debit_adjustment_request = none;
  wallet_deposit_request = none;
  wallet_withdrawal_request = none;
  wallet_transfer_request = none;
}

-- `debitAmount || creditAmount`, and for a card withdrawal `debitAmount`.
unfoldable pub adjusted_amount : Transaction → Option Amount
adjusted_amount t =
    if is_card_withdrawal t.workflow_name then t.debit_amount else elim t.debit_amount [
      | none ↦ t.credit_amount
      | some a ↦ if is_truthy a then some a else t.credit_amount
    ]

-- `balance < amount`, where a null amount counts as zero.
abbrev pub is_short : Amount → Option Amount → Bool
is_short balance none = ltb_ℤ balance (pos 0)
is_short balance (some amount) = ltb_ℤ balance amount

abbrev pub currency_text : PomeloCurrency → String
currency_text PomeloCurrency.usd = "USD"
currency_text PomeloCurrency.cop = "COP"
