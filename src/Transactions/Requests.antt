-- ===== src/Transactions/Requests.antt =====
-- src/modules/transaction/dto/transaction.service.dto.ts: the requests to book a transaction.
use noba_server.Common.Base.{String, Bool, Option, none, some, ℕ, ◌+◌, ◌==◌}
use noba_server.Common.Amount.{Amount}
use noba_server.Transactions.Domain.{WorkflowName, Rate}

pub record CardWithdrawalTransactionRequest : Type 0 where
  pub noba_transaction_id : String
  pub debit_consumer_id : String
  pub debit_amount_in_usd : Amount
  pub credit_amount : Amount
  pub credit_currency : String
  pub exchange_rate : Rate
  pub memo : String

pub data CardReversalTransactionType : Type 0 where
  credit debit : CardReversalTransactionType

pub record CardReversalTransactionRequest : Type 0 where
  pub type : CardReversalTransactionType
  pub noba_transaction_id : String
  pub consumer_id : String
  pub amount_in_usd : Option Amount
  pub exchange_rate : Rate
  pub memo : String

pub record PayrollDepositTransactionRequest : Type 0 where
  pub disbursement_id : String

pub record CreditAdjustmentTransactionRequest : Type 0 where
  pub credit_consumer_id : String
  pub credit_amount : Amount
  pub credit_currency : String
  pub memo : String

pub record DebitAdjustmentTransactionRequest : Type 0 where
  pub debit_consumer_id : String
  pub debit_amount : Amount
  pub debit_currency : String
  pub memo : String

pub record CardCreditAdjustmentTransactionRequest : Type 0 where
  pub debit_amount : Amount
  pub debit_currency : String
  pub credit_amount : Amount
  pub credit_currency : String
  pub exchange_rate : Rate
  pub memo : String
  pub credit_consumer_id : String

pub record CardDebitAdjustmentTransactionRequest : Type 0 where
  pub debit_amount : Amount
  pub debit_currency : String
  pub credit_amount : Amount
  pub credit_currency : String
  pub exchange_rate : Rate
  pub memo : String
  pub debit_consumer_id : String

pub record WalletDepositTransactionRequest : Type 0 where
  pub debit_amount : Amount
  pub debit_currency : String
  pub debit_consumer_id_or_tag : String
  pub deposit_mode : String
  pub memo : String
  pub session_key : String

pub record WalletWithdrawalDetails : Type 0 where
  pub bank_code : String
  pub account_number : String
  pub document_number : String
  pub document_type : String
  pub account_type : String

pub record WalletWithdrawalTransactionRequest : Type 0 where
  pub debit_consumer_id_or_tag : String
  pub debit_amount : Amount
  pub memo : String
  pub session_key : String
  pub credit_currency : String
  pub withdrawal_details : WalletWithdrawalDetails

pub record WalletTransferTransactionRequest : Type 0 where
  pub debit_amount : Amount
  pub debit_currency : String
  pub debit_consumer_id_or_tag : String
  pub credit_consumer_id_or_tag : String
  pub memo : String
  pub session_key : String

pub record InitiateTransactionRequest : Type 0 where
  pub type : WorkflowName
  pub card_withdrawal_request : Option CardWithdrawalTransactionRequest
  pub card_reversal_request : Option CardReversalTransactionRequest
  pub payroll_deposit_request : Option PayrollDepositTransactionRequest
  pub card_credit_adjustment_request : Option CardCreditAdjustmentTransactionRequest
  pub card_debit_adjustment_request : Option CardDebitAdjustmentTransactionRequest
  pub credit_adjustment_request : Option CreditAdjustmentTransactionRequest
  pub debit_adjustment_request : Option DebitAdjustmentTransactionRequest
  pub wallet_deposit_request : Option WalletDepositTransactionRequest
  pub wallet_withdrawal_request : Option WalletWithdrawalTransactionRequest
  pub wallet_transfer_request : Option WalletTransferTransactionRequest

abbrev count : {A : Type 0} → Option A → ℕ
count none = 0
count (some a) = 1

-- `validateInitiateTransactionRequest`: just one of the requests is given (Joi's `xor`).
unfoldable pub validate_initiate_transaction_request : InitiateTransactionRequest → Bool
validate_initiate_transaction_request r =
    (count r.card_withdrawal_request
      + count r.card_reversal_request
      + count r.payroll_deposit_request
      + count r.card_credit_adjustment_request
      + count r.card_debit_adjustment_request
      + count r.credit_adjustment_request
      + count r.debit_adjustment_request
      + count r.wallet_deposit_request
      + count r.wallet_withdrawal_request
      + count r.wallet_transfer_request)
    == 1
