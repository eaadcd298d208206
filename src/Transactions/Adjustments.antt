-- ===== src/Transactions/Adjustments.antt =====
-- src/modules/transaction/factory/preprocessors: the processors of adjustments.
use noba_server.Common.Base.{String, ◌&&◌, Option, none, some, []}
use noba_server.Transactions.Domain.{WorkflowName, InputTransaction, one}
use noba_server.Transactions.Requests.{
  CreditAdjustmentTransactionRequest, DebitAdjustmentTransactionRequest,
  CardCreditAdjustmentTransactionRequest, CardDebitAdjustmentTransactionRequest,
}
use noba_server.Transactions.Environment.{Environment, TransactionProcessor}
use noba_server.Transactions.Processors.{is_currency, converting, drawing, simple_processor}

module _ {D : Type 0} (env : Environment D) where
  abbrev pub convert_card_credit_adjustment :
      CardCreditAdjustmentTransactionRequest → String → InputTransaction
  convert_card_credit_adjustment r transaction_ref = record {
    id = none;
    transaction_ref = transaction_ref;
    workflow_name = WorkflowName.card_credit_adjustment;
    debit_amount = some r.debit_amount;
    debit_currency = some r.debit_currency;
    debit_consumer_id = none;
    credit_amount = some r.credit_amount;
    credit_currency = some r.credit_currency;
    credit_consumer_id = some r.credit_consumer_id;
    memo = some r.memo;
    exchange_rate = r.exchange_rate;
    session_key = "CARD_ADJUSTMENTS";
    transaction_fees = [];
  }

  unfoldable pub card_credit_adjustment_processor :
      Option CardCreditAdjustmentTransactionRequest → TransactionProcessor D
  card_credit_adjustment_processor =
      simple_processor env
        (λ r.
          is_currency r.credit_currency
          && is_currency r.debit_currency
          && env.joi.required_string r.memo
          && env.joi.required_string r.credit_consumer_id)
        (drawing env convert_card_credit_adjustment)

  abbrev pub convert_card_debit_adjustment :
      CardDebitAdjustmentTransactionRequest → String → InputTransaction
  convert_card_debit_adjustment r transaction_ref = record {
    id = none;
    transaction_ref = transaction_ref;
    workflow_name = WorkflowName.card_debit_adjustment;
    debit_amount = some r.debit_amount;
    debit_currency = some r.debit_currency;
    debit_consumer_id = some r.debit_consumer_id;
    credit_amount = some r.credit_amount;
    credit_currency = some r.credit_currency;
    credit_consumer_id = none;
    memo = some r.memo;
    exchange_rate = r.exchange_rate;
    session_key = "CARD_ADJUSTMENTS";
    transaction_fees = [];
  }

  unfoldable pub card_debit_adjustment_processor :
      Option CardDebitAdjustmentTransactionRequest → TransactionProcessor D
  card_debit_adjustment_processor =
      simple_processor env
        (λ r.
          is_currency r.credit_currency
          && is_currency r.debit_currency
          && env.joi.required_string r.memo
          && env.joi.required_string r.debit_consumer_id)
        (drawing env convert_card_debit_adjustment)

  abbrev pub convert_credit_adjustment :
      CreditAdjustmentTransactionRequest → String → InputTransaction
  convert_credit_adjustment r transaction_ref = record {
    id = none;
    transaction_ref = transaction_ref;
    workflow_name = WorkflowName.credit_adjustment;
    debit_amount = some r.credit_amount;
    debit_currency = some r.credit_currency;
    debit_consumer_id = none;
    credit_amount = some r.credit_amount;
    credit_currency = some r.credit_currency;
    credit_consumer_id = some r.credit_consumer_id;
    memo = some r.memo;
    exchange_rate = one;
    session_key = "CREDIT_ADJUSTMENT";
    transaction_fees = [];
  }

  unfoldable pub credit_adjustment_processor :
      Option CreditAdjustmentTransactionRequest → TransactionProcessor D
  credit_adjustment_processor =
      simple_processor env
        (λ r.
          env.joi.required_string r.credit_consumer_id
          && is_currency r.credit_currency
          && env.joi.required_string r.memo)
        (converting env convert_credit_adjustment)

  abbrev pub convert_debit_adjustment :
      DebitAdjustmentTransactionRequest → String → InputTransaction
  convert_debit_adjustment r transaction_ref = record {
    id = none;
    transaction_ref = transaction_ref;
    workflow_name = WorkflowName.debit_adjustment;
    debit_amount = some r.debit_amount;
    debit_currency = some r.debit_currency;
    debit_consumer_id = some r.debit_consumer_id;
    credit_amount = some r.debit_amount;
    credit_currency = some r.debit_currency;
    credit_consumer_id = none;
    memo = some r.memo;
    exchange_rate = one;
    session_key = "DEBIT_ADJUSTMENT";
    transaction_fees = [];
  }

  unfoldable pub debit_adjustment_processor :
      Option DebitAdjustmentTransactionRequest → TransactionProcessor D
  debit_adjustment_processor =
      simple_processor env
        (λ r.
          env.joi.required_string r.debit_consumer_id
          && is_currency r.debit_currency
          && env.joi.required_string r.memo)
        (converting env convert_debit_adjustment)
