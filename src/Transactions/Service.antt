-- ===== src/Transactions/Service.antt =====
-- src/modules/transaction/transaction.service.ts: booking a transaction, finding one for a consumer,
-- and updating its status.
use noba_server.Common.Base.{
  String, Bool, true, false, not, ◌&&◌, Option, none, some, str_eq, is_empty, if◌then◌else◌,
}
use noba_server.Common.Alert.{critical, transaction_failed}
use noba_server.Common.Exception.{
  service, does_not_exist, unable_to_process, not_implemented, validation_error,
}
use noba_server.Common.Action.{
  Action, Result, ok, err, pure, throw, throw_if, when, from_result, ◌>>=◌, ◌>>◌,
}
use noba_server.Transactions.Domain.{
  WorkflowName, Transaction, TransactionStatus, UpdateTransaction,
}
use noba_server.Transactions.Requests.{
  InitiateTransactionRequest, validate_initiate_transaction_request,
}
use noba_server.Transactions.Environment.{Environment, World, TransactionProcessor, raise_alert}
use noba_server.Transactions.Repo
use noba_server.Transactions.Processors
use noba_server.Transactions.Adjustments
use noba_server.Transactions.Payroll

-- The workflows that `validateAndSaveTransaction` is implemented for.
abbrev pub is_implemented : WorkflowName → Bool
is_implemented WorkflowName.card_withdrawal = true
is_implemented WorkflowName.card_reversal = true
is_implemented WorkflowName.payroll_deposit = true
is_implemented WorkflowName.card_credit_adjustment = true
is_implemented WorkflowName.card_debit_adjustment = true
is_implemented WorkflowName.credit_adjustment = true
is_implemented WorkflowName.debit_adjustment = true
is_implemented _ = false

abbrev pub is_failed : Option TransactionStatus → Bool
is_failed (some TransactionStatus.failed) = true
is_failed _ = false

abbrev pub same_id : Option String → String → Bool
same_id none id = false
same_id (some s) id = str_eq s id

module _ {D : Type 0} (env : Environment D) where
  -- `getPreprocessor` on what `extractTransactionProcessorRequest` gives.
  unfoldable pub get_preprocessor :
      WorkflowName → InitiateTransactionRequest → Result (TransactionProcessor D)
  get_preprocessor type r = elim type [
    | WorkflowName.payroll_deposit ↦
        ok (Payroll.payroll_deposit_processor env r.payroll_deposit_request)
    | WorkflowName.card_withdrawal ↦
        ok (Processors.card_withdrawal_processor env r.card_withdrawal_request)
    | WorkflowName.card_reversal ↦
        ok (Processors.card_reversal_processor env r.card_reversal_request)
    | WorkflowName.card_credit_adjustment ↦
        ok (Adjustments.card_credit_adjustment_processor env r.card_credit_adjustment_request)
    | WorkflowName.card_debit_adjustment ↦
        ok (Adjustments.card_debit_adjustment_processor env r.card_debit_adjustment_request)
    | WorkflowName.credit_adjustment ↦
        ok (Adjustments.credit_adjustment_processor env r.credit_adjustment_request)
    | WorkflowName.debit_adjustment ↦
        ok (Adjustments.debit_adjustment_processor env r.debit_adjustment_request)
    | WorkflowName.wallet_deposit ↦ ok (env.wallet_processor r)
    | WorkflowName.wallet_withdrawal ↦ ok (env.wallet_processor r)
    | WorkflowName.wallet_transfer ↦ ok (env.wallet_processor r)
    | WorkflowName.payroll_processing ↦ err (service unable_to_process)
    | WorkflowName.bulk_add_employees ↦ err (service unable_to_process)
  ]

  -- The part of `validateAndSaveTransaction` that runs a processor.
  unfoldable pub process : TransactionProcessor D → Action (World D) Transaction
  process processor = do
    processor.validate
    input ← processor.convert_to_repo_input_transaction
    transaction ← Repo.create_transaction env input
    processor.perform_post_processing transaction
    pure transaction

  unfoldable pub validate_and_save_transaction :
      InitiateTransactionRequest → Action (World D) Transaction
  validate_and_save_transaction r = do
    throw_if (not (is_implemented r.type)) (service not_implemented)
    throw_if (not (validate_initiate_transaction_request r)) validation_error
    processor ← from_result (get_preprocessor r.type r)
    process processor

  unfoldable pub get_transaction_by_transaction_ref :
      String → Option String → Action (World D) Transaction
  get_transaction_by_transaction_ref reference consumer = do
    found ← Repo.get_transaction_by_ref env reference
    elim found [
      | none ↦ throw (service does_not_exist)
      | some t ↦ elim consumer [
        | none ↦ pure t
        | some id ↦
            if not (is_empty id)
              && not (same_id t.debit_consumer_id id)
              && not (same_id t.credit_consumer_id id)
            then throw (service does_not_exist)
            else pure t
      ]
    ]

  -- Only the status is updated.
  abbrev pub status_update : Option TransactionStatus → UpdateTransaction
  status_update status = record {
    status = status;
    memo = none;
    debit_amount = none;
    credit_amount = none;
    debit_currency = none;
    credit_currency = none;
    exchange_rate = none;
  }

  unfoldable pub update_transaction :
      String → Option TransactionStatus → Action (World D) Transaction
  update_transaction id status = do
    found ← Repo.get_transaction_by_id env id
    elim found [
      | none ↦ throw (service does_not_exist)
      | some _ ↦ do
        when (is_failed status) (raise_alert (critical transaction_failed))
        Repo.update_transaction_by_transaction_id env id (status_update status)
    ]
