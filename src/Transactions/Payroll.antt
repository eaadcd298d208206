-- ===== src/Transactions/Payroll.antt =====
-- factory/preprocessors/implementations/payroll.deposit.processor.ts
use noba_server.Common.Base.{not, Option, none, some, []}
use Prim.Native.String.{◌++◌}
use noba_server.Common.Alert.{critical, possible_data_corruption}
use noba_server.Common.Exception.{service, does_not_exist, unknown, validation_error, type_error}
use noba_server.Common.Action.{Action, pure, throw, throw_if, ◌>>=◌, ◌>>◌}
use noba_server.Transactions.Domain.{WorkflowName, InputTransaction, round_product}
use noba_server.Transactions.Requests.{PayrollDepositTransactionRequest}
use noba_server.Transactions.Environment.{
  Environment, World, TransactionProcessor, raise_alert, query, generate_uuid,
}

module _ {D : Type 0} (env : Environment D) where
  -- A record that another one refers to, and that must be there.
  abbrev or_corrupt : {A : Type 0} → Option A → Action (World D) A
  or_corrupt none = raise_alert (critical possible_data_corruption) >> throw (service unknown)
  or_corrupt (some a) = pure a

  abbrev or_type_error : {A : Type 0} → Option A → Action (World D) A
  or_type_error none = throw type_error
  or_type_error (some a) = pure a

  -- Without a rate of exchange the amount is not a number, and without a consumer the consumer's
  -- id is null: the repository refuses both before it calls the database.
  abbrev or_invalid : {A : Type 0} → Option A → Action (World D) A
  or_invalid none = throw validation_error
  or_invalid (some a) = pure a

  unfoldable pub convert_payroll_deposit :
      PayrollDepositTransactionRequest → Action (World D) InputTransaction
  convert_payroll_deposit r = do
    found ← query (env.get_disbursement r.disbursement_id)
    disbursement ← or_type_error found
    payroll_found ← query (env.get_payroll_by_id disbursement.payroll_id)
    payroll ← or_corrupt payroll_found
    employer_found ← query (env.get_employer_by_id payroll.employer_id)
    employer ← or_corrupt employer_found
    employee_found ← query (env.get_employee_by_id disbursement.employee_id)
    employee ← or_corrupt employee_found
    transaction_ref ← generate_uuid env
    rate ← or_invalid payroll.exchange_rate
    consumer_id ← or_invalid employee.consumer_id
    pure (record {
      id = none;
      transaction_ref = transaction_ref;
      workflow_name = WorkflowName.payroll_deposit;
      debit_amount = some disbursement.allocation_amount;
      debit_currency = some "COP";
      debit_consumer_id = none;
      credit_amount = some (round_product disbursement.allocation_amount rate);
      credit_currency = some "USD";
      credit_consumer_id = some consumer_id;
      memo = some (employer.name ++ (" Payroll for " ++ payroll.payroll_date));
      exchange_rate = rate;
      session_key = "PAYROLL";
      transaction_fees = [];
    })

  unfoldable pub validate_payroll_deposit :
      Option PayrollDepositTransactionRequest → Action (World D) (Unit {0})
  validate_payroll_deposit none = throw type_error
  validate_payroll_deposit (some r) = do
    throw_if (not (env.joi.required_string r.disbursement_id)) validation_error
    found ← query (env.get_disbursement r.disbursement_id)
    elim found [ none ↦ throw (service does_not_exist) | some _ ↦ pure tt ]

  unfoldable pub payroll_deposit_processor :
      Option PayrollDepositTransactionRequest → TransactionProcessor D
  payroll_deposit_processor request = record {
    validate = validate_payroll_deposit request;
    convert_to_repo_input_transaction = or_type_error request >>= convert_payroll_deposit;
    perform_post_processing = λ _. pure tt;
  }
