-- ===== src/Transactions/Repo.antt =====
-- src/modules/transaction/repo/sql.transaction.repo.ts: what a transaction is saved, found and updated
-- by. The filtered list, the events and the sums are left out.
use noba_server.Common.Base.{◌==◌, String, not, Option, none, some, if◌then◌else◌, is_empty}
use noba_server.Common.Amount.{Amount, is_truthy}
use noba_server.Common.Exception.{
  database_internal_error_exception, invalid_database_record_exception, not_found_error,
  validation_error,
}
use noba_server.Common.Alert.{error}
use noba_server.Common.Action.{Action, pure, throw, throw_if, try_catch, ◌>>=◌, ◌>>◌}
use noba_server.Transactions.Domain.{
  InputTransaction, Transaction, TransactionCreateInput, UpdateTransaction, Rate,
}
use noba_server.Transactions.Environment.{Environment, World, raise_alert, write, query}
use noba_server.Transactions.Validation.{
  validate_input_transaction, validate_saved_transaction, validate_update_transaction,
}

-- `...(s && { key: s })`
abbrev keep_string : Option String → Option String
keep_string none = none
keep_string (some s) = if is_empty s then none else some s

abbrev keep_amount : Option Amount → Option Amount
keep_amount none = none
keep_amount (some a) = if is_truthy a then some a else none

unfoldable pub to_create_input : InputTransaction → TransactionCreateInput
to_create_input t = record {
  id = keep_string t.id;
  transaction_ref = t.transaction_ref;
  workflow_name = t.workflow_name;
  credit_consumer_id = keep_string t.credit_consumer_id;
  debit_consumer_id = keep_string t.debit_consumer_id;
  debit_currency = keep_string t.debit_currency;
  credit_currency = keep_string t.credit_currency;
  debit_amount = keep_amount t.debit_amount;
  credit_amount = keep_amount t.credit_amount;
  exchange_rate = t.exchange_rate;
  memo = keep_string t.memo;
  session_key = keep_string (some t.session_key);
  transaction_fees = t.transaction_fees;
}

-- A rate of zero is falsy.
abbrev keep_rate : Option Rate → Option Rate
keep_rate none = none
keep_rate (some r) = if r.numerator == 0 then none else some r

unfoldable pub to_update_input : UpdateTransaction → UpdateTransaction
to_update_input t = record {
  status = t.status;
  memo = keep_string t.memo;
  debit_amount = keep_amount t.debit_amount;
  credit_amount = keep_amount t.credit_amount;
  debit_currency = keep_string t.debit_currency;
  credit_currency = keep_string t.credit_currency;
  exchange_rate = keep_rate t.exchange_rate;
}

module _ {D : Type 0} (env : Environment D) where
  unfoldable pub create_transaction : InputTransaction → Action (World D) Transaction
  create_transaction input = do
    validate_input_transaction env.joi input
    saved ←
        try_catch (write (env.create (to_create_input input)))
          (λ _. raise_alert error >> throw database_internal_error_exception)
    try_catch
        (throw_if (not (validate_saved_transaction env.joi saved)) invalid_database_record_exception
          >> pure saved)
        (λ _. raise_alert error >> throw invalid_database_record_exception)

  unfoldable pub get_transaction_by_id : String → Action (World D) (Option Transaction)
  get_transaction_by_id id =
      try_catch (query (env.find_by_id id)) (λ _. raise_alert error >> pure none)

  unfoldable pub get_transaction_by_ref : String → Action (World D) (Option Transaction)
  get_transaction_by_ref reference =
      try_catch (query (env.find_by_ref reference)) (λ _. raise_alert error >> pure none)

  unfoldable pub update_transaction_by_transaction_id :
      String → UpdateTransaction → Action (World D) Transaction
  update_transaction_by_transaction_id id update = do
    throw_if (not (validate_update_transaction env.joi update)) validation_error
    try_catch (write (env.update id (to_update_input update))) (λ e.
        raise_alert error
        >> throw (
            if env.is_missing_record e then not_found_error else database_internal_error_exception))
