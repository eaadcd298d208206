-- ===== src/Transactions/Validation.antt =====
-- src/modules/transaction/domain/Transaction.ts and TransactionFee.ts: the validation of transactions.
-- Joi's checks that the types of the model make true are left out.
use noba_server.Common.Base.{
  String, Bool, true, false, not, ◌&&◌, ◌||◌, Option, none, some, List, [], ◌∷◌, is_empty,
}
use noba_server.Common.Amount.{Amount, is_truthy}
use noba_server.Common.Exception.{service, unable_to_process, validation_error, bad_request_error}
use noba_server.Common.Action.{Action, throw_if, ◌>>◌}
use noba_server.Common.Joi.{Joi}
use noba_server.Transactions.Domain.{
  WorkflowName, InputTransactionFee, TransactionFee, InputTransaction, Transaction,
  UpdateTransaction,
}

abbrev truthy_string : Option String → Bool
truthy_string none = false
truthy_string (some s) = not (is_empty s)

abbrev truthy_amount : Option Amount → Bool
truthy_amount none = false
truthy_amount (some a) = is_truthy a

abbrev is_card_withdrawal : WorkflowName → Bool
is_card_withdrawal WorkflowName.card_withdrawal = true
is_card_withdrawal _ = false

-- A check of a value that may be absent.
abbrev if_given : {A : Type 0} → (A → Bool) → Option A → Bool
if_given check none = true
if_given check (some a) = check a

module _ (joi : Joi) where
  unfoldable pub validate_fees : List InputTransactionFee → Bool
  validate_fees [] = true
  validate_fees (fee ∷ fees) = joi.length_string 3 fee.currency && validate_fees fees

  unfoldable pub validate_saved_fees : List TransactionFee → Bool
  validate_saved_fees [] = true
  validate_saved_fees (fee ∷ fees) =
      joi.required_string fee.id && joi.length_string 3 fee.currency && validate_saved_fees fees

  -- The schema of `validateInputTransaction`.
  unfoldable pub is_valid_input : InputTransaction → Bool
  is_valid_input t =
      if_given joi.required_string t.id
      && joi.min_string 10 t.transaction_ref
      && if_given (joi.min_string 10) t.debit_consumer_id
      && if_given (joi.min_string 10) t.credit_consumer_id
      && joi.optional_positive_number t.debit_amount
      && joi.optional_positive_number t.credit_amount
      && if_given joi.required_string t.debit_currency
      && if_given joi.required_string t.credit_currency
      && joi.required_string t.session_key
      && validate_fees t.transaction_fees

  abbrev has_debit_side : InputTransaction → Bool
  has_debit_side t = truthy_amount t.debit_amount && truthy_string t.debit_currency

  abbrev has_credit_side : InputTransaction → Bool
  has_credit_side t = truthy_amount t.credit_amount && truthy_string t.credit_currency

  unfoldable pub has_a_side : InputTransaction → Bool
  has_a_side t = has_debit_side t || has_credit_side t

  unfoldable pub has_unexpected_id : InputTransaction → Bool
  has_unexpected_id t = truthy_string t.id && not (is_card_withdrawal t.workflow_name)

  unfoldable pub validate_input_transaction : {S : Type 0} → InputTransaction → Action S (Unit {0})
  validate_input_transaction t = do
    throw_if (not (is_valid_input t)) validation_error
    throw_if (not (has_a_side t)) bad_request_error
    throw_if (has_unexpected_id t) (service unable_to_process)

  unfoldable pub validate_saved_transaction : Transaction → Bool
  validate_saved_transaction t =
      joi.min_string 10 t.id
      && joi.required_string t.transaction_ref
      && if_given (joi.min_string 10) t.debit_consumer_id
      && if_given (joi.min_string 10) t.credit_consumer_id
      && joi.optional_number t.debit_amount
      && joi.optional_number t.credit_amount
      && if_given joi.required_string t.debit_currency
      && if_given joi.required_string t.credit_currency
      && joi.required_string t.session_key
      && if_given joi.required_string t.memo
      && validate_saved_fees t.transaction_fees

  unfoldable pub validate_update_transaction : UpdateTransaction → Bool
  validate_update_transaction t =
      joi.optional_number t.debit_amount
      && joi.optional_number t.credit_amount
      && if_given joi.required_string t.debit_currency
      && if_given joi.required_string t.credit_currency
      && if_given joi.required_string t.memo
