-- ===== src/Transactions/Processors.antt =====
-- src/modules/transaction/factory/preprocessors: the processors of the transactions that the server
-- books by itself: what they share, and those of card payments. A request may be undefined: Joi lets that pass, and reading it throws.
use noba_server.Common.Base.{
  String, Bool, true, false, not, ◌&&◌, ◌||◌, Option, none, some, [], str_eq,
}
use noba_server.Common.Exception.{validation_error, type_error}
use noba_server.Common.Action.{Action, pure, throw, throw_if, ◌>>=◌}
use noba_server.Transactions.Domain.{WorkflowName, InputTransaction}
use noba_server.Transactions.Requests.{
  CardWithdrawalTransactionRequest, CardReversalTransactionRequest, CardReversalTransactionType,
}
use noba_server.Transactions.Environment.{Environment, World, TransactionProcessor, generate_uuid}

-- `Joi.string().required().valid(...Object.values(Currency))`
abbrev pub is_currency : String → Bool
is_currency s = str_eq s "USD" || str_eq s "COP"

-- `Joi.number().required()` refuses null.
abbrev is_given : {A : Type 0} → Option A → Bool
is_given none = false
is_given (some _) = true

module _ {D : Type 0} (env : Environment D) where
  -- `Joi.attempt`, on a request that may be undefined.
  abbrev attempt : {R : Type 0} → (R → Bool) → Option R → Action (World D) (Unit {0})
  attempt check none = pure tt
  attempt check (some request) = throw_if (not (check request)) validation_error

  -- A conversion of a request, which reads it.
  abbrev pub converting :
      {R : Type 0} → (R → String → InputTransaction) → Option R → Action (World D) InputTransaction
  converting convert none = throw type_error
  converting convert (some request) = do
    transaction_ref ← generate_uuid env
    pure (convert request transaction_ref)

  -- The same where the UUID is drawn before the request is read.
  abbrev pub drawing :
      {R : Type 0} → (R → String → InputTransaction) → Option R → Action (World D) InputTransaction
  drawing convert request = do
    transaction_ref ← generate_uuid env
    elim request [ none ↦ throw type_error | some r ↦ pure (convert r transaction_ref) ]

  -- A processor of requests whose dynamic validation and post-processing are empty.
  abbrev pub simple_processor :
      {R : Type 0}
      → (R → Bool)
      → (Option R → Action (World D) InputTransaction)
      → Option R
      → TransactionProcessor D
  simple_processor check convert request = record {
    validate = attempt check request;
    convert_to_repo_input_transaction = convert request;
    perform_post_processing = λ _. pure tt;
  }

  abbrev pub convert_card_withdrawal : CardWithdrawalTransactionRequest → String → InputTransaction
  convert_card_withdrawal r transaction_ref = record {
    id = some r.noba_transaction_id;
    transaction_ref = transaction_ref;
    workflow_name = WorkflowName.card_withdrawal;
    debit_amount = some r.debit_amount_in_usd;
    debit_currency = some "USD";
    debit_consumer_id = some r.debit_consumer_id;
    credit_amount = some r.credit_amount;
    credit_currency = some r.credit_currency;
    credit_consumer_id = none;
    memo = some r.memo;
    exchange_rate = r.exchange_rate;
    session_key = "CARD_WITHDRAWAL";
    transaction_fees = [];
  }

  unfoldable pub card_withdrawal_processor :
      Option CardWithdrawalTransactionRequest → TransactionProcessor D
  card_withdrawal_processor =
      simple_processor
        (λ r.
          env.joi.required_string r.noba_transaction_id
          && env.joi.required_string r.debit_consumer_id
          && is_currency r.credit_currency
          && env.joi.required_string r.memo)
        (converting convert_card_withdrawal)

  abbrev pub convert_reversal : CardReversalTransactionRequest → String → InputTransaction
  convert_reversal r transaction_ref = elim r.type [
    | CardReversalTransactionType.credit ↦ record {
      id = some r.noba_transaction_id;
      transaction_ref = transaction_ref;
      workflow_name = WorkflowName.card_reversal;
      debit_amount = none;
      debit_currency = none;
      debit_consumer_id = none;
      credit_amount = r.amount_in_usd;
      credit_currency = some "USD";
      credit_consumer_id = some r.consumer_id;
      memo = some r.memo;
      exchange_rate = r.exchange_rate;
      session_key = "CARD_REVERSAL";
      transaction_fees = [];
    }
    | CardReversalTransactionType.debit ↦ record {
      id = some r.noba_transaction_id;
      transaction_ref = transaction_ref;
      workflow_name = WorkflowName.card_reversal;
      debit_amount = r.amount_in_usd;
      debit_currency = some "USD";
      debit_consumer_id = some r.consumer_id;
      credit_amount = none;
      credit_currency = none;
      credit_consumer_id = none;
      memo = some r.memo;
      exchange_rate = r.exchange_rate;
      session_key = "CARD_REVERSAL";
      transaction_fees = [];
    }
  ]

  unfoldable pub card_reversal_processor :
      Option CardReversalTransactionRequest → TransactionProcessor D
  card_reversal_processor =
      simple_processor
        (λ r.
          env.joi.required_string r.noba_transaction_id
          && env.joi.required_string r.consumer_id
          && is_given r.amount_in_usd
          && env.joi.required_string r.memo)
        (converting convert_reversal)
