-- ===== src/Transactions/Tests.antt =====
-- Tests and examples of the transactions. The database holds the last transaction saved.
use noba_server.Common.Base.{
  ◌≡◌, ◌≢◌, refl, true, false, Option, none, some, [], ◌⊎◌, str_eq, arith, str_eq_iff,
  if◌then◌else◌,
}
use noba_server.Common.Amount.{cents}
use noba_server.Common.Action.{ok, err, pure}
use noba_server.Common.Exception.{database_error, validation_error}
use noba_server.Common.Joi.{Joi}
use noba_server.Transactions.Domain.{
  WorkflowName, TransactionStatus, Transaction, TransactionCreateInput, one, round_product,
}
use noba_server.Transactions.Requests.{
  InitiateTransactionRequest, CardReversalTransactionType, validate_initiate_transaction_request,
}
use noba_server.Transactions.Environment.{Environment, World}
use noba_server.Transactions.Validation.{
  validate_fees, validate_saved_fees, is_valid_input, has_a_side, has_unexpected_id,
  validate_input_transaction, validate_saved_transaction, validate_update_transaction,
}
use noba_server.Transactions.Repo
use noba_server.Transactions.Processors
use noba_server.Transactions.Service.{
  get_preprocessor, process, validate_and_save_transaction, get_transaction_by_transaction_ref,
  update_transaction,
}
use noba_server.Transactions.Booked.{
  IsBooked, validate_and_save-IsBooked, card_reversal-never-saved,
}
use noba_server.Transactions.Access.{get_transaction_by_transaction_ref-eq-ok, to_failed}

open_all : Unit {0}
unfolding validate_initiate_transaction_request validate_fees validate_saved_fees is_valid_input
    has_a_side has_unexpected_id validate_input_transaction validate_saved_transaction
    Repo.to_create_input Repo.create_transaction Repo.get_transaction_by_id
    Repo.get_transaction_by_ref Repo.update_transaction_by_transaction_id Repo.to_update_input
    validate_update_transaction Processors.card_withdrawal_processor
    Processors.card_reversal_processor get_preprocessor process validate_and_save_transaction
    get_transaction_by_transaction_ref update_transaction round_product
open_all = tt

-- A product of 1000.50 pesos at 0.0002 dollars is 20.01 cents, and rounded to 20 cents.
rounds_a_product :
    round_product (cents 100050) (record { numerator = 1; predecessor = 4999 }) ≡ cents 20
unfolding open_all
rounds_a_product = refl

abbrev joi : Joi
joi = record {
  required_string = λ s. if str_eq s "" then false else true;
  min_string = λ n s. true;
  length_string = λ n s. true;
  required_number = λ a. true;
  optional_number = λ a. true;
  optional_positive_number = λ a. true;
}

abbrev row : TransactionCreateInput → Transaction
row i = record {
  id = elim i.id [ none ↦ "transaction-1" | some id ↦ id ];
  transaction_ref = i.transaction_ref;
  workflow_name = i.workflow_name;
  credit_consumer_id = i.credit_consumer_id;
  debit_consumer_id = i.debit_consumer_id;
  debit_currency = i.debit_currency;
  credit_currency = i.credit_currency;
  debit_amount = i.debit_amount;
  credit_amount = i.credit_amount;
  status = TransactionStatus.initiated;
  exchange_rate = i.exchange_rate;
  memo = i.memo;
  session_key = elim i.session_key [ none ↦ "" | some key ↦ key ];
  transaction_fees = [];
  created_timestamp = "2023-06-01";
  updated_timestamp = "2023-06-01";
}

abbrev environment : Environment (Option Transaction)
environment = record {
  joi = joi;
  uuid = λ n. "0123456789abcdef";
  create = λ i d. (ok (row i), some (row i));
  find_by_id = λ id d. ok d;
  find_by_ref = λ reference d. ok d;
  update = λ id status d. (err database_error, d);
  is_missing_record = λ e. false;
  get_disbursement = λ id d. ok none;
  get_payroll_by_id = λ id d. ok none;
  get_employer_by_id = λ id d. ok none;
  get_employee_by_id = λ id d. ok none;
  wallet_processor = λ r. record {
    validate = pure tt;
    convert_to_repo_input_transaction = λ w. (err validation_error, w);
    perform_post_processing = λ t. pure tt;
  };
}

abbrev empty : World (Option Transaction)
empty = record { database = none; alerts = []; drawn = 0 }

abbrev no_request : WorkflowName → InitiateTransactionRequest
no_request type = record {
  type = type;
  card_withdrawal_request = none;
  card_reversal_request = none;
  payroll_deposit_request = none;
  card_credit_adjustment_request = none;
  card_debit_adjustment_request = none;
  credit_adjustment_request = none;
  debit_adjustment_request = none;
  wallet_deposit_request = none;
  wallet_withdrawal_request = none;
  wallet_transfer_request = none;
}

abbrev withdrawal : InitiateTransactionRequest
withdrawal = record (no_request WorkflowName.card_withdrawal) {
  card_withdrawal_request = some (record {
    noba_transaction_id = "noba-transaction-1";
    debit_consumer_id = "consumer-1";
    debit_amount_in_usd = cents 1000;
    credit_amount = cents 1000;
    credit_currency = "USD";
    exchange_rate = one;
    memo = "coffee";
  });
}

abbrev reversal : InitiateTransactionRequest
reversal = record (no_request WorkflowName.card_reversal) {
  card_reversal_request = some (record {
    type = CardReversalTransactionType.credit;
    noba_transaction_id = "noba-transaction-1";
    consumer_id = "consumer-1";
    amount_in_usd = some (cents 1000);
    exchange_rate = one;
    memo = "coffee";
  });
}

abbrev saved : World (Option Transaction)
saved = (validate_and_save_transaction environment withdrawal empty).1

abbrev withdrawn : Transaction
withdrawn = record {
  id = "noba-transaction-1";
  transaction_ref = "0123456789abcdef";
  workflow_name = WorkflowName.card_withdrawal;
  credit_consumer_id = none;
  debit_consumer_id = some "consumer-1";
  debit_currency = some "USD";
  credit_currency = some "USD";
  debit_amount = some (cents 1000);
  credit_amount = some (cents 1000);
  status = TransactionStatus.initiated;
  exchange_rate = one;
  memo = some "coffee";
  session_key = "CARD_WITHDRAWAL";
  transaction_fees = [];
  created_timestamp = "2023-06-01";
  updated_timestamp = "2023-06-01";
}

withdrawal_is_saved :
    validate_and_save_transaction environment withdrawal empty ≡ (ok withdrawn, saved)
unfolding open_all
withdrawal_is_saved = refl

validate_and_save-IsBooked_example : IsBooked environment withdrawal none saved.database withdrawn
validate_and_save-IsBooked_example =
    validate_and_save-IsBooked environment withdrawal empty withdrawal_is_saved

abbrev without_request : InitiateTransactionRequest
without_request = no_request WorkflowName.card_withdrawal

no_request_is_refused :
    validate_and_save_transaction environment without_request saved ≡ (err validation_error, saved)
unfolding open_all
no_request_is_refused = refl

card_reversal-never-saved_example :
    validate_and_save_transaction environment reversal empty ≢ (ok withdrawn, saved)
card_reversal-never-saved_example =
    card_reversal-never-saved environment refl reversal empty refl withdrawn saved

given_to_its_consumer :
    get_transaction_by_transaction_ref environment "0123456789abcdef" (some "consumer-1") saved
    ≡ (ok withdrawn, saved)
unfolding open_all
given_to_its_consumer = refl

get_transaction_by_transaction_ref-eq-ok_example :
    (environment.find_by_ref "0123456789abcdef" saved.database ≡ ok (some withdrawn))
    × ((withdrawn.debit_consumer_id ≡ some "consumer-1")
        ⊎ (withdrawn.credit_consumer_id ≡ some "consumer-1"))
get_transaction_by_transaction_ref-eq-ok_example =
    get_transaction_by_transaction_ref-eq-ok environment "0123456789abcdef" "consumer-1" saved
      (ground (arith, str_eq_iff "consumer-1" "")) given_to_its_consumer

is_found : environment.find_by_id "noba-transaction-1" saved.database ≡ ok (some withdrawn)
unfolding open_all
is_found = refl

is_accepted : validate_update_transaction joi (to_failed environment) ≡ true
unfolding open_all
is_accepted = refl
