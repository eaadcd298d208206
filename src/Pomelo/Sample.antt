-- ===== src/Pomelo/Sample.antt =====
-- A table of one row, a wallet and a comparison of bytes for the tests: they show that what is
-- assumed of the table and of Node's crypto can hold.
use noba_server.Common.Base.{
  ◌≡◌, refl, ℕ, ◌==◌, String, Bool, true, false, Option, none, some, List, [], ◌∷◌, str_eq, arith,
  str_eq_iff, if◌then◌else◌,
}
use noba_server.Common.Int.{pos, ◌-ℤ◌, ◌+ℤ◌}
use noba_server.Common.Amount.{Amount}
use noba_server.Common.Action.{Result, ok, err}
use noba_server.Common.Exception.{database_error, service, unable_to_process, Exception}
use noba_server.Circle.Sample.{joi}
use noba_server.Circle.Domain.{CircleTransferStatus, UpdateWalletBalanceServiceDto}
use noba_server.Transactions.Domain.{Transaction, TransactionStatus, WorkflowName, one}
use noba_server.Transactions.Requests.{InitiateTransactionRequest}
use noba_server.ExchangeRates.Domain.{ExchangeRateDto}
use noba_server.Pomelo.Domain.{
  PomeloTransaction, PomeloTransactionStatus, PomeloTransactionSaveRequest,
}
use noba_server.Pomelo.Environment.{Environment, Services}
use noba_server.Pomelo.Assumptions.{CryptoLaws, TableLaws}
use noba_server.Pomelo.Signature.{codes}

-- The wallet: its balance.
abbrev amount_of : Option Amount → Amount
amount_of none = pos 0
amount_of (some a) = a

abbrev pub booked : Option Amount → Transaction
booked amount = record {
  id = "noba-1";
  transaction_ref = "ref-1";
  workflow_name = WorkflowName.card_withdrawal;
  credit_consumer_id = none;
  debit_consumer_id = some "consumer-1";
  debit_currency = some "USD";
  credit_currency = some "COP";
  debit_amount = amount;
  credit_amount = none;
  status = TransactionStatus.initiated;
  exchange_rate = one;
  memo = none;
  session_key = "CARD_WITHDRAWAL";
  transaction_fees = [];
  created_timestamp = "2023-06-01";
  updated_timestamp = "2023-06-01";
}

abbrev pub requested : InitiateTransactionRequest → Option Amount
requested r = elim r.card_withdrawal_request [ none ↦ none | some c ↦ some c.debit_amount_in_usd ]

abbrev pub done : UpdateWalletBalanceServiceDto
done = record { id = "1"; status = CircleTransferStatus.success; created_at = "2023-06-01" }

-- 4000 pesos are a dollar.
abbrev pub rate : ExchangeRateDto
rate = record {
  numerator_currency = "USD";
  denominator_currency = "COP";
  bank_rate = record { above = 3999; below = 0 };
  noba_rate = record { above = 3999; below = 0 };
  expiration_timestamp = 1000;
}

abbrev services : Services Amount
services = record {
  get_or_create_wallet = λ consumer s. (ok "wallet-1", s);
  get_wallet_balance = λ wallet s. (ok s, s);
  debit_wallet_balance = λ id wallet amount s. (ok done, s -ℤ amount_of amount);
  credit_wallet_balance = λ id wallet amount s. (ok done, s +ℤ amount_of amount);
  validate_and_save_transaction = λ r s. (ok (booked (requested r)), s);
  get_transaction_by_transaction_id = λ id s. (ok (some (booked (some (pos 10000)))), s);
  get_exchange_rate_for_currency_pair = λ n d s. (ok (some rate), s);
}

-- The table: one row.
abbrev pub Rows : Type 0
Rows = Option PomeloTransaction

abbrev row_of : PomeloTransactionSaveRequest → PomeloTransactionStatus → PomeloTransaction
row_of r s = record {
  id = "row-1";
  pomelo_transaction_id = r.pomelo_transaction_id;
  parent_pomelo_transaction_id = r.parent_pomelo_transaction_id;
  pomelo_idempotency_key = r.pomelo_idempotency_key;
  noba_transaction_id = r.noba_transaction_id;
  settlement_date = r.settlement_date;
  pomelo_card_id = r.pomelo_card_id;
  pomelo_user_id = r.pomelo_user_id;
  amount_in_usd = r.amount_in_usd;
  local_amount = r.local_amount;
  local_currency = r.local_currency;
  settlement_amount = r.settlement_amount;
  settlement_currency = r.settlement_currency;
  transaction_amount = r.transaction_amount;
  transaction_currency = r.transaction_currency;
  status = s;
  pomelo_transaction_type = r.pomelo_transaction_type;
  point_type = r.point_type;
  entry_mode = r.entry_mode;
  country_code = r.country_code;
  origin = r.origin;
  source = r.source;
  merchant_name = r.merchant_name;
  merchant_mcc = r.merchant_mcc;
  created_timestamp = "2023-06-01";
  updated_timestamp = "2023-06-01";
}

abbrev pub find_key : String → Rows → Rows
find_key key none = none
find_key key (some t) = if str_eq t.pomelo_idempotency_key key then some t else none

abbrev create_in :
    PomeloTransactionSaveRequest → PomeloTransactionStatus → Rows → Result PomeloTransaction × Rows
create_in r s rows = elim (find_key r.pomelo_idempotency_key rows) [
  | none ↦ (ok (row_of r s), some (row_of r s))
  | some _ ↦ (err database_error, rows)
]

abbrev update_in : String → PomeloTransactionStatus → Rows → Result PomeloTransaction × Rows
update_in id s none = (err database_error, none)
update_in id s (some t) =
    if str_eq t.pomelo_transaction_id id
    then (ok (record t { status = s }), some (record t { status = s }))
    else (err database_error, some t)

-- The comparison of Node's crypto: it throws where the lengths differ.
abbrev pub equal : List ℕ → List ℕ → Result Bool
equal [] [] = ok true
equal [] (_ ∷ _) = err (service unable_to_process)
equal (_ ∷ _) [] = err (service unable_to_process)
equal (a ∷ s) (b ∷ t) = elim (equal s t) [
  | err e ↦ err e
  | ok same ↦ ok (if a == b then same else false)
]

abbrev pub environment : Environment Amount Rows
environment = record {
  services = services;
  joi = joi;
  uuid = λ n. "noba-1";
  convert_to_columbian_date = λ s. s;
  number_text = λ a. "4000";
  pomelo_api_secret = [];
  from_utf8 = codes;
  from_base64 = λ s. s;
  hmac_sha256_base64 = λ secret bytes. bytes;
  timing_safe_equal = equal;
  create = create_in;
  update_status = update_in;
  find_by_noba_transaction_id = λ id rows. ok rows;
  find_by_idempotency_key = λ key rows. ok (find_key key rows);
  find_by_pomelo_transaction_id = λ id rows. ok rows;
  find_card_consumer = λ card user rows. ok (some "consumer-1");
  is_missing_record = λ e. true;
}

equal_self : (a : List ℕ) → equal a a ≡ ok true
equal_self [] = refl
equal_self (x ∷ a) = ground (arith, equal_self a)

equal_sound : (a b : List ℕ) → equal a b ≡ ok true → a ≡ b
equal_sound [] [] h = refl
equal_sound [] (_ ∷ _) h = absurd (ground arith)
equal_sound (_ ∷ _) [] h = absurd (ground arith)
equal_sound (x ∷ a) (y ∷ b) h = ground (arith, equal_sound a b)

pub crypto_laws : CryptoLaws environment
crypto_laws = record { same = equal_self; sound = equal_sound }

created_law :
    (r : PomeloTransactionSaveRequest) (s : PomeloTransactionStatus) (p : Rows)
    {row : PomeloTransaction} {p' : Rows}
    → create_in r s p ≡ (ok row, p')
    → ok (find_key r.pomelo_idempotency_key p') ≡ ok (some row)
created_law r s p h = ground (arith, str_eq_iff r.pomelo_idempotency_key r.pomelo_idempotency_key)

unique_law :
    (r : PomeloTransactionSaveRequest) (s : PomeloTransactionStatus) (p : Rows)
    {row : PomeloTransaction}
    → ok (find_key r.pomelo_idempotency_key p) ≡ ok (some row)
    → (e : Exception) × (create_in r s p ≡ (err e, p))
unique_law r s p h = (database_error, ground arith)

updated_law :
    (key : String) (s : PomeloTransactionStatus) (p : Rows) {row saved : PomeloTransaction}
    {p' : Rows}
    → ok (find_key key p) ≡ ok (some row)
    → update_in row.pomelo_transaction_id s p ≡ (ok saved, p')
    → (row' : PomeloTransaction) × (ok (find_key key p') ≡ ok (some row')) × (row'.status ≡ s)
updated_law key s none h e = absurd (ground arith)
updated_law key s (some t) h e = (record t { status = s }, ground arith, refl)

pub table_laws : TableLaws environment
table_laws = record { created = created_law; unique = unique_law; updated = updated_law }
