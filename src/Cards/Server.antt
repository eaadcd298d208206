-- ===== src/Cards/Server.antt =====
-- The services of the card transactions, as the server wires them: CircleService of
-- src/modules/circle, and the transactions and rates on a state of their own.
use noba_server.Common.Base.{String, Option, none, some}
use noba_server.Common.Amount.{Amount}
use noba_server.Common.Exception.{service, semantic_validation}
use noba_server.Common.Action.{Action, throw}
use noba_server.Circle.Domain.{UpdateWalletBalanceServiceDto}
use noba_server.Circle.Environment as Circle
use noba_server.Circle.Service as CircleService
use noba_server.Transactions.Domain.{Transaction}
use noba_server.Transactions.Requests.{InitiateTransactionRequest}
use noba_server.ExchangeRates.Domain.{ExchangeRateDto}
use noba_server.Pomelo.Environment as Pomelo

pub record World (E D R : Type 0) : Type 0 where
  pub wallets : Circle.World E D
  pub rest : R

-- The services of transactions and of rates.
pub record Bookings (R : Type 0) : Type 0 where
  pub validate_and_save_transaction : InitiateTransactionRequest → Action R Transaction
  pub get_transaction_by_transaction_id : String → Action R (Option Transaction)
  pub get_exchange_rate_for_currency_pair : String → String → Action R (Option ExchangeRateDto)

module _ {E D R : Type 0} where
  abbrev pub of_wallets : {A : Type 0} → Action (Circle.World E D) A → Action (World E D R) A
  of_wallets m w = let (r, c) = m w.wallets in (r, record w { wallets = c })

  abbrev pub of_rest : {A : Type 0} → Action R A → Action (World E D R) A
  of_rest m w = let (r, s) = m w.rest in (r, record w { rest = s })

module _ {E D R : Type 0} (circle : Circle.Environment E D) (bookings : Bookings R)
    (credit_nothing : String → String → Action (World E D R) UpdateWalletBalanceServiceDto) where
  -- A debit of null is refused: null is not greater than 0.
  abbrev pub debit :
      String → String → Option Amount → Action (World E D R) UpdateWalletBalanceServiceDto
  debit id wallet none = throw (service semantic_validation)
  debit id wallet (some amount) =
      of_wallets (CircleService.debit_wallet_balance circle id wallet amount)

  -- A credit of null sends NaN to Circle: what comes of that is a parameter.
  abbrev credit :
      String → String → Option Amount → Action (World E D R) UpdateWalletBalanceServiceDto
  credit id wallet none = credit_nothing id wallet
  credit id wallet (some amount) =
      of_wallets (CircleService.credit_wallet_balance circle id wallet amount)

  abbrev pub services : Pomelo.Services (World E D R)
  services = record {
    get_or_create_wallet =
        λ consumer. of_wallets (CircleService.get_or_create_wallet circle consumer);
    get_wallet_balance = λ wallet. of_wallets (CircleService.get_wallet_balance circle wallet);
    debit_wallet_balance = debit;
    credit_wallet_balance = credit;
    validate_and_save_transaction =
        λ request. of_rest (bookings.validate_and_save_transaction request);
    get_transaction_by_transaction_id =
        λ id. of_rest (bookings.get_transaction_by_transaction_id id);
    get_exchange_rate_for_currency_pair = λ numerator denominator.
        of_rest (bookings.get_exchange_rate_for_currency_pair numerator denominator);
  }

  -- The environment of the card transactions, with these services.
  abbrev pub wired : {S P : Type 0} → Pomelo.Environment S P → Pomelo.Environment (World E D R) P
  wired env = record {
    services = services;
    joi = env.joi;
    uuid = env.uuid;
    convert_to_columbian_date = env.convert_to_columbian_date;
    number_text = env.number_text;
    pomelo_api_secret = env.pomelo_api_secret;
    from_utf8 = env.from_utf8;
    from_base64 = env.from_base64;
    hmac_sha256_base64 = env.hmac_sha256_base64;
    timing_safe_equal = env.timing_safe_equal;
    create = env.create;
    update_status = env.update_status;
    find_by_noba_transaction_id = env.find_by_noba_transaction_id;
    find_by_idempotency_key = env.find_by_idempotency_key;
    find_by_pomelo_transaction_id = env.find_by_pomelo_transaction_id;
    find_card_consumer = env.find_card_consumer;
    is_missing_record = env.is_missing_record;
  }
