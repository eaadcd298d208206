-- ===== src/Pomelo/Environment.antt =====
-- What the card transactions call and this component does not implement: the table of the
-- database, Joi, UUIDs, HMAC and base64, and the services of wallets, transactions and rates.
use noba_server.Common.Base.{ℕ, suc, String, Bool, Option, List, ◌∷◌}
use noba_server.Common.Amount.{Amount}
use noba_server.Common.Action.{Action, Result, ok}
use noba_server.Common.Alert.{Alert, error}
use noba_server.Common.Exception.{Exception}
use noba_server.Common.Joi.{Joi}
use noba_server.Circle.Domain.{UpdateWalletBalanceServiceDto}
use noba_server.Transactions.Domain.{Transaction}
use noba_server.Transactions.Requests.{InitiateTransactionRequest}
use noba_server.ExchangeRates.Domain.{ExchangeRateDto}
use noba_server.Pomelo.Domain.{
  PomeloTransaction, PomeloTransactionStatus, PomeloTransactionSaveRequest,
}

-- CircleService, TransactionService and ExchangeRateService, on a state `S` of theirs. The amount
-- of a debit is null where the transaction has none.
pub record Services (S : Type 0) : Type 0 where
  pub get_or_create_wallet : String → Action S String
  pub get_wallet_balance : String → Action S Amount
  pub debit_wallet_balance :
      String → String → Option Amount → Action S UpdateWalletBalanceServiceDto
  pub credit_wallet_balance :
      String → String → Option Amount → Action S UpdateWalletBalanceServiceDto
  pub validate_and_save_transaction : InitiateTransactionRequest → Action S Transaction
  pub get_transaction_by_transaction_id : String → Action S (Option Transaction)
  pub get_exchange_rate_for_currency_pair : String → String → Action S (Option ExchangeRateDto)

-- The state: that of the services, the table of Pomelo's transactions and cards, the alerts that
-- this component raised, the latest first, and how many UUIDs were drawn.
pub record World (S P : Type 0) : Type 0 where
  pub services : S
  pub table : P
  pub alerts : List Alert
  pub drawn : ℕ

pub record Environment (S P : Type 0) : Type 0 where
  pub services : Services S
  pub joi : Joi
  -- `uuid()`, by the number of UUIDs that were drawn before
  pub uuid : ℕ → String
  -- `LocaleUtils.convertToColumbianDate`, and the text of a number
  pub convert_to_columbian_date : String → String
  pub number_text : Amount → String
  -- the configured secret, as bytes
  pub pomelo_api_secret : List ℕ
  -- `Buffer.from(s, "utf8")` and `Buffer.from(s, "base64")`, on the codes of a text
  pub from_utf8 : String → List ℕ
  pub from_base64 : List ℕ → List ℕ
  -- HMAC-SHA256 of bytes under a secret, in base64, and the comparison of Node's crypto
  pub hmac_sha256_base64 : (secret bytes : List ℕ) → List ℕ
  pub timing_safe_equal : List ℕ → List ℕ → Result Bool
  -- `prisma.pomeloTransaction`: `create`, `update` of the status by Pomelo's id, and `findUnique`
  pub create :
      PomeloTransactionSaveRequest → PomeloTransactionStatus → P → Result PomeloTransaction × P
  pub update_status : String → PomeloTransactionStatus → P → Result PomeloTransaction × P
  pub find_by_noba_transaction_id : String → P → Result (Option PomeloTransaction)
  pub find_by_idempotency_key : String → P → Result (Option PomeloTransaction)
  pub find_by_pomelo_transaction_id : String → P → Result (Option PomeloTransaction)
  -- `prisma.pomeloCard.findUnique` by card and user: the consumer of the card's user
  pub find_card_consumer : (card user : String) → P → Result (Option String)
  -- whether an error says "Record to update not found."
  pub is_missing_record : Exception → Bool

module _ {S P : Type 0} where
  abbrev pub raise_error : Action (World S P) (Unit {0})
  raise_error w = (ok tt, record w { alerts = error ∷ w.alerts })

  abbrev pub serve : {A : Type 0} → Action S A → Action (World S P) A
  serve m w = let (r, s) = m w.services in (r, record w { services = s })

  abbrev pub write : {A : Type 0} → (P → Result A × P) → Action (World S P) A
  write f w = let (r, p) = f w.table in (r, record w { table = p })

  abbrev pub query : {A : Type 0} → (P → Result A) → Action (World S P) A
  query f w = (f w.table, w)

  abbrev pub draw_uuid : Environment S P → Action (World S P) String
  draw_uuid env w = (ok (env.uuid w.drawn), record w { drawn = suc w.drawn })
