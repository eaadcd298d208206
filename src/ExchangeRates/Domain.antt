-- ===== src/ExchangeRates/Domain.antt =====
-- src/modules/exchangerate/domain/ExchangeRate.ts and exchangerate/dto/exchangerate.dto.ts.
-- A rate is a positive fraction, so that amounts can be divided by it.
use noba_server.Common.Base.{ℕ, suc, String, Option}
use noba_server.Transactions.Domain.{Rate}

-- The fraction `(above + 1) / (below + 1)`.
pub record PositiveRate : Type 0 where
  pub above : ℕ
  pub below : ℕ

abbrev pub inverse : PositiveRate → Rate
inverse r = record { numerator = suc r.below; predecessor = r.above }

pub data ExchangeRateName : Type 0 where
  stub exchangerateio : ExchangeRateName

pub record ExchangeRatePair : Type 0 where
  pub numerator_currency : String
  pub denominator_currency : String

-- A time is a number of milliseconds.
pub record ExchangeRate : Type 0 where
  pub id : String
  pub created_timestamp : ℕ
  pub updated_timestamp : ℕ
  pub numerator_currency : String
  pub denominator_currency : String
  pub bank_rate : PositiveRate
  pub noba_rate : PositiveRate
  pub expiration_timestamp : ℕ

pub record InputExchangeRate : Type 0 where
  pub numerator_currency : String
  pub denominator_currency : String
  pub bank_rate : PositiveRate
  pub noba_rate : PositiveRate
  pub expiration_timestamp : ℕ

-- What the service returns.
pub record ExchangeRateDto : Type 0 where
  pub numerator_currency : String
  pub denominator_currency : String
  pub bank_rate : PositiveRate
  pub noba_rate : PositiveRate
  pub expiration_timestamp : ℕ

-- The same type where it is given: null and undefined are `none`.
pub record GivenExchangeRateDto : Type 0 where
  pub numerator_currency : String
  pub denominator_currency : String
  pub bank_rate : PositiveRate
  pub noba_rate : Option PositiveRate
  pub expiration_timestamp : Option ℕ
