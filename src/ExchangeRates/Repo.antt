-- ===== src/ExchangeRates/Repo.antt =====
-- src/modules/exchangerate/repo/sql.exchangerate.repo.ts, with the validations of
-- exchangerate/domain/ExchangeRate.ts. Joi's checks of rates and times are left out: any number passes.
use noba_server.Common.Base.{ℕ, String, Bool, not, ◌&&◌, Option, none}
use noba_server.Common.Exception.{
  database_internal_error_exception, invalid_database_record_exception, validation_error,
}
use noba_server.Common.Alert.{error}
use noba_server.Common.Action.{Action, pure, throw, throw_if, try_catch, ◌>>=◌, ◌>>◌}
use noba_server.ExchangeRates.Domain.{ExchangeRate, InputExchangeRate}
use noba_server.ExchangeRates.Environment.{Environment, World, raise_alert, write, query}

module _ {X : Type 0} (env : Environment X) where
  unfoldable pub validate_input_exchange_rate : InputExchangeRate → Bool
  validate_input_exchange_rate r =
      env.joi.length_string 3 r.numerator_currency && env.joi.length_string 3 r.denominator_currency

  unfoldable pub validate_saved_exchange_rate : ExchangeRate → Bool
  validate_saved_exchange_rate r =
      env.joi.min_string 10 r.id
      && env.joi.length_string 3 r.numerator_currency
      && env.joi.length_string 3 r.denominator_currency

  -- What `prisma.exchangeRate.create` is given.
  abbrev pub to_create_input : InputExchangeRate → InputExchangeRate
  to_create_input r = record r {
    numerator_currency = env.to_upper_case r.numerator_currency;
    denominator_currency = env.to_upper_case r.denominator_currency;
  }

  unfoldable pub create_exchange_rate : InputExchangeRate → Action (World X) ExchangeRate
  create_exchange_rate r = do
    throw_if (not (validate_input_exchange_rate r)) validation_error
    saved ←
        try_catch (write (env.create (to_create_input r)))
          (λ _. raise_alert error >> throw database_internal_error_exception)
    try_catch (throw_if (not (validate_saved_exchange_rate saved)) validation_error)
        (λ _. raise_alert error >> throw invalid_database_record_exception)
    pure saved

  unfoldable pub get_exchange_rate_for_currency_pair :
      (numerator denominator : String) → Option ℕ → Action (World X) (Option ExchangeRate)
  get_exchange_rate_for_currency_pair numerator denominator since =
      try_catch
        (query (env.find_first (env.to_upper_case numerator) (env.to_upper_case denominator) since))
        (λ _. raise_alert error >> pure none)
