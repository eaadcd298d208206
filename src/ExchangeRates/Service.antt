-- ===== src/ExchangeRates/Service.antt =====
-- src/modules/exchangerate/exchangerate.service.ts, with the factory and the two clients of its rates.
use noba_server.Common.Base.{
  ℕ, suc, ◌+◌, ◌*◌, String, Bool, true, false, ◌&&◌, ◌||◌, Option, none, some, List, [], ◌∷◌, ltb,
  str_eq, if◌then◌else◌,
}
use noba_server.Common.Exception.{service, semantic_validation, type_error, not_implemented_error}
use noba_server.Common.Alert.{critical, stale_fx_rates, exchange_rate_update_failed}
use noba_server.Common.Action.{
  Action, Result, ok, err, pure, throw, try_catch, from_result, when, ◌>>=◌, ◌>>◌,
}
use noba_server.ExchangeRates.Domain.{
  PositiveRate, ExchangeRateName, ExchangeRatePair, ExchangeRate, ExchangeRateDto,
  GivenExchangeRateDto, InputExchangeRate,
}
use noba_server.ExchangeRates.Environment.{Environment, World, raise_alert, write, now}
use noba_server.ExchangeRates.Repo

abbrev pub hours : ℕ → ℕ
hours n = n * (60 * 60 * 1000)

abbrev pub exchange_rate_pairs : List ExchangeRatePair
exchange_rate_pairs =
    record { numerator_currency = "USD"; denominator_currency = "COP" }
    ∷ record { numerator_currency = "COP"; denominator_currency = "USD" }
    ∷ []

-- The fields of a row that are given to callers.
abbrev pub to_dto : ExchangeRate → ExchangeRateDto
to_dto r = record {
  numerator_currency = r.numerator_currency;
  denominator_currency = r.denominator_currency;
  bank_rate = r.bank_rate;
  noba_rate = r.noba_rate;
  expiration_timestamp = r.expiration_timestamp;
}

-- `rate < existing * 0.9 || rate > existing * 1.1`
unfoldable pub is_outside_threshold : (rate existing : PositiveRate) → Bool
is_outside_threshold rate existing =
    ltb (suc rate.above * 10 * suc existing.below) (suc existing.above * 9 * suc rate.below)
    || ltb (suc existing.above * 11 * suc rate.below) (suc rate.above * 10 * suc existing.below)

abbrev pub rate_of : String → List (String × PositiveRate) → Option PositiveRate
rate_of currency [] = none
rate_of currency ((name, rate) ∷ rates) =
    if str_eq name currency then some rate else rate_of currency rates

abbrev pub default_rate : Option PositiveRate → PositiveRate → PositiveRate
default_rate none bank_rate = bank_rate
default_rate (some rate) bank_rate = rate

-- Whether there is an error message.
unfoldable pub has_error : List (Option (Result ExchangeRateDto)) → Bool
has_error [] = false
has_error (none ∷ outcomes) = true
has_error (some _ ∷ outcomes) = has_error outcomes

-- `Promise.all`
unfoldable pub all : List (Option (Result ExchangeRateDto)) → Result (List ExchangeRateDto)
all [] = ok []
all (none ∷ outcomes) = all outcomes
all (some (err e) ∷ outcomes) = err e
all (some (ok dto) ∷ outcomes) = elim (all outcomes) [ ok dtos ↦ ok (dto ∷ dtos) | err e ↦ err e ]

-- `StubExchangeRateClient.getExchangeRate`
unfoldable pub stub_get_exchange_rate :
    (numerator denominator : String) → Result (Option PositiveRate)
stub_get_exchange_rate numerator denominator =
    if str_eq numerator "USD" && str_eq denominator "COP"
    then ok (some (record { above = 3999; below = 0 }))
    else if str_eq numerator "COP" && str_eq denominator "USD"
    then ok (some (record { above = 0; below = 3999 }))
    else err not_implemented_error

-- `getExchangeRateClientByCurrencyPair`: the client, or an exception.
unfoldable pub get_exchange_rate_client_by_currency_pair :
    (numerator denominator : String) → Result ExchangeRateName
get_exchange_rate_client_by_currency_pair numerator denominator =
    if str_eq numerator "USD" && str_eq denominator "COP"
    then ok ExchangeRateName.exchangerateio
    else if str_eq numerator "COP" && str_eq denominator "USD"
    then ok ExchangeRateName.exchangerateio
    else err (service semantic_validation)

module _ {X : Type 0} (env : Environment X) where
  -- `ExchangeRateIOExchangeRateClient.getExchangeRate`
  unfoldable pub exchangerateio_get_exchange_rate :
      (numerator denominator : String) → Action (World X) (Option PositiveRate)
  exchangerateio_get_exchange_rate numerator denominator = do
    rates ← write (env.get_latest denominator numerator)
    elim rates [ none ↦ throw type_error | some list ↦ pure (rate_of denominator list) ]

  -- `IExchangeRateClient.getExchangeRate`, of the client that is given.
  unfoldable pub get_exchange_rate :
      ExchangeRateName → (numerator denominator : String) → Action (World X) (Option PositiveRate)
  unfolding exchangerateio_get_exchange_rate stub_get_exchange_rate
  get_exchange_rate ExchangeRateName.stub numerator denominator =
      from_result (stub_get_exchange_rate numerator denominator)
  get_exchange_rate ExchangeRateName.exchangerateio numerator denominator =
      exchangerateio_get_exchange_rate numerator denominator

  -- The expiration of a rate: the clock is read only where none is given.
  abbrev pub expiration : Option ℕ → Action (World X) ℕ
  expiration none = do time ← now env; pure (time + hours 36)
  expiration (some time) = pure time

  -- What is saved of a rate whose fields are filled in.
  abbrev pub input_of : GivenExchangeRateDto → ℕ → InputExchangeRate
  input_of dto expiration_timestamp = record {
    numerator_currency = dto.numerator_currency;
    denominator_currency = dto.denominator_currency;
    bank_rate = dto.bank_rate;
    noba_rate = default_rate dto.noba_rate dto.bank_rate;
    expiration_timestamp = expiration_timestamp;
  }

  -- The `try` of `createExchangeRate`.
  unfoldable pub save_exchange_rate : InputExchangeRate → Action (World X) ExchangeRateDto
  save_exchange_rate input =
      try_catch (Repo.create_exchange_rate env input >>= λ created. pure (to_dto created))
        (λ _. throw (service semantic_validation))

  unfoldable pub create_exchange_rate : GivenExchangeRateDto → Action (World X) ExchangeRateDto
  create_exchange_rate dto = do
    expiration_timestamp ← expiration dto.expiration_timestamp
    save_exchange_rate (input_of dto expiration_timestamp)

  -- A promise that was started: it is run, and what it ends in is kept.
  abbrev started : {A : Type 0} → Action (World X) A → Action (World X) (Result A)
  started m w = let (r, t) = m w in (ok r, t)

  abbrev pub refuses : PositiveRate → Option ExchangeRate → Bool
  refuses rate none = false
  refuses rate (some existing) = is_outside_threshold rate existing.bank_rate

  -- The rate of the provider, as it is stored.
  abbrev pub provided_dto : ExchangeRatePair → PositiveRate → ℕ → GivenExchangeRateDto
  provided_dto pair rate time = record {
    numerator_currency = pair.numerator_currency;
    denominator_currency = pair.denominator_currency;
    bank_rate = rate;
    noba_rate = none;
    expiration_timestamp = some (time + hours 25);
  }

  -- The end of a round, by whether the rate is refused. A creation runs to its end when it is started.
  unfoldable pub update_checked :
      ExchangeRatePair
      → PositiveRate
      → (refused : Bool) → Action (World X) (Option (Result ExchangeRateDto))
  update_checked pair rate true = pure none
  update_checked pair rate false = do
    time ← now env
    created ← started (create_exchange_rate (provided_dto pair rate time))
    pure (some created)

  -- A round after the provider was asked.
  unfoldable pub update_provided :
      ExchangeRatePair → Option PositiveRate → Action (World X) (Option (Result ExchangeRateDto))
  update_provided pair none = pure none
  update_provided pair (some rate) = do
    existing ←
        Repo.get_exchange_rate_for_currency_pair env pair.numerator_currency
          pair.denominator_currency none
    update_checked pair rate (refuses rate existing)

  -- One round of the loop: `none` adds an error message, `some` the creation of a rate.
  unfoldable pub update_pair : ExchangeRatePair → Action (World X) (Option (Result ExchangeRateDto))
  update_pair pair = do
    client ← from_result (
        get_exchange_rate_client_by_currency_pair pair.numerator_currency pair.denominator_currency)
    provided ←
        try_catch (get_exchange_rate client pair.numerator_currency pair.denominator_currency)
          (λ _. pure none)
    update_provided pair provided

  unfoldable pub update_pairs :
      List ExchangeRatePair → Action (World X) (List (Option (Result ExchangeRateDto)))
  update_pairs [] = pure []
  update_pairs (pair ∷ pairs) = do
    outcome ← update_pair pair
    outcomes ← update_pairs pairs
    pure (outcome ∷ outcomes)

  unfoldable pub create_exchange_rate_from_provider : Action (World X) (List ExchangeRateDto)
  create_exchange_rate_from_provider = do
    outcomes ← update_pairs exchange_rate_pairs
    when (has_error outcomes) (raise_alert (critical exchange_rate_update_failed))
    from_result (all outcomes)

  -- A rate that has expired is given with an alert. Its message reads the rate, which throws where
  -- there is none.
  abbrev give_stale : Option ExchangeRate → Action (World X) (Option ExchangeRateDto)
  give_stale none = throw type_error
  give_stale (some r) = raise_alert (critical stale_fx_rates) >> pure (some (to_dto r))

  unfoldable pub get_exchange_rate_for_currency_pair :
      (numerator denominator : String) → Action (World X) (Option ExchangeRateDto)
  get_exchange_rate_for_currency_pair numerator denominator = do
    date ← now env
    try_catch
        (do
          fresh ← Repo.get_exchange_rate_for_currency_pair env numerator denominator (some date)
          elim fresh [
            | some r ↦ pure (some (to_dto r))
            | none ↦
                Repo.get_exchange_rate_for_currency_pair env numerator denominator none
                >>= give_stale
          ])
        (λ _. pure none)
