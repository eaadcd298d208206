-- ===== src/ExchangeRates/Creation.antt =====
-- `createExchangeRate` of src/modules/exchangerate/exchangerate.service.ts: the defaults of a rate.
use noba_server.Common.Base.{◌≡◌, ℕ, ◌+◌, Option, none, some, inl, inr, arith}
use noba_server.Common.Action.{ok, ◌>>=◌}
use noba_server.Common.Inversion.{Result-cases}
use noba_server.ExchangeRates.Domain.{
  ExchangeRate, InputExchangeRate, ExchangeRateDto, GivenExchangeRateDto,
}
use noba_server.ExchangeRates.Environment.{Environment, World, now}
use noba_server.ExchangeRates.Repo
use noba_server.ExchangeRates.Service.{
  create_exchange_rate, default_rate, hours, input_of, expiration, save_exchange_rate,
}

module _ {X : Type 0} (env : Environment X) where
  -- The table gives back what it was given.
  abbrev pub TableLaw : Type 0
  TableLaw =
      (r : InputExchangeRate) (x x' : X) (row : ExchangeRate)
      → env.create r x ≡ (ok row, x')
      → (row.numerator_currency ≡ r.numerator_currency)
        × (row.denominator_currency ≡ r.denominator_currency)
        × (row.bank_rate ≡ r.bank_rate)
        × (row.noba_rate ≡ r.noba_rate)
        × (row.expiration_timestamp ≡ r.expiration_timestamp)

  -- The expiration of a rate that is created at a time of the clock.
  abbrev pub expires : ℕ → Option ℕ → ℕ
  expires time none = time + hours 36
  expires time (some given) = given

  abbrev pub IsCreated : GivenExchangeRateDto → ℕ → ExchangeRateDto → Type 0
  IsCreated dto expiration dto' =
      (dto'.numerator_currency ≡ env.to_upper_case dto.numerator_currency)
      × (dto'.denominator_currency ≡ env.to_upper_case dto.denominator_currency)
      × (dto'.bank_rate ≡ dto.bank_rate)
      × (dto'.noba_rate ≡ default_rate dto.noba_rate dto.bank_rate)
      × (dto'.expiration_timestamp ≡ expiration)

  store_lem :
      TableLaw
      → (r : InputExchangeRate) (w : World X) {w' : World X} {row : ExchangeRate}
      → Repo.create_exchange_rate env r w ≡ (ok row, w')
      → (row.numerator_currency ≡ env.to_upper_case r.numerator_currency)
        × (row.denominator_currency ≡ env.to_upper_case r.denominator_currency)
        × (row.bank_rate ≡ r.bank_rate)
        × (row.noba_rate ≡ r.noba_rate)
        × (row.expiration_timestamp ≡ r.expiration_timestamp)
  unfolding Repo.create_exchange_rate
  store_lem law r w {w'} {row} h =
      let input = Repo.to_create_input env r in
      ground (arith, law input w.outside (env.create input w.outside).1 row)

  save_lem :
      TableLaw
      → (dto : GivenExchangeRateDto) (time : ℕ) (w : World X) {w' : World X}
        {dto' : ExchangeRateDto}
      → save_exchange_rate env (input_of env dto time) w ≡ (ok dto', w')
      → IsCreated dto time dto'
  unfolding save_exchange_rate
  save_lem law dto time w {w'} {dto'} h =
      let input = input_of env dto time in
      elim (Result-cases (Repo.create_exchange_rate env input w).0) [
        | inr (e, p) ↦ absurd (ground arith)
        | inl (row, p) ↦ ground (
          arith,
          store_lem law input w {w' = (Repo.create_exchange_rate env input w).1} {row = row},
        )
      ]

  create_lem :
      TableLaw
      → (dto : GivenExchangeRateDto) (given : Option ℕ) (w : World X) {w' : World X}
        {dto' : ExchangeRateDto}
      → (expiration env given >>= λ time. save_exchange_rate env (input_of env dto time)) w
        ≡ (ok dto', w')
      → IsCreated dto (expires (env.clock w.readings) given) dto'
  create_lem law dto none w h = save_lem law dto (env.clock w.readings + hours 36) (now env w).1 h
  create_lem law dto (some time) w h = save_lem law dto time w h

  -- Where the table gives back what it was given, a rate that is created is for the upper-case
  -- currencies that were given, has the bank's rate for Noba's rate where none is given, and expires
  -- when it is told, or else 36 hours from now.
  pub create_exchange_rate-IsCreated :
      TableLaw
      → (dto : GivenExchangeRateDto) (w : World X) {w' : World X} {dto' : ExchangeRateDto}
      → create_exchange_rate env dto w ≡ (ok dto', w')
      → IsCreated dto (expires (env.clock w.readings) dto.expiration_timestamp) dto'
  unfolding create_exchange_rate
  create_exchange_rate-IsCreated law dto w h = create_lem law dto dto.expiration_timestamp w h
