-- ===== src/ExchangeRates/Lookup.antt =====
-- `getExchangeRateForCurrencyPair` of src/modules/exchangerate/exchangerate.service.ts: which rate it
-- gives, and what it reports.
use noba_server.Common.Base.{
  ◌≡◌, ℕ, ◌≤◌, String, Option, none, some, List, ◌∷◌, ◌++◌, [], ◌⊎◌, inl, inr, arith,
}
use noba_server.Common.Action.{Result, ok, err}
use noba_server.Common.Alert.{Alert, error, critical, stale_fx_rates}
use noba_server.Common.Inversion.{Result-cases}
use noba_server.ExchangeRates.Domain.{ExchangeRate, ExchangeRateDto}
use noba_server.ExchangeRates.Environment.{Environment, World}
use noba_server.ExchangeRates.Repo
use noba_server.ExchangeRates.Service.{get_exchange_rate_for_currency_pair, to_dto}

-- A failed query counts as no row, and is reported.
abbrev pub row_of : Result (Option ExchangeRate) → Option ExchangeRate
row_of (ok row) = row
row_of (err e) = none

abbrev pub report_of : Result (Option ExchangeRate) → List Alert
report_of (ok row) = []
report_of (err e) = error ∷ []

-- The rate that is given, of the rows that are fresh and of all: a fresh one, or else the latest.
abbrev pub chosen : (fresh latest : Option ExchangeRate) → Option ExchangeRateDto
chosen (some r) latest = some (to_dto r)
chosen none (some r) = some (to_dto r)
chosen none none = none

-- The latest row is looked up, and given with an alert, only where there is no fresh one.
abbrev pub reports : (fresh latest : Result (Option ExchangeRate)) → List Alert
reports (ok (some r)) latest = []
reports fresh (ok (some r)) = critical stale_fx_rates ∷ report_of fresh
reports fresh latest = report_of latest ++ report_of fresh

module _ {X : Type 0} (env : Environment X) (numerator denominator : String) where
  abbrev pub rows : Option ℕ → World X → Result (Option ExchangeRate)
  rows since w =
      env.find_first (env.to_upper_case numerator) (env.to_upper_case denominator) since w.outside

  -- For every pair of currencies a fresh rate is given without a report, else the latest rate of all
  -- with the alert STALE_FX_RATES, else null without that alert. A failed query counts as no row
  -- and adds an error. Nothing is thrown, and the table is left as it was.
  pub get_exchange_rate-eq-chosen :
      (w : World X)
      → let fresh = rows (some (env.clock w.readings)) w in
        let latest = rows none w in
        let run = get_exchange_rate_for_currency_pair env numerator denominator w in
        (run.0 ≡ ok (chosen (row_of fresh) (row_of latest)))
        × (run.1.outside ≡ w.outside)
        × (run.1.alerts ≡ reports fresh latest ++ w.alerts)
  unfolding get_exchange_rate_for_currency_pair Repo.get_exchange_rate_for_currency_pair
  get_exchange_rate-eq-chosen w = elim (Result-cases (rows (some (env.clock w.readings)) w)) [
    | inl (some r, p) ↦ (ground arith, ground arith, ground arith)
    | inl (none, p) ↦ elim (Result-cases (rows none w)) [
      | inl (some r, q) ↦ (ground arith, ground arith, ground arith)
      | inl (none, q) ↦ (ground arith, ground arith, ground arith)
      | inr (e, q) ↦ (ground arith, ground arith, ground arith)
    ]
    | inr (e, p) ↦ elim (Result-cases (rows none w)) [
      | inl (some r, q) ↦ (ground arith, ground arith, ground arith)
      | inl (none, q) ↦ (ground arith, ground arith, ground arith)
      | inr (e', q) ↦ (ground arith, ground arith, ground arith)
    ]
  ]

  -- Where the table gives only rows that expire at the time asked for or later, a rate that is given
  -- has not expired at the time of the call, or the alert STALE_FX_RATES is the last that was raised.
  pub get_exchange_rate-fresh :
      ((n d : String) (time : ℕ) (x : X) (r : ExchangeRate)
        → env.find_first n d (some time) x ≡ ok (some r)
        → time ≤ r.expiration_timestamp)
      → (w : World X) {w' : World X} {dto : ExchangeRateDto}
      → get_exchange_rate_for_currency_pair env numerator denominator w ≡ (ok (some dto), w')
      → (env.clock w.readings ≤ dto.expiration_timestamp)
        ⊎ ((before : List Alert) × (w'.alerts ≡ critical stale_fx_rates ∷ before))
  unfolding get_exchange_rate_for_currency_pair Repo.get_exchange_rate_for_currency_pair
  get_exchange_rate-fresh filtered w {w'} {dto} h =
      let time = env.clock w.readings in
      let n = env.to_upper_case numerator in
      let d = env.to_upper_case denominator in
      elim (Result-cases (rows (some time) w)) [
        | inl (some r, p) ↦ inl (ground (arith, filtered n d time w.outside r p))
        | inl (none, p) ↦ inr (w.alerts, ground arith)
        | inr (e, p) ↦ inr (error ∷ w.alerts, ground arith)
      ]
