-- ===== src/ExchangeRates/Environment.antt =====
-- What the rates of exchange call and this component does not implement: the table, Joi, the clock,
-- JavaScript's upper case, and the provider's HTTP interface.
use noba_server.Common.Base.{ℕ, suc, String, Option, List, ◌∷◌}
use noba_server.Common.Action.{Action, Result, ok}
use noba_server.Common.Alert.{Alert}
use noba_server.Common.Joi.{Joi}
use noba_server.ExchangeRates.Domain.{PositiveRate, ExchangeRate, InputExchangeRate}

-- The state: that of the table and the provider, the alerts, the latest first, and how often the
-- clock was read.
pub record World (X : Type 0) : Type 0 where
  pub outside : X
  pub alerts : List Alert
  pub readings : ℕ

pub record Environment (X : Type 0) : Type 0 where
  pub joi : Joi
  -- `Date.now()` and `new Date()`, by the number of readings before
  pub clock : ℕ → ℕ
  pub to_upper_case : String → String
  -- `prisma.exchangeRate.create`, and `findFirst` for a pair, the latest created first, and where a
  -- time is given only among those that expire then or later
  pub create : InputExchangeRate → X → Result ExchangeRate × X
  pub find_first :
      (numerator denominator : String) (since : Option ℕ) → X → Result (Option ExchangeRate)
  -- `axios.get(".../latest?symbols=…&base=…")`: the rates in the answer, if it has any. A rate that
  -- is not a positive number counts as missing.
  pub get_latest : (symbols base : String) → X → Result (Option (List (String × PositiveRate))) × X

module _ {X : Type 0} where
  abbrev pub raise_alert : Alert → Action (World X) (Unit {0})
  raise_alert a w = (ok tt, record w { alerts = a ∷ w.alerts })

  abbrev pub write : {A : Type 0} → (X → Result A × X) → Action (World X) A
  write f w = let (r, x) = f w.outside in (r, record w { outside = x })

  abbrev pub query : {A : Type 0} → (X → Result A) → Action (World X) A
  query f w = (f w.outside, w)

  abbrev pub now : Environment X → Action (World X) ℕ
  now env w = (ok (env.clock w.readings), record w { readings = suc w.readings })
