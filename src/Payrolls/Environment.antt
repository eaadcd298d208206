-- ===== src/Payrolls/Environment.antt =====
-- What the payrolls call and do not implement: their table, with the repository's conversions, the
-- disbursements, the employers, the rates of exchange, the workflows, and the clock. The alerts that
-- the repository raises are left out.
use noba_server.Common.Base.{String, Option, List, ◌∷◌, ℕ, suc}
use noba_server.Common.Amount.{Amount}
use noba_server.Common.Action.{Action, Result, ok}
use noba_server.Common.Alert.{Alert}
use noba_server.Transactions.Domain.{Rate}
use noba_server.Payrolls.Domain.{Payroll, PayrollUpdateRequest}

-- The state: the table of payrolls, the workflows that were started, the alerts, the latest first,
-- and how often the clock was read.
pub record World (P F : Type 0) : Type 0 where
  pub table : P
  pub workflows : F
  pub alerts : List Alert
  pub readings : ℕ

pub record Environment (P F : Type 0) : Type 0 where
  pub clock : ℕ → ℕ
  -- PayrollRepo's `updatePayroll`, and `getPayrollByID`, null where there is none
  pub update : String → PayrollUpdateRequest → P → Result Payroll × P
  pub get_payroll : String → P → Option Payroll
  -- the amounts allocated by the disbursements of a payroll
  pub allocations : String → Result (List Amount)
  -- `getExchangeRateForCurrencyPair(COP, USD)`: Noba's rate, if there is any
  pub exchange_rate : Result (Option Rate)
  -- the name of an employer, if there is one
  pub employer_name : String → Result (Option String)
  -- the start of the processing of a payroll, by its id and date, under an id that is fresh
  pub execute_payroll_processing_workflow : (id date : String) → F → Result (Unit {0}) × F

module _ {P F : Type 0} where
  abbrev pub raise_alert : Alert → Action (World P F) (Unit {0})
  raise_alert a w = (ok tt, record w { alerts = a ∷ w.alerts })

  abbrev pub write : {A : Type 0} → (P → Result A × P) → Action (World P F) A
  write f w = let (r, p) = f w.table in (r, record w { table = p })

  abbrev pub start : {A : Type 0} → (F → Result A × F) → Action (World P F) A
  start f w = let (r, s) = f w.workflows in (r, record w { workflows = s })

  abbrev pub query : {A : Type 0} → (P → A) → Action (World P F) A
  query f w = (ok (f w.table), w)

  abbrev pub now : Environment P F → Action (World P F) ℕ
  now env w = (ok (env.clock w.readings), record w { readings = suc w.readings })
