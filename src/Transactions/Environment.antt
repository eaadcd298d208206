-- ===== src/Transactions/Environment.antt =====
-- What the transactions call and this component does not implement: the database, Joi, the
-- generator of UUIDs, the services of payrolls, and the processors of wallet transactions.
use noba_server.Common.Base.{String, Bool, Option, List, ◌∷◌, ℕ, suc}
use noba_server.Common.Action.{Action, Result, ok}
use noba_server.Common.Alert.{Alert}
use noba_server.Common.Joi.{Joi}
use noba_server.Common.Exception.{Exception}
use noba_server.Transactions.Domain.{
  Transaction, InputTransaction, TransactionCreateInput, UpdateTransaction, Payroll,
  PayrollDisbursement, Employer, Employee,
}
use noba_server.Transactions.Requests.{InitiateTransactionRequest}

-- The state: the database, the alerts, the latest first, and how many UUIDs were drawn.
pub record World (D : Type 0) : Type 0 where
  pub database : D
  pub alerts : List Alert
  pub drawn : ℕ

-- TransactionProcessor, on a request that it was given.
pub record TransactionProcessor (D : Type 0) : Type 0 where
  pub validate : Action (World D) (Unit {0})
  pub convert_to_repo_input_transaction : Action (World D) InputTransaction
  pub perform_post_processing : Transaction → Action (World D) (Unit {0})

pub record Environment (D : Type 0) : Type 0 where
  pub joi : Joi
  -- `generateLowercaseUUID(true)`, by the number of UUIDs that were drawn before
  pub uuid : ℕ → String
  -- `prisma.transaction`: `create`, `findUnique` by id and by reference, and `update`
  pub create : TransactionCreateInput → D → Result Transaction × D
  pub find_by_id : String → D → Result (Option Transaction)
  pub find_by_ref : String → D → Result (Option Transaction)
  pub update : String → UpdateTransaction → D → Result Transaction × D
  -- whether an error says "Record to update not found."
  pub is_missing_record : Exception → Bool
  -- EmployerService and EmployeeService
  pub get_disbursement : String → D → Result (Option PayrollDisbursement)
  pub get_payroll_by_id : String → D → Result (Option Payroll)
  pub get_employer_by_id : String → D → Result (Option Employer)
  pub get_employee_by_id : String → D → Result (Option Employee)
  -- WalletDepositProcessor, WalletWithdrawalProcessor and WalletTransferProcessor
  pub wallet_processor : InitiateTransactionRequest → TransactionProcessor D

module _ {D : Type 0} where
  abbrev pub raise_alert : Alert → Action (World D) (Unit {0})
  raise_alert a w = (ok tt, record w { alerts = a ∷ w.alerts })

  abbrev pub write : {A : Type 0} → (D → Result A × D) → Action (World D) A
  write f w = let (r, d) = f w.database in (r, record w { database = d })

  abbrev pub query : {A : Type 0} → (D → Result A) → Action (World D) A
  query f w = (f w.database, w)

  -- `Utils.generateLowercaseUUID(true)`
  abbrev pub generate_uuid : Environment D → Action (World D) String
  generate_uuid env w = (ok (env.uuid w.drawn), record w { drawn = suc w.drawn })
