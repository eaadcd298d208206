-- ===== src/Payrolls/Domain.antt =====
-- src/modules/employer/domain/Payroll.ts: a payroll, and which changes of its status are allowed.
use noba_server.Common.Base.{String, Bool, true, false, not, ◌||◌, ◌&&◌, Option, ℕ, if◌then◌else◌}
use noba_server.Common.Amount.{Amount}
use noba_server.Transactions.Domain.{Rate}

pub data PayrollStatus : Type 0 where
  created invoiced prepared investigation funded in_progress receipt completed expired :
      PayrollStatus

-- `===` on statuses
abbrev pub same_status : PayrollStatus → PayrollStatus → Bool
same_status PayrollStatus.created PayrollStatus.created = true
same_status PayrollStatus.invoiced PayrollStatus.invoiced = true
same_status PayrollStatus.prepared PayrollStatus.prepared = true
same_status PayrollStatus.investigation PayrollStatus.investigation = true
same_status PayrollStatus.funded PayrollStatus.funded = true
same_status PayrollStatus.in_progress PayrollStatus.in_progress = true
same_status PayrollStatus.receipt PayrollStatus.receipt = true
same_status PayrollStatus.completed PayrollStatus.completed = true
same_status PayrollStatus.expired PayrollStatus.expired = true
same_status _ _ = false

-- What the switch says of a status that is new.
abbrev allows : (old new : PayrollStatus) → Bool
allows old PayrollStatus.created = false
allows old PayrollStatus.prepared = same_status old PayrollStatus.created
allows old PayrollStatus.invoiced = same_status old PayrollStatus.prepared
allows old PayrollStatus.investigation =
    same_status old PayrollStatus.invoiced || same_status old PayrollStatus.funded
allows old PayrollStatus.funded =
    not (same_status old PayrollStatus.in_progress)
    && not (same_status old PayrollStatus.receipt)
    && not (same_status old PayrollStatus.completed)
allows old PayrollStatus.in_progress = same_status old PayrollStatus.funded
allows old PayrollStatus.receipt = same_status old PayrollStatus.in_progress
allows old PayrollStatus.completed = same_status old PayrollStatus.receipt
allows old PayrollStatus.expired =
    same_status old PayrollStatus.created
    || same_status old PayrollStatus.invoiced
    || same_status old PayrollStatus.investigation

unfoldable pub is_status_transition_allowed : (old new : PayrollStatus) → Bool
is_status_transition_allowed old new = if same_status old new then true else allows old new

-- A product of an amount and a rate, unrounded: its factors.
pub record Product : Type 0 where
  pub amount : Amount
  pub rate : Rate

pub record Payroll : Type 0 where
  pub id : String
  pub employer_id : String
  pub payroll_date : String
  pub completed_timestamp : Option ℕ
  pub total_debit_amount : Option Amount
  pub total_credit_amount : Option Product
  pub exchange_rate : Option Rate
  pub debit_currency : Option String
  pub credit_currency : Option String
  pub payment_mono_transaction_id : Option String
  pub status : PayrollStatus

pub record PayrollUpdateRequest : Type 0 where
  pub completed_timestamp : Option ℕ
  pub status : PayrollStatus
  pub total_debit_amount : Option Amount
  pub total_credit_amount : Option Product
  pub exchange_rate : Option Rate
  pub debit_currency : Option String
  pub credit_currency : Option String
  pub payment_mono_transaction_id : Option String

-- What a client asks for.
pub record UpdatePayrollRequestDto : Type 0 where
  pub status : Option PayrollStatus
  pub payment_mono_transaction_id : Option String
