-- ===== src/Payrolls/Tests.antt =====
-- Tests and examples of the life of a payroll, on a table of one payroll.
use noba_server.Common.Base.{◌≡◌, ◌≢◌, refl, ℕ, suc, some, none, List, [], ◌∷◌, ◌++◌, arith}
use noba_server.Common.Amount.{cents}
use noba_server.Common.Action.{ok}
use noba_server.Transactions.Domain.{one}
use noba_server.Payrolls.Domain.{
  Payroll, PayrollStatus, UpdatePayrollRequestDto, is_status_transition_allowed,
}
use noba_server.Payrolls.Environment.{Environment, World}
use noba_server.Payrolls.Service.{
  get_payroll_by_id, prepare, enter, next_request, update_allowed, update_found, update_payroll,
}
use noba_server.Payrolls.Steps.{TableLaws, HasStatus}
use noba_server.Payrolls.Prepared.{IsPrepared, update_payroll-IsPrepared}
use noba_server.Payrolls.History.{update_all, update_all-completed, update_all-funded}

open_all : Unit {0}
unfolding is_status_transition_allowed get_payroll_by_id prepare enter next_request update_allowed
    update_found update_payroll
open_all = tt

abbrev payroll : PayrollStatus → Payroll
payroll status = record {
  id = "payroll-1";
  employer_id = "employer-1";
  payroll_date = "2023-06-01";
  completed_timestamp = none;
  total_debit_amount = none;
  total_credit_amount = none;
  exchange_rate = none;
  debit_currency = none;
  credit_currency = none;
  payment_mono_transaction_id = none;
  status = status;
}

abbrev environment : Environment Payroll ℕ
environment = record {
  clock = λ n. n;
  update = λ id u p. (ok (payroll u.status), payroll u.status);
  get_payroll = λ id p. some p;
  allocations = λ id. ok (cents 100 ∷ cents 200 ∷ []);
  exchange_rate = ok (some one);
  employer_name = λ id. ok (some "employer");
  execute_payroll_processing_workflow = λ id date n. (ok tt, suc n);
}

table_laws : TableLaws environment "payroll-1"
table_laws = record {
  saved = λ u p p' payroll h. (ground arith, ground arith);
  refused = λ u p p' e h. absurd (ground arith);
}

abbrev at : PayrollStatus → World Payroll ℕ
at status = record { table = payroll status; workflows = 0; alerts = []; readings = 0 }

abbrev to : PayrollStatus → UpdatePayrollRequestDto
to status = record { status = some status; payment_mono_transaction_id = none }

-- A payroll that is paid before it was invoiced.
abbrev requests : List UpdatePayrollRequestDto
requests = to PayrollStatus.prepared ∷ to PayrollStatus.funded ∷ to PayrollStatus.in_progress ∷ []

has : (status : PayrollStatus) → HasStatus environment "payroll-1" status (at status)
has status = (payroll status, refl, refl)

is_in_progress :
    HasStatus environment "payroll-1" PayrollStatus.in_progress
      (update_all environment "payroll-1" requests (at PayrollStatus.created))
unfolding open_all
is_in_progress = (payroll PayrollStatus.in_progress, refl, refl)

-- An expired payroll can be funded.
funds_expired :
    (update_payroll environment "payroll-1" (to PayrollStatus.funded) (at PayrollStatus.expired)).0
    ≡ ok (payroll PayrollStatus.funded)
unfolding open_all
funds_expired = refl

update_all-completed_example :
    HasStatus environment "payroll-1" PayrollStatus.completed
      (update_all environment "payroll-1" requests (at PayrollStatus.completed))
update_all-completed_example =
    update_all-completed environment "payroll-1" table_laws requests (at PayrollStatus.completed)
      (has PayrollStatus.completed)

one_is_late : ◌≢◌ {A = ℕ} 1 0
one_is_late e = absurd (ground arith)

update_all-funded_example :
    (before after : List UpdatePayrollRequestDto) × (requests ≡ before ++ after)
    × HasStatus environment "payroll-1" PayrollStatus.funded
        (update_all environment "payroll-1" before (at PayrollStatus.created))
update_all-funded_example =
    update_all-funded environment "payroll-1" table_laws requests (at PayrollStatus.created)
      PayrollStatus.in_progress (has PayrollStatus.created) is_in_progress one_is_late

prepares :
    update_payroll environment "payroll-1" (to PayrollStatus.prepared) (at PayrollStatus.created)
    ≡ (ok (payroll PayrollStatus.prepared), at PayrollStatus.prepared)
unfolding open_all
prepares = refl

update_payroll-IsPrepared_example :
    IsPrepared environment "payroll-1"
      (payroll PayrollStatus.prepared)
      (at PayrollStatus.created)
      (at PayrollStatus.prepared)
update_payroll-IsPrepared_example =
    update_payroll-IsPrepared environment "payroll-1" (to PayrollStatus.prepared)
      (payroll PayrollStatus.created) (at PayrollStatus.created) refl refl refl prepares
