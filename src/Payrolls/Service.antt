-- ===== src/Payrolls/Service.antt =====
-- The payrolls of src/modules/employer/employer.service.ts: getPayrollByID, updatePayroll and
-- retryPayroll. The pair of rates that is asked for is part of the environment.
use noba_server.Common.Base.{
  String, Bool, true, false, ◌||◌, Option, none, some, List, [], ◌∷◌, is_empty, if◌then◌else◌,
}
use noba_server.Common.Int.{pos, ◌+ℤ◌}
use noba_server.Common.Amount.{Amount}
use noba_server.Common.Alert.{critical, payroll_expired}
use noba_server.Common.Exception.{
  service, semantic_validation, does_not_exist, unable_to_process, type_error,
}
use noba_server.Common.Action.{Action, pure, throw, throw_if, from_result, ◌>>=◌, ◌>>◌}
use noba_server.Payrolls.Domain.{
  Payroll, PayrollStatus, PayrollUpdateRequest, UpdatePayrollRequestDto, same_status,
  is_status_transition_allowed,
}
use noba_server.Payrolls.Environment.{Environment, World, raise_alert, write, start, query, now}

-- `...(s && { key: s })`
abbrev keep_string : Option String → Option String
keep_string none = none
keep_string (some s) = elim (is_empty s) [ true ↦ none | false ↦ some s ]

abbrev pub total : List Amount → Amount
total [] = pos 0
total (a ∷ amounts) = a +ℤ total amounts

abbrev pub status_request : PayrollStatus → UpdatePayrollRequestDto → PayrollUpdateRequest
status_request status request = record {
  status = status;
  payment_mono_transaction_id = keep_string request.payment_mono_transaction_id;
  completed_timestamp = none;
  total_debit_amount = none;
  total_credit_amount = none;
  exchange_rate = none;
  debit_currency = none;
  credit_currency = none;
}

abbrev pub can_be_retried : PayrollStatus → Bool
can_be_retried status =
    same_status status PayrollStatus.created
    || same_status status PayrollStatus.funded
    || same_status status PayrollStatus.invoiced
    || same_status status PayrollStatus.receipt

-- What is not null, or what reading a field of it throws.
abbrev read : {S A : Type 0} → Option A → Action S A
read none = throw type_error
read (some a) = pure a

module _ {P F : Type 0} (env : Environment P F) where
  unfoldable pub get_payroll_by_id : String → Action (World P F) (Option Payroll)
  get_payroll_by_id id =
      throw_if (is_empty id) (service semantic_validation) >> query (env.get_payroll id)

  -- The totals of a payroll that is prepared.
  unfoldable pub prepare : String → PayrollUpdateRequest → Action (World P F) PayrollUpdateRequest
  prepare id update = do
    amounts ← from_result (env.allocations id)
    found ← from_result env.exchange_rate
    rate ← read found
    pure (record update {
      total_debit_amount = some (total amounts);
      exchange_rate = some rate;
      total_credit_amount = some (record { amount = total amounts; rate = rate });
      debit_currency = some "COP";
      credit_currency = some "USD";
    })

  -- What is done for a status that is new.
  unfoldable pub enter :
      Payroll
      → String
      → PayrollStatus
      → PayrollUpdateRequest
      → Action (World P F) PayrollUpdateRequest
  enter payroll id PayrollStatus.completed update = do
    time ← now env
    pure (record update { completed_timestamp = some time })
  enter payroll id PayrollStatus.prepared update = prepare id update
  enter payroll id PayrollStatus.expired update = do
    found ← from_result (env.employer_name payroll.employer_id)
    _ ← read found
    raise_alert (critical payroll_expired)
    pure update
  enter payroll id _ update = pure update

  -- What the update of the table is asked for.
  unfoldable pub next_request :
      Payroll
      → String
      → PayrollStatus
      → UpdatePayrollRequestDto
      → Action (World P F) PayrollUpdateRequest
  next_request payroll id status request =
      if same_status status payroll.status
      then pure (status_request status request)
      else enter payroll id status (status_request status request)

  unfoldable pub update_allowed :
      Payroll → String → PayrollStatus → UpdatePayrollRequestDto → Action (World P F) Payroll
  update_allowed payroll id status request = do
    update ← next_request payroll id status request
    write (env.update id update)

  -- A status that is missing is none that the switch knows.
  unfoldable pub update_found :
      Payroll → String → UpdatePayrollRequestDto → Option PayrollStatus → Action (World P F) Payroll
  update_found payroll id request none = throw (service semantic_validation)
  update_found payroll id request (some status) =
      if is_status_transition_allowed payroll.status status
      then update_allowed payroll id status request
      else pure payroll

  unfoldable pub update_payroll : String → UpdatePayrollRequestDto → Action (World P F) Payroll
  update_payroll id request = do
    throw_if (is_empty id) (service semantic_validation)
    found ← get_payroll_by_id id
    payroll ← read found
    update_found payroll id request request.status

  unfoldable pub retry_payroll : String → Action (World P F) Payroll
  retry_payroll id = do
    throw_if (is_empty id) (service semantic_validation)
    found ← get_payroll_by_id id
    elim found [
      | none ↦ throw (service does_not_exist)
      | some payroll ↦ elim (can_be_retried payroll.status) [
        | true ↦
            start (env.execute_payroll_processing_workflow payroll.id payroll.payroll_date)
            >> pure payroll
        | false ↦ throw (service unable_to_process)
      ]
    ]
