-- ===== src/Employees/Runs.antt =====
-- The parts of an update of an employee that returned.
use noba_server.Common.Base.{◌≡◌, String, false, Option-cases, some, none, inl, inr, arith}
use noba_server.Common.Action.{ok}
use noba_server.Common.Inversion.{Result-cases}
use noba_server.Employees.Domain.{
  Employee, Employer, EmployeeUpdateRequest, UpdateEmployeeRequestDto,
}
use noba_server.Employees.Environment.{Environment, World}
use noba_server.Employees.Repo
use noba_server.Employees.Service.{
  update_request, update_found, update_employee, get_employee_by_id, switches_consumer, is_created,
}

module _ {D N : Type 0} (env : Environment D N) where
  pub repo_update-eq-ok :
      (id : String) (request : EmployeeUpdateRequest) (w : World D N) {w' : World D N}
      {e : Employee}
      → Repo.update_employee env id request w ≡ (ok e, w')
      → (row : Employee) × (env.update id (Repo.to_update_input request) w.table
          ≡ (ok row, w'.table))
        × (e ≡ Repo.convert_to_domain_employee row)
  unfolding Repo.update_employee
  repo_update-eq-ok id request w h =
      elim (Result-cases (env.update id (Repo.to_update_input request) w.table).0) [
        | inl (row, p) ↦ (row, ground arith, ground arith)
        | inr (e, p) ↦ absurd (ground arith)
      ]

  pub update_found-eq-ok :
      (id : String) (request : UpdateEmployeeRequestDto) (employee : Employee) (w : World D N)
      {w' : World D N} {e : Employee}
      → update_found env id request employee w ≡ (ok e, w')
      → (employer : Employer) × (employee.employer ≡ some employer)
        × (switches_consumer request.consumer_id employee.consumer_id ≡ false)
        × (is_created request.status ≡ false)
        × (Repo.update_employee env id (update_request request employee employer) w ≡ (ok e, w'))
  unfolding update_found
  update_found-eq-ok id request employee w h = elim (Option-cases employee.employer) [
    | inl p ↦ absurd (ground arith)
    | inr (employer, p) ↦ (employer, p, ground arith, ground arith, ground arith)
  ]

  pub update_employee-eq-ok :
      (id : String) (request : UpdateEmployeeRequestDto) (w : World D N) {w' : World D N}
      {e : Employee}
      → update_employee env id request w ≡ (ok e, w')
      → (before : Employee) × (env.find_unique id w.table ≡ ok (some before))
        × (update_found env id request (Repo.convert_to_domain_employee before) w ≡ (ok e, w'))
  unfolding update_employee get_employee_by_id Repo.get_employee_by_id
  update_employee-eq-ok id request w h = elim (Result-cases (env.find_unique id w.table)) [
    | inl (none, p) ↦ absurd (ground arith)
    | inl (some before, p) ↦ (before, p, ground arith)
    | inr (e, p) ↦ absurd (ground arith)
  ]
