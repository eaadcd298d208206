-- ===== src/Employees/Repo.antt =====
-- src/modules/employee/repo/sql.employee.repo.ts, with the validations of domain/Employee.ts. Joi's
-- checks that the types make true are left out.
use noba_server.Common.Base.{
  String, Bool, true, not, ◌&&◌, Option, none, some, List, map, ◌==◌, if◌then◌else◌,
}
use noba_server.Common.Int.{pos, leb_ℤ}
use noba_server.Common.Amount.{Amount, is_truthy}
use noba_server.Transactions.Domain.{Rate}
use noba_server.Common.Joi.{Joi}
use noba_server.Common.Exception.{
  Exception, service, already_exists, not_found_error, database_internal_error_exception,
  invalid_database_record_exception, validation_error, repo_exception, database_internal_error,
}
use noba_server.Common.Action.{Action, pure, throw, throw_if, try_catch, ◌>>=◌, ◌>>◌}
use noba_server.Employees.Domain.{
  Employee, Employer, EmployeeCreateRequest, EmployeeUpdateRequest, given,
}
use noba_server.Employees.Environment.{Environment, World, raise_error, write, query}

-- `Joi.string().optional()`
abbrev optional_string : Joi → Option String → Bool
optional_string joi none = true
optional_string joi (some s) = joi.required_string s

-- `...(n && { key: n })`
abbrev pub keep_truthy : Option Amount → Option Amount
keep_truthy none = none
keep_truthy (some a) = if is_truthy a then some a else none

abbrev keep_truthy_rate : Option Rate → Option Rate
keep_truthy_rate none = none
keep_truthy_rate (some r) = if r.numerator == 0 then none else some r

-- `...(n >= 0 && { key: n })`
abbrev pub keep_not_negative : Option Amount → Option Amount
keep_not_negative none = none
keep_not_negative (some a) = if leb_ℤ (pos 0) a then some a else none

abbrev pub to_create_input : EmployeeCreateRequest → EmployeeCreateRequest
to_create_input r = record r {
  consumer_id = given r.consumer_id;
  salary = keep_truthy r.salary;
  email = given r.email;
}

abbrev pub to_update_input : EmployeeUpdateRequest → EmployeeUpdateRequest
to_update_input r = record r {
  consumer_id = given r.consumer_id;
  allocation_amount = keep_not_negative r.allocation_amount;
  salary = keep_not_negative r.salary;
  email = given r.email;
}

-- `convertToDomainEmployer`: a percentage of 0 is left out.
abbrev convert_to_domain_employer : Option Employer → Option Employer
convert_to_domain_employer none = none
convert_to_domain_employer (some e) =
    some (record e { max_allocation_percent = keep_truthy_rate e.max_allocation_percent })

unfoldable pub convert_to_domain_employee : Employee → Employee
convert_to_domain_employee e = record e {
  salary = keep_truthy e.salary;
  employer = convert_to_domain_employer e.employer;
}

abbrev pub domain_of : Option Employee → Option Employee
domain_of none = none
domain_of (some e) = some (convert_to_domain_employee e)

module _ {D N : Type 0} (env : Environment D N) where
  abbrev validate_create_employee_request : EmployeeCreateRequest → Bool
  validate_create_employee_request r =
      env.joi.required_number r.allocation_amount
      && optional_string env.joi r.consumer_id
      && env.joi.required_string r.employer_id
      && optional_string env.joi r.email
      && env.joi.optional_number r.salary

  abbrev pub validate_update_employee_request : EmployeeUpdateRequest → Bool
  validate_update_employee_request r =
      optional_string env.joi r.consumer_id
      && env.joi.optional_number r.allocation_amount
      && env.joi.optional_number r.salary
      && optional_string env.joi r.email

  abbrev validate_employee : Employee → Bool
  validate_employee e =
      env.joi.required_string e.id
      && env.joi.required_number e.allocation_amount
      && env.joi.required_string e.employer_id
      && optional_string env.joi e.consumer_id
      && env.joi.optional_number e.salary
      && optional_string env.joi e.email

  abbrev create_error : Exception → Exception
  create_error e =
      if env.is_duplicate e then service already_exists else database_internal_error_exception

  unfoldable pub create_employee : EmployeeCreateRequest → Action (World D N) Employee
  create_employee request = do
    throw_if (not (validate_create_employee_request request)) validation_error
    saved ←
        try_catch (write (env.create (to_create_input request)))
          (λ e. raise_error >> throw (create_error e))
    let employee = convert_to_domain_employee saved
    try_catch (throw_if (not (validate_employee employee)) validation_error >> pure employee)
        (λ _. raise_error >> throw invalid_database_record_exception)

  abbrev update_error : Exception → Exception
  update_error e =
      if env.is_missing_record e then not_found_error else database_internal_error_exception

  unfoldable pub update_employee : String → EmployeeUpdateRequest → Action (World D N) Employee
  update_employee id request =
      throw_if (not (validate_update_employee_request request)) validation_error
      >> try_catch
          (write (env.update id (to_update_input request)) >>= λ row.
            pure (convert_to_domain_employee row))
          (λ e. raise_error >> throw (update_error e))

  unfoldable pub get_employee_by_id : String → Action (World D N) (Option Employee)
  get_employee_by_id id =
      try_catch (query (env.find_unique id) >>= λ row. pure (domain_of row))
        (λ _. raise_error >> throw database_internal_error_exception)

  unfoldable pub get_active_employee_by_email : String → Action (World D N) (Option Employee)
  get_active_employee_by_email email =
      try_catch (query (env.find_active_by_email email) >>= λ row. pure (domain_of row))
        (λ _. throw (repo_exception database_internal_error))

  unfoldable pub get_employees_for_employer_with_consumer :
      String → Action (World D N) (List Employee)
  get_employees_for_employer_with_consumer employer_id =
      try_catch
        (query (env.find_of_employer employer_id) >>= λ rows.
          pure (map convert_to_domain_employee rows))
        (λ _. raise_error >> throw (repo_exception database_internal_error))
