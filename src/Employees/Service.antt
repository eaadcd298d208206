-- ===== src/Employees/Service.antt =====
-- src/modules/employee/employee.service.ts.
use noba_server.Common.Base.{
  ℕ, String, Bool, true, false, not, ◌&&◌, Option, none, some, List, [], ◌∷◌, is_empty, str_eq,
  if◌then◌else◌,
}
use noba_server.Common.Int.{pos, ltb_ℤ}
use noba_server.Common.Amount.{Amount}
use noba_server.Common.Exception.{service, semantic_validation, unknown, type_error}
use noba_server.Common.Action.{Action, Result, ok, pure, throw, throw_if, from_result, ◌>>=◌, ◌>>◌}
use noba_server.Transactions.Domain.{Rate, round_product}
use noba_server.Employees.Domain.{
  Employee, Employer, EmployeeStatus, EmployeeCreateRequest, EmployeeUpdateRequest,
  UpdateEmployeeRequestDto, CreateEmployeeRequestDto, given, share, exceeds,
}
use noba_server.Employees.Environment.{Environment, World, send, now}
use noba_server.Employees.Repo

abbrev pub is_given : Option String → Bool
is_given s = elim (given s) [ none ↦ false | some _ ↦ true ]

abbrev pub or_else {ℓ} : {A : Type ℓ} → Option A → A → A
or_else none a = a
or_else (some b) a = b

-- A number that is not missing and not negative, or else another one.
abbrev pub not_negative_or : Option Amount → Option Amount → Option Amount
not_negative_or none old = old
not_negative_or (some a) old = if ltb_ℤ a (pos 0) then old else some a

abbrev pub hundred_percent : Rate
hundred_percent = record { numerator = 100; predecessor = 0 }

-- With a salary the amount is at most the employer's share of it. Without one the comparison with
-- NaN is false.
unfoldable pub cap : Amount → Option Amount → Rate → Amount
cap amount none percent = amount
cap amount (some salary) percent =
    if exceeds amount salary percent then round_product salary (share percent) else amount

-- `updateRequest.consumerID && employee.consumerID && updateRequest.consumerID !== …`
abbrev pub switches_consumer : (new old : Option String) → Bool
switches_consumer new old = elim (given new) [
  | none ↦ false
  | some n ↦ elim (given old) [ none ↦ false | some o ↦ not (str_eq n o) ]
]

-- The status of an update: that of a link where a consumer is new and no status is told.
unfoldable pub status_of : UpdateEmployeeRequestDto → Employee → Option EmployeeStatus
status_of request employee = elim request.status [
  | some status ↦ some status
  | none ↦
      if is_given request.consumer_id && not (is_given employee.consumer_id)
      then some EmployeeStatus.linked
      else none
]

abbrev pub is_created : Option EmployeeStatus → Bool
is_created (some EmployeeStatus.created) = true
is_created _ = false

-- What the table is told of an employee of this employer.
unfoldable pub update_request :
    UpdateEmployeeRequestDto → Employee → Employer → EmployeeUpdateRequest
update_request request employee employer =
    let salary = not_negative_or request.salary employee.salary in
    let amount =
      or_else (not_negative_or request.allocation_amount none) employee.allocation_amount in
    record {
      consumer_id = given request.consumer_id;
      allocation_amount =
          Repo.keep_not_negative
            (some (cap amount salary (or_else employer.max_allocation_percent hundred_percent)));
      salary = Repo.keep_not_negative salary;
      email = given request.email;
      status = status_of request employee;
      last_invite_sent_timestamp = request.last_invite_sent_timestamp;
    }

abbrev pub new_request : CreateEmployeeRequestDto → EmployeeCreateRequest
new_request request = record {
  allocation_amount = request.allocation_amount;
  employer_id = request.employer_id;
  consumer_id = given request.consumer_id;
  status = if is_given request.consumer_id then EmployeeStatus.linked else EmployeeStatus.created;
  email = given request.email;
  salary = Repo.keep_truthy request.salary;
}

abbrev pub invitation : String → Employer → Option Amount → CreateEmployeeRequestDto
invitation email employer salary = record {
  allocation_amount = pos 0;
  email = some email;
  employer_id = employer.id;
  salary = Repo.keep_truthy salary;
  consumer_id = none;
}

abbrev pub invited_at : ℕ → UpdateEmployeeRequestDto
invited_at time = record {
  status = some EmployeeStatus.invited;
  last_invite_sent_timestamp = some time;
  consumer_id = none;
  allocation_amount = none;
  salary = none;
  email = none;
}

-- Reading a field of what is missing throws.
abbrev pub read : {S A : Type 0} → Option A → Action S A
read none = throw type_error
read (some a) = pure a

module _ {D N : Type 0} (env : Environment D N) where
  unfoldable pub create_new : CreateEmployeeRequestDto → Action (World D N) Employee
  create_new request = Repo.create_employee env (new_request request)

  -- An employee with that email, of any employer, is given back.
  unfoldable pub create_employee : CreateEmployeeRequestDto → Action (World D N) Employee
  create_employee request = elim (given request.email) [
    | none ↦ create_new request
    | some email ↦ Repo.get_active_employee_by_email env email >>= λ active. elim active [
      | some employee ↦ pure employee
      | none ↦ create_new request
    ]
  ]

  unfoldable pub get_employee_by_id : String → Action (World D N) (Option Employee)
  get_employee_by_id id =
      throw_if (is_empty id) (service semantic_validation) >> Repo.get_employee_by_id env id

  unfoldable pub update_found :
      String → UpdateEmployeeRequestDto → Employee → Action (World D N) Employee
  update_found id request employee = do
    throw_if (switches_consumer request.consumer_id employee.consumer_id)
        (service semantic_validation)
    employer ← read employee.employer
    throw_if (is_created request.status) (service semantic_validation)
    Repo.update_employee env id (update_request request employee employer)

  unfoldable pub update_employee : String → UpdateEmployeeRequestDto → Action (World D N) Employee
  update_employee id request = do
    throw_if (is_empty id) (service unknown)
    found ← get_employee_by_id id
    employee ← read found
    update_found id request employee

  unfoldable pub link_employee : (employee consumer : String) → Action (World D N) Employee
  link_employee id consumer = update_employee id (record {
    consumer_id = some consumer;
    status = some EmployeeStatus.linked;
    allocation_amount = none;
    salary = none;
    email = none;
    last_invite_sent_timestamp = none;
  })

  abbrev pub is_uninvited : EmployeeStatus → Bool
  is_uninvited EmployeeStatus.created = true
  is_uninvited _ = false

  unfoldable pub invite_created :
      String → Employer → (send_email : Bool) → Employee → Action (World D N) Employee
  invite_created email employer send_email employee =
      if send_email && is_uninvited employee.status
      then (send (
            env.send_invite (record {
              email = email;
              company_name = employer.name;
              referral_id = employer.referral_id;
              employee_id = employee.id;
              locale = employer.locale;
            }))
          >> (now env >>= λ time. update_employee employee.id (invited_at time)))
      else pure employee

  unfoldable pub invite_employee :
      (email : String)
      → Employer
      → (send_email : Bool) → (salary : Option Amount) → Action (World D N) Employee
  invite_employee email employer send_email salary =
      create_employee (invitation email employer salary)
      >>= invite_created email employer send_email

  -- A promise: what it throws is thrown where it is awaited.
  abbrev started : {A : Type 0} → Action (World D N) A → Action (World D N) (Result A)
  started m w = let (r, u) = m w in (ok r, u)

  -- The loop starts the updates, and `Promise.all` awaits them.
  unfoldable pub update_exceeding : Rate → List Employee → Action (World D N) (List Employee)
  update_exceeding percent [] = pure []
  update_exceeding percent (e ∷ employees) =
      if exceeds e.allocation_amount (or_else e.salary (pos 0)) percent
      then (do
        updated ← started (
            Repo.update_employee env e.id (record {
              allocation_amount = some (round_product (or_else e.salary (pos 0)) (share percent));
              consumer_id = none;
              salary = none;
              email = none;
              status = none;
              last_invite_sent_timestamp = none;
            }))
        others ← started (update_exceeding percent employees)
        first ← from_result updated
        rest ← from_result others
        pure (first ∷ rest))
      else update_exceeding percent employees

  unfoldable pub update_allocation_amounts_for_new_max_allocation_percent :
      String → Rate → Action (World D N) (List Employee)
  update_allocation_amounts_for_new_max_allocation_percent employer_id percent = do
    throw_if (is_empty employer_id) (service semantic_validation)
    employees ← Repo.get_employees_for_employer_with_consumer env employer_id
    update_exceeding percent employees
