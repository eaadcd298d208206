-- ===== src/Employees/Links.antt =====
-- That an employee who is linked to a consumer stays linked to that consumer.
use noba_server.Common.Base.{
  ◌≡◌, refl, ap, sym, ◌∙◌, String, Bool-cases, true, false, Option, Option-cases, some, none, inl,
  inr, is_empty, str_eq, str_eq_iff, arith,
}
use noba_server.Common.Exception.{Exception}
use noba_server.Common.Action.{ok, err}
use noba_server.Common.Inversion.{Result-cases}
use noba_server.Employees.Domain.{Employee, EmployeeUpdateRequest, UpdateEmployeeRequestDto, given}
use noba_server.Employees.Environment.{Environment, World}
use noba_server.Employees.Repo
use noba_server.Employees.Service.{
  update_request, update_found, update_employee, get_employee_by_id, switches_consumer, is_created,
}

abbrev pub updated_consumer : Option String → Option String → Option String
updated_consumer none old = old
updated_consumer (some new) old = some new

module _ {D N : Type 0} (env : Environment D N) where
  -- An update of a row that is found sets its consumer if it names one and keeps it found; one
  -- that throws changes nothing.
  pub record LinkLaws (id : String) : Type 0 where
    pub saved :
        (request : EmployeeUpdateRequest) (d d' : D) (before row : Employee)
        → env.find_unique id d ≡ ok (some before)
        → env.update id request d ≡ (ok row, d')
        → (after : Employee) × (env.find_unique id d' ≡ ok (some after))
          × (after.consumer_id ≡ updated_consumer request.consumer_id before.consumer_id)
    pub refused :
        (request : EmployeeUpdateRequest) (d d' : D) (e : Exception)
        → env.update id request d ≡ (err e, d')
        → d' ≡ d

  -- The employee of the id is linked to the consumer.
  abbrev pub IsLinked : String → String → World D N → Type 0
  IsLinked id consumer w =
      (e : Employee) × (env.find_unique id w.table ≡ ok (some e)) × (e.consumer_id ≡ some consumer)

  module _ (id consumer : String) (laws : LinkLaws id) (named : is_empty consumer ≡ false)
      (e : Employee) (linked : e.consumer_id ≡ some consumer) (w : World D N)
      (found : env.find_unique id w.table ≡ ok (some e)) where
    repo_update-IsLinked :
        (request : EmployeeUpdateRequest)
        → updated_consumer (given request.consumer_id) (some consumer) ≡ some consumer
        → IsLinked id consumer (Repo.update_employee env id request w).1
    unfolding Repo.update_employee
    repo_update-IsLinked request same =
        let input = Repo.to_update_input request in
        let x = Repo.update_employee env id request w in
        let y = env.update id input w.table in
        elim (Bool-cases (Repo.validate_update_employee_request env request)) [
          | inr invalid ↦ (e, ground arith, linked)
          | inl valid ↦ elim (Result-cases y.0) [
            | inl (row, p) ↦
                let (after, there, is) = laws.saved input w.table y.1 e row found (ground arith) in
                (
                  after,
                  ground (arith, there),
                  is ∙ ap (updated_consumer input.consumer_id) linked ∙ same,
                )
            | inr (failure, p) ↦
                let unchanged = laws.refused input w.table y.1 failure (ground arith) in
                (e, ground (arith, unchanged), linked)
          ]
        ]

    not_switched :
        (new : Option String)
        → switches_consumer new (some consumer) ≡ false
        → updated_consumer (given (given new)) (some consumer) ≡ some consumer
    not_switched none h = refl
    not_switched (some n) h = elim (Bool-cases (is_empty n)) [
      | inl empty ↦ rw empty refl
      | inr full ↦
          let same : str_eq n consumer ≡ true = ground arith in
          let is : n ≡ consumer = (str_eq_iff n consumer).0 same in ground (arith, is)
    ]

    update_found-IsLinked :
        (request : UpdateEmployeeRequestDto)
        → IsLinked id consumer (update_found env id request (Repo.convert_to_domain_employee e) w).1
    unfolding update_found update_request Repo.convert_to_domain_employee
    update_found-IsLinked request =
        let employee = Repo.convert_to_domain_employee e in
        elim (Bool-cases (switches_consumer request.consumer_id employee.consumer_id)) [
          | inl switched ↦ (e, ground arith, linked)
          | inr kept ↦ elim (Option-cases employee.employer) [
            | inl none_there ↦ (e, ground arith, linked)
            | inr (employer, there) ↦ elim (Bool-cases (is_created request.status)) [
              | inl created ↦ (e, ground arith, linked)
              | inr other ↦
                  let told = update_request request employee employer in
                  let same =
                    not_switched request.consumer_id
                      (sym (ap (switches_consumer request.consumer_id) linked) ∙ kept) in
                  let (after, is_there, is_linked) = repo_update-IsLinked told same in
                  (after, ground (arith, is_there), is_linked)
            ]
          ]
        ]

  -- Where an update of a row sets what it is told, an employee who is linked to a consumer is
  -- linked to the same one after any call to update the employee, returned or thrown.
  pub update_employee-IsLinked :
      (id consumer : String) (request : UpdateEmployeeRequestDto) (w : World D N)
      → LinkLaws id
      → is_empty consumer ≡ false
      → IsLinked id consumer w
      → IsLinked id consumer (update_employee env id request w).1
  unfolding update_employee get_employee_by_id Repo.get_employee_by_id
  update_employee-IsLinked id consumer request w laws named (e, found, linked) =
      elim (Bool-cases (is_empty id)) [
        | inl empty ↦ (e, ground arith, linked)
        | inr given ↦
            let (after, there, is) =
              update_found-IsLinked id consumer laws named e linked w found request in
            (after, ground (arith, there), is)
      ]
