-- ===== src/Employees/Invites.antt =====
-- That an employee is invited by mail once.
use noba_server.Common.Base.{
  ◌≡◌, refl, ℕ, sym, ◌∙◌, ap, subst, String, Bool-cases, true, false, Option, some, none, inl, inr,
  is_empty, arith,
}
use noba_server.Common.Amount.{Amount}
use noba_server.Common.Action.{ok}
use noba_server.Common.Inversion.{Result-cases}
use noba_server.Common.Outcome.{run-eq-ok}
use noba_server.Employees.Domain.{
  Employee, Employer, EmployeeStatus, EmployeeCreateRequest, EmployeeUpdateRequest,
  CreateEmployeeRequestDto, InviteEmployeeEvent,
}
use noba_server.Employees.Environment.{Environment, World, send, now}
use noba_server.Employees.Repo
use noba_server.Employees.Runs.{update_employee-eq-ok, update_found-eq-ok, repo_update-eq-ok}
use noba_server.Employees.Service.{
  create_new, create_employee, invite_created, invite_employee, update_employee, update_request,
  status_of, is_uninvited, new_request, invited_at, invitation,
}

module _ {D N : Type 0} (env : Environment D N) where
  -- Where there is no active employee of an email, one that is created with it is found; one that
  -- is found is found after an update, with the status that it was told.
  pub record EmailLaws (email : String) : Type 0 where
    pub created :
        (request : EmployeeCreateRequest) (d d' : D) (row : Employee)
        → env.find_active_by_email email d ≡ ok none
        → request.email ≡ some email
        → env.create request d ≡ (ok row, d')
        → env.find_active_by_email email d' ≡ ok (some row)
    pub invited :
        (request : EmployeeUpdateRequest) (d d' : D) (before row : Employee)
        → env.find_active_by_email email d ≡ ok (some before)
        → request.status ≡ some EmployeeStatus.invited
        → env.update before.id request d ≡ (ok row, d')
        → (after : Employee) × (env.find_active_by_email email d' ≡ ok (some after))
          × (after.status ≡ EmployeeStatus.invited)

  module _ (email : String) (laws : EmailLaws email) (named : is_empty email ≡ false) where
    -- The active employee of the email, as it is in the table.
    abbrev IsActive : Employee → World D N → Type 0
    IsActive row w = env.find_active_by_email email w.table ≡ ok (some row)

    create-IsActive :
        (request : CreateEmployeeRequestDto) (w : World D N) {w' : World D N} {e : Employee}
        → request.email ≡ some email
        → create_employee env request w ≡ (ok e, w')
        → (row : Employee) × IsActive row w' × (e ≡ Repo.convert_to_domain_employee row)
    unfolding create_employee create_new Repo.create_employee Repo.get_active_employee_by_email
    create-IsActive request w {w'} {e} asked h =
        let input = Repo.to_create_input (new_request request) in
        let filled : input.email ≡ some email = ground arith in
        elim (Result-cases (env.find_active_by_email email w.table)) [
          | inr (failure, p) ↦ absurd (ground arith)
          | inl (some row, p) ↦ (row, ground arith, ground arith)
          | inl (none, p) ↦ elim (Result-cases (env.create input w.table).0) [
            | inr (failure, q) ↦ absurd (ground arith)
            | inl (row, q) ↦
                let there = laws.created input w.table w'.table row p filled (ground arith) in
                (row, there, ground arith)
          ]
        ]

    update-IsActive :
        (time : ℕ) (e row : Employee) (w : World D N) {w' : World D N} {f : Employee}
        → IsActive row w
        → e.id ≡ row.id
        → update_employee env e.id (invited_at time) w ≡ (ok f, w')
        → (after : Employee) × IsActive after w' × (after.status ≡ EmployeeStatus.invited)
    unfolding update_request status_of
    update-IsActive time e row w {w'} active same_id h =
        let (before, _, h1) = update_employee-eq-ok env e.id (invited_at time) w h in
        let employee = Repo.convert_to_domain_employee before in
        let (employer, _, _, _, h2) = update_found-eq-ok env e.id (invited_at time) employee w h1 in
        let told = update_request (invited_at time) employee employer in
        let (saved, updated, _) = repo_update-eq-ok env e.id told w h2 in
        let input = Repo.to_update_input told in
        let at_row =
          subst (λ k. env.update k input w.table ≡ (ok saved, w'.table)) same_id updated in
        laws.invited input w.table w'.table row saved active refl at_row

    invite-IsActive :
        (employer : Employer) (row e : Employee) (w : World D N) {w' : World D N} {f : Employee}
        → IsActive row w
        → e ≡ Repo.convert_to_domain_employee row
        → invite_created env email employer true e w ≡ (ok f, w')
        → (after : Employee) × IsActive after w' × (is_uninvited env after.status ≡ false)
    unfolding invite_created Repo.convert_to_domain_employee
    invite-IsActive employer row e w {w'} {f} active is h =
        elim (Bool-cases (is_uninvited env e.status)) [
          | inr settled ↦
              let same = ap (λ (x : Employee). is_uninvited env x.status) (sym is) in
              (row, ground arith, same ∙ settled)
          | inl uninvited ↦
              let mail : InviteEmployeeEvent = record {
                email = email;
                company_name = employer.name;
                referral_id = employer.referral_id;
                employee_id = e.id;
                locale = employer.locale;
              } in
              let x1 = send (env.send_invite mail) w in
              let x2 = now env x1.1 in
              let time = env.clock x1.1.readings in
              let h1 : update_employee env e.id (invited_at time) x2.1 ≡ (ok f, w') =
                ground arith in
              let same_id = ap (λ (x : Employee). x.id) is in
              let (after, there, status) = update-IsActive time e row x2.1 active same_id h1 in
              (after, there, ap (is_uninvited env) status)
        ]

    again_lem :
        (employer : Employer) (salary : Option Amount) (row : Employee) (w : World D N)
        → IsActive row w
        → is_uninvited env row.status ≡ false
        → invite_employee env email employer true salary w
          ≡ (ok (Repo.convert_to_domain_employee row), w)
    unfolding invite_employee create_employee Repo.get_active_employee_by_email invite_created
        Repo.convert_to_domain_employee
    again_lem employer salary row w active settled = ground arith

    -- Where the table finds the active employee of an email, an invitation by mail that returned,
    -- made again by any employer, sends no mail, and changes nothing.
    pub invite_employee_again :
        (employer other : Employer) (salary other_salary : Option Amount) (w : World D N)
        {w' : World D N} {e : Employee}
        → invite_employee env email employer true salary w ≡ (ok e, w')
        → (row : Employee) × (invite_employee env email other true other_salary w'
            ≡ (ok (Repo.convert_to_domain_employee row), w'))
    unfolding invite_employee
    invite_employee_again employer other salary other_salary w h =
        let x = create_employee env (invitation email employer salary) w in
        let (e, p, q) = run-eq-ok x h in
        let (row, active, is) = create-IsActive (invitation email employer salary) w refl p in
        let (after, there, settled) = invite-IsActive employer row e x.1 active is q in
        (after, again_lem other other_salary after _ there settled)
