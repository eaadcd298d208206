-- ===== src/Employees/Tests.antt =====
-- Tests and examples of the employees, on a table of one row: they show that what is assumed of the
-- table can hold.
use noba_server.Common.Base.{
  ◌≡◌, refl, ℕ, suc, String, true, false, Option, some, none, List, [], ◌∷◌, is_empty, arith,
}
use noba_server.Common.Amount.{cents}
use noba_server.Common.Action.{Result, ok, err}
use noba_server.Common.Exception.{Exception, service, semantic_validation, database_error}
use noba_server.Circle.Sample.{joi}
use noba_server.Transactions.Domain.{round_product}
use noba_server.Employees.Domain.{
  Employee, Employer, EmployeeStatus, EmployeeCreateRequest, EmployeeUpdateRequest,
  UpdateEmployeeRequestDto,
}
use noba_server.Employees.Environment.{Environment, World}
use noba_server.Employees.Repo
use noba_server.Employees.Service.{
  cap, status_of, update_request, create_new, create_employee, get_employee_by_id, update_found,
  update_employee, invite_created, invite_employee, or_else,
}
use noba_server.Employees.Allocation.{IsCapped, update_employee-IsCapped}
use noba_server.Employees.Links.{LinkLaws, IsLinked, updated_consumer, update_employee-IsLinked}
use noba_server.Employees.Invites.{EmailLaws, invite_employee_again}

open_all : Unit {0}
unfolding Repo.convert_to_domain_employee Repo.create_employee Repo.update_employee
    Repo.get_employee_by_id Repo.get_active_employee_by_email cap status_of update_request
    create_new create_employee get_employee_by_id update_found update_employee invite_created
    invite_employee round_product
open_all = tt

abbrev employer : Employer
employer = record {
  id = "employer-1";
  name = "noba";
  referral_id = "ref-1";
  locale = none;
  max_allocation_percent = some (record { numerator = 30; predecessor = 0 });
}

abbrev created : EmployeeCreateRequest → Employee
created r = record {
  id = "employee-1";
  allocation_amount = r.allocation_amount;
  employer_id = r.employer_id;
  consumer_id = r.consumer_id;
  email = r.email;
  salary = r.salary;
  status = r.status;
  last_invite_sent_timestamp = none;
  employer = some employer;
}

abbrev updated : EmployeeUpdateRequest → Employee → Employee
updated r e = record e {
  allocation_amount = or_else r.allocation_amount e.allocation_amount;
  consumer_id = updated_consumer r.consumer_id e.consumer_id;
  status = or_else r.status e.status;
}

abbrev create : EmployeeCreateRequest → Option Employee → Result Employee × Option Employee
create r d = (ok (created r), some (created r))

abbrev update : String → EmployeeUpdateRequest → Option Employee → Result Employee × Option Employee
update id r none = (err database_error, none)
update id r (some e) = (ok (updated r e), some (updated r e))

abbrev of_employer : Option Employee → List Employee
of_employer none = []
of_employer (some e) = e ∷ []

-- It counts the mails.
abbrev environment : Environment (Option Employee) ℕ
environment = record {
  joi = joi;
  clock = λ n. n;
  create = create;
  update = update;
  find_unique = λ id d. ok d;
  find_active_by_email = λ email d. ok d;
  find_of_employer = λ id d. ok (of_employer d);
  is_duplicate = λ e. false;
  is_missing_record = λ e. true;
  send_invite = λ mail n. (ok tt, suc n);
}

link_saved :
    (request : EmployeeUpdateRequest) (d d' : Option Employee) (before row : Employee)
    → ok d ≡ ok (some before)
    → update "employee-1" request d ≡ (ok row, d')
    → (after : Employee) × (ok d' ≡ ok (some after))
      × (after.consumer_id ≡ updated_consumer request.consumer_id before.consumer_id)
link_saved request none d' before row found h = absurd (ground arith)
link_saved request (some e) d' before row found h = (row, ground arith, ground arith)

link_refused :
    (request : EmployeeUpdateRequest) (d d' : Option Employee) (e : Exception)
    → update "employee-1" request d ≡ (err e, d')
    → d' ≡ d
link_refused request none d' e h = ground arith
link_refused request (some _) d' e h = absurd (ground arith)

link_laws : LinkLaws environment "employee-1"
link_laws = record { saved = link_saved; refused = link_refused }

mail_invited :
    (request : EmployeeUpdateRequest) (d d' : Option Employee) (before row : Employee)
    → ok d ≡ ok (some before)
    → request.status ≡ some EmployeeStatus.invited
    → update before.id request d ≡ (ok row, d')
    → (after : Employee) × (ok d' ≡ ok (some after)) × (after.status ≡ EmployeeStatus.invited)
mail_invited request none d' before row found told h = absurd (ground arith)
mail_invited request (some e) d' before row found told h =
    (updated request e, ground arith, ground (arith, told))

email_laws : EmailLaws environment "ana@noba.com"
email_laws = record { created = λ r d d' row found filled h. ground arith; invited = mail_invited }

-- A salary of 1000 pesos, of which 250 are allocated.
abbrev employee : Employee
employee = record {
  id = "employee-1";
  allocation_amount = cents 25_000;
  employer_id = "employer-1";
  consumer_id = some "consumer-1";
  email = none;
  salary = some (cents 100_000);
  status = EmployeeStatus.linked;
  last_invite_sent_timestamp = none;
  employer = some employer;
}

abbrev start : World (Option Employee) ℕ
start = record { table = some employee; mails = 0; alerts = []; readings = 0 }

abbrev more : UpdateEmployeeRequestDto
more = record {
  consumer_id = none;
  allocation_amount = some (cents 50_000);
  salary = none;
  email = none;
  status = none;
  last_invite_sent_timestamp = none;
}

-- 500 pesos are more than 30 %.
abbrev capped : Employee
capped = record employee { allocation_amount = cents 30_000 }

abbrev after : World (Option Employee) ℕ
after = (update_employee environment "employee-1" more start).1

updates : update_employee environment "employee-1" more start ≡ (ok capped, after)
unfolding open_all
updates = refl

update_employee-IsCapped_example : IsCapped environment "employee-1" capped start after
update_employee-IsCapped_example =
    update_employee-IsCapped environment "employee-1" more start updates

abbrev switch : UpdateEmployeeRequestDto
switch = record more { consumer_id = some "consumer-2" }

refuses_to_switch :
    (update_employee environment "employee-1" switch start).0 ≡ err (service semantic_validation)
unfolding open_all
refuses_to_switch = refl

is_named : is_empty "consumer-1" ≡ false
is_named = refl

update_employee-IsLinked_example :
    IsLinked environment "employee-1" "consumer-1"
      (update_employee environment "employee-1" switch start).1
update_employee-IsLinked_example =
    update_employee-IsLinked environment "employee-1" "consumer-1" switch start link_laws is_named
      (employee, refl, refl)

abbrev empty : World (Option Employee) ℕ
empty = record { table = none; mails = 0; alerts = []; readings = 0 }

abbrev invited : World (Option Employee) ℕ
invited = (invite_employee environment "ana@noba.com" employer true none empty).1

abbrev guest : Employee
guest = record employee {
  allocation_amount = cents 0;
  consumer_id = none;
  email = some "ana@noba.com";
  salary = none;
  status = EmployeeStatus.invited;
}

invites : invite_employee environment "ana@noba.com" employer true none empty ≡ (ok guest, invited)
unfolding open_all
invites = refl

sends_a_mail : invited.mails ≡ 1
unfolding open_all
sends_a_mail = refl

is_an_email : is_empty "ana@noba.com" ≡ false
is_an_email = refl

invite_employee_again_example :
    (row : Employee) × (invite_employee environment "ana@noba.com" employer true none invited
      ≡ (ok (Repo.convert_to_domain_employee row), invited))
invite_employee_again_example =
    invite_employee_again environment "ana@noba.com" email_laws is_an_email employer employer none
      none empty invites
