-- ===== src/Employees/Domain.antt =====
-- src/modules/employee/domain/Employee.ts and dto/employee.service.dto.ts. Undefined and null are
-- `none`. The currency of an allocation is always COP.
use noba_server.Common.Base.{
  ℕ, suc, ◌+◌, ◌*◌, ◌-◌, ltb, String, Bool, Option, none, some, is_empty, if◌then◌else◌,
}
use noba_server.Common.Int.{pos_part, neg_part}
use noba_server.Common.Amount.{Amount}
use noba_server.Transactions.Domain.{Rate}

pub data EmployeeStatus : Type 0 where
  created invited linked unlinked : EmployeeStatus

-- What is read of an employer. A percentage is a fraction that is not negative.
pub record Employer : Type 0 where
  pub id : String
  pub name : String
  pub referral_id : String
  pub locale : Option String
  pub max_allocation_percent : Option Rate

pub record Employee : Type 0 where
  pub id : String
  pub allocation_amount : Amount
  pub employer_id : String
  pub consumer_id : Option String
  pub email : Option String
  pub salary : Option Amount
  pub status : EmployeeStatus
  pub last_invite_sent_timestamp : Option ℕ
  pub employer : Option Employer

pub record EmployeeCreateRequest : Type 0 where
  pub allocation_amount : Amount
  pub employer_id : String
  pub consumer_id : Option String
  pub email : Option String
  pub salary : Option Amount
  pub status : EmployeeStatus

pub record EmployeeUpdateRequest : Type 0 where
  pub allocation_amount : Option Amount
  pub salary : Option Amount
  pub email : Option String
  pub consumer_id : Option String
  pub last_invite_sent_timestamp : Option ℕ
  pub status : Option EmployeeStatus

-- The same fields, as the service is asked for them.
pub record UpdateEmployeeRequestDto : Type 0 where
  pub consumer_id : Option String
  pub allocation_amount : Option Amount
  pub salary : Option Amount
  pub email : Option String
  pub status : Option EmployeeStatus
  pub last_invite_sent_timestamp : Option ℕ

pub record CreateEmployeeRequestDto : Type 0 where
  pub consumer_id : Option String
  pub allocation_amount : Amount
  pub employer_id : String
  pub salary : Option Amount
  pub email : Option String

pub record InviteEmployeeEvent : Type 0 where
  pub email : String
  pub company_name : String
  pub referral_id : String
  pub employee_id : String
  pub locale : Option String

-- `s && …` on a text that may be missing.
abbrev pub given : Option String → Option String
given none = none
given (some s) = if is_empty s then none else some s

-- `(percent * salary) / 100` as a rate of the salary.
abbrev pub share : Rate → Rate
share percent = record {
  numerator = percent.numerator;
  predecessor = 100 * suc percent.predecessor - 1;
}

-- `amount > (percent * salary) / 100`
abbrev pub exceeds : (amount salary : Amount) → (percent : Rate) → Bool
exceeds amount salary percent =
    ltb (percent.numerator * pos_part salary + 100 * suc percent.predecessor * neg_part amount)
      (100 * suc percent.predecessor * pos_part amount + percent.numerator * neg_part salary)
