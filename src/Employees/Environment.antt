-- ===== src/Employees/Environment.antt =====
-- What the employees call and do not implement: their table, Joi, the notifications, the clock.
use noba_server.Common.Base.{ℕ, suc, String, Bool, Option, List, ◌∷◌}
use noba_server.Common.Alert.{Alert}
use noba_server.Common.Exception.{Exception}
use noba_server.Common.Action.{Action, Result, ok}
use noba_server.Common.Joi.{Joi}
use noba_server.Employees.Domain.{
  Employee, EmployeeCreateRequest, EmployeeUpdateRequest, InviteEmployeeEvent,
}

-- The state: the table, the mails that were sent, the alerts, the latest first, and how often the
-- clock was read.
pub record World (D N : Type 0) : Type 0 where
  pub table : D
  pub mails : N
  pub alerts : List Alert
  pub readings : ℕ

pub record Environment (D N : Type 0) : Type 0 where
  pub joi : Joi
  pub clock : ℕ → ℕ
  -- `prisma.employee`: `create`, `update` by id, `findUnique` by id with the employer, `findFirst`
  -- of an email among those that are not UNLINKED, and those of an employer with their consumers
  pub create : EmployeeCreateRequest → D → Result Employee × D
  pub update : String → EmployeeUpdateRequest → D → Result Employee × D
  pub find_unique : String → D → Result (Option Employee)
  pub find_active_by_email : String → D → Result (Option Employee)
  pub find_of_employer : String → D → Result (List Employee)
  -- whether an error says that the pair of consumer and employer is there already, and whether it
  -- says "Record to update not found."
  pub is_duplicate : Exception → Bool
  pub is_missing_record : Exception → Bool
  -- `sendNotification` of an invitation
  pub send_invite : InviteEmployeeEvent → N → Result (Unit {0}) × N

module _ {D N : Type 0} where
  abbrev pub raise_error : Action (World D N) (Unit {0})
  raise_error w = (ok tt, record w { alerts = Alert.error ∷ w.alerts })

  abbrev pub write : {A : Type 0} → (D → Result A × D) → Action (World D N) A
  write f w = let (r, d) = f w.table in (r, record w { table = d })

  abbrev pub query : {A : Type 0} → (D → Result A) → Action (World D N) A
  query f w = (f w.table, w)

  abbrev pub send : {A : Type 0} → (N → Result A × N) → Action (World D N) A
  send f w = let (r, n) = f w.mails in (r, record w { mails = n })

  abbrev pub now : Environment D N → Action (World D N) ℕ
  now env w = (ok (env.clock w.readings), record w { readings = suc w.readings })
