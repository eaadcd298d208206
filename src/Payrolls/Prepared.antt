-- ===== src/Payrolls/Prepared.antt =====
-- What a payroll is given when it is prepared.
use noba_server.Common.Base.{
  ◌≡◌, sym, ◌∙◌, refl, Bool-cases, is_empty, String, none, some, inl, inr, arith, List, [], ◌∷◌,
}
use noba_server.Common.Amount.{Amount}
use noba_server.Common.Action.{ok}
use noba_server.Common.Inversion.{Result-cases}
use noba_server.Common.Outcome.{run-eq-ok}
use noba_server.Transactions.Domain.{Rate}
use noba_server.Payrolls.Domain.{
  Payroll, PayrollStatus, PayrollUpdateRequest, UpdatePayrollRequestDto,
  is_status_transition_allowed,
}
use noba_server.Common.Int.{pos, ◌+ℤ◌}
use noba_server.Payrolls.Environment.{Environment, World}
use noba_server.Payrolls.Service.{
  get_payroll_by_id, prepare, next_request, status_request, enter, update_allowed, update_found,
  update_payroll, total,
}

-- The number is the sum of the amounts.
abbrev pub IsSum : List Amount → Amount → Type 0
IsSum [] sum = sum ≡ pos 0
IsSum (a ∷ amounts) sum = (rest : Amount) × IsSum amounts rest × (sum ≡ a +ℤ rest)

total-IsSum : (amounts : List Amount) → IsSum amounts (total amounts)
total-IsSum [] = refl
total-IsSum (a ∷ amounts) = (total amounts, total-IsSum amounts, refl)

module _ {P F : Type 0} (env : Environment P F) where
  -- The table was told the sum of the disbursements in pesos and the rate, and their product.
  pub record IsPrepared (id : String) (payroll : Payroll) (w w' : World P F) : Type 0 where
    pub amounts : List Amount
    pub sum : Amount
    pub rate : Rate
    pub update : PayrollUpdateRequest
    pub allocated : env.allocations id ≡ ok amounts
    pub adds_up : IsSum amounts sum
    pub given : env.exchange_rate ≡ ok (some rate)
    pub status : update.status ≡ PayrollStatus.prepared
    pub debit : update.total_debit_amount ≡ some sum
    pub credit : update.total_credit_amount ≡ some (record { amount = sum; rate = rate })
    pub exchange_rate : update.exchange_rate ≡ some rate
    pub debit_currency : update.debit_currency ≡ some "COP"
    pub credit_currency : update.credit_currency ≡ some "USD"
    pub written : env.update id update w.table ≡ (ok payroll, w'.table)
    pub rest : w' ≡ record w { table = w'.table }

  prepare-eq-ok :
      (id : String) (update next : PayrollUpdateRequest) (w : World P F) {w' : World P F}
      → prepare env id update w ≡ (ok next, w')
      → (amounts : List Amount) × (rate : Rate) × (env.allocations id ≡ ok amounts)
        × (env.exchange_rate ≡ ok (some rate))
        × (next.status ≡ update.status)
        × (next.total_debit_amount ≡ some (total amounts))
        × (next.total_credit_amount ≡ some (record { amount = total amounts; rate = rate }))
        × (next.exchange_rate ≡ some rate)
        × (next.debit_currency ≡ some "COP")
        × (next.credit_currency ≡ some "USD")
        × (w' ≡ w)
  unfolding prepare
  prepare-eq-ok id update next w h = elim (Result-cases (env.allocations id)) [
    | inr (e, p) ↦ absurd (ground arith)
    | inl (amounts, p) ↦ elim (Result-cases env.exchange_rate) [
      | inr (e, q) ↦ absurd (ground arith)
      | inl (none, q) ↦ absurd (ground arith)
      | inl (some rate, q) ↦ (
        amounts,
        rate,
        p,
        q,
        ground arith,
        ground arith,
        ground arith,
        ground arith,
        ground arith,
        ground arith,
        ground arith,
      )
    ]
  ]

  allowed_lem :
      (id : String) (request : UpdatePayrollRequestDto) (p : Payroll) (w : World P F)
      {w' : World P F} {q : Payroll}
      → env.get_payroll id w.table ≡ some p
      → p.status ≡ PayrollStatus.created
      → request.status ≡ some PayrollStatus.prepared
      → update_payroll env id request w ≡ (ok q, w')
      → update_allowed env p id PayrollStatus.prepared request w ≡ (ok q, w')
  unfolding update_payroll get_payroll_by_id update_found is_status_transition_allowed
  allowed_lem id request p w found created asked h = elim (Bool-cases (is_empty id)) [
    | inl empty ↦ absurd (ground arith)
    | inr given ↦ ground arith
  ]

  next_lem :
      (id : String) (request : UpdatePayrollRequestDto) (p : Payroll) (w : World P F)
      → p.status ≡ PayrollStatus.created
      → next_request env p id PayrollStatus.prepared request w
        ≡ prepare env id (status_request PayrollStatus.prepared request) w
  unfolding next_request enter
  next_lem id request p w created = ground arith

  -- A payroll that was CREATED and that an update to PREPARED returns was written to the table with
  -- the sum of its disbursements in COP, the rate that was found, and their product in USD.
  pub update_payroll-IsPrepared :
      (id : String) (request : UpdatePayrollRequestDto) (p : Payroll) (w : World P F)
      {w' : World P F} {q : Payroll}
      → env.get_payroll id w.table ≡ some p
      → p.status ≡ PayrollStatus.created
      → request.status ≡ some PayrollStatus.prepared
      → update_payroll env id request w ≡ (ok q, w')
      → IsPrepared id q w w'
  unfolding update_allowed
  update_payroll-IsPrepared id request p w {w'} {q} found created asked h =
      let first = status_request PayrollStatus.prepared request in
      let x = next_request env p id PayrollStatus.prepared request w in
      let (next, ran, rest) = run-eq-ok x (allowed_lem id request p w found created asked h) in
      let (
        amounts, rate, allocated, given, status, debit, credit, found_rate, pesos, dollars, same,
      ) =
        prepare-eq-ok id first next w (sym (next_lem id request p w created) ∙ ran) in
      record {
        amounts = amounts;
        sum = total amounts;
        rate = rate;
        update = next;
        allocated = allocated;
        adds_up = total-IsSum amounts;
        given = given;
        status = status;
        debit = debit;
        credit = credit;
        exchange_rate = found_rate;
        debit_currency = pesos;
        credit_currency = dollars;
        written = ground (arith, rest, same);
        rest = ground (arith, rest, same);
      }
