-- ===== src/Payrolls/Steps.antt =====
-- How an update changes the status of a payroll: the stages of its processing.
use noba_server.Common.Base.{
  ◌≡◌, refl, ℕ, suc, String, Bool-cases, true, is_empty, sym, Option, none, some, ◌⊎◌, inl, inr,
  arith, ap, ◌∙◌,
}
use noba_server.Common.Action.{Result, ok, err}
use noba_server.Common.Exception.{Exception}
use noba_server.Common.Inversion.{Result-cases}
use noba_server.Payrolls.Domain.{
  Payroll, PayrollStatus, PayrollUpdateRequest, UpdatePayrollRequestDto,
  is_status_transition_allowed, same_status,
}
use noba_server.Payrolls.Environment.{Environment, World, write}
use noba_server.Payrolls.Service.{
  get_payroll_by_id, prepare, next_request, status_request, enter, update_allowed, update_found,
  update_payroll,
}

-- How far the processing of the payroll has come.
abbrev pub stage : PayrollStatus → ℕ
stage PayrollStatus.in_progress = 1
stage PayrollStatus.receipt = 2
stage PayrollStatus.completed = 3
stage _ = 0

-- The next status is of the same stage, or of the next one, which the first leads to from FUNDED.
abbrev pub IsStep : PayrollStatus → PayrollStatus → Type 0
IsStep old new =
    (stage new ≡ stage old)
    ⊎ ((stage new ≡ suc (stage old)) × (stage old ≡ 0 → old ≡ PayrollStatus.funded))

allowed-IsStep :
    (old new : PayrollStatus) → is_status_transition_allowed old new ≡ true → IsStep old new
unfolding is_status_transition_allowed
allowed-IsStep PayrollStatus.funded PayrollStatus.in_progress h = inr (refl, λ z. refl)
allowed-IsStep PayrollStatus.in_progress PayrollStatus.receipt h =
    inr (refl, λ z. absurd (ground arith))
allowed-IsStep PayrollStatus.receipt PayrollStatus.completed h =
    inr (refl, λ z. absurd (ground arith))
allowed-IsStep old new h = inl (ground arith)

module _ {P F : Type 0} (env : Environment P F) where
  -- An update of a payroll that is found sets its status and keeps it found, and one that throws
  -- changes nothing.
  pub record TableLaws (id : String) : Type 0 where
    pub saved :
        (update : PayrollUpdateRequest) (p p' : P) (payroll : Payroll)
        → env.update id update p ≡ (ok payroll, p')
        → (env.get_payroll id p' ≡ some payroll) × (payroll.status ≡ update.status)
    pub refused :
        (update : PayrollUpdateRequest) (p p' : P) (e : Exception)
        → env.update id update p ≡ (err e, p')
        → p' ≡ p

  -- The payroll of the id in the table has the status.
  abbrev pub HasStatus : String → PayrollStatus → World P F → Type 0
  HasStatus id status w =
      (payroll : Payroll) × (env.get_payroll id w.table ≡ some payroll) × (payroll.status ≡ status)

  enter_lem :
      (payroll : Payroll) (id : String) (status : PayrollStatus) (update : PayrollUpdateRequest)
      (w : World P F)
      → ((enter env payroll id status update w).1.table ≡ w.table)
        × ((next : PayrollUpdateRequest)
            → (enter env payroll id status update w).0 ≡ ok next
            → next.status ≡ update.status)
  unfolding enter prepare
  enter_lem payroll id status update w = (ground arith, λ next h. ground arith)

  next_request_lem :
      (payroll : Payroll) (id : String) (status : PayrollStatus) (request : UpdatePayrollRequestDto)
      (w : World P F)
      → ((next_request env payroll id status request w).1.table ≡ w.table)
        × ((next : PayrollUpdateRequest)
            → (next_request env payroll id status request w).0 ≡ ok next
            → next.status ≡ status)
  unfolding next_request
  next_request_lem payroll id status request w =
      let (same, told) = enter_lem payroll id status (status_request status request) w in
      elim (Bool-cases (same_status status payroll.status)) [
        | inl again ↦ rw again (refl, λ next h. ground arith)
        | inr new ↦ rw new (same, told)
      ]

  write_lem :
      (id : String)
      → TableLaws id
      → (payroll : Payroll) (status : PayrollStatus)
        (first : Result PayrollUpdateRequest × World P F)
      → env.get_payroll id first.1.table ≡ some payroll
      → ((next : PayrollUpdateRequest) → first.0 ≡ ok next → next.status ≡ status)
      → let x : Result Payroll × World P F = elim first.0 [
        | ok u ↦ write (env.update id u) first.1
        | err e ↦ (err e, first.1)
      ] in
        HasStatus id status x.1 ⊎ HasStatus id payroll.status x.1
  write_lem id laws payroll status (err e, w) found told = inr (payroll, found, refl)
  write_lem id laws payroll status (ok u, w) found told =
      let x = env.update id u w.table in
      elim (Result-cases x.0) [
        | inl (saved, p) ↦
            let (there, same) = laws.saved u w.table x.1 saved (ground arith) in
            inl (saved, there, same ∙ told u refl)
        | inr (e, p) ↦
            let same = laws.refused u w.table x.1 e (ground arith) in
            inr (payroll, ap (env.get_payroll id) same ∙ found, refl)
      ]

  -- The payroll is there after a run from its status, with one that is a step from it.
  abbrev pub Moves : String → PayrollStatus → World P F → Type 0
  Moves id old w = (next : PayrollStatus) × HasStatus id next w × IsStep old next

  module _ (id : String) (laws : TableLaws id) (payroll : Payroll)
      (request : UpdatePayrollRequestDto) (w : World P F)
      (found : env.get_payroll id w.table ≡ some payroll) where
    update_allowed_lem :
        (status : PayrollStatus)
        → is_status_transition_allowed payroll.status status ≡ true
        → Moves id payroll.status (update_allowed env payroll id status request w).1
    unfolding update_allowed
    update_allowed_lem status allowed =
        let (same, told) = next_request_lem payroll id status request w in
        let x = next_request env payroll id status request w in
        elim (write_lem id laws payroll status x (ap (env.get_payroll id) same ∙ found) told) [
          | inl has ↦ (status, has, allowed-IsStep payroll.status status allowed)
          | inr has ↦ (payroll.status, has, inl refl)
        ]

    update_found_lem :
        (status : Option PayrollStatus)
        → Moves id payroll.status (update_found env payroll id request status w).1
    unfolding update_found
    update_found_lem none = (payroll.status, (payroll, found, refl), inl refl)
    update_found_lem (some status) =
        elim (Bool-cases (is_status_transition_allowed payroll.status status)) [
          | inl allowed ↦ rw allowed (update_allowed_lem status allowed)
          | inr other ↦ rw other (payroll.status, (payroll, found, refl), inl refl)
        ]

  -- Where an update sets what it is told, a payroll that is in the table is still there after any
  -- call to update it, returned or thrown, with a status that is a step from the one before: of
  -- the same stage of the processing, or of the next one, where only FUNDED leads to the first.
  pub update_payroll-IsStep :
      (id : String)
      → TableLaws id
      → (request : UpdatePayrollRequestDto) (w : World P F) {status : PayrollStatus}
      → HasStatus id status w
      → Moves id status (update_payroll env id request w).1
  unfolding update_payroll get_payroll_by_id
  update_payroll-IsStep id laws request w {status} (payroll, found, same) =
      elim (Bool-cases (is_empty id)) [
        | inl empty ↦ rw empty (status, (payroll, found, same), inl refl)
        | inr given ↦
            rw (given, found, sym same)
              (update_found_lem id laws payroll request w found request.status)
      ]
