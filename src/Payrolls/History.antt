-- ===== src/Payrolls/History.antt =====
-- What a sequence of updates of a payroll can lead to.
use noba_server.Common.Base.{
  ◌≡◌, ◌≢◌, refl, ap, subst, ◌∙◌, String, List, [], ◌∷◌, ◌++◌, inl, inr, arith,
}
use noba_server.Payrolls.Domain.{PayrollStatus, UpdatePayrollRequestDto}
use noba_server.Payrolls.Environment.{Environment, World}
use noba_server.Payrolls.Service.{update_payroll}
use noba_server.Payrolls.Steps.{stage, IsStep, TableLaws, HasStatus, update_payroll-IsStep}

module _ {P F : Type 0} (env : Environment P F) (id : String) where
  -- The state after calls to update a payroll, those that throw included.
  abbrev pub update_all : List UpdatePayrollRequestDto → World P F → World P F
  update_all [] w = w
  update_all (r ∷ requests) w = update_all requests (update_payroll env id r w).1

  status_unique :
      (a b : PayrollStatus) (w : World P F) → HasStatus env id a w → HasStatus env id b w → a ≡ b
  status_unique a b w (p, found, same) (q, found', same') = ground arith

  completed_only :
      (next : PayrollStatus) → IsStep PayrollStatus.completed next → next ≡ PayrollStatus.completed
  completed_only next step = ground arith

  module _ (laws : TableLaws env id) where
    -- Where an update sets what it is told, a payroll that is COMPLETED stays so, whatever calls to
    -- update it follow.
    pub update_all-completed :
        (requests : List UpdatePayrollRequestDto) (w : World P F)
        → HasStatus env id PayrollStatus.completed w
        → HasStatus env id PayrollStatus.completed (update_all requests w)
    update_all-completed [] w has = has
    update_all-completed (r ∷ requests) w has =
        let w1 : World P F = (update_payroll env id r w).1 in
        let (next, has1, step) = update_payroll-IsStep env id laws r w has in
        update_all-completed requests w1
          (subst (λ s. HasStatus env id s w1) (completed_only next step) has1)

    passes :
        (requests : List UpdatePayrollRequestDto) (w : World P F) (old new : PayrollStatus)
        → HasStatus env id old w
        → stage old ≡ 0
        → HasStatus env id new (update_all requests w)
        → stage new ≢ 0
        → (before after : List UpdatePayrollRequestDto) × (requests ≡ before ++ after)
          × HasStatus env id PayrollStatus.funded (update_all before w)
    passes [] w old new has early end late =
        absurd (late (ap stage (status_unique new old w end has) ∙ early))
    passes (r ∷ requests) w old new has early end late =
        let w1 : World P F = (update_payroll env id r w).1 in
        let (next, has1, step) = update_payroll-IsStep env id laws r w has in
        elim step [
          | inl same ↦
              let (before, after, split, funded) =
                passes requests w1 next new has1 (same ∙ early) end late in
              (r ∷ before, after, ap (λ l. r ∷ l) split, funded)
          | inr (_, only) ↦
              ([], r ∷ requests, refl, subst (λ s. HasStatus env id s w) (only early) has)
        ]

    -- Where an update sets what it is told, a payroll that was CREATED and after some calls to
    -- update it is IN_PROGRESS, RECEIPT or COMPLETED, was FUNDED after the first few of them.
    pub update_all-funded :
        (requests : List UpdatePayrollRequestDto) (w : World P F) (new : PayrollStatus)
        → HasStatus env id PayrollStatus.created w
        → HasStatus env id new (update_all requests w)
        → stage new ≢ 0
        → (before after : List UpdatePayrollRequestDto) × (requests ≡ before ++ after)
          × HasStatus env id PayrollStatus.funded (update_all before w)
    update_all-funded requests w new has end late =
        passes requests w PayrollStatus.created new has refl end late
