-- ===== src/Transactions/Preprocessing.antt =====
-- The processors that `validateAndSaveTransaction` uses: they write nothing, and name the workflow.
use noba_server.Common.Base.{String, ◌≡◌, refl, inl, inr, Option-cases, Option, true, arith, Bool}
use noba_server.Common.Action.{ok}
use noba_server.Transactions.Domain.{WorkflowName, InputTransaction, Transaction}
use noba_server.Transactions.Requests.{
  InitiateTransactionRequest, CardReversalTransactionType, CardReversalTransactionRequest,
  PayrollDepositTransactionRequest,
}
use noba_server.Transactions.Environment.{Environment, World, TransactionProcessor}
use noba_server.Transactions.Processors
use noba_server.Transactions.Adjustments
use noba_server.Transactions.Payroll
use noba_server.Transactions.Service.{get_preprocessor, is_implemented}

module _ {D : Type 0} where
  pub record IsReading (type : WorkflowName) (p : TransactionProcessor D) : Type 0 where
    pub validate : (w : World D) → (p.validate w).1.database ≡ w.database
    pub convert : (w : World D) → (p.convert_to_repo_input_transaction w).1.database ≡ w.database
    pub names :
        (w : World D) {input : InputTransaction}
        → (p.convert_to_repo_input_transaction w).0 ≡ ok input
        → input.workflow_name ≡ type
    pub post : (t : Transaction) (w : World D) → p.perform_post_processing t w ≡ (ok tt, w)

module _ {D : Type 0} (env : Environment D) where
  reversal_names :
      (r : CardReversalTransactionRequest) (reference : String)
      → (Processors.convert_reversal env r reference).workflow_name ≡ WorkflowName.card_reversal
  reversal_names r reference = go r.type
    where
      go :
          (type : CardReversalTransactionType)
          → (Processors.convert_reversal env (record r { type = type }) reference).workflow_name
            ≡ WorkflowName.card_reversal
      go CardReversalTransactionType.credit = refl
      go CardReversalTransactionType.debit = refl

  module _ {R : Type 0} {type : WorkflowName} (check : R → Bool)
      (convert : R → String → InputTransaction)
      (named : (r : R) (reference : String) → (convert r reference).workflow_name ≡ type)
      (request : Option R) where
    converting-IsReading :
        IsReading type
          (Processors.simple_processor env check (Processors.converting env convert) request)
    converting-IsReading = record {
      validate = λ w. ground arith;
      convert = λ w. ground arith;
      post = λ t w. refl;
      names = λ w e. elim (Option-cases request) [
        | inl missing ↦ absurd (ground arith)
        | inr (r, given) ↦ ground (arith, named r (env.uuid w.drawn))
      ];
    }

    drawing-IsReading :
        IsReading type
          (Processors.simple_processor env check (Processors.drawing env convert) request)
    drawing-IsReading = record {
      validate = λ w. ground arith;
      convert = λ w. ground arith;
      post = λ t w. refl;
      names = λ w e. elim (Option-cases request) [
        | inl missing ↦ absurd (ground arith)
        | inr (r, given) ↦ ground (arith, named r (env.uuid w.drawn))
      ];
    }

  payroll-IsReading :
      (request : Option PayrollDepositTransactionRequest)
      → IsReading WorkflowName.payroll_deposit (Payroll.payroll_deposit_processor env request)
  unfolding Payroll.payroll_deposit_processor Payroll.validate_payroll_deposit
      Payroll.convert_payroll_deposit
  payroll-IsReading request = record {
    validate = λ w. ground arith;
    convert = λ w. ground arith;
    post = λ t w. refl;
    names = λ w e. ground arith;
  }

  -- Every workflow that is implemented has a processor, which writes nothing to the database and
  -- names the workflow.
  pub get_preprocessor-IsReading :
      (type : WorkflowName) (r : InitiateTransactionRequest)
      → is_implemented type ≡ true
      → (p : TransactionProcessor D) × (get_preprocessor env type r ≡ ok p) × IsReading type p
  unfolding get_preprocessor Processors.card_withdrawal_processor Processors.card_reversal_processor
      Adjustments.card_credit_adjustment_processor Adjustments.card_debit_adjustment_processor
      Adjustments.credit_adjustment_processor Adjustments.debit_adjustment_processor
  get_preprocessor-IsReading WorkflowName.card_withdrawal r h = (
    _,
    refl,
    converting-IsReading _ (Processors.convert_card_withdrawal env) (λ _ _. refl)
        r.card_withdrawal_request,
  )
  get_preprocessor-IsReading WorkflowName.card_reversal r h = (
    _,
    refl,
    converting-IsReading _ (Processors.convert_reversal env)
        (λ q reference. reversal_names q reference) r.card_reversal_request,
  )
  get_preprocessor-IsReading WorkflowName.card_credit_adjustment r h = (
    _,
    refl,
    drawing-IsReading _ (Adjustments.convert_card_credit_adjustment env) (λ _ _. refl)
        r.card_credit_adjustment_request,
  )
  get_preprocessor-IsReading WorkflowName.card_debit_adjustment r h = (
    _,
    refl,
    drawing-IsReading _ (Adjustments.convert_card_debit_adjustment env) (λ _ _. refl)
        r.card_debit_adjustment_request,
  )
  get_preprocessor-IsReading WorkflowName.credit_adjustment r h = (
    _,
    refl,
    converting-IsReading _ (Adjustments.convert_credit_adjustment env) (λ _ _. refl)
        r.credit_adjustment_request,
  )
  get_preprocessor-IsReading WorkflowName.debit_adjustment r h = (
    _,
    refl,
    converting-IsReading _ (Adjustments.convert_debit_adjustment env) (λ _ _. refl)
        r.debit_adjustment_request,
  )
  get_preprocessor-IsReading WorkflowName.payroll_deposit r h =
      (_, refl, payroll-IsReading r.payroll_deposit_request)
  get_preprocessor-IsReading WorkflowName.payroll_processing r h = cc
  get_preprocessor-IsReading WorkflowName.bulk_add_employees r h = cc
  get_preprocessor-IsReading WorkflowName.wallet_deposit r h = cc
  get_preprocessor-IsReading WorkflowName.wallet_withdrawal r h = cc
  get_preprocessor-IsReading WorkflowName.wallet_transfer r h = cc
