-- ===== src/Transactions/Booked.antt =====
-- `validateAndSaveTransaction`: what it has booked when it returns, and that it leaves nothing
-- behind when it refuses.
use noba_server.Common.Base.{
  ◌≡◌, ◌≢◌, refl, sym, ◌∙◌, ap, subst, subst₃, Option, none, some, true, false, ◌⊎◌, inl, inr,
  arith, Bool-cases, is_empty, str_eq_iff,
}
use noba_server.Common.Action.{Result, ok, err}
use noba_server.Common.Inversion.{Result-cases}
use noba_server.Common.Exception.{
  Exception, database_internal_error_exception, invalid_database_record_exception,
}
use noba_server.Transactions.Domain.{WorkflowName, InputTransaction, Transaction}
use noba_server.Transactions.Requests.{
  InitiateTransactionRequest, CardReversalTransactionRequest, validate_initiate_transaction_request,
}
use noba_server.Transactions.Environment.{Environment, World, TransactionProcessor}
use noba_server.Transactions.Validation.{has_unexpected_id}
use noba_server.Transactions.Repo.{create_transaction}
use noba_server.Transactions.Processors
use noba_server.Transactions.Service.{
  get_preprocessor, is_implemented, process, validate_and_save_transaction,
}
use noba_server.Transactions.Preprocessing.{IsReading, get_preprocessor-IsReading}
use noba_server.Transactions.Saved.{
  IsCreated, create_transaction-IsCreated, create_transaction_refused,
}

module _ {D : Type 0} (env : Environment D) where
  -- A run of a processor that returned.
  pub record ProcessRun (p : TransactionProcessor D) (w w' : World D) (t : Transaction)
      : Type 0 where
    pub input : InputTransaction
    pub between : World D
    pub validated : (p.validate w).0 ≡ ok tt
    pub converted : (p.convert_to_repo_input_transaction (p.validate w).1).0 ≡ ok input
    pub created : IsCreated env input w.database w'.database t

  module _ {type : WorkflowName} {p : TransactionProcessor D} (reading : IsReading type p)
      (w : World D) where
    abbrev converting : Result InputTransaction × World D
    converting = p.convert_to_repo_input_transaction (p.validate w).1

    converting-database : converting.1.database ≡ w.database
    converting-database = reading.convert (p.validate w).1 ∙ reading.validate w

    process-ProcessRun :
        {w' : World D} {t : Transaction} → process env p w ≡ (ok t, w') → ProcessRun p w w' t
    unfolding process
    process-ProcessRun {w'} {t} e = elim (Result-cases (p.validate w).0) [
      | inr (x, q) ↦ absurd (ground arith)
      | inl (u, q) ↦ elim (Result-cases converting.0) [
        | inr (x, r) ↦ absurd (ground arith)
        | inl (input, r) ↦ elim (Result-cases (create_transaction env input converting.1).0) [
          | inr (x, s) ↦ absurd (ground arith)
          | inl (t', s) ↦
              let posted = reading.post t' (create_transaction env input converting.1).1 in
              let same : t' ≡ t = ground (arith, posted) in
              let final : (create_transaction env input converting.1).1 ≡ w' =
                ground (arith, posted) in
              let created = create_transaction-IsCreated env input converting.1 s in
              record {
                input = input;
                between = converting.1;
                validated = cc q;
                converted = cc r;
                created =
                    subst₃ (IsCreated env input) converting-database
                      (ap (λ (v : World D). v.database) final) same created;
              }
        ]
      ]
    ]

    process_refused :
        {e : Exception}
        → (process env p w).0 ≡ err e
        → e ≢ database_internal_error_exception
        → e ≢ invalid_database_record_exception
        → (process env p w).1.database ≡ w.database
    unfolding process
    process_refused {e} h k l = elim (Result-cases (p.validate w).0) [
      | inr (x, q) ↦ ground (arith, reading.validate w)
      | inl (u, q) ↦ elim (Result-cases converting.0) [
        | inr (x, r) ↦ ground (arith, converting-database)
        | inl (input, r) ↦ elim (Result-cases (create_transaction env input converting.1).0) [
          | inl (t, s) ↦
              absurd (ground (arith, reading.post t (create_transaction env input converting.1).1))
          | inr (x, s) ↦
              let same : x ≡ e = ground arith in
              let kept =
                create_transaction_refused env input converting.1 s (λ f. k (sym same ∙ f))
                  (λ f. l (sym same ∙ f)) in
              ground (arith, kept, converting-database)
        ]
      ]
    ]

  -- What a request has booked: a transaction of its workflow, created from a valid input.
  pub record IsBooked (r : InitiateTransactionRequest) (d d' : D) (t : Transaction) : Type 0 where
    pub implemented : is_implemented r.type ≡ true
    pub single : validate_initiate_transaction_request r ≡ true
    pub input : InputTransaction
    pub names : input.workflow_name ≡ r.type
    pub created : IsCreated env input d d' t

  module _ (r : InitiateTransactionRequest) (w : World D) where
    saving :
        {p : TransactionProcessor D}
        → is_implemented r.type ≡ true
        → validate_initiate_transaction_request r ≡ true
        → get_preprocessor env r.type r ≡ ok p
        → validate_and_save_transaction env r w ≡ process env p w
    unfolding validate_and_save_transaction
    saving h k q = ground arith

    guarded :
        {t : Transaction}
        → (validate_and_save_transaction env r w).0 ≡ ok t
        → (is_implemented r.type ≡ true) × (validate_initiate_transaction_request r ≡ true)
    unfolding validate_and_save_transaction
    guarded e = (ground arith, ground arith)

    unguarded :
        (is_implemented r.type ≡ false) ⊎ (validate_initiate_transaction_request r ≡ false)
        → (validate_and_save_transaction env r w).1 ≡ w
    unfolding validate_and_save_transaction
    unguarded h = ground arith

    -- A request that returns a transaction is one of the workflows that are implemented, carries
    -- just one of the requests, and has created the transaction in the database, by the one call
    -- of it, from a valid input of that workflow, with a debit or a credit side, and with an id
    -- only for a card withdrawal.
    pub validate_and_save-IsBooked :
        {w' : World D} {t : Transaction}
        → validate_and_save_transaction env r w ≡ (ok t, w')
        → IsBooked r w.database w'.database t
    validate_and_save-IsBooked {w'} {t} e =
        let (implemented, single) = guarded {t = t} (cc e) in
        let (p, found, reading) = get_preprocessor-IsReading env r.type r implemented in
        let run =
          process-ProcessRun reading w {w' = w'} {t = t}
            (sym (saving implemented single found) ∙ e) in
        record {
          implemented = implemented;
          single = single;
          input = run.input;
          names = reading.names (p.validate w).1 run.converted;
          created = run.created;
        }

    -- A request that throws anything but the two errors of the database leaves the database as it
    -- was.
    pub validate_and_save_refused :
        {w' : World D} {e : Exception}
        → validate_and_save_transaction env r w ≡ (err e, w')
        → e ≢ database_internal_error_exception
        → e ≢ invalid_database_record_exception
        → w'.database ≡ w.database
    validate_and_save_refused {w'} {e} h k l = elim (Bool-cases (is_implemented r.type)) [
      | inr missing ↦ cc (unguarded (inl missing), h)
      | inl implemented ↦ elim (Bool-cases (validate_initiate_transaction_request r)) [
        | inr several ↦ cc (unguarded (inr several), h)
        | inl single ↦
            let (p, found, reading) = get_preprocessor-IsReading env r.type r implemented in
            let same = saving implemented single found in
            cc (process_refused reading w {e = e} (cc (same, h)) k l, same, h)
      ]
    ]

  -- An input of a reversal has an id, which only a card withdrawal may have.
  reversal_has_id :
      env.joi.required_string "" ≡ false
      → (request : Option CardReversalTransactionRequest) (w : World D) {input : InputTransaction}
      → let p = Processors.card_reversal_processor env request in
        (p.validate w).0 ≡ ok tt
        → (p.convert_to_repo_input_transaction (p.validate w).1).0 ≡ ok input
        → has_unexpected_id env.joi input ≡ true
  unfolding Processors.card_reversal_processor has_unexpected_id
  reversal_has_id law none w h k = ground arith
  reversal_has_id law (some q) w h k = elim (Bool-cases (is_empty q.noba_transaction_id)) [
    | inl empty ↦
        let blank : q.noba_transaction_id ≡ "" = (str_eq_iff q.noba_transaction_id "").0 empty in
        absurd (ground (arith, law, blank))
    | inr given ↦ ground arith
  ]

  reversal_found :
      (r : InitiateTransactionRequest)
      → get_preprocessor env WorkflowName.card_reversal r
        ≡ ok (Processors.card_reversal_processor env r.card_reversal_request)
  unfolding get_preprocessor
  reversal_found r = refl

  -- If Joi refuses an empty string, a request for the reversal of a card transaction never
  -- returns a transaction, whatever it asks for.
  pub card_reversal-never-saved :
      env.joi.required_string "" ≡ false
      → (r : InitiateTransactionRequest) (w : World D) → r.type ≡ WorkflowName.card_reversal
      → (t : Transaction) (w' : World D) → validate_and_save_transaction env r w ≢ (ok t, w')
  card_reversal-never-saved law r w reversal t w' e =
      let p = Processors.card_reversal_processor env r.card_reversal_request in
      let (implemented, single) = guarded r w {t = t} (cc e) in
      let found : get_preprocessor env r.type r ≡ ok p = cc (reversal_found r, reversal) in
      let (p', found', other) = get_preprocessor-IsReading env WorkflowName.card_reversal r refl in
      let same : p' ≡ p = cc (found', reversal_found r) in
      let run =
        process-ProcessRun (subst (IsReading WorkflowName.card_reversal) same other) w {w' = w'}
          {t = t} (sym (saving r w implemented single found) ∙ e) in
      cc (
        reversal_has_id law r.card_reversal_request w run.validated run.converted,
        run.created.identified,
      )
