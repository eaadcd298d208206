-- ===== src/Pomelo/Replay.antt =====
-- That a call which is made again is answered as before, and moves no money.
use noba_server.Common.Base.{◌≡◌, ◌≢◌, refl, String, Bool-cases, none, some, inl, inr, arith}
use noba_server.Common.Action.{Action, ok}
use noba_server.Common.Outcome.{Ensures, Ends-ok, bind-Ensures, of_returned}
use noba_server.Pomelo.Domain.{
  PomeloTransaction, PomeloTransactionStatus, PomeloTransactionSaveRequest,
  PomeloTransactionAuthzDetailStatus, PomeloTransactionAuthzResponse, PomeloTransactionAuthzRequest,
  PomeloTransactionAdjustmentRequest,
}
use noba_server.Pomelo.Environment.{Environment, World, draw_uuid}
use noba_server.Pomelo.Assumptions.{TableLaws}
use noba_server.Pomelo.Answers.{is_pending}
use noba_server.Pomelo.Signature.{transaction_authz_endpoint, transaction_adjustment_endpoint}
use noba_server.Pomelo.Repo
use noba_server.Pomelo.Steps
use noba_server.Pomelo.Authorize.{authorize_transaction, authorize_pending}
use noba_server.Pomelo.Adjust.{adjust_transaction, adjust_pending}
use noba_server.Pomelo.Guards.{guarded-eq-ok, process-eq-ok}
use noba_server.Pomelo.Stored.{HasRow, IsStored, authorize_pending-Stores, adjust_pending-Stores}

module _ {S P : Type 0} (env : Environment S P) (laws : TableLaws env) where
  get_or_create-HasRow :
      (r : PomeloTransactionSaveRequest) (key : String)
      → r.pomelo_idempotency_key ≡ key
      → Ensures
          (λ _. Unit {0})
          (Steps.get_or_create_pomelo_transaction env r)
          (λ t w. HasRow env key t w.table)
          (λ _. Unit {0})
  unfolding Steps.get_or_create_pomelo_transaction Repo.create_pomelo_transaction
      Repo.to_create_input Repo.get_pomelo_transaction_by_pomelo_idempotency_key
  get_or_create-HasRow r key named = of_returned _ λ u t u' _ e.
      let made = env.create (Repo.to_create_input env r) PomeloTransactionStatus.pending u.table in
      ground (
        arith,
        laws.created (Repo.to_create_input env r) PomeloTransactionStatus.pending u.table {row = t}
            {p' = made.1},
      )

  -- With a row under the key, that row is found, and neither the table nor the services change.
  get_or_create_again :
      (r : PomeloTransactionSaveRequest) (key : String) (w : World S P) (row : PomeloTransaction)
      → r.pomelo_idempotency_key ≡ key
      → HasRow env key row w.table
      → let again = Steps.get_or_create_pomelo_transaction env r w in
        (again.0 ≡ ok row) × (again.1.services ≡ w.services) × (again.1.table ≡ w.table)
  unfolding Steps.get_or_create_pomelo_transaction Repo.create_pomelo_transaction
      Repo.to_create_input Repo.get_pomelo_transaction_by_pomelo_idempotency_key
  get_or_create_again r key w row named h =
      let (e, refused) =
        laws.unique (Repo.to_create_input env r) PomeloTransactionStatus.pending w.table {row = row}
          (ground arith) in
      (ground (arith, refused), ground (arith, refused), ground (arith, refused))

  -- What both webhooks save and work with, under one key.
  module _ (key : String) (saving : String → PomeloTransactionSaveRequest)
      (keyed : (id : String) → (saving id).pomelo_idempotency_key ≡ key)
      (work : PomeloTransaction → Action (World S P) PomeloTransactionAuthzResponse) where
    abbrev Storing :
        Action (World S P) PomeloTransactionAuthzResponse → (World S P → Type 0) → Type 0
    Storing m P = Ensures P m (IsStored env key) (λ _. Unit {0})

    answer_stored-Storing :
        (t : PomeloTransaction)
        → Storing (work t) (λ w. HasRow env key t w.table)
        → Storing (Steps.answer_stored env work t) (λ w. HasRow env key t w.table)
    answer_stored-Storing t h = elim (Bool-cases (is_pending t.status)) [
      | inl pending ↦ rw pending h
      | inr settled ↦ rw settled (record {
        apply = λ w found. record { row = t; found = found; settled = settled; answer = refl };
      })
    ]

    attempt-Storing :
        ((t : PomeloTransaction) → Storing (work t) (λ w. HasRow env key t w.table))
        → Storing (Steps.attempt env saving work) (λ _. Unit {0})
    unfolding Steps.attempt
    attempt-Storing stores =
        bind-Ensures (of_returned {Q = λ _ _. Unit {0}} (draw_uuid env) λ _ _ _ _ _. tt) λ id.
          bind-Ensures (get_or_create-HasRow (saving id) key (keyed id))
            λ t. answer_stored-Storing t (stores t)

    -- An answer of the webhook other than SYSTEM_ERROR is stored.
    process-IsStored :
        ((t : PomeloTransaction) → Storing (work t) (λ w. HasRow env key t w.table))
        → (w : World S P) {w' : World S P} {r : PomeloTransactionAuthzResponse}
        → Steps.process env saving work w ≡ (ok r, w')
        → r.detailed_status ≢ PomeloTransactionAuthzDetailStatus.system_error
        → IsStored env key r w'
    process-IsStored stores w h processed =
        Ends-ok (IsStored env key) (λ _. Unit {0}) (Steps.attempt env saving work w)
          ((attempt-Storing stores).apply w tt) (process-eq-ok env saving work w h processed)

    -- Where the answer is stored, the webhook gives it again, and touches neither the services
    -- nor the table.
    process_again :
        (w : World S P) {r : PomeloTransactionAuthzResponse}
        → IsStored env key r w
        → let again = Steps.process env saving work w in
          (again.0 ≡ ok r) × (again.1.services ≡ w.services) × (again.1.table ≡ w.table)
    unfolding Steps.process Steps.attempt
    process_again w stored =
        let drawn : World S P = (draw_uuid env w).1 in
        let id = env.uuid w.drawn in
        let (row, services, table) =
          get_or_create_again (saving id) key drawn stored.row (keyed id) stored.found in
        (
          ground (arith, row, stored.settled, stored.answer),
          ground (arith, row, services, stored.settled),
          ground (arith, row, table, stored.settled),
        )

  module _ (w : World S P) {w' : World S P} {r : PomeloTransactionAuthzResponse}
      (settled : r.detailed_status ≢ PomeloTransactionAuthzDetailStatus.other)
      (processed : r.detailed_status ≢ PomeloTransactionAuthzDetailStatus.system_error) where
    -- Where the table keeps its unique keys, a request to authorize that was answered with neither
    -- OTHER nor SYSTEM_ERROR is answered the same when it is made again, with the services and the
    -- table left as they are: an approved authorization debits once.
    pub authorize_transaction_again :
        (request : PomeloTransactionAuthzRequest)
        → authorize_transaction env request w ≡ (ok r, w')
        → let again = authorize_transaction env request w' in
          (again.0 ≡ ok r) × (again.1.services ≡ w'.services) × (again.1.table ≡ w'.table)
    unfolding authorize_transaction
    authorize_transaction_again request h =
        let key = request.call.idempotency_key in
        let saving = Steps.save_request env request.call none request.details in
        let work = authorize_pending env request.details in
        let (first, second) =
          guarded-eq-ok env transaction_authz_endpoint request.call (Steps.process env saving work)
            w h settled in
        let stored =
          process-IsStored key saving (λ id. refl) work
            (λ t. authorize_pending-Stores env laws key t request.details) w first processed in
        rw second (process_again key saving (λ id. refl) work w' stored)

    -- The same of a request to adjust.
    pub adjust_transaction_again :
        (request : PomeloTransactionAdjustmentRequest)
        → adjust_transaction env request w ≡ (ok r, w')
        → let again = adjust_transaction env request w' in
          (again.0 ≡ ok r) × (again.1.services ≡ w'.services) × (again.1.table ≡ w'.table)
    unfolding adjust_transaction
    adjust_transaction_again request h =
        let key = request.call.idempotency_key in
        let saving =
          Steps.save_request env request.call (some request.pomelo_original_transaction_id)
            request.details in
        let work = adjust_pending env request in
        let (first, second) =
          guarded-eq-ok env (transaction_adjustment_endpoint request.adjustment_type) request.call
            (Steps.process env saving work) w h settled in
        let stored =
          process-IsStored key saving (λ id. refl) work
            (λ t. adjust_pending-Stores env laws key t request) w first processed in
        rw second (process_again key saving (λ id. refl) work w' stored)
