-- ===== src/Mono/Events.antt =====
-- What the webhook records of the bank's transfers and of the payments over links.
use noba_server.Common.Base.{◌≡◌, ◌⊎◌, inl, inr, Option, some, none, ◌∷◌, arith, refl}
use noba_server.Common.Alert.{critical, mono_transaction_not_found}
use noba_server.Common.Action.{Result, ok, ◌>>=◌}
use noba_server.Common.Inversion.{Result-cases}
use noba_server.Mono.Domain.{
  MonoRow, MonoTransactionState, MonoTransactionUpdateRequest, MonoEvent, BankTransferApprovedEvent,
  BankTransferRejectedEvent, CollectionIntentCreditedEvent,
}
use noba_server.Mono.Environment.{Environment, World}
use noba_server.Mono.Assumptions.{UpdateLaw}
use noba_server.Mono.Repo
use noba_server.Mono.Webhook.{
  update_found, process_collection_intent_credited_event, process_bank_transfer_approved_event,
  process_bank_transfer_rejected_event, process_webhook_event,
}

module _ {B M E : Type 0} (env : Environment B M E) where
  -- The row that an event is about is the one that this search gives, and this is its new state.
  pub data Announces
      : MonoEvent → (M → Result (Option MonoRow)) → MonoTransactionState → Type 0 where
    credited :
        (event : CollectionIntentCreditedEvent)
        → Announces
            (MonoEvent.collection_intent_credited event)
            (env.find_by_collection_link_id event.collection_link_id)
            MonoTransactionState.success
    approved :
        (event : BankTransferApprovedEvent)
        → Announces
            (MonoEvent.bank_transfer_approved event)
            (env.find_by_transfer_id event.transfer_id)
            MonoTransactionState.success
    rejected :
        (event : BankTransferRejectedEvent)
        → Announces
            (MonoEvent.bank_transfer_rejected event)
            (env.find_by_transfer_id event.transfer_id)
            event.state

  -- The row has the state, and is the same row but for what was updated; only the table changed.
  pub record IsUpdated (find : M → Result (Option MonoRow)) (state : MonoTransactionState)
      (w w' : World B M E) : Type 0 where
    pub before : MonoRow
    pub after : MonoRow
    pub was : find w.table ≡ ok (some before)
    pub is : find w'.table ≡ ok (some after)
    pub same_id : after.id ≡ before.id
    pub same_transaction : after.noba_transaction_id ≡ before.noba_transaction_id
    pub updated : after.state ≡ state
    pub rest : w' ≡ record w { table = w'.table }

  abbrev pub IsRecorded :
      (M → Result (Option MonoRow)) → MonoTransactionState → World B M E → World B M E → Type 0
  IsRecorded find state w w' =
      IsUpdated find state w w'
      ⊎ ((find w.table ≡ ok none)
          × (w' ≡ record w { alerts = critical mono_transaction_not_found ∷ w.alerts }))

  update_found-IsUpdated :
      (find : M → Result (Option MonoRow)) (request : MonoTransactionUpdateRequest)
      (state : MonoTransactionState) (row : MonoRow) (w : World B M E) {w' : World B M E}
      → UpdateLaw env find
      → request.state ≡ some state
      → find w.table ≡ ok (some row)
      → update_found env (Repo.domain_of env (some row)) request w ≡ (ok tt, w')
      → IsUpdated find state w w'
  unfolding update_found Repo.update_mono_transaction Repo.convert_to_domain_transaction
      Repo.to_update_input
  update_found-IsUpdated find request state row w {w'} law told found h =
      let input = Repo.to_update_input request in
      elim (Result-cases (env.update row.id input w.table).0) [
        | inl (saved, p) ↦
            let (is, id, transaction, updated) =
              law input w.table w'.table row saved found (ground arith) in
            record {
              before = row;
              after = saved;
              was = found;
              is = is;
              same_id = id;
              same_transaction = transaction;
              updated = ground (arith, updated, told);
              rest = ground arith;
            }
        | inr (e, p) ↦ absurd (ground arith)
      ]

  none_lem :
      (request : MonoTransactionUpdateRequest) (w : World B M E) {w' : World B M E}
      → update_found env none request w ≡ (ok tt, w')
      → w' ≡ record w { alerts = critical mono_transaction_not_found ∷ w.alerts }
  unfolding update_found
  none_lem request w h = ground arith

  search-IsRecorded :
      (find : M → Result (Option MonoRow)) (request : MonoTransactionUpdateRequest)
      (state : MonoTransactionState) (w : World B M E) {w' : World B M E}
      → UpdateLaw env find
      → request.state ≡ some state
      → (Repo.search env find >>= λ found. update_found env found request) w ≡ (ok tt, w')
      → IsRecorded find state w w'
  unfolding Repo.search
  search-IsRecorded find request state w {w'} law told h = elim (Result-cases (find w.table)) [
    | inl (some row, p) ↦
        inl (update_found-IsUpdated find request state row w law told p (ground arith))
    | inl (none, p) ↦ inr (p, none_lem request w (ground arith))
    | inr (e, p) ↦ absurd (ground arith)
  ]

  -- Where an update of a row that a search gives sets its state and keeps it found, the event of a
  -- transfer or of a payment over a link that is processed has set the state that it announces in
  -- the row that it is about, and changed no other part of the state, or there is no such row, and
  -- it has only raised MONO_TRANSACTION_NOT_FOUND.
  pub process_webhook_event-IsRecorded :
      {find : M → Result (Option MonoRow)} {state : MonoTransactionState} (event : MonoEvent)
      (w : World B M E) {w' : World B M E}
      → Announces event find state
      → UpdateLaw env find
      → process_webhook_event env event w ≡ (ok tt, w')
      → IsRecorded find state w w'
  unfolding process_webhook_event process_collection_intent_credited_event
      process_bank_transfer_approved_event process_bank_transfer_rejected_event
      Repo.get_mono_transaction_by_collection_link_id Repo.get_mono_transaction_by_transfer_id
  process_webhook_event-IsRecorded {find} {state} _ w (credited event) law h =
      search-IsRecorded find _ state w law refl h
  process_webhook_event-IsRecorded {find} {state} _ w (approved event) law h =
      search-IsRecorded find _ state w law refl h
  process_webhook_event-IsRecorded {find} {state} _ w (rejected event) law h =
      search-IsRecorded find _ state w law refl h
