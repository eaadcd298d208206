-- ===== src/Mono/Webhook.antt =====
-- src/modules/mono/webhook/mono.webhook.service.ts, on events that were checked and converted.
use noba_server.Common.Base.{
  String, Bool, false, ◌||◌, Option, none, some, List, [], ◌∷◌, str_eq, is_empty, if◌then◌else◌,
}
use noba_server.Common.Alert.{
  error, critical, mono_transaction_not_found, unmatched_account_credited_mono_event,
}
use noba_server.Common.Action.{Action, pure, ◌>>=◌, ◌>>◌}
use noba_server.Transactions.Domain.{Payroll}
use noba_server.Mono.Domain.{
  MonoTransaction, MonoTransactionState, MonoTransactionUpdateRequest,
  CollectionIntentCreditedEvent, BankTransferApprovedEvent, BankTransferRejectedEvent,
  MonoAccountCreditedEvent, MonoEvent,
}
use noba_server.Mono.Environment.{Environment, World, raise_alert, ask_payrolls, write_payrolls}
use noba_server.Mono.Repo

-- `payrolls2.findIndex(p => p.id === payroll.id) !== -1`
abbrev pub has_id : String → List Payroll → Bool
has_id id [] = false
has_id id (p ∷ payrolls) = str_eq p.id id || has_id id payrolls

-- The payrolls of the first list that are in the second.
unfoldable pub matching_both : List Payroll → List Payroll → List Payroll
matching_both [] others = []
matching_both (p ∷ payrolls) others =
    if has_id p.id others then p ∷ matching_both payrolls others else matching_both payrolls others

module _ {B M E : Type 0} (env : Environment B M E) where
  -- An update of the transaction that was found, or an alert.
  unfoldable pub update_found :
      Option MonoTransaction → MonoTransactionUpdateRequest → Action (World B M E) (Unit {0})
  update_found none request = raise_alert (critical mono_transaction_not_found)
  update_found (some t) request = Repo.update_mono_transaction env t.id request >> pure tt

  unfoldable pub process_collection_intent_credited_event :
      CollectionIntentCreditedEvent → Action (World B M E) (Unit {0})
  process_collection_intent_credited_event event = do
    found ← Repo.get_mono_transaction_by_collection_link_id env event.collection_link_id
    update_found found (record {
      mono_payment_transaction_id = some event.mono_transaction_id;
      state = some MonoTransactionState.success;
      declination_reason = none;
    })

  unfoldable pub process_bank_transfer_approved_event :
      BankTransferApprovedEvent → Action (World B M E) (Unit {0})
  process_bank_transfer_approved_event event = do
    found ← Repo.get_mono_transaction_by_transfer_id env event.transfer_id
    update_found found (record {
      mono_payment_transaction_id = none;
      state = some MonoTransactionState.success;
      declination_reason = none;
    })

  unfoldable pub process_bank_transfer_rejected_event :
      BankTransferRejectedEvent → Action (World B M E) (Unit {0})
  process_bank_transfer_rejected_event event = do
    found ← Repo.get_mono_transaction_by_transfer_id env event.transfer_id
    update_found found (record {
      mono_payment_transaction_id = none;
      state = some event.state;
      declination_reason = some event.declination_reason;
    })

  abbrev pub fund : MonoAccountCreditedEvent → Payroll → Action (World B M E) (Unit {0})
  fund event p = write_payrolls (env.fund_payroll p.id event.transaction_id) >> pure tt

  -- A search that is made only for a field that is not empty.
  abbrev pub unless_empty :
      String → Action (World B M E) (List Payroll) → Action (World B M E) (List Payroll)
  unless_empty field m = if is_empty field then pure [] else m

  -- The only payroll of a list is funded, and else the rest is done.
  abbrev pub fund_only_or :
      MonoAccountCreditedEvent
      → List Payroll
      → Action (World B M E) (Unit {0})
      → Action (World B M E) (Unit {0})
  fund_only_or event (p ∷ []) rest = fund event p
  fund_only_or event [] rest = rest
  fund_only_or event (_ ∷ _ ∷ _) rest = rest

  -- The payrolls that match by name were searched for, too.
  unfoldable pub fund_by_name_or_both :
      MonoAccountCreditedEvent
      → (by_number by_name : List Payroll) → Action (World B M E) (Unit {0})
  fund_by_name_or_both event by_number by_name = fund_only_or event by_name (
      fund_only_or event (matching_both by_number by_name)
        (raise_alert (critical unmatched_account_credited_mono_event)))

  unfoldable pub fund_matching :
      MonoAccountCreditedEvent → (by_number : List Payroll) → Action (World B M E) (Unit {0})
  fund_matching event by_number = fund_only_or event by_number (
      unless_empty event.payer_name
        (ask_payrolls (env.payrolls_by_name event.amount event.payer_name))
      >>= fund_by_name_or_both event by_number)

  unfoldable pub process_account_credited_event :
      MonoAccountCreditedEvent → Action (World B M E) (Unit {0})
  process_account_credited_event event =
      unless_empty event.payer_document_number
        (ask_payrolls (env.payrolls_by_document_number event.amount event.payer_document_number))
      >>= fund_matching event

  unfoldable pub process_webhook_event : MonoEvent → Action (World B M E) (Unit {0})
  process_webhook_event (MonoEvent.collection_intent_credited event) =
      process_collection_intent_credited_event event
  process_webhook_event (MonoEvent.bank_transfer_approved event) =
      process_bank_transfer_approved_event event
  process_webhook_event (MonoEvent.bank_transfer_rejected event) =
      process_bank_transfer_rejected_event event
  process_webhook_event (MonoEvent.account_credited event) = process_account_credited_event event
  process_webhook_event MonoEvent.batch_sent = pure tt
  process_webhook_event MonoEvent.unexpected = raise_alert error
