-- ===== src/Pomelo/Stored.antt =====
-- That an answer other than OTHER and SYSTEM_ERROR is the stored status of the transaction.
use noba_server.Common.Base.{◌≡◌, refl, String, Bool, true, false, Option, some, inl, inr, arith}
use noba_server.Common.Action.{Action, ok}
use noba_server.Common.Inversion.{Result-cases}
use noba_server.Common.Outcome.{Ensures, bind-Ensures, returning, of_returned}
use noba_server.Circle.Domain.{CircleTransferStatus}
use noba_server.Transactions.Domain.{Rate}
use noba_server.Transactions.Requests.{InitiateTransactionRequest}
use noba_server.Common.Int.{ltb_ℤ}
use noba_server.Common.Amount.{Amount}
use noba_server.Pomelo.Domain.{
  PomeloTransaction, PomeloTransactionStatus, PomeloTransactionAuthzDetailStatus,
  PomeloTransactionAuthzResponse, TransactionDetails, PomeloTransactionAdjustmentRequest,
}
use noba_server.Pomelo.Environment.{Environment, World, serve}
use noba_server.Pomelo.Assumptions.{TableLaws}
use noba_server.Pomelo.Answers.{
  prepare_authorization_response, noba_pomelo_status_to_public_detail_status_map, is_pending,
  adjusted_amount,
}
use noba_server.Pomelo.Repo
use noba_server.Pomelo.Steps
use noba_server.Pomelo.Authorize.{
  authorize_pending, authorize_quoted, debit_authorized, answer_authorization, withdrawal_request,
}
use noba_server.Pomelo.Adjust.{
  adjust_pending, adjust_covered, transfer_adjustment, transfer_adjusted, answer_adjustment,
  is_uncovered, reversal_request,
}
use noba_server.Pomelo.Keeping.{
  table-Keeps, serve-table, consumer-table, quote-table, booking-table, parent-table,
  uncovered-table, transfer-table,
}

module _ {S P : Type 0} (env : Environment S P) where
  -- The row of an idempotency key.
  abbrev pub HasRow : String → PomeloTransaction → P → Type 0
  HasRow key t p = env.find_by_idempotency_key key p ≡ ok (some t)

  -- The row is no longer pending, and the answer is its status.
  pub record IsStored (key : String) (r : PomeloTransactionAuthzResponse) (w : World S P)
      : Type 0 where
    pub row : PomeloTransaction
    pub found : HasRow key row w.table
    pub settled : is_pending row.status ≡ false
    pub answer :
        r
        ≡ prepare_authorization_response (noba_pomelo_status_to_public_detail_status_map row.status)

  module _ (laws : TableLaws env) (key : String) (t : PomeloTransaction) where
    abbrev Stores : Action (World S P) PomeloTransactionAuthzResponse → Type 0
    Stores m = Ensures (λ w. HasRow key t w.table) m (IsStored key) (λ _. Unit {0})

    pub conclude-Stores :
        (s : PomeloTransactionStatus)
        → is_pending s ≡ false
        → Stores (
            Steps.conclude env t.pomelo_transaction_id s
              (noba_pomelo_status_to_public_detail_status_map s))
    unfolding Repo.update_pomelo_transaction_status
    conclude-Stores s settled = of_returned _ λ u r u' h e.
        elim (Result-cases (env.update_status t.pomelo_transaction_id s u.table).0) [
          | inr (x, p) ↦ absurd (ground arith)
          | inl (saved, p) ↦
              let (row', found, status) =
                laws.updated key s u.table {row = t} {saved = saved}
                  {p' = (env.update_status t.pomelo_transaction_id s u.table).1} h (ground arith) in
              record {
                row = row';
                found = ground (arith, found);
                settled = ground (arith, status);
                answer = ground (arith, status);
              }
        ]

    insufficient-Stores : Stores (Steps.insufficient env t.pomelo_transaction_id)
    insufficient-Stores = conclude-Stores PomeloTransactionStatus.insufficient_funds refl

    approve-Stores : Stores (
        Steps.conclude env t.pomelo_transaction_id PomeloTransactionStatus.approved
          PomeloTransactionAuthzDetailStatus.approved)
    approve-Stores = conclude-Stores PomeloTransactionStatus.approved refl

    keeping :
        {A : Type 0} (m : Action (World S P) A)
        → ((w : World S P) → (m w).1.table ≡ w.table)
        → Ensures (λ w. HasRow key t w.table) m (λ _ w. HasRow key t w.table) (λ _. Unit {0})
    keeping m same = returning m (table-Keeps (HasRow key t) m same)

    answer_authorization-Stores :
        (status : CircleTransferStatus)
        → Stores (answer_authorization env t.pomelo_transaction_id status)
    unfolding answer_authorization
    answer_authorization-Stores CircleTransferStatus.insufficient_funds = insufficient-Stores
    answer_authorization-Stores CircleTransferStatus.success = approve-Stores
    answer_authorization-Stores CircleTransferStatus.transfer_failed =
        of_returned _ λ u r u' h e. absurd (ground arith)

    serving :
        {A : Type 0} (m : Action S A)
        → Ensures
            (λ w. HasRow key t w.table)
            (serve m)
            (λ _ w. HasRow key t w.table)
            (λ _. Unit {0})
    serving m = keeping (serve m) (serve-table env m)

    booking :
        (request : InitiateTransactionRequest)
        → let m =
            Steps.get_or_create_card_withdrawal_noba_transaction env request
              t.noba_transaction_id in
          Ensures (λ w. HasRow key t w.table) m (λ _ w. HasRow key t w.table) (λ _. Unit {0})
    booking request =
        keeping
          (Steps.get_or_create_card_withdrawal_noba_transaction env request t.noba_transaction_id)
          (booking-table env request t.noba_transaction_id)

    holding :
        (user : String)
        → let m = Steps.get_noba_consumer_id_holding_pomelo_card env t.pomelo_card_id user in
          Ensures (λ w. HasRow key t w.table) m (λ _ w. HasRow key t w.table) (λ _. Unit {0})
    holding user =
        keeping (Steps.get_noba_consumer_id_holding_pomelo_card env t.pomelo_card_id user)
          (consumer-table env t.pomelo_card_id user)

    debit_authorized-Stores :
        (d : TransactionDetails) (consumer wallet : String) (quoted : Amount × Rate)
        → Stores (debit_authorized env d t consumer wallet quoted)
    unfolding debit_authorized
    debit_authorized-Stores d consumer wallet quoted =
        bind-Ensures (booking (withdrawal_request env d t consumer quoted)) λ booked.
          bind-Ensures
            (serving (env.services.debit_wallet_balance booked.id wallet booked.debit_amount))
            λ debited. answer_authorization-Stores debited.status

    authorize_quoted-Stores :
        (d : TransactionDetails) (consumer wallet : String) (quoted : Amount × Rate) (short : Bool)
        → Stores (authorize_quoted env d t consumer wallet quoted short)
    unfolding authorize_quoted
    authorize_quoted-Stores d consumer wallet quoted true = insufficient-Stores
    authorize_quoted-Stores d consumer wallet quoted false =
        debit_authorized-Stores d consumer wallet quoted

    pub authorize_pending-Stores : (d : TransactionDetails) → Stores (authorize_pending env d t)
    unfolding authorize_pending
    authorize_pending-Stores d = bind-Ensures (holding d.pomelo_user_id) λ consumer.
        bind-Ensures (serving (env.services.get_or_create_wallet consumer)) λ wallet.
          bind-Ensures (serving (env.services.get_wallet_balance wallet)) λ balance.
            bind-Ensures
              (keeping (Steps.get_cop_equivalent_usd_amount_to_deduct env t.local_amount)
                (quote-table env t.local_amount))
              λ quoted. authorize_quoted-Stores d consumer wallet quoted (ltb_ℤ balance quoted.0)

    answer_adjustment-Stores :
        (status : CircleTransferStatus)
        → Stores (answer_adjustment env t.pomelo_transaction_id status)
    unfolding answer_adjustment
    answer_adjustment-Stores CircleTransferStatus.insufficient_funds = insufficient-Stores
    answer_adjustment-Stores CircleTransferStatus.success = approve-Stores
    answer_adjustment-Stores CircleTransferStatus.transfer_failed =
        of_returned _ λ u r u' h e. absurd (ground arith)

    transfer_adjustment-Stores :
        (request : PomeloTransactionAdjustmentRequest) (consumer wallet : String)
        (quoted : Option Amount × Rate)
        → Stores (transfer_adjustment env request t consumer wallet quoted)
    unfolding transfer_adjustment
    transfer_adjustment-Stores request consumer wallet quoted =
        bind-Ensures (booking (reversal_request env request t consumer quoted)) λ booked.
          bind-Ensures
            (keeping (transfer_adjusted env request.adjustment_type booked.id wallet quoted.0)
              (transfer-table env request.adjustment_type booked.id wallet quoted.0))
            λ transferred. answer_adjustment-Stores transferred.status

    adjust_covered-Stores :
        (request : PomeloTransactionAdjustmentRequest) (consumer wallet : String)
        (quoted : Option Amount × Rate) (uncovered : Bool)
        → Stores (adjust_covered env request t consumer wallet quoted uncovered)
    unfolding adjust_covered
    adjust_covered-Stores request consumer wallet quoted true = insufficient-Stores
    adjust_covered-Stores request consumer wallet quoted false =
        transfer_adjustment-Stores request consumer wallet quoted

    pub adjust_pending-Stores :
        (request : PomeloTransactionAdjustmentRequest) → Stores (adjust_pending env request t)
    unfolding adjust_pending
    adjust_pending-Stores request =
        bind-Ensures (holding request.details.pomelo_user_id) λ consumer.
          bind-Ensures (serving (env.services.get_or_create_wallet consumer)) λ wallet.
            bind-Ensures
              (keeping
                (Steps.get_parent_noba_transaction env request.pomelo_original_transaction_id)
                (parent-table env request.pomelo_original_transaction_id))
              λ parent.
                bind-Ensures
                  (keeping
                    (is_uncovered env request.adjustment_type wallet (adjusted_amount parent))
                    (uncovered-table env request.adjustment_type wallet (adjusted_amount parent)))
                  λ uncovered.
                    adjust_covered-Stores request consumer wallet
                      (adjusted_amount parent, parent.exchange_rate) uncovered
