-- ===== src/Pomelo/Debited.antt =====
-- What an authorization that is answered APPROVED has booked and debited.
use noba_server.Common.Base.{◌≡◌, refl, String, some, ◌⊎◌, inl, inr, arith}
use noba_server.Common.Amount.{Amount}
use noba_server.Common.Action.{ok}
use noba_server.Common.Inversion.{Result-cases}
use noba_server.Common.Outcome.{run-eq-ok}
use noba_server.Circle.Domain.{CircleTransferStatus, UpdateWalletBalanceServiceDto}
use noba_server.Transactions.Domain.{Transaction, Rate}
use noba_server.Transactions.Requests.{InitiateTransactionRequest}
use noba_server.Pomelo.Domain.{
  TransactionDetails, PomeloTransaction, PomeloTransactionAuthzResponse,
  PomeloTransactionAuthzDetailStatus,
}
use noba_server.Pomelo.Environment.{Environment, World, serve}
use noba_server.Pomelo.Answers.{prepare_authorization_response}
use noba_server.Pomelo.Repo
use noba_server.Pomelo.Steps
use noba_server.Pomelo.Authorize.{debit_authorized, answer_authorization, withdrawal_request}

abbrev pub IsApproved : PomeloTransactionAuthzResponse → Type 0
IsApproved r = r.detailed_status ≡ PomeloTransactionAuthzDetailStatus.approved

module _ {S P : Type 0} (env : Environment S P) where
  -- A transaction of the request was saved, or one with its id was there.
  abbrev pub IsBookedAs : InitiateTransactionRequest → String → Transaction → S → S → Type 0
  IsBookedAs request id t s s' =
      (env.services.validate_and_save_transaction request s ≡ (ok t, s'))
      ⊎ (env.services.get_transaction_by_transaction_id id
            (env.services.validate_and_save_transaction request s).1
          ≡ (ok (some t), s'))

  -- The amount of a quote is booked, and its debit succeeds.
  pub record IsDebitedFor (d : TransactionDetails) (t : PomeloTransaction)
      (consumer wallet : String) (quoted : Amount × Rate) (s s' : S) : Type 0 where
    pub booked : Transaction
    pub dto : UpdateWalletBalanceServiceDto
    pub between : S
    pub booking :
        IsBookedAs
          (withdrawal_request env d t consumer quoted)
          t.noba_transaction_id
          booked
          s
          between
    pub debited :
        env.services.debit_wallet_balance booked.id wallet booked.debit_amount between
        ≡ (ok dto, s')
    pub success : dto.status ≡ CircleTransferStatus.success

  answer_approved :
      (id : String) (status : CircleTransferStatus) (w : World S P) {w' : World S P}
      {r : PomeloTransactionAuthzResponse}
      → answer_authorization env id status w ≡ (ok r, w')
      → IsApproved r
      → (status ≡ CircleTransferStatus.success) × (w'.services ≡ w.services)
  unfolding answer_authorization Repo.update_pomelo_transaction_status
      prepare_authorization_response
  answer_approved id CircleTransferStatus.success w h a = (refl, ground arith)
  answer_approved id CircleTransferStatus.transfer_failed w h a = absurd (ground arith)
  answer_approved id CircleTransferStatus.insufficient_funds w h a = absurd (ground arith)

  pub booking-eq-ok :
      (request : InitiateTransactionRequest) (id : String) (w : World S P) {w' : World S P}
      {t : Transaction}
      → Steps.get_or_create_card_withdrawal_noba_transaction env request id w ≡ (ok t, w')
      → IsBookedAs request id t w.services w'.services
  unfolding Steps.get_or_create_card_withdrawal_noba_transaction
  booking-eq-ok request id w h =
      elim (Result-cases (env.services.validate_and_save_transaction request w.services).0) [
        | inl (saved, p) ↦ inl (ground arith)
        | inr (e, p) ↦ inr (ground arith)
      ]

  pub debit_approved :
      (d : TransactionDetails) (t : PomeloTransaction) (consumer wallet : String)
      (quoted : Amount × Rate) (w : World S P) {w' : World S P} {r : PomeloTransactionAuthzResponse}
      → debit_authorized env d t consumer wallet quoted w ≡ (ok r, w')
      → IsApproved r
      → IsDebitedFor d t consumer wallet quoted w.services w'.services
  unfolding debit_authorized
  debit_approved d t consumer wallet quoted w h a =
      let request = withdrawal_request env d t consumer quoted in
      let x1 =
        Steps.get_or_create_card_withdrawal_noba_transaction env request t.noba_transaction_id w in
      let (booked, p1, q1) = run-eq-ok x1 h in
      let x2 =
        serve (env.services.debit_wallet_balance booked.id wallet booked.debit_amount) x1.1 in
      let (dto, p2, q2) = run-eq-ok x2 q1 in
      let (success, same) = answer_approved t.pomelo_transaction_id dto.status x2.1 q2 a in
      record {
        booked = booked;
        dto = dto;
        between = x1.1.services;
        booking = booking-eq-ok request t.noba_transaction_id w p1;
        debited = ground (arith, same);
        success = success;
      }
