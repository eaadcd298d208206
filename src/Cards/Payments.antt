-- ===== src/Cards/Payments.antt =====
-- What the approval of a card payment moves at Circle, with the services that the server wires.
use noba_server.Common.Base.{
  ◌≡◌, ◌≢◌, ap, sym, subst, arith, ◌∙◌, String, ◌⊎◌, inl, inr, some, none,
}
use noba_server.Common.Amount.{Amount}
use noba_server.Common.Action.{Action, ok}
use noba_server.Circle.Domain.{UpdateWalletBalanceServiceDto}
use noba_server.Circle.Environment as Circle
use noba_server.Circle.Assumptions.{Ledger, CircleLaws}
use noba_server.Circle.Service as CircleService
use noba_server.Transactions.Domain.{Transaction}
use noba_server.Transactions.Requests.{InitiateTransactionRequest}
use noba_server.Pomelo.Domain.{
  TransactionDetails, PomeloTransaction, PomeloTransactionAuthzRequest,
  PomeloTransactionAuthzResponse, PomeloTransactionStatus, PomeloTransactionSaveRequest,
}
use noba_server.Pomelo.Environment as Pomelo
use noba_server.Pomelo.Repo
use noba_server.Pomelo.Steps
use noba_server.Pomelo.Authorize.{authorize_transaction}
use noba_server.Pomelo.Debited.{IsApproved, IsBookedAs}
use noba_server.Pomelo.Approved.{IsCharged, IsApprovedAs, authorize_transaction-IsApprovedAs}
use noba_server.Cards.Server.{World, Bookings, of_rest, wired}
use noba_server.Cards.Wallets.{
  IsStill, IsDebitedOnce, of_wallets-eq-ok, of_rest-IsStill, balance-IsStill, debit_once,
}

module _ {E D R S P : Type 0} (circle : Circle.Environment E D) (ledger : Ledger E)
    (bookings : Bookings R)
    (credit_nothing : String → String → Action (World E D R) UpdateWalletBalanceServiceDto)
    (pomelo : Pomelo.Environment S P) where
  abbrev pub server : Pomelo.Environment (World E D R) P
  server = wired circle bookings credit_nothing pomelo

  -- The holder's wallet is charged, and the money moves once: the balance that covers the purchase
  -- is the one at Circle, it stays until the debit, and the debit of the booked amount, under the id
  -- of the booking, moves it from the wallet to the master wallet, or is a retry and moves nothing.
  pub record IsPaidOnce (d : TransactionDetails) (t : PomeloTransaction) (p : P)
      (s s' : World E D R) : Type 0 where
    pub charge : IsCharged server d t p s s'
    pub amount : Amount
    pub booked : charge.paid.booked.debit_amount ≡ some amount
    pub read : charge.balance ≡ ledger.balance charge.wallet charge.s1.wallets.circle
    pub still : IsStill circle ledger charge.s1 charge.paid.between
    pub once :
        IsDebitedOnce circle ledger charge.paid.booked.id charge.wallet amount charge.paid.between
          s'

  -- No consumer is given the master wallet.
  abbrev pub IsSeparate : Circle.World E D → Type 0
  IsSeparate w =
      (consumer wallet : String) (w' : Circle.World E D)
      → CircleService.get_or_create_wallet circle consumer w ≡ (ok wallet, w')
      → wallet ≢ circle.master_wallet_id

  saved-services :
      (request : PomeloTransactionSaveRequest) (w : Pomelo.World (World E D R) P)
      → (Repo.create_pomelo_transaction server request w).1.services ≡ w.services
  unfolding Repo.create_pomelo_transaction
  saved-services request w = ground arith

  got-services :
      (request : PomeloTransactionSaveRequest) (w : Pomelo.World (World E D R) P)
      → (Steps.get_or_create_pomelo_transaction server request w).1.services ≡ w.services
  unfolding Steps.get_or_create_pomelo_transaction
      Repo.get_pomelo_transaction_by_pomelo_idempotency_key Repo.find_row
  got-services request w = ground (arith, saved-services request w)

  booked-IsStill :
      (request : InitiateTransactionRequest) (id : String) (booked : Transaction)
      (s between : World E D R)
      → IsBookedAs server request id booked s between
      → IsStill circle ledger s between
  booked-IsStill request id booked s between (inl saved) =
      of_rest-IsStill circle ledger (bookings.validate_and_save_transaction request) s saved
  booked-IsStill request id booked s between (inr found) =
      of_rest-IsStill circle ledger (bookings.get_transaction_by_transaction_id id)
        (of_rest (bookings.validate_and_save_transaction request) s).1 found

  charged_once :
      CircleLaws circle ledger
      → (d : TransactionDetails) (t : PomeloTransaction) (p : P) (s s' : World E D R)
      → IsSeparate s.wallets
      → IsCharged server d t p s s'
      → IsPaidOnce d t p s s'
  charged_once laws d t p s s' separate charge =
      let given =
        of_wallets-eq-ok circle ledger (CircleService.get_or_create_wallet circle charge.consumer) s
          charge.wallet_given in
      let user = separate charge.consumer charge.wallet charge.s1.wallets given in
      let (read, still1) =
        balance-IsStill circle ledger laws charge.wallet charge.s1 charge.balance_read in
      let still2 =
        of_rest-IsStill circle ledger (bookings.get_exchange_rate_for_currency_pair "USD" "COP")
          charge.s2 charge.rate_found in
      let still3 : IsStill circle ledger charge.s3 charge.paid.between =
        booked-IsStill _ t.noba_transaction_id charge.paid.booked charge.s3 charge.paid.between
          charge.paid.booking in
      let (amount, booked, once) =
        debit_once circle ledger laws bookings credit_nothing charge.paid.booked.id charge.wallet
          charge.paid.booked.debit_amount charge.paid.between charge.paid.debited
          charge.paid.success user in
      record {
        charge = charge;
        amount = amount;
        booked = booked;
        read = read;
        still = λ v. still3 v ∙ (still2 v ∙ still1 v);
        once = once;
      }

  -- Where Circle keeps its laws and the consumers' wallets are not the master wallet: a card payment
  -- that is answered APPROVED was approved before, and then no balance at Circle changes, or it was
  -- pending. Then the balance at Circle of the wallet of the card's holder covers the pesos at the
  -- rate that was found, and no balance changes from then until the debit of the amount that was
  -- booked. Where Circle has no transfer under the id of the booking, this moves the amount, rounded
  -- to cents, from the wallet to the master wallet and changes no other balance. Where Circle has
  -- recorded a transfer under that id, this one did not fail, and no balance changes.
  pub authorize_transaction-IsPaidOnce :
      CircleLaws circle ledger
      → (request : PomeloTransactionAuthzRequest) (w w' : Pomelo.World (World E D R) P)
        {r : PomeloTransactionAuthzResponse}
      → IsSeparate w.services.wallets
      → authorize_transaction server request w ≡ (ok r, w')
      → IsApproved r
      → (a : IsApprovedAs server request w w') × (((a.t.status ≡ PomeloTransactionStatus.approved)
            × IsStill circle ledger w.services w'.services)
          ⊎ ((a.t.status ≡ PomeloTransactionStatus.pending)
              × IsPaidOnce request.details a.t a.u.table w.services w'.services))
  authorize_transaction-IsPaidOnce laws request w w' separate h approved =
      let a = authorize_transaction-IsApprovedAs server request w h approved in
      let saving =
        Steps.save_request server request.call none request.details (pomelo.uuid w.drawn) in
      let drawn = (Pomelo.draw_uuid server w).1 in
      let got : a.u.services ≡ w.services =
        sym (ap (λ x. x.1.services) a.got) ∙ got-services saving drawn in
      (
        a,
        elim a.approved [
          | inl (before, same) ↦
              inl (before, λ v. ap (λ s. ledger.balance v s.wallets.circle) (same ∙ got))
          | inr (pending, charge) ↦ inr (
            pending,
            charged_once laws request.details a.t a.u.table w.services w'.services separate (
                subst (λ s. IsCharged server request.details a.t a.u.table s w'.services) got
                  charge),
          )
        ],
      )
