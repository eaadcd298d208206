-- ===== src/Pomelo/Approved.antt =====
-- What an authorization that is answered APPROVED has done: the wallet of the card's holder was read,
-- covers the amount, and was debited.
use noba_server.Common.Base.{
  ◌≡◌, refl, subst, String, Bool, true, false, none, some, ◌⊎◌, inl, inr, arith,
}
use noba_server.Common.Int.{◌≤ℤ◌, ltb_ℤ, le_of_ltb_false}
use noba_server.Common.Amount.{Amount}
use noba_server.Common.Action.{Action, ok}
use noba_server.Common.Inversion.{Result-cases}
use noba_server.Common.Outcome.{run-eq-ok}
use noba_server.Transactions.Domain.{Rate, round_product}
use noba_server.ExchangeRates.Domain.{ExchangeRateDto, inverse}
use noba_server.Pomelo.Domain.{
  TransactionDetails, PomeloTransaction, PomeloTransactionStatus, PomeloTransactionAuthzResponse,
  PomeloTransactionAuthzRequest,
}
use noba_server.Pomelo.Environment.{Environment, World, serve, draw_uuid}
use noba_server.Pomelo.Answers.{prepare_authorization_response}
use noba_server.Pomelo.Repo
use noba_server.Pomelo.Signature.{transaction_authz_endpoint}
use noba_server.Pomelo.Guards.{guarded-eq-ok, process-eq-ok}
use noba_server.Pomelo.Steps
use noba_server.Pomelo.Authorize.{authorize_transaction, authorize_pending, authorize_quoted}
use noba_server.Pomelo.Debited.{IsApproved, IsDebitedFor, debit_approved}

module _ {S P : Type 0} (env : Environment S P) where
  -- The cardholder's wallet is charged for the transaction `t`, from a state of the services to
  -- another: the card is his, his balance covers the pesos at the rate that was found, and the
  -- transaction that was booked is debited from the wallet.
  pub record IsCharged (d : TransactionDetails) (t : PomeloTransaction) (p : P) (s s' : S)
      : Type 0 where
    pub consumer : String
    pub wallet : String
    pub balance : Amount
    pub rate : ExchangeRateDto
    pub s1 : S
    pub s2 : S
    pub s3 : S
    pub holder : env.find_card_consumer t.pomelo_card_id d.pomelo_user_id p ≡ ok (some consumer)
    pub wallet_given : env.services.get_or_create_wallet consumer s ≡ (ok wallet, s1)
    pub balance_read : env.services.get_wallet_balance wallet s1 ≡ (ok balance, s2)
    pub rate_found :
        env.services.get_exchange_rate_for_currency_pair "USD" "COP" s2 ≡ (ok (some rate), s3)
    pub covered : round_product t.local_amount (inverse rate.noba_rate) ≤ℤ balance
    pub paid :
        IsDebitedFor env d t consumer wallet
          (round_product t.local_amount (inverse rate.noba_rate), inverse rate.noba_rate)
          s3
          s'

  serve-eq-ok :
      {A : Type 0} (m : Action S A) (w : World S P) {w' : World S P} {a : A}
      → serve m w ≡ (ok a, w')
      → m w.services ≡ (ok a, w'.services)
  serve-eq-ok m w h = ground arith

  holder-eq-ok :
      (card user : String) (w : World S P) {w' : World S P} {consumer : String}
      → Steps.get_noba_consumer_id_holding_pomelo_card env card user w ≡ (ok consumer, w')
      → (env.find_card_consumer card user w.table ≡ ok (some consumer)) × (w'.services ≡ w.services)
  unfolding Steps.get_noba_consumer_id_holding_pomelo_card
      Repo.get_noba_consumer_id_holding_pomelo_card
  holder-eq-ok card user w h = (ground arith, ground arith)

  quote-eq-ok :
      (amount : Amount) (w : World S P) {w' : World S P} {quoted : Amount × Rate}
      → Steps.get_cop_equivalent_usd_amount_to_deduct env amount w ≡ (ok quoted, w')
      → (rate : ExchangeRateDto) × (env.services.get_exchange_rate_for_currency_pair "USD" "COP"
            w.services
          ≡ (ok (some rate), w'.services))
        × (quoted ≡ (round_product amount (inverse rate.noba_rate), inverse rate.noba_rate))
  unfolding Steps.get_cop_equivalent_usd_amount_to_deduct
  quote-eq-ok amount w h =
      elim (Result-cases
        (env.services.get_exchange_rate_for_currency_pair "USD" "COP" w.services).0) [
          | inr (e, p) ↦ absurd (ground arith)
          | inl (none, p) ↦ absurd (ground arith)
          | inl (some rate, p) ↦ (rate, ground arith, ground arith)
        ]

  quoted_approved :
      (d : TransactionDetails) (t : PomeloTransaction) (consumer wallet : String)
      (quoted : Amount × Rate) (short : Bool) (w : World S P) {w' : World S P}
      {r : PomeloTransactionAuthzResponse}
      → authorize_quoted env d t consumer wallet quoted short w ≡ (ok r, w')
      → IsApproved r
      → (short ≡ false) × IsDebitedFor env d t consumer wallet quoted w.services w'.services
  unfolding authorize_quoted Repo.update_pomelo_transaction_status prepare_authorization_response
  quoted_approved d t consumer wallet quoted true w h a = absurd (ground arith)
  quoted_approved d t consumer wallet quoted false w h a =
      (refl, debit_approved env d t consumer wallet quoted w h a)

  pending_approved :
      (d : TransactionDetails) (t : PomeloTransaction) (w : World S P) {w' : World S P}
      {r : PomeloTransactionAuthzResponse}
      → authorize_pending env d t w ≡ (ok r, w')
      → IsApproved r
      → IsCharged d t w.table w.services w'.services
  unfolding authorize_pending
  pending_approved d t w {w'} h a =
      let x1 =
        Steps.get_noba_consumer_id_holding_pomelo_card env t.pomelo_card_id d.pomelo_user_id w in
      let (consumer, p1, q1) = run-eq-ok x1 h in
      let x2 = serve (env.services.get_or_create_wallet consumer) x1.1 in
      let (wallet, p2, q2) = run-eq-ok x2 q1 in
      let x3 = serve (env.services.get_wallet_balance wallet) x2.1 in
      let (balance, p3, q3) = run-eq-ok x3 q2 in
      let x4 = Steps.get_cop_equivalent_usd_amount_to_deduct env t.local_amount x3.1 in
      let (quoted, p4, q4) = run-eq-ok x4 q3 in
      let (enough, paid) =
        quoted_approved d t consumer wallet quoted (ltb_ℤ balance quoted.0) x4.1 q4 a in
      let (holder, same) = holder-eq-ok t.pomelo_card_id d.pomelo_user_id w p1 in
      let (rate, rate_found, priced) = quote-eq-ok t.local_amount x3.1 p4 in
      record {
        consumer = consumer;
        wallet = wallet;
        balance = balance;
        rate = rate;
        s1 = x2.1.services;
        s2 = x3.1.services;
        s3 = x4.1.services;
        holder = holder;
        wallet_given =
            subst (λ s. env.services.get_or_create_wallet consumer s ≡ (ok wallet, x2.1.services))
              same (serve-eq-ok (env.services.get_or_create_wallet consumer) x1.1 p2);
        balance_read = serve-eq-ok (env.services.get_wallet_balance wallet) x2.1 p3;
        rate_found = rate_found;
        covered =
            subst (λ (q : Amount × Rate). q.0 ≤ℤ balance) priced
              (le_of_ltb_false quoted.0 balance enough);
        paid =
            subst (λ q. IsDebitedFor env d t consumer wallet q x4.1.services w'.services) priced
              paid;
      }

  -- A transaction that is saved or found for a request, and how an approval of it came about.
  pub record IsApprovedAs (request : PomeloTransactionAuthzRequest) (w w' : World S P)
      : Type 0 where
    pub t : PomeloTransaction
    pub u : World S P
    pub got :
        Steps.get_or_create_pomelo_transaction env
          (Steps.save_request env request.call none request.details (env.uuid w.drawn))
          (draw_uuid env w).1
        ≡ (ok t, u)
    pub approved :
        ((t.status ≡ PomeloTransactionStatus.approved) × (w'.services ≡ u.services))
        ⊎ ((t.status ≡ PomeloTransactionStatus.pending)
            × IsCharged request.details t u.table u.services w'.services)

  stored_approved :
      (request : PomeloTransactionAuthzRequest) (t : PomeloTransaction) (u : World S P)
      {w' : World S P} {r : PomeloTransactionAuthzResponse} (status : PomeloTransactionStatus)
      → t.status ≡ status
      → Steps.answer_stored env (authorize_pending env request.details) t u ≡ (ok r, w')
      → IsApproved r
      → ((t.status ≡ PomeloTransactionStatus.approved) × (w'.services ≡ u.services))
        ⊎ ((t.status ≡ PomeloTransactionStatus.pending)
            × IsCharged request.details t u.table u.services w'.services)
  unfolding prepare_authorization_response
  stored_approved request t u PomeloTransactionStatus.approved e h a = inl (e, ground arith)
  stored_approved request t u {w'} {r} PomeloTransactionStatus.pending e h a =
      inr (e, pending_approved request.details t u {w' = w'} {r = r} (ground arith) a)
  stored_approved request t u _ e h a = absurd (ground arith)

  -- A request to authorize that is answered APPROVED is for a transaction that had been approved
  -- before, and then nothing is charged, or that was pending: then the card is held by the consumer
  -- whose wallet was debited with success for the transaction that was booked, and the balance that
  -- was read covers the pesos at the rate that was found.
  pub authorize_transaction-IsApprovedAs :
      (request : PomeloTransactionAuthzRequest) (w : World S P) {w' : World S P}
      {r : PomeloTransactionAuthzResponse}
      → authorize_transaction env request w ≡ (ok r, w')
      → IsApproved r
      → IsApprovedAs request w w'
  unfolding authorize_transaction Steps.attempt
  authorize_transaction-IsApprovedAs request w {w'} {r} h a =
      let saving = Steps.save_request env request.call none request.details in
      let work = authorize_pending env request.details in
      let (processed, _) =
        guarded-eq-ok env transaction_authz_endpoint request.call (Steps.process env saving work) w
          h (ground arith) in
      let attempted = process-eq-ok env saving work w processed (ground arith) in
      let x =
        Steps.get_or_create_pomelo_transaction env (saving (env.uuid w.drawn))
          (draw_uuid env w).1 in
      let (t, p, q) = run-eq-ok x attempted in
      record { t = t; u = x.1; got = p; approved = stored_approved request t x.1 t.status refl q a }
