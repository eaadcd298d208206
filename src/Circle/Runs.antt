-- ===== src/Circle/Runs.antt =====
-- What a run of a client's or a repository's method that returned says of its calls.
use noba_server.Common.Base.{
  ◌≡◌, ◌≢◌, refl, sym, subst, ap, ◌∙◌, List, [], ◌∷◌, arith, String, Option, none, some,
}
use noba_server.Common.Amount.{Amount, round_to_2_decimal_number}
use noba_server.Common.Action.{Result, ok, err}
use noba_server.Circle.Domain.{
  TransferRequest, TransferResponse, CurrencyBalance, CreateTransferRequest, CreateTransferReply,
  Transfer, TransferStatusEnum, TransferErrorCode, CircleTransferStatus,
}
use noba_server.Circle.Environment.{Environment, World}
use noba_server.Circle.Assumptions.{Ledger, IsSame, IsMoved, IsNamed, CircleLaws}
use noba_server.Circle.Client

module _ {E D : Type 0} (env : Environment E D) where
  abbrev pub sent : TransferRequest → CreateTransferRequest
  sent request = record {
    idempotency_key = env.convert_to_uuid_v4 request.idempotency_key;
    source = request.source_wallet_id;
    destination = request.destination_wallet_id;
    amount = round_to_2_decimal_number request.amount;
  }

  -- A transfer that returned is the one call of `createTransfer`, and its answer.
  pub record TransferRun (request : TransferRequest) (w w' : World E D)
      (response : TransferResponse) : Type 0 where
    pub state : E
    pub reply : CreateTransferReply
    pub called : env.create_transfer (sent request) w.circle ≡ (ok reply, state)
    pub responded : response ≡ Client.to_transfer_response reply.transfer
    pub world : w' ≡ record w { circle = state }

  pub transfer-TransferRun :
      (request : TransferRequest) (w : World E D) {w' : World E D} {response : TransferResponse}
      → Client.transfer env request w ≡ (ok response, w')
      → TransferRun request w w' response
  unfolding Client.transfer
  transfer-TransferRun request w {w'} {response} h = go _ refl
    where
      go :
          (r : Result CreateTransferReply)
          → (env.create_transfer (sent request) w.circle).0 ≡ r
          → TransferRun request w w' response
      go (err x) p = ground arith
      go (ok reply) p = record {
        state = (env.create_transfer (sent request) w.circle).1;
        reply = reply;
        called = ground arith;
        responded = ground arith;
        world = ground arith;
      }

  -- A balance that returned is the ledger's, and nothing has changed.
  pub record BalanceRun (ledger : Ledger E) (v : String) (w w' : World E D) (balance : Amount)
      : Type 0 where
    pub state : E
    pub read : balance ≡ ledger.balance v w.circle
    pub same : IsSame ledger w.circle state
    pub world : w' ≡ record w { circle = state }

  pub get_wallet_balance-BalanceRun :
      (ledger : Ledger E)
      → CircleLaws env ledger
      → (v : String) (w : World E D) {w' : World E D} {balance : Amount}
      → Client.get_wallet_balance env v w ≡ (ok balance, w')
      → BalanceRun ledger v w w' balance
  unfolding Client.get_wallet_balance
  get_wallet_balance-BalanceRun ledger laws v w {w'} {balance} h = go _ refl
    where
      go :
          (r : Result (List CurrencyBalance))
          → (env.get_wallet v w.circle).0 ≡ r
          → BalanceRun ledger v w w' balance
      go (err x) p = ground arith
      go (ok balances) p =
          let known =
            laws.get_wallet v w.circle {e' = (env.get_wallet v w.circle).1} {balances = balances}
              (ground arith) in
          let exact : (env.get_wallet v w.circle).0
              ≡ ok (record { currency = "USD"; amount = ledger.balance v w.circle } ∷ []) =
            p ∙ ap ok known.0 in
          record {
            state = (env.get_wallet v w.circle).1;
            read = ground arith;
            same = known.1;
            world = ground arith;
          }

  -- A transfer that is answered with success has not failed, and moved the money if its key was
  -- new.
  module _ (ledger : Ledger E) (laws : CircleLaws env ledger) where
    pub not_failed_of_success :
        (t : Transfer)
        → (t.status ≡ TransferStatusEnum.failed → IsNamed t.error_code)
        → (Client.to_transfer_response t).status ≡ CircleTransferStatus.success
        → t.status ≢ TransferStatusEnum.failed
    unfolding Client.to_transfer_response
    not_failed_of_success t named success is_failed =
        go t.error_code (named is_failed) (rw (is_failed, Client.transfer_status) at success)
      where
        go :
            (code : Option TransferErrorCode)
            → IsNamed code
            → Client.status_of_error code ≢ CircleTransferStatus.success
        go none n e = absurd n
        go (some TransferErrorCode.transfer_failed) n e = cc
        go (some TransferErrorCode.transfer_denied) n e = cc
        go (some TransferErrorCode.blockchain_error) n e = cc
        go (some TransferErrorCode.insufficient_funds) n e = cc
        go (some TransferErrorCode.other) n e = absurd n

    pub TransferRun-IsMoved :
        {request : TransferRequest} {w w' : World E D} {response : TransferResponse}
        → TransferRun request w w' response
        → response.status ≡ CircleTransferStatus.success
        → ledger.recorded (env.convert_to_uuid_v4 request.idempotency_key) w.circle ≡ none
        → IsMoved ledger (sent request) w.circle w'.circle
    TransferRun-IsMoved {request} {w} run success fresh =
        let moved = laws.create_transfer (sent request) w.circle run.called fresh (
          not_failed_of_success run.reply.transfer
            (λ f. (laws.failed (sent request) w.circle run.called f).0)
            (cc (success, run.responded))) in
        subst (λ t. IsMoved ledger (sent request) w.circle t.circle) (sym run.world) moved
