-- ===== src/Circle/Debit.antt =====
-- `debitWalletBalance`: the calls of a run that returned.
use noba_server.Common.Base.{◌≡◌, String, false, inl, inr, arith}
use noba_server.Common.Int.{pos, ltb_ℤ, leb_ℤ, ◌-ℤ◌}
use noba_server.Common.Amount.{Amount}
use noba_server.Common.Action.{Result, ok}
use noba_server.Common.Inversion.{Result-cases}
use noba_server.Circle.Domain.{TransferRequest, TransferResponse, UpdateWalletBalanceServiceDto}
use noba_server.Circle.Environment.{Environment, World}
use noba_server.Circle.Cache.{record_balance-ok}
use noba_server.Circle.Client
use noba_server.Circle.Service.{
  debit_wallet_balance, is_transferred, to_service_dto, record_balance,
}

module _ {E D : Type 0} (env : Environment E D) where
  abbrev pub debit_request : String → String → Amount → TransferRequest
  debit_request key v amount = record {
    idempotency_key = key;
    source_wallet_id = v;
    destination_wallet_id = env.master_wallet_id;
    amount = amount;
  }

  pub record DebitRun (key v : String) (amount : Amount) (w w' : World E D)
      (dto : UpdateWalletBalanceServiceDto) : Type 0 where
    pub balance : Amount
    pub response : TransferResponse
    pub before : World E D
    pub after : World E D
    pub positive : leb_ℤ amount (pos 0) ≡ false
    pub covered : ltb_ℤ balance amount ≡ false
    pub balance_read : Client.get_wallet_balance env v w ≡ (ok balance, before)
    pub transferred : Client.transfer env (debit_request key v amount) before ≡ (ok response, after)
    pub answer : dto ≡ to_service_dto response
    pub final :
        w' ≡ (record_balance env (is_transferred response.status) v (balance -ℤ amount) after).1

  module _ (key v : String) (amount : Amount) (w : World E D) {w' : World E D}
      {dto : UpdateWalletBalanceServiceDto}
      (returned : debit_wallet_balance env key v amount w ≡ (ok dto, w')) where
    abbrev reading : Result Amount × World E D
    reading = Client.get_wallet_balance env v w

    abbrev sending : Result TransferResponse × World E D
    sending = Client.transfer env (debit_request key v amount) reading.1

    read_ok : (balance : Amount) × (reading.0 ≡ ok balance)
    unfolding debit_wallet_balance
    read_ok = elim (Result-cases reading.0) [ inl read ↦ read | inr (e, p) ↦ absurd (ground arith) ]

    sending_ok : (response : TransferResponse) × (sending.0 ≡ ok response)
    unfolding debit_wallet_balance
    sending_ok =
        let (balance, p) = read_ok in
        elim (Result-cases sending.0) [ inl sent ↦ sent | inr (e, q) ↦ absurd (ground arith) ]

    debit_finish :
        (balance : Amount) (response : TransferResponse)
        → reading.0 ≡ ok balance
        → sending.0 ≡ ok response
        → (dto ≡ to_service_dto response)
          × (w'
              ≡ (record_balance env
                  (is_transferred response.status)
                  v
                  (balance -ℤ amount)
                  sending.1).1)
    unfolding debit_wallet_balance
    debit_finish balance response p q = ground (
      arith,
      record_balance-ok env (is_transferred response.status) v (balance -ℤ amount) sending.1,
    )

    debit_guards :
        (balance : Amount)
        → reading.0 ≡ ok balance
        → (leb_ℤ amount (pos 0) ≡ false) × (ltb_ℤ balance amount ≡ false)
    unfolding debit_wallet_balance
    debit_guards balance p = (ground arith, ground arith)

    pub debit-DebitRun : DebitRun key v amount w w' dto
    debit-DebitRun =
        let (balance, p) = read_ok in
        let (response, q) = sending_ok in
        let (positive, covered) = debit_guards balance p in
        let (answer, final) = debit_finish balance response p q in
        record {
          balance = balance;
          response = response;
          before = reading.1;
          after = sending.1;
          positive = positive;
          covered = covered;
          balance_read = cc p;
          transferred = cc q;
          answer = answer;
          final = final;
        }
