-- ===== src/Circle/Credit.antt =====
-- `creditWalletBalance`: the calls of a run that returned.
use noba_server.Common.Base.{◌≡◌, String, false, inl, inr, arith}
use noba_server.Common.Int.{pos, ltb_ℤ, leb_ℤ, ◌+ℤ◌}
use noba_server.Common.Amount.{Amount, round_to_2_decimal_number}
use noba_server.Common.Action.{Result, ok}
use noba_server.Common.Inversion.{Result-cases}
use noba_server.Circle.Domain.{TransferRequest, TransferResponse, UpdateWalletBalanceServiceDto}
use noba_server.Circle.Environment.{Environment, World}
use noba_server.Circle.Cache.{record_balance-ok}
use noba_server.Circle.Client
use noba_server.Circle.Service.{
  credit_wallet_balance, is_not_failed, to_service_dto, record_balance,
}

module _ {E D : Type 0} (env : Environment E D) where
  abbrev pub credit_request : String → String → Amount → TransferRequest
  credit_request key v amount = record {
    idempotency_key = key;
    source_wallet_id = env.master_wallet_id;
    destination_wallet_id = v;
    amount = round_to_2_decimal_number amount;
  }

  pub record CreditRun (key v : String) (amount : Amount) (w w' : World E D)
      (dto : UpdateWalletBalanceServiceDto) : Type 0 where
    pub master_balance : Amount
    pub balance : Amount
    pub response : TransferResponse
    pub between : World E D
    pub before : World E D
    pub after : World E D
    pub positive : leb_ℤ (round_to_2_decimal_number amount) (pos 0) ≡ false
    pub covered : ltb_ℤ master_balance (round_to_2_decimal_number amount) ≡ false
    pub master_read :
        Client.get_wallet_balance env env.master_wallet_id w ≡ (ok master_balance, between)
    pub balance_read : Client.get_wallet_balance env v between ≡ (ok balance, before)
    pub transferred :
        Client.transfer env (credit_request key v amount) before ≡ (ok response, after)
    pub answer : dto ≡ to_service_dto response
    pub final :
        w'
        ≡ (record_balance env
            (is_not_failed response.status)
            v
            (balance +ℤ round_to_2_decimal_number amount)
            after).1

  module _ (key v : String) (amount : Amount) (w : World E D) {w' : World E D}
      {dto : UpdateWalletBalanceServiceDto}
      (returned : credit_wallet_balance env key v amount w ≡ (ok dto, w')) where
    abbrev master_reading : Result Amount × World E D
    master_reading = Client.get_wallet_balance env env.master_wallet_id w

    abbrev reading : Result Amount × World E D
    reading = Client.get_wallet_balance env v master_reading.1

    abbrev sending : Result TransferResponse × World E D
    sending = Client.transfer env (credit_request key v amount) reading.1

    master_read_ok : (master_balance : Amount) × (master_reading.0 ≡ ok master_balance)
    unfolding credit_wallet_balance
    master_read_ok = elim (Result-cases master_reading.0) [
      | inl read ↦ read
      | inr (e, p) ↦ absurd (ground arith)
    ]

    read_ok : (balance : Amount) × (reading.0 ≡ ok balance)
    unfolding credit_wallet_balance
    read_ok =
        let (master_balance, p) = master_read_ok in
        elim (Result-cases reading.0) [ inl read ↦ read | inr (e, q) ↦ absurd (ground arith) ]

    sending_ok : (response : TransferResponse) × (sending.0 ≡ ok response)
    unfolding credit_wallet_balance
    sending_ok =
        let (master_balance, p) = master_read_ok in
        let (balance, q) = read_ok in
        elim (Result-cases sending.0) [ inl sent ↦ sent | inr (e, r) ↦ absurd (ground arith) ]

    credit_finish :
        (master_balance balance : Amount) (response : TransferResponse)
        → master_reading.0 ≡ ok master_balance
        → reading.0 ≡ ok balance
        → sending.0 ≡ ok response
        → (dto ≡ to_service_dto response)
          × (w'
              ≡ (record_balance env
                  (is_not_failed response.status)
                  v
                  (balance +ℤ round_to_2_decimal_number amount)
                  sending.1).1)
    unfolding credit_wallet_balance
    credit_finish master_balance balance response p q r = ground (
      arith,
      record_balance-ok env (is_not_failed response.status) v
          (balance +ℤ round_to_2_decimal_number amount) sending.1,
    )

    credit_positive : leb_ℤ (round_to_2_decimal_number amount) (pos 0) ≡ false
    unfolding credit_wallet_balance
    credit_positive = ground arith

    credit_covered :
        (master_balance : Amount)
        → master_reading.0 ≡ ok master_balance
        → ltb_ℤ master_balance (round_to_2_decimal_number amount) ≡ false
    unfolding credit_wallet_balance
    credit_covered master_balance p = ground arith

    pub credit-CreditRun : CreditRun key v amount w w' dto
    credit-CreditRun =
        let (master_balance, p) = master_read_ok in
        let (balance, q) = read_ok in
        let (response, r) = sending_ok in
        let (answer, final) = credit_finish master_balance balance response p q r in
        record {
          master_balance = master_balance;
          balance = balance;
          response = response;
          between = master_reading.1;
          before = reading.1;
          after = sending.1;
          positive = credit_positive;
          covered = credit_covered master_balance p;
          master_read = cc p;
          balance_read = cc q;
          transferred = cc r;
          answer = answer;
          final = final;
        }
