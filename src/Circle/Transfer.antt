-- ===== src/Circle/Transfer.antt =====
-- `transferFunds`: the calls of a run that returned.
use noba_server.Common.Base.{not, str_eq, ◌≡◌, refl, String, Bool, true, false, inl, inr, arith}
use noba_server.Common.Int.{pos, ltb_ℤ, leb_ℤ, ◌-ℤ◌, ◌+ℤ◌}
use noba_server.Common.Amount.{Amount, round_to_2_decimal_number}
use noba_server.Common.Action.{Action, Result, ok, when, ◌>>=◌, ◌>>◌}
use noba_server.Common.Inversion.{Result-cases}
use noba_server.Circle.Domain.{TransferRequest, TransferResponse, UpdateWalletBalanceServiceDto}
use noba_server.Circle.Environment.{Environment, World}
use noba_server.Circle.Runs.{sent}
use noba_server.Circle.Cache.{or_alert-ok}
use noba_server.Circle.Client
use noba_server.Circle.Repo
use noba_server.Circle.Service.{
  transfer_funds, is_transferred, to_service_dto, record_balances, or_alert, cache_balance,
  get_master_wallet_id,
}

module _ {E D : Type 0} (env : Environment E D) where
  cache_balance-circle :
      (v : String) (balance : Amount) (w : World E D)
      → (cache_balance env v balance w).1.circle ≡ w.circle
  unfolding cache_balance Repo.update_current_balance
  cache_balance-circle v balance w = ground arith

  record_balances-ok :
      (moved : Bool) (a b : String) (x y : Amount) (w : World E D)
      → (record_balances env moved a b x y w).0 ≡ ok tt
  unfolding record_balances
  record_balances-ok true a b x y w = or_alert-ok env _ w
  record_balances-ok false a b x y w = refl

  -- A method that leaves Circle alone.
  abbrev Keeps : {A : Type 0} → Action (World E D) A → Type 0
  Keeps m = (w : World E D) → (m w).1.circle ≡ w.circle

  bind-Keeps :
      {A B : Type 0} (m : Action (World E D) A) (f : A → Action (World E D) B)
      → Keeps m
      → ((a : A) → Keeps (f a))
      → Keeps (m >>= f)
  bind-Keeps m f h k w = elim (Result-cases (m w).0) [
    | inl (a, p) ↦ ground (arith, k a (m w).1, h w)
    | inr (e, p) ↦ ground (arith, h w)
  ]

  when-Keeps : (c : Bool) (m : Action (World E D) (Unit {0})) → Keeps m → Keeps (when c m)
  when-Keeps true m h w = h w
  when-Keeps false m h w = refl

  or_alert-Keeps : (m : Action (World E D) (Unit {0})) → Keeps m → Keeps (or_alert env m)
  unfolding or_alert
  or_alert-Keeps m h w = elim (Result-cases (m w).0) [
    | inl (a, p) ↦ ground (arith, h w)
    | inr (e, p) ↦ ground (arith, h w)
  ]

  get_master_wallet_id-Keeps : Keeps (get_master_wallet_id env)
  unfolding get_master_wallet_id
  get_master_wallet_id-Keeps w = ground arith

  abbrev cache_both : String → String → Amount → Amount → String → Action (World E D) (Unit {0})
  cache_both a b x y master =
      when (not (str_eq a master)) (cache_balance env a x)
      >> when (not (str_eq b master)) (cache_balance env b y)

  cache_both-Keeps :
      (a b : String) (x y : Amount) (master : String) → Keeps (cache_both a b x y master)
  cache_both-Keeps a b x y master =
      bind-Keeps (when (not (str_eq a master)) (cache_balance env a x))
        (λ _. when (not (str_eq b master)) (cache_balance env b y))
        (when-Keeps (not (str_eq a master)) (cache_balance env a x) (cache_balance-circle a x))
        (λ _. when-Keeps (not (str_eq b master)) (cache_balance env b y) (cache_balance-circle b y))

  -- The updates of the cache leave Circle alone.
  pub record_balances-Keeps :
      (moved : Bool) (a b : String) (x y : Amount) → Keeps (record_balances env moved a b x y)
  unfolding record_balances
  record_balances-Keeps moved a b x y =
      let master = get_master_wallet_id env in
      let both = cache_both a b x y in
      when-Keeps moved (or_alert env (master >>= both)) (
        or_alert-Keeps (master >>= both)
          (bind-Keeps master both get_master_wallet_id-Keeps (cache_both-Keeps a b x y)))

  abbrev pub transfer_request : String → String → String → Amount → TransferRequest
  transfer_request key a b amount = record {
    idempotency_key = key;
    source_wallet_id = a;
    destination_wallet_id = b;
    amount = round_to_2_decimal_number amount;
  }

  module _ (key a b : String) (amount : Amount) (w : World E D) {w' : World E D}
      {dto : UpdateWalletBalanceServiceDto}
      (returned : transfer_funds env key a b amount w ≡ (ok dto, w')) where
    abbrev pub reading : Result Amount × World E D
    reading = Client.get_wallet_balance env a w

    abbrev pub second : Result Amount × World E D
    second = Client.get_wallet_balance env b reading.1

    abbrev pub sending : Result TransferResponse × World E D
    sending = Client.transfer env (transfer_request key a b amount) second.1

    pub reading_ok : (balance : Amount) × (reading.0 ≡ ok balance)
    unfolding transfer_funds
    reading_ok = elim (Result-cases reading.0) [
      | inl read ↦ read
      | inr (e, p) ↦ absurd (ground arith)
    ]

    pub second_ok : (balance : Amount) × (second.0 ≡ ok balance)
    unfolding transfer_funds
    second_ok =
        let (balance, p) = reading_ok in
        elim (Result-cases second.0) [ inl read ↦ read | inr (e, q) ↦ absurd (ground arith) ]

    pub sending_ok : (response : TransferResponse) × (sending.0 ≡ ok response)
    unfolding transfer_funds
    sending_ok =
        let (balance, p) = reading_ok in
        let (other, q) = second_ok in
        elim (Result-cases sending.0) [ inl sent ↦ sent | inr (e, r) ↦ absurd (ground arith) ]

    pub guards :
        (balance : Amount)
        → reading.0 ≡ ok balance
        → (leb_ℤ (round_to_2_decimal_number amount) (pos 0) ≡ false)
          × (ltb_ℤ balance (round_to_2_decimal_number amount) ≡ false)
    unfolding transfer_funds
    guards balance p = (ground arith, ground arith)

    pub finish :
        (balance other : Amount) (response : TransferResponse)
        → reading.0 ≡ ok balance
        → second.0 ≡ ok other
        → sending.0 ≡ ok response
        → (dto ≡ to_service_dto response)
          × (w'
              ≡ (record_balances env
                  (is_transferred response.status)
                  a
                  b
                  (balance -ℤ round_to_2_decimal_number amount)
                  (other +ℤ round_to_2_decimal_number amount)
                  sending.1).1)
    unfolding transfer_funds
    finish balance other response p q r = ground (
      arith,
      record_balances-ok (is_transferred response.status) a b
          (balance -ℤ round_to_2_decimal_number amount) (other +ℤ round_to_2_decimal_number amount)
          sending.1,
    )
