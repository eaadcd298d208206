-- ===== src/Circle/Service.antt =====
-- src/modules/circle/public/circle.service.ts. Logging, the health check and `debit`, which is not
-- implemented, are left out.
use noba_server.Common.Base.{
  String, Bool, true, false, not, ◌&&◌, none, some, str_eq, is_empty, if◌then◌else◌,
}
use noba_server.Common.Int.{pos, ◌+ℤ◌, ◌-ℤ◌, ltb_ℤ, leb_ℤ, eqb_ℤ}
use noba_server.Common.Amount.{Amount, cents, round_to_2_decimal_number}
use noba_server.Common.Alert.{
  error, critical, circle_balance_update_failed, unexpected_transfer_check,
}
use noba_server.Common.Exception.{
  service, semantic_validation, does_not_exist, unable_to_process, unknown,
}
use noba_server.Common.Action.{Action, pure, throw, try_catch, throw_if, when, ◌>>=◌, ◌>>◌}
use noba_server.Circle.Domain.{
  CircleTransferStatus, TransferResponse, UpdateWalletBalanceServiceDto, BalanceDto,
}
use noba_server.Circle.Environment.{Environment, World, raise_alert}
use noba_server.Circle.Repo
use noba_server.Circle.Client

-- `status !== TRANSFER_FAILED && status !== INSUFFICIENT_FUNDS`
abbrev pub is_transferred : CircleTransferStatus → Bool
is_transferred CircleTransferStatus.success = true
is_transferred _ = false

-- `status !== TRANSFER_FAILED`
abbrev pub is_not_failed : CircleTransferStatus → Bool
is_not_failed CircleTransferStatus.transfer_failed = false
is_not_failed _ = true

abbrev pub to_service_dto : TransferResponse → UpdateWalletBalanceServiceDto
to_service_dto r = record { id = r.transfer_id; status = r.status; created_at = r.created_at }

-- The amount of the probing transfer of `getTransferStatus`.
abbrev pub one_dollar : Amount
one_dollar = cents 100

module _ {E D : Type 0} (env : Environment E D) where
  unfoldable pub get_or_create_wallet : String → Action (World E D) String
  get_or_create_wallet consumer_id = do
    throw_if (is_empty consumer_id) (service semantic_validation)
    existing ← Repo.get_circle_wallet_id env consumer_id
    elim existing [
      | some wallet_id ↦ pure wallet_id
      | none ↦ do
        wallet_id ← Client.create_wallet env consumer_id
        try_catch
            (Repo.add_consumer_circle_wallet_id env
                (record { wallet_id = wallet_id; consumer_id = consumer_id })
              >> pure tt)
            (λ _. raise_alert error >> throw (service unknown))
        pure wallet_id
    ]

  unfoldable pub get_master_wallet_id : Action (World E D) String
  get_master_wallet_id =
      throw_if (is_empty env.master_wallet_id) (service does_not_exist) >> pure env.master_wallet_id

  unfoldable pub get_wallet_balance : String → Action (World E D) Amount
  get_wallet_balance wallet_id = do
    throw_if (is_empty wallet_id) (service semantic_validation)
    Client.get_wallet_balance env wallet_id

  -- `circleRepo.updateCurrentBalance` on the rounded balance.
  unfoldable pub cache_balance : String → Amount → Action (World E D) (Unit {0})
  cache_balance wallet_id balance =
      Repo.update_current_balance env wallet_id
        (record { current_balance = some (round_to_2_decimal_number balance) })
      >> pure tt

  -- The `catch` of every update of the cache: the caller does not learn of the failure.
  unfoldable pub or_alert : Action (World E D) (Unit {0}) → Action (World E D) (Unit {0})
  or_alert m = try_catch m (λ _. raise_alert (critical circle_balance_update_failed))

  -- The end of a debit or a credit: the new balance of a wallet other than the master's is cached
  -- once the money has moved.
  unfoldable pub record_balance : Bool → String → Amount → Action (World E D) (Unit {0})
  record_balance moved wallet_id balance = when moved (
      or_alert
        (when (not (str_eq wallet_id env.master_wallet_id)) (cache_balance wallet_id balance)))

  unfoldable pub debit_wallet_balance :
      String → String → Amount → Action (World E D) UpdateWalletBalanceServiceDto
  unfolding get_master_wallet_id
  debit_wallet_balance idempotency_key wallet_id amount = do
    throw_if (is_empty wallet_id) (service semantic_validation)
    throw_if (leb_ℤ amount (pos 0)) (service semantic_validation)
    balance ← Client.get_wallet_balance env wallet_id
    throw_if (ltb_ℤ balance amount) (service unable_to_process)
    master_wallet_id ← get_master_wallet_id
    response ← Client.transfer env (record {
      idempotency_key = idempotency_key;
      source_wallet_id = wallet_id;
      destination_wallet_id = master_wallet_id;
      amount = amount;
    })
    record_balance (is_transferred response.status) wallet_id (balance -ℤ amount)
    pure (to_service_dto response)

  unfoldable pub credit_wallet_balance :
      String → String → Amount → Action (World E D) UpdateWalletBalanceServiceDto
  unfolding get_master_wallet_id get_wallet_balance
  credit_wallet_balance idempotency_key wallet_id unrounded = do
    throw_if (is_empty wallet_id) (service semantic_validation)
    let amount = round_to_2_decimal_number unrounded
    throw_if (leb_ℤ amount (pos 0)) (service semantic_validation)
    master_wallet_id ← get_master_wallet_id
    master_wallet_balance ← get_wallet_balance master_wallet_id
    when (ltb_ℤ master_wallet_balance amount)
        (raise_alert error >> throw (service unable_to_process))
    wallet_balance ← Client.get_wallet_balance env wallet_id
    response ← Client.transfer env (record {
      idempotency_key = idempotency_key;
      source_wallet_id = master_wallet_id;
      destination_wallet_id = wallet_id;
      amount = amount;
    })
    record_balance (is_not_failed response.status) wallet_id (wallet_balance +ℤ amount)
    pure (to_service_dto response)

  -- The same for the two wallets of a transfer.
  unfoldable pub record_balances :
      Bool → String → String → Amount → Amount → Action (World E D) (Unit {0})
  unfolding get_master_wallet_id
  record_balances moved source destination source_balance destination_balance = when moved (
      or_alert (do
        master_wallet_id ← get_master_wallet_id
        when (not (str_eq source master_wallet_id)) (cache_balance source source_balance)
        when (not (str_eq destination master_wallet_id))
            (cache_balance destination destination_balance)))

  unfoldable pub transfer_funds :
      String → String → String → Amount → Action (World E D) UpdateWalletBalanceServiceDto
  transfer_funds idempotency_key source_wallet_id destination_wallet_id unrounded = do
    throw_if (is_empty source_wallet_id) (service semantic_validation)
    throw_if (is_empty destination_wallet_id) (service semantic_validation)
    let amount = round_to_2_decimal_number unrounded
    throw_if (leb_ℤ amount (pos 0)) (service semantic_validation)
    source_wallet_balance ← Client.get_wallet_balance env source_wallet_id
    throw_if (ltb_ℤ source_wallet_balance amount) (service unable_to_process)
    destination_wallet_balance ← Client.get_wallet_balance env destination_wallet_id
    response ← Client.transfer env (record {
      idempotency_key = idempotency_key;
      source_wallet_id = source_wallet_id;
      destination_wallet_id = destination_wallet_id;
      amount = amount;
    })
    record_balances (is_transferred response.status) source_wallet_id destination_wallet_id
        (source_wallet_balance -ℤ amount) (destination_wallet_balance +ℤ amount)
    pure (to_service_dto response)

  abbrev usd : Amount → BalanceDto
  usd balance = record { balance = balance; currency = "USD" }

  -- The `try` of `getBalance`: a refreshed balance is cached, but for the master wallet.
  unfoldable pub cache_refreshed : String → Amount → Action (World E D) (Unit {0})
  unfolding get_master_wallet_id
  cache_refreshed wallet_id balance = or_alert (do
    master_wallet_id ← get_master_wallet_id
    when (not (str_eq wallet_id master_wallet_id)) (cache_balance wallet_id balance))

  -- The part of `getBalance` that asks Circle.
  unfoldable pub refresh_balance : String → Action (World E D) BalanceDto
  refresh_balance wallet_id = do
    balance ← Client.get_wallet_balance env wallet_id
    cache_refreshed wallet_id balance
    pure (usd (round_to_2_decimal_number balance))

  unfoldable pub get_balance : String → Bool → Action (World E D) BalanceDto
  unfolding refresh_balance
  get_balance wallet_id force_refresh = do
    throw_if (is_empty wallet_id) (service semantic_validation)
    cached ← (if force_refresh then pure none else Repo.get_circle_balance env wallet_id)
    elim cached [ some balance ↦ pure (usd balance) | none ↦ refresh_balance wallet_id ]

  unfoldable pub get_transfer_status :
      String → String → String → Amount → Action (World E D) CircleTransferStatus
  unfolding get_master_wallet_id
  get_transfer_status idempotency_key source_wallet_id destination_wallet_id amount = do
    master_wallet_id ← get_master_wallet_id
    response ← Client.transfer env (record {
      idempotency_key = idempotency_key;
      source_wallet_id = master_wallet_id;
      destination_wallet_id = master_wallet_id;
      amount = one_dollar;
    })
    if str_eq response.source_wallet_id master_wallet_id
          && str_eq response.destination_wallet_id master_wallet_id
          && eqb_ℤ response.amount one_dollar
        then pure CircleTransferStatus.transfer_failed
        else if str_eq response.source_wallet_id source_wallet_id
            && str_eq response.destination_wallet_id destination_wallet_id
            && eqb_ℤ response.amount amount
        then pure response.status
        else (raise_alert (critical unexpected_transfer_check)
            >> pure CircleTransferStatus.transfer_failed)
