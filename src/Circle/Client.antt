-- ===== src/Circle/Client.antt =====
-- src/modules/circle/public/circle.client.ts. The health check is left out.
use noba_server.Common.Base.{
  String, true, not, Option, none, some, List, [], ◌∷◌, ◌==◌, str_eq, if◌then◌else◌,
}
use noba_server.Common.Int.{pos}
use noba_server.Common.Amount.{Amount, round_to_2_decimal_number}
use noba_server.Common.Alert.{error}
use noba_server.Common.Exception.{
  Exception, service_exception, service, unknown, rate_limit_exceeded, axios_error, type_error,
}
use noba_server.Common.Action.{Action, pure, throw, try_catch, throw_if, when, ◌>>=◌, ◌>>◌}
use noba_server.Circle.Domain.{
  CircleTransferStatus, TransferRequest, TransferResponse, CurrencyBalance, TransferStatusEnum,
  TransferErrorCode, Transfer, CreateTransferReply,
}
use noba_server.Circle.Environment.{Environment, World, raise_alert, call}

-- The handler of `transfer`.
unfoldable pub transfer_error : Exception → Exception
transfer_error (service_exception code retry) = service_exception code retry
transfer_error (axios_error (some status)) =
    if status == 429
    then service_exception rate_limit_exceeded true
    else service_exception unknown true
transfer_error _ = type_error

-- The `switch` on the code of a failed transfer, which names four codes.
unfoldable pub status_of_error : Option TransferErrorCode → CircleTransferStatus
status_of_error (some TransferErrorCode.transfer_failed) = CircleTransferStatus.transfer_failed
status_of_error (some TransferErrorCode.transfer_denied) = CircleTransferStatus.transfer_failed
status_of_error (some TransferErrorCode.blockchain_error) = CircleTransferStatus.transfer_failed
status_of_error (some TransferErrorCode.insufficient_funds) =
    CircleTransferStatus.insufficient_funds
status_of_error (some TransferErrorCode.other) = CircleTransferStatus.success
status_of_error none = CircleTransferStatus.success

unfoldable pub transfer_status :
    TransferStatusEnum → Option TransferErrorCode → CircleTransferStatus
unfolding status_of_error
transfer_status TransferStatusEnum.failed code = status_of_error code
transfer_status _ code = CircleTransferStatus.success

unfoldable pub to_transfer_response : Transfer → TransferResponse
unfolding transfer_status
to_transfer_response t = record {
  transfer_id = t.id;
  amount = t.amount;
  source_wallet_id = t.source;
  destination_wallet_id = t.destination;
  status = transfer_status t.status t.error_code;
  created_at = t.create_date;
}

module _ {E D : Type 0} where
  -- The loop over the balances of a wallet: the last one in USD counts.
  unfoldable pub read_usd : List CurrencyBalance → Amount → Action (World E D) Amount
  read_usd [] result = pure result
  read_usd (b ∷ bs) result = do
    when (not (str_eq b.currency "USD")) (raise_alert error)
    read_usd bs (if str_eq b.currency "USD" then b.amount else result)

  -- The handler of `getWalletBalance` reads the response before it raises the alert, and throws
  -- where there was no response.
  unfoldable pub wallet_balance_failed : {A : Type 0} → Exception → Action (World E D) A
  wallet_balance_failed (axios_error (some status)) = do
    raise_alert error
    throw (if status == 429 then service_exception rate_limit_exceeded true else service unknown)
  wallet_balance_failed _ = throw type_error

module _ {E D : Type 0} (env : Environment E D) where
  unfoldable pub create_wallet : String → Action (World E D) String
  create_wallet idempotency_key =
      try_catch (call (env.create_wallet (env.convert_to_uuid_v4 idempotency_key) idempotency_key))
        (λ _. raise_alert error >> throw (service unknown))

  unfoldable pub get_wallet_balance : String → Action (World E D) Amount
  unfolding read_usd wallet_balance_failed
  get_wallet_balance wallet_id =
      try_catch (do balances ← call (env.get_wallet wallet_id); read_usd balances (pos 0))
        wallet_balance_failed

  abbrev check_created : CreateTransferReply → Action (World E D) TransferResponse
  check_created reply = do
    throw_if (not (reply.http_status == 201)) (service unknown)
    pure (to_transfer_response reply.transfer)

  unfoldable pub transfer : TransferRequest → Action (World E D) TransferResponse
  unfolding to_transfer_response transfer_error
  transfer request =
      try_catch
        (do
          reply ← call (
              env.create_transfer (record {
                idempotency_key = env.convert_to_uuid_v4 request.idempotency_key;
                source = request.source_wallet_id;
                destination = request.destination_wallet_id;
                amount = round_to_2_decimal_number request.amount;
              }))
          check_created reply)
        (λ e. raise_alert error >> throw (transfer_error e))
