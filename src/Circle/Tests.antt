-- ===== src/Circle/Tests.antt =====
-- Tests and examples of the Circle component, over the sample bank and table.
use noba_server.Common.Base.{true, ◌≡◌, ◌≢◌, refl, String, inl, ◌⊎◌, arith, str_eq_iff}
use noba_server.Common.Amount.{Amount, cents}
use noba_server.Common.Amount
use noba_server.Common.Int.{pos, ◌+ℤ◌, ◌-ℤ◌}
use noba_server.Common.Action.{ok}
use noba_server.Circle.Domain.{UpdateWalletBalanceServiceDto, CircleTransferStatus, BalanceDto}
use noba_server.Circle.Environment.{World}
use noba_server.Circle.Client
use noba_server.Circle.Repo
use noba_server.Circle.Cache.{IsAlerted, IsCached}
use noba_server.Circle.Service.{
  debit_wallet_balance, credit_wallet_balance, record_balance, or_alert, cache_balance,
  transfer_funds, record_balances, get_or_create_wallet, cache_refreshed, get_balance,
  get_transfer_status,
}
use noba_server.Circle.TransferEffects.{IsTransferred, transfer_funds-IsTransferred}
use noba_server.Circle.Wallets.{get_or_create_wallet_again}
use noba_server.Circle.Checks.{get_transfer_status-eq-recorded}
use noba_server.Circle.Assumptions.{IsSame}
use noba_server.Circle.Sample.{Bank, Rows, environment, ledger, world}
use noba_server.Circle.SampleLaws.{circle_laws, table_laws}
use noba_server.Circle.CreditEffects.{IsCredited, credit-IsCredited, credit_refused}
use noba_server.Circle.DebitEffects.{
  IsDebited, debit-IsDebited, debit-IsCached, debit-IsSame_retried,
}

-- All that the tests compute with.
open_all : Unit {0}
unfolding debit_wallet_balance credit_wallet_balance record_balance or_alert cache_balance
    transfer_funds record_balances get_or_create_wallet cache_refreshed get_balance
    get_transfer_status Client.create_wallet Repo.get_circle_wallet_id
    Repo.add_consumer_circle_wallet_id Repo.get_circle_balance Client.get_wallet_balance
    Client.transfer Client.to_transfer_response Repo.update_current_balance
    Amount.round_to_2_decimal_number ◌-ℤ◌ ◌+ℤ◌
open_all = tt

abbrev dto : UpdateWalletBalanceServiceDto
dto = record { id = "key-1"; status = CircleTransferStatus.success; created_at = "2023-06-01" }

abbrev debited : World Bank Rows
debited = (debit_wallet_balance environment "key-1" "wallet-1" (cents 300) world).1

debit_returns :
    debit_wallet_balance environment "key-1" "wallet-1" (cents 300) world ≡ (ok dto, debited)
unfolding open_all
debit_returns = refl

debit_retried :
    debit_wallet_balance environment "key-1" "wallet-1" (cents 300) debited
    ≡ (ok dto, (debit_wallet_balance environment "key-1" "wallet-1" (cents 300) debited).1)
unfolding open_all
debit_retried = refl

wallet-ne-master : ◌≢◌ {A = String} "wallet-1" "master"
wallet-ne-master = ground (arith, str_eq_iff "wallet-1" "master")

debit-IsDebited_example : IsDebited environment ledger "wallet-1" (cents 300) world debited
debit-IsDebited_example =
    debit-IsDebited environment ledger circle_laws "key-1" "wallet-1" (cents 300) world
      debit_returns refl wallet-ne-master refl

debit-IsCached_example :
    IsAlerted world.alerts debited
    ⊎ IsCached environment "wallet-1" (ledger.balance "wallet-1" debited.circle) debited
debit-IsCached_example =
    debit-IsCached environment ledger circle_laws "key-1" "wallet-1" (cents 300) world debit_returns
      refl wallet-ne-master refl table_laws (omega arith)

debit-IsSame_retried_example :
    let again = (debit_wallet_balance environment "key-1" "wallet-1" (cents 300) debited).1 in
    ((u : String) → ledger.balance u again.circle ≡ ledger.balance u debited.circle)
    × (IsAlerted debited.alerts again
        ⊎ IsCached environment "wallet-1"
            (ledger.balance "wallet-1" again.circle -ℤ cents 300)
            again)
unfolding open_all
debit-IsSame_retried_example =
    debit-IsSame_retried environment ledger circle_laws "key-1" "wallet-1" (cents 300) debited
      debit_retried refl wallet-ne-master refl table_laws (omega arith)

abbrev credited : World Bank Rows
credited = (credit_wallet_balance environment "key-1" "wallet-1" (pos 500020) world).1

-- 50.002 dollars, rounded to 50 dollars.
credit_returns :
    credit_wallet_balance environment "key-1" "wallet-1" (pos 500020) world ≡ (ok dto, credited)
unfolding open_all
credit_returns = refl

credit-IsCredited_example : IsCredited environment ledger "wallet-1" (pos 500020) world credited
credit-IsCredited_example =
    credit-IsCredited environment ledger circle_laws "key-1" "wallet-1" (pos 500020) world
      credit_returns wallet-ne-master refl refl

abbrev refused : World Bank Rows
refused = (credit_wallet_balance environment "held" "wallet-1" (cents 5000) world).1

credit_is_refused : credit_wallet_balance environment "held" "wallet-1" (cents 5000) world ≡ (
  ok (record {
    id = "held";
    status = CircleTransferStatus.insufficient_funds;
    created_at = "2023-06-01";
  }),
  refused,
)
unfolding open_all
credit_is_refused = refl

credit_refused_example :
    ((u : String) → ledger.balance u refused.circle ≡ ledger.balance u world.circle)
    × (IsAlerted world.alerts refused
        ⊎ IsCached environment "wallet-1"
            (ledger.balance "wallet-1" refused.circle
              +ℤ Amount.round_to_2_decimal_number (cents 5000))
            refused)
credit_refused_example =
    credit_refused environment ledger circle_laws "held" "wallet-1" (cents 5000) world
      credit_is_refused wallet-ne-master refl table_laws

abbrev opened : World Bank Rows
opened = (get_or_create_wallet environment "consumer-9" world).1

wallet_is_made : get_or_create_wallet environment "consumer-9" world ≡ (ok "wallet-9", opened)
unfolding open_all
wallet_is_made = refl

get_or_create_wallet_again_example :
    get_or_create_wallet environment "consumer-9" opened ≡ (ok "wallet-9", opened)
get_or_create_wallet_again_example =
    get_or_create_wallet_again environment table_laws "consumer-9" "wallet-9" world wallet_is_made

abbrev asked : World Bank Rows
asked = (get_transfer_status environment "key-1" "wallet-1" "master" (cents 300) debited).1

debit_is_found :
    get_transfer_status environment "key-1" "wallet-1" "master" (cents 300) debited
    ≡ (ok CircleTransferStatus.success, asked)
unfolding open_all
debit_is_found = refl

get_transfer_status-eq-recorded_example :
    (CircleTransferStatus.success ≡ CircleTransferStatus.success)
    × IsSame ledger debited.circle asked.circle
unfolding open_all
get_transfer_status-eq-recorded_example =
    get_transfer_status-eq-recorded environment "key-1" "wallet-1" "master" (cents 300) debited
      debit_is_found ledger circle_laws refl refl refl refl (inl wallet-ne-master)

abbrev probed : World Bank Rows
probed = (get_transfer_status environment "key-2" "wallet-1" "master" (cents 300) debited).1

nothing_is_found :
    get_transfer_status environment "key-2" "wallet-1" "master" (cents 300) debited
    ≡ (ok CircleTransferStatus.transfer_failed, probed)
unfolding open_all
nothing_is_found = refl

abbrev refreshed : World Bank Rows
refreshed = (get_balance environment "wallet-1" true debited).1

abbrev seven_dollars : BalanceDto
seven_dollars = record { balance = cents 700; currency = "USD" }

balance_is_read : get_balance environment "wallet-1" true debited ≡ (ok seven_dollars, refreshed)
unfolding open_all
balance_is_read = refl

abbrev sent_on : World Bank Rows
sent_on = (transfer_funds environment "key-1" "wallet-1" "wallet-2" (cents 300) world).1

transfer_returns :
    transfer_funds environment "key-1" "wallet-1" "wallet-2" (cents 300) world ≡ (ok dto, sent_on)
unfolding open_all
transfer_returns = refl

wallets_differ : ◌≢◌ {A = String} "wallet-1" "wallet-2"
wallets_differ = ground (arith, str_eq_iff "wallet-1" "wallet-2")

transfer_funds-IsTransferred_example :
    IsTransferred environment ledger "wallet-1" "wallet-2" (cents 300) world sent_on
transfer_funds-IsTransferred_example =
    transfer_funds-IsTransferred environment ledger circle_laws "key-1" "wallet-1" "wallet-2"
      (cents 300) world transfer_returns refl wallets_differ refl
