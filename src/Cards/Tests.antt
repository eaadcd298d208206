-- ===== src/Cards/Tests.antt =====
-- An example of the card transactions on the sample bank.
use noba_server.Common.Base.{
  ◌≡◌, refl, none, some, [], ◌⊎◌, arith, str_eq, str_eq_iff, Bool-cases, inl, inr,
}
use noba_server.Common.Action.{ok}
use noba_server.Common.Amount as Amount
use noba_server.Common.Int.{◌-ℤ◌, ◌+ℤ◌}
use noba_server.Transactions.Domain.{round_product}
use noba_server.Circle.Client
use noba_server.Circle.Repo as CircleRepo
use noba_server.Circle.Sample as Bank
use noba_server.Circle.SampleLaws.{circle_laws}
use noba_server.Circle.Service.{
  get_or_create_wallet, get_wallet_balance, debit_wallet_balance, record_balance, or_alert,
  cache_balance, get_master_wallet_id,
}
use noba_server.Pomelo.Domain.{
  PomeloTransactionStatus, PomeloTransactionAuthzDetailStatus, PomeloTransactionAuthzResponse,
}
use noba_server.Pomelo.Environment as Pomelo
use noba_server.Pomelo.Answers.{prepare_authorization_response}
use noba_server.Pomelo.Signature.{
  strip_prefix, starts_with, remove_first, compute_signature, verify_signature,
  sign_transaction_authorization_response,
}
use noba_server.Pomelo.Repo
use noba_server.Pomelo.Steps
use noba_server.Pomelo.Authorize.{
  authorize_transaction, authorize_pending, authorize_quoted, debit_authorized,
  answer_authorization,
}
use noba_server.Pomelo.Approved.{IsApprovedAs}
use noba_server.Pomelo.Sample as Sample
use noba_server.Pomelo.Tests as Tests
use noba_server.Cards.Server.{World, Bookings}
use noba_server.Cards.Wallets.{IsStill}
use noba_server.Cards.Payments.{server, IsSeparate, IsPaidOnce, authorize_transaction-IsPaidOnce}

open_all : Unit {0}
unfolding prepare_authorization_response strip_prefix starts_with remove_first compute_signature
    verify_signature sign_transaction_authorization_response
    Repo.validate_save_pomelo_transaction_request Repo.validate_pomelo_transaction
    Repo.to_create_input Repo.create_pomelo_transaction Repo.update_pomelo_transaction_status
    Repo.find_row Repo.get_pomelo_transaction_by_pomelo_idempotency_key
    Repo.get_noba_consumer_id_holding_pomelo_card Steps.get_or_create_pomelo_transaction
    Steps.get_or_create_card_withdrawal_noba_transaction
    Steps.get_noba_consumer_id_holding_pomelo_card Steps.get_cop_equivalent_usd_amount_to_deduct
    Steps.attempt Steps.process Steps.guarded authorize_transaction authorize_pending
    authorize_quoted debit_authorized answer_authorization round_product get_or_create_wallet
    get_wallet_balance debit_wallet_balance record_balance or_alert cache_balance
    get_master_wallet_id CircleRepo.get_circle_wallet_id CircleRepo.add_consumer_circle_wallet_id
    CircleRepo.update_current_balance Client.create_wallet Client.get_wallet_balance Client.transfer
    Client.to_transfer_response Amount.round_to_2_decimal_number ◌-ℤ◌ ◌+ℤ◌
open_all = tt

abbrev bookings : Bookings (Unit {0})
bookings = record {
  validate_and_save_transaction = λ r s. (ok (Sample.booked (Sample.requested r)), s);
  get_transaction_by_transaction_id = λ id s. (ok none, s);
  get_exchange_rate_for_currency_pair = λ n d s. (ok (some Sample.rate), s);
}

abbrev environment : Pomelo.Environment (World Bank.Bank Bank.Rows (Unit {0})) Sample.Rows
environment =
    server Bank.environment Bank.ledger bookings (λ id wallet w. (ok Sample.done, w))
      Sample.environment

abbrev start : Pomelo.World (World Bank.Bank Bank.Rows (Unit {0})) Sample.Rows
start = record {
  services = record { wallets = Bank.world; rest = tt };
  table = none;
  alerts = [];
  drawn = 0;
}

abbrev after : Pomelo.World (World Bank.Bank Bank.Rows (Unit {0})) Sample.Rows
after = (authorize_transaction environment (Tests.request Tests.signature) start).1

abbrev approved : PomeloTransactionAuthzResponse
approved = prepare_authorization_response PomeloTransactionAuthzDetailStatus.approved

approves :
    authorize_transaction environment (Tests.request Tests.signature) start ≡ (ok approved, after)
unfolding open_all
approves = refl

is_approved : approved.detailed_status ≡ PomeloTransactionAuthzDetailStatus.approved
unfolding prepare_authorization_response
is_approved = refl

-- A dollar of the ten in the wallet is in the master wallet.
pays :
    (Bank.ledger.balance "wallet-1" after.services.wallets.circle ≡ Amount.cents 900)
    × (Bank.ledger.balance "master" after.services.wallets.circle ≡ Amount.cents 10100)
unfolding open_all
pays = (refl, refl)

is_separate :
    IsSeparate Bank.environment Bank.ledger bookings
      (λ id wallet w. (ok Sample.done, w))
      Sample.environment
      Bank.world
unfolding get_or_create_wallet CircleRepo.get_circle_wallet_id
    CircleRepo.add_consumer_circle_wallet_id Client.create_wallet
is_separate consumer wallet w' h = elim (Bool-cases (str_eq consumer "consumer-1")) [
  | inl known ↦
      let is : wallet ≡ "wallet-1" = ground arith in
      λ e. ground (arith, is, str_eq_iff "wallet-1" "master")
  | inr new ↦
      let is : wallet ≡ "wallet-9" = ground arith in
      λ e. ground (arith, is, str_eq_iff "wallet-9" "master")
]

authorize_transaction-IsPaidOnce_example :
    (a : IsApprovedAs environment (Tests.request Tests.signature) start after) × (((a.t.status
          ≡ PomeloTransactionStatus.approved)
        × IsStill Bank.environment Bank.ledger start.services after.services)
      ⊎ ((a.t.status ≡ PomeloTransactionStatus.pending)
          × IsPaidOnce Bank.environment Bank.ledger bookings
              (λ id wallet w. (ok Sample.done, w))
              Sample.environment
              Tests.details
              a.t
              a.u.table
              start.services
              after.services))
authorize_transaction-IsPaidOnce_example =
    authorize_transaction-IsPaidOnce Bank.environment Bank.ledger bookings
      (λ id wallet w. (ok Sample.done, w)) Sample.environment circle_laws
      (Tests.request Tests.signature) start after is_separate approves is_approved
