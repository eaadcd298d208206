-- ===== src/Mono/Tests.antt =====
-- Tests and examples of the transfers to and from bank accounts, on the sample bank and table.
use noba_server.Common.Base.{◌≡◌, refl, ℕ, String, List, [], ◌∷◌, some, none}
use noba_server.Common.Amount.{cents}
use noba_server.Common.Action.{ok, err}
use noba_server.Common.Exception.{service, already_exists}
use noba_server.Mono.Domain.{
  MonoRow, MonoTransaction, MonoTransactionState, MonoEvent, WithdrawalRequest,
  BankTransferRejectedEvent, MonoAccountCreditedEvent,
}
use noba_server.Mono.Environment.{World}
use noba_server.Mono.Repo
use noba_server.Mono.Service.{
  validate_withdrawal_request, transfer_and_record, execute_withdrawal, withdrawal_record,
}
use noba_server.Mono.Webhook.{
  matching_both, update_found, process_bank_transfer_rejected_event, fund_by_name_or_both,
  fund_matching, process_account_credited_event, process_webhook_event,
}
use noba_server.Mono.Withdrawals.{IsPaidOut, execute_withdrawal-IsPaidOut, execute_withdrawal_again}
use noba_server.Mono.Funding.{IsSettled, process_account_credited-IsSettled}
use noba_server.Mono.Events.{Announces, IsRecorded, process_webhook_event-IsRecorded}
use noba_server.Mono.Sample.{Rows, row_of, response, consumer, environment, create_law, update_law}

open_all : Unit {0}
unfolding Repo.convert_to_domain_transaction Repo.to_create_input Repo.to_update_input
    Repo.validate_save_mono_transaction_request Repo.validate_update_mono_transaction_request
    Repo.validate_mono_transaction Repo.create_mono_transaction Repo.update_mono_transaction
    Repo.search Repo.get_mono_transaction_by_noba_transaction_id
    Repo.get_mono_transaction_by_transfer_id validate_withdrawal_request transfer_and_record
    execute_withdrawal matching_both update_found process_bank_transfer_rejected_event
    fund_by_name_or_both fund_matching process_account_credited_event process_webhook_event
open_all = tt

abbrev withdrawal : WithdrawalRequest
withdrawal = record {
  noba_transaction_id = "noba-1";
  noba_public_transaction_ref = some "ref-1";
  amount = cents 400000;
  currency = "COP";
  consumer = some consumer;
  withdrawal_details = some (record {
    bank_code = "007";
    encrypted_account_number = "123";
    account_type = "SAVINGS";
    document_number = "900";
    document_type = "NIT";
  });
}

abbrev start : World ℕ Rows (List String)
start = record { bank = 0; table = none; payrolls = []; alerts = [] }

abbrev after : World ℕ Rows (List String)
after = (execute_withdrawal environment withdrawal start).1

abbrev row : MonoRow
row = row_of (Repo.to_create_input (withdrawal_record withdrawal response))

abbrev paid : MonoTransaction
paid = Repo.convert_to_domain_transaction row

pays : execute_withdrawal environment withdrawal start ≡ (ok paid, after)
unfolding open_all
pays = refl

execute_withdrawal-IsPaidOut_example : IsPaidOut environment withdrawal paid start after
execute_withdrawal-IsPaidOut_example =
    execute_withdrawal-IsPaidOut environment withdrawal start pays

execute_withdrawal_again_example :
    execute_withdrawal environment withdrawal after ≡ (err (service already_exists), after)
execute_withdrawal_again_example =
    execute_withdrawal_again environment create_law withdrawal start pays

-- A transfer that the bank has rejected.
abbrev rejection : BankTransferRejectedEvent
rejection = record {
  transfer_id = "transfer-1";
  state = MonoTransactionState.declined;
  declination_reason = "no such account";
}

abbrev transferred : World ℕ Rows (List String)
transferred = record { bank = 1; table = some row; payrolls = []; alerts = [] }

abbrev declined : World ℕ Rows (List String)
declined =
    (process_webhook_event environment (MonoEvent.bank_transfer_rejected rejection) transferred).1

rejects :
    process_webhook_event environment (MonoEvent.bank_transfer_rejected rejection) transferred
    ≡ (ok tt, declined)
unfolding open_all
rejects = refl

process_webhook_event-IsRecorded_example :
    IsRecorded environment
      (environment.find_by_transfer_id "transfer-1")
      MonoTransactionState.declined
      transferred
      declined
process_webhook_event-IsRecorded_example =
    process_webhook_event-IsRecorded environment (MonoEvent.bank_transfer_rejected rejection)
      transferred (Announces.rejected rejection)
      (update_law (λ r. r.transfer_id) "transfer-1" (λ r row. refl)) rejects

-- A payment of the employer with the number 900.
abbrev payment : MonoAccountCreditedEvent
payment = record {
  amount = cents 400000;
  transaction_id = "payment-1";
  payer_document_number = "900";
  payer_name = "";
}

abbrev funded : World ℕ Rows (List String)
funded = (process_account_credited_event environment payment start).1

funds : process_account_credited_event environment payment start ≡ (ok tt, funded)
unfolding open_all
funds = refl

funds_the_payroll : funded.payrolls ≡ "payroll-1" ∷ []
unfolding open_all
funds_the_payroll = refl

process_account_credited-IsSettled_example : IsSettled environment payment start funded
process_account_credited-IsSettled_example =
    process_account_credited-IsSettled environment payment start funds
