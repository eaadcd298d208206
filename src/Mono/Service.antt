-- ===== src/Mono/Service.antt =====
-- src/modules/mono/public/mono.service.ts: paying out to a bank account, and links to pay in. The
-- list of banks, the balance and the health check are left out.
use Prim.Native.String.{◌++◌}
use noba_server.Common.Base.{
  String, Bool, true, false, not, ◌||◌, Option, none, some, str_eq, is_empty,
}
use noba_server.Common.Alert.{error}
use noba_server.Common.Exception.{
  Exception, service, semantic_validation, does_not_exist, already_exists, unable_to_process,
  unknown, type_error, mono_client_exception,
}
use noba_server.Common.Action.{Action, pure, throw, throw_if, try_catch, from_result, ◌>>=◌, ◌>>◌}
use noba_server.Mono.Domain.{
  MonoTransaction, MonoTransactionType, MonoTransactionSaveRequest, Consumer, MonoWithdrawalDetails,
  CreateMonoTransactionRequest, CollectionLinkDepositRequest, WithdrawalRequest,
  MonoTransferRequest, MonoTransferResponse, MonoClientCollectionLinkResponse,
}
use noba_server.Mono.Environment.{Environment, World, raise_alert, call}
use noba_server.Mono.Repo

-- What is not missing, or an exception.
abbrev pub or_throw : {S A : Type 0} → Exception → Option A → Action S A
or_throw e none = throw e
or_throw e (some a) = pure a

abbrev named : Option String → Option String
named none = none
named (some s) = elim (is_empty s) [ true ↦ none | false ↦ some s ]

abbrev pub lacks_field : MonoWithdrawalDetails → Bool
lacks_field d =
    is_empty d.bank_code
    || is_empty d.encrypted_account_number
    || is_empty d.account_type
    || is_empty d.document_number
    || is_empty d.document_type

-- The parts of a withdrawal that is valid.
pub record ValidWithdrawal : Type 0 where
  pub consumer : Consumer
  pub reference : String
  pub details : MonoWithdrawalDetails

abbrev pub full_name : Consumer → String
full_name c = c.first_name ++ " " ++ c.last_name

abbrev pub transfer_request :
    WithdrawalRequest → ValidWithdrawal → (account_number : String) → MonoTransferRequest
transfer_request r v account_number = record {
  transaction_id = r.noba_transaction_id;
  transaction_ref = v.reference;
  amount = r.amount;
  currency = r.currency;
  bank_code = v.details.bank_code;
  account_number = account_number;
  account_type = v.details.account_type;
  document_number = v.details.document_number;
  document_type = v.details.document_type;
  consumer_email = v.consumer.email;
  consumer_name = full_name v.consumer;
}

abbrev pub withdrawal_record : WithdrawalRequest → MonoTransferResponse → MonoTransactionSaveRequest
withdrawal_record r response = record {
  noba_transaction_id = r.noba_transaction_id;
  type = MonoTransactionType.withdrawal;
  collection_link_deposit_details = none;
  withdrawal_details = some (record {
    batch_id = some response.batch_id;
    transfer_id = some response.transfer_id;
    declination_reason = Repo.keep_string response.declination_reason;
  });
}

module _ {B M E : Type 0} (env : Environment B M E) where
  unfoldable pub get_transaction_by_noba_transaction_id :
      String → Action (World B M E) MonoTransaction
  get_transaction_by_noba_transaction_id id =
      Repo.get_mono_transaction_by_noba_transaction_id env id >>= or_throw (service does_not_exist)

  -- A missing record of details cannot be read.
  unfoldable pub validate_withdrawal_request :
      WithdrawalRequest → Action (World B M E) ValidWithdrawal
  validate_withdrawal_request r = do
    throw_if (not (str_eq r.currency "COP")) (service semantic_validation)
    consumer ← or_throw (service does_not_exist) r.consumer
    reference ← or_throw (service semantic_validation) (named r.noba_public_transaction_ref)
    details ← or_throw type_error r.withdrawal_details
    throw_if (lacks_field details) (service semantic_validation)
    pure (record { consumer = consumer; reference = reference; details = details })

  abbrev pub refuse_existing : Option MonoTransaction → Action (World B M E) (Unit {0})
  refuse_existing none = pure tt
  refuse_existing (some _) = throw (service already_exists)

  -- The call of the bank, and the record of it.
  unfoldable pub transfer_and_record :
      WithdrawalRequest → MonoTransferRequest → Action (World B M E) MonoTransaction
  transfer_and_record r transfer = do
    response ← call (env.transfer transfer)
    Repo.create_mono_transaction env (withdrawal_record r response)

  unfoldable pub execute_withdrawal : WithdrawalRequest → Action (World B M E) MonoTransaction
  execute_withdrawal r = do
    v ← validate_withdrawal_request r
    account_number ← from_result (env.decrypt_string v.details.encrypted_account_number)
    existing ← Repo.get_mono_transaction_by_noba_transaction_id env r.noba_transaction_id
    throw_if (is_empty account_number) (service semantic_validation)
    refuse_existing existing
    transfer_and_record r (transfer_request r v account_number)

  unfoldable pub validate_collection_link_deposit_request :
      CollectionLinkDepositRequest → Action (World B M E) Consumer
  validate_collection_link_deposit_request r = do
    throw_if (not (str_eq r.currency "COP")) (service semantic_validation)
    consumer ← or_throw (service does_not_exist) r.consumer
    valid ← from_result (env.is_valid_phone consumer.phone)
    throw_if (not valid) (service semantic_validation)
    pure consumer

  abbrev link_failed : Exception → Action (World B M E) MonoClientCollectionLinkResponse
  link_failed mono_client_exception = throw (service unable_to_process)
  link_failed _ = raise_alert error >> throw (service unknown)

  unfoldable pub execute_deposit_using_collection_link :
      CollectionLinkDepositRequest → Action (World B M E) MonoTransaction
  execute_deposit_using_collection_link r = do
    consumer ← validate_collection_link_deposit_request r
    response ←
        try_catch
          (call (
            env.create_collection_link (record {
              transaction_id = r.noba_transaction_id;
              amount = r.amount;
              currency = r.currency;
              consumer_email = consumer.email;
              consumer_phone = consumer.phone;
              consumer_name = full_name consumer;
            })))
          link_failed
    Repo.create_mono_transaction env (record {
      noba_transaction_id = r.noba_transaction_id;
      type = MonoTransactionType.collection_link_deposit;
      collection_link_deposit_details = some (record {
        collection_link_id = some response.collection_link_id;
        collection_url = some response.collection_link;
        mono_payment_transaction_id = none;
      });
      withdrawal_details = none;
    })

  unfoldable pub create_mono_transaction :
      CreateMonoTransactionRequest → Action (World B M E) MonoTransaction
  create_mono_transaction r = do
    consumer ← from_result (env.get_consumer r.consumer_id)
    elim r.type [
      | MonoTransactionType.withdrawal ↦ execute_withdrawal (record {
        amount = r.amount;
        consumer = consumer;
        currency = r.currency;
        noba_public_transaction_ref = r.noba_public_transaction_ref;
        noba_transaction_id = r.noba_transaction_id;
        withdrawal_details = r.withdrawal_details;
      })
      | MonoTransactionType.collection_link_deposit ↦
          execute_deposit_using_collection_link (record {
            amount = r.amount;
            consumer = consumer;
            currency = r.currency;
            noba_transaction_id = r.noba_transaction_id;
          })
    ]
