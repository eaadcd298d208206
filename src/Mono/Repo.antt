-- ===== src/Mono/Repo.antt =====
-- src/modules/mono/repo/sql.mono.repo.ts, with the validations and the conversion of
-- mono/domain/Mono.ts. Joi's checks that the types make true are left out.
use noba_server.Common.Base.{
  String, Bool, true, false, not, ◌&&◌, Option, none, some, if◌then◌else◌, is_empty,
}
use noba_server.Common.Alert.{error}
use noba_server.Common.Exception.{
  Exception, repo_exception, not_found, invalid_database_record, database_internal_error,
  validation_error, service, unable_to_process,
}
use noba_server.Common.Action.{Action, Result, pure, throw, throw_if, try_catch, ◌>>=◌, ◌>>◌}
use noba_server.Common.Joi.{Joi}
use noba_server.Mono.Domain.{
  MonoTransaction, MonoTransactionType, MonoTransactionState, MonoCollectionLinkDeposits,
  MonoWithdrawals, MonoRow, MonoTransactionSaveRequest, MonoCreateInput,
  MonoTransactionUpdateRequest,
}
use noba_server.Mono.Environment.{Environment, World, raise_alert, write, query}

-- `...(s && { key: s })`
abbrev pub keep_string : Option String → Option String
keep_string none = none
keep_string (some s) = if is_empty s then none else some s

unfoldable pub convert_to_domain_transaction : MonoRow → MonoTransaction
convert_to_domain_transaction r = record {
  id = r.id;
  noba_transaction_id = r.noba_transaction_id;
  state = r.state;
  type = r.type;
  created_timestamp = r.created_timestamp;
  updated_timestamp = r.updated_timestamp;
  collection_link_deposit_details = elim r.type [
    | MonoTransactionType.collection_link_deposit ↦ some (record {
      collection_link_id = r.collection_link_id;
      collection_url = r.collection_url;
      mono_payment_transaction_id = keep_string r.mono_payment_transaction_id;
    })
    | MonoTransactionType.withdrawal ↦ none
  ];
  withdrawal_details = elim r.type [
    | MonoTransactionType.collection_link_deposit ↦ none
    | MonoTransactionType.withdrawal ↦ some (record {
      transfer_id = r.transfer_id;
      batch_id = r.batch_id;
      declination_reason = keep_string r.declination_reason;
    })
  ];
}

-- `Joi.string().required()` and `Joi.string().optional()` on a value that may be missing.
abbrev required : Joi → Option String → Bool
required joi none = false
required joi (some s) = joi.required_string s

abbrev optional : Joi → Option String → Bool
optional joi none = true
optional joi (some s) = joi.required_string s

abbrev valid_deposit : Joi → Option MonoCollectionLinkDeposits → Bool
valid_deposit joi none = true
valid_deposit joi (some d) =
    required joi d.collection_link_id
    && required joi d.collection_url
    && optional joi d.mono_payment_transaction_id

abbrev valid_withdrawal : Joi → Option MonoWithdrawals → Bool
valid_withdrawal joi none = true
valid_withdrawal joi (some d) =
    required joi d.transfer_id && required joi d.batch_id && optional joi d.declination_reason

abbrev has_no_details : MonoTransactionSaveRequest → Bool
has_no_details r = elim r.collection_link_deposit_details [
  | some _ ↦ false
  | none ↦ elim r.withdrawal_details [ some _ ↦ false | none ↦ true ]
]

abbrev from_deposit :
    (MonoCollectionLinkDeposits → Option String) → Option MonoCollectionLinkDeposits → Option String
from_deposit field none = none
from_deposit field (some d) = field d

abbrev from_withdrawal : (MonoWithdrawals → Option String) → Option MonoWithdrawals → Option String
from_withdrawal field none = none
from_withdrawal field (some d) = field d

unfoldable pub to_create_input : MonoTransactionSaveRequest → MonoCreateInput
to_create_input r = record {
  noba_transaction_id = r.noba_transaction_id;
  type = r.type;
  state = MonoTransactionState.pending;
  collection_link_id = from_deposit (λ d. d.collection_link_id) r.collection_link_deposit_details;
  collection_url = from_deposit (λ d. d.collection_url) r.collection_link_deposit_details;
  transfer_id = from_withdrawal (λ d. d.transfer_id) r.withdrawal_details;
  batch_id = from_withdrawal (λ d. d.batch_id) r.withdrawal_details;
  declination_reason = from_withdrawal (λ d. d.declination_reason) r.withdrawal_details;
}

unfoldable pub to_update_input : MonoTransactionUpdateRequest → MonoTransactionUpdateRequest
to_update_input r = record {
  state = r.state;
  mono_payment_transaction_id = keep_string r.mono_payment_transaction_id;
  declination_reason = keep_string r.declination_reason;
}

module _ {B M E : Type 0} (env : Environment B M E) where
  unfoldable pub validate_save_mono_transaction_request :
      MonoTransactionSaveRequest → Action (World B M E) (Unit {0})
  validate_save_mono_transaction_request r =
      throw_if
        (not (
          env.joi.required_string r.noba_transaction_id
          && valid_deposit env.joi r.collection_link_deposit_details
          && valid_withdrawal env.joi r.withdrawal_details))
        validation_error
      >> throw_if (has_no_details r) (service unable_to_process)

  unfoldable pub validate_update_mono_transaction_request : MonoTransactionUpdateRequest → Bool
  validate_update_mono_transaction_request r =
      optional env.joi r.mono_payment_transaction_id && optional env.joi r.declination_reason

  unfoldable pub validate_mono_transaction : MonoTransaction → Bool
  validate_mono_transaction t =
      env.joi.required_string t.id
      && env.joi.required_string t.noba_transaction_id
      && valid_deposit env.joi t.collection_link_deposit_details
      && valid_withdrawal env.joi t.withdrawal_details

  unfoldable pub create_mono_transaction :
      MonoTransactionSaveRequest → Action (World B M E) MonoTransaction
  create_mono_transaction request = do
    validate_save_mono_transaction_request request
    row ←
        try_catch (write (env.create (to_create_input request)))
          (λ _. raise_alert error >> throw (repo_exception database_internal_error))
    let saved = convert_to_domain_transaction row
    try_catch (throw_if (not (validate_mono_transaction saved)) validation_error >> pure saved)
        (λ _. raise_alert error >> throw (repo_exception invalid_database_record))

  abbrev update_error : Exception → Exception
  update_error e =
      if env.is_missing_record e
      then repo_exception not_found
      else repo_exception database_internal_error

  unfoldable pub update_mono_transaction :
      String → MonoTransactionUpdateRequest → Action (World B M E) MonoTransaction
  update_mono_transaction id request = do
    throw_if (not (validate_update_mono_transaction_request request)) validation_error
    try_catch
        (do
          row ← write (env.update id (to_update_input request))
          pure (convert_to_domain_transaction row))
        (λ e. raise_alert error >> throw (update_error e))

  abbrev pub domain_of : Option MonoRow → Option MonoTransaction
  domain_of none = none
  domain_of (some r) = some (convert_to_domain_transaction r)

  -- A search that reports the database's error and throws one of the repository's.
  unfoldable pub search :
      (M → Result (Option MonoRow)) → Action (World B M E) (Option MonoTransaction)
  search f =
      try_catch (query f >>= λ found. pure (domain_of found))
        (λ _. raise_alert error >> throw (repo_exception database_internal_error))

  unfoldable pub get_mono_transaction_by_noba_transaction_id :
      String → Action (World B M E) (Option MonoTransaction)
  unfolding search
  get_mono_transaction_by_noba_transaction_id id = search (env.find_by_noba_transaction_id id)

  unfoldable pub get_mono_transaction_by_collection_link_id :
      String → Action (World B M E) (Option MonoTransaction)
  unfolding search
  get_mono_transaction_by_collection_link_id id = search (env.find_by_collection_link_id id)

  unfoldable pub get_mono_transaction_by_transfer_id :
      String → Action (World B M E) (Option MonoTransaction)
  unfolding search
  get_mono_transaction_by_transfer_id id = search (env.find_by_transfer_id id)
