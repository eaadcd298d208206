-- ===== src/Pomelo/Repo.antt =====
-- src/modules/pomelo/repos/sql.pomelo.repo.ts: the transactions, and who holds a card, with the
-- validations of pomelo/domain/PomeloTransaction.ts. Joi's checks that the types make true are left
-- out; the tables of users and cards are not modelled.
use noba_server.Common.Base.{
  String, Bool, true, not, ◌&&◌, Option, none, some, if◌then◌else◌, is_empty,
}
use noba_server.Common.Exception.{
  repo_exception, not_found, invalid_database_record, database_internal_error, validation_error,
  Exception,
}
use noba_server.Common.Action.{Action, Result, pure, throw, throw_if, try_catch, ◌>>=◌, ◌>>◌}
use noba_server.Common.Joi.{Joi}
use noba_server.Pomelo.Domain.{
  PomeloTransaction, PomeloTransactionStatus, PomeloTransactionSaveRequest,
}
use noba_server.Pomelo.Environment.{Environment, World, raise_error, write, query}

-- `Joi.string().required().allow(null)`
abbrev required_or_null : Joi → Option String → Bool
required_or_null joi none = true
required_or_null joi (some s) = joi.required_string s

-- A parent with a falsy id is not connected.
abbrev connect_parent : Option String → Option String
connect_parent none = none
connect_parent (some id) = if is_empty id then none else some id

module _ {S P : Type 0} (env : Environment S P) where
  unfoldable pub validate_save_pomelo_transaction_request : PomeloTransactionSaveRequest → Bool
  validate_save_pomelo_transaction_request r =
      env.joi.required_string r.pomelo_transaction_id
      && env.joi.required_string r.settlement_date
      && required_or_null env.joi r.parent_pomelo_transaction_id
      && env.joi.required_string r.pomelo_idempotency_key
      && env.joi.required_string r.noba_transaction_id
      && env.joi.required_string r.pomelo_card_id
      && env.joi.required_string r.pomelo_user_id
      && env.joi.required_number r.amount_in_usd
      && env.joi.required_number r.local_amount
      && env.joi.required_number r.settlement_amount
      && env.joi.required_number r.transaction_amount
      && env.joi.required_string r.country_code
      && env.joi.required_string r.merchant_name
      && env.joi.required_string r.merchant_mcc

  unfoldable pub validate_pomelo_transaction : PomeloTransaction → Bool
  validate_pomelo_transaction t =
      env.joi.required_string t.id
      && env.joi.required_string t.pomelo_transaction_id
      && required_or_null env.joi t.parent_pomelo_transaction_id
      && env.joi.required_string t.settlement_date
      && env.joi.required_string t.pomelo_idempotency_key
      && env.joi.required_string t.noba_transaction_id
      && env.joi.required_string t.pomelo_card_id
      && env.joi.required_string t.pomelo_user_id
      && env.joi.required_number t.amount_in_usd
      && env.joi.required_number t.local_amount
      && env.joi.required_number t.settlement_amount
      && env.joi.required_number t.transaction_amount
      && env.joi.required_string t.country_code
      && env.joi.required_string t.merchant_name
      && env.joi.required_string t.merchant_mcc

  -- What `prisma.pomeloTransaction.create` is given, besides the status.
  unfoldable pub to_create_input : PomeloTransactionSaveRequest → PomeloTransactionSaveRequest
  to_create_input r = record r {
    parent_pomelo_transaction_id = connect_parent r.parent_pomelo_transaction_id;
  }

  unfoldable pub create_pomelo_transaction :
      PomeloTransactionSaveRequest → Action (World S P) PomeloTransaction
  create_pomelo_transaction request = do
    throw_if (not (validate_save_pomelo_transaction_request request)) validation_error
    saved ←
        try_catch (write (env.create (to_create_input request) PomeloTransactionStatus.pending))
          (λ _. raise_error >> throw (repo_exception database_internal_error))
    try_catch (throw_if (not (validate_pomelo_transaction saved)) validation_error >> pure saved)
        (λ _. raise_error >> throw (repo_exception invalid_database_record))

  -- The error of a failed update.
  abbrev update_error : Exception → Exception
  update_error e =
      if env.is_missing_record e
      then repo_exception not_found
      else repo_exception database_internal_error

  unfoldable pub update_pomelo_transaction_status :
      String → PomeloTransactionStatus → Action (World S P) (Unit {0})
  update_pomelo_transaction_status id status =
      try_catch (write (env.update_status id status) >> pure tt)
        (λ e. raise_error >> throw (update_error e))

  -- A lookup that reports the database's error and hides it behind one of the repository's.
  unfoldable pub find_row : {A : Type 0} → (P → Result (Option A)) → Action (World S P) (Option A)
  find_row f =
      try_catch (query f) (λ _. raise_error >> throw (repo_exception database_internal_error))

  unfoldable pub get_pomelo_transaction_by_noba_transaction_id :
      String → Action (World S P) (Option PomeloTransaction)
  unfolding find_row
  get_pomelo_transaction_by_noba_transaction_id id = find_row (env.find_by_noba_transaction_id id)

  unfoldable pub get_pomelo_transaction_by_pomelo_idempotency_key :
      String → Action (World S P) (Option PomeloTransaction)
  unfolding find_row
  get_pomelo_transaction_by_pomelo_idempotency_key key = find_row (env.find_by_idempotency_key key)

  unfoldable pub get_pomelo_transaction_by_pomelo_transaction_id :
      String → Action (World S P) (Option PomeloTransaction)
  unfolding find_row
  get_pomelo_transaction_by_pomelo_transaction_id id =
      find_row (env.find_by_pomelo_transaction_id id)

  unfoldable pub get_noba_consumer_id_holding_pomelo_card :
      (card user : String) → Action (World S P) (Option String)
  unfolding find_row
  get_noba_consumer_id_holding_pomelo_card card user = find_row (env.find_card_consumer card user)
