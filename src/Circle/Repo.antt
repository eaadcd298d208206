-- ===== src/Circle/Repo.antt =====
-- src/modules/circle/repos/sql.circle.repo.ts, and the validations of circle/domain/Circle.ts.
use noba_server.Common.Base.{String, Bool, true, false, ◌&&◌, not, Option, none, some}
use noba_server.Common.Amount.{Amount, is_truthy}
use noba_server.Common.Alert.{error}
use noba_server.Common.Exception.{
  repo_exception, not_found, invalid_database_record, database_internal_error, validation_error,
  type_error,
}
use noba_server.Common.Action.{Action, pure, throw, try_catch, throw_if, ◌>>=◌, ◌>>◌}
use noba_server.Circle.Domain.{Circle, CircleCreateRequest, CircleUpdateRequest}
use noba_server.Circle.Environment.{Environment, World, raise_alert, write, query}

-- A balance that is absent or zero is dropped.
abbrev truthy_balance : Option Amount → Option Amount
truthy_balance none = none
truthy_balance (some a) = elim (is_truthy a) [ true ↦ some a | false ↦ none ]

unfoldable pub convert_to_domain_circle : Circle → Circle
convert_to_domain_circle c = record c { current_balance = truthy_balance c.current_balance }

module _ {E D : Type 0} (env : Environment E D) where
  unfoldable pub validate_circle_create_request : CircleCreateRequest → Bool
  validate_circle_create_request r =
      env.joi.required_string r.wallet_id && env.joi.required_string r.consumer_id

  unfoldable pub validate_circle_update_request : CircleUpdateRequest → Bool
  validate_circle_update_request r = env.joi.optional_number r.current_balance

  unfoldable pub validate_circle : Circle → Bool
  validate_circle c =
      env.joi.required_string c.id
      && env.joi.required_string c.wallet_id
      && env.joi.required_string c.consumer_id
      && env.joi.optional_number c.current_balance

  unfoldable pub add_consumer_circle_wallet_id : CircleCreateRequest → Action (World E D) Circle
  unfolding validate_circle_create_request convert_to_domain_circle validate_circle
  add_consumer_circle_wallet_id request = do
    throw_if (not (validate_circle_create_request request)) validation_error
    returned ←
        try_catch (write (env.create request))
          (λ _. raise_alert error >> throw (repo_exception database_internal_error))
    let saved = convert_to_domain_circle returned
    try_catch (throw_if (not (validate_circle saved)) validation_error >> pure saved)
        (λ _. raise_alert error >> throw (repo_exception invalid_database_record))

  -- `none` is a failed Result.
  unfoldable pub get_circle_wallet_id : String → Action (World E D) (Option String)
  get_circle_wallet_id consumer_id = do
    returned ← query (env.find_unique consumer_id)
    pure (elim returned [ none ↦ none | some row ↦ some row.wallet_id ])

  unfoldable pub update_current_balance : String → CircleUpdateRequest → Action (World E D) Circle
  unfolding validate_circle_update_request convert_to_domain_circle
  update_current_balance wallet_id request = do
    throw_if (not (validate_circle_update_request request)) validation_error
    try_catch
        (do
          returned ← write (env.update wallet_id request)
          pure (convert_to_domain_circle returned))
        (λ _. raise_alert error >> throw (repo_exception not_found))

  -- Reading the balance of a row that is not there throws, and is caught.
  abbrev balance_of_row : Option Circle → Action (World E D) (Option Amount)
  balance_of_row none = throw type_error
  balance_of_row (some row) = pure row.current_balance

  unfoldable pub get_circle_balance : String → Action (World E D) (Option Amount)
  get_circle_balance consumer_or_wallet_id =
      try_catch (query (env.find_first consumer_or_wallet_id) >>= balance_of_row)
        (λ _. raise_alert error >> pure none)
