-- ===== src/Otps/Service.antt =====
-- src/modules/common/otp.service.ts, and repo/sql.otp.repo.ts below it.
use noba_server.Common.Base.{
  ℕ, ◌+◌, ◌*◌, ◌==◌, ltb, String, Bool, true, false, Option, none, some, if◌then◌else◌,
}
use noba_server.Common.Text.{Text, is_email, strip_spaces, strip_non_phone_chars}
use noba_server.Common.Exception.{bad_request_error}
use noba_server.Common.Action.{
  Action, Result, ok, err, pure, throw, try_catch, from_result, ◌>>=◌, ◌>>◌,
}
use noba_server.Otps.Environment.{
  IdentityType, OtpProps, OtpCreateInput, World, Environment, write, query, now,
}

-- What an identifier is stored under.
unfoldable pub stripped : Text → Result Text
stripped identifier = elim (is_email identifier) [
  | ok email ↦ ok (if email then strip_spaces identifier else strip_non_phone_chars identifier)
  | err e ↦ err e
]

abbrev pub expiry_time_in_minutes : ℕ
expiry_time_in_minutes = 15

module _ {T : Type 0} (env : Environment T) where
  -- A row that Joi refuses counts as none.
  abbrev pub valid_row : Option OtpProps → Option OtpProps
  valid_row none = none
  valid_row (some row) = if env.is_valid row then some row else none

  -- An error of the database counts as no row.
  unfoldable pub get_otp : Text → IdentityType → Action (World T) (Option OtpProps)
  get_otp identifier type =
      try_catch (query (env.find_unique identifier type) >>= λ found. pure (valid_row found))
        (λ _. pure none)

  abbrev pub create_input :
      Text → ℕ → IdentityType → (created updated expiring : ℕ) → OtpCreateInput
  create_input identifier otp type created updated expiring = record {
    otp_identifier = identifier;
    identity_type = type;
    otp = otp;
    created_timestamp = created;
    updated_timestamp = updated;
    otp_expiration_timestamp = expiring + expiry_time_in_minutes * 60_000;
  }

  unfoldable pub save_otp_in_repo : Text → ℕ → IdentityType → Action (World T) (Unit {0})
  save_otp_in_repo identifier otp type =
      try_catch
        (do
          created ← now env
          updated ← now env
          expiring ← now env
          _ ← write (env.create (create_input identifier otp type created updated expiring))
          pure tt)
        (λ _. throw bad_request_error)

  -- An error is only logged.
  unfoldable pub delete_otp : String → Action (World T) (Unit {0})
  delete_otp id = try_catch (write (env.delete id)) (λ _. pure tt)

  unfoldable pub delete_all_otps_for_identifier : Text → IdentityType → Action (World T) (Unit {0})
  delete_all_otps_for_identifier identifier type =
      try_catch (write (env.delete_many identifier type)) (λ _. pure tt)

  unfoldable pub delete_all_expired_otps : Action (World T) (Unit {0})
  delete_all_expired_otps =
      try_catch (now env >>= λ date. write (env.delete_expired date)) (λ _. pure tt)

  -- The clock is read only for a row with that password.
  unfoldable pub check_row : Option OtpProps → ℕ → Action (World T) Bool
  check_row none otp = pure false
  check_row (some row) otp =
      if row.otp == otp
      then (now env >>= λ time.
          if ltb row.otp_expiration_timestamp time
          then pure false
          else (delete_otp row.id >> pure true))
      else pure false

  unfoldable pub check_if_otp_is_valid_and_cleanup : Text → IdentityType → ℕ → Action (World T) Bool
  check_if_otp_is_valid_and_cleanup identifier type otp = do
    key ← from_result (stripped identifier)
    row ← get_otp key type
    check_row row otp

  unfoldable pub save_otp : Text → IdentityType → ℕ → Action (World T) (Unit {0})
  save_otp identifier type otp = do
    key ← from_result (stripped identifier)
    delete_all_otps_for_identifier key type
    save_otp_in_repo key otp type
