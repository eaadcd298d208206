-- ===== src/Consumers/Environment.antt =====
-- What the consumers call and do not implement: their table, the filter of bad words, the random
-- numbers, Joi, and the notifications.
use noba_server.Common.Base.{ℕ, suc, Bool, Option, List, ◌∷◌}
use noba_server.Common.Text.{Text}
use noba_server.Common.Alert.{Alert}
use noba_server.Common.Action.{Action, Result, ok}
use noba_server.Otps.Environment as Otps
use noba_server.Consumers.Domain.{Consumer, ConsumerUpdate}

-- The state: the table, that of the one-time passwords, the notifications, the alerts, the latest
-- first, and how many random numbers were drawn.
pub record World (C T N : Type 0) : Type 0 where
  pub table : C
  pub otps : Otps.World T
  pub notifications : N
  pub alerts : List Alert
  pub drawn : ℕ

pub record Environment (C T N : Type 0) : Type 0 where
  pub otps : Otps.Environment T
  -- `Math.random().toString(36).substring(2, 5).toUpperCase()`, `Utils.generateOTP()`, the
  -- override of it, `Utils.get6DigitDate()`, and `Utils.TEST_USER_EMAIL`
  pub random_text : ℕ → Text
  pub random_otp : ℕ → ℕ
  pub otp_override : Option ℕ
  pub six_digit_date : ℕ
  pub test_user_email : Text
  pub has_bad_word : Text → Bool
  pub to_lower_case : Text → Text
  -- the checks of `Consumer.createConsumer` on the date of birth and the gender, and those of Joi
  pub validate : Consumer → Result (Unit {0})
  -- the repository: `getConsumer`, `getConsumerByHandle`, `getConsumerByEmail` and
  -- `getConsumerByPhone`, none where they fail, `isHandleTaken`, `updateConsumer`
  pub get_consumer : Text → C → Result (Option Consumer)
  pub get_consumer_by_handle : Text → C → Result (Option Consumer)
  pub get_consumer_by_email : Text → C → Option Consumer
  pub get_consumer_by_phone : Text → C → Option Consumer
  pub find_consumers_by_public_info : Text → (limit : ℕ) → C → Option (List Consumer)
  pub is_handle_taken : Text → C → Result Bool
  pub update_consumer : Text → ConsumerUpdate → C → Result Consumer × C
  -- the code to a phone number and to an email address, the welcome to a consumer, and the event
  -- of the registration
  pub send_phone_code : (otp : ℕ) → (phone : Text) → N → Result (Unit {0}) × N
  pub send_email_code : (otp : ℕ) → (email : Text) → Consumer → N → Result (Unit {0}) × N
  pub send_welcome : Consumer → N → Result (Unit {0}) × N
  pub raise_registration : Consumer → N → Result (Unit {0}) × N

module _ {C T N : Type 0} where
  abbrev pub raise_error : Action (World C T N) (Unit {0})
  raise_error w = (ok tt, record w { alerts = Alert.error ∷ w.alerts })

  abbrev pub write : {A : Type 0} → (C → Result A × C) → Action (World C T N) A
  write f w = let (r, c) = f w.table in (r, record w { table = c })

  abbrev pub query : {A : Type 0} → (C → Result A) → Action (World C T N) A
  query f w = (f w.table, w)

  abbrev pub notify : {A : Type 0} → (N → Result A × N) → Action (World C T N) A
  notify f w = let (r, n) = f w.notifications in (r, record w { notifications = n })

  -- A call of the service of one-time passwords.
  abbrev pub with_otps : {A : Type 0} → Action (Otps.World T) A → Action (World C T N) A
  with_otps m w = let (r, o) = m w.otps in (r, record w { otps = o })

  abbrev pub draw : {A : Type 0} → (ℕ → A) → Action (World C T N) A
  draw f w = (ok (f w.drawn), record w { drawn = suc w.drawn })
