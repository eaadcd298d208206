-- ===== src/Consumers/Service.antt =====
-- src/modules/consumer/consumer.service.ts: updates, handles and contacts of a consumer.
use noba_server.Common.Base.{
  ℕ, zero, suc, ◌+◌, ltb, Bool, not, ◌&&◌, Option, none, some, [], String, if◌then◌else◌,
}
use noba_server.Common.Text.{Text, is_email, trim}
use noba_server.Common.Exception.{
  service, unable_to_process, unknown, bad_request_error, type_error, not_implemented_error,
}
use noba_server.Common.Action.{
  Action, pure, throw, throw_if, try_catch, from_result, gets, ◌>>=◌, ◌>>◌,
}
use noba_server.Otps.Environment.{IdentityType}
use noba_server.Otps.Service as Otps
use noba_server.Consumers.Domain.{
  Consumer, ConsumerUpdate, is_truthy_text, is_truthy_string, with_updates, predict_locale,
}
use noba_server.Consumers.Environment.{
  Environment, World, raise_error, write, query, notify, with_otps, draw,
}
use noba_server.Consumers.Handles.{analyse_handle, generate_default_handle}

abbrev trimmed : Option Text → Option Text
trimmed none = none
trimmed (some s) = some (trim s)

abbrev pub trim_consumer_props : ConsumerUpdate → ConsumerUpdate
trim_consumer_props u = record u {
  first_name = trimmed u.first_name;
  last_name = trimmed u.last_name;
}

abbrev pub with_handle : ConsumerUpdate → Text → ConsumerUpdate
with_handle u handle = record u { handle = some handle }

abbrev pub named_locale : Option String → ConsumerUpdate → ConsumerUpdate
named_locale none u = u
named_locale (some locale) u = record u { locale = some locale }

module _ {C T N : Type 0} (env : Environment C T N) where
  unfoldable pub is_handle_available : Text → Action (World C T N) Bool
  is_handle_available handle =
      from_result (analyse_handle env.has_bad_word handle)
      >> (query (env.is_handle_taken handle) >>= λ taken. pure (not taken))

  unfoldable pub draw_handle : (first_name last_name : Text) → Action (World C T N) (Option Text)
  draw_handle first_name last_name =
      draw (λ n. generate_default_handle first_name last_name (env.random_text n))

  -- The loop of `updateConsumer`, with fuel: no handle where it runs out.
  unfoldable pub find_handle :
      (first_name last_name : Text)
      → (fuel counter : ℕ) → Option Text
      → Action (World C T N) (Option Text)
  find_handle first_name last_name fuel counter none = pure none
  find_handle first_name last_name zero counter (some handle) = pure none
  find_handle first_name last_name (suc fuel) counter (some handle) =
      is_handle_available handle >>= λ available.
      if available
      then pure (some handle)
      else (throw_if (ltb 5 counter) (service unable_to_process)
          >> (draw_handle first_name last_name
              >>= find_handle first_name last_name fuel (counter + 1)))

  -- With fuel for seven handles.
  unfoldable pub new_handle : (first_name last_name : Text) → Action (World C T N) (Option Text)
  new_handle first_name last_name =
      draw_handle first_name last_name >>= find_handle first_name last_name 7 0

  unfoldable pub needs_handle : Consumer → Bool
  needs_handle c =
      not (is_truthy_text c.handle) && is_truthy_text c.first_name && is_truthy_text c.last_name

  abbrev pub or_empty : Option Text → Text
  or_empty none = []
  or_empty (some s) = s

  abbrev pub with_new : ConsumerUpdate → Option Text → Action (World C T N) ConsumerUpdate
  with_new u none = throw (service unknown)
  with_new u (some h) = pure (with_handle u h)

  unfoldable pub generate_handle : Consumer → ConsumerUpdate → Action (World C T N) ConsumerUpdate
  generate_handle consumer u =
      new_handle (or_empty consumer.first_name) (or_empty consumer.last_name) >>= with_new u

  unfoldable pub check_named : ConsumerUpdate → Option Text → Action (World C T N) ConsumerUpdate
  check_named u none = pure u
  check_named u (some h) = from_result (analyse_handle env.has_bad_word h) >> pure u

  unfoldable pub choose_handle : Consumer → ConsumerUpdate → Action (World C T N) ConsumerUpdate
  choose_handle consumer u =
      if needs_handle consumer then generate_handle consumer u else check_named u u.handle

  -- `Consumer.createConsumer`, where there is an id.
  unfoldable pub create_consumer : Consumer → Action (World C T N) (Unit {0})
  create_consumer c =
      throw_if (not (is_truthy_text c.phone) && not (is_truthy_text c.email)) not_implemented_error
      >> from_result (env.validate c)

  unfoldable pub choose_locale : Consumer → ConsumerUpdate → ConsumerUpdate
  choose_locale consumer u =
      let named = named_locale (predict_locale (with_updates consumer u)) u in
      if is_truthy_string (with_updates consumer u).locale then u else named

  unfoldable pub store_update : Consumer → ConsumerUpdate → Action (World C T N) Consumer
  store_update consumer u =
      try_catch (write (env.update_consumer consumer.id u))
        (λ _. raise_error >> throw (service unable_to_process))

  abbrev pub save_chosen : Consumer → ConsumerUpdate → Action (World C T N) Consumer
  save_chosen consumer chosen =
      let u = choose_locale consumer chosen in
      create_consumer (with_updates consumer u) >> store_update consumer u

  abbrev pub update_found : ConsumerUpdate → Option Consumer → Action (World C T N) Consumer
  update_found asked none = throw type_error
  update_found asked (some consumer) =
      choose_handle consumer (trim_consumer_props asked) >>= save_chosen consumer

  unfoldable pub update_consumer : ConsumerUpdate → Action (World C T N) Consumer
  update_consumer asked = query (env.get_consumer asked.id) >>= update_found asked

  unfoldable pub find_consumer_by_email_or_phone : Text → Action (World C T N) (Option Consumer)
  find_consumer_by_email_or_phone email_or_phone = do
    email ← from_result (is_email email_or_phone)
    gets (λ w.
        if email
        then env.get_consumer_by_email (env.to_lower_case email_or_phone) w.table
        else env.get_consumer_by_phone email_or_phone w.table)

  abbrev pub refuse_existing : Option Consumer → Action (World C T N) (Unit {0})
  refuse_existing none = pure tt
  refuse_existing (some _) = throw bad_request_error

  abbrev pub check_otp : Text → ℕ → Action (World C T N) Bool
  check_otp identifier otp =
      with_otps
        (Otps.check_if_otp_is_valid_and_cleanup env.otps identifier IdentityType.consumer otp)

  abbrev pub no_updates : Text → ConsumerUpdate
  no_updates id = record {
    id = id;
    first_name = none;
    last_name = none;
    email = none;
    display_email = none;
    handle = none;
    phone = none;
    locale = none;
  }

  abbrev pub phone_update : (id phone : Text) → ConsumerUpdate
  phone_update id phone = record (no_updates id) { phone = some phone }

  unfoldable pub update_consumer_phone :
      Consumer → (phone : Text) → (otp : ℕ) → Action (World C T N) Consumer
  update_consumer_phone consumer phone otp = do
    valid ← check_otp phone otp
    throw_if (not valid) bad_request_error
    existing ← find_consumer_by_email_or_phone phone
    refuse_existing existing
    update_consumer (phone_update consumer.id phone)

  unfoldable pub complete_signup : Consumer → Action (World C T N) (Unit {0})
  complete_signup consumer =
      notify (env.send_welcome consumer) >> notify (env.raise_registration consumer)

  unfoldable pub update_consumer_email :
      Consumer → (email : Text) → (otp : ℕ) → Action (World C T N) Consumer
  update_consumer_email consumer email otp = do
    valid ← check_otp email otp
    throw_if (not valid) bad_request_error
    existing ← find_consumer_by_email_or_phone email
    refuse_existing existing
    updated ← update_consumer (record (no_updates consumer.id) {
      email = some (env.to_lower_case email);
      display_email = some email;
    })
    (if is_truthy_text consumer.email then pure tt else complete_signup updated) >> pure updated
