-- ===== src/Consumers/Tests.antt =====
-- Tests and examples of the consumers, on a table of one consumer.
use noba_server.Common.Base.{
  ◌≡◌, refl, ◌⊎◌, ◌+◌, ◌*◌, ◌≤◌, arith, ◌||◌, Option, none, some, [], ◌∷◌, true, false, Bool, ℕ,
  if◌then◌else◌,
}
use noba_server.Common.Text.{Text, is_one_of, keep, prefix, length, trim}
use noba_server.Common.Exception.{Exception, service, semantic_validation, bad_request_error}
use noba_server.Common.Action.{ok, err}
use noba_server.Otps.Environment.{IdentityType, OtpProps}
use noba_server.Otps.Environment as Otps
use noba_server.Otps.Checks.{IsAccepted}
use noba_server.Otps.Service.{
  stripped, get_otp, save_otp_in_repo, delete_otp, delete_all_otps_for_identifier, check_row,
  check_if_otp_is_valid_and_cleanup, save_otp,
}
use noba_server.Consumers.Passwords.{generate_otp, send_otp_to_phone, send_otp_to_phone-check}
use noba_server.Otps.Tests as Samples
use noba_server.Consumers.Domain.{
  Consumer, ConsumerUpdate, KycStatus, DocumentVerificationStatus, with_updates, predict_locale,
}
use noba_server.Consumers.Environment.{Environment, World}
use noba_server.Consumers.Handles.{
  all, pad, is_supported, is_alphanumeric, remove_all_unsupported_handle_characters,
  generate_default_handle, analyse_handle,
}
use noba_server.Consumers.Service.{
  is_handle_available, draw_handle, find_handle, new_handle, needs_handle, generate_handle,
  check_named, choose_handle, create_consumer, choose_locale, store_update, update_consumer,
  find_consumer_by_email_or_phone, update_consumer_phone, update_consumer_email, phone_update,
}
use noba_server.Consumers.Service
use noba_server.Consumers.Lookup.{
  is_active_consumer, active_consumers, lookup, get_active_consumer, find_consumers_by_public_info,
}
use noba_server.Consumers.Names.{starts_with_dash, generate_default_handle-IsAnalysed}
use noba_server.Consumers.Generation.{IsFree, new_handle-IsFree}
use noba_server.Consumers.Updates.{IsWritten, update_consumer-IsWritten}
use noba_server.Consumers.Contacts.{IsUnclaimed, update_consumer_phone_once}
use noba_server.Consumers.Standing.{IsInGoodStanding, get_active_consumer-IsInGoodStanding}

open_all : Unit {0}
unfolding stripped get_otp save_otp_in_repo delete_otp delete_all_otps_for_identifier check_row
    check_if_otp_is_valid_and_cleanup save_otp generate_otp send_otp_to_phone is_one_of keep prefix
    length trim all pad is_alphanumeric remove_all_unsupported_handle_characters
    generate_default_handle analyse_handle predict_locale is_active_consumer active_consumers lookup
    get_active_consumer find_consumers_by_public_info is_handle_available draw_handle find_handle
    new_handle needs_handle generate_handle check_named choose_handle create_consumer choose_locale
    store_update update_consumer find_consumer_by_email_or_phone update_consumer_phone
    update_consumer_email
open_all = tt

-- "Ana", "Diaz", "X1Z" and "Ana-DiX1Z"
abbrev ana : Text
ana = 65 ∷ 110 ∷ 97 ∷ []

abbrev diaz : Text
diaz = 68 ∷ 105 ∷ 97 ∷ 122 ∷ []

abbrev random : Text
random = 88 ∷ 49 ∷ 90 ∷ []

abbrev ana_di : Text
ana_di = 65 ∷ 110 ∷ 97 ∷ 45 ∷ 68 ∷ 105 ∷ 88 ∷ 49 ∷ 90 ∷ []

abbrev nothing_bad : Text → Bool
nothing_bad _ = false

names_ana : generate_default_handle ana diaz random ≡ some ana_di
unfolding open_all
names_ana = refl

-- "Ñ": the handle starts with a dash, and the check refuses it.
refuses_a_dash :
    generate_default_handle (209 ∷ []) diaz random ≡ some (45 ∷ 68 ∷ 105 ∷ 88 ∷ 49 ∷ 90 ∷ [])
unfolding open_all
refuses_a_dash = refl

refuses_a_dash' :
    analyse_handle nothing_bad (45 ∷ 68 ∷ 105 ∷ 88 ∷ 49 ∷ 90 ∷ [])
    ≡ err (service semantic_validation)
unfolding open_all
refuses_a_dash' = refl

generate_default_handle-IsAnalysed_example :
    (h : Text) × (generate_default_handle ana diaz random ≡ some h)
    × (3 ≤ length h)
    × (length h ≤ 16)
    × (all is_supported h ≡ true)
    × (analyse_handle nothing_bad h ≡ (
        if starts_with_dash h || nothing_bad h then err (service semantic_validation) else ok tt))
generate_default_handle-IsAnalysed_example =
    generate_default_handle-IsAnalysed ana diaz random nothing_bad

-- A consumer without a handle, in good standing.
abbrev consumer : Consumer
consumer = record {
  id = 49 ∷ [];
  first_name = some ana;
  last_name = some diaz;
  email = none;
  display_email = none;
  handle = none;
  phone = some Samples.plain;
  locale = none;
  country_code = some "CO";
  is_locked = false;
  is_disabled = false;
  verification_data = some (record {
    kyc_check_status = some KycStatus.approved;
    document_verification_status = some DocumentVerificationStatus.not_required;
  });
}

abbrev environment : Environment Consumer (Option OtpProps) ℕ
environment = record {
  otps = Samples.environment;
  random_text = λ n. random;
  random_otp = λ n. 123_456;
  otp_override = none;
  six_digit_date = 261_126;
  test_user_email = [];
  has_bad_word = nothing_bad;
  to_lower_case = λ s. s;
  validate = λ c. ok tt;
  get_consumer = λ id c. ok (some c);
  get_consumer_by_handle = λ handle c. ok none;
  get_consumer_by_email = λ email c. none;
  get_consumer_by_phone = λ phone c. none;
  find_consumers_by_public_info = λ search limit c. some (c ∷ []);
  is_handle_taken = λ handle c. ok false;
  update_consumer = λ id u c. (ok (with_updates c u), with_updates c u);
  send_phone_code = λ otp phone n. (ok tt, n + 1);
  send_email_code = λ otp email c n. (ok tt, n + 1);
  send_welcome = λ c n. (ok tt, n + 1);
  raise_registration = λ c n. (ok tt, n + 1);
}

abbrev start : World Consumer (Option OtpProps) ℕ
start = record { table = consumer; otps = Samples.saved; notifications = 0; alerts = []; drawn = 0 }

abbrev named : World Consumer (Option OtpProps) ℕ
named = (new_handle environment ana diaz start).1

names : new_handle environment ana diaz start ≡ (ok (some ana_di), named)
unfolding open_all
names = refl

new_handle-IsFree_example : IsFree environment 7 start (some ana_di) named
new_handle-IsFree_example = new_handle-IsFree environment ana diaz start names

abbrev asked : ConsumerUpdate
asked = phone_update environment consumer.id Samples.spaced

abbrev phoned : World Consumer (Option OtpProps) ℕ
phoned = (update_consumer environment asked start).1

-- The generated handle is stored, and the locale of the country.
abbrev changed : Consumer
changed = record consumer {
  handle = some ana_di;
  phone = some Samples.spaced;
  locale = some "es_co";
}

updates : update_consumer environment asked start ≡ (ok changed, phoned)
unfolding open_all
updates = refl

update_consumer-IsWritten_example : IsWritten environment asked start changed phoned
update_consumer-IsWritten_example = update_consumer-IsWritten environment asked start updates

abbrev verified : World Consumer (Option OtpProps) ℕ
verified = (update_consumer_phone environment consumer Samples.spaced 123_456 start).1

verifies :
    update_consumer_phone environment consumer Samples.spaced 123_456 start ≡ (ok changed, verified)
unfolding open_all
verifies = refl

update_consumer_phone_once_example :
    IsUnclaimed environment Samples.spaced consumer
    × ((written : ConsumerUpdate) × (written.id ≡ consumer.id)
        × (written.phone ≡ some Samples.spaced)
        × (written.email ≡ none)
        × ((checked : Otps.World (Option OtpProps)) × IsWritten environment written
              (record start { otps = checked })
              changed
              verified))
    × ((accepted : IsAccepted Samples.environment Samples.spaced IdentityType.consumer 123_456
          Samples.saved)
        × ((update_consumer_phone environment consumer Samples.spaced 123_456 verified
              ≡ (err bad_request_error, verified))
            ⊎ ((e : Exception) × (Samples.environment.delete accepted.row.id Samples.saved.table
                  ≡ (err e, verified.otps.table)))))
update_consumer_phone_once_example =
    update_consumer_phone_once environment Samples.table_laws consumer Samples.spaced 123_456 start
      verifies

can_transact : get_active_consumer environment (49 ∷ []) start ≡ (ok consumer, start)
unfolding open_all
can_transact = refl

get_active_consumer-IsInGoodStanding_example :
    IsInGoodStanding consumer
    × (lookup environment (49 ∷ []) consumer ≡ ok (some consumer))
    × (start ≡ start)
get_active_consumer-IsInGoodStanding_example =
    get_active_consumer-IsInGoodStanding environment (49 ∷ []) start can_transact

abbrev sent : World Consumer (Option OtpProps) ℕ
sent = (send_otp_to_phone environment Samples.spaced start).1

sends : send_otp_to_phone environment Samples.spaced start ≡ (ok tt, sent)
unfolding open_all
sends = refl

is_early :
    Samples.environment.clock sent.otps.readings
    ≤ Samples.environment.clock (start.otps.readings + 2) + 15 * 60_000
unfolding open_all
is_early = omega arith

send_otp_to_phone-check_example :
    (otp : ℕ) × ((generate_otp environment none start).0 ≡ ok otp)
    × (environment.send_phone_code otp Samples.spaced start.notifications
        ≡ (ok tt, sent.notifications))
    × ((Service.check_otp environment Samples.plain otp sent).0 ≡ ok true)
send_otp_to_phone-check_example =
    send_otp_to_phone-check environment Samples.table_laws Samples.spaced Samples.plain start sent
      sent sends Samples.strips refl is_early
