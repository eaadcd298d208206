-- ===== src/Otps/Tests.antt =====
-- Tests and examples of the one-time passwords, on a table of one row: they show that what is
-- assumed of the table can hold.
use noba_server.Common.Base.{
  ◌≡◌, refl, ◌⊎◌, ◌+◌, ◌*◌, ◌≤◌, Option, none, some, [], ◌∷◌, true, false, arith,
}
use noba_server.Common.Text.{Text, is_one_of, keep}
use noba_server.Common.Exception.{Exception}
use noba_server.Common.Action.{ok, err}
use noba_server.Otps.Environment.{IdentityType, OtpProps, OtpCreateInput, World, Environment}
use noba_server.Otps.Service.{
  stripped, get_otp, save_otp_in_repo, delete_otp, delete_all_otps_for_identifier, check_row,
  check_if_otp_is_valid_and_cleanup, save_otp,
}
use noba_server.Otps.Checks.{TableLaws, IsAccepted, check_otp_once}

open_all : Unit {0}
unfolding stripped get_otp save_otp_in_repo delete_otp delete_all_otps_for_identifier check_row
    check_if_otp_is_valid_and_cleanup save_otp is_one_of keep
open_all = tt

abbrev row_of : OtpCreateInput → OtpProps
row_of i = record {
  id = "otp-000001";
  otp_identifier = i.otp_identifier;
  identity_type = i.identity_type;
  otp = i.otp;
  otp_expiration_timestamp = i.otp_expiration_timestamp;
}

abbrev pub environment : Environment (Option OtpProps)
environment = record {
  clock = λ n. n;
  is_valid = λ row. true;
  find_unique = λ key type t. ok t;
  create = λ i t. (ok (row_of i), some (row_of i));
  delete = λ id t. (ok tt, none);
  delete_many = λ key type t. (ok tt, none);
  delete_expired = λ time t. (ok tt, none);
}

pub table_laws : TableLaws environment
table_laws = record {
  created = λ i t t' row h. (ground arith, refl, ground arith, ground arith);
  deleted = λ key type t t' row found h. ground arith;
}

-- "+57 3" and "+573".
abbrev pub spaced : Text
spaced = 43 ∷ 53 ∷ 55 ∷ 32 ∷ 51 ∷ []

abbrev pub plain : Text
plain = 43 ∷ 53 ∷ 55 ∷ 51 ∷ []

pub strips : stripped plain ≡ stripped spaced
unfolding open_all
strips = refl

abbrev start : World (Option OtpProps)
start = record { table = none; readings = 0 }

abbrev pub saved : World (Option OtpProps)
saved = (save_otp environment spaced IdentityType.consumer 123_456 start).1

pub saves : save_otp environment spaced IdentityType.consumer 123_456 start ≡ (ok tt, saved)
unfolding open_all
saves = refl

is_early : environment.clock saved.readings ≤ environment.clock (start.readings + 2) + 15 * 60_000
unfolding open_all
is_early = omega arith

abbrev checked : World (Option OtpProps)
checked =
    (check_if_otp_is_valid_and_cleanup environment plain IdentityType.consumer 123_456 saved).1

checks :
    check_if_otp_is_valid_and_cleanup environment plain IdentityType.consumer 123_456 saved
    ≡ (ok true, checked)
unfolding open_all
checks = refl

refuses_another :
    (check_if_otp_is_valid_and_cleanup environment plain IdentityType.consumer 123_457 saved).0
    ≡ ok false
unfolding open_all
refuses_another = refl

check_otp_once_example :
    (accepted : IsAccepted environment plain IdentityType.consumer 123_456 saved)
    × ((check_if_otp_is_valid_and_cleanup environment plain IdentityType.consumer 123_456 checked
          ≡ (ok false, checked))
        ⊎ ((e : Exception) × (environment.delete accepted.row.id saved.table
              ≡ (err e, checked.table))))
check_otp_once_example =
    check_otp_once environment table_laws plain IdentityType.consumer 123_456 saved checks
