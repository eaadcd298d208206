-- ===== src/Limits/Tests.antt =====
-- Tests and examples of the limits.
use noba_server.Common.Base.{◌≡◌, refl, true, false, none, some, [], ◌∷◌, ◌⊎◌, arith, List}
use noba_server.Common.Int.{pos, ◌+ℤ◌, ◌-ℤ◌}
use noba_server.Common.Amount.{Amount, cents}
use noba_server.Common.Action.{ok}
use noba_server.Limits.Domain.{
  TransactionType, LimitConfiguration, LimitProfile, TransactionAllowedStatus, CheckTransactionDto,
  Consumer,
}
use noba_server.Limits.Service.{
  Environment, World, find, match_config, all_limit_configs, get_limits, can_make_transaction,
  reply,
}
use noba_server.Limits.Check.{Usage, IsUsage}
use noba_server.Limits.Offer.{IsOffered, can_make_transaction-IsOffered}
use noba_server.Limits.Selection.{IsChosen, get_limits-IsChosen}

open_all : Unit {0}
unfolding find match_config all_limit_configs get_limits can_make_transaction ◌+ℤ◌ ◌-ℤ◌
open_all = tt

-- Dollars between 50 and 200, 2000 a month.
abbrev profile : LimitProfile
profile = record {
  id = "profile-1";
  name = "default";
  daily = none;
  weekly = none;
  monthly = cents 200000;
  max_transaction = cents 20000;
  min_transaction = cents 5000;
  unsettled_exposure = none;
}

abbrev fallback : LimitConfiguration
fallback = record {
  is_default = true;
  profile_id = "profile-1";
  transaction_type = none;
  min_profile_age = none;
  min_total_transaction_amount = none;
  payment_method_type = none;
}

abbrev trusted : LimitConfiguration
trusted = record {
  is_default = false;
  profile_id = "profile-2";
  transaction_type = some TransactionType.noba_wallet;
  min_profile_age = some (pos 30);
  min_total_transaction_amount = none;
  payment_method_type = none;
}

-- The database is what was spent in the month.
abbrev environment : Environment Amount
environment = record {
  get_all_limit_configs = λ d. ok (trusted ∷ fallback ∷ []);
  get_profile = λ id d. ok (some profile);
  get_total_user_transaction_amount = λ id d. ok d;
  get_monthly_user_transaction_amount = λ id d. ok d;
  get_weekly_user_transaction_amount = λ id d. ok (cents 0);
  get_daily_user_transaction_amount = λ id d. ok (cents 0);
}

abbrev consumer : Consumer
consumer = record { id = "consumer-1"; account_age = pos 3 }

abbrev spent : Usage
spent = record { monthly = cents 185000; weekly = cents 0; daily = cents 0 }

abbrev fresh : World Amount
fresh = record { all_limit_configs = none; database = cents 185000 }

abbrev kept : World Amount
kept = record { all_limit_configs = some (trusted ∷ fallback ∷ []); database = cents 185000 }

profile_is_found :
    get_limits environment consumer (some TransactionType.noba_wallet) none fresh
    ≡ (ok (some profile), kept)
unfolding open_all
profile_is_found = refl

spent-IsUsage : IsUsage environment consumer spent kept
spent-IsUsage = record { monthly = refl; weekly = refl; daily = refl }

abbrev refusal : CheckTransactionDto
refusal = reply TransactionAllowedStatus.monthly_limit_reached (cents 5000) (cents 15000)

is_refused :
    can_make_transaction environment consumer (cents 16000) TransactionType.noba_wallet none fresh
    ≡ (ok refusal, kept)
unfolding open_all
is_refused = refl

can_make_transaction-IsOffered_example :
    IsOffered profile spent TransactionAllowedStatus.monthly_limit_reached (cents 15000)
can_make_transaction-IsOffered_example =
    can_make_transaction-IsOffered environment consumer (cents 16000) TransactionType.noba_wallet
      none fresh profile_is_found spent-IsUsage is_refused (cents 15000) (omega arith) (omega arith)
      (omega arith)

get_limits-IsChosen_example :
    (configs : List LimitConfiguration) × (kept
      ≡ record { all_limit_configs = some configs; database = cents 185000 })
    × ((fresh.all_limit_configs ≡ some configs)
        ⊎ ((fresh.all_limit_configs ≡ none)
            × (environment.get_all_limit_configs (cents 185000) ≡ ok configs)))
    × IsChosen environment consumer
        (some TransactionType.noba_wallet)
        none
        configs
        (cents 185000)
        (some profile)
get_limits-IsChosen_example =
    get_limits-IsChosen environment consumer (some TransactionType.noba_wallet) none fresh
      profile_is_found
