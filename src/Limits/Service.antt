-- ===== src/Limits/Service.antt =====
-- src/modules/transaction/limits.service.ts. The repositories are an interface; the service keeps the
-- configurations that it has read.
use noba_server.Common.Base.{
  String, Bool, true, false, ◌&&◌, Option, none, some, List, [], ◌∷◌, if◌then◌else◌,
}
use noba_server.Common.Int.{ℤ, pos, ltb_ℤ, max_ℤ, ◌+ℤ◌, ◌-ℤ◌}
use noba_server.Common.Amount.{Amount, is_truthy}
use noba_server.Common.Exception.{type_error}
use noba_server.Common.Action.{Action, Result, pure, throw, gets, modify, ◌>>=◌, ◌>>◌}
use noba_server.Limits.Domain.{
  TransactionType, PaymentMethodType, LimitConfiguration, LimitProfile, TransactionAllowedStatus,
  CheckTransactionDto, ConsumerLimitsDto, Consumer,
}

-- ILimitConfigurationRepo, ILimitProfileRepo and ITransactionRepo, on a database of type `D`.
pub record Environment (D : Type 0) : Type 0 where
  pub get_all_limit_configs : D → Result (List LimitConfiguration)
  pub get_profile : String → D → Result (Option LimitProfile)
  pub get_total_user_transaction_amount : String → D → Result Amount
  pub get_monthly_user_transaction_amount : String → D → Result Amount
  pub get_weekly_user_transaction_amount : String → D → Result Amount
  pub get_daily_user_transaction_amount : String → D → Result Amount

pub record World (D : Type 0) : Type 0 where
  pub all_limit_configs : Option (List LimitConfiguration)
  pub database : D

abbrev pub query : {D A : Type 0} → (D → Result A) → Action (World D) A
query f w = (f w.database, w)

abbrev same_type : Option TransactionType → Option TransactionType → Bool
same_type none none = true
same_type (some TransactionType.noba_wallet) (some TransactionType.noba_wallet) = true
same_type _ _ = false

abbrev same_method : PaymentMethodType → Option PaymentMethodType → Bool
same_method PaymentMethodType.card (some PaymentMethodType.card) = true
same_method PaymentMethodType.ach (some PaymentMethodType.ach) = true
same_method _ _ = false

-- `isDefault && (!paymentMethodType || paymentMethodType === ...)`
abbrev is_fallback : LimitConfiguration → Option PaymentMethodType → Bool
is_fallback config method =
    config.is_default
    && elim config.payment_method_type [ none ↦ true | some m ↦ same_method m method ]

-- `limit && limit > value`
abbrev pub exceeds : Option ℤ → ℤ → Bool
exceeds none value = false
exceeds (some limit) value = is_truthy limit && ltb_ℤ value limit

unfoldable pub match_config :
    LimitConfiguration
    → Consumer
    → Amount
    → Option PaymentMethodType
    → Option TransactionType
    → Bool
match_config config consumer total method type =
    if same_type config.transaction_type type
    then if exceeds config.min_total_transaction_amount total
      then is_fallback config method
      else if exceeds config.min_profile_age consumer.account_age
      then is_fallback config method
      else true
    else is_fallback config method

-- `Array.find`
unfoldable pub find {ℓ} : {A : Type ℓ} → (A → Bool) → List A → Option A
find p [] = none
find p (a ∷ l) = if p a then some a else find p l

-- `weekly ?? monthly`
abbrev pub weekly_limit : LimitProfile → Amount
weekly_limit profile = elim profile.weekly [ none ↦ profile.monthly | some limit ↦ limit ]

-- The daily limit, or the first of the weekly and the monthly one that is set; zero is not set.
abbrev truthy_or : Option Amount → Amount → Amount
truthy_or none other = other
truthy_or (some a) other = if is_truthy a then a else other

abbrev pub daily_limit : LimitProfile → Amount
daily_limit profile = truthy_or profile.daily (truthy_or profile.weekly profile.monthly)

abbrev pub reply : TransactionAllowedStatus → Amount → Amount → CheckTransactionDto
reply status low high = record { status = status; range_min = low; range_max = high }

-- The reading of a property of a profile that may be null.
abbrev non_null : {A S : Type 0} → Option A → Action S A
non_null none = throw type_error
non_null (some a) = pure a

module _ {D : Type 0} (env : Environment D) where
  -- The configurations, read from the database on the first call only.
  unfoldable pub all_limit_configs : Action (World D) (List LimitConfiguration)
  all_limit_configs = do
    cached ← gets (λ w. w.all_limit_configs)
    elim cached [
      | some configs ↦ pure configs
      | none ↦ do
        configs ← query env.get_all_limit_configs
        modify (λ w. record w { all_limit_configs = some configs })
        pure configs
    ]

  unfoldable pub get_limits :
      Consumer
      → Option TransactionType
      → Option PaymentMethodType
      → Action (World D) (Option LimitProfile)
  get_limits consumer type method = do
    configs ← all_limit_configs
    total ← query (env.get_total_user_transaction_amount consumer.id)
    config ← non_null (find (λ c. match_config c consumer total method type) configs)
    query (env.get_profile config.profile_id)

  unfoldable pub can_make_transaction :
      Consumer
      → Amount
      → TransactionType
      → Option PaymentMethodType
      → Action (World D) CheckTransactionDto
  can_make_transaction consumer amount type method = do
    found ← get_limits consumer (some type) method
    profile ← non_null found
    let low = profile.min_transaction
    let high = profile.max_transaction
    if ltb_ℤ amount low
        then pure (reply TransactionAllowedStatus.transaction_too_small low high)
        else if ltb_ℤ high amount
        then pure (reply TransactionAllowedStatus.transaction_too_large low high)
        else do
          monthly ← query (env.get_monthly_user_transaction_amount consumer.id)
          if ltb_ℤ profile.monthly (amount +ℤ monthly)
              then pure (
                  reply TransactionAllowedStatus.monthly_limit_reached low
                    (max_ℤ (profile.monthly -ℤ monthly) (pos 0)))
              else do
                weekly ← query (env.get_weekly_user_transaction_amount consumer.id)
                if ltb_ℤ (weekly_limit profile) (weekly +ℤ amount)
                    then pure (
                        reply TransactionAllowedStatus.weekly_limit_reached low
                          (max_ℤ (weekly_limit profile -ℤ weekly) (pos 0)))
                    else do
                      daily ← query (env.get_daily_user_transaction_amount consumer.id)
                      if ltb_ℤ (daily_limit profile) (daily +ℤ amount)
                          then pure (
                              reply TransactionAllowedStatus.daily_limit_reached low
                                (max_ℤ (daily_limit profile -ℤ daily) (pos 0)))
                          else pure (reply TransactionAllowedStatus.allowed low high)

  unfoldable pub get_consumer_limits :
      Consumer → TransactionType → Option PaymentMethodType → Action (World D) ConsumerLimitsDto
  get_consumer_limits consumer type method = do
    found ← get_limits consumer (some type) method
    monthly ← query (env.get_monthly_user_transaction_amount consumer.id)
    profile ← non_null found
    pure (record {
      min_transaction = profile.min_transaction;
      max_transaction = profile.max_transaction;
      monthly = record { max = profile.monthly; used = monthly; period = 30 };
    })
