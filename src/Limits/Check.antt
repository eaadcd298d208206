-- ===== src/Limits/Check.antt =====
-- `canMakeTransaction`: when it allows a transaction.
use noba_server.Common.Base.{◌≡◌}
use noba_server.Common.Int.{◌≤ℤ◌, ◌+ℤ◌}
use noba_server.Common.Amount.{Amount}
use noba_server.Common.Action.{ok}
use noba_server.Limits.Domain.{LimitProfile, Consumer}
use noba_server.Limits.Service.{Environment, World, weekly_limit, daily_limit}

-- What a consumer has spent in the last month, week and day.
pub record Usage : Type 0 where
  pub monthly : Amount
  pub weekly : Amount
  pub daily : Amount

-- An amount that a profile leaves to a consumer.
pub record IsWithin (profile : LimitProfile) (used : Usage) (amount : Amount) : Type 0 where
  pub min : profile.min_transaction ≤ℤ amount
  pub max : amount ≤ℤ profile.max_transaction
  pub monthly : amount +ℤ used.monthly ≤ℤ profile.monthly
  pub weekly : used.weekly +ℤ amount ≤ℤ weekly_limit profile
  pub daily : used.daily +ℤ amount ≤ℤ daily_limit profile

module _ {D : Type 0} (env : Environment D) where
  -- What the repositories answer about a consumer, after the profile was found.
  pub record IsUsage (consumer : Consumer) (used : Usage) (w : World D) : Type 0 where
    pub monthly : env.get_monthly_user_transaction_amount consumer.id w.database ≡ ok used.monthly
    pub weekly : env.get_weekly_user_transaction_amount consumer.id w.database ≡ ok used.weekly
    pub daily : env.get_daily_user_transaction_amount consumer.id w.database ≡ ok used.daily
