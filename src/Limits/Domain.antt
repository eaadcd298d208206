-- ===== src/Limits/Domain.antt =====
-- src/modules/transaction/domain: limit configurations and profiles, and the answers of the service.
-- The classes that wrap the properties, and the timestamps, are left out.
use noba_server.Common.Base.{String, Bool, Option, ℕ}
use noba_server.Common.Int.{ℤ}
use noba_server.Common.Amount.{Amount}

-- The enums of prisma/schema.prisma.
pub data TransactionType : Type 0 where
  noba_wallet : TransactionType

pub data PaymentMethodType : Type 0 where
  card ach : PaymentMethodType

-- The properties of a LimitConfiguration that the service reads.
pub record LimitConfiguration : Type 0 where
  pub is_default : Bool
  pub profile_id : String
  pub transaction_type : Option TransactionType
  pub min_profile_age : Option ℤ
  pub min_total_transaction_amount : Option Amount
  pub payment_method_type : Option PaymentMethodType

pub record LimitProfile : Type 0 where
  pub id : String
  pub name : String
  pub daily : Option Amount
  pub weekly : Option Amount
  pub monthly : Amount
  pub max_transaction : Amount
  pub min_transaction : Amount
  pub unsettled_exposure : Option Amount

pub data TransactionAllowedStatus : Type 0 where
  allowed transaction_too_small transaction_too_large : TransactionAllowedStatus
  transaction_limit_reached daily_limit_reached weekly_limit_reached : TransactionAllowedStatus
  monthly_limit_reached max_limit_reached : TransactionAllowedStatus
  unsettled_exposure_limit_reached : TransactionAllowedStatus

pub record CheckTransactionDto : Type 0 where
  pub status : TransactionAllowedStatus
  pub range_min : Amount
  pub range_max : Amount

pub record PeriodLimit : Type 0 where
  pub max : Amount
  pub used : Amount
  pub period : ℕ

-- The weekly and the daily limit are never set by the service.
pub record ConsumerLimitsDto : Type 0 where
  pub min_transaction : Amount
  pub max_transaction : Amount
  pub monthly : PeriodLimit

-- The consumer's id, and the days since the account was made.
pub record Consumer : Type 0 where
  pub id : String
  pub account_age : ℤ
