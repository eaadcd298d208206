-- ===== src/Otps/Environment.antt =====
-- What the one-time passwords call and do not implement: the table `otp`, the clock, and Joi.
use noba_server.Common.Base.{ℕ, suc, String, Bool, Option}
use noba_server.Common.Text.{Text}
use noba_server.Common.Action.{Action, Result, ok}

pub data IdentityType : Type 0 where
  consumer noba_admin : IdentityType

pub record OtpProps : Type 0 where
  pub id : String
  pub otp_identifier : Text
  pub identity_type : IdentityType
  pub otp : ℕ
  pub otp_expiration_timestamp : ℕ

-- What `prisma.otp.create` is given.
pub record OtpCreateInput : Type 0 where
  pub otp_identifier : Text
  pub identity_type : IdentityType
  pub otp : ℕ
  pub created_timestamp : ℕ
  pub updated_timestamp : ℕ
  pub otp_expiration_timestamp : ℕ

-- The state: the table, and how often the clock was read.
pub record World (T : Type 0) : Type 0 where
  pub table : T
  pub readings : ℕ

pub record Environment (T : Type 0) : Type 0 where
  -- `new Date()` in milliseconds, by the number of readings before
  pub clock : ℕ → ℕ
  -- whether Joi accepts a row
  pub is_valid : OtpProps → Bool
  -- `prisma.otp`: `findUnique`, `create`, `delete` by id, and `deleteMany`, once of an identifier
  -- and once of what expires before a time
  pub find_unique : Text → IdentityType → T → Result (Option OtpProps)
  pub create : OtpCreateInput → T → Result OtpProps × T
  pub delete : String → T → Result (Unit {0}) × T
  pub delete_many : Text → IdentityType → T → Result (Unit {0}) × T
  pub delete_expired : ℕ → T → Result (Unit {0}) × T

module _ {T : Type 0} where
  abbrev pub write : {A : Type 0} → (T → Result A × T) → Action (World T) A
  write f w = let (r, t) = f w.table in (r, record w { table = t })

  abbrev pub query : {A : Type 0} → (T → Result A) → Action (World T) A
  query f w = (f w.table, w)

  abbrev pub now : Environment T → Action (World T) ℕ
  now env w = (ok (env.clock w.readings), record w { readings = suc w.readings })
