-- ===== src/Common/Joi.antt =====
-- The part of the validation library Joi that the code calls, as an interface. What it accepts is
-- assumed where a property depends on it.
use noba_server.Common.Base.{ℕ, String, Bool, Option}
use noba_server.Common.Amount.{Amount}

pub record Joi : Type 0 where
  -- `Joi.string().required()`
  pub required_string : String → Bool
  -- `Joi.string().min(n)`, on a value that is given
  pub min_string : ℕ → String → Bool
  -- `Joi.string().length(n).required()`
  pub length_string : ℕ → String → Bool
  -- `Joi.number().required()`
  pub required_number : Amount → Bool
  -- `Joi.number().optional()`
  pub optional_number : Option Amount → Bool
  -- `Joi.number().greater(0).optional()`
  pub optional_positive_number : Option Amount → Bool
