-- ===== src/Common.antt =====
-- What the components share: the libraries' names, tests, signed amounts of money, exceptions
-- (src/core/exception) and stateful code that may throw.
pub mod Base
pub mod Int
pub mod Amount
pub mod Exception
pub mod Alert
pub mod Joi
pub mod Action
pub mod Text
pub mod Inversion
pub mod Outcome
