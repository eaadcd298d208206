-- ===== src/Transactions/Domain.antt =====
-- src/modules/transaction/domain: transactions and their fees, and what payrolls say of them.
use noba_server.Common.Base.{String, Option, List, ℕ, suc, ◌+◌, ◌-◌, ◌*◌, ◌/◌}
use noba_server.Common.Int.{pos, negsuc, ◌-ℤ◌}
use noba_server.Common.Amount.{Amount}

-- src/infra/temporal/workflow.ts
pub data WorkflowName : Type 0 where
  payroll_deposit payroll_processing bulk_add_employees card_withdrawal card_reversal : WorkflowName
  card_credit_adjustment card_debit_adjustment wallet_withdrawal wallet_deposit : WorkflowName
  wallet_transfer credit_adjustment debit_adjustment : WorkflowName

pub data TransactionStatus : Type 0 where
  initiated completed failed processing expired : TransactionStatus

pub data FeeType : Type 0 where
  processing noba : FeeType

-- A rate of exchange is the fraction `numerator / (predecessor + 1)`.
pub record Rate : Type 0 where
  pub numerator : ℕ
  pub predecessor : ℕ

abbrev pub one : Rate
one = record { numerator = 1; predecessor = 0 }

-- `Utils.roundTo2DecimalNumber(amount * rate)`, on the exact product.
unfoldable pub round_product : Amount → Rate → Amount
round_product (pos n) r =
    pos ((2 * n * r.numerator + 100 * suc r.predecessor) / (200 * suc r.predecessor) * 100)
round_product (negsuc n) r =
    pos 0
    -ℤ pos
        ((2 * suc n * r.numerator + 100 * suc r.predecessor - 1) / (200 * suc r.predecessor) * 100)

pub record InputTransactionFee : Type 0 where
  pub amount : Amount
  pub currency : String
  pub type : FeeType

pub record TransactionFee : Type 0 where
  pub id : String
  pub timestamp : String
  pub amount : Amount
  pub currency : String
  pub type : FeeType

-- Null and an absent value are both `none`; a date is its text.
pub record Transaction : Type 0 where
  pub id : String
  pub transaction_ref : String
  pub workflow_name : WorkflowName
  pub credit_consumer_id : Option String
  pub debit_consumer_id : Option String
  pub debit_currency : Option String
  pub credit_currency : Option String
  pub debit_amount : Option Amount
  pub credit_amount : Option Amount
  pub status : TransactionStatus
  pub exchange_rate : Rate
  pub memo : Option String
  pub session_key : String
  pub transaction_fees : List TransactionFee
  pub created_timestamp : String
  pub updated_timestamp : String

pub record InputTransaction : Type 0 where
  pub id : Option String
  pub transaction_ref : String
  pub workflow_name : WorkflowName
  pub credit_consumer_id : Option String
  pub debit_consumer_id : Option String
  pub debit_currency : Option String
  pub credit_currency : Option String
  pub debit_amount : Option Amount
  pub credit_amount : Option Amount
  pub exchange_rate : Rate
  pub memo : Option String
  pub session_key : String
  pub transaction_fees : List InputTransactionFee

-- What `prisma.transaction.create` is given.
pub record TransactionCreateInput : Type 0 where
  pub id : Option String
  pub transaction_ref : String
  pub workflow_name : WorkflowName
  pub credit_consumer_id : Option String
  pub debit_consumer_id : Option String
  pub debit_currency : Option String
  pub credit_currency : Option String
  pub debit_amount : Option Amount
  pub credit_amount : Option Amount
  pub exchange_rate : Rate
  pub memo : Option String
  pub session_key : Option String
  pub transaction_fees : List InputTransactionFee

pub record UpdateTransaction : Type 0 where
  pub status : Option TransactionStatus
  pub memo : Option String
  pub debit_amount : Option Amount
  pub credit_amount : Option Amount
  pub debit_currency : Option String
  pub credit_currency : Option String
  pub exchange_rate : Option Rate

-- What the payroll processor reads of a payroll, a disbursement, an employer and an employee.
pub record Payroll : Type 0 where
  pub id : String
  pub employer_id : String
  pub payroll_date : String
  pub exchange_rate : Option Rate

pub record PayrollDisbursement : Type 0 where
  pub id : String
  pub payroll_id : String
  pub employee_id : String
  pub allocation_amount : Amount

pub record Employer : Type 0 where
  pub name : String

pub record Employee : Type 0 where
  pub consumer_id : Option String
