-- ===== src/Pomelo/Domain.antt =====
-- src/modules/pomelo/domain/PomeloTransaction.ts and pomelo/dto/pomelo.transaction.service.dto.ts:
-- card transactions as Pomelo reports them, and the answers to Pomelo.
use noba_server.Common.Base.{ℕ, String, Option, List}
use noba_server.Common.Amount.{Amount}

pub data PomeloTransactionStatus : Type 0 where
  pending approved insufficient_funds invalid_merchant : PomeloTransactionStatus
  invalid_amount system_error : PomeloTransactionStatus

pub data PomeloCurrency : Type 0 where
  usd cop : PomeloCurrency

pub data PomeloTransactionType : Type 0 where
  purchase withdrawal extracash balance_inquiry : PomeloTransactionType
  refund payment reversal_purchase reversal_withdrawal : PomeloTransactionType
  reversal_extracash reversal_refund reversal_payment : PomeloTransactionType

pub data PomeloPointType : Type 0 where
  pos ecommerce atm moto : PomeloPointType

pub data PomeloEntryMode : Type 0 where
  manual chip contactless credential_on_file mag_stripe other unknown : PomeloEntryMode

pub data PomeloOrigin : Type 0 where
  domestic international : PomeloOrigin

pub data PomeloSource : Type 0 where
  online clearing purge manual chargeback_manual trust_credit_manual : PomeloSource

-- Null is `none`; a date is its text.
pub record PomeloTransaction : Type 0 where
  pub id : String
  pub pomelo_transaction_id : String
  pub parent_pomelo_transaction_id : Option String
  pub pomelo_idempotency_key : String
  pub noba_transaction_id : String
  pub settlement_date : String
  pub pomelo_card_id : String
  pub pomelo_user_id : String
  pub amount_in_usd : Amount
  pub local_amount : Amount
  pub local_currency : PomeloCurrency
  pub settlement_amount : Amount
  pub settlement_currency : PomeloCurrency
  pub transaction_amount : Amount
  pub transaction_currency : PomeloCurrency
  pub status : PomeloTransactionStatus
  pub pomelo_transaction_type : PomeloTransactionType
  pub point_type : PomeloPointType
  pub entry_mode : PomeloEntryMode
  pub country_code : String
  pub origin : PomeloOrigin
  pub source : PomeloSource
  pub merchant_name : String
  pub merchant_mcc : String
  pub created_timestamp : String
  pub updated_timestamp : String

-- What Pomelo says of a transaction, in a request to authorize or to adjust it.
pub record TransactionDetails : Type 0 where
  pub pomelo_transaction_id : String
  pub transaction_type : PomeloTransactionType
  pub merchant_name : String
  pub merchant_mcc : String
  pub pomelo_card_id : String
  pub pomelo_user_id : String
  pub local_currency : PomeloCurrency
  pub local_amount : Amount
  pub settlement_currency : PomeloCurrency
  pub settlement_amount : Amount
  pub transaction_currency : PomeloCurrency
  pub transaction_amount : Amount
  pub point_type : PomeloPointType
  pub entry_mode : PomeloEntryMode
  pub country_code : String
  pub origin : PomeloOrigin
  pub source : PomeloSource

pub record PomeloTransactionSaveRequest : Type 0 where
  pub pomelo_transaction_id : String
  pub settlement_date : String
  pub parent_pomelo_transaction_id : Option String
  pub pomelo_idempotency_key : String
  pub noba_transaction_id : String
  pub pomelo_card_id : String
  pub pomelo_user_id : String
  pub amount_in_usd : Amount
  pub local_amount : Amount
  pub local_currency : PomeloCurrency
  pub settlement_amount : Amount
  pub settlement_currency : PomeloCurrency
  pub transaction_amount : Amount
  pub transaction_currency : PomeloCurrency
  pub pomelo_transaction_type : PomeloTransactionType
  pub point_type : PomeloPointType
  pub entry_mode : PomeloEntryMode
  pub country_code : String
  pub origin : PomeloOrigin
  pub source : PomeloSource
  pub merchant_name : String
  pub merchant_mcc : String

pub data PomeloTransactionAuthzDetailStatus : Type 0 where
  approved insufficient_funds invalid_merchant : PomeloTransactionAuthzDetailStatus
  invalid_amount system_error other : PomeloTransactionAuthzDetailStatus

pub data PomeloTransactionAuthzSummaryStatus : Type 0 where
  approved rejected : PomeloTransactionAuthzSummaryStatus

-- What a webhook is signed with: a body of raw bytes, and the headers.
pub record SignedCall : Type 0 where
  pub endpoint : String
  pub unix_timestamp_seconds : String
  pub raw_signature : String
  pub raw_body_buffer : List ℕ
  pub idempotency_key : String

pub record PomeloTransactionAuthzRequest : Type 0 where
  pub call : SignedCall
  pub details : TransactionDetails

pub data PomeloAdjustmentType : Type 0 where
  debit credit : PomeloAdjustmentType

pub record PomeloTransactionAdjustmentRequest : Type 0 where
  pub call : SignedCall
  pub adjustment_type : PomeloAdjustmentType
  pub pomelo_original_transaction_id : String
  pub details : TransactionDetails

-- The message is always empty.
pub record PomeloTransactionAuthzResponse : Type 0 where
  pub summary_status : PomeloTransactionAuthzSummaryStatus
  pub detailed_status : PomeloTransactionAuthzDetailStatus
