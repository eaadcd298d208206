-- ===== src/Circle/Domain.antt =====
-- src/modules/circle/domain/Circle.ts, psp/domain/CircleTypes.ts, and the types of the Circle SDK that
-- src/modules/circle/public/circle.client.ts reads. Timestamps of the table are left out.
use noba_server.Common.Base.{ℕ, String, Option}
use noba_server.Common.Amount.{Amount}

-- A row of the table, and the domain object of the same fields.
pub record Circle : Type 0 where
  pub id : String
  pub wallet_id : String
  pub consumer_id : String
  pub current_balance : Option Amount

pub record CircleCreateRequest : Type 0 where
  pub wallet_id : String
  pub consumer_id : String

pub record CircleUpdateRequest : Type 0 where
  pub current_balance : Option Amount

pub record TransferRequest : Type 0 where
  pub idempotency_key : String
  pub amount : Amount
  pub source_wallet_id : String
  pub destination_wallet_id : String

pub data CircleTransferStatus : Type 0 where
  success transfer_failed insufficient_funds : CircleTransferStatus

pub record TransferResponse : Type 0 where
  pub transfer_id : String
  pub amount : Amount
  pub source_wallet_id : String
  pub destination_wallet_id : String
  pub status : CircleTransferStatus
  pub created_at : String

-- psp/domain/UpdateWalletBalanceServiceDTO.ts
pub record UpdateWalletBalanceServiceDto : Type 0 where
  pub id : String
  pub status : CircleTransferStatus
  pub created_at : String

-- psp/dto/balance.dto.ts; the currency is always "USD".
pub record BalanceDto : Type 0 where
  pub balance : Amount
  pub currency : String

-- The SDK: one balance of a wallet.
pub record CurrencyBalance : Type 0 where
  pub currency : String
  pub amount : Amount

pub data TransferStatusEnum : Type 0 where
  pending complete failed : TransferStatusEnum

-- `other` is any code that the client's switch does not name.
pub data TransferErrorCode : Type 0 where
  transfer_failed transfer_denied blockchain_error insufficient_funds other : TransferErrorCode

pub record Transfer : Type 0 where
  pub id : String
  pub source : String
  pub destination : String
  pub amount : Amount
  pub status : TransferStatusEnum
  pub error_code : Option TransferErrorCode
  pub create_date : String

-- What `createTransfer` is sent, and answers.
pub record CreateTransferRequest : Type 0 where
  pub idempotency_key : String
  pub source : String
  pub destination : String
  pub amount : Amount

pub record CreateTransferReply : Type 0 where
  pub http_status : ℕ
  pub transfer : Transfer
