-- ===== src/Mono/Domain.antt =====
-- src/modules/mono/domain/Mono.ts and the types of src/modules/mono/dto: transfers to and from bank
-- accounts. Null and undefined are `none`.
use noba_server.Common.Base.{String, Option}
use noba_server.Common.Amount.{Amount}

pub data MonoTransactionState : Type 0 where
  pending in_progress success expired declined cancelled duplicated : MonoTransactionState

pub data MonoTransactionType : Type 0 where
  collection_link_deposit withdrawal : MonoTransactionType

pub record MonoCollectionLinkDeposits : Type 0 where
  pub collection_link_id : Option String
  pub collection_url : Option String
  pub mono_payment_transaction_id : Option String

pub record MonoWithdrawals : Type 0 where
  pub transfer_id : Option String
  pub batch_id : Option String
  pub declination_reason : Option String

pub record MonoTransaction : Type 0 where
  pub id : String
  pub noba_transaction_id : String
  pub type : MonoTransactionType
  pub state : MonoTransactionState
  pub collection_link_deposit_details : Option MonoCollectionLinkDeposits
  pub withdrawal_details : Option MonoWithdrawals
  pub created_timestamp : String
  pub updated_timestamp : String

-- A row of the table.
pub record MonoRow : Type 0 where
  pub id : String
  pub noba_transaction_id : String
  pub type : MonoTransactionType
  pub state : MonoTransactionState
  pub collection_link_id : Option String
  pub collection_url : Option String
  pub mono_payment_transaction_id : Option String
  pub transfer_id : Option String
  pub batch_id : Option String
  pub declination_reason : Option String
  pub created_timestamp : String
  pub updated_timestamp : String

pub record MonoTransactionSaveRequest : Type 0 where
  pub noba_transaction_id : String
  pub type : MonoTransactionType
  pub collection_link_deposit_details : Option MonoCollectionLinkDeposits
  pub withdrawal_details : Option MonoWithdrawals

-- What `prisma.mono.create` is given.
pub record MonoCreateInput : Type 0 where
  pub noba_transaction_id : String
  pub type : MonoTransactionType
  pub state : MonoTransactionState
  pub collection_link_id : Option String
  pub collection_url : Option String
  pub transfer_id : Option String
  pub batch_id : Option String
  pub declination_reason : Option String

pub record MonoTransactionUpdateRequest : Type 0 where
  pub mono_payment_transaction_id : Option String
  pub state : Option MonoTransactionState
  pub declination_reason : Option String

-- What is read of a consumer.
pub record Consumer : Type 0 where
  pub email : String
  pub phone : String
  pub first_name : String
  pub last_name : String

pub record MonoWithdrawalDetails : Type 0 where
  pub bank_code : String
  pub encrypted_account_number : String
  pub account_type : String
  pub document_number : String
  pub document_type : String

pub record CreateMonoTransactionRequest : Type 0 where
  pub noba_transaction_id : String
  pub amount : Amount
  pub currency : String
  pub consumer_id : String
  pub type : MonoTransactionType
  pub noba_public_transaction_ref : Option String
  pub withdrawal_details : Option MonoWithdrawalDetails

pub record CollectionLinkDepositRequest : Type 0 where
  pub noba_transaction_id : String
  pub amount : Amount
  pub currency : String
  pub consumer : Option Consumer

pub record WithdrawalRequest : Type 0 where
  pub noba_transaction_id : String
  pub noba_public_transaction_ref : Option String
  pub amount : Amount
  pub currency : String
  pub consumer : Option Consumer
  pub withdrawal_details : Option MonoWithdrawalDetails

pub record MonoTransferRequest : Type 0 where
  pub transaction_id : String
  pub transaction_ref : String
  pub amount : Amount
  pub currency : String
  pub bank_code : String
  pub account_number : String
  pub account_type : String
  pub document_number : String
  pub document_type : String
  pub consumer_email : String
  pub consumer_name : String

pub record MonoTransferResponse : Type 0 where
  pub state : String
  pub declination_reason : Option String
  pub batch_id : String
  pub transfer_id : String

pub record MonoClientCollectionLinkRequest : Type 0 where
  pub transaction_id : String
  pub amount : Amount
  pub currency : String
  pub consumer_email : String
  pub consumer_phone : String
  pub consumer_name : String

pub record MonoClientCollectionLinkResponse : Type 0 where
  pub collection_link : String
  pub collection_link_id : String

-- The events of the webhook, after they were checked and converted.
pub record CollectionIntentCreditedEvent : Type 0 where
  pub collection_link_id : String
  pub mono_transaction_id : String

pub record BankTransferApprovedEvent : Type 0 where
  pub transfer_id : String

pub record BankTransferRejectedEvent : Type 0 where
  pub transfer_id : String
  pub state : MonoTransactionState
  pub declination_reason : String

pub record MonoAccountCreditedEvent : Type 0 where
  pub amount : Amount
  pub transaction_id : String
  pub payer_document_number : String
  pub payer_name : String

pub data MonoEvent : Type 0 where
  collection_intent_credited : CollectionIntentCreditedEvent → MonoEvent
  bank_transfer_approved : BankTransferApprovedEvent → MonoEvent
  bank_transfer_rejected : BankTransferRejectedEvent → MonoEvent
  account_credited : MonoAccountCreditedEvent → MonoEvent
  batch_sent unexpected : MonoEvent
