-- ===== src/Mono/Environment.antt =====
-- What Mono's component calls and does not implement: the bank's client, the table, Joi, the key
-- service, the library of phone numbers, and the services of consumers and payrolls.
use noba_server.Common.Base.{String, Bool, Option, List, ◌∷◌}
use noba_server.Common.Amount.{Amount}
use noba_server.Common.Action.{Action, Result, ok}
use noba_server.Common.Alert.{Alert}
use noba_server.Common.Exception.{Exception}
use noba_server.Common.Joi.{Joi}
use noba_server.Transactions.Domain.{Payroll}
use noba_server.Mono.Domain.{
  Consumer, MonoRow, MonoCreateInput, MonoTransactionUpdateRequest, MonoTransferRequest,
  MonoTransferResponse, MonoClientCollectionLinkRequest, MonoClientCollectionLinkResponse,
}

-- The state: the bank, the table `mono`, the payrolls, and the alerts, the latest first.
pub record World (B M E : Type 0) : Type 0 where
  pub bank : B
  pub table : M
  pub payrolls : E
  pub alerts : List Alert

pub record Environment (B M E : Type 0) : Type 0 where
  pub joi : Joi
  -- MonoClient
  pub transfer : MonoTransferRequest → B → Result MonoTransferResponse × B
  pub create_collection_link :
      MonoClientCollectionLinkRequest → B → Result MonoClientCollectionLinkResponse × B
  -- `prisma.mono`: `create`, `update` by id, and the three searches
  pub create : MonoCreateInput → M → Result MonoRow × M
  pub update : String → MonoTransactionUpdateRequest → M → Result MonoRow × M
  pub find_by_noba_transaction_id : String → M → Result (Option MonoRow)
  pub find_by_collection_link_id : String → M → Result (Option MonoRow)
  pub find_by_transfer_id : String → M → Result (Option MonoRow)
  -- whether an error says "Record to update not found."
  pub is_missing_record : Exception → Bool
  -- `KmsService.decryptString`, `ConsumerService.getConsumer`, and whether a number is one of Colombia
  pub decrypt_string : String → Result String
  pub get_consumer : String → Result (Option Consumer)
  pub is_valid_phone : String → Result Bool
  -- EmployerService: the invoiced payrolls of an amount, by document number and by name, and the
  -- update of a payroll to FUNDED with the id of the payment
  pub payrolls_by_document_number : Amount → String → E → Result (List Payroll)
  pub payrolls_by_name : Amount → String → E → Result (List Payroll)
  pub fund_payroll : (payroll payment : String) → E → Result Payroll × E

module _ {B M E : Type 0} where
  abbrev pub raise_alert : Alert → Action (World B M E) (Unit {0})
  raise_alert a w = (ok tt, record w { alerts = a ∷ w.alerts })

  abbrev pub call : {A : Type 0} → (B → Result A × B) → Action (World B M E) A
  call f w = let (r, b) = f w.bank in (r, record w { bank = b })

  abbrev pub write : {A : Type 0} → (M → Result A × M) → Action (World B M E) A
  write f w = let (r, m) = f w.table in (r, record w { table = m })

  abbrev pub query : {A : Type 0} → (M → Result A) → Action (World B M E) A
  query f w = (f w.table, w)

  abbrev pub ask_payrolls : {A : Type 0} → (E → Result A) → Action (World B M E) A
  ask_payrolls f w = (f w.payrolls, w)

  abbrev pub write_payrolls : {A : Type 0} → (E → Result A × E) → Action (World B M E) A
  write_payrolls f w = let (r, e) = f w.payrolls in (r, record w { payrolls = e })
