-- ===== src/Mono/Sample.antt =====
-- A bank that counts its transfers and a table of one row for the tests: they show that what is
-- assumed of the table can hold.
use noba_server.Common.Base.{
  ◌≡◌, refl, ℕ, suc, String, Bool, true, false, Option, some, none, List, [], ◌∷◌, str_eq,
  str_eq_iff, subst, sym, ap, ◌∙◌, if◌then◌else◌, arith,
}
use noba_server.Common.Action.{Result, ok, err}
use noba_server.Common.Exception.{database_error}
use noba_server.Circle.Sample.{joi}
use noba_server.Transactions.Domain.{Payroll}
use noba_server.Mono.Domain.{
  MonoRow, MonoCreateInput, MonoTransactionUpdateRequest, MonoTransferResponse, Consumer,
}
use noba_server.Mono.Environment.{Environment}
use noba_server.Mono.Assumptions.{CreateLaw, UpdateLaw, updated_state}

abbrev pub Rows : Type 0
Rows = Option MonoRow

abbrev pub row_of : MonoCreateInput → MonoRow
row_of i = record {
  id = "mono-1";
  noba_transaction_id = i.noba_transaction_id;
  type = i.type;
  state = i.state;
  collection_link_id = i.collection_link_id;
  collection_url = i.collection_url;
  mono_payment_transaction_id = none;
  transfer_id = i.transfer_id;
  batch_id = i.batch_id;
  declination_reason = i.declination_reason;
  created_timestamp = "2023-06-01";
  updated_timestamp = "2023-06-01";
}

abbrev create : MonoCreateInput → Rows → Result MonoRow × Rows
create i none = (ok (row_of i), some (row_of i))
create i (some row) = (err database_error, some row)

abbrev changed : MonoTransactionUpdateRequest → MonoRow → MonoRow
changed r row = record row { state = updated_state r.state row.state }

abbrev update : String → MonoTransactionUpdateRequest → Rows → Result MonoRow × Rows
update id r none = (err database_error, none)
update id r (some row) =
    if str_eq row.id id
    then (ok (changed r row), some (changed r row))
    else (err database_error, some row)

abbrev matches : String → Option String → Bool
matches id none = false
matches id (some s) = str_eq s id

abbrev find_by : (MonoRow → Option String) → String → Rows → Result (Option MonoRow)
find_by field id none = ok none
find_by field id (some row) = ok (if matches id (field row) then some row else none)

abbrev pub payroll : Payroll
payroll = record {
  id = "payroll-1";
  employer_id = "employer-1";
  payroll_date = "2023-06-01";
  exchange_rate = none;
}

abbrev pub consumer : Consumer
consumer = record {
  email = "ana@noba.com";
  phone = "+573000000000";
  first_name = "Ana";
  last_name = "Diaz";
}

abbrev pub response : MonoTransferResponse
response = record {
  state = "in_progress";
  declination_reason = none;
  batch_id = "batch-1";
  transfer_id = "transfer-1";
}

-- The payrolls are the ids of those that were funded.
abbrev pub environment : Environment ℕ Rows (List String)
environment = record {
  joi = joi;
  transfer = λ r n. (ok response, suc n);
  create_collection_link = λ r n.
      (ok (record { collection_link = "https://mono.co/1"; collection_link_id = "link-1" }), suc n);
  create = create;
  update = update;
  find_by_noba_transaction_id = find_by (λ row. some row.noba_transaction_id);
  find_by_collection_link_id = find_by (λ row. row.collection_link_id);
  find_by_transfer_id = find_by (λ row. row.transfer_id);
  is_missing_record = λ e. false;
  decrypt_string = λ s. ok s;
  get_consumer = λ id. ok (some consumer);
  is_valid_phone = λ s. ok true;
  payrolls_by_document_number =
      λ amount number paid. ok (if str_eq number "900" then payroll ∷ [] else []);
  payrolls_by_name = λ amount name paid. ok [];
  fund_payroll = λ id payment paid. (ok payroll, id ∷ paid);
}

pub create_law : CreateLaw environment
create_law i none m' row h = ground (arith, str_eq_iff i.noba_transaction_id i.noba_transaction_id)
create_law i (some _) m' row h = absurd (ground arith)

-- The only row is the one that is found, and so the one that is updated.
found_row :
    (b : Bool) {there row : MonoRow}
    → ok (if b then some there else none) ≡ ok (some row)
    → (b ≡ true) × (there ≡ row)
found_row true h = (refl, ground arith)
found_row false h = absurd (ground arith)

updated_row :
    (r : MonoTransactionUpdateRequest) (there : MonoRow) {m' : Rows} {saved : MonoRow}
    → update there.id r (some there) ≡ (ok saved, m')
    → (saved ≡ changed r there) × (m' ≡ some (changed r there))
updated_row r there h =
    let itself : str_eq there.id there.id ≡ true = (str_eq_iff there.id there.id).1 refl in
    (ground arith, ground arith)

still_found :
    (field : MonoRow → Option String) (id : String) {m' : Rows} {after : MonoRow}
    → matches id (field after) ≡ true
    → m' ≡ some after
    → find_by field id m' ≡ ok (some after)
still_found field id {after} matched e =
    subst (λ m. find_by field id m ≡ ok (some after)) (sym e) (rw matched refl)

pub update_law :
    (field : MonoRow → Option String) (id : String)
    → ((r : MonoTransactionUpdateRequest) (row : MonoRow) → field (changed r row) ≡ field row)
    → UpdateLaw environment (find_by field id)
update_law field id same r none m' row saved found h = absurd (ground arith)
update_law field id same r (some there) m' row saved found h =
    let (matched, is_row) = found_row (matches id (field there)) found in
    let (e1, e2) =
      updated_row r there
        (subst (λ (x : MonoRow). update x.id r (some there) ≡ (ok saved, m')) (sym is_row) h) in
    let still = still_found field id (ap (matches id) (same r there) ∙ matched) e2 in
    (still ∙ ap (λ x. ok (some x)) (sym e1), ground arith, ground arith, ground arith)
