-- ===== src/Mono/Withdrawals.antt =====
-- That a transaction is paid out once: what a withdrawal that returns has called and recorded, and
-- what a second one does.
use noba_server.Common.Base.{
  ◌≡◌, String, Option, some, none, inl, inr, is_empty, false, subst, ◌∙◌, arith,
}
use noba_server.Common.Exception.{service, already_exists, semantic_validation}
use noba_server.Common.Action.{Result, ok, err, from_result, throw_if, ◌>>=◌, ◌>>◌}
use noba_server.Common.Inversion.{Result-cases}
use noba_server.Common.Outcome.{run-eq-ok, eq_ok-run}
use noba_server.Mono.Domain.{
  MonoTransaction, MonoRow, MonoTransactionSaveRequest, MonoCreateInput, MonoTransferRequest,
  MonoTransferResponse, WithdrawalRequest,
}
use noba_server.Mono.Environment.{Environment, World, call}
use noba_server.Mono.Assumptions.{CreateLaw}
use noba_server.Mono.Repo
use noba_server.Mono.Service.{
  ValidWithdrawal, validate_withdrawal_request, transfer_and_record, execute_withdrawal,
  transfer_request, withdrawal_record, refuse_existing,
}
use noba_server.Mono.Payments.{
  IsAsked, IsAnswer, validate-eq-ok, transfer_request-IsAsked, withdrawal_record-IsAnswer,
}

module _ {B M E : Type 0} (env : Environment B M E) where
  -- A search that returns has changed nothing.
  pub search-eq-ok :
      (find : M → Result (Option MonoRow)) (w : World B M E) {w' : World B M E}
      {found : Option MonoTransaction}
      → Repo.search env find w ≡ (ok found, w')
      → (rows : Option MonoRow) × (find w.table ≡ ok rows)
        × (found ≡ Repo.domain_of env rows)
        × (w' ≡ w)
  unfolding Repo.search
  search-eq-ok find w h = elim (Result-cases (find w.table)) [
    | inl (rows, p) ↦ (rows, p, ground arith, ground arith)
    | inr (e, p) ↦ absurd (ground arith)
  ]

  create-eq-ok :
      (r : MonoTransactionSaveRequest) (w : World B M E) {w' : World B M E} {t : MonoTransaction}
      → Repo.create_mono_transaction env r w ≡ (ok t, w')
      → (row : MonoRow) × (env.create (Repo.to_create_input r) w.table ≡ (ok row, w'.table))
        × (t ≡ Repo.convert_to_domain_transaction row)
        × (w' ≡ record w { table = w'.table })
  unfolding Repo.create_mono_transaction Repo.validate_save_mono_transaction_request
      Repo.validate_mono_transaction
  create-eq-ok r w h = elim (Result-cases (env.create (Repo.to_create_input r) w.table).0) [
    | inl (row, p) ↦ (row, ground arith, ground arith, ground arith)
    | inr (e, p) ↦ absurd (ground arith)
  ]

  -- The bank was told once to transfer, and that was recorded, where no row was there.
  pub record IsPaidOut (r : WithdrawalRequest) (t : MonoTransaction) (w w' : World B M E)
      : Type 0 where
    pub sent : MonoTransferRequest
    pub asked : IsAsked env r sent
    pub fresh : env.find_by_noba_transaction_id r.noba_transaction_id w.table ≡ ok none
    pub response : MonoTransferResponse
    pub transferred : env.transfer sent w.bank ≡ (ok response, w'.bank)
    pub input : MonoCreateInput
    pub answer : IsAnswer env r response input
    pub row : MonoRow
    pub recorded : env.create input w.table ≡ (ok row, w'.table)
    pub given : t ≡ Repo.convert_to_domain_transaction row
    pub payrolls : w'.payrolls ≡ w.payrolls
    pub alerts : w'.alerts ≡ w.alerts

  transfer_and_record-eq-ok :
      (r : WithdrawalRequest) (transfer : MonoTransferRequest) (w : World B M E) {w' : World B M E}
      {t : MonoTransaction}
      → transfer_and_record env r transfer w ≡ (ok t, w')
      → (response : MonoTransferResponse) × (row : MonoRow) × (env.transfer transfer w.bank
          ≡ (ok response, w'.bank))
        × (env.create (Repo.to_create_input (withdrawal_record r response)) w.table
            ≡ (ok row, w'.table))
        × (t ≡ Repo.convert_to_domain_transaction row)
        × (w'.payrolls ≡ w.payrolls)
        × (w'.alerts ≡ w.alerts)
  unfolding transfer_and_record
  transfer_and_record-eq-ok r transfer w h =
      let x = call (env.transfer transfer) w in
      let (response, p, q) = run-eq-ok x h in
      let (row, created, given, same) = create-eq-ok (withdrawal_record r response) x.1 q in
      (
        response,
        row,
        ground (arith, same),
        ground (arith, same),
        given,
        ground (arith, same),
        ground (arith, same),
      )

  -- What is left once the account's number is known.
  abbrev unless_existing :
      WithdrawalRequest
      → ValidWithdrawal
      → String
      → World B M E
      → Result MonoTransaction × World B M E
  unless_existing r v number =
      Repo.get_mono_transaction_by_noba_transaction_id env r.noba_transaction_id >>= λ existing.
      throw_if (is_empty number) (service semantic_validation)
      >> (refuse_existing env existing >> transfer_and_record env r (transfer_request r v number))

  -- What is left once the request is valid.
  abbrev pay_valid :
      WithdrawalRequest → ValidWithdrawal → World B M E → Result MonoTransaction × World B M E
  pay_valid r v =
      from_result (env.decrypt_string v.details.encrypted_account_number) >>= unless_existing r v

  unless_existing-eq-ok :
      (r : WithdrawalRequest) (v : ValidWithdrawal) (number : String) (w : World B M E)
      {w' : World B M E} {t : MonoTransaction}
      → unless_existing r v number w ≡ (ok t, w')
      → (env.find_by_noba_transaction_id r.noba_transaction_id w.table ≡ ok none)
        × (transfer_and_record env r (transfer_request r v number) w ≡ (ok t, w'))
        × (is_empty number ≡ false)
  unfolding Repo.get_mono_transaction_by_noba_transaction_id Repo.search
  unless_existing-eq-ok r v number w h =
      elim (Result-cases (env.find_by_noba_transaction_id r.noba_transaction_id w.table)) [
        | inl (none, p) ↦ (p, ground arith, ground arith)
        | inl (some _, p) ↦ absurd (ground arith)
        | inr (e, p) ↦ absurd (ground arith)
      ]

  -- A withdrawal that returns has told the bank once to transfer: with the amount, the currency,
  -- the id and the reference of the request and the name and the e-mail address of its consumer, to
  -- the account of its details, by the number that the key service decrypts. It has recorded the
  -- bank's answer in the row of a pending withdrawal, where the table had none for the transaction,
  -- and has changed nothing else.
  pub execute_withdrawal-IsPaidOut :
      (r : WithdrawalRequest) (w : World B M E) {w' : World B M E} {t : MonoTransaction}
      → execute_withdrawal env r w ≡ (ok t, w')
      → IsPaidOut r t w w'
  unfolding execute_withdrawal
  execute_withdrawal-IsPaidOut r w {w'} {t} h =
      let x1 = validate_withdrawal_request env r w in
      let (v, p1, q1) = run-eq-ok x1 h in
      let (same, _, consumer, details, reference) = validate-eq-ok env r w p1 in
      let x2 = from_result (env.decrypt_string v.details.encrypted_account_number) x1.1 in
      let (number, p2, q2) = run-eq-ok x2 q1 in
      let at_w = subst (λ u. unless_existing r v number u ≡ (ok t, w')) same q2 in
      let (fresh, q3, _) = unless_existing-eq-ok r v number w at_w in
      let (response, row, transferred, recorded, given, payrolls, alerts) =
        transfer_and_record-eq-ok r (transfer_request r v number) w q3 in
      record {
        sent = transfer_request r v number;
        asked =
            transfer_request-IsAsked env r v number (consumer, details, reference) (ground arith);
        fresh = fresh;
        response = response;
        transferred = transferred;
        input = Repo.to_create_input (withdrawal_record r response);
        answer = withdrawal_record-IsAnswer env r response;
        row = row;
        recorded = recorded;
        given = given;
        payrolls = payrolls;
        alerts = alerts;
      }

  refused :
      (r : WithdrawalRequest) (v : ValidWithdrawal) (number : String) (w : World B M E)
      {row : MonoRow}
      → is_empty number ≡ false
      → env.find_by_noba_transaction_id r.noba_transaction_id w.table ≡ ok (some row)
      → unless_existing r v number w ≡ (err (service already_exists), w)
  unfolding Repo.get_mono_transaction_by_noba_transaction_id Repo.search
  refused r v number w named found = ground arith

  -- Where a row that was created is found under its transaction, a withdrawal that returned is
  -- refused with ALREADY_EXISTS when it is made again: the bank, the table and all else are left
  -- as they are.
  pub execute_withdrawal_again :
      CreateLaw env
      → (r : WithdrawalRequest) (w : World B M E) {w' : World B M E} {t : MonoTransaction}
      → execute_withdrawal env r w ≡ (ok t, w')
      → execute_withdrawal env r w' ≡ (err (service already_exists), w')
  unfolding execute_withdrawal Repo.to_create_input
  execute_withdrawal_again law r w {w'} {t} h =
      let x1 = validate_withdrawal_request env r w in
      let (v, p1, q1) = run-eq-ok x1 h in
      let (_, valid, _, _, _) = validate-eq-ok env r w p1 in
      let x2 = from_result (env.decrypt_string v.details.encrypted_account_number) x1.1 in
      let (number, p2, q2) = run-eq-ok x2 q1 in
      let (_, q3, named) = unless_existing-eq-ok r v number x1.1 q2 in
      let (response, row, _, recorded, _, _, _) =
        transfer_and_record-eq-ok r (transfer_request r v number) x1.1 q3 in
      let found =
        law (Repo.to_create_input (withdrawal_record r response)) x1.1.table w'.table row
          recorded in
      let decrypted : env.decrypt_string v.details.encrypted_account_number ≡ ok number =
        ground arith in
      let numbered = from_result (env.decrypt_string v.details.encrypted_account_number) w' in
      eq_ok-run (validate_withdrawal_request env r w') (pay_valid r) (valid w')
      ∙ (eq_ok-run numbered (unless_existing r v) (ground arith)
          ∙ refused r v number w' named found)
