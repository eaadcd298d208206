-- ===== src/Transactions/Saved.antt =====
-- `createTransaction` and `validateAndSaveTransaction`: what a run that returned has saved.
use noba_server.Common.Base.{◌≡◌, ◌≢◌, true, false, inl, inr, arith}
use noba_server.Common.Action.{Result, ok, err}
use noba_server.Common.Inversion.{Result-cases}
use noba_server.Common.Exception.{
  Exception, database_internal_error_exception, invalid_database_record_exception,
}
use noba_server.Transactions.Domain.{InputTransaction, Transaction}
use noba_server.Transactions.Environment.{Environment, World}
use noba_server.Transactions.Validation.{
  is_valid_input, has_a_side, has_unexpected_id, validate_input_transaction,
  validate_saved_transaction,
}
use noba_server.Transactions.Repo.{create_transaction, to_create_input}

module _ {D : Type 0} (env : Environment D) where
  module _ (input : InputTransaction) (w : World D) where
    abbrev checking : Result (Unit {0}) × World D
    checking = validate_input_transaction env.joi input w

    checking-eq : checking.1 ≡ w
    unfolding validate_input_transaction
    checking-eq = ground arith

    checked :
        {u : Unit {0}}
        → checking.0 ≡ ok u
        → (is_valid_input env.joi input ≡ true)
          × (has_a_side env.joi input ≡ true)
          × (has_unexpected_id env.joi input ≡ false)
    unfolding validate_input_transaction
    checked e = (ground arith, ground arith, ground arith)

  -- A transaction that was created: the input is valid, the database has made the row of it, and
  -- the row is valid.
  pub record IsCreated (input : InputTransaction) (d d' : D) (t : Transaction) : Type 0 where
    pub valid : is_valid_input env.joi input ≡ true
    pub sided : has_a_side env.joi input ≡ true
    pub identified : has_unexpected_id env.joi input ≡ false
    pub saved : env.create (to_create_input input) d ≡ (ok t, d')
    pub consistent : validate_saved_transaction env.joi t ≡ true

  pub create_transaction-IsCreated :
      (input : InputTransaction) (w : World D) {t : Transaction}
      → (create_transaction env input w).0 ≡ ok t
      → IsCreated input w.database (create_transaction env input w).1.database t
  unfolding create_transaction
  create_transaction-IsCreated input w e = elim (Result-cases (checking input w).0) [
    | inr (x, refused) ↦ absurd (ground arith)
    | inl (u, passed) ↦
        let (valid, sided, identified) = checked input w passed in
        let same = checking-eq input w in
        record {
          valid = valid;
          sided = sided;
          identified = identified;
          saved = ground (arith, same);
          consistent = ground (arith, same);
        }
  ]

  -- An input that is refused before the database is called changes nothing there.
  pub create_transaction_refused :
      (input : InputTransaction) (w : World D) {e : Exception}
      → (create_transaction env input w).0 ≡ err e
      → e ≢ database_internal_error_exception
      → e ≢ invalid_database_record_exception
      → (create_transaction env input w).1.database ≡ w.database
  unfolding create_transaction
  create_transaction_refused input w e h k =
      let same = checking-eq input w in
      elim (Result-cases (checking input w).0) [
        | inr (x, refused) ↦ ground (arith, same)
        | inl (u, passed) ↦ absurd (ground (arith, same))
      ]
