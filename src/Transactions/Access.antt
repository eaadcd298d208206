-- ===== src/Transactions/Access.antt =====
-- `getTransactionByTransactionRef` and `updateTransaction`.
use noba_server.Common.Base.{
  ◌≡◌, ◌≢◌, String, Option, none, some, ◌⊎◌, inl, inr, arith, str_eq_iff, List, ◌∷◌, Bool-cases,
  true,
}
use noba_server.Common.Action.{ok}
use noba_server.Common.Alert.{Alert, error, critical, transaction_failed}
use noba_server.Common.Inversion.{Result-cases}
use noba_server.Transactions.Domain.{Transaction, TransactionStatus, UpdateTransaction}
use noba_server.Transactions.Environment.{Environment, World}
use noba_server.Transactions.Repo
use noba_server.Transactions.Validation.{validate_update_transaction}
use noba_server.Transactions.Service.{
  get_transaction_by_transaction_ref, update_transaction, same_id, status_update,
}

same_id-eq : (o : Option String) (id : String) → same_id o id ≡ true → o ≡ some id
same_id-eq none id h = cc
same_id-eq (some s) id h = ground (arith, str_eq_iff s id)

module _ {D : Type 0} (env : Environment D) where
  -- A consumer who is named is given a transaction only if he is on its debit or credit side, and
  -- it is the one that the database has under the reference.
  pub get_transaction_by_transaction_ref-eq-ok :
      (reference id : String) (w : World D) {w' : World D} {t : Transaction}
      → id ≢ ""
      → get_transaction_by_transaction_ref env reference (some id) w ≡ (ok t, w')
      → (env.find_by_ref reference w.database ≡ ok (some t))
        × ((t.debit_consumer_id ≡ some id) ⊎ (t.credit_consumer_id ≡ some id))
  unfolding get_transaction_by_transaction_ref Repo.get_transaction_by_ref
  get_transaction_by_transaction_ref-eq-ok reference id w {w'} {t} named e =
      elim (Bool-cases (same_id t.debit_consumer_id id)) [
        | inl debit ↦ (ground arith, inl (same_id-eq t.debit_consumer_id id debit))
        | inr other ↦ elim (Bool-cases (same_id t.credit_consumer_id id)) [
          | inl credit ↦ (ground arith, inr (same_id-eq t.credit_consumer_id id credit))
          | inr neither ↦ absurd (ground (arith, str_eq_iff id ""))
        ]
      ]

  abbrev pub to_failed : UpdateTransaction
  to_failed = status_update env (some TransactionStatus.failed)

  -- Where Joi accepts an update of the status alone, an update to the status FAILED of a
  -- transaction that the database has is reported by a critical alert, and changes just the
  -- status: the answer is that of the database's update, or another alert is raised.
  pub update_transaction_failed :
      (id : String) (w : World D) {t : Transaction}
      → env.find_by_id id w.database ≡ ok (some t)
      → validate_update_transaction env.joi to_failed ≡ true
      → let run = update_transaction env id (some TransactionStatus.failed) w in
        let reported : List Alert = critical transaction_failed ∷ w.alerts in
        let updated = env.update id to_failed w.database in
        (run.1.database ≡ updated.1)
        × (((run.1.alerts ≡ reported) × (run.0 ≡ updated.0))
            ⊎ ((a : Alert) × (run.1.alerts ≡ a ∷ reported)))
  unfolding update_transaction Repo.get_transaction_by_id Repo.update_transaction_by_transaction_id
      Repo.to_update_input
  update_transaction_failed id w {t} found accepted =
      elim (Result-cases (env.update id to_failed w.database).0) [
        | inl (t', updated) ↦ (ground arith, inl (ground arith, ground arith))
        | inr (e, refused) ↦ (ground arith, inr (error, ground arith))
      ]
