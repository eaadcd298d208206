-- ===== src/Pomelo/Assumptions.antt =====
-- What is assumed of the code that the card transactions call: Node's crypto, and the unique keys of
-- the table of Pomelo's transactions.
use noba_server.Common.Base.{◌≡◌, ℕ, String, true, some, List}
use noba_server.Common.Action.{ok, err}
use noba_server.Common.Exception.{Exception}
use noba_server.Pomelo.Domain.{
  PomeloTransaction, PomeloTransactionStatus, PomeloTransactionSaveRequest,
}
use noba_server.Pomelo.Environment.{Environment}

module _ {S P : Type 0} (env : Environment S P) where
  -- `timingSafeEqual` tells whether the bytes are equal. It throws where the lengths differ.
  pub record CryptoLaws : Type 0 where
    pub same : (a : List ℕ) → env.timing_safe_equal a a ≡ ok true
    pub sound : (a b : List ℕ) → env.timing_safe_equal a b ≡ ok true → a ≡ b

  -- A row is found under its idempotency key, a second one with that key is refused, and an update
  -- by Pomelo's id gives the row that status.
  pub record TableLaws : Type 0 where
    pub created :
        (r : PomeloTransactionSaveRequest) (s : PomeloTransactionStatus) (p : P)
        {row : PomeloTransaction} {p' : P}
        → env.create r s p ≡ (ok row, p')
        → env.find_by_idempotency_key r.pomelo_idempotency_key p' ≡ ok (some row)
    pub unique :
        (r : PomeloTransactionSaveRequest) (s : PomeloTransactionStatus) (p : P)
        {row : PomeloTransaction}
        → env.find_by_idempotency_key r.pomelo_idempotency_key p ≡ ok (some row)
        → (e : Exception) × (env.create r s p ≡ (err e, p))
    pub updated :
        (key : String) (s : PomeloTransactionStatus) (p : P) {row saved : PomeloTransaction}
        {p' : P}
        → env.find_by_idempotency_key key p ≡ ok (some row)
        → env.update_status row.pomelo_transaction_id s p ≡ (ok saved, p')
        → (row' : PomeloTransaction) × (env.find_by_idempotency_key key p' ≡ ok (some row'))
          × (row'.status ≡ s)
