-- ===== src/Mono/Assumptions.antt =====
-- What is assumed of the table `mono` that the repository writes: its keys.
use noba_server.Common.Base.{◌≡◌, Option, some, none}
use noba_server.Common.Action.{Result, ok}
use noba_server.Mono.Domain.{
  MonoRow, MonoCreateInput, MonoTransactionState, MonoTransactionUpdateRequest,
}
use noba_server.Mono.Environment.{Environment}

-- The state of a row after an update.
abbrev pub updated_state : Option MonoTransactionState → MonoTransactionState → MonoTransactionState
updated_state none old = old
updated_state (some new) old = new

module _ {B M E : Type 0} (env : Environment B M E) where
  -- A row that was created is found under the id of Noba's transaction.
  abbrev pub CreateLaw : Type 0
  CreateLaw =
      (input : MonoCreateInput) (m m' : M) (row : MonoRow)
      → env.create input m ≡ (ok row, m')
      → env.find_by_noba_transaction_id input.noba_transaction_id m' ≡ ok (some row)

  -- An update by the id of a row that a search gave sets its state, if it is told one, and the
  -- search then gives that row.
  abbrev pub UpdateLaw : (M → Result (Option MonoRow)) → Type 0
  UpdateLaw find =
      (request : MonoTransactionUpdateRequest) (m m' : M) (row saved : MonoRow)
      → find m ≡ ok (some row)
      → env.update row.id request m ≡ (ok saved, m')
      → (find m' ≡ ok (some saved))
        × (saved.id ≡ row.id)
        × (saved.noba_transaction_id ≡ row.noba_transaction_id)
        × (saved.state ≡ updated_state request.state row.state)
