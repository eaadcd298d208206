-- ===== src/Pomelo/Keeping.antt =====
-- The steps that leave the table of Pomelo's transactions as it is: whatever holds of the table
-- holds after them, returned or thrown.
use noba_server.Common.Base.{◌≡◌, String, Option, sym, subst, arith, refl}
use noba_server.Common.Amount.{Amount}
use noba_server.Common.Action.{Action, Result, ok, err}
use noba_server.Common.Outcome.{Keeps, Ends}
use noba_server.Transactions.Requests.{InitiateTransactionRequest}
use noba_server.Pomelo.Domain.{PomeloAdjustmentType}
use noba_server.Pomelo.Environment.{Environment, World, serve}
use noba_server.Pomelo.Repo
use noba_server.Pomelo.Steps
use noba_server.Pomelo.Adjust.{is_uncovered, transfer_adjusted}

module _ {S P A : Type 0} (Φ : P → Type 0) where
  table_Ends :
      (x : Result A × World S P) (p : P)
      → x.1.table ≡ p
      → Φ p
      → Ends (λ _ u. Φ u.table) (λ u. Φ u.table) x
  table_Ends (ok a, u) p e h = subst Φ (sym e) h
  table_Ends (err _, u) p e h = subst Φ (sym e) h

  -- An action that never changes the table keeps what holds of it.
  pub table-Keeps :
      (m : Action (World S P) A)
      → ((w : World S P) → (m w).1.table ≡ w.table)
      → Keeps (λ w. Φ w.table) m
  table-Keeps m same = record { apply = λ w h. table_Ends (m w) w.table (same w) h }

module _ {S P : Type 0} (env : Environment S P) where
  pub serve-table : {A : Type 0} (m : Action S A) (w : World S P) → (serve m w).1.table ≡ w.table
  serve-table m w = refl

  pub consumer-table :
      (card user : String) (w : World S P)
      → (Steps.get_noba_consumer_id_holding_pomelo_card env card user w).1.table ≡ w.table
  unfolding Steps.get_noba_consumer_id_holding_pomelo_card
      Repo.get_noba_consumer_id_holding_pomelo_card
  consumer-table card user w = ground arith

  pub quote-table :
      (amount : Amount) (w : World S P)
      → (Steps.get_cop_equivalent_usd_amount_to_deduct env amount w).1.table ≡ w.table
  unfolding Steps.get_cop_equivalent_usd_amount_to_deduct
  quote-table amount w = ground arith

  pub booking-table :
      (request : InitiateTransactionRequest) (id : String) (w : World S P)
      → (Steps.get_or_create_card_withdrawal_noba_transaction env request id w).1.table ≡ w.table
  unfolding Steps.get_or_create_card_withdrawal_noba_transaction
  booking-table request id w = ground arith

  pub parent-table :
      (id : String) (w : World S P) → (Steps.get_parent_noba_transaction env id w).1.table ≡ w.table
  unfolding Steps.get_parent_noba_transaction Repo.get_pomelo_transaction_by_pomelo_transaction_id
  parent-table id w = ground arith

  pub uncovered-table :
      (type : PomeloAdjustmentType) (wallet : String) (amount : Option Amount) (w : World S P)
      → (is_uncovered env type wallet amount w).1.table ≡ w.table
  unfolding is_uncovered
  uncovered-table PomeloAdjustmentType.credit wallet amount w = refl
  uncovered-table PomeloAdjustmentType.debit wallet amount w = ground arith

  pub transfer-table :
      (type : PomeloAdjustmentType) (id wallet : String) (amount : Option Amount) (w : World S P)
      → (transfer_adjusted env type id wallet amount w).1.table ≡ w.table
  unfolding transfer_adjusted
  transfer-table PomeloAdjustmentType.credit id wallet amount w = refl
  transfer-table PomeloAdjustmentType.debit id wallet amount w = refl
