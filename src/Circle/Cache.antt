-- ===== src/Circle/Cache.antt =====
-- The cache of balances in the table: what a write to it that cannot throw leaves behind.
use noba_server.Common.Base.{
  ◌≡◌, ◌≢◌, refl, sym, subst, String, Bool, true, false, is_empty, str_eq, str_eq_iff, ◌⊎◌, inl,
  inr, Bool-cases, some, List, [], ◌∷◌, ◌++◌, arith,
}
use noba_server.Common.Amount.{Amount, round_to_2_decimal_number}
use noba_server.Common.Alert.{Alert, error, critical, circle_balance_update_failed}
use noba_server.Common.Action.{Action, Result, ok}
use noba_server.Common.Inversion.{Result-cases}
use noba_server.Circle.Domain.{Circle, CircleUpdateRequest}
use noba_server.Circle.Environment.{Environment, World}
use noba_server.Circle.Assumptions.{TableLaws}
use noba_server.Circle.Repo
use noba_server.Circle.Service.{cache_balance, or_alert, record_balance, cache_refreshed}

-- Since `alerts` the operators were told, last of all, that an update of a cached balance failed.
pub record IsAlerted {E D : Type 0} (alerts : List Alert) (w : World E D) : Type 0 where
  pub more : List Alert
  pub raised : w.alerts ≡ critical circle_balance_update_failed ∷ (more ++ alerts)

module _ {E D : Type 0} (env : Environment E D) where
  -- The balance that the table holds for a wallet.
  pub record IsCached (v : String) (balance : Amount) (w : World E D) : Type 0 where
    pub row : Circle
    pub found : env.find_first v w.table ≡ ok (some row)
    pub holds : row.current_balance ≡ some balance

  -- The write returns, leaves Circle alone, and has cached the rounded balance or raised an alert.
  pub record CacheRun (v : String) (balance : Amount) (w : World E D)
      (run : Result (Unit {0}) × World E D) : Type 0 where
    pub returned : run.0 ≡ ok tt
    pub circle : run.1.circle ≡ w.circle
    pub cached : IsAlerted w.alerts run.1 ⊎ IsCached v (round_to_2_decimal_number balance) run.1

  -- A write to the cache never throws.
  pub or_alert-ok :
      (m : Action (World E D) (Unit {0})) (w : World E D) → (or_alert env m w).0 ≡ ok tt
  unfolding or_alert
  or_alert-ok m w = ground arith

  pub cache-CacheRun :
      TableLaws env
      → (v : String) (balance : Amount) (w : World E D)
      → CacheRun v balance w (or_alert env (cache_balance env v balance) w)
  unfolding Repo.update_current_balance or_alert cache_balance
  cache-CacheRun laws v balance w = record {
    returned = ground arith;
    circle = ground arith;
    cached = elim (Bool-cases (env.joi.optional_number (some rounded))) [
      | inr invalid ↦ inl (record { more = []; raised = ground arith })
      | inl valid ↦ elim (Result-cases (env.update v (request rounded) w.table).0) [
        | inr (e, refused) ↦ inl (record { more = error ∷ []; raised = ground arith })
        | inl (row, updated) ↦
            let (found, holds) =
              laws.update v (request rounded) w.table
                {d' = (env.update v (request rounded) w.table).1} {row = row} (ground arith) in
            inr (record { row = row; found = ground (arith, found); holds = holds })
      ]
    ];
  }
    where
      rounded : Amount
      rounded = round_to_2_decimal_number balance

      request : Amount → CircleUpdateRequest
      request b = record { current_balance = some b }

  pub record_balance-ok :
      (moved : Bool) (v : String) (balance : Amount) (w : World E D)
      → (record_balance env moved v balance w).0 ≡ ok tt
  unfolding record_balance
  record_balance-ok true v balance w = or_alert-ok _ w
  record_balance-ok false v balance w = refl

  -- It leaves Circle alone.
  pub record_balance-circle :
      (moved : Bool) (v : String) (balance : Amount) (w : World E D)
      → (record_balance env moved v balance w).1.circle ≡ w.circle
  unfolding record_balance or_alert cache_balance Repo.update_current_balance
  record_balance-circle true v balance w = elim (Bool-cases (str_eq v env.master_wallet_id)) [
    | inl same ↦ rw same
    | inr other ↦ rw other (ground arith)
  ]
  record_balance-circle false v balance w = refl

  pub record_balance-CacheRun :
      TableLaws env
      → (v : String) (balance : Amount) (w : World E D) → v ≢ env.master_wallet_id
      → CacheRun v balance w (record_balance env true v balance w)
  unfolding record_balance
  record_balance-CacheRun laws v balance w user =
      let other : str_eq v env.master_wallet_id ≡ false =
        ground (arith, str_eq_iff v env.master_wallet_id) in
      rw other (cache-CacheRun laws v balance w)

  pub cache_refreshed-ok :
      (v : String) (balance : Amount) (w : World E D) → (cache_refreshed env v balance w).0 ≡ ok tt
  unfolding cache_refreshed or_alert
  cache_refreshed-ok v balance w = ground arith

  cache_refreshed-written :
      (v : String) (balance : Amount) (w : World E D)
      → v ≢ env.master_wallet_id
      → is_empty env.master_wallet_id ≡ false
      → (cache_refreshed env v balance w).1 ≡ (or_alert env (cache_balance env v balance) w).1
  unfolding cache_refreshed or_alert
  cache_refreshed-written v balance w user named =
      let other : str_eq v env.master_wallet_id ≡ false =
        ground (arith, str_eq_iff v env.master_wallet_id) in
      ground (arith, other)

  pub cache_refreshed-IsCached :
      TableLaws env
      → (v : String) (balance : Amount) (w : World E D) → v ≢ env.master_wallet_id
      → IsAlerted w.alerts (cache_refreshed env v balance w).1
        ⊎ IsCached v (round_to_2_decimal_number balance) (cache_refreshed env v balance w).1
  cache_refreshed-IsCached laws v balance w user =
      elim (Bool-cases (is_empty env.master_wallet_id)) [
        | inl nameless ↦
            inl (unfold cache_refreshed or_alert in record { more = []; raised = ground arith })
        | inr named ↦
            subst (λ u. IsAlerted w.alerts u ⊎ IsCached v (round_to_2_decimal_number balance) u)
              (sym (cache_refreshed-written v balance w user named))
              (cache-CacheRun laws v balance w).cached
      ]
