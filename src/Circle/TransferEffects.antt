-- ===== src/Circle/TransferEffects.antt =====
-- `transferFunds`: what it does to the ledger at Circle.
use noba_server.Common.Base.{◌≡◌, ◌≢◌, subst, String, none}
use noba_server.Common.Int.{pos, ◌≤ℤ◌, ◌<ℤ◌, ◌-ℤ◌, ◌+ℤ◌, le_of_ltb_false, lt_of_leb_false}
use noba_server.Common.Amount.{Amount, round_to_2_decimal_number, round-IsCents, round_of_cents}
use noba_server.Common.Action.{ok}
use noba_server.Circle.Domain.{UpdateWalletBalanceServiceDto, CircleTransferStatus}
use noba_server.Circle.Environment.{Environment, World}
use noba_server.Circle.Assumptions.{Ledger, CircleLaws}
use noba_server.Circle.Runs.{
  transfer-TransferRun, TransferRun-IsMoved, get_wallet_balance-BalanceRun,
}
use noba_server.Circle.Service.{transfer_funds, is_transferred}
use noba_server.Circle.Transfer.{
  transfer_request, reading, second, sending, reading_ok, second_ok, sending_ok, guards, finish,
  record_balances-Keeps,
}

module _ {E D : Type 0} (env : Environment E D) (ledger : Ledger E) where
  -- What a transfer that Circle has accepted does to the ledger.
  pub record IsTransferred (a b : String) (amount : Amount) (w w' : World E D) : Type 0 where
    pub positive : pos 0 <ℤ round_to_2_decimal_number amount
    pub covered : round_to_2_decimal_number amount ≤ℤ ledger.balance a w.circle
    pub source :
        ledger.balance a w'.circle ≡ ledger.balance a w.circle -ℤ round_to_2_decimal_number amount
    pub destination :
        ledger.balance b w'.circle ≡ ledger.balance b w.circle +ℤ round_to_2_decimal_number amount
    pub others :
        (u : String) → u ≢ a → u ≢ b → ledger.balance u w'.circle ≡ ledger.balance u w.circle

module _ {E D : Type 0} (env : Environment E D) (ledger : Ledger E)
    (circle : CircleLaws env ledger) where
  module _ (key a b : String) (amount : Amount) (w : World E D) {w' : World E D}
      {dto : UpdateWalletBalanceServiceDto}
      (returned : transfer_funds env key a b amount w ≡ (ok dto, w'))
      (success : dto.status ≡ CircleTransferStatus.success) (apart : a ≢ b)
      (fresh : ledger.recorded (env.convert_to_uuid_v4 key) w.circle ≡ none) where
    -- If Circle keeps its laws, a transfer of funds between two different wallets that returns
    -- success under a new key moves exactly the rounded amount, a positive one that the source
    -- covers, from the one to the other, and changes no other balance.
    pub transfer_funds-IsTransferred : IsTransferred env ledger a b amount w w'
    transfer_funds-IsTransferred =
        let (balance, p) = reading_ok env key a b amount w returned in
        let (other, q) = second_ok env key a b amount w returned in
        let (response, r) = sending_ok env key a b amount w returned in
        let (positive, covered) = guards env key a b amount w returned balance p in
        let (answer, final) = finish env key a b amount w returned balance other response p q r in
        let w₁ = (reading env key a b amount w returned).1 in
        let w₂ = (second env key a b amount w returned).1 in
        let w₃ = (sending env key a b amount w returned).1 in
        let read₁ =
          get_wallet_balance-BalanceRun env ledger circle a w {w' = w₁} {balance = balance}
            (cc p) in
        let read₂ =
          get_wallet_balance-BalanceRun env ledger circle b w₁ {w' = w₂} {balance = other} (cc q) in
        let request = transfer_request env key a b amount in
        let run = transfer-TransferRun env request w₂ {w' = w₃} {response = response} (cc r) in
        let k = env.convert_to_uuid_v4 key in
        let moved =
          TransferRun-IsMoved env ledger circle run (cc (success, answer))
            (cc (fresh, read₁.same.recorded k, read₁.world, read₂.same.recorded k, read₂.world)) in
        let before : (u : String) → ledger.balance u w₂.circle ≡ ledger.balance u w.circle =
          λ u. cc (read₁.same.balance u, read₁.world, read₂.same.balance u, read₂.world) in
        let after : w'.circle ≡ w₃.circle = cc (
          final,
          record_balances-Keeps env (is_transferred response.status) a b
              (balance -ℤ round_to_2_decimal_number amount)
              (other +ℤ round_to_2_decimal_number amount) w₃,
        ) in
        let whole = round_of_cents _ (round-IsCents amount) in
        record {
          positive = lt_of_leb_false _ (pos 0) positive;
          covered =
              subst (λ x. round_to_2_decimal_number amount ≤ℤ x) read₁.read
                (le_of_ltb_false _ balance covered);
          source = cc (after, moved.source apart, before a, whole);
          destination = cc (after, moved.destination apart, before b, whole);
          others = λ u h l. cc (after, moved.others u h l, before u);
        }
