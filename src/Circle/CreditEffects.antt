-- ===== src/Circle/CreditEffects.antt =====
-- `creditWalletBalance`: what it does to the ledger at Circle and to the cache of balances.
use noba_server.Common.Base.{
  ◌≡◌, ◌≢◌, refl, sym, ap, subst, subst₃, ◌∙◌, String, true, ◌⊎◌, none, Option,
}
use noba_server.Common.Int.{pos, ◌≤ℤ◌, ◌<ℤ◌, ◌-ℤ◌, ◌+ℤ◌, le_of_ltb_false, lt_of_leb_false}
use noba_server.Common.Amount.{
  Amount, round_to_2_decimal_number, round-IsCents, round_of_cents, +ℤ-IsCents, IsCents,
}
use noba_server.Common.Action.{ok}
use noba_server.Circle.Domain.{
  UpdateWalletBalanceServiceDto, CircleTransferStatus, Transfer, TransferStatusEnum,
  TransferErrorCode,
}
use noba_server.Circle.Environment.{Environment, World}
use noba_server.Circle.Assumptions.{Ledger, IsMoved, CircleLaws, TableLaws}
use noba_server.Circle.Runs.{
  sent, TransferRun, transfer-TransferRun, TransferRun-IsMoved, BalanceRun,
  get_wallet_balance-BalanceRun,
}
use noba_server.Circle.Cache.{IsAlerted, IsCached, record_balance-CacheRun, record_balance-circle}
use noba_server.Circle.Client
use noba_server.Circle.Credit.{credit_request, CreditRun, credit-CreditRun}
use noba_server.Circle.Service.{credit_wallet_balance, is_not_failed, record_balance}

module _ {E D : Type 0} (env : Environment E D) (ledger : Ledger E) where
  -- What a credit that Circle has accepted does to the ledger.
  pub record IsCredited (v : String) (amount : Amount) (w w' : World E D) : Type 0 where
    pub positive : pos 0 <ℤ round_to_2_decimal_number amount
    pub covered : round_to_2_decimal_number amount ≤ℤ ledger.balance env.master_wallet_id w.circle
    pub wallet :
        ledger.balance v w'.circle ≡ ledger.balance v w.circle +ℤ round_to_2_decimal_number amount
    pub master :
        ledger.balance env.master_wallet_id w'.circle
        ≡ ledger.balance env.master_wallet_id w.circle -ℤ round_to_2_decimal_number amount
    pub others :
        (u : String)
        → u ≢ v
        → u ≢ env.master_wallet_id
        → ledger.balance u w'.circle ≡ ledger.balance u w.circle

-- Only a failed transfer is answered with anything but success.
failed_of_not_success :
    (t : Transfer)
    → (Client.to_transfer_response t).status ≡ CircleTransferStatus.insufficient_funds
    → t.status ≡ TransferStatusEnum.failed
unfolding Client.to_transfer_response
failed_of_not_success t h = go t.status t.error_code h
  where
    go :
        (s : TransferStatusEnum) (code : Option TransferErrorCode)
        → Client.transfer_status s code ≡ CircleTransferStatus.insufficient_funds
        → s ≡ TransferStatusEnum.failed
    go TransferStatusEnum.failed code e = refl
    go TransferStatusEnum.pending code e = cc
    go TransferStatusEnum.complete code e = cc

module _ {E D : Type 0} (env : Environment E D) (ledger : Ledger E)
    (circle : CircleLaws env ledger) where
  module _ (key v : String) (amount : Amount) (w : World E D) {w' : World E D}
      {dto : UpdateWalletBalanceServiceDto}
      (returned : credit_wallet_balance env key v amount w ≡ (ok dto, w'))
      (user : v ≢ env.master_wallet_id) where
    rounded : Amount
    rounded = round_to_2_decimal_number amount

    run : CreditRun env key v amount w w' dto
    run = credit-CreditRun env key v amount w returned

    master_read : BalanceRun env ledger env.master_wallet_id w run.between run.master_balance
    master_read =
        get_wallet_balance-BalanceRun env ledger circle env.master_wallet_id w run.master_read

    read : BalanceRun env ledger v run.between run.before run.balance
    read = get_wallet_balance-BalanceRun env ledger circle v run.between run.balance_read

    sending : TransferRun env (credit_request env key v amount) run.before run.after run.response
    sending = transfer-TransferRun env (credit_request env key v amount) run.before run.transferred

    unchanged : (u : String) → ledger.balance u run.before.circle ≡ ledger.balance u w.circle
    unchanged u =
        cc (master_read.same.balance u, master_read.world, read.same.balance u, read.world)

    balance_before : run.balance ≡ ledger.balance v w.circle
    balance_before = cc (read.read, master_read.same.balance v, master_read.world)

    circle_after : w'.circle ≡ run.after.circle
    circle_after = cc (
      run.final,
      record_balance-circle env (is_not_failed run.response.status) v
          (run.balance +ℤ round_to_2_decimal_number amount) run.after,
    )

    status_answered : dto.status ≡ run.response.status
    status_answered = ap (λ (d : UpdateWalletBalanceServiceDto). d.status) run.answer

    -- Unless the transfer failed, the cache is given what the balance was before, and the amount.
    sum-IsCached :
        TableLaws env
        → is_not_failed dto.status ≡ true
        → IsAlerted w.alerts w'
          ⊎ IsCached env v (ledger.balance v w.circle +ℤ round_to_2_decimal_number amount) w'
    sum-IsCached table accepted =
        let sum = run.balance +ℤ round_to_2_decimal_number amount in
        let cached = (record_balance-CacheRun env table v sum run.after user).cached in
        let cents : IsCents sum =
          +ℤ-IsCents _ _ (subst IsCents (sym balance_before) (circle.cents v w.circle))
            (round-IsCents amount) in
        let balance : round_to_2_decimal_number sum
            ≡ ledger.balance v w.circle +ℤ round_to_2_decimal_number amount =
          cc (round_of_cents _ cents, balance_before) in
        let world : (record_balance env true v sum run.after).1 ≡ w' =
          cc (run.final, ap is_not_failed (sym status_answered) ∙ accepted) in
        let alerts : run.after.alerts ≡ w.alerts =
          cc (master_read.world, read.world, sending.world) in
        subst₃ (λ a b x. IsAlerted a x ⊎ IsCached env v b x) alerts balance world cached

    module _ (success : dto.status ≡ CircleTransferStatus.success)
        (fresh : ledger.recorded (env.convert_to_uuid_v4 key) w.circle ≡ none) where
      moved :
          IsMoved ledger
            (sent env (credit_request env key v amount))
            run.before.circle
            run.after.circle
      moved = TransferRun-IsMoved env ledger circle sending (cc (success, run.answer)) (
          cc (
            fresh,
            master_read.same.recorded (env.convert_to_uuid_v4 key),
            master_read.world,
            read.same.recorded (env.convert_to_uuid_v4 key),
            read.world,
          ))

      sent_amount :
          round_to_2_decimal_number (round_to_2_decimal_number amount)
          ≡ round_to_2_decimal_number amount
      sent_amount = round_of_cents _ (round-IsCents amount)

      -- If Circle keeps its laws, a credit of a consumer's wallet that returns success under a new
      -- key moves exactly the rounded amount, a positive one that the master wallet covers, from
      -- the master wallet to the wallet, and changes no other balance.
      pub credit-IsCredited : IsCredited env ledger v amount w w'
      credit-IsCredited = record {
        positive = lt_of_leb_false _ (pos 0) run.positive;
        covered =
            subst (λ b. round_to_2_decimal_number amount ≤ℤ b) master_read.read
              (le_of_ltb_false _ run.master_balance run.covered);
        wallet = cc (circle_after, moved.destination (λ e. user (sym e)), unchanged v, sent_amount);
        master = cc (
          circle_after,
          moved.source (λ e. user (sym e)),
          unchanged env.master_wallet_id,
          sent_amount,
        );
        others =
            λ u other not_master. cc (circle_after, moved.others u not_master other, unchanged u);
      }

      -- If the table keeps its laws, too, then after such a credit either the cache holds the
      -- balance that Circle has for the wallet, or the last alert raised during the credit says
      -- that caching it failed.
      pub credit-IsCached :
          TableLaws env → IsAlerted w.alerts w' ⊎ IsCached env v (ledger.balance v w'.circle) w'
      credit-IsCached table =
          subst (λ b. IsAlerted w.alerts w' ⊎ IsCached env v b w') (sym credit-IsCredited.wallet)
            (sum-IsCached table (ap is_not_failed success))

    -- If Circle and the table keep their laws, a credit of a wallet other than the master wallet
    -- that Circle refuses for insufficient funds moves nothing at Circle, yet the cache is set to
    -- the balance with the rounded amount added, or the last alert that was raised says that
    -- caching it failed.
    pub credit_refused :
        dto.status ≡ CircleTransferStatus.insufficient_funds
        → TableLaws env
        → ((u : String) → ledger.balance u w'.circle ≡ ledger.balance u w.circle)
          × (IsAlerted w.alerts w'
              ⊎ IsCached env v (ledger.balance v w'.circle +ℤ round_to_2_decimal_number amount) w')
    credit_refused refused table =
        let answered : run.response.status ≡ CircleTransferStatus.insufficient_funds =
          sym status_answered ∙ refused in
        let failed =
          failed_of_not_success sending.reply.transfer (cc (answered, sending.responded)) in
        let (_, same) =
          circle.failed (sent env (credit_request env key v amount)) run.before.circle
            sending.called failed in
        let still : (u : String) → ledger.balance u w'.circle ≡ ledger.balance u w.circle =
          λ u. cc (circle_after, sending.world, same u, unchanged u) in
        (
          still,
          subst
              (λ b.
                IsAlerted w.alerts w' ⊎ IsCached env v (b +ℤ round_to_2_decimal_number amount) w')
              (sym (still v)) (sum-IsCached table (ap is_not_failed refused)),
        )
