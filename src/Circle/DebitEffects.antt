-- ===== src/Circle/DebitEffects.antt =====
-- `debitWalletBalance`: what it does to the ledger at Circle and to the cache of balances.
use noba_server.Common.Base.{◌≡◌, ◌≢◌, sym, ap, subst, subst₃, ◌∙◌, String, true, ◌⊎◌, none, some}
use noba_server.Common.Int.{pos, ◌≤ℤ◌, ◌<ℤ◌, ◌-ℤ◌, ◌+ℤ◌, le_of_ltb_false, lt_of_leb_false}
use noba_server.Common.Amount.{
  Amount, round_to_2_decimal_number, IsCents, round_of_cents, round_le_cents, -ℤ-IsCents,
}
use noba_server.Common.Action.{ok}
use noba_server.Circle.Domain.{
  UpdateWalletBalanceServiceDto, CircleTransferStatus, Transfer, TransferStatusEnum,
}
use noba_server.Circle.Environment.{Environment, World}
use noba_server.Circle.Assumptions.{Ledger, IsMoved, CircleLaws, TableLaws}
use noba_server.Circle.Runs.{
  sent, TransferRun, transfer-TransferRun, TransferRun-IsMoved, not_failed_of_success, BalanceRun,
  get_wallet_balance-BalanceRun,
}
use noba_server.Circle.Cache.{IsAlerted, IsCached, record_balance-CacheRun, record_balance-circle}
use noba_server.Circle.Debit.{debit_request, DebitRun, debit-DebitRun}
use noba_server.Circle.Service.{debit_wallet_balance, is_transferred, record_balance}

module _ {E D : Type 0} (env : Environment E D) (ledger : Ledger E) where
  -- What a debit that Circle has accepted does to the ledger.
  pub record IsDebited (v : String) (amount : Amount) (w w' : World E D) : Type 0 where
    pub positive : pos 0 <ℤ amount
    pub covered : amount ≤ℤ ledger.balance v w.circle
    pub covered_rounded : round_to_2_decimal_number amount ≤ℤ ledger.balance v w.circle
    pub wallet :
        ledger.balance v w'.circle ≡ ledger.balance v w.circle -ℤ round_to_2_decimal_number amount
    pub master :
        ledger.balance env.master_wallet_id w'.circle
        ≡ ledger.balance env.master_wallet_id w.circle +ℤ round_to_2_decimal_number amount
    pub others :
        (u : String)
        → u ≢ v
        → u ≢ env.master_wallet_id
        → ledger.balance u w'.circle ≡ ledger.balance u w.circle

module _ {E D : Type 0} (env : Environment E D) (ledger : Ledger E)
    (circle : CircleLaws env ledger) where
  module _ (key v : String) (amount : Amount) (w : World E D) {w' : World E D}
      {dto : UpdateWalletBalanceServiceDto}
      (returned : debit_wallet_balance env key v amount w ≡ (ok dto, w'))
      (success : dto.status ≡ CircleTransferStatus.success) (user : v ≢ env.master_wallet_id) where
    run : DebitRun env key v amount w w' dto
    run = debit-DebitRun env key v amount w returned

    read : BalanceRun env ledger v w run.before run.balance
    read = get_wallet_balance-BalanceRun env ledger circle v w run.balance_read

    sending : TransferRun env (debit_request env key v amount) run.before run.after run.response
    sending = transfer-TransferRun env (debit_request env key v amount) run.before run.transferred

    key_before :
        ledger.recorded (env.convert_to_uuid_v4 key) run.before.circle
        ≡ ledger.recorded (env.convert_to_uuid_v4 key) w.circle
    key_before = cc (read.same.recorded (env.convert_to_uuid_v4 key), read.world)

    unchanged : (u : String) → ledger.balance u run.before.circle ≡ ledger.balance u w.circle
    unchanged u = cc (read.same.balance u, read.world)

    circle_after : w'.circle ≡ run.after.circle
    circle_after = cc (
      run.final,
      record_balance-circle env (is_transferred run.response.status) v (run.balance -ℤ amount)
          run.after,
    )

    -- The cache is given what the balance was before, less the amount.
    difference-IsCached :
        TableLaws env
        → IsCents amount
        → IsAlerted w.alerts w' ⊎ IsCached env v (ledger.balance v w.circle -ℤ amount) w'
    difference-IsCached table exact =
        let cached =
          (record_balance-CacheRun env table v (run.balance -ℤ amount) run.after user).cached in
        let cents : IsCents (run.balance -ℤ amount) =
          -ℤ-IsCents _ _ (subst IsCents (sym read.read) (circle.cents v w.circle)) exact in
        let balance : round_to_2_decimal_number (run.balance -ℤ amount)
            ≡ ledger.balance v w.circle -ℤ amount =
          cc (round_of_cents _ cents, read.read) in
        let world : (record_balance env true v (run.balance -ℤ amount) run.after).1 ≡ w' = cc (
          run.final,
          ap is_transferred
              (sym (ap (λ (d : UpdateWalletBalanceServiceDto). d.status) run.answer) ∙ success),
        ) in
        let alerts : run.after.alerts ≡ w.alerts = cc (read.world, sending.world) in
        subst₃ (λ a b x. IsAlerted a x ⊎ IsCached env v b x) alerts balance world cached

    within : amount ≤ℤ ledger.balance v w.circle
    within = subst (λ b. amount ≤ℤ b) read.read (le_of_ltb_false amount run.balance run.covered)

    module _ (fresh : ledger.recorded (env.convert_to_uuid_v4 key) w.circle ≡ none) where
      moved :
          IsMoved ledger
            (sent env (debit_request env key v amount))
            run.before.circle
            run.after.circle
      moved =
          TransferRun-IsMoved env ledger circle sending (cc (success, run.answer))
            (key_before ∙ fresh)

      -- If Circle keeps its laws, a debit of a wallet other than the master wallet that returns
      -- success under a new key was asked for a positive amount that the wallet covers. It moves
      -- exactly this amount rounded to cents, which the wallet covers, too, from the wallet to the
      -- master wallet, and changes no other balance.
      pub debit-IsDebited : IsDebited env ledger v amount w w'
      debit-IsDebited = record {
        positive = lt_of_leb_false amount (pos 0) run.positive;
        covered = within;
        covered_rounded = round_le_cents amount _ (circle.cents v w.circle) within;
        wallet = cc (circle_after, moved.source user, unchanged v);
        master = cc (circle_after, moved.destination user, unchanged env.master_wallet_id);
        others =
            λ u other not_master. cc (circle_after, moved.others u other not_master, unchanged u);
      }

      -- If Circle and the table keep their laws, then after a debit of whole cents from a wallet
      -- other than the master wallet that returns success under a new key, the cache holds the
      -- balance that Circle has for the wallet, or the last alert raised, during the debit, says
      -- that caching it failed.
      pub debit-IsCached :
          TableLaws env
          → IsCents amount
          → IsAlerted w.alerts w' ⊎ IsCached env v (ledger.balance v w'.circle) w'
      debit-IsCached table exact =
          let balance : ledger.balance v w.circle -ℤ amount ≡ ledger.balance v w'.circle =
            cc (debit-IsDebited.wallet, round_of_cents amount exact) in
          subst (λ b. IsAlerted w.alerts w' ⊎ IsCached env v b w') balance
            (difference-IsCached table exact)

    -- A debit that is retried under the key of an earlier transfer asks Circle for that transfer
    -- again, which is not one that failed, and moves nothing.
    pub debit_replayed :
        {t : Transfer}
        → ledger.recorded (env.convert_to_uuid_v4 key) w.circle ≡ some t
        → (t.status ≢ TransferStatusEnum.failed)
          × ((u : String) → ledger.balance u w'.circle ≡ ledger.balance u w.circle)
    debit_replayed used =
        let request = sent env (debit_request env key v amount) in
        let (replied, same) =
          circle.replayed request run.before.circle sending.called (key_before ∙ used) in
        let alive =
          not_failed_of_success env ledger circle sending.reply.transfer
            (λ f. (circle.failed request run.before.circle sending.called f).0)
            (cc (success, run.answer, sending.responded)) in
        (
          subst (λ (x : Transfer). x.status ≢ TransferStatusEnum.failed) replied alive,
          λ u. cc (circle_after, sending.world, same.balance u, unchanged u),
        )

    -- If Circle and the table keep their laws, a debit of whole cents from a wallet other than the
    -- master wallet that is retried under the key of an earlier transfer, and returns success,
    -- moves nothing at Circle, yet the cache is set to the balance less the amount, or the last
    -- alert that was raised says that caching it failed.
    pub debit-IsSame_retried :
        {t : Transfer}
        → ledger.recorded (env.convert_to_uuid_v4 key) w.circle ≡ some t
        → TableLaws env
        → IsCents amount
        → ((u : String) → ledger.balance u w'.circle ≡ ledger.balance u w.circle)
          × (IsAlerted w.alerts w' ⊎ IsCached env v (ledger.balance v w'.circle -ℤ amount) w')
    debit-IsSame_retried used table exact =
        let (_, still) = debit_replayed used in
        (
          still,
          subst (λ b. IsAlerted w.alerts w' ⊎ IsCached env v (b -ℤ amount) w') (sym (still v))
              (difference-IsCached table exact),
        )
