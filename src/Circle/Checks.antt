-- ===== src/Circle/Checks.antt =====
-- `getTransferStatus` and `getBalance`: what a run that returned says of the ledger.
use noba_server.Common.Base.{
  ◌≡◌, ◌≢◌, refl, sym, ap, subst, subst₃, ◌∙◌, String, true, ◌⊎◌, inl, inr, none, some, arith,
  str_eq_iff,
}
use noba_server.Common.Amount.{Amount, round_to_2_decimal_number, round_of_cents}
use noba_server.Common.Int.{eqb_ℤ_iff}
use noba_server.Common.Action.{Result, ok}
use noba_server.Common.Inversion.{Result-cases}
use noba_server.Circle.Domain.{
  BalanceDto, CircleTransferStatus, TransferRequest, TransferResponse, Transfer, TransferStatusEnum,
}
use noba_server.Circle.Environment.{Environment, World}
use noba_server.Circle.Assumptions.{Ledger, IsSame, CircleLaws, TableLaws}
use noba_server.Circle.Runs.{sent, TransferRun, transfer-TransferRun, get_wallet_balance-BalanceRun}
use noba_server.Circle.Cache.{IsAlerted, IsCached, cache_refreshed-ok, cache_refreshed-IsCached}
use noba_server.Circle.Client
use noba_server.Circle.Service.{cache_refreshed, get_balance, get_transfer_status, one_dollar}

failed_cases :
    (s : TransferStatusEnum) → (s ≡ TransferStatusEnum.failed) ⊎ (s ≢ TransferStatusEnum.failed)
failed_cases TransferStatusEnum.failed = inl refl
failed_cases TransferStatusEnum.pending = inr (λ e. cc e)
failed_cases TransferStatusEnum.complete = inr (λ e. cc e)

module _ {E D : Type 0} (env : Environment E D) where
  -- The transfer from the master wallet to itself by which the status is asked for.
  abbrev pub probe : String → TransferRequest
  probe key = record {
    idempotency_key = key;
    source_wallet_id = env.master_wallet_id;
    destination_wallet_id = env.master_wallet_id;
    amount = one_dollar;
  }

  module _ (key source destination : String) (amount : Amount) (w : World E D) {w' : World E D}
      {status : CircleTransferStatus}
      (returned : get_transfer_status env key source destination amount w ≡ (ok status, w')) where
    abbrev probing : Result TransferResponse × World E D
    probing = Client.transfer env (probe key) w

    probe_ok : (response : TransferResponse) × (probing.0 ≡ ok response)
    unfolding get_transfer_status
    probe_ok = elim (Result-cases probing.0) [
      | inl answered ↦ answered
      | inr (e, p) ↦ absurd (ground arith)
    ]

    probe_circle : w'.circle ≡ probing.1.circle
    unfolding get_transfer_status
    probe_circle = let (response, p) = probe_ok in ground arith

    -- An answer that names what was asked for, and is not the probe itself.
    status_answered :
        (response : TransferResponse)
        → probing.0 ≡ ok response
        → response.source_wallet_id ≡ source
        → response.destination_wallet_id ≡ destination
        → response.amount ≡ amount
        → (source ≢ env.master_wallet_id) ⊎ (destination ≢ env.master_wallet_id)
        → status ≡ response.status
    unfolding get_transfer_status
    status_answered response p from to of user = ground (
      arith,
      str_eq_iff response.source_wallet_id env.master_wallet_id,
      str_eq_iff response.destination_wallet_id env.master_wallet_id,
      str_eq_iff response.source_wallet_id source,
      str_eq_iff response.destination_wallet_id destination,
      eqb_ℤ_iff response.amount amount,
    )

    -- An answer that is the probe itself.
    status_probed :
        (response : TransferResponse)
        → probing.0 ≡ ok response
        → response.source_wallet_id ≡ env.master_wallet_id
        → response.destination_wallet_id ≡ env.master_wallet_id
        → response.amount ≡ one_dollar
        → status ≡ CircleTransferStatus.transfer_failed
    unfolding get_transfer_status
    status_probed response p from to of = ground (
      arith,
      str_eq_iff response.source_wallet_id env.master_wallet_id,
      str_eq_iff response.destination_wallet_id env.master_wallet_id,
      eqb_ℤ_iff response.amount one_dollar,
    )

    module _ (ledger : Ledger E) (circle : CircleLaws env ledger) where
      probe_run : TransferRun env (probe key) w probing.1 probe_ok.0
      probe_run = transfer-TransferRun env (probe key) w (cc probe_ok.1)

      -- If Circle keeps its laws, a transfer that it has recorded under the key is reported with
      -- the status that it had when it was made, if it is asked for by its wallets and its amount
      -- and these are not both the master wallet. Asking changes nothing at Circle.
      pub get_transfer_status-eq-recorded :
          {t : Transfer}
          → ledger.recorded (env.convert_to_uuid_v4 key) w.circle ≡ some t
          → t.source ≡ source
          → t.destination ≡ destination
          → t.amount ≡ amount
          → (source ≢ env.master_wallet_id) ⊎ (destination ≢ env.master_wallet_id)
          → (status ≡ Client.transfer_status t.status t.error_code)
            × IsSame ledger w.circle w'.circle
      unfolding get_transfer_status Client.to_transfer_response
      get_transfer_status-eq-recorded {t} used from to of user =
          let (shown, same) =
            circle.replayed (sent env (probe key)) w.circle probe_run.called used in
          let answer : probe_ok.0 ≡ Client.to_transfer_response t =
            cc (probe_run.responded, ap Client.to_transfer_response shown) in
          (
            status_answered probe_ok.0 probe_ok.1 (cc (answer, from)) (cc (answer, to))
                  (cc (answer, of)) user
                ∙ cc answer,
            subst (λ e. IsSame ledger w.circle e) (cc (probe_circle, probe_run.world)) same,
          )

      -- If Circle keeps its laws and has no transfer under the key, the answer is that it failed,
      -- and no money has moved between wallets: only the balance of the master wallet may differ.
      pub get_transfer_status-eq-failed :
          ledger.recorded (env.convert_to_uuid_v4 key) w.circle ≡ none
          → (status ≡ CircleTransferStatus.transfer_failed)
            × ((u : String)
                → u ≢ env.master_wallet_id
                → ledger.balance u w'.circle ≡ ledger.balance u w.circle)
      unfolding Client.to_transfer_response
      get_transfer_status-eq-failed fresh =
          let (from, to, of, _) =
            circle.answered (sent env (probe key)) w.circle probe_run.called fresh in
          (
            status_probed probe_ok.0 probe_ok.1 (cc (probe_run.responded, from))
                (cc (probe_run.responded, to))
                (cc (probe_run.responded, of, round_of_cents one_dollar refl)),
            λ u other. elim (failed_cases probe_run.reply.transfer.status) [
              | inl failed ↦
                  let (_, still) =
                    circle.failed (sent env (probe key)) w.circle probe_run.called failed in
                  cc (still u, probe_circle, probe_run.world)
              | inr passed ↦
                  let moved =
                    circle.create_transfer (sent env (probe key)) w.circle probe_run.called fresh
                      passed in
                  cc (moved.others u other other, probe_circle, probe_run.world)
            ],
          )

  module _ (v : String) (w : World E D) {w' : World E D} {dto : BalanceDto}
      (returned : get_balance env v true w ≡ (ok dto, w')) where
    abbrev refreshing : Result Amount × World E D
    refreshing = Client.get_wallet_balance env v w

    refresh_ok : (balance : Amount) × (refreshing.0 ≡ ok balance)
    unfolding get_balance
    refresh_ok = elim (Result-cases refreshing.0) [
      | inl answered ↦ answered
      | inr (e, p) ↦ absurd (ground arith)
    ]

    refresh_finish :
        (balance : Amount)
        → refreshing.0 ≡ ok balance
        → (dto.balance ≡ round_to_2_decimal_number balance)
          × (w' ≡ (cache_refreshed env v balance refreshing.1).1)
    unfolding get_balance
    refresh_finish balance p =
        let saved = cache_refreshed-ok env v balance refreshing.1 in
        (ground (arith, saved), ground (arith, saved))

    -- If Circle and the table keep their laws, a forced refresh of a consumer's wallet that
    -- returns answers the balance that Circle has, and either has cached it or has raised an
    -- alert, the last one of the run.
    pub get_balance-refreshed :
        (ledger : Ledger E)
        → CircleLaws env ledger
        → TableLaws env
        → v ≢ env.master_wallet_id
        → (dto.balance ≡ ledger.balance v w.circle)
          × (IsAlerted w.alerts w' ⊎ IsCached env v (ledger.balance v w.circle) w')
    unfolding get_balance
    get_balance-refreshed ledger circle table user =
        let (balance, p) = refresh_ok in
        let (answer, final) = refresh_finish balance p in
        let read =
          get_wallet_balance-BalanceRun env ledger circle v w {w' = refreshing.1}
            {balance = balance} (cc p) in
        let exact : round_to_2_decimal_number balance ≡ ledger.balance v w.circle =
          cc (round_of_cents (ledger.balance v w.circle) (circle.cents v w.circle), read.read) in
        let alerts : refreshing.1.alerts ≡ w.alerts = cc read.world in
        (
          answer ∙ exact,
          subst₃ (λ a b x. IsAlerted a x ⊎ IsCached env v b x) alerts exact (sym final)
              (cache_refreshed-IsCached env table v balance refreshing.1 user),
        )
