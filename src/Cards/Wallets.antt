-- ===== src/Cards/Wallets.antt =====
-- What the services of the server do to the balances at Circle.
use noba_server.Common.Base.{
  ◌≡◌, ◌≢◌, refl, String, ◌⊎◌, inl, inr, Option, Option-cases, none, some, arith,
}
use noba_server.Common.Amount.{Amount}
use noba_server.Common.Action.{Action, ok}
use noba_server.Circle.Domain.{
  UpdateWalletBalanceServiceDto, CircleTransferStatus, Transfer, TransferStatusEnum,
}
use noba_server.Circle.Environment as Circle
use noba_server.Circle.Assumptions.{Ledger, CircleLaws}
use noba_server.Circle.Runs.{get_wallet_balance-BalanceRun}
use noba_server.Circle.DebitEffects.{IsDebited, debit-IsDebited, debit_replayed}
use noba_server.Circle.Client
use noba_server.Circle.Service
use noba_server.Cards.Server.{World, Bookings, of_wallets, of_rest, debit}

module _ {E D R : Type 0} (circle : Circle.Environment E D) (ledger : Ledger E) where
  -- No balance at Circle has changed.
  abbrev pub IsStill : World E D R → World E D R → Type 0
  IsStill w w' =
      (v : String) → ledger.balance v w'.wallets.circle ≡ ledger.balance v w.wallets.circle

  pub of_wallets-eq-ok :
      {A : Type 0} (m : Action (Circle.World E D) A) (w : World E D R) {w' : World E D R} {a : A}
      → of_wallets m w ≡ (ok a, w')
      → m w.wallets ≡ (ok a, w'.wallets)
  of_wallets-eq-ok m w h = ground arith

  pub of_rest-IsStill :
      {A : Type 0} (m : Action R A) (w : World E D R) {w' : World E D R} {a : A}
      → of_rest m w ≡ (ok a, w')
      → IsStill w w'
  of_rest-IsStill m w h v = ground arith

  pub balance-IsStill :
      CircleLaws circle ledger
      → (wallet : String) (w : World E D R) {w' : World E D R} {balance : Amount}
      → of_wallets (Service.get_wallet_balance circle wallet) w ≡ (ok balance, w')
      → (balance ≡ ledger.balance wallet w.wallets.circle) × IsStill w w'
  unfolding Service.get_wallet_balance
  balance-IsStill laws wallet w {w'} {balance} h =
      let x = Client.get_wallet_balance circle wallet w.wallets in
      let called : x ≡ (ok balance, w'.wallets) = ground arith in
      let run = get_wallet_balance-BalanceRun circle ledger laws wallet w.wallets called in
      (run.read, λ v. cc (run.same.balance v, run.world))

  -- Circle has recorded a transfer under the key, which did not fail, and no balance changes.
  pub record IsReplayed (id : String) (w w' : World E D R) : Type 0 where
    pub earlier : Transfer
    pub recorded : ledger.recorded (circle.convert_to_uuid_v4 id) w.wallets.circle ≡ some earlier
    pub made : earlier.status ≢ TransferStatusEnum.failed
    pub still : IsStill w w'

  -- The debit under a new key, or a retry of it.
  abbrev pub IsDebitedOnce : (id wallet : String) → Amount → World E D R → World E D R → Type 0
  IsDebitedOnce id wallet amount w w' =
      ((ledger.recorded (circle.convert_to_uuid_v4 id) w.wallets.circle ≡ none)
        × IsDebited circle ledger wallet amount w.wallets w'.wallets)
      ⊎ IsReplayed id w w'

  -- A debit that succeeds has moved the amount from the wallet to the master wallet, or Circle
  -- had recorded a transfer under the same key, and then no balance changes.
  pub debit_once :
      CircleLaws circle ledger
      → (bookings : Bookings R)
        (credit_nothing : String → String → Action (World E D R) UpdateWalletBalanceServiceDto)
        (id wallet : String) (asked : Option Amount) (w : World E D R) {w' : World E D R}
        {dto : UpdateWalletBalanceServiceDto}
      → debit circle bookings credit_nothing id wallet asked w ≡ (ok dto, w')
      → dto.status ≡ CircleTransferStatus.success
      → wallet ≢ circle.master_wallet_id
      → (amount : Amount) × (asked ≡ some amount) × IsDebitedOnce id wallet amount w w'
  debit_once laws bookings credit_nothing id wallet none w h success user = absurd (ground arith)
  debit_once laws bookings credit_nothing id wallet (some amount) w {w'} {dto} h success user =
      let returned : Service.debit_wallet_balance circle id wallet amount w.wallets
          ≡ (ok dto, w'.wallets) =
        ground arith in
      let once : IsDebitedOnce id wallet amount w w' =
        elim (Option-cases (ledger.recorded (circle.convert_to_uuid_v4 id) w.wallets.circle)) [
          | inl fresh ↦ inl (
            fresh,
            debit-IsDebited circle ledger laws id wallet amount w.wallets returned success user
                fresh,
          )
          | inr (t, used) ↦
              let (made, still) =
                debit_replayed circle ledger laws id wallet amount w.wallets returned success user
                  used in
              inr (record { earlier = t; recorded = used; made = made; still = still })
        ] in
      (amount, refl, once)
