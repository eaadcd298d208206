-- ===== src/Circle/Wallets.antt =====
-- `getOrCreateWallet`: what a run that returned has done.
use noba_server.Common.Base.{◌≡◌, String, false, inl, inr, none, some, arith, is_empty}
use noba_server.Common.Action.{ok}
use noba_server.Common.Inversion.{Result-cases}
use noba_server.Circle.Domain.{Circle, CircleCreateRequest}
use noba_server.Circle.Environment.{Environment, World}
use noba_server.Circle.Assumptions.{TableLaws}
use noba_server.Circle.Client
use noba_server.Circle.Repo
use noba_server.Circle.Service.{get_or_create_wallet}

module _ {E D : Type 0} (env : Environment E D) where
  -- What it is for a consumer's wallet to be in the table.
  pub record IsLinked (consumer v : String) (w : World E D) : Type 0 where
    pub row : Circle
    pub found : env.find_unique consumer w.table ≡ ok (some row)
    pub wallet : row.wallet_id ≡ v

  add_consumer_circle_wallet_id-IsLinked :
      TableLaws env
      → (consumer v : String) (w : World E D) {saved : Circle}
      → let request : CircleCreateRequest = record { wallet_id = v; consumer_id = consumer } in
        (Repo.add_consumer_circle_wallet_id env request w).0 ≡ ok saved
        → IsLinked consumer v (Repo.add_consumer_circle_wallet_id env request w).1
  unfolding Repo.add_consumer_circle_wallet_id
  add_consumer_circle_wallet_id-IsLinked laws consumer v w {saved} h =
      let request : CircleCreateRequest = record { wallet_id = v; consumer_id = consumer } in
      elim (Result-cases (env.create request w.table).0) [
        | inr (e, p) ↦ absurd (ground arith)
        | inl (row, p) ↦
            let (wallet, found) =
              laws.create request w.table {d' = (env.create request w.table).1} {row = row}
                (ground arith) in
            record { row = row; found = ground (arith, found); wallet = wallet }
      ]

  module _ (laws : TableLaws env) (consumer v : String) (w : World E D) {w' : World E D}
      (returned : get_or_create_wallet env consumer w ≡ (ok v, w')) where
    get_or_create_wallet-IsLinked : IsLinked consumer v w'
    unfolding get_or_create_wallet Repo.get_circle_wallet_id
    get_or_create_wallet-IsLinked = elim (Result-cases (env.find_unique consumer w.table)) [
      | inr (e, p) ↦ absurd (ground arith)
      | inl (some row, p) ↦ record { row = row; found = ground arith; wallet = ground arith }
      | inl (none, p) ↦ elim (Result-cases (Client.create_wallet env consumer w).0) [
        | inr (e, q) ↦ absurd (ground arith)
        | inl (made, q) ↦
            elim (Result-cases
              (Repo.add_consumer_circle_wallet_id env
                (record { wallet_id = made; consumer_id = consumer })
                (Client.create_wallet env consumer w).1).0) [
                  | inr (e, r) ↦ absurd (ground arith)
                  | inl (saved, r) ↦
                      let linked =
                        add_consumer_circle_wallet_id-IsLinked laws consumer made
                          (Client.create_wallet env consumer w).1 r in
                      record {
                        row = linked.row;
                        found = ground (arith, linked.found);
                        wallet = ground (arith, linked.wallet);
                      }
                ]
      ]
    ]

    -- If the table keeps its laws, then once a consumer has been given a wallet, asking again
    -- gives the same wallet and changes nothing: neither Circle nor the table nor the alerts.
    pub get_or_create_wallet_again : get_or_create_wallet env consumer w' ≡ (ok v, w')
    unfolding get_or_create_wallet Repo.get_circle_wallet_id
    get_or_create_wallet_again =
        let named : is_empty consumer ≡ false = ground arith in
        ground (arith, get_or_create_wallet-IsLinked.found, get_or_create_wallet-IsLinked.wallet)
