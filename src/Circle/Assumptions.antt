-- ===== src/Circle/Assumptions.antt =====
-- What the Circle component relies on of the code that it calls: Circle's documented behaviour as
-- a ledger with idempotency keys, and the database's as a table.
use noba_server.Common.Base.{String, ◌≡◌, ◌≢◌, Option, none, some, List, [], ◌∷◌}
use noba_server.Common.Int.{◌+ℤ◌, ◌-ℤ◌}
use noba_server.Common.Amount.{Amount, IsCents}
use noba_server.Common.Exception.{Exception}
use noba_server.Common.Action.{ok, err}
use noba_server.Circle.Domain.{
  Circle, CircleCreateRequest, CircleUpdateRequest, CurrencyBalance, TransferStatusEnum,
  TransferErrorCode, Transfer, CreateTransferRequest, CreateTransferReply,
}
use noba_server.Circle.Environment.{Environment}

-- A view of Circle's state: the balance of each wallet in USD, and the transfer that was recorded
-- under each idempotency key.
pub record Ledger (E : Type 0) : Type 0 where
  pub balance : String → E → Amount
  pub recorded : String → E → Option Transfer

-- Nothing that the ledger shows has changed.
pub record IsSame {E : Type 0} (ledger : Ledger E) (e e' : E) : Type 0 where
  pub balance : (v : String) → ledger.balance v e' ≡ ledger.balance v e
  pub recorded : (k : String) → ledger.recorded k e' ≡ ledger.recorded k e

-- The amount of `request` has moved, and no other balance has changed.
pub record IsMoved {E : Type 0} (ledger : Ledger E) (request : CreateTransferRequest) (e e' : E)
    : Type 0 where
  pub source :
      request.source ≢ request.destination
      → ledger.balance request.source e' ≡ ledger.balance request.source e -ℤ request.amount
  pub destination :
      request.source ≢ request.destination
      → ledger.balance request.destination e'
        ≡ ledger.balance request.destination e +ℤ request.amount
  pub others :
      (v : String)
      → v ≢ request.source
      → v ≢ request.destination
      → ledger.balance v e' ≡ ledger.balance v e

-- A transfer that failed says so with one of the four documented codes.
abbrev pub IsNamed : Option TransferErrorCode → Type 0
IsNamed none = ⊥
IsNamed (some TransferErrorCode.other) = ⊥
IsNamed (some _) = Unit

module _ {E D : Type 0} (env : Environment E D) (ledger : Ledger E) where
  pub record CircleLaws : Type 0 where
    -- A wallet has one balance, in USD, of whole cents; reading it changes nothing.
    pub get_wallet :
        (v : String) (e : E) {e' : E} {balances : List CurrencyBalance}
        → env.get_wallet v e ≡ (ok balances, e')
        → (balances ≡ record { currency = "USD"; amount = ledger.balance v e } ∷ [])
          × IsSame ledger e e'
    pub cents : (v : String) (e : E) → IsCents (ledger.balance v e)
    -- A request with a new key that is accepted moves the money, unless the transfer failed.
    pub create_transfer :
        (r : CreateTransferRequest) (e : E) {e' : E} {reply : CreateTransferReply}
        → env.create_transfer r e ≡ (ok reply, e')
        → ledger.recorded r.idempotency_key e ≡ none
        → reply.transfer.status ≢ TransferStatusEnum.failed
        → IsMoved ledger r e e'
    -- The transfer that is answered names what was asked, and is recorded.
    pub answered :
        (r : CreateTransferRequest) (e : E) {e' : E} {reply : CreateTransferReply}
        → env.create_transfer r e ≡ (ok reply, e')
        → ledger.recorded r.idempotency_key e ≡ none
        → (reply.transfer.source ≡ r.source)
          × (reply.transfer.destination ≡ r.destination)
          × (reply.transfer.amount ≡ r.amount)
          × (ledger.recorded r.idempotency_key e' ≡ some reply.transfer)
    -- A request with a used key is answered with the recorded transfer, and moves nothing.
    pub replayed :
        (r : CreateTransferRequest) (e : E) {e' : E} {reply : CreateTransferReply} {t : Transfer}
        → env.create_transfer r e ≡ (ok reply, e')
        → ledger.recorded r.idempotency_key e ≡ some t
        → (reply.transfer ≡ t) × IsSame ledger e e'
    pub failed :
        (r : CreateTransferRequest) (e : E) {e' : E} {reply : CreateTransferReply}
        → env.create_transfer r e ≡ (ok reply, e')
        → reply.transfer.status ≡ TransferStatusEnum.failed
        → IsNamed reply.transfer.error_code
          × ((v : String) → ledger.balance v e' ≡ ledger.balance v e)

-- The table: a row is found again by its consumer and by its wallet.
module _ {E D : Type 0} (env : Environment E D) where
  pub record TableLaws : Type 0 where
    pub create :
        (r : CircleCreateRequest) (d : D) {d' : D} {row : Circle}
        → env.create r d ≡ (ok row, d')
        → (row.wallet_id ≡ r.wallet_id) × (env.find_unique r.consumer_id d' ≡ ok (some row))
    pub update :
        (v : String) (r : CircleUpdateRequest) (d : D) {d' : D} {row : Circle}
        → env.update v r d ≡ (ok row, d')
        → (env.find_first v d' ≡ ok (some row)) × (row.current_balance ≡ r.current_balance)
    pub update_others :
        (v u : String) (r : CircleUpdateRequest) (d : D) {d' : D} {row : Circle}
        → env.update v r d ≡ (ok row, d')
        → u ≢ v
        → env.find_first u d' ≡ env.find_first u d
    -- An update that is refused changes nothing.
    pub update_failed :
        (v : String) (r : CircleUpdateRequest) (d : D) {d' : D} {x : Exception}
        → env.update v r d ≡ (err x, d')
        → d' ≡ d
