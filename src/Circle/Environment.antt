-- ===== src/Circle/Environment.antt =====
-- What the Circle component calls and does not implement: Circle's API, the table of the
-- database, Joi, the conversion of keys, and the configured master wallet.
use noba_server.Common.Base.{String, Option, List, ◌∷◌}
use noba_server.Common.Action.{Action, Result, ok}
use noba_server.Common.Alert.{Alert}
use noba_server.Common.Joi.{Joi}
use noba_server.Circle.Domain.{
  Circle, CircleCreateRequest, CircleUpdateRequest, CurrencyBalance, CreateTransferRequest,
  CreateTransferReply,
}

-- `E` is the state of Circle and `D` that of the table `circle`.
pub record Environment (E D : Type 0) : Type 0 where
  pub create_wallet : (idempotency_key description : String) → E → Result String × E
  pub get_wallet : String → E → Result (List CurrencyBalance) × E
  pub create_transfer : CreateTransferRequest → E → Result CreateTransferReply × E
  pub convert_to_uuid_v4 : String → String
  pub master_wallet_id : String
  pub joi : Joi
  -- `prisma.circle`: `create`, `findUnique` by consumer, `update` by wallet, and `findFirst` by
  -- consumer or wallet
  pub create : CircleCreateRequest → D → Result Circle × D
  pub find_unique : String → D → Result (Option Circle)
  pub update : String → CircleUpdateRequest → D → Result Circle × D
  pub find_first : String → D → Result (Option Circle)

-- The state that the component works on; `alerts` lists what was raised, the latest first.
pub record World (E D : Type 0) : Type 0 where
  pub circle : E
  pub table : D
  pub alerts : List Alert

module _ {E D : Type 0} where
  abbrev pub raise_alert : Alert → Action (World E D) (Unit {0})
  raise_alert a w = (ok tt, record w { alerts = a ∷ w.alerts })

  -- A call of Circle's API.
  abbrev pub call : {A : Type 0} → (E → Result A × E) → Action (World E D) A
  call f w = let (r, e) = f w.circle in (r, record w { circle = e })

  -- A write to the table.
  abbrev pub write : {A : Type 0} → (D → Result A × D) → Action (World E D) A
  write f w = let (r, d) = f w.table in (r, record w { table = d })

  -- A query of the table.
  abbrev pub query : {A : Type 0} → (D → Result A) → Action (World E D) A
  query f w = (f w.table, w)
