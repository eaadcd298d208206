-- ===== src/Circle/Sample.antt =====
-- A bank and a table for the tests: they show that what is assumed of Circle and of the database
-- can hold. Balances are whole cents. A transfer that is not covered, or not of whole cents, is
-- answered with an error; one with the key "held" fails for insufficient funds.
use noba_server.Common.Base.{
  ℕ, String, Bool, true, false, Option, none, some, [], ◌∷◌, ◌+◌, ◌-◌, ◌%◌, ◌/◌, ◌==◌, leb, ◌&&◌,
  str_eq, if◌then◌else◌,
}
use mathlib.Core.Option
use noba_server.Common.Int.{pos, negsuc, pos_part}
use noba_server.Common.Amount.{Amount, cents}
use noba_server.Common.Exception.{axios_error, database_error}
use noba_server.Common.Action.{Result, ok, err}
use noba_server.Common.Joi.{Joi}
use noba_server.Circle.Domain.{
  Circle, CircleCreateRequest, CircleUpdateRequest, TransferStatusEnum, TransferErrorCode, Transfer,
  CreateTransferRequest, CreateTransferReply,
}
use noba_server.Circle.Environment.{Environment, World}
use noba_server.Circle.Assumptions.{Ledger}

abbrev pub replace {ℓ} : {A : Type ℓ} → (String → A) → String → A → String → A
replace f k a j = if str_eq j k then a else f j

pub record Bank : Type 0 where
  pub held : String → ℕ
  pub made : String → Option CreateTransferRequest

-- The transfer of `n` cents that a request asks for.
abbrev pub made_by : CreateTransferRequest → Transfer
made_by r = record {
  id = r.idempotency_key;
  source = r.source;
  destination = r.destination;
  amount = r.amount;
  status =
      if str_eq r.idempotency_key "held"
      then TransferStatusEnum.failed
      else TransferStatusEnum.complete;
  error_code =
      if str_eq r.idempotency_key "held" then some TransferErrorCode.insufficient_funds else none;
  create_date = "2023-06-01";
}

abbrev pub move : (String → ℕ) → String → String → ℕ → String → ℕ
move held source destination n =
    let taken = replace held source (held source - n) in
    replace taken destination (taken destination + n)

abbrev pub is_cents : Amount → Bool
is_cents (pos n) = n % 100 == 0
is_cents (negsuc n) = false

abbrev pub create_in : Bank → CreateTransferRequest → Result CreateTransferReply × Bank
create_in bank r = elim (bank.made r.idempotency_key) [
  | some t ↦ (ok (record { http_status = 201; transfer = made_by t }), bank)
  | none ↦
      if str_eq r.idempotency_key "held"
      then (
        ok (record { http_status = 201; transfer = made_by r }),
        record bank { made = replace bank.made r.idempotency_key (some r) },
      )
      else if is_cents r.amount && leb (pos_part r.amount / 100) (bank.held r.source)
      then (
        ok (record { http_status = 201; transfer = made_by r }),
        record {
          held = move bank.held r.source r.destination (pos_part r.amount / 100);
          made = replace bank.made r.idempotency_key (some r);
        },
      )
      else (err (axios_error (some 400)), bank)
]

-- The table, by wallet and by consumer.
pub record Rows : Type 0 where
  pub by_wallet : String → Option Circle
  pub by_consumer : String → Option Circle

abbrev pub new_row : CircleCreateRequest → Circle
new_row r = record {
  id = r.wallet_id;
  wallet_id = r.wallet_id;
  consumer_id = r.consumer_id;
  current_balance = none;
}

abbrev pub update_in : String → CircleUpdateRequest → Rows → Result Circle × Rows
update_in v r d = elim (d.by_wallet v) [
  | none ↦ (err database_error, d)
  | some row ↦
      let row' = record row { current_balance = r.current_balance } in
      (ok row', record d { by_wallet = replace d.by_wallet v (some row') })
]

abbrev pub joi : Joi
joi = record {
  required_string = λ s. if str_eq s "" then false else true;
  min_string = λ n s. true;
  length_string = λ n s. true;
  required_number = λ a. true;
  optional_number = λ a. true;
  optional_positive_number = λ a. true;
}

abbrev pub environment : Environment Bank Rows
environment = record {
  create_wallet = λ key description bank. (ok "wallet-9", bank);
  get_wallet =
      λ v bank. (ok (record { currency = "USD"; amount = cents (bank.held v) } ∷ []), bank);
  create_transfer = λ r bank. create_in bank r;
  convert_to_uuid_v4 = λ key. key;
  master_wallet_id = "master";
  joi = joi;
  create = λ r d. (
    ok (new_row r),
    record {
      by_wallet = replace d.by_wallet r.wallet_id (some (new_row r));
      by_consumer = replace d.by_consumer r.consumer_id (some (new_row r));
    },
  );
  find_unique = λ c d. ok (d.by_consumer c);
  update = update_in;
  find_first =
      λ v d. elim (d.by_wallet v) [ some row ↦ ok (some row) | none ↦ ok (d.by_consumer v) ];
}

abbrev pub ledger : Ledger Bank
ledger = record {
  balance = λ v bank. cents (bank.held v);
  recorded = λ k bank. Option.map made_by (bank.made k);
}

-- Ten dollars in the wallet of a consumer and a hundred in the master wallet.
abbrev pub world : World Bank Rows
world = record {
  circle = record {
    held = λ v. if str_eq v "master" then 10000 else if str_eq v "wallet-1" then 1000 else 0;
    made = λ k. none;
  };
  table = record {
    by_wallet = λ v. if str_eq v "wallet-1" then some row else none;
    by_consumer = λ c. if str_eq c "consumer-1" then some row else none;
  };
  alerts = [];
}
  where
    row : Circle
    row = record {
      id = "row-1";
      wallet_id = "wallet-1";
      consumer_id = "consumer-1";
      current_balance = some (cents 1000);
    }
