-- ===== src/ExchangeRates/Tests.antt =====
-- Tests and examples of the rates of exchange. The table holds the latest rate of all.
use noba_server.Common.Base.{
  ◌≡◌, refl, ℕ, ◌≤◌, ◌+◌, ◌++◌, String, Option, none, some, List, [], ◌∷◌, ◌⊎◌, leb, arith,
  if◌then◌else◌,
}
use noba_server.Common.Action.{ok}
use noba_server.Common.Alert.{Alert, critical, exchange_rate_update_failed}
use noba_server.Circle.Sample.{joi}
use noba_server.ExchangeRates.Domain.{
  PositiveRate, ExchangeRate, ExchangeRatePair, InputExchangeRate, ExchangeRateDto,
  GivenExchangeRateDto,
}
use noba_server.ExchangeRates.Environment.{Environment, World}
use noba_server.ExchangeRates.Repo
use noba_server.ExchangeRates.Service.{
  stub_get_exchange_rate, get_exchange_rate_client_by_currency_pair, is_outside_threshold,
  exchangerateio_get_exchange_rate, get_exchange_rate, save_exchange_rate, create_exchange_rate,
  update_checked, update_provided, update_pair, update_pairs, has_error, all,
  create_exchange_rate_from_provider, get_exchange_rate_for_currency_pair, exchange_rate_pairs,
  to_dto, hours,
}
use noba_server.ExchangeRates.Lookup.{rows, row_of, chosen, reports, get_exchange_rate-eq-chosen}
use noba_server.ExchangeRates.Creation.{TableLaw}
use noba_server.ExchangeRates.Threshold.{IsUpdated, asked, update_pair-IsUpdated}
use noba_server.ExchangeRates.Completeness.{AreCreated, from_provider_complete}

open_all : Unit {0}
unfolding Repo.validate_input_exchange_rate Repo.validate_saved_exchange_rate
    Repo.create_exchange_rate Repo.get_exchange_rate_for_currency_pair stub_get_exchange_rate
    get_exchange_rate_client_by_currency_pair is_outside_threshold exchangerateio_get_exchange_rate
    get_exchange_rate save_exchange_rate create_exchange_rate update_checked update_provided
    update_pair update_pairs has_error all create_exchange_rate_from_provider
    get_exchange_rate_for_currency_pair
open_all = tt

abbrev row : InputExchangeRate → ExchangeRate
row r = record {
  id = "rate-1";
  created_timestamp = 0;
  updated_timestamp = 0;
  numerator_currency = r.numerator_currency;
  denominator_currency = r.denominator_currency;
  bank_rate = r.bank_rate;
  noba_rate = r.noba_rate;
  expiration_timestamp = r.expiration_timestamp;
}

abbrev find_rate : Option ℕ → Option ExchangeRate → Option ExchangeRate
find_rate since none = none
find_rate none (some r) = some r
find_rate (some time) (some r) = if leb time r.expiration_timestamp then some r else none

abbrev pesos : ℕ → PositiveRate
pesos n = record { above = n; below = 0 }

-- The provider knows the rate from dollars to pesos alone.
abbrev environment : Environment (Option ExchangeRate)
environment = record {
  joi = joi;
  clock = λ n. 1000;
  to_upper_case = λ s. s;
  create = λ r x. (ok (row r), some (row r));
  find_first = λ n d since x. ok (find_rate since x);
  get_latest = λ symbols base x. (ok (some (("COP", pesos 4099) ∷ [])), x);
}

abbrev old : ExchangeRate
old = row (record {
  numerator_currency = "USD";
  denominator_currency = "COP";
  bank_rate = pesos 3999;
  noba_rate = pesos 3999;
  expiration_timestamp = 10;
})

abbrev start : World (Option ExchangeRate)
start = record { outside = some old; alerts = []; readings = 0 }

abbrev usd_cop : ExchangeRatePair
usd_cop = record { numerator_currency = "USD"; denominator_currency = "COP" }

abbrev new : ExchangeRateDto
new = record {
  numerator_currency = "USD";
  denominator_currency = "COP";
  bank_rate = pesos 4099;
  noba_rate = pesos 4099;
  expiration_timestamp = 1000 + hours 25;
}

abbrev updated : World (Option ExchangeRate)
updated = (update_pair environment usd_cop start).1

updates : update_pair environment usd_cop start ≡ (ok (some (ok new)), updated)
unfolding open_all
updates = refl

abbrev finished : World (Option ExchangeRate)
finished = (create_exchange_rate_from_provider environment start).1

finishes : create_exchange_rate_from_provider environment start ≡ (ok (new ∷ []), finished)
unfolding open_all
finishes = refl

-- The pair without a rate is reported.
reports_the_other_pair : finished.alerts ≡ critical exchange_rate_update_failed ∷ []
unfolding open_all
reports_the_other_pair = refl

abbrev stale : World (Option ExchangeRate)
stale = (get_exchange_rate_for_currency_pair environment "USD" "COP" start).1

gives_stale :
    get_exchange_rate_for_currency_pair environment "USD" "COP" start
    ≡ (ok (some (to_dto old)), stale)
unfolding open_all
gives_stale = refl

abbrev given : GivenExchangeRateDto
given = record {
  numerator_currency = "USD";
  denominator_currency = "COP";
  bank_rate = pesos 4099;
  noba_rate = none;
  expiration_timestamp = none;
}

abbrev made : ExchangeRateDto
made = record new { expiration_timestamp = 1000 + hours 36 }

abbrev created : World (Option ExchangeRate)
created = (create_exchange_rate environment given start).1

creates : create_exchange_rate environment given start ≡ (ok made, created)
unfolding open_all
creates = refl

table_law : TableLaw environment
table_law r x x' row h = (ground arith, ground arith, ground arith, ground arith, ground arith)

filtered :
    (n d : String) (time : ℕ) (x : Option ExchangeRate) (r : ExchangeRate)
    → environment.find_first n d (some time) x ≡ ok (some r)
    → time ≤ r.expiration_timestamp
filtered n d time none r h = absurd (ground arith)
filtered n d time (some s) r h = ground arith

get_exchange_rate-eq-chosen_example :
    let fresh = rows environment "USD" "COP" (some 1000) start in
    let latest = rows environment "USD" "COP" none start in
    let run = get_exchange_rate_for_currency_pair environment "USD" "COP" start in
    (run.0 ≡ ok (chosen (row_of fresh) (row_of latest)))
    × (run.1.outside ≡ start.outside)
    × (run.1.alerts ≡ reports fresh latest ++ start.alerts)
get_exchange_rate-eq-chosen_example = get_exchange_rate-eq-chosen environment "USD" "COP" start

update_pair-IsUpdated_example :
    IsUpdated environment usd_cop (asked environment usd_cop start).1 1000 new
update_pair-IsUpdated_example = update_pair-IsUpdated environment table_law usd_cop start updates

-- A provider that knows both rates, beside a table without an earlier one.
abbrev complete : Environment (Option ExchangeRate)
complete = record environment {
  find_first = λ n d since x. ok none;
  get_latest = λ symbols base x.
      (ok (some (("COP", pesos 4099) ∷ ("USD", record { above = 0; below = 4099 }) ∷ [])), x);
}

abbrev new_inverse : ExchangeRateDto
new_inverse = record {
  numerator_currency = "COP";
  denominator_currency = "USD";
  bank_rate = record { above = 0; below = 4099 };
  noba_rate = record { above = 0; below = 4099 };
  expiration_timestamp = 1000 + hours 25;
}

abbrev completed : World (Option ExchangeRate)
completed = (create_exchange_rate_from_provider complete start).1

completes :
    create_exchange_rate_from_provider complete start ≡ (ok (new ∷ new_inverse ∷ []), completed)
unfolding open_all
completes = refl

raises_no_alert : completed.alerts ≡ []
unfolding open_all
raises_no_alert = refl

from_provider_complete_example :
    AreCreated complete exchange_rate_pairs (new ∷ new_inverse ∷ []) start completed
    ⊎ ((before : List Alert) × (completed.alerts ≡ critical exchange_rate_update_failed ∷ before))
from_provider_complete_example = from_provider_complete complete start completes
