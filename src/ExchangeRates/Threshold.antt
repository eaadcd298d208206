-- ===== src/ExchangeRates/Threshold.antt =====
-- The rounds of `createExchangeRateFromProvider` of src/modules/exchangerate/exchangerate.service.ts: a
-- rate that moves by more than a tenth is not stored.
use noba_server.Common.Base.{
  ◌≡◌, ℕ, suc, ◌+◌, ◌*◌, ◌≤◌, String, Bool, true, false, Option, none, some, List, arith, ◌∙◌, ap,
  sym, subst,
}
use noba_server.Common.Action.{Action, Result, ok, pure, try_catch, from_result, ◌>>=◌}
use noba_server.Common.Outcome.{run-eq-ok}
use noba_server.ExchangeRates.Domain.{
  PositiveRate, ExchangeRateName, ExchangeRatePair, ExchangeRate, ExchangeRateDto,
}
use noba_server.ExchangeRates.Environment.{Environment, World, now}
use noba_server.ExchangeRates.Repo
use noba_server.ExchangeRates.Service.{
  create_exchange_rate, update_pair, is_outside_threshold,
  get_exchange_rate_client_by_currency_pair, get_exchange_rate, hours, expiration, update_checked,
  update_provided, provided_dto, refuses,
}
use noba_server.ExchangeRates.Creation.{TableLaw, create_exchange_rate-IsCreated}

-- 0.9 e ≤ rate ≤ 1.1 e, on the fractions.
abbrev pub IsWithinTenth : (rate e : PositiveRate) → Type 0
IsWithinTenth rate e =
    (suc e.above * 9 * suc rate.below ≤ suc rate.above * 10 * suc e.below)
    × (suc rate.above * 10 * suc e.below ≤ suc e.above * 11 * suc rate.below)

threshold-IsWithinTenth :
    (rate e : PositiveRate) → is_outside_threshold rate e ≡ false → IsWithinTenth rate e
unfolding is_outside_threshold
threshold-IsWithinTenth rate e h =
    let a = suc rate.above * 10 * suc e.below in
    let b = suc e.above * 9 * suc rate.below in
    let c = suc e.above * 11 * suc rate.below in ground arith

module _ {X : Type 0} (env : Environment X) where
  -- What the provider is asked for a pair, and the state after.
  abbrev pub asked : ExchangeRatePair → World X → Result (Option (List (String × PositiveRate))) × X
  asked pair w = env.get_latest pair.denominator_currency pair.numerator_currency w.outside

  -- The rate is within a tenth of the bank's rate that the table has for the pair, if it has one.
  abbrev IsNear : ExchangeRatePair → PositiveRate → X → Type 0
  IsNear pair rate x =
      (e : ExchangeRate)
      → env.find_first (env.to_upper_case pair.numerator_currency)
          (env.to_upper_case pair.denominator_currency) none x
        ≡ ok (some e)
      → IsWithinTenth rate e.bank_rate

  abbrev pub IsUpdated : ExchangeRatePair → X → ℕ → ExchangeRateDto → Type 0
  IsUpdated pair x time dto =
      IsNear pair dto.bank_rate x
      × (dto.noba_rate ≡ dto.bank_rate)
      × (dto.expiration_timestamp ≡ time + hours 25)

  checked_lem :
      TableLaw env
      → (pair : ExchangeRatePair) (rate : PositiveRate) (refused : Bool) (w : World X)
        {w' : World X} {dto : ExchangeRateDto}
      → update_checked env pair rate refused w ≡ (ok (some (ok dto)), w')
      → (refused ≡ false)
        × (dto.bank_rate ≡ rate)
        × (dto.noba_rate ≡ rate)
        × (dto.expiration_timestamp ≡ env.clock w.readings + hours 25)
  unfolding update_checked
  checked_lem law pair rate true w h = absurd (ground arith)
  checked_lem law pair rate false w {w'} {dto} h =
      let given = provided_dto env pair rate (env.clock w.readings) in
      let created = create_exchange_rate env given (now env w).1 in
      let is_created =
        create_exchange_rate-IsCreated env law given (now env w).1 {w' = created.1} {dto' = dto}
          (ground arith) in
      ground (arith, is_created)

  provided_lem :
      TableLaw env
      → (pair : ExchangeRatePair) (provided : Option PositiveRate) (w : World X) {w' : World X}
        {dto : ExchangeRateDto}
      → update_provided env pair provided w ≡ (ok (some (ok dto)), w')
      → IsUpdated pair w.outside (env.clock w.readings) dto
  unfolding update_provided Repo.get_exchange_rate_for_currency_pair
  provided_lem law pair none w h = absurd (ground arith)
  provided_lem law pair (some rate) w {w'} {dto} h =
      let x =
        Repo.get_exchange_rate_for_currency_pair env pair.numerator_currency
          pair.denominator_currency none w in
      let (existing, p, q) = run-eq-ok x h in
      let (kept, bank, noba, expiration) =
        checked_lem law pair rate (refuses env rate existing) x.1 {w' = w'} {dto = dto} q in
      (
        λ e found.
            subst (λ r. IsWithinTenth r e.bank_rate) (sym bank)
              (threshold-IsWithinTenth rate e.bank_rate (ground arith)),
        noba ∙ sym bank,
        ground arith,
      )

  abbrev ask : ExchangeRateName → ExchangeRatePair → Action (World X) (Option PositiveRate)
  ask client pair =
      try_catch (get_exchange_rate env client pair.numerator_currency pair.denominator_currency)
        (λ _. pure none)

  abbrev pub asking : ExchangeRatePair → World X → Result (Option PositiveRate) × World X
  asking pair w = ask ExchangeRateName.exchangerateio pair w

  pub asking_lem :
      (pair : ExchangeRatePair) (w : World X)
      → ((asking pair w).1.outside ≡ (asked pair w).1) × ((asking pair w).1.readings ≡ w.readings)
  unfolding get_exchange_rate
  asking_lem pair w = (ground arith, ground arith)

  client_lem :
      (pair : ExchangeRatePair) (client : ExchangeRateName)
      → get_exchange_rate_client_by_currency_pair pair.numerator_currency pair.denominator_currency
        ≡ ok client
      → client ≡ ExchangeRateName.exchangerateio
  unfolding get_exchange_rate_client_by_currency_pair
  client_lem pair client h = ground arith

  pub update_pair-eq-ok :
      (pair : ExchangeRatePair) (w : World X) {w' : World X}
      {outcome : Option (Result ExchangeRateDto)}
      → update_pair env pair w ≡ (ok outcome, w')
      → (provided : Option PositiveRate) × ((asking pair w).0 ≡ ok provided)
        × (update_provided env pair provided (asking pair w).1 ≡ (ok outcome, w'))
  unfolding update_pair
  update_pair-eq-ok pair w {w'} {outcome} h =
      let (client, p, q) =
        run-eq-ok
          (from_result
            (get_exchange_rate_client_by_currency_pair pair.numerator_currency
              pair.denominator_currency)
            w)
          h in
      let (provided, p', q') = run-eq-ok (asking pair w) (
        subst (λ c. (ask c pair >>= update_provided env pair) w ≡ (ok outcome, w'))
          (client_lem pair client (ground arith)) q) in
      (provided, ap (λ r. r.0) p', q')

  -- Where the table gives back what it was given, a pair's rate from the provider that is stored is
  -- within a tenth of the bank's rate that the table then had for the pair, if it had one, is also
  -- Noba's rate, and expires 25 hours after the clock was read.
  pub update_pair-IsUpdated :
      TableLaw env
      → (pair : ExchangeRatePair) (w : World X) {w' : World X} {dto : ExchangeRateDto}
      → update_pair env pair w ≡ (ok (some (ok dto)), w')
      → IsUpdated pair (asked pair w).1 (env.clock w.readings) dto
  update_pair-IsUpdated law pair w {w'} {dto} h =
      let (provided, _, q') = update_pair-eq-ok pair w h in
      let updated = provided_lem law pair provided (asking pair w).1 {w' = w'} {dto = dto} q' in
      let (outside, readings) = asking_lem pair w in
      subst (λ x. IsUpdated pair x (env.clock w.readings) dto) outside
        (subst (λ n. IsUpdated pair (asking pair w).1.outside (env.clock n) dto) readings updated)
