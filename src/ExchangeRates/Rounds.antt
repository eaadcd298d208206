-- ===== src/ExchangeRates/Rounds.antt =====
-- The creation that ends a round of `createExchangeRateFromProvider` of
-- src/modules/exchangerate/exchangerate.service.ts: what the table was told.
use mathlib.Core.List.{Memᴰ}
use noba_server.Common.Base.{
  ◌≡◌, refl, ap, ◌+◌, subst, String, Bool, true, false, Bool-cases, Option, none, some, List, ◌∷◌,
  [], inl, inr, arith, ◌∙◌, str_eq, str_eq_iff,
}
use noba_server.Common.Action.{ok}
use noba_server.Common.Inversion.{Result-cases}
use noba_server.Common.Outcome.{run-eq-ok}
use noba_server.ExchangeRates.Domain.{
  PositiveRate, ExchangeRatePair, ExchangeRate, InputExchangeRate, ExchangeRateDto,
}
use noba_server.ExchangeRates.Environment.{Environment, World, now}
use noba_server.ExchangeRates.Repo
use noba_server.ExchangeRates.Service.{
  update_pair, rate_of, create_exchange_rate, save_exchange_rate, update_checked, input_of, hours,
  get_exchange_rate, exchangerateio_get_exchange_rate, update_provided, provided_dto, refuses,
  to_dto,
}
use noba_server.ExchangeRates.Threshold.{asked, asking, asking_lem, update_pair-eq-ok}

rate_of-Mem :
    (currency : String) (rates : List (String × PositiveRate)) {rate : PositiveRate}
    → rate_of currency rates ≡ some rate
    → Memᴰ (currency, rate) rates
rate_of-Mem currency [] h = absurd (ground arith)
rate_of-Mem currency ((name, first) ∷ rates) {rate} h = elim (Bool-cases (str_eq name currency)) [
  | inl same ↦ Memᴰ.head (ground (arith, str_eq_iff name currency))
  | inr other ↦ Memᴰ.tail (rate_of-Mem currency rates (ground arith))
]

module _ {X : Type 0} (env : Environment X) where
  -- The table was told to create a rate for the upper-case currencies of the pair, and has answered
  -- with what is given.
  pub record IsSavedFor (pair : ExchangeRatePair) (rate : PositiveRate) (x x' : X)
      (dto : ExchangeRateDto) : Type 0 where
    pub input : InputExchangeRate
    pub row : ExchangeRate
    pub numerator : input.numerator_currency ≡ env.to_upper_case pair.numerator_currency
    pub denominator : input.denominator_currency ≡ env.to_upper_case pair.denominator_currency
    pub bank_rate : input.bank_rate ≡ rate
    pub created : env.create input x ≡ (ok row, x')
    pub given_numerator : dto.numerator_currency ≡ row.numerator_currency
    pub given_denominator : dto.denominator_currency ≡ row.denominator_currency
    pub given_bank_rate : dto.bank_rate ≡ row.bank_rate
    pub given_noba_rate : dto.noba_rate ≡ row.noba_rate
    pub given_expiration : dto.expiration_timestamp ≡ row.expiration_timestamp

  -- The provider was asked for the pair, and a rate that is in its answer under the denominator was
  -- saved next.
  pub record IsCreatedFor (pair : ExchangeRatePair) (w w' : World X) (dto : ExchangeRateDto)
      : Type 0 where
    pub rates : List (String × PositiveRate)
    pub rate : PositiveRate
    pub answered : (asked env pair w).0 ≡ ok (some rates)
    pub listed : Memᴰ (pair.denominator_currency, rate) rates
    pub saved : IsSavedFor pair rate (asked env pair w).1 w'.outside dto

  stored_lem :
      (r : InputExchangeRate) (w : World X) {w' : World X} {row : ExchangeRate}
      → Repo.create_exchange_rate env r w ≡ (ok row, w')
      → env.create (Repo.to_create_input env r) w.outside ≡ (ok row, w'.outside)
  unfolding Repo.create_exchange_rate
  stored_lem r w h = elim (Result-cases (env.create (Repo.to_create_input env r) w.outside).0) [
    | inl (row, p) ↦ ground arith
    | inr (e, p) ↦ absurd (ground arith)
  ]

  saved_lem :
      (r : InputExchangeRate) (w : World X) {w' : World X} {dto : ExchangeRateDto}
      → save_exchange_rate env r w ≡ (ok dto, w')
      → (row : ExchangeRate) × (env.create (Repo.to_create_input env r) w.outside
          ≡ (ok row, w'.outside))
        × (dto ≡ to_dto row)
  unfolding save_exchange_rate
  saved_lem r w {w'} {dto} h = elim (Result-cases (Repo.create_exchange_rate env r w).0) [
    | inr (e, p) ↦ absurd (ground arith)
    | inl (row, p) ↦
        let stored : Repo.create_exchange_rate env r w ≡ (ok row, w') = ground arith in
        (row, stored_lem r w stored, ground arith)
  ]

  checked-IsSavedFor :
      (pair : ExchangeRatePair) (rate : PositiveRate) (refused : Bool) (w : World X) {w' : World X}
      {dto : ExchangeRateDto}
      → update_checked env pair rate refused w ≡ (ok (some (ok dto)), w')
      → IsSavedFor pair rate w.outside w'.outside dto
  unfolding update_checked create_exchange_rate
  checked-IsSavedFor pair rate true w h = absurd (ground arith)
  checked-IsSavedFor pair rate false w {w'} {dto} h =
      let time = env.clock w.readings in
      let input = input_of env (provided_dto env pair rate time) (time + hours 25) in
      let (row, created, given) =
        saved_lem input (now env w).1 {w' = w'} {dto = dto} (ground arith) in
      record {
        input = Repo.to_create_input env input;
        row = row;
        numerator = refl;
        denominator = refl;
        bank_rate = refl;
        created = created;
        given_numerator = ap (λ d. d.numerator_currency) given;
        given_denominator = ap (λ d. d.denominator_currency) given;
        given_bank_rate = ap (λ d. d.bank_rate) given;
        given_noba_rate = ap (λ d. d.noba_rate) given;
        given_expiration = ap (λ d. d.expiration_timestamp) given;
      }

  provided-IsSavedFor :
      (pair : ExchangeRatePair) (provided : Option PositiveRate) (w : World X) {w' : World X}
      {dto : ExchangeRateDto}
      → update_provided env pair provided w ≡ (ok (some (ok dto)), w')
      → (rate : PositiveRate) × (provided ≡ some rate)
        × IsSavedFor pair rate w.outside w'.outside dto
  unfolding update_provided Repo.get_exchange_rate_for_currency_pair
  provided-IsSavedFor pair none w h = absurd (ground arith)
  provided-IsSavedFor pair (some rate) w {w'} {dto} h =
      let x =
        Repo.get_exchange_rate_for_currency_pair env pair.numerator_currency
          pair.denominator_currency none w in
      let (existing, p, q) = run-eq-ok x h in
      let same : x.1.outside ≡ w.outside = ground arith in
      let saved =
        checked-IsSavedFor pair rate (refuses env rate existing) x.1 {w' = w'} {dto = dto} q in
      (rate, refl, subst (λ o. IsSavedFor pair rate o w'.outside dto) same saved)

  -- A rate that the client has found is one of the answer.
  asking-eq-some :
      (pair : ExchangeRatePair) (w : World X) {rate : PositiveRate}
      → (asking env pair w).0 ≡ ok (some rate)
      → (rates : List (String × PositiveRate)) × ((asked env pair w).0 ≡ ok (some rates))
        × Memᴰ (pair.denominator_currency, rate) rates
  unfolding get_exchange_rate exchangerateio_get_exchange_rate
  asking-eq-some pair w h = elim (Result-cases (asked env pair w).0) [
    | inr (e, p) ↦ absurd (ground arith)
    | inl (none, p) ↦ absurd (ground arith)
    | inl (some rates, p) ↦ (rates, p, rate_of-Mem pair.denominator_currency rates (ground arith))
  ]

  pub update_pair-IsCreatedFor :
      (pair : ExchangeRatePair) (w : World X) {w' : World X} {dto : ExchangeRateDto}
      → update_pair env pair w ≡ (ok (some (ok dto)), w')
      → IsCreatedFor pair w w' dto
  update_pair-IsCreatedFor pair w {w'} {dto} h =
      let (provided, p, q) = update_pair-eq-ok env pair w h in
      let (rate, found, saved) =
        provided-IsSavedFor pair provided (asking env pair w).1 {w' = w'} {dto = dto} q in
      let (rates, answered, listed) = asking-eq-some pair w (p ∙ ap ok found) in
      record {
        rates = rates;
        rate = rate;
        answered = answered;
        listed = listed;
        saved = subst (λ x. IsSavedFor pair rate x w'.outside dto) (asking_lem env pair w).0 saved;
      }
