-- ===== src/ExchangeRates/Completeness.antt =====
-- `createExchangeRateFromProvider` of src/modules/exchangerate/exchangerate.service.ts: a rate for each
-- pair of currencies, or an alert.
use noba_server.Common.Base.{
  ◌≡◌, refl, ap, sym, subst, false, Bool-cases, Option, none, some, List, ◌∷◌, [], ◌⊎◌, inl, inr,
  arith, ◌∙◌,
}
use noba_server.Common.Action.{Result, ok, err}
use noba_server.Common.Alert.{Alert, critical, exchange_rate_update_failed}
use noba_server.Common.Inversion.{Result-cases}
use noba_server.Common.Outcome.{run-eq-ok}
use noba_server.ExchangeRates.Domain.{ExchangeRatePair, ExchangeRateDto}
use noba_server.ExchangeRates.Environment.{Environment, World}
use noba_server.ExchangeRates.Service.{
  update_pair, update_pairs, has_error, all, exchange_rate_pairs,
  create_exchange_rate_from_provider,
}
use noba_server.ExchangeRates.Rounds.{IsCreatedFor, update_pair-IsCreatedFor}

-- Outcomes without an error message that `Promise.all` collects begin with a rate.
complete_cons :
    (outcome : Option (Result ExchangeRateDto)) (outcomes : List (Option (Result ExchangeRateDto)))
    {dtos : List ExchangeRateDto}
    → has_error (outcome ∷ outcomes) ≡ false
    → all (outcome ∷ outcomes) ≡ ok dtos
    → (dto : ExchangeRateDto) × (rest : List ExchangeRateDto) × (outcome ≡ some (ok dto))
      × (has_error outcomes ≡ false)
      × (all outcomes ≡ ok rest)
      × (dtos ≡ dto ∷ rest)
unfolding has_error all
complete_cons none outcomes h e = absurd (ground arith)
complete_cons (some (err x)) outcomes h e = absurd (ground arith)
complete_cons (some (ok dto)) outcomes h e = elim (Result-cases (all outcomes)) [
  | inl (rest, p) ↦ (dto, rest, refl, h, p, ground arith)
  | inr (x, p) ↦ absurd (ground arith)
]

module _ {X : Type 0} (env : Environment X) where
  -- A rate was created for each of the pairs, one after the other.
  pub data AreCreated
      : List ExchangeRatePair → List ExchangeRateDto → World X → World X → Type 0 where
    none_left : {w : World X} → AreCreated [] [] w w
    next :
        {pair : ExchangeRatePair} {pairs : List ExchangeRatePair} {dto : ExchangeRateDto}
        {dtos : List ExchangeRateDto} {w u w' : World X}
        → IsCreatedFor env pair w u dto
        → AreCreated pairs dtos u w'
        → AreCreated (pair ∷ pairs) (dto ∷ dtos) w w'

  update_pairs-AreCreated :
      (pairs : List ExchangeRatePair) (w : World X) {w' : World X}
      {outcomes : List (Option (Result ExchangeRateDto))} {dtos : List ExchangeRateDto}
      → update_pairs env pairs w ≡ (ok outcomes, w')
      → has_error outcomes ≡ false
      → all outcomes ≡ ok dtos
      → AreCreated pairs dtos w w'
  unfolding update_pairs all
  update_pairs-AreCreated [] w {w'} {outcomes} {dtos} h complete e =
      let same : w ≡ w' = ground arith in
      let empty : outcomes ≡ [] = ground arith in
      let no_dtos : [] ≡ dtos = ground (arith, subst (λ o. all o ≡ ok dtos) empty e) in
      subst (λ ds. AreCreated [] ds w w') no_dtos (subst (AreCreated [] [] w) same none_left)
  update_pairs-AreCreated (pair ∷ pairs) w {w'} {outcomes} {dtos} h complete e =
      let x = update_pair env pair w in
      let (outcome, p, q) = run-eq-ok x h in
      let (rest, p', q') = run-eq-ok (update_pairs env pairs x.1) q in
      let last : (update_pairs env pairs x.1).1 ≡ w' = ground arith in
      let all_outcomes : outcomes ≡ outcome ∷ rest = ground arith in
      let (dto, dtos', created, complete', e', cons) =
        complete_cons outcome rest {dtos = dtos}
          (subst (λ o. has_error o ≡ false) all_outcomes complete)
          (subst (λ o. all o ≡ ok dtos) all_outcomes e) in
      let first =
        update_pair-IsCreatedFor env pair w {w' = x.1} {dto = dto}
          (p ∙ ap (λ o. (ok o, x.1)) created) in
      let later =
        update_pairs-AreCreated pairs x.1 {w' = w'} {outcomes = rest} {dtos = dtos'}
          (p' ∙ ap (λ u. (ok rest, u)) last) complete' e' in
      subst (λ ds. AreCreated (pair ∷ pairs) ds w w') (sym cons) (next first later)

  -- An update of the rates that returns has asked the provider for each pair of currencies in turn,
  -- and has created, and returned, a rate for the pair's upper-case currencies with a bank's rate
  -- that the answer gives for its denominator, or the alert EXCHANGE_RATE_UPDATE_FAILED is the last
  -- that was raised.
  pub from_provider_complete :
      (w : World X) {w' : World X} {dtos : List ExchangeRateDto}
      → create_exchange_rate_from_provider env w ≡ (ok dtos, w')
      → AreCreated exchange_rate_pairs dtos w w'
        ⊎ ((before : List Alert) × (w'.alerts ≡ critical exchange_rate_update_failed ∷ before))
  unfolding create_exchange_rate_from_provider
  from_provider_complete w {w'} {dtos} h =
      let x = update_pairs env exchange_rate_pairs w in
      let (outcomes, p, q) = run-eq-ok x h in
      elim (Bool-cases (has_error outcomes)) [
        | inl failed ↦ inr (x.1.alerts, ground arith)
        | inr complete ↦
            let last : x.1 ≡ w' = ground arith in
            inl (
              update_pairs-AreCreated exchange_rate_pairs w {w' = w'} {outcomes = outcomes}
                {dtos = dtos} (p ∙ ap (λ u. (ok outcomes, u)) last) complete (ground arith))
      ]
