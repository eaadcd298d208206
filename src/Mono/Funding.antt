-- ===== src/Mono/Funding.antt =====
-- Which payroll a payment into the bank account funds.
use noba_server.Common.Base.{
  ◌≡◌, refl, ap, ◌∙◌, String, Bool-cases, List, [], ◌∷◌, ◌⊎◌, inl, inr, is_empty, if◌then◌else◌,
  arith,
}
use noba_server.Common.Alert.{critical, unmatched_account_credited_mono_event}
use noba_server.Common.Action.{Result, ok, Action, ◌>>=◌}
use noba_server.Common.Inversion.{Result-cases}
use noba_server.Transactions.Domain.{Payroll}
use noba_server.Mono.Domain.{MonoAccountCreditedEvent}
use noba_server.Mono.Environment.{Environment, World, ask_payrolls, raise_alert}
use noba_server.Mono.Webhook.{
  matching_both, fund_only_or, fund, unless_empty, fund_by_name_or_both, fund_matching,
  process_account_credited_event,
}
use noba_server.Mono.Matching.{NotOne, IsOnlyInBoth, matching_both-IsOnlyInBoth}

module _ {B M E : Type 0} (env : Environment B M E) (event : MonoAccountCreditedEvent) where
  -- A search that is made only for a field that is not empty.
  abbrev asked : String → Result (List Payroll) → Result (List Payroll)
  asked field found = if is_empty field then ok [] else found

  abbrev pub by_number : World B M E → Result (List Payroll)
  by_number w =
      asked event.payer_document_number
        (env.payrolls_by_document_number event.amount event.payer_document_number w.payrolls)

  abbrev pub by_name : World B M E → Result (List Payroll)
  by_name w = asked event.payer_name (env.payrolls_by_name event.amount event.payer_name w.payrolls)

  -- The payroll is told to be funded by the payment, and nothing else is changed.
  pub record IsFunded (p : Payroll) (w w' : World B M E) : Type 0 where
    pub paid : Payroll
    pub funded : env.fund_payroll p.id event.transaction_id w.payrolls ≡ (ok paid, w'.payrolls)
    pub rest : w' ≡ record w { payrolls = w'.payrolls }

  -- What a payment into the account has done: it has funded the one payroll that matches by the
  -- payer's number, or else the one by name, or else the one that matches by both, or else it has
  -- raised an alert.
  pub data IsSettled (w w' : World B M E) : Type 0 where
    numbered : (p : Payroll) → by_number w ≡ ok (p ∷ []) → IsFunded p w w' → IsSettled w w'
    named :
        (p : Payroll) (xs : List Payroll)
        → by_number w ≡ ok xs
        → NotOne xs
        → by_name w ≡ ok (p ∷ [])
        → IsFunded p w w'
        → IsSettled w w'
    in_both :
        (p : Payroll) (xs ys : List Payroll)
        → by_number w ≡ ok xs
        → NotOne xs
        → by_name w ≡ ok ys
        → NotOne ys
        → IsOnlyInBoth xs ys p
        → IsFunded p w w'
        → IsSettled w w'
    unmatched :
        (xs ys : List Payroll)
        → by_number w ≡ ok xs
        → NotOne xs
        → by_name w ≡ ok ys
        → NotOne ys
        → NotOne (matching_both xs ys)
        → w' ≡ record w { alerts = critical unmatched_account_credited_mono_event ∷ w.alerts }
        → IsSettled w w'

  fund-IsFunded :
      (p : Payroll) (w : World B M E) {w' : World B M E}
      → fund env event p w ≡ (ok tt, w')
      → IsFunded p w w'
  fund-IsFunded p w h =
      elim (Result-cases (env.fund_payroll p.id event.transaction_id w.payrolls).0) [
        | inl (paid, e) ↦ record { paid = paid; funded = ground arith; rest = ground arith }
        | inr (e, failed) ↦ absurd (ground arith)
      ]

  asked_first :
      (field : String) (find : E → Result (List Payroll))
      (next : List Payroll → Action (World B M E) (Unit {0})) (w : World B M E) {w' : World B M E}
      → (unless_empty env field (ask_payrolls find) >>= next) w ≡ (ok tt, w')
      → (xs : List Payroll) × (asked field (find w.payrolls) ≡ ok xs) × (next xs w ≡ (ok tt, w'))
  asked_first field find next w h = elim (Bool-cases (is_empty field)) [
    | inl empty ↦ ([], ground arith, ground arith)
    | inr given ↦ elim (Result-cases (find w.payrolls)) [
      | inl (xs, found) ↦ (xs, ground arith, ground arith)
      | inr (e, failed) ↦ absurd (ground arith)
    ]
  ]

  -- The only payroll of a list has been funded, or there is not one, and the rest was done.
  fund_only_or-cases :
      (xs : List Payroll) (rest : Action (World B M E) (Unit {0})) (w : World B M E)
      {w' : World B M E}
      → fund_only_or env event xs rest w ≡ (ok tt, w')
      → ((p : Payroll) × (xs ≡ p ∷ []) × IsFunded p w w') ⊎ (NotOne xs × (rest w ≡ (ok tt, w')))
  fund_only_or-cases [] rest w h = inr (λ p e. cc e, h)
  fund_only_or-cases (p ∷ []) rest w h = inl (p, refl, fund-IsFunded p w h)
  fund_only_or-cases (x ∷ y ∷ xs) rest w h = inr (λ p e. cc e, h)

  fund_by_name_or_both-IsSettled :
      (xs ys : List Payroll) (w : World B M E) {w' : World B M E}
      → by_number w ≡ ok xs
      → NotOne xs
      → by_name w ≡ ok ys
      → fund_by_name_or_both env event xs ys w ≡ (ok tt, w')
      → IsSettled w w'
  unfolding fund_by_name_or_both
  fund_by_name_or_both-IsSettled xs ys w {w'} numbers xs_not names h =
      let alert = raise_alert (critical unmatched_account_credited_mono_event) in
      let both = matching_both xs ys in
      elim (fund_only_or-cases ys (fund_only_or env event both alert) w h) [
        | inl (p, one, funded) ↦ named p xs numbers xs_not (names ∙ ap ok one) funded
        | inr (ys_not, h') ↦ elim (fund_only_or-cases both alert w h') [
          | inl (p, one, funded) ↦
              in_both p xs ys numbers xs_not names ys_not (matching_both-IsOnlyInBoth xs ys p one)
                funded
          | inr (both_not, h'') ↦
              unmatched xs ys numbers xs_not names ys_not both_not (ground arith)
        ]
      ]

  -- A payment into the account that is processed funds exactly one payroll or raises an alert: it
  -- funds the one payroll that matches by the payer's document number, or else the one that
  -- matches by name, or else the only one that matches by both, and else raises
  -- UNMATCHED_ACCOUNT_CREDITED_MONO_EVENT. It changes nothing else.
  pub process_account_credited-IsSettled :
      (w : World B M E) {w' : World B M E}
      → process_account_credited_event env event w ≡ (ok tt, w')
      → IsSettled w w'
  unfolding process_account_credited_event fund_matching
  process_account_credited-IsSettled w {w'} h =
      let number = env.payrolls_by_document_number event.amount event.payer_document_number in
      let name = env.payrolls_by_name event.amount event.payer_name in
      let asking = unless_empty env event.payer_name (ask_payrolls name) in
      let (xs, numbers, h1) =
        asked_first event.payer_document_number number (fund_matching env event) w h in
      elim (fund_only_or-cases xs (asking >>= fund_by_name_or_both env event xs) w h1) [
        | inl (p, one, funded) ↦ numbered p (numbers ∙ ap ok one) funded
        | inr (xs_not, h2) ↦
            let (ys, names, h3) =
              asked_first event.payer_name name (fund_by_name_or_both env event xs) w h2 in
            fund_by_name_or_both-IsSettled xs ys w numbers xs_not names h3
      ]
