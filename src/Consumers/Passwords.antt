-- ===== src/Consumers/Passwords.antt =====
-- src/modules/consumer/consumer.service.ts: the one-time passwords that are sent to consumers.
use noba_server.Common.Base.{
  ◌≡◌, ℕ, zero, suc, ◌+◌, ◌*◌, ◌≤◌, Bool, true, false, Option, none, some, if◌then◌else◌, subst,
  refl, inl, inr, arith,
}
use noba_server.Common.Text.{Text, text_eq}
use noba_server.Common.Action.{Action, Result, ok, pure, ◌>>=◌, ◌>>◌}
use noba_server.Common.Inversion.{Result-cases}
use noba_server.Common.Outcome.{run-eq-ok}
use noba_server.Otps.Environment.{IdentityType}
use noba_server.Otps.Service as Otps
use noba_server.Otps.Checks.{TableLaws, save-check}
use noba_server.Consumers.Domain.{Consumer}
use noba_server.Consumers.Environment.{Environment, World, notify, with_otps, draw}
use noba_server.Consumers.Service

module _ {C T N : Type 0} (env : Environment C T N) where
  abbrev is_test_user : Option Text → Bool
  is_test_user none = false
  is_test_user (some email) = text_eq (env.to_lower_case email) env.test_user_email

  abbrev new_otp : Option Text → Action (World C T N) ℕ
  new_otp email = if is_test_user email then pure env.six_digit_date else draw env.random_otp

  abbrev overridden : Option ℕ → Option Text → Action (World C T N) ℕ
  overridden none email = new_otp email
  overridden (some zero) email = new_otp email
  overridden (some (suc n)) email = pure (suc n)

  unfoldable pub generate_otp : Option Text → Action (World C T N) ℕ
  generate_otp email = overridden env.otp_override email

  abbrev save_otp : Text → ℕ → Action (World C T N) (Unit {0})
  save_otp identifier otp = with_otps (Otps.save_otp env.otps identifier IdentityType.consumer otp)

  unfoldable pub send_otp_to_phone : (phone : Text) → Action (World C T N) (Unit {0})
  send_otp_to_phone phone =
      generate_otp none >>= λ otp. save_otp phone otp >> notify (env.send_phone_code otp phone)

  unfoldable pub send_otp_to_email : (email : Text) → Consumer → Action (World C T N) (Unit {0})
  send_otp_to_email email consumer = generate_otp consumer.email >>= λ otp.
      save_otp email otp >> notify (env.send_email_code otp email consumer)

  save_and_notify :
      (phone : Text) (otp : ℕ) (w : World C T N) {w' : World C T N}
      → (save_otp phone otp >> notify (env.send_phone_code otp phone)) w ≡ (ok tt, w')
      → (Otps.save_otp env.otps phone IdentityType.consumer otp w.otps ≡ (ok tt, w'.otps))
        × (env.send_phone_code otp phone w.notifications ≡ (ok tt, w'.notifications))
  save_and_notify phone otp w {w'} h =
      elim (Result-cases (Otps.save_otp env.otps phone IdentityType.consumer otp w.otps).0) [
        | inr (e, p) ↦ absurd (ground arith)
        | inl (t, p) ↦ (ground arith, ground arith)
      ]

  -- What a choice of a password leaves as it was.
  abbrev IsKept : Result ℕ × World C T N → World C T N → Type 0
  IsKept x w = (x.1.otps ≡ w.otps) × (x.1.notifications ≡ w.notifications)

  new_otp-IsKept : (email : Option Text) (w : World C T N) → IsKept (new_otp email w) w
  new_otp-IsKept email w = (ground arith, ground arith)

  overridden-IsKept :
      (o : Option ℕ) (email : Option Text) (w : World C T N) → IsKept (overridden o email w) w
  overridden-IsKept none email w = new_otp-IsKept email w
  overridden-IsKept (some zero) email w = new_otp-IsKept email w
  overridden-IsKept (some (suc n)) email w = (refl, refl)

  generate_otp-IsKept : (email : Option Text) (w : World C T N) → IsKept (generate_otp email w) w
  unfolding generate_otp
  generate_otp-IsKept email w = overridden-IsKept env.otp_override email w

  -- Where a row that was created is found: a call to send a password to a phone number that returns
  -- has sent one notification, to that number, of the password that was generated. This password is
  -- then accepted for the number, in any way to write it that strips to the same text, until 15
  -- minutes after it was saved, as long as the table of the one-time passwords is as it was.
  pub send_otp_to_phone-check :
      TableLaws env.otps
      → (phone again : Text) (w w' u : World C T N) → send_otp_to_phone phone w ≡ (ok tt, w')
      → Otps.stripped again ≡ Otps.stripped phone
      → u.otps.table ≡ w'.otps.table
      → env.otps.clock u.otps.readings ≤ env.otps.clock (w.otps.readings + 2) + 15 * 60_000
      → (otp : ℕ) × ((generate_otp none w).0 ≡ ok otp)
        × (env.send_phone_code otp phone w.notifications ≡ (ok tt, w'.notifications))
        × ((Service.check_otp env again otp u).0 ≡ ok true)
  unfolding send_otp_to_phone
  send_otp_to_phone-check laws phone again w w' u h same table in_time =
      let x = generate_otp none w in
      let (otp, p, q) = run-eq-ok x h in
      let (saved, sent) = save_and_notify phone otp x.1 q in
      let (same_otps, same_notifications) = generate_otp-IsKept none w in
      let from_start : Otps.save_otp env.otps phone IdentityType.consumer otp w.otps
          ≡ (ok tt, w'.otps) =
        subst (λ o. Otps.save_otp env.otps phone IdentityType.consumer otp o ≡ (ok tt, w'.otps))
          same_otps saved in
      (
        otp,
        ground (arith, p),
        subst (λ n. env.send_phone_code otp phone n ≡ (ok tt, w'.notifications)) same_notifications
            sent,
        save-check env.otps laws phone again IdentityType.consumer otp w.otps w'.otps u.otps
            from_start same table in_time,
      )
