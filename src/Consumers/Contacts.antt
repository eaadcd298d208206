-- ===== src/Consumers/Contacts.antt =====
-- A consumer's phone number changes with a one-time password, used once.
use noba_server.Common.Base.{
  ◌≡◌, refl, sym, ◌∙◌, subst, ◌⊎◌, inl, inr, ℕ, Bool, true, false, not, if◌then◌else◌, Option, none,
  some, arith,
}
use noba_server.Common.Text.{Text, is_email}
use noba_server.Common.Exception.{Exception, bad_request_error}
use noba_server.Common.Action.{ok, err, throw_if}
use noba_server.Common.Inversion.{Result-cases}
use noba_server.Common.Outcome.{run-eq-ok}
use noba_server.Otps.Environment.{IdentityType}
use noba_server.Otps.Environment as Otps
use noba_server.Otps.Checks.{TableLaws, IsAccepted, check_otp_once}
use noba_server.Consumers.Domain.{Consumer, ConsumerUpdate}
use noba_server.Consumers.Environment.{Environment, World}
use noba_server.Consumers.Updates.{IsWritten, update_consumer-IsWritten}
use noba_server.Consumers.Service

module _ {C T N : Type 0} (env : Environment C T N) where
  -- Nobody is found by a contact.
  pub record IsUnclaimed (contact : Text) (t : C) : Type 0 where
    pub is_address : Bool
    pub read : is_email contact ≡ ok is_address
    pub nobody :
        (if is_address
          then env.get_consumer_by_email (env.to_lower_case contact) t
          else env.get_consumer_by_phone contact t)
        ≡ none

  find-eq-none :
      (contact : Text) (w : World C T N) {w' : World C T N}
      → Service.find_consumer_by_email_or_phone env contact w ≡ (ok none, w')
      → (w' ≡ w) × IsUnclaimed contact w.table
  unfolding Service.find_consumer_by_email_or_phone
  find-eq-none contact w {w'} h = elim (Result-cases (is_email contact)) [
    | inr (e, p) ↦ absurd (ground arith)
    | inl (address, p) ↦
        (ground arith, record { is_address = address; read = p; nobody = ground arith })
  ]

  refuse_existing_lem :
      (existing : Option Consumer) (w : World C T N) {w' : World C T N}
      → Service.refuse_existing env existing w ≡ (ok tt, w')
      → (existing ≡ none) × (w' ≡ w)
  refuse_existing_lem none w h = (refl, ground arith)
  refuse_existing_lem (some c) w h = absurd (ground arith)

  -- What a change of the phone number that returned went through.
  record IsVerified (consumer : Consumer) (phone : Text) (otp : ℕ) (w : World C T N)
      (returned : Consumer) (w' : World C T N) : Type 0 where
    pub checked : Otps.World T
    pub valid :
        noba_server.Otps.Service.check_if_otp_is_valid_and_cleanup env.otps phone
          IdentityType.consumer otp w.otps
        ≡ (ok true, checked)
    pub unclaimed : IsUnclaimed phone w.table
    pub written :
        IsWritten env
          (Service.phone_update env consumer.id phone)
          (record w { otps = checked })
          returned
          w'

  update_consumer_phone-IsVerified :
      (consumer : Consumer) (phone : Text) (otp : ℕ) (w : World C T N) {returned : Consumer}
      {w' : World C T N}
      → Service.update_consumer_phone env consumer phone otp w ≡ (ok returned, w')
      → IsVerified consumer phone otp w returned w'
  unfolding Service.update_consumer_phone
  update_consumer_phone-IsVerified consumer phone otp w {returned} {w'} h =
      let x1 = Service.check_otp env phone otp w in
      let (valid, p1, q1) = run-eq-ok x1 h in
      let x2 = throw_if (not valid) bad_request_error x1.1 in
      let (t, p2, q2) = run-eq-ok x2 q1 in
      let is_valid : noba_server.Otps.Service.check_if_otp_is_valid_and_cleanup env.otps phone
            IdentityType.consumer otp w.otps
          ≡ (ok true, x1.1.otps) =
        ground (arith, p1, p2) in
      let x3 = Service.find_consumer_by_email_or_phone env phone x1.1 in
      let (existing, p3, q3) = run-eq-ok x3 q2 in
      let x4 = Service.refuse_existing env existing x3.1 in
      let (t', p4, q4) = run-eq-ok x4 q3 in
      let (is_none, same') = refuse_existing_lem existing x3.1 p4 in
      let none_found : x3 ≡ (ok none, x3.1) = ground (arith, p3, is_none) in
      let (same, unclaimed) = find-eq-none phone x1.1 none_found in
      let update = Service.phone_update env consumer.id phone in
      let at_start : Service.update_consumer env update x1.1 ≡ (ok returned, w') =
        subst (λ u. Service.update_consumer env update u ≡ (ok returned, w')) (same' ∙ same) q4 in
      record {
        checked = x1.1.otps;
        valid = is_valid;
        unclaimed = unclaimed;
        written = update_consumer-IsWritten env update x1.1 at_start;
      }

  refused_again :
      (consumer : Consumer) (phone : Text) (otp : ℕ) (w : World C T N)
      → noba_server.Otps.Service.check_if_otp_is_valid_and_cleanup env.otps phone
          IdentityType.consumer otp w.otps
        ≡ (ok false, w.otps)
      → Service.update_consumer_phone env consumer phone otp w ≡ (err bad_request_error, w)
  unfolding Service.update_consumer_phone
  refused_again consumer phone otp w h = ground arith

  -- Where a one-time password that was deleted is not found again: an update of a consumer's phone
  -- number that returns was given a password that the table has for that number and that has not
  -- expired, and a number that nobody is found by. It has written this number to the consumer, and
  -- no other email address, as every update is written, in the table that was. The same update with
  -- the same password is then refused, and changes nothing, unless the deletion of the password
  -- threw an error.
  pub update_consumer_phone_once :
      TableLaws env.otps
      → (consumer : Consumer) (phone : Text) (otp : ℕ) (w : World C T N) {returned : Consumer}
        {w' : World C T N}
      → Service.update_consumer_phone env consumer phone otp w ≡ (ok returned, w')
      → IsUnclaimed phone w.table
        × ((asked : ConsumerUpdate) × (asked.id ≡ consumer.id)
            × (asked.phone ≡ some phone)
            × (asked.email ≡ none)
            × ((checked : Otps.World T) × IsWritten env asked
                  (record w { otps = checked })
                  returned
                  w'))
        × ((accepted : IsAccepted env.otps phone IdentityType.consumer otp w.otps)
            × ((Service.update_consumer_phone env consumer phone otp w'
                  ≡ (err bad_request_error, w'))
                ⊎ ((e : Exception) × (env.otps.delete accepted.row.id w.otps.table
                      ≡ (err e, w'.otps.table)))))
  update_consumer_phone_once laws consumer phone otp w {returned} {w'} h =
      let v = update_consumer_phone-IsVerified consumer phone otp w h in
      let same : w'.otps ≡ v.checked = v.written.same_otps in
      let (accepted, again) = check_otp_once env.otps laws phone IdentityType.consumer otp w.otps (
        subst
          (λ o.
            noba_server.Otps.Service.check_if_otp_is_valid_and_cleanup env.otps phone
              IdentityType.consumer otp w.otps
            ≡ (ok true, o))
          (sym same) v.valid) in
      (
        v.unclaimed,
        (Service.phone_update env consumer.id phone, refl, refl, refl, (v.checked, v.written)),
        (
          accepted,
          elim again [
            | inl refused ↦ inl (refused_again consumer phone otp w' refused)
            | inr failed ↦ inr failed
          ],
        ),
      )
