-- ===== src/Otps/Checks.antt =====
-- What a password is good for: it is accepted in time, and once.
use noba_server.Common.Base.{
  ◌≡◌, refl, subst, sym, ap, ◌∙◌, ◌⊎◌, inl, inr, ℕ, suc, ◌+◌, ◌*◌, ◌≤◌, true, false, Option, some,
  none, arith,
}
use noba_server.Common.Text.{Text}
use noba_server.Common.Exception.{Exception}
use noba_server.Common.Action.{ok, err, from_result}
use noba_server.Common.Inversion.{Result-cases}
use noba_server.Common.Outcome.{run-eq-ok}
use noba_server.Otps.Environment.{IdentityType, OtpProps, OtpCreateInput, World, Environment}
use noba_server.Otps.Service

module _ {T : Type 0} (env : Environment T) where
  -- The table has one row for an identifier and a type: a row that was created is found, a row
  -- that was deleted is not, and a deletion that throws changes nothing.
  pub record TableLaws : Type 0 where
    pub created :
        (input : OtpCreateInput) (t t' : T) (row : OtpProps)
        → env.create input t ≡ (ok row, t')
        → (env.find_unique input.otp_identifier input.identity_type t' ≡ ok (some row))
          × (env.is_valid row ≡ true)
          × (row.otp ≡ input.otp)
          × (row.otp_expiration_timestamp ≡ input.otp_expiration_timestamp)
    pub deleted :
        (key : Text) (type : IdentityType) (t t' : T) (row : OtpProps)
        → env.find_unique key type t ≡ ok (some row)
        → env.delete row.id t ≡ (ok tt, t')
        → env.find_unique key type t' ≡ ok none

  -- What was found when a password was accepted: a row of the identifier with that password,
  -- that has not expired.
  pub record IsAccepted (identifier : Text) (type : IdentityType) (otp : ℕ) (w : World T)
      : Type 0 where
    pub key : Text
    pub row : OtpProps
    pub stripped : Service.stripped identifier ≡ ok key
    pub found : env.find_unique key type w.table ≡ ok (some row)
    pub valid : env.is_valid row ≡ true
    pub matches : row.otp ≡ otp
    pub in_time : env.clock w.readings ≤ row.otp_expiration_timestamp

  get_otp-eq-ok :
      (key : Text) (type : IdentityType) (w : World T)
      → (rows : Option OtpProps) × (Service.get_otp env key type w ≡ (ok rows, w))
        × ((row : OtpProps)
            → rows ≡ some row
            → (env.find_unique key type w.table ≡ ok (some row)) × (env.is_valid row ≡ true))
  unfolding Service.get_otp
  get_otp-eq-ok key type w = elim (Result-cases (env.find_unique key type w.table)) [
    | inl (rows, p) ↦
        (Service.valid_row env rows, ground arith, λ row e. (ground arith, ground arith))
    | inr (e, p) ↦ (none, ground arith, λ row e'. absurd (ground arith))
  ]

  check_row-eq-true :
      (rows : Option OtpProps) (otp : ℕ) (w : World T) {w' : World T}
      → Service.check_row env rows otp w ≡ (ok true, w')
      → (row : OtpProps) × (rows ≡ some row)
        × (row.otp ≡ otp)
        × (env.clock w.readings ≤ row.otp_expiration_timestamp)
        × (w'.table ≡ (env.delete row.id w.table).1)
  unfolding Service.check_row Service.delete_otp
  check_row-eq-true none otp w h = absurd (ground arith)
  check_row-eq-true (some row) otp w h = (row, refl, ground arith, ground arith, ground arith)

  check_lem :
      (identifier : Text) (type : IdentityType) (otp : ℕ) (w : World T) {w' : World T}
      → Service.check_if_otp_is_valid_and_cleanup env identifier type otp w ≡ (ok true, w')
      → (accepted : IsAccepted identifier type otp w) × (w'.table
          ≡ (env.delete accepted.row.id w.table).1)
  unfolding Service.check_if_otp_is_valid_and_cleanup
  check_lem identifier type otp w {w'} h =
      let x1 = from_result (Service.stripped identifier) w in
      let (key, p1, q1) = run-eq-ok x1 h in
      let (rows, p2, known) = get_otp-eq-ok key type w in
      let x2 = Service.get_otp env key type w in
      let (rows', p3, q3) = run-eq-ok x2 q1 in
      let same : rows' ≡ rows = ground (arith, p2, p3) in
      let at_w : Service.check_row env rows' otp w ≡ (ok true, w') =
        subst (λ u. Service.check_row env rows' otp u ≡ (ok true, w')) (ground (arith, p2)) q3 in
      let (row, is_row, matches, in_time, deleted) = check_row-eq-true rows' otp w at_w in
      let (found, valid) = known row (sym same ∙ is_row) in
      (
        record {
          key = key;
          row = row;
          stripped = ground arith;
          found = found;
          valid = valid;
          matches = matches;
          in_time = in_time;
        },
        deleted,
      )

  -- With no row, a password is not accepted, and nothing changes.
  check_none :
      (identifier : Text) (type : IdentityType) (otp : ℕ) (key : Text) (w : World T)
      → Service.stripped identifier ≡ ok key
      → env.find_unique key type w.table ≡ ok none
      → Service.check_if_otp_is_valid_and_cleanup env identifier type otp w ≡ (ok false, w)
  unfolding Service.check_if_otp_is_valid_and_cleanup Service.get_otp Service.check_row
  check_none identifier type otp key w named found = ground arith

  -- A password is accepted only where a row of its identifier has it and has not expired. Where a
  -- row that was deleted is not found again, the same password is then refused, and nothing
  -- changes, unless the deletion of that row threw an error.
  pub check_otp_once :
      TableLaws
      → (identifier : Text) (type : IdentityType) (otp : ℕ) (w : World T) {w' : World T}
      → Service.check_if_otp_is_valid_and_cleanup env identifier type otp w ≡ (ok true, w')
      → (accepted : IsAccepted identifier type otp w) × ((Service.check_if_otp_is_valid_and_cleanup
              env identifier type otp w'
            ≡ (ok false, w'))
          ⊎ ((e : Exception) × (env.delete accepted.row.id w.table ≡ (err e, w'.table))))
  check_otp_once laws identifier type otp w {w'} h =
      let (accepted, deleted) = check_lem identifier type otp w h in
      let x = env.delete accepted.row.id w.table in
      (
        accepted,
        elim (Result-cases x.0) [
          | inl (u, p) ↦ inl (
              check_none identifier type otp accepted.key w' accepted.stripped (
                laws.deleted accepted.key type w.table w'.table accepted.row accepted.found
                  (ground arith)))
          | inr (e, p) ↦ inr (e, ground arith)
        ],
      )

  save_lem :
      TableLaws
      → (identifier : Text) (type : IdentityType) (otp : ℕ) (w : World T) {w' : World T}
      → Service.save_otp env identifier type otp w ≡ (ok tt, w')
      → (key : Text) × (row : OtpProps) × (Service.stripped identifier ≡ ok key)
        × (env.find_unique key type w'.table ≡ ok (some row))
        × (env.is_valid row ≡ true)
        × (row.otp ≡ otp)
        × (row.otp_expiration_timestamp ≡ env.clock (w.readings + 2) + 15 * 60_000)
  unfolding Service.save_otp Service.delete_all_otps_for_identifier Service.save_otp_in_repo
  save_lem laws identifier type otp w {w'} h = elim (Result-cases (Service.stripped identifier)) [
    | inr (e, p) ↦ absurd (ground arith)
    | inl (key, p) ↦
        let n = w.readings in
        let input =
          Service.create_input env key otp type (env.clock n) (env.clock (suc n))
            (env.clock (suc (suc n))) in
        let between = (env.delete_many key type w.table).1 in
        elim (Result-cases (env.create input between).0) [
          | inr (e, q) ↦ absurd (ground arith)
          | inl (row, q) ↦
              let (found, valid, same, expiring) =
                laws.created input between w'.table row (ground arith) in
              (key, row, p, found, valid, same, ground (arith, expiring))
        ]
  ]

  accepts :
      (identifier : Text) (type : IdentityType) (otp : ℕ) (key : Text) (row : OtpProps)
      (w : World T)
      → Service.stripped identifier ≡ ok key
      → env.find_unique key type w.table ≡ ok (some row)
      → env.is_valid row ≡ true
      → row.otp ≡ otp
      → env.clock w.readings ≤ row.otp_expiration_timestamp
      → (Service.check_if_otp_is_valid_and_cleanup env identifier type otp w).0 ≡ ok true
  unfolding Service.check_if_otp_is_valid_and_cleanup Service.get_otp Service.check_row
      Service.delete_otp
  accepts identifier type otp key row w named found valid same in_time = ground arith

  -- Where a row that was created is found, a password that was saved is accepted, by any way to
  -- write its identifier that strips to the same text, until 15 minutes after it was saved, as
  -- long as the table is as it was.
  pub save-check :
      TableLaws
      → (identifier again : Text) (type : IdentityType) (otp : ℕ) (w w' u : World T)
      → Service.save_otp env identifier type otp w ≡ (ok tt, w')
      → Service.stripped again ≡ Service.stripped identifier
      → u.table ≡ w'.table
      → env.clock u.readings ≤ env.clock (w.readings + 2) + 15 * 60_000
      → (Service.check_if_otp_is_valid_and_cleanup env again type otp u).0 ≡ ok true
  save-check laws identifier again type otp w w' u h same table in_time =
      let (key, row, named, found, valid, matches, expiring) =
        save_lem laws identifier type otp w h in
      accepts again type otp key row u (same ∙ named) (ap (env.find_unique key type) table ∙ found)
        valid matches (ground arith)
