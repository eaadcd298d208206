-- ===== src/Limits/Selection.antt =====
-- `getLimits`: which profile applies to a consumer.
use noba_server.Common.Base.{
  ◌≡◌, ◌∙◌, Bool, true, false, Option, none, some, List, [], ◌∷◌, ◌++◌, ◌⊎◌, inl, inr, arith,
  Bool-cases, Option-cases,
}
use noba_server.Common.Amount.{Amount}
use noba_server.Common.Action.{Result, ok}
use noba_server.Common.Inversion.{Result-cases}
use noba_server.Limits.Domain.{
  TransactionType, PaymentMethodType, LimitConfiguration, LimitProfile, Consumer,
}
use noba_server.Limits.Service.{
  Environment, World, all_limit_configs, find, match_config, get_limits,
}

-- No element of a list passes a test.
abbrev pub NonePass : {A : Type 0} → (A → Bool) → List A → Type 0
NonePass p [] = Unit {0}
NonePass p (a ∷ l) = (p a ≡ false) × NonePass p l

-- An element is the first in a list that passes a test.
pub record IsFirst {A : Type 0} (p : A → Bool) (l : List A) (a : A) : Type 0 where
  pub before : List A
  pub after : List A
  pub splits : l ≡ before ++ (a ∷ after)
  pub passes : p a ≡ true
  pub first : NonePass p before

pub find-IsFirst :
    {A : Type 0} (p : A → Bool) (l : List A) {a : A} → find p l ≡ some a → IsFirst p l a
unfolding find
find-IsFirst p [] e = cc
find-IsFirst p (b ∷ l) e = elim (Bool-cases (p b)) [
  | inl hit ↦ record {
    before = [];
    after = l;
    splits = ground arith;
    passes = ground arith;
    first = tt;
  }
  | inr miss ↦
      let rest = find-IsFirst p l (rw miss at e) in
      record {
        before = b ∷ rest.before;
        after = rest.after;
        splits = cc rest.splits;
        passes = rest.passes;
        first = (miss, rest.first);
      }
]

module _ {D : Type 0} (env : Environment D) where
  -- How a profile was chosen: it is that of the first configuration that matches.
  pub record IsChosen (consumer : Consumer) (type : Option TransactionType)
      (method : Option PaymentMethodType) (configs : List LimitConfiguration) (database : D)
      (profile : Option LimitProfile) : Type 0 where
    pub total : Amount
    pub config : LimitConfiguration
    pub read : env.get_total_user_transaction_amount consumer.id database ≡ ok total
    pub matches : IsFirst (λ c. match_config c consumer total method type) configs config
    pub profile_read : env.get_profile config.profile_id database ≡ ok profile

  module _ (consumer : Consumer) (type : Option TransactionType) (method : Option PaymentMethodType)
      (w : World D) {w' : World D} {profile : Option LimitProfile}
      (returned : get_limits env consumer type method w ≡ (ok profile, w')) where
    abbrev reading : Result (List LimitConfiguration) × World D
    reading = all_limit_configs env w

    abbrev summing : Result Amount
    summing = env.get_total_user_transaction_amount consumer.id w.database

    read_ok : (configs : List LimitConfiguration) × (reading.0 ≡ ok configs)
    unfolding get_limits
    read_ok = elim (Result-cases reading.0) [ inl read ↦ read | inr (e, p) ↦ absurd (ground arith) ]

    -- The configurations are those that were kept, or else those of the database.
    kept :
        (configs : List LimitConfiguration)
        → reading.0 ≡ ok configs
        → (reading.1 ≡ record { all_limit_configs = some configs; database = w.database })
          × ((w.all_limit_configs ≡ some configs)
              ⊎ ((w.all_limit_configs ≡ none)
                  × (env.get_all_limit_configs w.database ≡ ok configs)))
    unfolding all_limit_configs
    kept configs p = elim (Option-cases w.all_limit_configs) [
      | inl first ↦ elim (Result-cases (env.get_all_limit_configs w.database)) [
        | inl (read, q) ↦ (ground arith, inr (first, ground arith))
        | inr (e, q) ↦ absurd (ground arith)
      ]
      | inr (known, q) ↦ (ground arith, inl (ground arith))
    ]

    summed_ok :
        (configs : List LimitConfiguration)
        → reading.0 ≡ ok configs
        → reading.1.database ≡ w.database
        → (total : Amount) × (summing ≡ ok total)
    unfolding get_limits
    summed_ok configs p q = elim (Result-cases summing) [
      | inl summed ↦ summed
      | inr (e, r) ↦ absurd (ground arith)
    ]

    found_ok :
        (configs : List LimitConfiguration) (total : Amount)
        → reading.0 ≡ ok configs
        → reading.1.database ≡ w.database
        → summing ≡ ok total
        → (config : LimitConfiguration) × (find
              (λ c. match_config c consumer total method type)
              configs
            ≡ some config)
    unfolding get_limits
    found_ok configs total p q r =
        elim (Option-cases (find (λ c. match_config c consumer total method type) configs)) [
          | inl missing ↦ absurd (ground arith)
          | inr found ↦ found
        ]

    finish :
        (configs : List LimitConfiguration) (total : Amount) (config : LimitConfiguration)
        → reading.0 ≡ ok configs
        → reading.1.database ≡ w.database
        → summing ≡ ok total
        → find (λ c. match_config c consumer total method type) configs ≡ some config
        → (w' ≡ reading.1) × (env.get_profile config.profile_id w.database ≡ ok profile)
    unfolding get_limits
    finish configs total config p q r s = (ground arith, ground arith)

    -- The profile of a consumer is that of the first configuration, in the order of the
    -- repository, that matches; and the configurations are read from the database only if none
    -- were kept, and are kept as they were read, without regard to what the database has later.
    pub get_limits-IsChosen :
        (configs : List LimitConfiguration) × (w'
          ≡ record { all_limit_configs = some configs; database = w.database })
        × ((w.all_limit_configs ≡ some configs)
            ⊎ ((w.all_limit_configs ≡ none) × (env.get_all_limit_configs w.database ≡ ok configs)))
        × IsChosen consumer type method configs w.database profile
    get_limits-IsChosen =
        let (configs, p) = read_ok in
        let (world, origin) = kept configs p in
        let same : reading.1.database ≡ w.database = cc world in
        let (total, r) = summed_ok configs p same in
        let (config, s) = found_ok configs total p same r in
        let (final, profile_read) = finish configs total config p same r s in
        (
          configs,
          final ∙ world,
          origin,
          record {
            total = total;
            config = config;
            read = cc r;
            matches = find-IsFirst _ configs s;
            profile_read = profile_read;
          },
        )
