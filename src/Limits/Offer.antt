-- ===== src/Limits/Offer.antt =====
-- `canMakeTransaction`: the range of amounts that it answers beside its verdict.
use noba_server.Common.Base.{
  ◌≡◌, sym, subst, Option, some, true, false, ◌⊎◌, inl, inr, Bool-cases, arith,
}
use noba_server.Common.Int.{pos, ltb_ℤ, max_ℤ, ◌≤ℤ◌, ◌<ℤ◌, ◌+ℤ◌, ◌-ℤ◌}
use noba_server.Common.Amount.{Amount}
use noba_server.Common.Action.{ok}
use noba_server.Limits.Domain.{
  TransactionType, PaymentMethodType, LimitProfile, TransactionAllowedStatus, CheckTransactionDto,
  Consumer,
}
use noba_server.Limits.Service.{
  Environment, World, weekly_limit, daily_limit, reply, get_limits, can_make_transaction,
}
use noba_server.Limits.Check.{Usage, IsUsage}

-- An amount passes the test that the verdict names, if it is one of a period.
abbrev pub IsLeft : TransactionAllowedStatus → LimitProfile → Usage → Amount → Type 0
IsLeft TransactionAllowedStatus.monthly_limit_reached profile used a =
    a +ℤ used.monthly ≤ℤ profile.monthly
IsLeft TransactionAllowedStatus.weekly_limit_reached profile used a =
    used.weekly +ℤ a ≤ℤ weekly_limit profile
IsLeft TransactionAllowedStatus.daily_limit_reached profile used a =
    used.daily +ℤ a ≤ℤ daily_limit profile
IsLeft _ profile used a = Unit {0}

-- What an amount in the range of an answer satisfies.
pub record IsOffered (profile : LimitProfile) (used : Usage) (status : TransactionAllowedStatus)
    (a : Amount) : Type 0 where
  pub min : profile.min_transaction ≤ℤ a
  pub max : a ≤ℤ profile.max_transaction
  pub left : IsLeft status profile used a

+ℤ_comm : (a b : Amount) → a +ℤ b ≡ b +ℤ a
unfolding ◌+ℤ◌
+ℤ_comm a b = ground arith

-- What a limit has left is less than an amount that exceeds it.
left_lem :
    (limit used amount a : Amount)
    → ltb_ℤ limit (amount +ℤ used) ≡ true
    → pos 0 <ℤ a
    → a ≤ℤ max_ℤ (limit -ℤ used) (pos 0)
    → (a +ℤ used ≤ℤ limit) × (a <ℤ amount)
unfolding ◌+ℤ◌ ◌-ℤ◌
left_lem limit used amount a over positive offered = (ground arith, ground arith)

left_after_lem :
    (limit used amount a : Amount)
    → ltb_ℤ limit (used +ℤ amount) ≡ true
    → pos 0 <ℤ a
    → a ≤ℤ max_ℤ (limit -ℤ used) (pos 0)
    → (used +ℤ a ≤ℤ limit) × (a <ℤ amount)
left_after_lem limit used amount a over positive offered =
    let (fits, less) =
      left_lem limit used amount a (rw (+ℤ_comm amount used) over) positive offered in
    (rw (+ℤ_comm used a) fits, less)

le_of_lt_of_ltb_false : (a b c : Amount) → a <ℤ b → ltb_ℤ c b ≡ false → a ≤ℤ c
le_of_lt_of_ltb_false a b c h k = ground arith

module _ {D : Type 0} (env : Environment D) where
  module _ (consumer : Consumer) (amount : Amount) (type : TransactionType)
      (method : Option PaymentMethodType) (w : World D) {w' : World D} {profile : LimitProfile}
      {used : Usage} {dto : CheckTransactionDto}
      (found : get_limits env consumer (some type) method w ≡ (ok (some profile), w'))
      (usage : IsUsage env consumer used w')
      (answered : can_make_transaction env consumer amount type method w ≡ (ok dto, w')) where
    abbrev left_of : Amount → Amount → Amount
    left_of limit spent = max_ℤ (limit -ℤ spent) (pos 0)

    -- The answer, by the first test that fails.
    abbrev Answer : Type 0
    Answer =
        ((dto
            ≡ reply TransactionAllowedStatus.transaction_too_small profile.min_transaction
                profile.max_transaction)
          ⊎ (dto
              ≡ reply TransactionAllowedStatus.transaction_too_large profile.min_transaction
                  profile.max_transaction)
          ⊎ (dto
              ≡ reply TransactionAllowedStatus.allowed profile.min_transaction
                  profile.max_transaction))
        ⊎ ((ltb_ℤ profile.max_transaction amount ≡ false)
            × (((ltb_ℤ profile.monthly (amount +ℤ used.monthly) ≡ true)
                  × (dto
                      ≡ reply TransactionAllowedStatus.monthly_limit_reached profile.min_transaction
                          (left_of profile.monthly used.monthly)))
                ⊎ ((ltb_ℤ (weekly_limit profile) (used.weekly +ℤ amount) ≡ true)
                    × (dto
                        ≡ reply TransactionAllowedStatus.weekly_limit_reached
                            profile.min_transaction (left_of (weekly_limit profile) used.weekly)))
                ⊎ ((ltb_ℤ (daily_limit profile) (used.daily +ℤ amount) ≡ true)
                    × (dto
                        ≡ reply TransactionAllowedStatus.daily_limit_reached profile.min_transaction
                            (left_of (daily_limit profile) used.daily)))))

    answer : Answer
    unfolding can_make_transaction
    answer = elim (Bool-cases (ltb_ℤ amount profile.min_transaction)) [
      | inl small ↦ inl (inl (ground arith))
      | inr low ↦ elim (Bool-cases (ltb_ℤ profile.max_transaction amount)) [
        | inl large ↦ inl (inr (inl (ground arith)))
        | inr high ↦ elim (Bool-cases (ltb_ℤ profile.monthly (amount +ℤ used.monthly))) [
          | inl month ↦ inr (high, inl (month, ground (arith, usage.monthly)))
          | inr m ↦ elim (Bool-cases (ltb_ℤ (weekly_limit profile) (used.weekly +ℤ amount))) [
            | inl week ↦ inr (high, inr (inl (week, ground (arith, usage.monthly, usage.weekly))))
            | inr n ↦ elim (Bool-cases (ltb_ℤ (daily_limit profile) (used.daily +ℤ amount))) [
              | inl day ↦
                  inr (
                    high,
                    inr (inr (day, ground (arith, usage.monthly, usage.weekly, usage.daily))),
                  )
              | inr d ↦ inl (inr (inr (ground (arith, usage.monthly, usage.weekly, usage.daily))))
            ]
          ]
        ]
      ]
    ]

    -- Where there is a profile and the sums of the month, the week and the day can be read: every
    -- positive amount in the range that is answered is within the profile's bounds for one
    -- transaction, and where a limit of the month, the week or the day is the reason for a
    -- refusal, it is within that limit, too.
    pub can_make_transaction-IsOffered :
        (a : Amount)
        → pos 0 <ℤ a
        → dto.range_min ≤ℤ a
        → a ≤ℤ dto.range_max
        → IsOffered profile used dto.status a
    can_make_transaction-IsOffered a positive low high = elim answer [
      | inl (inl e) ↦ subst Holds (sym e) (λ l h. record { min = l; max = h; left = tt }) low high
      | inl (inr (inl e)) ↦
          subst Holds (sym e) (λ l h. record { min = l; max = h; left = tt }) low high
      | inl (inr (inr e)) ↦
          subst Holds (sym e) (λ l h. record { min = l; max = h; left = tt }) low high
      | inr (below, inl (over, e)) ↦
          subst Holds (sym e)
            (λ l h.
              let (fits, less) = left_lem profile.monthly used.monthly amount a over positive h in
              record { min = l; max = le_of_lt_of_ltb_false a amount _ less below; left = fits })
            low high
      | inr (below, inr (inl (over, e))) ↦
          subst Holds (sym e)
            (λ l h.
              let (fits, less) =
                left_after_lem (weekly_limit profile) used.weekly amount a over positive h in
              record { min = l; max = le_of_lt_of_ltb_false a amount _ less below; left = fits })
            low high
      | inr (below, inr (inr (over, e))) ↦
          subst Holds (sym e)
            (λ l h.
              let (fits, less) =
                left_after_lem (daily_limit profile) used.daily amount a over positive h in
              record { min = l; max = le_of_lt_of_ltb_false a amount _ less below; left = fits })
            low high
    ]
      where
        Holds : CheckTransactionDto → Type 0
        Holds d = d.range_min ≤ℤ a → a ≤ℤ d.range_max → IsOffered profile used d.status a
