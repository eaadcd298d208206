-- ===== src/Mono/Matching.antt =====
-- The payrolls that match a payment both by number and by name.
use mathlib.Core.List.{Memᴰ}
use noba_server.Common.Base.{
  ◌≡◌, ◌≢◌, refl, sym, subst, ap, ◌∙◌, String, Bool, Bool-cases, true, false, List, [], ◌∷◌, ◌⊎◌,
  inl, inr, if◌then◌else◌, str_eq_iff, arith, str_eq,
}
use noba_server.Transactions.Domain.{Payroll}
use noba_server.Mono.Webhook.{has_id, matching_both}

-- A payroll of the first list that is in the second, by its id.
abbrev pub InBoth : List Payroll → List Payroll → Payroll → Type 0
InBoth xs ys p = Memᴰ p xs × (q : Payroll) × Memᴰ q ys × (q.id ≡ p.id)

abbrev pub NotOne : List Payroll → Type 0
NotOne xs = (p : Payroll) → xs ≢ p ∷ []

has_id-Mem :
    (id : String) (ys : List Payroll)
    → has_id id ys ≡ true
    → (q : Payroll) × Memᴰ q ys × (q.id ≡ id)
has_id-Mem id [] h = absurd (ground arith)
has_id-Mem id (y ∷ ys) h = elim (Bool-cases (str_eq y.id id)) [
  | inl same ↦ (y, Memᴰ.head refl, (str_eq_iff y.id id).0 same)
  | inr other ↦ let (q, m, e) = has_id-Mem id ys (ground arith) in (q, Memᴰ.tail m, e)
]

has_id_Mem :
    (id : String) (ys : List Payroll) (q : Payroll) → Memᴰ q ys → q.id ≡ id → has_id id ys ≡ true
has_id_Mem id [] q m same = elim m [ ]
has_id_Mem id (y ∷ ys) q (Memᴰ.head e) same =
    let at_y : str_eq y.id id ≡ true =
      (str_eq_iff y.id id).1 (ap (λ (x : Payroll). x.id) (sym e) ∙ same) in
    ground arith
has_id_Mem id (y ∷ ys) q (Memᴰ.tail m) same = let at_ys = has_id_Mem id ys q m same in ground arith

-- What is kept by a filter's step.
module _ (x p : Payroll) (rest : List Payroll) where
  kept : (c : Bool) → Memᴰ p (if c then x ∷ rest else rest) → ((c ≡ true) × (p ≡ x)) ⊎ Memᴰ p rest
  kept true (Memᴰ.head e) = inl (refl, e)
  kept true (Memᴰ.tail m) = inr m
  kept false m = inr m

  keeps_head : (c : Bool) → c ≡ true → p ≡ x → Memᴰ p (if c then x ∷ rest else rest)
  keeps_head true e same = Memᴰ.head same
  keeps_head false e same = absurd (ground arith)

  keeps_tail : (c : Bool) → Memᴰ p rest → Memᴰ p (if c then x ∷ rest else rest)
  keeps_tail true m = Memᴰ.tail m
  keeps_tail false m = m

matching_both_sound :
    (xs ys : List Payroll) (p : Payroll) → Memᴰ p (matching_both xs ys) → InBoth xs ys p
unfolding matching_both
matching_both_sound [] ys p m = elim m [ ]
matching_both_sound (x ∷ xs) ys p m = elim (kept x p (matching_both xs ys) (has_id x.id ys) m) [
  | inl (has, same) ↦
      let (q, n, e) = has_id-Mem x.id ys has in
      (Memᴰ.head same, q, n, e ∙ ap (λ (x : Payroll). x.id) (sym same))
  | inr n ↦ let (k, q, n', e) = matching_both_sound xs ys p n in (Memᴰ.tail k, q, n', e)
]

matching_both_complete :
    (xs ys : List Payroll) (p : Payroll) → InBoth xs ys p → Memᴰ p (matching_both xs ys)
unfolding matching_both
matching_both_complete [] ys p (m, _, _, _) = elim m [ ]
matching_both_complete (x ∷ xs) ys p (Memᴰ.head same, q, n, e) =
    keeps_head x p (matching_both xs ys) (has_id x.id ys)
      (has_id_Mem x.id ys q n (e ∙ ap (λ (x : Payroll). x.id) same)) same
matching_both_complete (x ∷ xs) ys p (Memᴰ.tail m, q, n, e) =
    keeps_tail x p (matching_both xs ys) (has_id x.id ys)
      (matching_both_complete xs ys p (m, q, n, e))

-- A payroll that is in both lists, where no other one is.
abbrev pub IsOnlyInBoth : List Payroll → List Payroll → Payroll → Type 0
IsOnlyInBoth xs ys p = InBoth xs ys p × ((q : Payroll) → InBoth xs ys q → q ≡ p)

Mem_singleton : {p q : Payroll} → Memᴰ q (p ∷ []) → q ≡ p
Mem_singleton (Memᴰ.head e) = e
Mem_singleton (Memᴰ.tail m) = elim m [ ]

pub matching_both-IsOnlyInBoth :
    (xs ys : List Payroll) (p : Payroll) → matching_both xs ys ≡ p ∷ [] → IsOnlyInBoth xs ys p
matching_both-IsOnlyInBoth xs ys p only = (
  matching_both_sound xs ys p (subst (Memᴰ p) (sym only) (Memᴰ.head refl)),
  λ q both. Mem_singleton (subst (Memᴰ q) only (matching_both_complete xs ys q both)),
)
