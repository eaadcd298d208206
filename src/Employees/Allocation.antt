-- ===== src/Employees/Allocation.antt =====
-- How much of a salary an update lets an employee allocate.
use noba_server.Common.Base.{
  ◌≡◌, refl, sym, ◌∙◌, subst, ℕ, suc, ◌+◌, ◌*◌, ◌-◌, ◌/◌, ◌≤◌, ◌<◌, ◌⊎◌, String, Bool-cases, Option,
  some, none, inl, inr, arith,
}
use native.Mathlib.Nat
use noba_server.Common.Int.{pos, negsuc, pos_part}
use noba_server.Common.Amount.{Amount}
use noba_server.Common.Action.{ok}
use noba_server.Transactions.Domain.{Rate, round_product}
use noba_server.Employees.Domain.{
  Employee, Employer, EmployeeUpdateRequest, UpdateEmployeeRequestDto, share, exceeds,
}
use noba_server.Employees.Environment.{Environment, World}
use noba_server.Employees.Runs.{update_employee-eq-ok, update_found-eq-ok, repo_update-eq-ok}
use noba_server.Employees.Repo
use noba_server.Employees.Service.{
  cap, update_request, update_employee, or_else, hundred_percent, not_negative_or,
}

-- The amount is the share of the salary, rounded to the nearest cent, which is 100 units.
abbrev pub IsRoundedShare : Amount → Amount → Rate → Type 0
IsRoundedShare amount salary percent =
    let whole : ℕ = 100 * suc percent.predecessor in
    let share : ℕ = percent.numerator * pos_part salary in
    ((cents : ℕ) × (pos_part amount ≡ cents * 100))
    × (whole * pos_part amount ≤ share + 50 * whole)
    × (share < whole * pos_part amount + 50 * whole)

-- The amount is not negative, and at most the share of the salary, or that share rounded.
abbrev pub IsWithin : Amount → Amount → Rate → Type 0
IsWithin amount salary percent =
    (amount ≡ pos (pos_part amount))
    × ((100 * suc percent.predecessor * pos_part amount ≤ percent.numerator * pos_part salary)
        ⊎ IsRoundedShare amount salary percent)

scaled : (q d x : ℕ) → q * (200 * d) ≤ 2 * x + 100 * d → d * (q * 100) ≤ x + 50 * d
scaled q d x h = omega arith

scaled_below : (q d x : ℕ) → 2 * x + 100 * d < q * (200 * d) + 200 * d → x < d * (q * 100) + 50 * d
scaled_below q d x h = omega arith

rounded-IsWithin :
    (m : ℕ) (percent : Rate) → IsWithin (round_product (pos m) (share percent)) (pos m) percent
unfolding round_product
rounded-IsWithin m percent =
    let d : ℕ = 100 * suc percent.predecessor in
    let whole : suc (d - 1) ≡ d = omega arith in
    let n : ℕ = 2 * m * percent.numerator + 100 * suc (d - 1) in
    let q : ℕ = n / (200 * suc (d - 1)) in
    let below : q * (200 * d) ≤ 2 * (percent.numerator * m) + 100 * d =
      subst (λ k. q * (200 * k) ≤ 2 * (percent.numerator * m) + 100 * k) whole
        (omega (arith, Nat.div-mul-le_self n (200 * suc (d - 1)))) in
    let positive : 0 < 200 * suc (d - 1) = omega arith in
    let above : 2 * (percent.numerator * m) + 100 * d < q * (200 * d) + 200 * d =
      subst (λ k. 2 * (percent.numerator * m) + 100 * k < q * (200 * k) + 200 * k) whole
        (omega (arith, Nat.lt-div-mul-add {a = n} positive)) in
    (
      refl,
      inr (
        (q, refl),
        scaled q d (percent.numerator * m) below,
        scaled_below q d (percent.numerator * m) above,
      ),
    )

-- The amount that the table is told is within the share of the salary that it is told.
cap-IsWithin :
    (a m : ℕ) (percent : Rate) → IsWithin (cap (pos a) (some (pos m)) percent) (pos m) percent
unfolding cap
cap-IsWithin a m percent = elim (Bool-cases (exceeds (pos a) (pos m) percent)) [
  | inl above ↦ rw above (rounded-IsWithin m percent)
  | inr below ↦ rw below (refl, inl (ground (arith, below)))
]

kept : (x : Amount) {a : Amount} → Repo.keep_not_negative (some x) ≡ some a → x ≡ a
kept (pos n) h = ground arith
kept (negsuc n) h = absurd (ground arith)

keep_twice :
    (x : Option Amount)
    → Repo.keep_not_negative (Repo.keep_not_negative x) ≡ Repo.keep_not_negative x
keep_twice none = refl
keep_twice (some (pos n)) = ground arith
keep_twice (some (negsuc n)) = ground arith

-- What is left of a number that is not negative.
capped :
    (percent : Rate) (amount : Amount) (salary : Option Amount) {a s : Amount}
    → Repo.keep_not_negative (some (cap amount salary percent)) ≡ some a
    → Repo.keep_not_negative salary ≡ some s
    → IsWithin a s percent
unfolding cap
capped percent amount none h k = absurd (ground arith)
capped percent amount (some (negsuc m)) h k = absurd (ground arith)
capped percent (pos n) (some (pos m)) {a} {s} h k =
    subst (λ b. IsWithin b s percent) (kept (cap (pos n) (some (pos m)) percent) h)
      (subst (λ b. IsWithin (cap (pos n) (some (pos m)) percent) b percent) (kept (pos m) k)
        (cap-IsWithin n m percent))
capped percent (negsuc n) (some (pos m)) h k = absurd (ground arith)

abbrev pub percent_of : Employer → Rate
percent_of employer = or_else employer.max_allocation_percent hundred_percent

module _ {D N : Type 0} (env : Environment D N) where
  -- What an update that returned has told the table: where it names a salary, the allocation that
  -- it names is within the share of it that the employer allows, of 100 % if it does not say.
  pub record IsCapped (id : String) (e : Employee) (w w' : World D N) : Type 0 where
    pub before : Employee
    pub employer : Employer
    pub input : EmployeeUpdateRequest
    pub row : Employee
    pub found : env.find_unique id w.table ≡ ok (some before)
    pub employed : (Repo.convert_to_domain_employee before).employer ≡ some employer
    pub updated : env.update id input w.table ≡ (ok row, w'.table)
    pub given : e ≡ Repo.convert_to_domain_employee row
    pub capped :
        (a s : Amount)
        → input.allocation_amount ≡ some a
        → input.salary ≡ some s
        → IsWithin a s (percent_of employer)

  told_IsWithin :
      (request : UpdateEmployeeRequestDto) (employee : Employee) (employer : Employer)
      (a s : Amount)
      → let input = Repo.to_update_input (update_request request employee employer) in
        input.allocation_amount ≡ some a
        → input.salary ≡ some s
        → IsWithin a s (percent_of employer)
  unfolding update_request
  told_IsWithin request employee employer a s h k =
      let salary = not_negative_or request.salary employee.salary in
      let amount =
        or_else (not_negative_or request.allocation_amount none) employee.allocation_amount in
      capped (percent_of employer) amount salary
        (sym (keep_twice (some (cap amount salary (percent_of employer)))) ∙ h)
        (sym (keep_twice salary) ∙ k)

  -- An update of an employee that returns was one of an employee that is there, and where it told
  -- the table a salary, the allocation that it told is not negative, and is at most the share of that
  -- salary which the employer allows, or is that share rounded to the nearest cent.
  pub update_employee-IsCapped :
      (id : String) (request : UpdateEmployeeRequestDto) (w : World D N) {w' : World D N}
      {e : Employee}
      → update_employee env id request w ≡ (ok e, w')
      → IsCapped id e w w'
  update_employee-IsCapped id request w h =
      let (before, found, h1) = update_employee-eq-ok env id request w h in
      let employee = Repo.convert_to_domain_employee before in
      let (employer, employed, _, _, h2) = update_found-eq-ok env id request employee w h1 in
      let told = update_request request employee employer in
      let (row, updated, given) = repo_update-eq-ok env id told w h2 in
      record {
        before = before;
        employer = employer;
        input = Repo.to_update_input told;
        row = row;
        found = found;
        employed = employed;
        updated = updated;
        given = given;
        capped = told_IsWithin request employee employer;
      }
