-- ===== src/Budget/Plan/Limits.antt =====
-- The limits of a budget and of its categories.
use text.Mathlib.TextPositions.{eq_refl}
use aureum.Prelude.{
  ℕ, ◌+◌, ◌-◌, ◌^◌, ◌≤◌, ◌≡◌, refl, ap, ◌∙◌, false, none, some, List, [], ◌∷◌, map, arith, Result,
  ok, err, guards-ok, guards-Pass, is_empty, bytes_ltb, Pass,
}
use aureum.Budget.Plan.Updates.{apply_update}
use aureum.Prelude.Int.{ℤ, pos, pos_part, ◌+ℤ◌, ◌≤ℤ◌, ◌<ℤ◌, IsInt64, add64, add64_exact, wrap64}
use aureum.Budget.Errors.{Err}
use aureum.Budget.Plan.{
  Budget, BudgetCategory, CreateBudgetInput, CreateBudgetCategoryInput, UpdateBudgetInput,
  new_budget, budget_guards, sum_categories, within_limit, fresh_budget, fresh_category,
}

-- The sum of the limits of the categories, with no bound on its size.
abbrev pub sum_limits : List BudgetCategory → ℕ
sum_limits [] = 0
sum_limits (c ∷ cs) = pos_part c.limit_amount + sum_limits cs

abbrev pub sum_inputs : List CreateBudgetCategoryInput → ℕ
sum_inputs [] = 0
sum_inputs (c ∷ cs) = pos_part c.limit_amount + sum_inputs cs

-- Every category has a positive limit.
abbrev pub AllPositive : List BudgetCategory → Type 0
AllPositive [] = Unit
AllPositive (c ∷ cs) = (pos 0 <ℤ c.limit_amount) × AllPositive cs

sum_limits-fresh :
    (cs : List CreateBudgetCategoryInput) → sum_limits (map fresh_category cs) ≡ sum_inputs cs
unfolding fresh_category
sum_limits-fresh [] = refl
sum_limits-fresh (c ∷ cs) = omega (arith, sum_limits-fresh cs)

add64-nat :
    (a : ℕ) (b : ℤ)
    → pos 0 <ℤ b
    → a + pos_part b ≤ 2 ^ 63 - 1
    → add64 (pos a) b ≡ pos (a + pos_part b)
unfolding ◌+ℤ◌
add64-nat a b p h = ground (arith, add64_exact (pos a) b)

sum_categories-ok :
    (a : ℕ) (cs : List CreateBudgetCategoryInput) {r : ℤ}
    → a + sum_inputs cs ≤ 2 ^ 63 - 1
    → sum_categories (pos a) cs ≡ ok r
    → (r ≡ pos (a + sum_inputs cs)) × AllPositive (map fresh_category cs)
unfolding sum_categories fresh_category
sum_categories-ok a [] h e = ground arith
sum_categories-ok a (c ∷ cs) {r} h e =
    ground (
      arith,
      add64-nat a c.limit_amount,
      sum_categories-ok (a + pos_part c.limit_amount) cs {r = r},
    )

within_limit-ok :
    (now : ℕ) (i : CreateBudgetInput) (r : Result Err ℤ) {b : Budget}
    → within_limit now i r ≡ ok b
    → (sum : ℤ) × (r ≡ ok sum) × (sum ≤ℤ i.total_limit) × (b ≡ fresh_budget now i)
unfolding within_limit
within_limit-ok now i (ok sum) h = (sum, refl, ground arith, ground arith)
within_limit-ok now i (err e) h = cc

date_order :
    (i : CreateBudgetInput) → Pass (budget_guards i) → bytes_ltb i.end_date i.start_date ≡ false
unfolding budget_guards
date_order i p = ground arith

-- A budget is created with positive limits for its categories, which together do not exceed its own,
-- if the sum of the limits that are asked for is an int64. Its dates are in order.
pub new_budget-limits :
    (now : ℕ) (i : CreateBudgetInput) {b : Budget}
    → sum_inputs i.categories ≤ 2 ^ 63 - 1
    → new_budget now i ≡ ok b
    → AllPositive b.categories
      × (pos (sum_limits b.categories) ≤ℤ b.total_limit)
      × (bytes_ltb b.end_date b.start_date ≡ false)
unfolding new_budget fresh_budget
new_budget-limits now i fits h =
    let (p, q) =
      guards-ok (budget_guards i) (within_limit now i (sum_categories (pos 0) i.categories)) h in
    let (sum, r, le, e) = within_limit-ok now i (sum_categories (pos 0) i.categories) q in
    let (s, a) = sum_categories-ok 0 i.categories (omega arith) r in
    rw e (a, ground (arith, sum_limits-fresh i.categories, s), date_order i p)

add64-negative :
    (a b : ℤ)
    → IsInt64 a
    → IsInt64 b
    → pos 0 <ℤ a
    → pos 0 <ℤ b
    → 2 ^ 63 ≤ pos_part a + pos_part b
    → add64 (add64 (pos 0) a) b <ℤ pos 0
unfolding add64 wrap64 ◌+ℤ◌
add64-negative a b ha hb pa pb big = ground arith

within_limit_two :
    (now : ℕ) (i : CreateBudgetInput) (c d : CreateBudgetCategoryInput)
    → is_empty c.name ≡ false
    → is_empty d.name ≡ false
    → pos 0 <ℤ c.limit_amount
    → pos 0 <ℤ d.limit_amount
    → add64 (add64 (pos 0) c.limit_amount) d.limit_amount <ℤ pos 0
    → pos 0 <ℤ i.total_limit
    → within_limit now i (sum_categories (pos 0) (c ∷ d ∷ [])) ≡ ok (fresh_budget now i)
unfolding within_limit sum_categories
within_limit_two now i c d nc nd pc pd neg total = ground arith

positive_total : (i : CreateBudgetInput) → Pass (budget_guards i) → pos 0 <ℤ i.total_limit
unfolding budget_guards
positive_total i p = ground arith

-- The sum of two positive limits that is no int64 wraps to a negative number, and so two categories
-- that exceed any total limit together are accepted.
pub new_budget_wraps :
    (now : ℕ) (i : CreateBudgetInput) (c d : CreateBudgetCategoryInput)
    → Pass (budget_guards i)
    → i.categories ≡ c ∷ d ∷ []
    → is_empty c.name ≡ false
    → is_empty d.name ≡ false
    → IsInt64 c.limit_amount
    → IsInt64 d.limit_amount
    → pos 0 <ℤ c.limit_amount
    → pos 0 <ℤ d.limit_amount
    → 2 ^ 63 ≤ pos_part c.limit_amount + pos_part d.limit_amount
    → new_budget now i ≡ ok (fresh_budget now i)
unfolding new_budget
new_budget_wraps now i c d p e nc nd hc hd pc pd big =
    guards-Pass (budget_guards i) (within_limit now i (sum_categories (pos 0) i.categories)) p
    ∙ ap (λ cs. within_limit now i (sum_categories (pos 0) cs)) e
    ∙ within_limit_two now i c d nc nd pc pd
        (add64-negative c.limit_amount d.limit_amount hc hd pc pd big) (positive_total i p)

-- A request that sets the total limit alone.
abbrev pub total_update : Budget → ℤ → UpdateBudgetInput
total_update b v = record {
  id = b.id;
  user_id = b.user_id;
  name = none;
  description = none;
  period = none;
  total_limit = some v;
  start_date = none;
  end_date = none;
  status = none;
}

-- An update of the total limit is not compared with the categories: any positive limit below what
-- they add up to is accepted.
pub apply_update_undercuts :
    (now : ℕ) (v : ℤ) (b : Budget)
    → pos 0 <ℤ v
    → v <ℤ pos (sum_limits b.categories)
    → let (b', e) = apply_update now (total_update b v) b in
      (e ≡ none) × (b'.total_limit <ℤ pos (sum_limits b'.categories))
unfolding apply_update
apply_update_undercuts now v b p lt = ground (arith, eq_refl b.user_id)
