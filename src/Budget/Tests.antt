-- ===== src/Budget/Tests.antt =====
-- The theorems on budgets at concrete budgets.
use aureum.Prelude.{◌^◌, ◌≡◌, refl, false, [], ◌∷◌, arith, ok, Bytes, bytes_ltb, Pass}
use aureum.Prelude.Int.{pos, ◌+ℤ◌, ◌≤ℤ◌, add64, wrap64}
use aureum.Budget.Plan.{
  Budget, CreateBudgetInput, CreateBudgetCategoryInput, monthly, active, new_budget, fresh_budget,
  budget_guards,
}
use aureum.Budget.Plan.Limits

abbrev january : Bytes
january = b'0' ∷ b'1' ∷ []

abbrev february : Bytes
february = b'0' ∷ b'2' ∷ []

abbrev food : CreateBudgetCategoryInput
food = record { name = "Food"; limit_amount = pos 300; category = "food" }

abbrev rent : CreateBudgetCategoryInput
rent = record { name = "Rent"; limit_amount = pos 600; category = "home" }

abbrev input : CreateBudgetInput
input = record {
  user_id = "u1";
  name = "January";
  description = "";
  period = monthly;
  total_limit = pos 1000;
  start_date = january;
  end_date = february;
  categories = food ∷ rent ∷ [];
  status = active;
}

abbrev budget : Budget
unfolding fresh_budget
budget = fresh_budget 1 input

budget-ok : new_budget 1 input ≡ ok budget
unfolding new_budget add64 wrap64 ◌+ℤ◌
budget-ok = refl

new_budget-limits_example :
    Limits.AllPositive budget.categories
    × (pos (Limits.sum_limits budget.categories) ≤ℤ budget.total_limit)
    × (bytes_ltb budget.end_date budget.start_date ≡ false)
new_budget-limits_example = Limits.new_budget-limits 1 input (omega arith) budget-ok

-- Half of the range of an int64.
abbrev huge : CreateBudgetCategoryInput
huge = record { name = "Huge"; limit_amount = pos (2 ^ 62); category = "" }

abbrev huge_input : CreateBudgetInput
huge_input = record input { categories = huge ∷ huge ∷ [] }

huge-Pass : Pass (budget_guards huge_input)
unfolding budget_guards
huge-Pass = ground arith
