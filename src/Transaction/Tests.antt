-- ===== src/Transaction/Tests.antt =====
-- The theorems on incomes and expenses at concrete records.
use aureum.Prelude.{none, some, arith}
use aureum.Prelude.Int.{pos}
use aureum.Transaction.Types.{
  completed, cancelled, salary, cash, essential, emergency, valid_status, valid_income_type,
  valid_expense_type, valid_method,
}
use aureum.Transaction.Income
use aureum.Transaction.VariableExpense

abbrev income : Income.Income
income = record {
  id = "t1";
  user_id = "u1";
  description = "Pay";
  source = "Employer";
  income_type = salary;
  received_date = "2025-01-31";
  received_amount = pos 5000;
  status = completed;
  created_at = 1;
  updated_at = 1;
  deleted_at = none;
}

abbrev income_request : Income.UpdateIncomeInput
income_request = record {
  id = "t1";
  user_id = "u1";
  description = some "Bonus";
  source = none;
  income_type = none;
  received_date = none;
  received_amount = some (pos 0);
  status = some cancelled;
}

income-IsValid : Income.Updates.IsValid income
unfolding valid_status valid_income_type
income-IsValid = ground arith

abbrev variable_expense : VariableExpense.VariableExpense
variable_expense = record {
  id = "t3";
  user_id = "u1";
  description = "Food";
  destination = "Market";
  category = "food";
  expense_type = essential;
  payment_method = cash;
  payment_date = "2025-01-20";
  paid_amount = pos 90;
  status = cancelled;
  created_at = 1;
  updated_at = 1;
  deleted_at = none;
}

abbrev variable_expense_request : VariableExpense.UpdateVariableExpenseInput
variable_expense_request = record {
  id = "t3";
  user_id = "u1";
  description = none;
  destination = none;
  category = none;
  expense_type = some emergency;
  payment_method = none;
  payment_date = none;
  paid_amount = some (pos 80);
  status = none;
}

variable_expense-IsValid : VariableExpense.Updates.IsValid variable_expense
unfolding valid_status valid_expense_type valid_method
variable_expense-IsValid = ground arith
