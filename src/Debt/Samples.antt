-- ===== src/Debt/Samples.antt =====
-- The debt of the tests.
use aureum.Prelude.{none, arith}
use aureum.Prelude.Int.{pos}
use aureum.Debt.Account.{Debt, active, mortgage}
use aureum.Debt.Account.Balance.{IsValid}

abbrev pub debt : Debt
debt = record {
  id = "d1";
  user_id = "u1";
  name = "House";
  description = "";
  debt_type = mortgage;
  total_amount = pos 1000;
  remaining_amount = pos 600;
  interest_rate = pos 12;
  start_date = "2025-01-01";
  expected_end_date = "2035-01-01";
  status = active;
  creditor = "Bank";
  created_at = 1;
  updated_at = 1;
  deleted_at = none;
}

pub debt-IsValid : IsValid debt
debt-IsValid = ground arith
