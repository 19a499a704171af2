-- ===== src/Report/Tests.antt =====
-- The projectors of the report service at concrete events.
use aureum.Prelude.{String, ◌≡◌, refl, false, none, some, List, [], ◌∷◌, arith}
use aureum.Prelude.Dict.{lookup}
use aureum.Prelude.Int.{ℤ, pos, add64, sub64, wrap64, IsInt64, ◌+ℤ◌, ◌-ℤ◌}
use aureum.Report.Events.{
  ReportEvent, Value, Scan, income_created, fixed_expense_created, int64, other_value,
  extract_amount, extract_year_month, extract_category, uncategorized,
}
use aureum.Report.Monthly.{
  MonthlySummary, book, existing, handle, find_row, upsert_row, monthly_summary_repo,
}
use aureum.Report.Monthly.Totals
use aureum.Report.Monthly.Decoded
use aureum.Report.Monthly.Rows
use aureum.Report.Consumer.{project, handle_message}
use aureum.Report.Categories.{handle_category, category_summary, is_income, upsert_category}

-- The dates of the tests are not read.
abbrev no_scan : Scan
no_scan s period = period

abbrev event : List (String × Value) → ReportEvent
event payload = record {
  event_type = income_created;
  entity_id = "i1";
  user_id = "u1";
  payload = payload;
  timestamp = pos 0;
}

abbrev now : ℤ × ℤ
now = (pos 2026, pos 5)

-- An income of 100.00 as Go code makes it, and as it comes out of a message.
abbrev salary : ReportEvent
salary = event (("received_amount", int64 (pos 10000)) ∷ [])

abbrev decoded_salary : ReportEvent
decoded_salary = event (("received_amount", other_value) ∷ [])

abbrev month : MonthlySummary
month = record {
  user_id = "u1";
  year = pos 2026;
  month = pos 5;
  total_income = pos 500;
  total_expenses = pos 200;
  net_savings = pos 300;
}

month-IsBalanced : Totals.IsBalanced month
unfolding sub64 wrap64 ◌-ℤ◌
month-IsBalanced = refl

sum_in_range : IsInt64 (pos 500 +ℤ pos 40)
unfolding ◌+ℤ◌
sum_in_range = ground arith

abbrev call : Rows.Call
call = record {
  find_fails = false;
  upsert_fails = false;
  now = now;
  others = λ e. none;
  message = some salary;
}

consume_stays_empty_example : Rows.consume no_scan (call ∷ call ∷ []) [] ≡ []
consume_stays_empty_example = Rows.consume_stays_empty no_scan (call ∷ call ∷ [])

-- The same income is counted where the table has its month, and lost where it has not.
abbrev of_message : ReportEvent → Rows.Call
of_message e = record call { message = some e }

abbrev counted : MonthlySummary
counted = record month {
  total_income = pos 10500;
  total_expenses = pos 10200;
  net_savings = pos 300;
}

abbrev counted_calls : List Rows.Call
counted_calls = call ∷ of_message (record salary { event_type = fixed_expense_created }) ∷ []

salary_counts : Rows.consume no_scan counted_calls (month ∷ []) ≡ counted ∷ []
unfolding Rows.consume handle_message project handle monthly_summary_repo find_row upsert_row
    existing book extract_amount extract_year_month lookup add64 sub64 wrap64 ◌+ℤ◌ ◌-ℤ◌
salary_counts = refl

consume-AllBalanced_example : Totals.AllBalanced (Rows.consume no_scan counted_calls (month ∷ []))
consume-AllBalanced_example =
    Totals.consume-AllBalanced no_scan counted_calls (month ∷ []) (month-IsBalanced, tt)

abbrev decoded_calls : List Rows.Call
decoded_calls = of_message decoded_salary ∷ of_message decoded_salary ∷ []

month-IsValid : Decoded.IsValid month
month-IsValid = record {
  income_range = ground arith;
  income_nonneg = ground arith;
  expenses_range = ground arith;
  expenses_nonneg = ground arith;
  balanced = month-IsBalanced;
}

consume_decoded_example : Rows.consume no_scan decoded_calls (month ∷ []) ≡ month ∷ []
consume_decoded_example =
    Decoded.consume_decoded no_scan decoded_calls (month ∷ []) (refl, (refl, tt))
      (month-IsValid, tt)

-- Two incomes of the same category: the second replaces the first, and both are counted.
category_overwritten :
    let first = (handle_category (λ s. false) no_scan false now salary []).0 in
    (handle_category
      (λ s. false)
      no_scan
      false
      now
      (event (("received_amount", int64 (pos 1)) ∷ []))
      first).0
    ≡ record {
      user_id = "u1";
      year = pos 2026;
      month = pos 5;
      category_type = "income";
      category_name = uncategorized;
      total_amount = pos 1;
      txn_count = pos 2;
    }
      ∷ []
unfolding handle_category category_summary is_income upsert_category extract_amount extract_category
    extract_year_month lookup ◌+ℤ◌
category_overwritten = refl
