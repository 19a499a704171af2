-- ===== src/Report/Statements/Tests.antt =====
-- Statements of concrete tables.
use aureum.Prelude.{
  ℕ, String, ◌/◌, ◌%◌, ◌+◌, Bytes, ◌≡◌, ◌≢◌, refl, arith, false, none, some, List, [], ◌∷◌, Result,
  ok, err,
}
use aureum.Prelude.Dict.{lookup}
use aureum.Prelude.Int.{ℤ, pos, ◌+ℤ◌, add64, wrap64}
use aureum.Report.Errors.{Err, no_data}
use aureum.Report.Monthly.{
  MonthlySummary, MonthlyRepository, find_row, is_no_data, monthly_summary_repo,
}
use aureum.Report.Categories.{CategorySummary}
use aureum.Report.Statements.{
  World, Faults, IncomeStatementRequest, IncomeStatement, IncomePeriod, ScanYear, money_from_cents,
  amounts_of, or_none, parse_year, last_year, month_count, statement_loop, statement_of,
  compute_statement, get_income_statement,
}
use aureum.Report.Statements.Totals.{sum_periods, years_of, compute_statement-periods}
use aureum.Report.Statements.Rows.{compute_statement_complete}
use aureum.Report.Statements.Dates.{get_income_statement_ignores_dates}

abbrev memory : MonthlyRepository (List MonthlySummary)
memory = record {
  find_by_user_and_period =
      λ u y m rows. elim (find_row u y m rows) [ none ↦ err no_data | some r ↦ ok r ];
  upsert = λ r rows. ok (r ∷ rows);
}

abbrev no_categories : String → ℤ → ℤ → List MonthlySummary → Result Err (List CategorySummary)
no_categories u y m rows = ok []

abbrev scan_2026 : ScanYear
scan_2026 s = (pos 2026, false)

abbrev summary : ℤ → ℤ → MonthlySummary
summary month income = record {
  user_id = "u1";
  year = pos 2026;
  month = month;
  total_income = income;
  total_expenses = pos 0;
  net_savings = income;
}

abbrev rows : List MonthlySummary
rows = summary (pos 1) (pos 500) ∷ summary (pos 3) (pos 700) ∷ []

abbrev request : Bytes → IncomeStatementRequest
request date = record { user_id = "u1"; date_from = date; date_to = date; group_by = "" }

-- 2026
abbrev date : Bytes
date = b'2' ∷ b'0' ∷ b'2' ∷ b'6' ∷ []

abbrev period : ℕ → ℤ → IncomePeriod
period month income = record {
  year = pos 2026;
  month = month;
  categories = [];
  period_total = money_from_cents income;
}

abbrev statement : IncomeStatement
statement = record {
  periods = period 1 (pos 500) ∷ period 3 (pos 700) ∷ [];
  total_income = money_from_cents (pos 1200);
}

computed : compute_statement memory no_categories scan_2026 (request date) rows ≡ ok statement
unfolding compute_statement statement_loop statement_of parse_year last_year month_count find_row
    is_no_data or_none amounts_of add64 wrap64 ◌+ℤ◌
computed = refl

compute_statement-periods_example :
    (statement.periods ≡ years_of memory no_categories scan_2026 rows "u1" 2026 1)
    × (pos 1200 ≡ sum_periods (pos 0) statement.periods)
compute_statement-periods_example =
    compute_statement-periods memory no_categories scan_2026 (request date) rows 2026 0
      (omega arith) (omega arith, refl) (omega arith, refl) computed

abbrev world : World memory no_categories scan_2026
world = record { tables = rows; statements = []; summaries = [] }

abbrev no_faults : Faults
no_faults = record { cache_get = false; cache_set = false }

-- The second request has no date at all, which `parseYear` refuses.
get_income_statement_ignores_dates_example :
    (get_income_statement memory no_categories scan_2026 no_faults
      (request [])
      (get_income_statement memory no_categories scan_2026 no_faults (request date) world).0).1
    ≡ ok statement
unfolding get_income_statement lookup compute_statement statement_loop statement_of parse_year
    last_year month_count find_row is_no_data or_none amounts_of add64 wrap64 ◌+ℤ◌
get_income_statement_ignores_dates_example =
    get_income_statement_ignores_dates memory no_categories scan_2026 no_faults (request date)
      (request []) world refl refl refl refl refl

-- A summary of each month.
abbrev full_year : List MonthlySummary
full_year =
    summary (pos 1) (pos 1)
    ∷ summary (pos 2) (pos 1)
    ∷ summary (pos 3) (pos 1)
    ∷ summary (pos 4) (pos 1)
    ∷ summary (pos 5) (pos 1)
    ∷ summary (pos 6) (pos 1)
    ∷ summary (pos 7) (pos 1)
    ∷ summary (pos 8) (pos 1)
    ∷ summary (pos 9) (pos 1)
    ∷ summary (pos 10) (pos 1)
    ∷ summary (pos 11) (pos 1)
    ∷ summary (pos 12) (pos 1)
    ∷ []

abbrev full_statement : IncomeStatement
full_statement = record {
  periods =
      period 1 (pos 1)
      ∷ period 2 (pos 1)
      ∷ period 3 (pos 1)
      ∷ period 4 (pos 1)
      ∷ period 5 (pos 1)
      ∷ period 6 (pos 1)
      ∷ period 7 (pos 1)
      ∷ period 8 (pos 1)
      ∷ period 9 (pos 1)
      ∷ period 10 (pos 1)
      ∷ period 11 (pos 1)
      ∷ period 12 (pos 1)
      ∷ [];
  total_income = money_from_cents (pos 12);
}

compute_statement_complete_example :
    find_row "u1" (pos 2026 +ℤ pos (7 / 12)) (pos (7 % 12 + 1)) full_year ≢ none
unfolding compute_statement statement_loop statement_of parse_year last_year month_count find_row
    is_no_data or_none amounts_of add64 wrap64 ◌+ℤ◌ monthly_summary_repo
compute_statement_complete_example =
    compute_statement_complete no_categories scan_2026 (request date) full_year {r = full_statement}
      7 refl (omega arith)
