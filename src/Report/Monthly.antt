-- ===== src/Report/Monthly.antt =====
-- `MonthlySummaryProjector` of apps/report-svc/internal/application/projectors.go, over the interface
-- `MonthlySummaryRepository` and over internal/infrastructure/persistence/monthly_summary_repo.go.
pub mod Totals
pub mod Decoded
pub mod Deletions
pub mod Rows
use aureum.Prelude.{
  ℕ, String, Bool, true, false, not, ◌&&◌, ◌||◌, Option, none, some, List, [], ◌∷◌, str_eq,
  if◌then◌else◌, Result, ok, err,
}
use aureum.Prelude.Int.{ℤ, pos, add64, sub64, ltb_ℤ, eqb_ℤ}
use aureum.Report.Errors.{Err, no_data, database}
use aureum.Report.Events.{
  EventType, ReportEvent, Scan, extract_amount, extract_year_month, income_created, income_deleted,
  fixed_expense_created, fixed_expense_deleted, variable_expense_created, variable_expense_deleted,
}

pub record MonthlySummary : Type 0 where
  pub user_id : String
  pub year : ℤ
  pub month : ℤ
  pub total_income : ℤ  -- int64
  pub total_expenses : ℤ  -- int64
  pub net_savings : ℤ  -- int64

-- `MonthlySummaryRepository`
pub record MonthlyRepository (S : Type 0) : Type 0 where
  pub find_by_user_and_period : String → ℤ → ℤ → S → Result Err MonthlySummary
  pub upsert : MonthlySummary → S → Result Err S

abbrev pub new_summary : String → ℤ → ℤ → MonthlySummary
new_summary user_id year month = record {
  user_id = user_id;
  year = year;
  month = month;
  total_income = pos 0;
  total_expenses = pos 0;
  net_savings = pos 0;
}

-- `x -= amount; if x < 0 { x = 0 }`
abbrev pub lower : ℤ → ℤ → ℤ
lower x amount = let left = sub64 x amount in if ltb_ℤ left (pos 0) then pos 0 else left

abbrev pub set_income : ℤ → MonthlySummary → MonthlySummary
set_income v m = record m { total_income = v; net_savings = sub64 v m.total_expenses }

abbrev pub set_expenses : ℤ → MonthlySummary → MonthlySummary
set_expenses v m = record m { total_expenses = v; net_savings = sub64 m.total_income v }

-- The switch of `Handle`.
unfoldable pub book : EventType → ℤ → MonthlySummary → MonthlySummary
book income_created amount m = set_income (add64 m.total_income amount) m
book income_deleted amount m = set_income (lower m.total_income amount) m
book fixed_expense_created amount m = set_expenses (add64 m.total_expenses amount) m
book variable_expense_created amount m = set_expenses (add64 m.total_expenses amount) m
book fixed_expense_deleted amount m = set_expenses (lower m.total_expenses amount) m
book variable_expense_deleted amount m = set_expenses (lower m.total_expenses amount) m
book other amount m = m

-- `err == domain.ErrNoData`
unfoldable pub is_no_data : Err → Bool
is_no_data no_data = true
is_no_data e = false

-- The summary that is updated: the one that was found, or a new one.
unfoldable pub existing : Result Err MonthlySummary → MonthlySummary → Result Err MonthlySummary
unfolding is_no_data
existing (ok m) fresh = ok m
existing (err e) fresh = if is_no_data e then ok fresh else err e

-- `MonthlySummaryProjector.Handle`
module _ {S : Type 0} (repo : MonthlyRepository S) (scan : Scan) where
  unfoldable pub handle : ℤ × ℤ → ReportEvent → S → S × Option Err
  handle now event s =
      let (year, month) = extract_year_month scan now event in
      let found = repo.find_by_user_and_period event.user_id year month s in
      elim (existing found (new_summary event.user_id year month)) [
        | err e ↦ (s, some e)
        | ok m ↦ elim (repo.upsert (book event.event_type (extract_amount event) m) s) [
          | err e ↦ (s, some e)
          | ok t ↦ (t, none)
        ]
      ]

-- `WHERE user_id=$1 AND year=$2 AND month=$3`
abbrev pub has_key : String → ℤ → ℤ → MonthlySummary → Bool
has_key user_id year month r = str_eq r.user_id user_id && eqb_ℤ r.year year && eqb_ℤ r.month month

unfoldable pub find_row : String → ℤ → ℤ → List MonthlySummary → Option MonthlySummary
find_row user_id year month [] = none
find_row user_id year month (r ∷ rs) =
    let rest = find_row user_id year month rs in
    if has_key user_id year month r then some r else rest

-- `ON CONFLICT (user_id, year, month) DO UPDATE`
unfoldable pub upsert_row : MonthlySummary → List MonthlySummary → List MonthlySummary
upsert_row s [] = s ∷ []
upsert_row s (r ∷ rs) =
    let rest = upsert_row s rs in
    if has_key s.user_id s.year s.month r
    then record r {
      total_income = s.total_income;
      total_expenses = s.total_expenses;
      net_savings = s.net_savings;
    }
      ∷ rs
    else r ∷ rest

-- `CHECK (month >= 1 AND month <= 12)`
abbrev pub month_refused : ℤ → Bool
month_refused month = ltb_ℤ month (pos 1) || ltb_ℤ (pos 12) month

-- `MonthlySummaryRepo`, with the calls that fail. A query with no row is an error of the driver,
-- which `FindByUserAndPeriod` wraps as it does every other.
unfoldable pub monthly_summary_repo : Bool → Bool → MonthlyRepository (List MonthlySummary)
monthly_summary_repo find_fails upsert_fails = record {
  find_by_user_and_period = λ user_id year month rows. elim (find_row user_id year month rows) [
    | none ↦ err database
    | some r ↦ if find_fails then err database else ok r
  ];
  upsert = λ s rows.
      if upsert_fails || month_refused s.month then err database else ok (upsert_row s rows);
}
